-- ===== src/Llist/Tests.antt =====
-- libutils/llist.h on a small memory.
use program_learning.Prelude.{◌≢◌, ℕ, ℕ, ◌≡◌, refl, true, some, [], ◌∷◌, arith}
use mathlib.Core.List.{reverse}
use program_learning.Llist.{
  Memory, link, LlistHead, init_llist_head, llist_empty, llist_for_each, llist_add, llist_del_all,
  llist_del_first, llist_reverse_order,
}
use program_learning.Llist.Chain.{
  Chain, Lacks, Distinct, Deletes, llist_reverse_order-Chain, llist_add-Chain, llist_del-Chain,
}

-- Three nodes: 4, 2, 9.
abbrev memory : Memory
memory = link 4 2 (link 2 9 (link 9 0 (λ x. 0)))

abbrev head : LlistHead
head = record { memory = memory; first = 4 }

walk_runs : llist_for_each 3 memory 4 ≡ some (4 ∷ 2 ∷ 9 ∷ [])
unfolding llist_for_each
walk_runs = refl

emptied : llist_empty (init_llist_head head) ≡ true
unfolding llist_empty init_llist_head
emptied = refl

three-Chain : Chain memory 4 (4 ∷ 2 ∷ 9 ∷ [])
three-Chain = (
  refl,
  (λ e. absurd (omega arith)),
  (refl, (λ e. absurd (omega arith)), (refl, (λ e. absurd (omega arith)), refl)),
)

three-Distinct : Distinct (4 ∷ 2 ∷ 9 ∷ [])
three-Distinct = omega arith

llist_reverse_order-Chain_example :
    (memory' : Memory) × (new_head : ℕ) × (llist_reverse_order 3 memory 4
      ≡ some (memory', new_head))
    × Chain memory' new_head (reverse (4 ∷ 2 ∷ 9 ∷ []))
    × (llist_for_each 3 memory' new_head ≡ some (reverse (4 ∷ 2 ∷ 9 ∷ [])))
    × ((a : ℕ) → Lacks a (4 ∷ 2 ∷ 9 ∷ []) → memory' a ≡ memory a)
llist_reverse_order-Chain_example =
    llist_reverse_order-Chain 3 memory 4 (4 ∷ 2 ∷ 9 ∷ []) (omega arith) three-Distinct three-Chain

llist_add-Chain_example :
    (head' : LlistHead) × (llist_add 5 head ≡ some (true, head'))
    × Chain head'.memory head'.first (4 ∷ 2 ∷ 9 ∷ [])
    × (head'.first ≡ 4)
    × (head'.memory 5 ≡ 4)
    × ((a : ℕ) → a ≢ 5 → head'.memory a ≡ memory a)
llist_add-Chain_example =
    llist_add-Chain 5 head (4 ∷ 2 ∷ 9 ∷ []) (λ e. absurd (omega arith)) (omega arith) three-Chain

llist_del-Chain_example :
    ((head' : LlistHead) × (llist_del_all head ≡ (4, head'))
      × (llist_empty head' ≡ true)
      × (head'.memory ≡ memory))
    × Deletes head (4 ∷ 2 ∷ 9 ∷ []) (llist_del_first head)
llist_del-Chain_example = llist_del-Chain head (4 ∷ 2 ∷ 9 ∷ []) three-Chain
