-- ===== src/Llist.antt =====
-- libutils/llist.h, a list of linked nodes. The memory gives the `next` of each node; a pointer is an
-- address, NULL is 0. A use of NULL is `none`.
pub mod Chain
mod Tests
use program_learning.Prelude.{
  ℕ, zero, suc, Bool, true, Option, none, some, List, [], ◌∷◌, ◌==◌, if◌then◌else◌,
}

-- `next` of every node.
abbrev pub Memory : Type 0
Memory = ℕ → ℕ

-- `node->next = next`
abbrev pub link : ℕ → ℕ → Memory → Memory
link node next memory x = if x == node then next else memory x

-- `struct llist_head`, with the memory that its nodes are in.
pub record LlistHead : Type 0 where
  pub memory : Memory
  pub first : ℕ

-- `init_llist_head`
pub init_llist_head : LlistHead → LlistHead
init_llist_head list = record list { first = 0 }

-- `llist_empty`
pub llist_empty : LlistHead → Bool
llist_empty head = head.first == 0

-- `llist_next`
pub llist_next : Memory → ℕ → Option ℕ
llist_next memory zero = none
llist_next memory (suc n) = some (memory (suc n))

-- `llist_for_each`: the nodes that it visits; `none` is that the fuel ran out.
pub llist_for_each : ℕ → Memory → ℕ → Option (List ℕ)
llist_for_each fuel memory zero = some []
llist_for_each zero memory (suc n) = none
llist_for_each (suc fuel) memory (suc n) = elim (llist_for_each fuel memory (memory (suc n))) [
  | none ↦ none
  | some nodes ↦ some (suc n ∷ nodes)
]

-- `llist_add_batch`
pub llist_add_batch : ℕ → ℕ → LlistHead → Option (Bool × LlistHead)
llist_add_batch new_first zero head = none
llist_add_batch new_first (suc new_last) head =
    some (true, record head { memory = link (suc new_last) head.first head.memory })

-- `llist_add`
pub llist_add : ℕ → LlistHead → Option (Bool × LlistHead)
unfolding llist_add_batch
llist_add new head = llist_add_batch new new head

-- `llist_del_all`
pub llist_del_all : LlistHead → ℕ × LlistHead
llist_del_all head = if head.first == 0 then (0, head) else (head.first, record head { first = 0 })

-- `llist_del_first`
pub llist_del_first : LlistHead → Option (ℕ × LlistHead)
unfolding llist_next
llist_del_first head = elim (llist_next head.memory head.first) [
  | none ↦ none
  | some next ↦ some (head.first, record head { first = next })
]

-- `while (head)` of `llist_reverse_order`; `none` is that the fuel ran out.
pub reverse_loop : ℕ → Memory → ℕ → ℕ → Option (Memory × ℕ)
reverse_loop fuel memory zero new_head = some (memory, new_head)
reverse_loop zero memory (suc n) new_head = none
reverse_loop (suc fuel) memory (suc n) new_head =
    reverse_loop fuel (link (suc n) new_head memory) (memory (suc n)) (suc n)

-- `llist_reverse_order`
pub llist_reverse_order : ℕ → Memory → ℕ → Option (Memory × ℕ)
unfolding reverse_loop
llist_reverse_order fuel memory head = reverse_loop fuel memory head 0
