-- ===== src/Llist/Chain.antt =====
-- The chains of nodes of libutils/llist.h, and what its operations do to them.
use program_learning.Prelude.{
  ℕ, zero, suc, ◌+◌, ◌≤◌, ◌≡◌, ◌≢◌, refl, ap, sym, ◌∙◌, inl, inr, true, Option, none, some, List,
  [], ◌∷◌, ◌++◌, arith, length, ◌==◌, Bool-cases, append_assoc, append-nil, subst,
}
use mathlib.Core.List.{reverse, reverse-cons}
use program_learning.Llist.{
  Memory, link, LlistHead, llist_empty, llist_next, llist_for_each, llist_add, llist_del_all,
  llist_del_first, reverse_loop, llist_reverse_order,
}

-- From `p` on, the nodes are linked in this order, and the last one to NULL.
abbrev pub Chain : Memory → ℕ → List ℕ → Type 0
Chain memory p [] = p ≡ 0
Chain memory p (x ∷ xs) = (p ≡ x) × (x ≢ 0) × Chain memory (memory x) xs

abbrev pub Lacks : ℕ → List ℕ → Type 0
Lacks a [] = Unit {0}
Lacks a (x ∷ xs) = (x ≢ a) × Lacks a xs

-- No node stands in it twice.
abbrev pub Distinct : List ℕ → Type 0
Distinct [] = Unit {0}
Distinct (x ∷ xs) = Lacks x xs × Distinct xs

link_other :
    (node next : ℕ) (memory : Memory) (x : ℕ) → x ≢ node → link node next memory x ≡ memory x
link_other node next memory x h = ground (arith, h)

link_self : (node next : ℕ) (memory : Memory) → link node next memory node ≡ next
link_self node next memory = ground arith

-- A link of a node that is not in a chain leaves it.
link-Chain :
    (memory : Memory) (node next p : ℕ) (xs : List ℕ)
    → Lacks node xs
    → Chain memory p xs
    → Chain (link node next memory) p xs
link-Chain memory node next p [] l c = c
link-Chain memory node next p (x ∷ xs) (ne, l) (e, nz, c) =
    (e, nz, rw (link_other node next memory x ne) (link-Chain memory node next (memory x) xs l c))

abbrev Apart : List ℕ → List ℕ → Type 0
Apart [] ys = Unit {0}
Apart (x ∷ xs) ys = Lacks x ys × Apart xs ys

Apart-cons : (xs ys : List ℕ) (a : ℕ) → Lacks a xs → Apart xs ys → Apart xs (a ∷ ys)
Apart-cons [] ys a l h = tt
Apart-cons (x ∷ xs) ys a (ne, l) (lacks, h) = ((λ e. ne (sym e), lacks), Apart-cons xs ys a l h)

Apart-nil : (xs : List ℕ) → Apart xs []
Apart-nil [] = tt
Apart-nil (x ∷ xs) = (tt, Apart-nil xs)

-- The nodes in reverse order, before others.
abbrev rev_onto : List ℕ → List ℕ → List ℕ
rev_onto [] ys = ys
rev_onto (x ∷ xs) ys = rev_onto xs (x ∷ ys)

rev_onto-reverse : (xs ys : List ℕ) → rev_onto xs ys ≡ reverse xs ++ ys
rev_onto-reverse [] ys = refl
rev_onto-reverse (x ∷ xs) ys =
    rev_onto-reverse xs (x ∷ ys)
    ∙ sym (append_assoc (reverse xs) (x ∷ []) ys)
    ∙ ap (λ l. l ++ ys) (sym (reverse-cons x xs))

-- What is left and what is done of a reversal.
reverse_loop-Chain :
    (fuel : ℕ) (memory : Memory) (p q : ℕ) (xs ys : List ℕ)
    → length xs ≤ fuel
    → Distinct xs
    → Apart xs ys
    → Chain memory p xs
    → Chain memory q ys
    → (memory' : Memory) × (r : ℕ) × (reverse_loop fuel memory p q ≡ some (memory', r))
      × Chain memory' r (rev_onto xs ys)
      × ((a : ℕ) → Lacks a xs → memory' a ≡ memory a)
unfolding reverse_loop
reverse_loop-Chain fuel memory p q [] ys f d a c e =
    (memory, q, ap (λ k. reverse_loop fuel memory k q) c, e, λ x l. refl)
reverse_loop-Chain zero memory p q (x ∷ xs) ys f d a c e = absurd (omega arith)
reverse_loop-Chain (suc fuel) memory zero q (x ∷ xs) ys f d a (same, nz, c) e =
    absurd (nz (sym same))
reverse_loop-Chain (suc fuel) memory (suc n) q (x ∷ xs) ys f (lacks, d) (fresh, a) (same, nz, c) e =
    let (memory', r, run, chain, rest) =
      reverse_loop-Chain fuel (link (suc n) q memory) (memory (suc n)) (suc n) xs (suc n ∷ ys)
        (omega arith) d (Apart-cons xs ys (suc n) lacks' a)
        (link-Chain memory (suc n) q (memory (suc n)) xs lacks'
          (subst (λ k. Chain memory (memory k) xs) (sym same) c))
        (
          refl,
          (λ z. nz (sym same ∙ z)),
          subst (λ k. Chain (link (suc n) q memory) k ys) (sym (link_self (suc n) q memory))
              (link-Chain memory (suc n) q q ys (subst (λ k. Lacks k ys) (sym same) fresh) e),
        ) in
    (
      memory',
      r,
      run,
      subst (λ k. Chain memory' r (rev_onto xs (k ∷ ys))) same chain,
      λ b l. rest b l.1 ∙ link_other (suc n) q memory b (λ z. l.0 (sym same ∙ sym z)),
    )
  where
    lacks' : Lacks (suc n) xs
    lacks' = subst (λ k. Lacks k xs) (sym same) lacks

-- The nodes that a walk visits.
llist_for_each-Chain :
    (fuel : ℕ) (memory : Memory) (p : ℕ) (nodes : List ℕ)
    → length nodes ≤ fuel
    → Chain memory p nodes
    → llist_for_each fuel memory p ≡ some nodes
unfolding llist_for_each
llist_for_each-Chain fuel memory p [] f c = ap (llist_for_each fuel memory) c
llist_for_each-Chain zero memory p (x ∷ xs) f c = absurd (omega arith)
llist_for_each-Chain (suc fuel) memory zero (x ∷ xs) f (same, nz, c) = absurd (nz (sym same))
llist_for_each-Chain (suc fuel) memory (suc n) (x ∷ xs) f (same, nz, c) =
    (rw
      (llist_for_each-Chain fuel memory (memory (suc n)) xs (omega arith)
        (subst (λ k. Chain memory (memory k) xs) (sym same) c))
      refl)
    ∙ ap (λ k. some (k ∷ xs)) same

length-rev_onto : (xs ys : List ℕ) → length (rev_onto xs ys) ≡ length xs + length ys
length-rev_onto [] ys = omega arith
length-rev_onto (x ∷ xs) ys = omega (arith, length-rev_onto xs (x ∷ ys))

-- Given a chain of nodes, none of them twice, `llist_reverse_order` ends with fuel for each node and
-- links the same nodes in the reverse order, which is the order that `llist_for_each` then visits
-- them in; all other nodes stay as they are.
pub llist_reverse_order-Chain :
    (fuel : ℕ) (memory : Memory) (head : ℕ) (nodes : List ℕ)
    → length nodes ≤ fuel
    → Distinct nodes
    → Chain memory head nodes
    → (memory' : Memory) × (new_head : ℕ) × (llist_reverse_order fuel memory head
        ≡ some (memory', new_head))
      × Chain memory' new_head (reverse nodes)
      × (llist_for_each fuel memory' new_head ≡ some (reverse nodes))
      × ((a : ℕ) → Lacks a nodes → memory' a ≡ memory a)
unfolding llist_reverse_order
llist_reverse_order-Chain fuel memory head nodes f d c =
    let (memory', r, run, chain, rest) =
      reverse_loop-Chain fuel memory head 0 nodes [] f d (Apart-nil nodes) c refl in
    (
      memory',
      r,
      run,
      subst (Chain memory' r) same chain,
      llist_for_each-Chain fuel memory' r (rev_onto nodes [])
            (omega (arith, length-rev_onto nodes [])) chain
          ∙ ap some same,
      rest,
    )
  where
    same : rev_onto nodes [] ≡ reverse nodes
    same = rev_onto-reverse nodes [] ∙ append-nil (reverse nodes)

-- Whatever the list, `llist_add` of a node that is not in it returns true and does not put it in: the
-- head still starts the same nodes. The new node is linked to the first of them, and every other node
-- stays linked as it is.
pub llist_add-Chain :
    (new : ℕ) (head : LlistHead) (nodes : List ℕ)
    → new ≢ 0
    → Lacks new nodes
    → Chain head.memory head.first nodes
    → (head' : LlistHead) × (llist_add new head ≡ some (true, head'))
      × Chain head'.memory head'.first nodes
      × (head'.first ≡ head.first)
      × (head'.memory new ≡ head.first)
      × ((a : ℕ) → a ≢ new → head'.memory a ≡ head.memory a)
unfolding llist_add
llist_add-Chain zero head nodes nz l c = absurd (nz refl)
llist_add-Chain (suc n) head nodes nz l c = (
  record head { memory = link (suc n) head.first head.memory },
  refl,
  link-Chain head.memory (suc n) head.first head.first nodes l c,
  refl,
  link_self (suc n) head.first head.memory,
  link_other (suc n) head.first head.memory,
)

next-lem : (memory : Memory) (p : ℕ) → p ≢ 0 → llist_next memory p ≡ some (memory p)
unfolding llist_next
next-lem memory zero h = absurd (h refl)
next-lem memory (suc n) h = refl

-- What `llist_del_first` gives from a chain.
abbrev pub Deletes : LlistHead → List ℕ → Option (ℕ × LlistHead) → Type 0
Deletes head [] r = r ≡ none
Deletes head (x ∷ xs) r =
    (head' : LlistHead) × (r ≡ some (x, head'))
    × (head'.memory ≡ head.memory)
    × Chain head'.memory head'.first xs

-- From a list with these nodes `llist_del_all` takes them all, linked as they were, and leaves an empty
-- list. `llist_del_first` takes the first and leaves the others, but on an empty list it uses NULL.
pub llist_del-Chain :
    (head : LlistHead) (nodes : List ℕ)
    → Chain head.memory head.first nodes
    → ((head' : LlistHead) × (llist_del_all head ≡ (head.first, head'))
        × (llist_empty head' ≡ true)
        × (head'.memory ≡ head.memory))
      × Deletes head nodes (llist_del_first head)
unfolding llist_del_all llist_del_first llist_empty
llist_del-Chain head nodes c = (all, first nodes c)
  where
    all :
        (head' : LlistHead) × (llist_del_all head ≡ (head.first, head'))
        × (llist_empty head' ≡ true)
        × (head'.memory ≡ head.memory)
    all = elim (Bool-cases (head.first == 0)) [
      | inl empty ↦ (head, rw empty (ap (λ k. (k, head)) (ground (arith, empty))), empty, refl)
      | inr full ↦ (record head { first = 0 }, rw full refl, refl, refl)
    ]

    first :
        (nodes : List ℕ)
        → Chain head.memory head.first nodes
        → Deletes head nodes (llist_del_first head)
    first [] c = rw c refl
    first (x ∷ xs) (same, nz, c) = (
      record head { first = head.memory x },
      rw (next-lem head.memory head.first (λ z. nz (sym same ∙ z)), llist_del_first) refl
          ∙ ap (λ k. some (k, record head { first = head.memory k })) same,
      refl,
      c,
    )
