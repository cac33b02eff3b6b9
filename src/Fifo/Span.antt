-- ===== src/Fifo/Span.antt =====
-- The bytes that lie in the ring from a position on, round its end.
use program_learning.Prelude.{
  ℕ, zero, suc, ◌+◌, ◌-◌, ◌%◌, ◌≤◌, ◌<◌, ◌≡◌, ◌≢◌, refl, sym, ap, ap₂, ◌∙◌, List, [], ◌∷◌, ◌++◌,
  arith, length, get_or, set, length-set, length-append, append_assoc, append-nil, mod-eq_of_lt,
  mod-eq-sub-mod, get_or-set_self, get_or-set_ne, dec_lt,
}
use native.Mathlib.Nat.{mod-add-mod, mod-lt}
use program_learning.Fifo.{copy_from}

unfoldable pub span : List ℕ → ℕ → ℕ → List ℕ
span mem start zero = []
span mem start (suc n) = span mem start n ++ (get_or mem ((start + n) % length mem) 0 ∷ [])

pub length-span : (mem : List ℕ) (start n : ℕ) → length (span mem start n) ≡ n
unfolding span
length-span mem start zero = refl
length-span mem start (suc n) = omega (
  arith,
  length-append {0} (span mem start n) (get_or mem ((start + n) % length mem) 0 ∷ []),
  length-span mem start n,
)

-- A span in two parts.
pub span-add :
    (mem : List ℕ) (start n m : ℕ)
    → span mem start (n + m) ≡ span mem start n ++ span mem ((start + n) % length mem) m
unfolding span
span-add mem start n zero =
    ap (span mem start) {x = n + zero} {y = n} (omega arith) ∙ sym (append-nil _)
span-add mem start n (suc m) =
    ap (span mem start) {x = n + suc m} {y = suc (n + m)} (omega arith)
    ∙ ap₂ (λ l b. l ++ (b ∷ [])) (span-add mem start n m) (ap (λ k. get_or mem k 0) place)
    ∙ append_assoc (span mem start n) _ _
  where
    place : (start + (n + m)) % length mem ≡ ((start + n) % length mem + m) % length mem
    place = rw mod-add-mod (ap (λ k. k % length mem) (omega arith))

-- A distance below `cap` leads to another position of the ring.
step_ne : (cap r d : ℕ) → r < cap → 0 < d → d < cap → (r + d) % cap ≢ r
step_ne cap r d h p l = elim (dec_lt (r + d) cap) [
  | yes q ↦ omega (arith, mod-eq_of_lt q)
  | no q ↦ omega (
    arith,
    mod-eq-sub-mod {n = r + d} {m = cap} (omega arith),
    mod-eq_of_lt {n = r + d - cap} {m = cap} (omega arith),
  )
]

pub ring_ne : (cap i k n : ℕ) → k < n → n < cap → (i + n) % cap ≢ (i + k) % cap
ring_ne cap i k n h l e =
    step_ne cap ((i + k) % cap) (n - k) (mod-lt (i + k) (omega arith)) (omega arith) (omega arith)
      (mod-add-mod (i + k) cap (n - k) ∙ ap (λ t. t % cap) (omega arith) ∙ e)

-- A byte stored past a span does not change it.
span-set_past :
    (mem : List ℕ) (start n m x : ℕ)
    → n ≤ m
    → m < length mem
    → span (set mem ((start + m) % length mem) x) start n ≡ span mem start n
unfolding span
span-set_past mem start zero m x h l = refl
span-set_past mem start (suc n) m x h l =
    ap₂ (λ l b. l ++ (b ∷ [])) (span-set_past mem start n m x (omega arith) l)
      (ap (λ c. get_or (set mem ((start + m) % length mem) x) ((start + n) % c) 0)
          (length-set mem ((start + m) % length mem) x)
        ∙ get_or-set_ne mem ((start + m) % length mem) ((start + n) % length mem) x 0
            (ring_ne (length mem) start n m h l))

-- A byte stored at the end of a span extends it.
pub span-set :
    (mem : List ℕ) (start n x : ℕ)
    → n < length mem
    → span (set mem ((start + n) % length mem) x) start (suc n) ≡ span mem start n ++ (x ∷ [])
unfolding span
span-set mem start n x h =
    ap₂ (λ l b. l ++ (b ∷ [])) (span-set_past mem start n n x (omega arith) h)
      (ap (λ c. get_or (set mem ((start + n) % length mem) x) ((start + n) % c) 0)
          (length-set mem ((start + n) % length mem) x)
        ∙ get_or-set_self mem ((start + n) % length mem) x 0 (mod-lt (start + n) (omega arith)))

copy_from-suc :
    (mem : List ℕ) (start n : ℕ)
    → copy_from mem start (suc n) ≡ copy_from mem start n ++ (get_or mem (start + n) 0 ∷ [])
unfolding copy_from
copy_from-suc mem start zero = ap (λ k. get_or mem k 0 ∷ []) (omega arith)
copy_from-suc mem start (suc n) =
    ap (λ l. get_or mem start 0 ∷ l)
      (copy_from-suc mem (start + 1) n
        ∙ ap (λ k. copy_from mem (start + 1) n ++ (get_or mem k 0 ∷ [])) (omega arith))

-- A block that does not reach past the end of the buffer is a span.
pub copy_from-eq-span :
    (mem : List ℕ) (start n : ℕ) → start + n ≤ length mem → copy_from mem start n ≡ span mem start n
unfolding span
copy_from-eq-span mem start zero h = unfold copy_from in refl
copy_from-eq-span mem start (suc n) h =
    copy_from-suc mem start n
    ∙ ap₂ (λ l k. l ++ (get_or mem k 0 ∷ [])) (copy_from-eq-span mem start n (omega arith))
        (sym (mod-eq_of_lt {n = start + n} {m = length mem} (omega arith)))
