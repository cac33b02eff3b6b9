-- ===== src/Fifo/Take.antt =====
-- The loop of `st_fifo_read` delivers the bytes that lie after the read position, and moves past
-- them.
use program_learning.Prelude.{
  ℕ, zero, suc, ◌+◌, ◌-◌, ◌%◌, ◌^◌, ◌<◌, min, ◌≡◌, ap, ap₂, ◌∙◌, some, List, ◌++◌, arith, u32,
  append_assoc, mod-eq_of_lt, mod-eq-sub-mod,
}
use native.Mathlib.Nat.{mod-add-mod, mod-lt}
use program_learning.Fifo.{Fifo, capacity, copy_from, drain, read_loop}
use program_learning.Fifo.Span.{span, span-add, copy_from-eq-span}

-- `drain` as arithmetic modulo the capacity.
abbrev pub drained : Fifo → ℕ → Fifo
drained f n = record f { rptr = (f.rptr + n) % capacity f; rndx = u32 (f.rndx + n) }

abbrev pub ReadsFrom : Fifo → Type 0
ReadsFrom f = (f.rptr < capacity f) × (f.rndx < 2 ^ 32)

-- A count up to the capacity needs one subtraction at most.
pub drain-eq-drained :
    (f : Fifo) (n : ℕ)
    → ReadsFrom f
    → f.rptr + n < capacity f + capacity f
    → drain f n ≡ drained f n
unfolding drain
drain-eq-drained f n v h = ground (
  arith,
  mod-eq_of_lt {n = f.rptr + n} {m = capacity f},
  mod-eq_of_lt {n = f.rptr + n - capacity f} {m = capacity f},
  mod-eq-sub-mod {n = f.rptr + n} {m = capacity f},
)

drained-ReadsFrom : (f : Fifo) (n : ℕ) → ReadsFrom f → ReadsFrom (drained f n)
drained-ReadsFrom f n v = (mod-lt (f.rptr + n) (omega arith), omega arith)

drained-drained : (f : Fifo) (n m : ℕ) → drained (drained f n) m ≡ drained f (n + m)
drained-drained f n m =
    ap₂ (λ p c. record f { rptr = p; rndx = c })
      (mod-add-mod (f.rptr + n) (capacity f) m ∙ ap (λ k. k % capacity f) (omega arith))
      (omega arith)

drained-zero : (f : Fifo) → ReadsFrom f → drained f 0 ≡ f
drained-zero f v =
    ap₂ (λ p c. record f { rptr = p; rndx = c }) {x = (f.rptr + 0) % capacity f} {y = f.rptr}
      (ap (λ k. k % capacity f) {y = f.rptr} (omega arith) ∙ mod-eq_of_lt v.0) (omega arith)

abbrev pub Reads : ℕ → Type 0
Reads fuel =
    (f : Fifo) (dest : List ℕ) (n : ℕ)
    → n < fuel
    → ReadsFrom f
    → read_loop fuel f dest n ≡ some (dest ++ span f.buffer f.rptr n, drained f n)

read_round : (fuel : ℕ) → Reads fuel → Reads (suc fuel)
unfolding read_loop
read_round fuel ih f dest n h v = ground (
  arith,
  moved,
  block,
  parts,
  append_assoc dest (span f.buffer f.rptr len) (span f.buffer (drained f len).rptr (n - len)),
  ih (drained f len) (dest ++ span f.buffer f.rptr len) (n - len),
  drained-ReadsFrom f len v,
  twice,
)
  where
    len : ℕ
    len = min (capacity f - f.rptr) n

    moved : drain f len ≡ drained f len
    moved = drain-eq-drained f len v (omega arith)

    block : copy_from f.buffer f.rptr len ≡ span f.buffer f.rptr len
    block = copy_from-eq-span f.buffer f.rptr len (omega arith)

    parts :
        span f.buffer f.rptr n
        ≡ span f.buffer f.rptr len ++ span f.buffer (drained f len).rptr (n - len)
    parts =
        ap (span f.buffer f.rptr) {x = n} {y = len + (n - len)} (omega arith)
        ∙ span-add f.buffer f.rptr len (n - len)

    twice : drained (drained f len) (n - len) ≡ drained f n
    twice = drained-drained f len (n - len) ∙ ap (drained f) (omega arith)

pub read_loop-eq-span : (fuel : ℕ) → Reads fuel
read_loop-eq-span zero f dest n h v = elim h [ ]
read_loop-eq-span (suc fuel) f dest n h v = read_round fuel (read_loop-eq-span fuel) f dest n h v
