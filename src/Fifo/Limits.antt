-- ===== src/Fifo/Limits.antt =====
-- Where `st_fifo_write` of libutils/fifo.c goes wrong: no buffer, and more bytes than fit.
use program_learning.Prelude.{
  ℕ, zero, suc, ◌+◌, ◌%◌, ◌^◌, ◌≤◌, ◌<◌, ◌≡◌, refl, none, some, List, [], ◌∷◌, arith, sub_u32,
  length, take, length-take,
}
use program_learning.Prelude.Int.{pos, ◌-ℤ◌, ◌<ℤ◌}
use program_learning.Fifo.{Fifo, Cursor, capacity, size, space, write, write_loop, copy_to}
use program_learning.Fifo.Bytes.{put, put_all, length-put_all, write_loop-eq-put_all}
use program_learning.Fifo.Refine.{IsValid, stored, cursor, IsValid-InRange}

copy_to-nil : (i : ℕ) (xs : List ℕ) → copy_to [] i xs ≡ []
unfolding copy_to
copy_to-nil i [] = refl
copy_to-nil i (x ∷ xs) = copy_to-nil (i + 1) xs

-- Without a buffer the loop of `st_fifo_write` makes no progress: no fuel lets it end.
pub write_loop-never_ends :
    (fuel : ℕ) (wptr wndx : ℕ) (src : List ℕ) (n : ℕ)
    → 0 < n
    → write_loop fuel (record { mem = []; wptr = wptr; wndx = wndx }) src n ≡ none
unfolding write_loop copy_to
write_loop-never_ends zero p c src n h = refl
write_loop-never_ends (suc fuel) p c src n h =
    ground (arith, write_loop-never_ends fuel 0 ((c + 0) % 2 ^ 32) src n)

-- What the counters say after the loop, whether or not the bytes fit.
count-put_all :
    (c : Cursor) (xs : List ℕ)
    → c.wndx < 2 ^ 32
    → (put_all c xs).wndx ≡ (c.wndx + length xs) % 2 ^ 32
unfolding put_all
count-put_all c [] h = omega arith
count-put_all c (x ∷ xs) h = omega (arith, count-put_all (put c x) xs (omega arith))

-- On a valid FIFO `st_fifo_write` accepts more bytes than fit, with those stored less than 2 ^ 31, and
-- reports them all as written; then the size is their sum, and the space is negative.
pub write-overruns :
    (f : Fifo) (src : List ℕ) (n : ℕ)
    → IsValid f
    → n ≤ length src
    → capacity f < stored f + n
    → stored f + n < 2 ^ 31
    → (g : Fifo) × (write f src n ≡ some (g, n))
      × (size g ≡ pos (stored f + n))
      × (space g <ℤ pos 0)
      × (capacity g ≡ capacity f)
unfolding write size space ◌-ℤ◌
write-overruns f src n v h more l = (
  record f { buffer = d.mem; wptr = d.wptr; wndx = d.wndx },
  ground
      (arith, write_loop-eq-put_all (n + 1) (cursor f) src n (omega arith) h (IsValid-InRange f v)),
  ground (arith, count),
  ground (arith, count, same),
  same,
)
  where
    d : Cursor
    d = put_all (cursor f) (take n src)

    same : length d.mem ≡ length f.buffer
    same = length-put_all (cursor f) (take n src)

    count : sub_u32 d.wndx f.rndx ≡ stored f + n
    count = omega (
      arith,
      count-put_all (cursor f) (take n src) v.write_count,
      length-take n src,
      v.read_count,
      v.write_count,
    )
