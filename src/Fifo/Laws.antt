-- ===== src/Fifo/Laws.antt =====
-- What a caller of libutils/fifo.c may rely on.
use program_learning.Prelude.{
  ℕ, ◌+◌, ◌-◌, ◌%◌, ◌^◌, ◌≤◌, ◌<◌, ◌≡◌, refl, sym, ap, ap₂, ◌∙◌, some, List, [], ◌∷◌, ◌++◌, arith,
  length, take, drop, length-take, append-nil, mod-eq_of_lt, length-drop, take_all,
}
use program_learning.Prelude.Int.{pos, ◌-ℤ◌}
use native.Mathlib.Nat.{mod-add-mod, mod-lt}
use program_learning.Fifo.{Fifo, Cursor, capacity, reset, size, space, write, read, drain}
use program_learning.Fifo.Bytes.{put_all, write_loop-eq-put_all}
use program_learning.Fifo.Span.{span, length-span, span-add}
use program_learning.Fifo.Take.{drained, drain-eq-drained, read_loop-eq-span}
use program_learning.Fifo.Refine.{
  IsValid, stored, contents, cursor, IsValid-InRange, Appended, written, put_all-Stored,
}

-- After a reset the FIFO is valid and empty, if its buffer has a byte and less than 2 ^ 31.
pub reset-IsValid :
    (f : Fifo)
    → 0 < capacity f
    → capacity f < 2 ^ 31
    → IsValid (reset f) × (contents (reset f) ≡ [])
unfolding reset span
reset-IsValid f h l = (
  record {
    room = h;
    small = l;
    read_at = h;
    write_at = sym (mod-eq_of_lt h);
    read_count = omega arith;
    write_count = omega arith;
    fits = omega arith;
  },
  refl,
)

-- `st_fifo_size` and `st_fifo_space` of a valid FIFO are the number of bytes in its queue and the
-- rest of its capacity.
pub size-eq-length :
    (f : Fifo)
    → IsValid f
    → (size f ≡ pos (length (contents f)))
      × (space f ≡ pos (capacity f - length (contents f)))
      × (length (contents f) ≤ capacity f)
unfolding size space ◌-ℤ◌
size-eq-length f v = ground (arith, length-span f.buffer f.rptr (stored f))

-- Where the bytes fit, `st_fifo_write` returns, reports all of them, keeps the FIFO valid and puts
-- them behind those that are stored.
pub write-refines :
    (f : Fifo) (src : List ℕ) (n : ℕ)
    → IsValid f
    → n ≤ length src
    → stored f + n ≤ capacity f
    → (g : Fifo) × (write f src n ≡ some (g, n)) × Appended f (take n src) g
unfolding write
write-refines f src n v h fits = (
  record f { buffer = d.mem; wptr = d.wptr; wndx = d.wndx },
  ground
      (arith, write_loop-eq-put_all (n + 1) (cursor f) src n (omega arith) h (IsValid-InRange f v)),
  written f (take n src) d v (omega (arith, length-take n src)) (
      put_all-Stored (cursor f) (take n src) f.rptr (stored f) v.read_at v.write_at v.write_count
        (omega (arith, length-take n src))),
)
  where
    d : Cursor
    d = put_all (cursor f) (take n src)

take-span : (xs ys : List ℕ) → take (length xs) (xs ++ ys) ≡ xs
take-span [] ys = refl
take-span (x ∷ xs) ys = rw (take-span xs ys)

drop-span : (xs ys : List ℕ) → drop (length xs) (xs ++ ys) ≡ ys
drop-span [] ys = refl
drop-span (x ∷ xs) ys = drop-span xs ys

-- Taking bytes that are stored off the front of a valid FIFO.
module _ (f : Fifo) (n : ℕ) (v : IsValid f) (h : n ≤ stored f) where
  left : stored (drained f n) ≡ stored f - n
  left = omega (arith, v.read_count, v.write_count, v.small, v.fits)

  drained-IsValid : IsValid (drained f n)
  drained-IsValid = record {
    room = v.room;
    small = v.small;
    read_at = mod-lt (f.rptr + n) v.room;
    write_at =
        v.write_at
        ∙ ap (λ t. t % capacity f) {x = f.rptr + stored f} {y = f.rptr + n + (stored f - n)}
            (omega arith)
        ∙ sym (mod-add-mod (f.rptr + n) (capacity f) (stored f - n))
        ∙ ap (λ t. ((f.rptr + n) % capacity f + t) % capacity f) (sym left);
    read_count = omega arith;
    write_count = v.write_count;
    fits = omega (arith, left, v.fits);
  }

  contents-drained : contents f ≡ span f.buffer f.rptr n ++ contents (drained f n)
  contents-drained =
      ap (span f.buffer f.rptr) {x = stored f} {y = n + (stored f - n)} (omega arith)
      ∙ span-add f.buffer f.rptr n (stored f - n)
      ∙ ap (λ t. span f.buffer f.rptr n ++ span f.buffer ((f.rptr + n) % capacity f) t) (sym left)

  front : take n (contents f) ≡ span f.buffer f.rptr n
  front =
      ap₂ take (sym (length-span f.buffer f.rptr n)) contents-drained
      ∙ take-span (span f.buffer f.rptr n) (contents (drained f n))

  back : contents (drained f n) ≡ drop n (contents f)
  back =
      sym (drop-span (span f.buffer f.rptr n) (contents (drained f n)))
      ∙ ap₂ drop (length-span f.buffer f.rptr n) (sym contents-drained)

-- `st_fifo_read` of bytes that are stored returns, delivers the oldest ones in order, keeps the
-- FIFO valid and leaves the others; `st_fifo_drain` leaves the same FIFO and delivers nothing.
pub read-refines :
    (f : Fifo) (n : ℕ)
    → IsValid f
    → n ≤ stored f
    → (g : Fifo) × (read f n ≡ some (take n (contents f), g))
      × (drain f n ≡ g)
      × IsValid g
      × (contents g ≡ drop n (contents f))
unfolding read
read-refines f n v h = (
  drained f n,
  read_loop-eq-span (n + 1) f [] n (omega arith) (v.read_at, v.read_count)
      ∙ ap (λ l. some (l, drained f n)) (sym (front f n v h)),
  drain-eq-drained f n (v.read_at, v.read_count) (omega (arith, v.read_at, v.fits)),
  drained-IsValid f n v h,
  back f n v h,
)

stored-eq-length : (f : Fifo) → stored f ≡ length (contents f)
stored-eq-length f = sym (length-span f.buffer f.rptr (stored f))

empty_contents : (f : Fifo) → stored f ≡ 0 → contents f ≡ []
unfolding span
empty_contents f e = ap (span f.buffer f.rptr) e

read-all :
    (f : Fifo) (xs : List ℕ) (n : ℕ)
    → IsValid f
    → contents f ≡ xs
    → length xs ≡ n
    → (g : Fifo) × (read f n ≡ some (xs, g)) × (contents g ≡ [])
read-all f xs n v e c =
    let (g, delivered, d, v', left_over) =
      read-refines f n v (omega (arith, stored-eq-length f, ap length e)) in
    (
      g,
      delivered ∙ ap (λ l. some (l, g)) (ap₂ take (sym c) e ∙ take_all xs),
      left_over ∙ ap₂ drop (sym c) (e ∙ sym (append-nil xs)) ∙ drop-span xs [],
    )

-- What is written into an empty valid FIFO and fits is what the next two reads deliver, whatever
-- the count of the first, and then the FIFO is empty again.
pub read-write :
    (f : Fifo) (src : List ℕ) (k : ℕ)
    → IsValid f
    → stored f ≡ 0
    → length src ≤ capacity f
    → k ≤ length src
    → (g g' g'' : Fifo) × (write f src (length src) ≡ some (g, length src))
      × (read g k ≡ some (take k src, g'))
      × (read g' (length src - k) ≡ some (drop k src, g''))
      × (contents g'' ≡ [])
read-write f src k v e l m =
    let (g, wrote, good) = write-refines f src (length src) v (omega arith) (omega arith) in
    let all : contents g ≡ src = good.1 ∙ ap₂ ◌++◌ (empty_contents f e) (take_all src) in
    let (g', first, d, v', left_over) =
      read-refines g k good.0 (omega (arith, stored-eq-length g, ap length all)) in
    let (g'', second, none_left) =
      read-all g' (drop k src) (length src - k) v' (left_over ∙ ap (drop k) all)
        (length-drop k src) in
    (g, g', g'', wrote, first ∙ ap (λ l. some (take k l, g')) all, second, none_left)
