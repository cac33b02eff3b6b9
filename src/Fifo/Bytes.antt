-- ===== src/Fifo/Bytes.antt =====
-- The block copies of libutils/fifo.c do what a copy byte by byte does.
use program_learning.Prelude.{
  ℕ, zero, suc, ◌+◌, ◌-◌, ◌^◌, ◌≤◌, ◌<◌, min, ◌≡◌, refl, ap, ◌∙◌, some, List, [], ◌∷◌, ◌++◌, arith,
  u32, length, set, take, drop, length-set, length-take, length-drop, take-add,
}
use program_learning.Fifo.{Cursor, copy_to, wrap, advance, write_loop}

-- One byte stored at the write position.
abbrev pub put : Cursor → ℕ → Cursor
put c x = record {
  mem = set c.mem c.wptr x;
  wptr = wrap (length c.mem) (c.wptr + 1);
  wndx = u32 (c.wndx + 1);
}

unfoldable pub put_all : Cursor → List ℕ → Cursor
put_all c [] = c
put_all c (x ∷ xs) = put_all (put c x) xs

pub put_all-append :
    (c : Cursor) (xs ys : List ℕ) → put_all c (xs ++ ys) ≡ put_all (put_all c xs) ys
unfolding put_all
put_all-append c [] ys = refl
put_all-append c (x ∷ xs) ys = put_all-append (put c x) xs ys

pub length-put_all : (c : Cursor) (xs : List ℕ) → length (put_all c xs).mem ≡ length c.mem
unfolding put_all
length-put_all c [] = refl
length-put_all c (x ∷ xs) = length-put_all (put c x) xs ∙ length-set c.mem c.wptr x

pub record InRange (c : Cursor) : Type 0 where
  pub at : c.wptr < length c.mem
  pub counter : c.wndx < 2 ^ 32

pub put-InRange : (c : Cursor) (x : ℕ) → InRange c → InRange (put c x)
put-InRange c x v = ground (arith, length-set c.mem c.wptr x)

-- A block that does not reach past the end of the buffer.
advance-eq-put_all :
    (c : Cursor) (xs : List ℕ)
    → InRange c
    → c.wptr + length xs ≤ length c.mem
    → advance c xs ≡ put_all c xs
unfolding put_all copy_to
advance-eq-put_all c [] v h = ground arith
advance-eq-put_all c (x ∷ []) v h = ground arith
advance-eq-put_all c (x ∷ y ∷ xs) v h =
    ground
      (arith, advance-eq-put_all (put c x) (y ∷ xs) (put-InRange c x v), length-set c.mem c.wptr x)

pub put_all-InRange : (c : Cursor) (xs : List ℕ) → InRange c → InRange (put_all c xs)
unfolding put_all
put_all-InRange c [] v = v
put_all-InRange c (x ∷ xs) v = put_all-InRange (put c x) xs (put-InRange c x v)

-- The loop ends with `fuel`, and has stored the bytes one after the other.
abbrev pub Writes : ℕ → Type 0
Writes fuel =
    (c : Cursor) (src : List ℕ) (n : ℕ)
    → n < fuel
    → n ≤ length src
    → InRange c
    → write_loop fuel c src n ≡ some (put_all c (take n src), 0)

write_round : (fuel : ℕ) → Writes fuel → Writes (suc fuel)
unfolding write_loop
write_round fuel ih c src n h k v =
    ground
      (arith, block, put_all-append c (take len src) (take (n - len) (drop len src)), whole, rest)
  where
    len : ℕ
    len = min (length c.mem - c.wptr) n

    block : advance c (take len src) ≡ put_all c (take len src)
    block = advance-eq-put_all c (take len src) v (omega (arith, length-take len src, v.at))

    whole : take n src ≡ take len src ++ take (n - len) (drop len src)
    whole = ap (λ k. take k src) (omega arith) ∙ take-add len (n - len) src

    rest :
        0 < n - len
        → write_loop fuel (put_all c (take len src)) (drop len src) (n - len)
          ≡ some (put_all (put_all c (take len src)) (take (n - len) (drop len src)), 0)
    rest more =
        ih (put_all c (take len src)) (drop len src) (n - len) (omega (arith, v.at))
          (omega (arith, length-drop len src)) (put_all-InRange c (take len src) v)

-- With fuel for a round per byte and one more, `write_loop` ends.
pub write_loop-eq-put_all : (fuel : ℕ) → Writes fuel
write_loop-eq-put_all zero c src n h k v = elim h [ ]
write_loop-eq-put_all (suc fuel) c src n h k v =
    write_round fuel (write_loop-eq-put_all fuel) c src n h k v
