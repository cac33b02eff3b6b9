-- ===== src/Fifo/Refine.antt =====
-- A valid FIFO of libutils/fifo.c holds a queue of bytes: what its operations do to the queue.
use program_learning.Prelude.{
  ℕ, suc, ◌+◌, ◌%◌, ◌^◌, ◌≤◌, ◌<◌, ◌≡◌, refl, sym, ap, ap₂, ◌∙◌, List, [], ◌∷◌, ◌++◌, arith, leb,
  if◌then◌else◌, sub_u32, length, set, length-set, append_assoc, append-nil, mod-eq_of_lt,
  mod-eq-sub-mod,
}
use native.Mathlib.Nat.{mod-add-mod, mod-lt}
use program_learning.Fifo.{Fifo, Cursor, capacity}
use program_learning.Fifo.Bytes.{put, put_all, InRange}
use program_learning.Fifo.Span.{span, span-set}

-- The number of bytes that the counters say are stored.
abbrev pub stored : Fifo → ℕ
stored f = sub_u32 f.wndx f.rndx

-- Between calls: the counters differ by the distance from the read to the write position.
pub record IsValid (f : Fifo) : Type 0 where
  pub room : 0 < capacity f
  pub small : capacity f < 2 ^ 31
  pub read_at : f.rptr < capacity f
  pub write_at : f.wptr ≡ (f.rptr + stored f) % capacity f
  pub read_count : f.rndx < 2 ^ 32
  pub write_count : f.wndx < 2 ^ 32
  pub fits : stored f ≤ capacity f

-- The bytes in the order in which they are read.
abbrev pub contents : Fifo → List ℕ
contents f = span f.buffer f.rptr (stored f)

next_position :
    (cap start n : ℕ)
    → 0 < cap
    → (if leb cap ((start + n) % cap + 1) then 0 else (start + n) % cap + 1)
      ≡ (start + (n + 1)) % cap
next_position cap start n h = ground (
  arith,
  mod-lt (start + n) h,
  mod-add-mod (start + n) cap 1,
  ap (λ (k : ℕ). k % cap) again,
  mod-eq_of_lt {n = (start + n) % cap + 1} {m = cap},
  mod-eq-sub-mod {n = (start + n) % cap + 1} {m = cap},
)
  where
    again : start + (n + 1) ≡ start + n + 1
    again = omega arith

-- What `put_all` has done to a ring whose write position is `n` bytes after `start`.
pub record Stored (c d : Cursor) (xs : List ℕ) (start n : ℕ) : Type 0 where
  pub bytes : span d.mem start (n + length xs) ≡ span c.mem start n ++ xs
  pub at : d.wptr ≡ (start + (n + length xs)) % length c.mem
  pub count : d.wndx ≡ (c.wndx + length xs) % 2 ^ 32
  pub same : length d.mem ≡ length c.mem

module _ (c : Cursor) (x start n : ℕ) (s : start < length c.mem)
    (w : c.wptr ≡ (start + n) % length c.mem) (room : n < length c.mem) where
  put_at : (put c x).wptr ≡ (start + (n + 1)) % length (put c x).mem
  put_at =
      ap (λ p. if leb (length c.mem) (p + 1) then 0 else p + 1) w
      ∙ next_position (length c.mem) start n (omega arith)
      ∙ ap (λ k. (start + (n + 1)) % k) (sym (length-set c.mem c.wptr x))

  put_bytes : span (put c x).mem start (n + 1) ≡ span c.mem start n ++ (x ∷ [])
  put_bytes =
      ap (λ p. span (set c.mem p x) start (n + 1)) w
      ∙ ap (span (set c.mem ((start + n) % length c.mem) x) start) {x = n + 1} {y = suc n}
          (omega arith)
      ∙ span-set c.mem start n x room

  Stored-cons :
      {d : Cursor} (xs : List ℕ) → Stored (put c x) d xs start (n + 1) → Stored c d (x ∷ xs) start n
  Stored-cons {d} xs rest = record {
    bytes =
        ap (span d.mem start) {x = n + suc (length xs)} {y = n + 1 + length xs} (omega arith)
        ∙ rest.bytes
        ∙ ap (λ l. l ++ xs) put_bytes
        ∙ append_assoc (span c.mem start n) (x ∷ []) xs;
    at =
        rest.at
        ∙ ap₂ (λ t k. (start + t) % k) {x = n + 1 + length xs} {y = n + suc (length xs)}
            (omega arith) (length-set c.mem c.wptr x);
    count = omega (arith, rest.count);
    same = rest.same ∙ length-set c.mem c.wptr x;
  }

pub put_all-Stored :
    (c : Cursor) (xs : List ℕ) (start n : ℕ)
    → start < length c.mem
    → c.wptr ≡ (start + n) % length c.mem
    → c.wndx < 2 ^ 32
    → n + length xs ≤ length c.mem
    → Stored c (put_all c xs) xs start n
unfolding put_all
put_all-Stored c [] start n s w k h = record {
  bytes = ap (span c.mem start) {x = n + 0} {y = n} (omega arith) ∙ sym (append-nil _);
  at = w ∙ ap (λ t. (start + t) % length c.mem) {x = n} {y = n + 0} (omega arith);
  count = omega arith;
  same = refl;
}
put_all-Stored c (x ∷ xs) start n s w k h = Stored-cons c x start n s w (omega arith) xs (
    put_all-Stored (put c x) xs start (n + 1) (rw length-set s)
      (put_at c x start n s w (omega arith)) (omega arith) (rw length-set (omega arith)))

abbrev pub cursor : Fifo → Cursor
cursor f = record { mem = f.buffer; wptr = f.wptr; wndx = f.wndx }

pub IsValid-InRange : (f : Fifo) → IsValid f → InRange (cursor f)
IsValid-InRange f v = record {
  at = rw v.write_at (mod-lt (f.rptr + stored f) v.room);
  counter = v.write_count;
}

-- What `st_fifo_write` leaves behind: the state, and the queue with the bytes behind it.
abbrev pub Appended : Fifo → List ℕ → Fifo → Type 0
Appended f xs g = IsValid g × (contents g ≡ contents f ++ xs)

pub written :
    (f : Fifo) (xs : List ℕ) (d : Cursor)
    → IsValid f
    → stored f + length xs ≤ capacity f
    → Stored (cursor f) d xs f.rptr (stored f)
    → Appended f xs (record f { buffer = d.mem; wptr = d.wptr; wndx = d.wndx })
written f xs d v h s = (
  record {
    room = rw s.same v.room;
    small = rw s.same v.small;
    read_at = rw s.same v.read_at;
    write_at = s.at ∙ ap₂ (λ t k. (f.rptr + t) % k) (sym more) (sym s.same);
    read_count = v.read_count;
    write_count = omega (arith, s.count);
    fits = rw (s.same, more) h;
  },
  ap (span d.mem f.rptr) more ∙ s.bytes,
)
  where
    more : sub_u32 d.wndx f.rndx ≡ stored f + length xs
    more = omega (arith, s.count, v.small, v.read_count, v.write_count)
