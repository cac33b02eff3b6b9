-- ===== src/Fifo.antt =====
-- The byte ring of libutils/fifo.c. A pointer into the buffer is its offset from `buffer`, so
-- `end - buffer` is the length of the list. Byte counts are the non-negative values of `int`.
pub mod Heap
pub mod Bytes
pub mod Span
pub mod Refine
pub mod Take
pub mod Laws
pub mod Limits
mod Tests
use program_learning.Prelude.{
  ℕ, zero, suc, ◌+◌, ◌-◌, min, Option, none, some, List, [], ◌∷◌, ◌++◌, ltb, leb, if◌then◌else◌,
  u32, sub_u32, length, get_or, set, take, drop,
}
use program_learning.Prelude.Int.{ℤ, pos, ◌-ℤ◌, int32}

-- `STfifoBuffer`, with the bytes from `buffer` to `end`.
pub record Fifo : Type 0 where
  pub buffer : List ℕ
  pub rptr : ℕ
  pub wptr : ℕ
  pub rndx : ℕ
  pub wndx : ℕ

abbrev pub capacity : Fifo → ℕ
capacity f = length f.buffer

-- `st_fifo_reset`
pub reset : Fifo → Fifo
reset f = record f { rptr = 0; wptr = 0; rndx = 0; wndx = 0 }

-- `st_fifo_size`: the unsigned difference of the counters, returned as an `int`.
pub size : Fifo → ℤ
size f = int32 (sub_u32 f.wndx f.rndx)

-- `st_fifo_space`
pub space : Fifo → ℤ
unfolding size
space f = pos (capacity f) -ℤ size f

-- `memcpy(buffer + i, src, n)` for the `n` bytes of a list.
pub copy_to : List ℕ → ℕ → List ℕ → List ℕ
copy_to mem i [] = mem
copy_to mem i (x ∷ xs) = copy_to (set mem i x) (i + 1) xs

-- `memcpy(dest, buffer + i, n)`: the bytes that it copies.
pub copy_from : List ℕ → ℕ → ℕ → List ℕ
copy_from mem i zero = []
copy_from mem i (suc n) = get_or mem i 0 ∷ copy_from mem (i + 1) n

-- The buffer and the two locals of `st_fifo_write`.
pub record Cursor : Type 0 where
  pub mem : List ℕ
  pub wptr : ℕ
  pub wndx : ℕ

abbrev pub wrap : ℕ → ℕ → ℕ
wrap cap p = if leb cap p then 0 else p

-- One round's writes, for the bytes of one `memcpy`.
abbrev pub advance : Cursor → List ℕ → Cursor
advance c bytes = record {
  mem = copy_to c.mem c.wptr bytes;
  wptr = wrap (length c.mem) (c.wptr + length bytes);
  wndx = u32 (c.wndx + length bytes);
}

-- The loop of `st_fifo_write`, and the count that is left when it ends. `none` is a read beyond
-- the source, or that the fuel ran out.
pub write_loop : ℕ → Cursor → List ℕ → ℕ → Option (Cursor × ℕ)
unfolding copy_to
write_loop zero c src n = none
write_loop (suc fuel) c src n =
    let len = min (length c.mem - c.wptr) n in
    let c' = advance c (take len src) in
    let rest = write_loop fuel c' (drop len src) (n - len) in
    if ltb (length src) len then none else if ltb 0 (n - len) then rest else some (c', n - len)

-- What the function stores back at its end, and `total - size`.
abbrev pub store : Fifo → ℕ → Cursor × ℕ → Fifo × ℕ
store f n (c, left) = (record f { buffer = c.mem; wptr = c.wptr; wndx = c.wndx }, n - left)

-- `st_fifo_write`, with fuel for a round per byte and one more.
pub write : Fifo → List ℕ → ℕ → Option (Fifo × ℕ)
unfolding write_loop
write f src n =
    elim (write_loop (n + 1) (record { mem = f.buffer; wptr = f.wptr; wndx = f.wndx }) src n) [
      | none ↦ none
      | some r ↦ some (store f n r)
    ]

-- `st_fifo_drain`
pub drain : Fifo → ℕ → Fifo
drain f n =
    let p = f.rptr + n in
    record f { rptr = if leb (capacity f) p then p - capacity f else p; rndx = u32 (f.rndx + n) }

-- The loop of `st_fifo_read`, with the bytes that have gone to `dest`.
pub read_loop : ℕ → Fifo → List ℕ → ℕ → Option (List ℕ × Fifo)
unfolding copy_from drain
read_loop zero f dest n = none
read_loop (suc fuel) f dest n =
    let len = min (capacity f - f.rptr) n in
    let dest' = dest ++ copy_from f.buffer f.rptr len in
    let rest = read_loop fuel (drain f len) dest' (n - len) in
    if ltb 0 (n - len) then rest else some (dest', drain f len)

-- `st_fifo_read`, which always returns 0 and never calls `func`.
pub read : Fifo → ℕ → Option (List ℕ × Fifo)
unfolding read_loop
read f n = read_loop (n + 1) f [] n
