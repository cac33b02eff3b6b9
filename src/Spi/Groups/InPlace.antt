-- ===== src/Spi/Groups/InPlace.antt =====
-- `filling_spi_send_display_data1` of demo/perfdemo/perfdemo.c, whose loop reads and writes the send
-- buffer in place.
mod Tests
use program_learning.Prelude.{
  ℕ, zero, suc, ◌+◌, ◌*◌, ◌%◌, Option, none, some, List, [], ◌∷◌, ◌++◌, ltb, ◌==◌, ◌||◌,
  if◌then◌else◌, ◌>>=◌, u32, length, take, drop,
}
use program_learning.Spi.Word.{◌|||◌, shl64, bytes64, swap_endian_64}
use program_learning.Spi.Writer.{Filled, refused, filled, byte_count, tx_buf_max_len, clear}
use program_learning.Spi.Groups.{Group, group_of, big_data_mask, fill_header_withnop}

-- Bytes as a number, the lowest first.
abbrev pub number_of : List ℕ → ℕ
number_of [] = 0
number_of (b ∷ bs) = b + 256 * number_of bs

-- The eight bytes at an offset.
abbrev pub load64 : List ℕ → ℕ → Option ℕ
load64 buf at = if ltb (length buf) (at + 8) then none else some (number_of (take 8 (drop at buf)))

abbrev pub put_bytes : List ℕ → ℕ → List ℕ → Option (List ℕ)
put_bytes buf at bs =
    if ltb (length buf) (at + length bs)
    then none
    else some (take at buf ++ bs ++ drop (at + length bs) buf)

-- One round of the loop, for the offsets of `pbits` and `pdst`: the word swapped is `pbits[i]`, not
-- `pbits[0]`.
pub fill_round1 : List ℕ → ℕ → ℕ → ℕ → Group → Option (List ℕ)
fill_round1 buf bits at i g = load64 buf bits >>= λ before.
    put_bytes buf bits (
      bytes64 (
        before
        ||| big_data_mask
        ||| (shl64 g.p1 55
            ||| shl64 g.p0 46
            ||| shl64 g.p3 37
            ||| shl64 g.p2 28
            ||| shl64 g.p5 19
            ||| shl64 g.p4 10
            ||| shl64 g.p7 1)))
    >>= λ marked. load64 marked (bits + 8 * i) >>= λ other.
        put_bytes marked bits (bytes64 (swap_endian_64 other)) >>= λ swapped.
        put_bytes swapped (at + 8) (g.p6 ∷ [])

-- `for (i = 0; i < len / 2; i++)`; `pbits` follows `pdst` from the second round on.
pub fill_rounds1 : List ℕ → ℕ → ℕ → ℕ → List ℕ → Option (List ℕ)
unfolding fill_round1
fill_rounds1 buf bits at i [] = some buf
fill_rounds1 buf bits at i (v ∷ []) = some buf
fill_rounds1 buf bits at i (v ∷ w ∷ ws) = fill_round1 buf bits at i (group_of v w) >>= λ next.
    fill_rounds1 next (at + 9) (at + 9) (i + 1) ws

-- At the start `pbits` is the front of the buffer, and `pdst` is behind the header.
pub filling_spi_send_display_data1 : List ℕ → List ℕ → ℕ → ℕ → ℕ → Option Filled
unfolding fill_rounds1 fill_header_withnop
filling_spi_send_display_data1 buf words len x y =
    let n = byte_count (u32 ((16 + len * 4 + 8) * 9)) in
    if n == 0 || ltb tx_buf_max_len n
    then some (refused n)
    else if ltb (length words) len
    then none
    else (clear n buf >>= λ zeros. put_bytes zeros 0 (fill_header_withnop x y) >>= λ headed.
        fill_rounds1 headed 0 18 0 (take len words) >>= λ done. some (filled n done))
