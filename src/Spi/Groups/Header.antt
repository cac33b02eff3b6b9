-- ===== src/Spi/Groups/Header.antt =====
-- `fill_header_withnop1` of demo/perfdemo/perfdemo.c sends the header's symbols.
use program_learning.Prelude.{
  ℕ, ◌+◌, ◌*◌, ◌/◌, ◌%◌, ◌^◌, ◌<◌, ◌≡◌, List, [], ◌∷◌, ◌++◌, bit_or, arith, ap, ◌∙◌, refl,
}
use program_learning.Prelude.Bits.{Disjoint, Disjoint-gap, Disjoint-zero, zero-Disjoint, or_shifted}
use program_learning.Prelude.Fields.{Disjoint-flag}
use program_learning.Spi.Word.{byte, shl32}
use program_learning.Spi.Symbols.{pack, command}
use program_learning.Spi.Writer.{get_u8_from_u32}
use program_learning.Spi.Writer.Frame.{bytes_as_data}
use program_learning.Spi.Groups.{fill_header_withnop1}
use program_learning.Spi.Groups.Laws.{swap_endian_32_lem}

-- The header: both addresses, five commands 0 and the write command.
abbrev pub header_symbols : ℕ → ℕ → List ℕ
header_symbols x y =
    (command 0x2a ∷ [])
    ++ bytes_as_data (get_u8_from_u32 x)
    ++ (command 0x2b ∷ [])
    ++ bytes_as_data (get_u8_from_u32 y)
    ++ (command 0 ∷ command 0 ∷ command 0 ∷ command 0 ∷ command 0 ∷ command 0x2c ∷ [])

-- The three words, from the bytes of the two addresses.
module _ (x0 x1 x2 x3 y0 y1 y3 : ℕ) (a0 : x0 < 256) (a1 : x1 < 256) (a2 : x2 < 256) (a3 : x3 < 256)
    (b0 : y0 < 256) (b1 : y1 < 256) (b3 : y3 < 256) where
  flags0 : Disjoint (x3 * 2 ^ 14 + x2 * 2 ^ 5 + x1 / 16) 0x15402010
  flags0 = Disjoint-flag 4 (x3 * 2 ^ 9 + x2) 0xAA0100 (x1 / 16) (omega arith) refl (omega arith) (
      Disjoint-flag 8 x3 0x5500 x2 (omega arith) refl a2
        (Disjoint-flag 8 0 0x2A x3 (omega arith) refl a3 (zero-Disjoint 0x2A)))

  flags1 : Disjoint (x1 % 16 * 2 ^ 28 + x0 * 2 ^ 19 + y3 * 2) 0x0800ae01
  flags1 =
      Disjoint-flag 0 (x1 % 16 * 2 ^ 27 + x0 * 2 ^ 18 + y3) 0x4005700 0 (omega arith) refl
        (omega arith)
        (Disjoint-flag 8 (x1 % 16 * 2 ^ 18 + x0 * 2 ^ 9) 0x2002B y3 (omega arith) refl b3 (
          Disjoint-gap 9 (x1 % 16 * 2 ^ 9 + x0) 0x100 0x2B (omega arith) refl (omega arith)
            (Disjoint-flag 8 (x1 % 16) 0 x0 (omega arith) refl a0 (Disjoint-zero (x1 % 16)))))

  flags2 : Disjoint (y1 * 2 ^ 23 + y0 * 2 ^ 14) 0x80400000
  flags2 =
      Disjoint-flag 22 y1 0x100 (y0 * 2 ^ 14) (omega arith) refl (omega arith)
        (Disjoint-flag 8 0 0 y1 (omega arith) refl b1 (zero-Disjoint 0))

  word0 :
      bit_or (bit_or (bit_or (shl32 x3 14) (shl32 x2 5)) (x1 / 2 ^ 4)) 0x15402010
      ≡ x3 * 2 ^ 14 + x2 * 2 ^ 5 + x1 / 16 + 0x15402010
  word0 =
      ground
        (arith, or_shifted 14 x3 (x2 * 2 ^ 5), or_shifted 5 (x3 * 2 ^ 9 + x2) (x1 / 16), flags0)

  word1 :
      bit_or (bit_or (bit_or (shl32 x1 28) (shl32 x0 19)) (shl32 y3 1)) 0x0800ae01
      ≡ x1 % 16 * 2 ^ 28 + x0 * 2 ^ 19 + y3 * 2 + 0x0800ae01
  word1 = ground (
    arith,
    or_shifted 28 (x1 % 16) (x0 * 2 ^ 19),
    or_shifted 19 (x1 % 16 * 2 ^ 9 + x0) (y3 * 2),
    flags1,
  )

  word2 :
      bit_or (bit_or (shl32 y1 23) (shl32 y0 14)) 0x80400000
      ≡ y1 * 2 ^ 23 + y0 * 2 ^ 14 + 0x80400000
  word2 = ground (arith, or_shifted 23 y1 (y0 * 2 ^ 14), flags2)

-- The same symbols, from the bytes.
abbrev pub header_of : ℕ → ℕ → ℕ → ℕ → ℕ → ℕ → ℕ → ℕ → List ℕ
header_of x0 x1 x2 x3 y0 y1 y2 y3 =
    0x2a ∷ bytes_as_data (x3 ∷ x2 ∷ x1 ∷ x0 ∷ [])
    ++ (0x2b ∷ bytes_as_data (y3 ∷ y2 ∷ y1 ∷ y0 ∷ []))
    ++ (0 ∷ 0 ∷ 0 ∷ 0 ∷ 0 ∷ 0x2c ∷ [])

pub pack-header_of :
    (x0 x1 x2 x3 y0 y1 y2 y3 : ℕ) (rest : List ℕ)
    → x0 < 256
    → x1 < 256
    → x2 < 256
    → x3 < 256
    → y0 < 256
    → y1 < 256
    → y2 < 256
    → y3 < 256
    → pack 0 0 (header_of x0 x1 x2 x3 y0 y1 y2 y3 ++ rest)
      ≡ 0x15
        ∷ (0x40 + x3 / 4)
        ∷ (0x20 + x2 / 8 + x3 % 4 * 64)
        ∷ (0x10 + x1 / 16 + x2 % 8 * 32)
        ∷ (0x08 + x0 / 32 + x1 % 16 * 16)
        ∷ (x0 % 32 * 8)
        ∷ (0xae + y3 / 128)
        ∷ (0x01 + y3 % 128 * 2)
        ∷ y2
        ∷ (0x80 + y1 / 2)
        ∷ (0x40 + y0 / 4 + y1 % 2 * 128)
        ∷ (y0 % 4 * 64)
        ∷ 0
        ∷ 0
        ∷ 0
        ∷ 0
        ∷ 0
        ∷ 0x2c
        ∷ pack 0 0 rest
unfolding pack
pack-header_of x0 x1 x2 x3 y0 y1 y2 y3 rest a0 a1 a2 a3 b0 b1 b2 b3 = ground arith

-- `fill_header_withnop1` sends the packed symbols of the header, for any two addresses of 32 bits,
-- and the symbols behind them start a new byte.
pub fill_header_withnop1-packs :
    (x y : ℕ) (rest : List ℕ)
    → x < 2 ^ 32
    → y < 2 ^ 32
    → fill_header_withnop1 x y ++ pack 0 0 rest ≡ pack 0 0 (header_symbols x y ++ rest)
unfolding fill_header_withnop1
fill_header_withnop1-packs x y rest hx hy = sent ∙ ap (λ l. pack 0 0 (l ++ rest)) same
  where
    same :
        header_of
          (byte x 0)
          (byte x 1)
          (byte x 2)
          (byte x 3)
          (byte y 0)
          (byte y 1)
          (byte y 2)
          (byte y 3)
        ≡ header_symbols x y
    same = ground arith

    sent :
        fill_header_withnop1 x y ++ pack 0 0 rest
        ≡ pack 0 0 (
            header_of
              (byte x 0)
              (byte x 1)
              (byte x 2)
              (byte x 3)
              (byte y 0)
              (byte y 1)
              (byte y 2)
              (byte y 3)
            ++ rest)
    sent = ground (
      arith,
      pack-header_of (byte x 0) (byte x 1) (byte x 2) (byte x 3) (byte y 0) (byte y 1) (byte y 2)
          (byte y 3) rest (omega arith) (omega arith) (omega arith) (omega arith) (omega arith)
          (omega arith) (omega arith) (omega arith),
      word0 (byte x 0) (byte x 1) (byte x 2) (byte x 3) (byte y 0) (byte y 1) (byte y 3)
          (omega arith) (omega arith) (omega arith) (omega arith) (omega arith) (omega arith)
          (omega arith),
      word1 (byte x 0) (byte x 1) (byte x 2) (byte x 3) (byte y 0) (byte y 1) (byte y 3)
          (omega arith) (omega arith) (omega arith) (omega arith) (omega arith) (omega arith)
          (omega arith),
      word2 (byte x 0) (byte x 1) (byte x 2) (byte x 3) (byte y 0) (byte y 1) (byte y 3)
          (omega arith) (omega arith) (omega arith) (omega arith) (omega arith) (omega arith)
          (omega arith),
      swap_endian_32_lem (byte x 3 * 2 ^ 14 + byte x 2 * 2 ^ 5 + byte x 1 / 16 + 0x15402010),
      swap_endian_32_lem (byte x 1 % 16 * 2 ^ 28 + byte x 0 * 2 ^ 19 + byte y 3 * 2 + 0x0800ae01),
      swap_endian_32_lem (byte y 1 * 2 ^ 23 + byte y 0 * 2 ^ 14 + 0x80400000),
    )
