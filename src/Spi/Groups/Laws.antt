-- ===== src/Spi/Groups/Laws.antt =====
-- The packers by groups of demo/perfdemo/perfdemo.c send the symbols of the reference packer.
use program_learning.Prelude.{
  ℕ, ◌+◌, ◌*◌, ◌/◌, ◌%◌, ◌^◌, ◌<◌, ◌≡◌, List, [], ◌∷◌, ◌++◌, bit_or, arith, refl,
}
use program_learning.Prelude.Bits.{Disjoint, Disjoint-zero, zero-Disjoint, or_shifted, or_below}
use program_learning.Prelude.Fields.{Disjoint-flag, and_field}
use program_learning.Spi.Word.{bytes32, swap_endian_32, shl32}
use program_learning.Spi.Symbols.{pack}
use program_learning.Spi.Writer.Frame.{bytes_as_data}
use program_learning.Spi.Groups.{Group, pack_group2, pack_group3}

pub record AreBytes (g : Group) : Type 0 where
  pub b0 : g.p0 < 256
  pub b1 : g.p1 < 256
  pub b2 : g.p2 < 256
  pub b3 : g.p3 < 256
  pub b4 : g.p4 < 256
  pub b5 : g.p5 < 256
  pub b6 : g.p6 < 256
  pub b7 : g.p7 < 256

-- The order in which the display wants the bytes: the two of each 16-bit pixel swapped.
abbrev pub group_symbols : Group → List ℕ
group_symbols g = bytes_as_data (g.p1 ∷ g.p0 ∷ g.p3 ∷ g.p2 ∷ g.p5 ∷ g.p4 ∷ g.p7 ∷ g.p6 ∷ [])

-- The nine bytes of the eight symbols.
abbrev pub group_bytes : Group → List ℕ
group_bytes g =
    (0x80 + g.p1 / 2)
    ∷ (0x40 + g.p0 / 4 + g.p1 % 2 * 128)
    ∷ (0x20 + g.p3 / 8 + g.p0 % 4 * 64)
    ∷ (0x10 + g.p2 / 16 + g.p3 % 8 * 32)
    ∷ (0x08 + g.p5 / 32 + g.p2 % 16 * 16)
    ∷ (0x04 + g.p4 / 64 + g.p5 % 32 * 8)
    ∷ (0x02 + g.p7 / 128 + g.p4 % 64 * 4)
    ∷ (0x01 + g.p7 % 128 * 2)
    ∷ g.p6
    ∷ []

pub pack-group_bytes :
    (g : Group) (rest : List ℕ)
    → AreBytes g
    → pack 0 0 (group_symbols g ++ rest) ≡ group_bytes g ++ pack 0 0 rest
unfolding pack
pack-group_bytes g rest a = ground arith

-- The loop body of `filling_spi_send_display_data2` sends the packed eight data symbols of a group
-- of bytes, and the symbols behind them start a new byte.
pub pack_group2-packs :
    (g : Group) (rest : List ℕ)
    → AreBytes g
    → pack_group2 g ++ pack 0 0 rest ≡ pack 0 0 (group_symbols g ++ rest)
unfolding pack_group2
pack_group2-packs g rest a = ground (
  arith,
  pack-group_bytes g rest a,
  or_shifted 7 1 (g.p1 / 2),
  or_shifted 6 1 (g.p0 / 4),
  or_below 7 g.p1 (64 + g.p0 / 4),
  or_shifted 5 1 (g.p3 / 8),
  or_below 6 g.p0 (32 + g.p3 / 8),
  or_shifted 4 1 (g.p2 / 16),
  or_below 5 g.p3 (16 + g.p2 / 16),
  or_shifted 3 1 (g.p5 / 32),
  or_below 4 g.p2 (8 + g.p5 / 32),
  or_shifted 2 1 (g.p4 / 64),
  or_below 3 g.p5 (4 + g.p4 / 64),
  or_shifted 1 1 (g.p7 / 128),
  or_below 2 g.p4 (2 + g.p7 / 128),
  or_below 1 g.p7 1,
)

pub swap_endian_32_lem :
    (w : ℕ)
    → w < 2 ^ 32
    → bytes32 (swap_endian_32 w) ≡ w / 2 ^ 24 ∷ w / 2 ^ 16 % 256 ∷ w / 2 ^ 8 % 256 ∷ w % 256 ∷ []
unfolding swap_endian_32
swap_endian_32_lem w h = ground (
  arith,
  and_field 0 8 w,
  and_field 8 8 w,
  and_field 16 8 w,
  and_field 24 8 w,
  or_shifted 24 (w % 256) (w / 256 % 256 * 65536),
  or_shifted 16 (w % 256 * 256 + w / 256 % 256) (w / 65536 % 256 * 256),
  or_shifted 8 (w % 256 * 65536 + w / 256 % 256 * 256 + w / 65536 % 256) (w / 16777216),
)

-- The two words of a group, as sums of their fields and flags.
abbrev fields0 : Group → ℕ
fields0 g = g.p1 * 2 ^ 23 + g.p0 * 2 ^ 14 + g.p3 * 2 ^ 5 + g.p2 / 16

abbrev fields1 : Group → ℕ
fields1 g = g.p2 % 16 * 2 ^ 28 + g.p5 * 2 ^ 19 + g.p4 * 2 ^ 10 + g.p7 * 2

fields0-flags : (g : Group) → AreBytes g → Disjoint (fields0 g) 0x80402010
fields0-flags g a =
    Disjoint-flag 4 (g.p1 * 2 ^ 18 + g.p0 * 2 ^ 9 + g.p3) 0x4020100 (g.p2 / 16) (omega arith) refl
      (omega (arith, a.b2))
      (Disjoint-flag 8 (g.p1 * 2 ^ 9 + g.p0) 0x20100 g.p3 (omega arith) refl a.b3 (
        Disjoint-flag 8 g.p1 0x100 g.p0 (omega arith) refl a.b0
          (Disjoint-flag 8 0 0 g.p1 (omega arith) refl a.b1 (zero-Disjoint 0))))

fields1-flags : (g : Group) → AreBytes g → Disjoint (fields1 g) 0x08040201
fields1-flags g a =
    Disjoint-flag 0 (g.p2 % 16 * 2 ^ 27 + g.p5 * 2 ^ 18 + g.p4 * 2 ^ 9 + g.p7) 0x4020100 0
      (omega arith) refl (omega arith)
      (Disjoint-flag 8 (g.p2 % 16 * 2 ^ 18 + g.p5 * 2 ^ 9 + g.p4) 0x20100 g.p7 (omega arith) refl
        a.b7
        (Disjoint-flag 8 (g.p2 % 16 * 2 ^ 9 + g.p5) 0x100 g.p4 (omega arith) refl a.b4
          (Disjoint-flag 8 (g.p2 % 16) 0 g.p5 (omega arith) refl a.b5 (Disjoint-zero (g.p2 % 16)))))

word0 :
    (g : Group)
    → AreBytes g
    → bit_or
        (bit_or (bit_or (bit_or (shl32 g.p1 23) (shl32 g.p0 14)) (shl32 g.p3 5)) (g.p2 / 2 ^ 4))
        0x80402010
      ≡ fields0 g + 0x80402010
word0 g a = ground (
  arith,
  or_shifted 23 g.p1 (g.p0 * 2 ^ 14),
  or_shifted 14 (g.p1 * 2 ^ 9 + g.p0) (g.p3 * 2 ^ 5),
  or_shifted 5 (g.p1 * 2 ^ 18 + g.p0 * 2 ^ 9 + g.p3) (g.p2 / 16),
  fields0-flags g a,
  a,
)

word1 :
    (g : Group)
    → AreBytes g
    → bit_or
        (bit_or (bit_or (bit_or (shl32 g.p2 28) (shl32 g.p5 19)) (shl32 g.p4 10)) (shl32 g.p7 1))
        0x08040201
      ≡ fields1 g + 0x08040201
word1 g a = ground (
  arith,
  or_shifted 28 (g.p2 % 16) (g.p5 * 2 ^ 19),
  or_shifted 19 (g.p2 % 16 * 2 ^ 9 + g.p5) (g.p4 * 2 ^ 10),
  or_shifted 10 (g.p2 % 16 * 2 ^ 18 + g.p5 * 2 ^ 9 + g.p4) (g.p7 * 2),
  fields1-flags g a,
  a,
)

-- The loop body of `filling_spi_send_display_data3` sends the packed eight data symbols of a group
-- of bytes, and the symbols behind them start a new byte.
pub pack_group3-packs :
    (g : Group) (rest : List ℕ)
    → AreBytes g
    → pack_group3 g ++ pack 0 0 rest ≡ pack 0 0 (group_symbols g ++ rest)
unfolding pack_group3
pack_group3-packs g rest a = ground (
  arith,
  pack-group_bytes g rest a,
  word0 g a,
  word1 g a,
  swap_endian_32_lem (fields0 g + 0x80402010),
  swap_endian_32_lem (fields1 g + 0x08040201),
  a,
)
