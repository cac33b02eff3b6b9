-- ===== src/Spi/Groups/Faults.antt =====
-- Where `fill_header_withnop`, `fill_data_withnop` and the loop of `filling_spi_send_display_data4`
-- in demo/perfdemo/perfdemo.c send other symbols than the reference packer.
use program_learning.Prelude.{
  ℕ, zero, suc, ◌+◌, ◌*◌, ◌/◌, ◌%◌, ◌^◌, ◌<◌, ◌≡◌, ◌≢◌, refl, sym, ap, ◌∙◌, List, [], ◌∷◌, arith,
  bit_or, bit_and, append-nil,
}
use program_learning.Prelude.Fields.{or-lt, or-mod, and_ones, and_field}
use program_learning.Spi.Word.{byte, swap_endian_64, shl32, shl64}
use native.Mathlib.Nat.{one-le-pow}
use program_learning.Spi.Symbols.{pack}
use program_learning.Spi.Groups.{Group, pack_group4, fill_data_withnop, fill_header_withnop}
use program_learning.Spi.Groups.Laws.{AreBytes, group_symbols, pack-group_bytes}
use program_learning.Spi.Groups.Header.{header_symbols}

-- The byte at an index, 0 behind the last.
abbrev nth : ℕ → List ℕ → ℕ
nth k [] = 0
nth zero (b ∷ bs) = b
nth (suc k) (b ∷ bs) = nth k bs

or-mod-lt : (k j a b : ℕ) → a % 2 ^ k < 2 ^ j → b % 2 ^ k < 2 ^ j → bit_or a b % 2 ^ k < 2 ^ j
or-mod-lt k j a b p q = ground (arith, or-mod k a b, or-lt j (a % 2 ^ k) (b % 2 ^ k) p q)

-- The first byte of a swapped word is its top byte.
swapped_first : (j w : ℕ) → w / 2 ^ 56 % 2 ^ 8 < 2 ^ j → swap_endian_64 w % 2 ^ 8 < 2 ^ j
unfolding swap_endian_64
swapped_first j w h =
    let and4 = and_field 32 8 w in
    let and5 = and_field 40 8 w in
    let and6 = and_field 48 8 w in
    let and7 = and_field 56 8 w in
    let one = one-le-pow j 2 (omega arith) in
    or-mod-lt 8 j _ _
      (or-mod-lt 8 j _ _
        (or-mod-lt 8 j _ _
          (or-mod-lt 8 j _ _
            (or-mod-lt 8 j _ _
              (or-mod-lt 8 j _ _ (or-mod-lt 8 j _ _ (omega arith) (omega arith)) (omega arith))
              (omega arith))
            (omega arith))
          (omega arith))
        (omega arith))
      (omega arith)

or-lt5 :
    (j a b c d e : ℕ)
    → a < 2 ^ j
    → b < 2 ^ j
    → c < 2 ^ j
    → d < 2 ^ j
    → e < 2 ^ j
    → bit_or (bit_or (bit_or (bit_or a b) c) d) e < 2 ^ j
or-lt5 j a b c d e la lb lc ld le =
    or-lt j _ _ (or-lt j _ _ (or-lt j _ _ (or-lt j _ _ la lb) lc) ld) le

or-lt7 :
    (j a b c d e f g : ℕ)
    → a < 2 ^ j
    → b < 2 ^ j
    → c < 2 ^ j
    → d < 2 ^ j
    → e < 2 ^ j
    → f < 2 ^ j
    → g < 2 ^ j
    → bit_or (bit_or (bit_or (bit_or (bit_or (bit_or a b) c) d) e) f) g < 2 ^ j
or-lt7 j a b c d e f g la lb lc ld le lf lg =
    or-lt j _ _ (or-lt j _ _ (or-lt5 j a b c d e la lb lc ld le) lf) lg

-- `fill_data_withnop` never sends the packed eight data symbols of a group, whatever its bytes.
pub fill_data_withnop-other :
    (g : Group) → AreBytes g → fill_data_withnop g ≢ pack 0 0 (group_symbols g)
unfolding fill_data_withnop
fill_data_withnop-other g a e = omega (arith, same, low)
  where
    bits : ℕ
    bits = bit_or (bit_or 0 0x4020100804020101) (
        bit_or
          (bit_or
            (bit_or
              (bit_or (bit_or (bit_or (shl64 g.p1 55) (shl64 g.p0 46)) (shl64 g.p3 37))
                (shl64 g.p2 28))
              (shl64 g.p5 19))
            (shl64 g.p4 10))
          (shl64 g.p7 1))

    short : bits < 2 ^ 63
    short = or-lt 63 _ _ (or-lt 63 0 0x4020100804020101 (omega arith) (omega arith)) (
        or-lt7 63 (shl64 g.p1 55) (shl64 g.p0 46) (shl64 g.p3 37) (shl64 g.p2 28) (shl64 g.p5 19)
          (shl64 g.p4 10) (shl64 g.p7 1) (omega arith) (omega arith) (omega arith) (omega arith)
          (omega arith) (omega arith) (omega arith))

    low : byte (swap_endian_64 bits) 0 < 2 ^ 7
    low = omega (arith, swapped_first 7 bits (omega (arith, short)))

    same : byte (swap_endian_64 bits) 0 ≡ 128 + g.p1 / 2
    same =
        ap (nth 0)
          (e ∙ ap (pack 0 0) (sym (append-nil (group_symbols g))) ∙ pack-group_bytes g [] a)

-- `fill_header_withnop` sends the same for any two values of `y`, and for no two addresses of 32
-- bits the packed symbols of the header.
pub fill_header_withnop-other :
    (x y y' : ℕ)
    → x < 2 ^ 32
    → y < 2 ^ 32
    → (fill_header_withnop x y ≡ fill_header_withnop x y')
      × fill_header_withnop x y ≢ pack 0 0 (header_symbols x y)
unfolding fill_header_withnop pack
fill_header_withnop-other x y y' hx hy = (refl, λ e. omega (arith, same e, low))
  where
    bits : ℕ
    bits = bit_or (bit_or 0 0xAA0100804005701) (
        bit_or
          (bit_or
            (bit_or (bit_or (shl64 (byte x 3) 46) (shl64 (byte x 2) 37)) (shl64 (byte x 1) 28))
            (shl64 (byte x 0) 19))
          (shl64 (byte x 3) 1))

    short : bits < 2 ^ 60
    short = or-lt 60 _ _ (or-lt 60 0 0xAA0100804005701 (omega arith) (omega arith)) (
        or-lt5 60 (shl64 (byte x 3) 46) (shl64 (byte x 2) 37) (shl64 (byte x 1) 28)
          (shl64 (byte x 0) 19) (shl64 (byte x 3) 1) (omega arith) (omega arith) (omega arith)
          (omega arith) (omega arith))

    low : byte (swap_endian_64 bits) 0 < 2 ^ 4
    low = omega (arith, swapped_first 4 bits (omega (arith, short)))

    same :
        fill_header_withnop x y ≡ pack 0 0 (header_symbols x y)
        → byte (swap_endian_64 bits) 0 ≡ 0x15
    same e = ap (nth 0) e

-- Where the two low bits of a group's first byte are not both 0, the loop body of
-- `filling_spi_send_display_data4` does not send the packed eight data symbols of the group.
pub pack_group4-other :
    (g : Group) → AreBytes g → 0 < g.p0 % 4 → pack_group4 g ≢ pack 0 0 (group_symbols g)
unfolding pack_group4
pack_group4-other g a odd e = omega (arith, same, low)
  where
    bits : ℕ
    bits =
        bit_or
          (bit_or
            (bit_or
              (bit_or
                (bit_or
                  (bit_or (bit_or (g.p1 / 2 ^ 1) (shl32 (bit_and g.p1 0x01) 15))
                    (shl32 (bit_and g.p0 0xfc) 6))
                  (shl32 (bit_and g.p0 0x03) 24))
                (shl32 (bit_and g.p3 0xf8) 13))
              (shl32 (bit_and g.p3 0x07) 29))
            (shl32 (bit_and g.p2 0xf0) 20))
          0x10204080

    part0 : bit_and g.p0 0xfc ≡ g.p0 / 4 * 4
    part0 = and_field 2 6 g.p0 ∙ omega arith

    part1 : bit_and g.p1 0x01 ≡ g.p1 % 2
    part1 = and_ones 1 g.p1

    part2 : bit_and g.p2 0xf0 ≡ g.p2 / 16 * 16
    part2 = and_field 4 4 g.p2 ∙ omega arith

    part3 : bit_and g.p3 0xf8 ≡ g.p3 / 8 * 8
    part3 = and_field 3 5 g.p3 ∙ omega arith

    -- No part reaches the bits 22 and 23.
    low : bits % 2 ^ 24 < 2 ^ 22
    low =
        or-mod-lt 24 22 _ _
          (or-mod-lt 24 22 _ (shl32 (bit_and g.p2 0xf0) 20)
            (or-mod-lt 24 22 _ (shl32 (bit_and g.p3 0x07) 29)
              (or-mod-lt 24 22 _ (shl32 (bit_and g.p3 0xf8) 13)
                (or-mod-lt 24 22 _ (shl32 (bit_and g.p0 0x03) 24)
                  (or-mod-lt 24 22 _ (shl32 (bit_and g.p0 0xfc) 6)
                    (or-mod-lt 24 22 (g.p1 / 2 ^ 1) (shl32 (bit_and g.p1 0x01) 15) (omega arith)
                      (omega (arith, part1)))
                    (omega (arith, part0)))
                  (omega arith))
                (omega (arith, part3)))
              (omega arith))
            (omega (arith, part2)))
          (omega arith)

    same : byte bits 2 ≡ 0x20 + g.p3 / 8 + g.p0 % 4 * 64
    same =
        ap (nth 2)
          (e ∙ ap (pack 0 0) (sym (append-nil (group_symbols g))) ∙ pack-group_bytes g [] a)
