-- ===== src/Spi/Groups.antt =====
-- The packers of demo/perfdemo/perfdemo.c that send eight bytes of pixels, as nine, at a time, and
-- the headers of sixteen symbols before them.
pub mod Laws
pub mod Header
pub mod Frame
pub mod Faults
pub mod InPlace
use program_learning.Prelude.{
  ℕ, zero, suc, ◌+◌, ◌-◌, ◌*◌, ◌/◌, ◌%◌, ◌^◌, Option, none, some, List, [], ◌∷◌, ◌++◌, bit_and, ltb,
  leb, ◌==◌, ◌||◌, if◌then◌else◌, ◌>>=◌, u8, u32, length, take, drop, replicate,
}
use program_learning.Spi.Word.{
  ◌|||◌, ◌<<<◌, ◌>>>◌, shl32, shl64, byte, bytes32, bytes64, swap_endian_32, swap_endian_64,
}
use program_learning.Spi.Writer.{Filled, refused, filled, byte_count, tx_buf_max_len, clear}

-- The eight bytes from `psrc` on: two words of pixels, each least significant byte first.
pub record Group : Type 0 where
  pub p0 : ℕ
  pub p1 : ℕ
  pub p2 : ℕ
  pub p3 : ℕ
  pub p4 : ℕ
  pub p5 : ℕ
  pub p6 : ℕ
  pub p7 : ℕ

abbrev pub group_of : ℕ → ℕ → Group
group_of v w = record {
  p0 = byte v 0;
  p1 = byte v 1;
  p2 = byte v 2;
  p3 = byte v 3;
  p4 = byte w 0;
  p5 = byte w 1;
  p6 = byte w 2;
  p7 = byte w 3;
}

-- `BIG_HEADER0_MASK`, `BIG_HEADER_NOP_MASK`, `BIG_DATA_MASK`
abbrev pub big_header0_mask : ℕ
big_header0_mask = 0xAA0100804005701

abbrev pub big_header_nop_mask : ℕ
big_header_nop_mask = 0x4020000000000000

abbrev pub big_data_mask : ℕ
big_data_mask = 0x4020100804020101

-- `fill_header_withnop` into memory that is clear: both `px` and `py` are the address of `x`.
pub fill_header_withnop : ℕ → ℕ → List ℕ
fill_header_withnop x y =
    let px = byte x in
    let py = byte x in
    let first =
      0
      ||| big_header0_mask
      ||| (shl64 (px 3) 46
          ||| shl64 (px 2) 37
          ||| shl64 (px 1) 28
          ||| shl64 (px 0) 19
          ||| shl64 (py 3) 1) in
    let second = 0 ||| big_header_nop_mask ||| (shl64 (py 1) 55 ||| shl64 (py 0) 46) in
    bytes64 (swap_endian_64 first) ++ (py 2 ∷ []) ++ bytes64 (swap_endian_64 second) ++ (0x2c ∷ [])

-- `fill_data_withnop` into memory that is clear
pub fill_data_withnop : Group → List ℕ
fill_data_withnop g =
    let bits =
      0
      ||| big_data_mask
      ||| (shl64 g.p1 55
          ||| shl64 g.p0 46
          ||| shl64 g.p3 37
          ||| shl64 g.p2 28
          ||| shl64 g.p5 19
          ||| shl64 g.p4 10
          ||| shl64 g.p7 1) in
    bytes64 (swap_endian_64 bits) ++ (g.p6 ∷ [])

-- One round of the loop of `filling_spi_send_display_data2`
pub pack_group2 : Group → List ℕ
pack_group2 g =
    u8 (0x80 ||| g.p1 >>> 1)
    ∷ u8 (0x40 ||| g.p0 >>> 2 ||| g.p1 <<< 7)
    ∷ u8 (0x20 ||| g.p3 >>> 3 ||| g.p0 <<< 6)
    ∷ u8 (0x10 ||| g.p2 >>> 4 ||| g.p3 <<< 5)
    ∷ u8 (0x08 ||| g.p5 >>> 5 ||| g.p2 <<< 4)
    ∷ u8 (0x04 ||| g.p4 >>> 6 ||| g.p5 <<< 3)
    ∷ u8 (0x02 ||| g.p7 >>> 7 ||| g.p4 <<< 2)
    ∷ u8 (0x01 ||| g.p7 <<< 1)
    ∷ u8 g.p6
    ∷ []

-- `fill_header_withnop1`
pub fill_header_withnop1 : ℕ → ℕ → List ℕ
fill_header_withnop1 x y =
    let px = byte x in
    let py = byte y in
    let bits0 = shl32 (px 3) 14 ||| shl32 (px 2) 5 ||| px 1 >>> 4 ||| 0x15402010 in
    let bits1 = shl32 (px 1) 28 ||| shl32 (px 0) 19 ||| shl32 (py 3) 1 ||| 0x0800ae01 in
    let bits2 = shl32 (py 1) 23 ||| shl32 (py 0) 14 ||| 0x80400000 in
    bytes32 (swap_endian_32 bits0)
    ++ bytes32 (swap_endian_32 bits1)
    ++ (py 2 ∷ [])
    ++ bytes32 (swap_endian_32 bits2)
    ++ bytes32 0x00000000
    ++ (0x2c ∷ [])

-- One round of the loop of `filling_spi_send_display_data3`
pub pack_group3 : Group → List ℕ
pack_group3 g =
    let bits0 = shl32 g.p1 23 ||| shl32 g.p0 14 ||| shl32 g.p3 5 ||| g.p2 >>> 4 ||| 0x80402010 in
    let bits1 = shl32 g.p2 28 ||| shl32 g.p5 19 ||| shl32 g.p4 10 ||| shl32 g.p7 1 ||| 0x08040201 in
    bytes32 (swap_endian_32 bits0) ++ bytes32 (swap_endian_32 bits1) ++ (g.p6 ∷ [])

-- One round of the loop of `filling_spi_send_display_data4`
pub pack_group4 : Group → List ℕ
pack_group4 g =
    let bits0 =
      g.p1 >>> 1
      ||| shl32 (bit_and g.p1 0x01) 15
      ||| shl32 (bit_and g.p0 0xfc) 6
      ||| shl32 (bit_and g.p0 0x03) 24
      ||| shl32 (bit_and g.p3 0xf8) 13
      ||| shl32 (bit_and g.p3 0x07) 29
      ||| shl32 (bit_and g.p2 0xf0) 20
      ||| 0x10204080 in
    let bits1 =
      shl32 (bit_and g.p2 0x0f) 4
      ||| bit_and g.p5 0xe0 >>> 5
      ||| shl32 (bit_and g.p5 0x1f) 11
      ||| shl32 (bit_and g.p4 0xc0) 2
      ||| shl32 (bit_and g.p4 0x3f) 18
      ||| shl32 (bit_and g.p7 0x80) 9
      ||| shl32 (bit_and g.p7 0xfe) 25
      ||| 0x01020408 in
    bytes32 bits0 ++ bytes32 bits1 ++ (g.p6 ∷ [])

-- `for (i = 0; i < len / 2; i++)`: the nine bytes for each two words, one after the other; a last
-- single word is left out.
pub pack_groups : (Group → List ℕ) → List ℕ → List ℕ
pack_groups packer [] = []
pack_groups packer (v ∷ []) = []
pack_groups packer (v ∷ w ∷ ws) = packer (group_of v w) ++ pack_groups packer ws

-- `filling_spi_send_display_data2`, `…3` and `…4`: the same but for the header and the loop's body.
pub filling_groups :
    (ℕ → ℕ → List ℕ) → (Group → List ℕ) → List ℕ → List ℕ → ℕ → ℕ → ℕ → Option Filled
unfolding pack_groups
filling_groups header packer buf words len x y =
    let n = byte_count (u32 ((16 + len * 4 + 8) * 9)) in
    if n == 0 || ltb tx_buf_max_len n
    then some (refused n)
    else if ltb (length words) len
    then none
    else (clear n buf >>= λ zeros.
        let frame = header x y ++ pack_groups packer (take len words) in
        if ltb (length zeros) (length frame)
        then none
        else some (filled n (frame ++ drop (length frame) zeros)))

pub filling_spi_send_display_data2 : List ℕ → List ℕ → ℕ → ℕ → ℕ → Option Filled
unfolding filling_groups fill_header_withnop pack_group2
filling_spi_send_display_data2 = filling_groups fill_header_withnop pack_group2

pub filling_spi_send_display_data3 : List ℕ → List ℕ → ℕ → ℕ → ℕ → Option Filled
unfolding filling_groups fill_header_withnop1 pack_group3
filling_spi_send_display_data3 = filling_groups fill_header_withnop1 pack_group3

pub filling_spi_send_display_data4 : List ℕ → List ℕ → ℕ → ℕ → ℕ → Option Filled
unfolding filling_groups fill_header_withnop1 pack_group4
filling_spi_send_display_data4 = filling_groups fill_header_withnop1 pack_group4
