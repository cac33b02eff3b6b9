-- ===== src/Spi/Tests.antt =====
-- demo/perfdemo/perfdemo.c at small inputs.
use program_learning.Prelude.{
  ℕ, ◌≡◌, ◌≢◌, refl, some, List, [], ◌∷◌, ◌++◌, arith, drop, replicate, length-replicate,
}
use program_learning.Spi.Word.{swap_endian_32, swap_endian_64}
use program_learning.Spi.Symbols.{pack, unpack}
use program_learning.Spi.Writer.{Filled, filled, filling_spi_send_display_data, tx_buf_max_len}
use program_learning.Spi.Writer.Frame.{frame_symbols, pixel_symbols, filling-packs}
use program_learning.Spi.Writer.Received.{wire, filling-received}
use program_learning.Spi.Groups.{
  Group, group_of, pack_group2, pack_group3, pack_group4, fill_header_withnop, fill_header_withnop1,
  fill_data_withnop, filling_spi_send_display_data3,
}
use program_learning.Spi.Groups.Laws.{group_symbols, pack_group2-packs, pack_group3-packs}
use program_learning.Spi.Groups.Header.{header_symbols, fill_header_withnop1-packs}
use program_learning.Spi.Groups.Frame.{nops, filling3-packs}
use program_learning.Spi.Groups.Faults.{
  fill_header_withnop-other, fill_data_withnop-other, pack_group4-other,
}

swaps_run : swap_endian_32 0x12345678 ≡ 0x78563412
unfolding swap_endian_32
swaps_run = refl

swaps64_run : swap_endian_64 0x12345678abcdef09 ≡ 0x09efcdab78563412
unfolding swap_endian_64
swaps64_run = refl

abbrev zeros : List ℕ
zeros = replicate tx_buf_max_len 0

abbrev pixels : List ℕ
pixels = 0x12345678 ∷ 0xf800001f ∷ []

abbrev group : Group
group = group_of 0x12345678 0xf800001f

filling-packs_example :
    filling_spi_send_display_data zeros pixels 2 239 319
    ≡ some (filled 23 (pack 0 0 (frame_symbols pixels 239 319) ++ drop 23 zeros))
filling-packs_example =
    filling-packs zeros pixels 239 319 (length-replicate {A = ℕ} tx_buf_max_len 0) (omega arith)

filling-received_example :
    (r : Filled) × (filling_spi_send_display_data zeros pixels 2 239 319 ≡ some r)
    × unpack 0 0 (wire r) ≡ frame_symbols pixels 239 319
filling-received_example =
    filling-received zeros pixels 239 319 (length-replicate {A = ℕ} tx_buf_max_len 0) (omega arith)

two_groups : pack_group2 group ++ pack 0 0 [] ≡ pack 0 0 (group_symbols group ++ [])
two_groups = pack_group2-packs group [] (omega arith)

group3_packed : pack_group3 group ++ pack 0 0 [] ≡ pack 0 0 (group_symbols group ++ [])
group3_packed = pack_group3-packs group [] (omega arith)

header1_packed :
    fill_header_withnop1 239 319 ++ pack 0 0 [] ≡ pack 0 0 (header_symbols 239 319 ++ [])
header1_packed = fill_header_withnop1-packs 239 319 [] (omega arith) (omega arith)

filling3-packs_example :
    filling_spi_send_display_data3 zeros pixels 2 239 319
    ≡ some (
        filled 36
          (pack 0 0 (header_symbols 239 319 ++ pixel_symbols pixels ++ nops) ++ drop 36 zeros))
filling3-packs_example =
    filling3-packs zeros pixels 1 239 319 (length-replicate {A = ℕ} tx_buf_max_len 0) refl
      (omega arith) (omega arith) (omega arith)

header_differs :
    (fill_header_withnop 239 319 ≡ fill_header_withnop 239 0)
    × fill_header_withnop 239 319 ≢ pack 0 0 (header_symbols 239 319)
header_differs = fill_header_withnop-other 239 319 0 (omega arith) (omega arith)

data_differs : fill_data_withnop group ≢ pack 0 0 (group_symbols group)
data_differs = fill_data_withnop-other group (omega arith)

other_group : pack_group4 (group_of 0x12345679 0) ≢ pack 0 0 (group_symbols (group_of 0x12345679 0))
other_group = pack_group4-other (group_of 0x12345679 0) (omega arith) (omega arith)
