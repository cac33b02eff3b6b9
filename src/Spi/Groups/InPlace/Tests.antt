-- ===== src/Spi/Groups/InPlace/Tests.antt =====
-- The loop of `filling_spi_send_display_data1` on a small buffer.
use program_learning.Prelude.{ℕ, ◌≡◌, refl, some, List, [], ◌∷◌, ◌++◌, take, replicate}
use program_learning.Spi.Word.{swap_endian_64}
use program_learning.Spi.Groups.{fill_data_withnop, group_of}
use program_learning.Spi.Groups.InPlace.{fill_rounds1}

abbrev four_words : List ℕ
four_words = 0x0201fffe ∷ 0x55667788 ∷ 0x0201fffe ∷ 0x55667788 ∷ []

-- The first group goes to the front of the buffer, where the header stands, and only its last byte to
-- its own place. Of the second group only the last byte is sent, behind eight zeros.
groups_lost :
    fill_rounds1 (replicate 52 0) 0 18 0 four_words
    ≡ some (
        take 8 (fill_data_withnop (group_of 0x0201fffe 0x55667788))
        ++ replicate 18 0
        ++ (0x66 ∷ replicate 8 0)
        ++ (0x66 ∷ replicate 16 0))
unfolding fill_rounds1 fill_data_withnop swap_endian_64
groups_lost = refl
