-- ===== src/Spi/Groups/Frame.antt =====
-- `filling_spi_send_display_data3` of demo/perfdemo/perfdemo.c sends a frame as the reference packer
-- does.
use program_learning.Prelude.{
  ℕ, zero, suc, ◌+◌, ◌-◌, ◌*◌, ◌^◌, ◌<◌, ◌≤◌, ◌≡◌, refl, sym, ap, ◌∙◌, some, List, [], ◌∷◌, ◌++◌,
  arith, ltb, ◌==◌, ◌||◌, u32, length, drop, replicate, length-append, append_assoc, take_all,
  length-replicate, false, mod-eq_of_lt,
}
use program_learning.Spi.Symbols.{pack, command}
use program_learning.Spi.Writer.{filled, byte_count, tx_buf_max_len, clear, pixel_bytes}
use program_learning.Spi.Writer.Frame.{bytes_as_data, pixel_symbols}
use program_learning.Spi.Groups.{
  Group, group_of, pack_groups, pack_group3, fill_header_withnop1, filling_groups,
  filling_spi_send_display_data3,
}
use program_learning.Spi.Groups.Laws.{AreBytes, group_symbols, pack_group3-packs}
use program_learning.Spi.Groups.Header.{header_symbols, fill_header_withnop1-packs}

group_of-AreBytes : (v w : ℕ) → AreBytes (group_of v w)
group_of-AreBytes v w = omega arith

group_symbols-pixels :
    (v w : ℕ)
    → group_symbols (group_of v w) ≡ bytes_as_data (pixel_bytes v) ++ bytes_as_data (pixel_bytes w)
group_symbols-pixels v w = ground arith

-- Pairs of words, group by group.
pack_groups-packs :
    (words rest : List ℕ) (m : ℕ)
    → length words ≡ 2 * m
    → pack_groups pack_group3 words ++ pack 0 0 rest ≡ pack 0 0 (pixel_symbols words ++ rest)
unfolding pack_groups
pack_groups-packs [] rest m e = refl
pack_groups-packs (v ∷ []) rest m e = absurd (omega arith)
pack_groups-packs (v ∷ w ∷ ws) rest m e =
    append_assoc (pack_group3 (group_of v w)) (pack_groups pack_group3 ws) (pack 0 0 rest)
    ∙ ap (λ l. pack_group3 (group_of v w) ++ l) (pack_groups-packs ws rest (m - 1) (omega arith))
    ∙ pack_group3-packs (group_of v w) (pixel_symbols ws ++ rest) (group_of-AreBytes v w)
    ∙ ap (λ l. pack 0 0 (l ++ (pixel_symbols ws ++ rest))) (group_symbols-pixels v w)

length-pack_group3 : (g : Group) → length (pack_group3 g) ≡ 9
unfolding pack_group3
length-pack_group3 g = refl

length-pack_groups :
    (words : List ℕ) (m : ℕ) → length words ≡ 2 * m → length (pack_groups pack_group3 words) ≡ 9 * m
unfolding pack_groups
length-pack_groups [] m e = omega arith
length-pack_groups (v ∷ []) m e = absurd (omega arith)
length-pack_groups (v ∷ w ∷ ws) m e = omega (
  arith,
  length-append {0} (pack_group3 (group_of v w)) (pack_groups pack_group3 ws),
  length-pack_groups ws (m - 1) (omega arith),
  length-pack_group3 (group_of v w),
)

length-header : (x y : ℕ) → length (fill_header_withnop1 x y) ≡ 18
unfolding fill_header_withnop1
length-header x y = refl

-- Eight commands 0 are nine bytes 0.
abbrev pub nops : List ℕ
nops =
    command 0
    ∷ command 0
    ∷ command 0
    ∷ command 0
    ∷ command 0
    ∷ command 0
    ∷ command 0
    ∷ command 0
    ∷ []

pack-nops : pack 0 0 nops ≡ replicate 9 0
unfolding pack
pack-nops = refl

drop-replicate :
    (k n : ℕ) (l : List ℕ) → k ≤ n → drop k (replicate n 0 ++ l) ≡ replicate (n - k) 0 ++ l
drop-replicate zero n l h = ap (λ j. replicate j 0 ++ l) (omega arith)
drop-replicate (suc k) zero l h = absurd (omega arith)
drop-replicate (suc k) (suc n) l h =
    drop-replicate k n l (omega arith) ∙ ap (λ j. replicate j 0 ++ l) (omega arith)

byte_count-enough : (b : ℕ) → b ≤ 8 * byte_count b
byte_count-enough b = ground arith

-- With room in the buffer no guard and no check of the bounds ends the code.
module _ (header : ℕ → ℕ → List ℕ) (packer : Group → List ℕ) (buf words : List ℕ) (x y n : ℕ) where
  filling_groups-fits :
      length buf ≡ tx_buf_max_len
      → n ≡ byte_count ((16 + length words * 4 + 8) * 9)
      → n ≤ tx_buf_max_len
      → length (header x y ++ pack_groups packer words) ≤ n
      → let frame = header x y ++ pack_groups packer words in
        filling_groups header packer buf words (length words) x y
        ≡ some (filled n (frame ++ drop (length frame) (replicate n 0 ++ drop n buf)))
  unfolding filling_groups
  filling_groups-fits e same fits short =
      rw (count, guarded, all_there, take_all words, cleared, room)
    where
      zeros : length (replicate n 0 ++ drop n buf) ≡ n + length (drop n buf)
      zeros =
          length-append (replicate n 0) (drop n buf)
          ∙ ap (λ k. k + length (drop n buf)) (length-replicate {A = ℕ} n 0)

      guarded : (n == 0 || ltb tx_buf_max_len n) ≡ false
      guarded = ground (arith, byte_count-enough ((16 + length words * 4 + 8) * 9))

      all_there : ltb (length words) (length words) ≡ false
      all_there = ground arith

      cleared : clear n buf ≡ some (replicate n 0 ++ drop n buf)
      cleared = ground arith

      room :
          ltb
            (length (replicate n 0 ++ drop n buf))
            (length (header x y ++ pack_groups packer words))
          ≡ false
      room = ground (arith, zeros)

      count : byte_count (u32 ((16 + length words * 4 + 8) * 9)) ≡ n
      count =
          ap byte_count
            (mod-eq_of_lt (omega (arith, byte_count-enough ((16 + length words * 4 + 8) * 9))))
          ∙ sym same

-- With a send buffer of its full size, two addresses of 32 bits and an even number of words that
-- fits, `filling_spi_send_display_data3` leaves in the first `spi_send_len` bytes the packed
-- symbols of its header, of the pixels and of eight commands 0, and keeps the bytes behind.
pub filling3-packs :
    (buf words : List ℕ) (m x y : ℕ)
    → length buf ≡ tx_buf_max_len
    → length words ≡ 2 * m
    → x < 2 ^ 32
    → y < 2 ^ 32
    → 27 + 9 * m ≤ tx_buf_max_len
    → filling_spi_send_display_data3 buf words (length words) x y
      ≡ some (
          filled
            (27 + 9 * m)
            (pack 0 0 (header_symbols x y ++ pixel_symbols words ++ nops) ++ drop (27 + 9 * m) buf))
unfolding filling_spi_send_display_data3 filling_groups
filling3-packs buf words m x y e even hx hy fits =
    enters ∙ ap (λ b. some (filled n b)) (ap (λ l. frame ++ l) behind ∙ sends)
  where
    n : ℕ
    n = 27 + 9 * m

    frame : List ℕ
    frame = fill_header_withnop1 x y ++ pack_groups pack_group3 words

    long : length frame ≡ 18 + 9 * m
    long = omega (
      arith,
      length-append {0} (fill_header_withnop1 x y) (pack_groups pack_group3 words),
      length-header x y,
      length-pack_groups words m even,
    )

    enters :
        filling_groups fill_header_withnop1 pack_group3 buf words (length words) x y
        ≡ some (filled n (frame ++ drop (length frame) (replicate n 0 ++ drop n buf)))
    enters =
        filling_groups-fits fill_header_withnop1 pack_group3 buf words x y n (omega arith)
          (ground arith) (omega arith) (omega (arith, long))

    behind : drop (length frame) (replicate n 0 ++ drop n buf) ≡ pack 0 0 nops ++ drop n buf
    behind =
        ap (λ k. drop k (replicate n 0 ++ drop n buf)) long
        ∙ drop-replicate (18 + 9 * m) n (drop n buf) (omega arith)
        ∙ ap (λ k. replicate k 0 ++ drop n buf) {y = 9} (omega arith)
        ∙ ap (λ l. l ++ drop n buf) (sym pack-nops)

    sends :
        frame ++ (pack 0 0 nops ++ drop n buf)
        ≡ pack 0 0 (header_symbols x y ++ pixel_symbols words ++ nops) ++ drop n buf
    sends =
        sym (append_assoc frame (pack 0 0 nops) (drop n buf))
        ∙ ap (λ l. l ++ drop n buf)
            (append_assoc (fill_header_withnop1 x y) (pack_groups pack_group3 words) (pack 0 0 nops)
              ∙ ap (λ l. fill_header_withnop1 x y ++ l) (pack_groups-packs words nops m even)
              ∙ fill_header_withnop1-packs x y (pixel_symbols words ++ nops) hx hy)
