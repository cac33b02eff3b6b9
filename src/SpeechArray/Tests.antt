-- ===== src/SpeechArray/Tests.antt =====
-- speech/src/speecharray.c at small inputs.
use program_learning.Prelude.{
  ℕ, ◌*◌, ◌≤◌, ◌<◌, ◌≡◌, refl, ◌⊎◌, some, List, [], ◌∷◌, ◌++◌, arith, length, drop, replicate,
}
use program_learning.Prelude.Int.{pos, negsuc}
use program_learning.SpeechArray.{parse_data_int32, skip_data}
use program_learning.SpeechArray.Format.{samples}
use program_learning.SpeechArray.Parse.{parse_data_int32-samples}
use program_learning.SpeechArray.Skip.{Junk, Sounds, skip_data-Junk}

-- A stray word, a sample, and words of no sample behind it.
abbrev sample : List ℕ
sample =
    0x00010100 ∷ 0x00020200 ∷ 0x00030300 ∷ 0x00040400 ∷ 0x00050500 ∷ 0x00060600 ∷ 0x00070700
    ∷ 0x00080800 ∷ 0x00090900 ∷ 0x000a0a00 ∷ 0x000b0b00 ∷ 0x000c0c00 ∷ []

abbrev recording : List ℕ
recording = (0xffff0700 ∷ sample) ++ replicate 30 0

parse_runs :
    parse_data_int32 recording 96
    ≡ some ((0x00010002 ∷ 0x00070008 ∷ 0x0004000a ∷ []) ++ drop 3 recording, pos 12)
unfolding parse_data_int32
parse_runs = refl

parse_refuses : parse_data_int32 recording 47 ≡ some (recording, negsuc 0)
unfolding parse_data_int32
parse_refuses = refl

skip_runs : skip_data recording 96 ≡ some (pos 4)
unfolding skip_data
skip_runs = refl

-- From the last word of the length on, a silent sample takes the skip beyond the length.
skip_passes_end :
    skip_data
      (replicate 11 0
        ++ (0x100 ∷ 0x200 ∷ 0x300 ∷ 0x400 ∷ 0x500 ∷ 0x600 ∷ 0x700 ∷ 0x800 ∷ 0x900 ∷ 0xa00 ∷ 0xb00
            ∷ 0xc00 ∷ []))
      48
    ≡ some (pos 92)
unfolding skip_data
skip_passes_end = refl

parse_data_int32-samples_example :
    let out = samples 0 24 recording in
    (parse_data_int32 recording 96
      ≡ some (out ++ drop (length out) recording, pos (4 * length out)))
    × (4 * (4 * length out) ≤ 96)
parse_data_int32-samples_example = parse_data_int32-samples recording 96 (omega arith) (omega arith)

skip_data-Junk_example :
    (n : ℕ) × (skip_data recording 96 ≡ some (pos (4 * n)))
    × Junk recording 0 n
    × (n < 36)
    × ((24 ≤ n) ⊎ Sounds recording n)
skip_data-Junk_example = skip_data-Junk recording 96 (omega arith) (omega arith)
