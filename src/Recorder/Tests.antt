-- ===== src/Recorder/Tests.antt =====
-- Runs of the recorder's options, loop and header.
use program_learning.Prelude.{
  ◌+◌, ◌≡◌, refl, false, ℕ, length, replicate, ◌==◌, if◌then◌else◌, ◌++◌, arith, none, some, List,
  [], ◌∷◌,
}
use program_learning.Prelude.Text.{Text, codes}
use program_learning.Recorder.{
  Settings, defaults, atoi, option, parse_options, format_of, header_of, header_bytes, size_of,
  Round, capture,
}
use program_learning.Recorder.Header.{read_header, header_bytes-reads}
use program_learning.Recorder.Program.{record_wav, recorded, behind}
use program_learning.Recorder.File.{going, closing}
use program_learning.Recorder.Sounds.{sounds_of, record_wav-reads_back}
use program_learning.Recorder.Capture.{capture-counts}

-- `-c 6 -b 32 junk -n 4 -T`
abbrev given : List Text
given =
    codes "-c"
    ∷ codes "6"
    ∷ codes "-b"
    ∷ codes "32"
    ∷ codes "junk"
    ∷ codes "-n"
    ∷ codes "4"
    ∷ codes "-T"
    ∷ []

parsed :
    parse_options given defaults ≡ record defaults { channels = 6; bits = 32; period_count = 4 }
unfolding parse_options option
parsed = refl

signed :
    (atoi (codes " -1x") ≡ 4294967295) × (atoi (codes "+48000") ≡ 48000) × (atoi (codes "x") ≡ 0)
signed = (refl, refl, refl)

formats : (format_of 24 ≡ some 3) × (format_of 8 ≡ none)
unfolding format_of
formats = (refl, refl)

-- The default options ask each round for more bytes than `buff` has.
asked : size_of defaults ≡ 76800
asked = refl

abbrev six_channels : Settings
six_channels = record defaults { channels = 6 }

written_header :
    read_header (header_bytes (header_of six_channels 16 24000)) ≡ header_of six_channels 16 24000
written_header = header_bytes-reads six_channels 16 24000

-- With the default options the header tells a third of the bytes.
two_channels : (header_of defaults 16 24000).data_sz ≡ 8000
two_channels = refl

abbrev whole : Round
whole = record { len = some 12000; wrote = 12000; over = false }

abbrev short : Round
short = record { len = some 12000; wrote = 100; over = false }

short_ends :
    (capture ((whole ∷ whole ∷ []) ++ (short ∷ whole ∷ [])) 0 ≡ some (0 + 24000 + 0))
    × (capture (whole ∷ whole ∷ []) 0 ≡ none)
short_ends = capture-counts (whole ∷ whole ∷ []) (whole ∷ []) short 0 refl refl

-- `pcm_format_to_bits`
abbrev bits_of : ℕ → ℕ
bits_of n = if n == 0 then 16 else 32

-- `-c 6`
abbrev six : List Text
six = codes "-c" ∷ codes "6" ∷ []

abbrev frame : List ℕ
frame = 1 ∷ 2 ∷ 3 ∷ 4 ∷ 5 ∷ 6 ∷ 7 ∷ 8 ∷ 9 ∷ 10 ∷ 11 ∷ 12 ∷ []

-- A write that is cut short ends the loop; its bytes are in the file, and are not counted.
cut_short :
    record_wav bits_of six
      (going frame ∷ record { bytes = some frame; wrote = 2; over = false } ∷ [])
    ≡ recorded (header_bytes (header_of six_channels 16 12) ++ (frame ++ (1 ∷ 2 ∷ [])))
unfolding record_wav
cut_short = refl

too_long : record_wav bits_of six (going (replicate 19201 0) ∷ []) ≡ behind
unfolding record_wav
too_long = refl

record_wav-reads_back_example :
    (file : List ℕ) × (record_wav bits_of six
        (going frame ∷ (closing (some frame) ∷ closing none ∷ []))
      ≡ recorded file)
    × (sounds_of file ≡ frame ++ frame)
    × ((read_header file).riff_sz + 8 ≡ length file)
unfolding parse_options option format_of
record_wav-reads_back_example =
    record_wav-reads_back bits_of six 0 2 (frame ∷ []) (some frame) (closing none ∷ []) refl refl
      refl (omega arith) (omega arith, tt) (omega arith)
