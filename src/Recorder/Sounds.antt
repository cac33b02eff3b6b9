-- ===== src/Recorder/Sounds.antt =====
-- What the file of speech/test/speecharraytest.c tells a reader of WAV files.
use program_learning.Prelude.{
  ℕ, ◌+◌, ◌-◌, ◌*◌, ◌^◌, ◌≤◌, ◌<◌, ◌≡◌, ap, ap₂, sym, ◌∙◌, Option, some, List, ◌∷◌, ◌++◌, map,
  arith, length, take, drop, take_all, ◌/◌, ◌%◌,
}
use program_learning.Prelude.Text.{Text}
use program_learning.Recorder.{
  Settings, defaults, parse_options, format_of, header_of, header_bytes,
}
use program_learning.Recorder.Header.{read_header, header_bytes-reads, written}
use program_learning.Recorder.Program.{Met, buffer_size, recorded, record_wav}
use program_learning.Recorder.File.{going, closing, or_nothing, Fits, joined, record_wav-writes}

-- The sounds of a file by the layout of the format.
abbrev pub sounds_of : List ℕ → List ℕ
sounds_of file = take (read_header file).data_sz (drop 44 file)

headed-reads :
    (s : Settings) (bits frames : ℕ) (sounds : List ℕ)
    → (header_of s bits (length sounds)).block_align ≡ 12
    → length sounds ≡ frames * 12
    → length sounds + 36 < 2 ^ 32
    → (sounds_of (header_bytes (header_of s bits (length sounds)) ++ sounds) ≡ sounds)
      × ((read_header (header_bytes (header_of s bits (length sounds)) ++ sounds)).riff_sz + 8
          ≡ 44 + length sounds)
headed-reads s bits frames sounds block frames_of fits =
    let h = header_of s bits (length sounds) in
    let reads = header_bytes-reads s bits (length sounds) in
    let size : h.data_sz ≡ length sounds =
      ap₂ (λ n a. n / 12 * a % 2 ^ 32) frames_of block
      ∙ (written frames 12 (omega (arith, frames_of, fits)) ∙ sym frames_of) in
    (
      ap (λ h. take h.data_sz sounds) reads ∙ (ap (λ n. take n sounds) size ∙ take_all sounds),
      ap (λ h. h.riff_sz + 8) reads
          ∙ (ap (λ n. (n + 44 - 8) % 2 ^ 32 + 8) size ∙ omega (arith, fits)),
    )

-- A format that is supported, a block of 12 bytes, and rounds that read what fits the buffer, write it
-- whole and go on, up to one that reads nothing, or reads and writes the last bytes and is over. If
-- that makes whole frames of 12 bytes, in the range of `int`, then, whatever would come behind it, the
-- program ends, and by the layout of a WAV file its file has just the bytes that were read, in their
-- order, and the size of the file.
pub record_wav-reads_back :
    (pcm_format_to_bits : ℕ → ℕ) (args : List Text) (format frames : ℕ) (read : List (List ℕ))
    (last : Option (List ℕ)) (after : List Met)
    → format_of (parse_options args defaults).bits ≡ some format
    → (header_of
        (parse_options args defaults)
        (pcm_format_to_bits format)
        (length (joined read ++ or_nothing last))).block_align
      ≡ 12
    → length (joined read ++ or_nothing last) ≡ frames * 12
    → length (joined read ++ or_nothing last) + 36 < 2 ^ 31
    → Fits read
    → length (or_nothing last) ≤ buffer_size
    → (file : List ℕ) × (record_wav pcm_format_to_bits args
          (map going read ++ (closing last ∷ after))
        ≡ recorded file)
      × (sounds_of file ≡ joined read ++ or_nothing last)
      × ((read_header file).riff_sz + 8 ≡ length file)
record_wav-reads_back to_bits args format frames read last after supported block whole range fit
      fits =
    let s = parse_options args defaults in
    let sounds = joined read ++ or_nothing last in
    let (same, size) =
      headed-reads s (to_bits format) frames sounds block whole (omega (arith, range)) in
    (
      header_bytes (header_of s (to_bits format) (length sounds)) ++ sounds,
      record_wav-writes to_bits args format read last after supported fit fits,
      same,
      size ∙ omega arith,
    )
