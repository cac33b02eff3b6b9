-- ===== src/Recorder/Program.antt =====
-- `main` of speech/test/speecharraytest.c, with the file that it writes. What the array, the file, the
-- clock and the signals do to a round of its loop is given with the round; the other writes to the
-- file are whole. `pcm_format_to_bits`, which is tinyalsa's, is a parameter.
use program_learning.Prelude.{
  ℕ, ◌+◌, ◌-◌, Bool, Option, none, some, List, [], ◌∷◌, ◌++◌, ltb, ◌==◌, if◌then◌else◌, length,
  take, drop, replicate,
}
use program_learning.Prelude.Text.{Text}
use program_learning.Recorder.{
  Settings, defaults, parse_options, format_of, header_of, header_bytes,
}

-- What `SpeechArrayRead` put into `buff`, if its result is positive, what `fwrite` wrote, and whether
-- the time is over or a signal has come.
pub record Met : Type 0 where
  pub bytes : Option (List ℕ)
  pub wrote : ℕ
  pub over : Bool

-- `BUFFER_SIZE`
abbrev pub buffer_size : ℕ
buffer_size = 19200

-- The file, and where the next write goes.
pub record WavFile : Type 0 where
  pub content : List ℕ
  pub at : ℕ

-- A gap is filled with zeros.
abbrev pub write_at : ℕ → List ℕ → List ℕ → List ℕ
write_at at bytes content =
    take at content
    ++ (replicate (at - length content) 0 ++ (bytes ++ drop (at + length bytes) content))

abbrev pub fwrite : List ℕ → WavFile → WavFile
fwrite bytes f = record { content = write_at f.at bytes f.content; at = f.at + length bytes }

abbrev pub fseek : ℕ → WavFile → WavFile
fseek at f = record f { at = at }

-- How the loop ends: `overrun` is a write behind `buff`, `goes_on` that no round ended it, and `ended`
-- has `bytes_write`.
pub data Loop : Type 0 where
  overrun goes_on : Loop
  ended : ℕ → WavFile → Loop

-- `while (1)`, where `bytes_write` stays in the range of `int`.
unfoldable pub capture_file : List Met → ℕ → WavFile → Loop
capture_file [] bytes_write f = goes_on
capture_file (m ∷ rounds) bytes_write f = elim m.bytes [
  | none ↦ ended bytes_write f
  | some bytes ↦
      (let more = capture_file rounds (bytes_write + length bytes) (fwrite bytes f) in
        if ltb buffer_size (length bytes)
        then overrun
        else if m.wrote == length bytes
        then if m.over then ended (bytes_write + length bytes) (fwrite bytes f) else more
        else ended bytes_write (fwrite (take m.wrote bytes) f))
]

-- What becomes of the program: `unsupported` leaves an empty file.
pub data Recording : Type 0 where
  unsupported behind endless : Recording
  recorded : List ℕ → Recording

-- From the loop on, for the bits of the format in memory.
abbrev pub end_recording : Settings → ℕ → Loop → Recording
end_recording s bits overrun = behind
end_recording s bits goes_on = endless
end_recording s bits (ended bytes_write f) =
    recorded (fwrite (header_bytes (header_of s bits bytes_write)) (fseek 0 f)).content

-- `sizeof(struct wav_header)`
abbrev pub header_size : ℕ
header_size = 44

module _ (pcm_format_to_bits : ℕ → ℕ) where
  abbrev pub with_format : Settings → List Met → Option ℕ → Recording
  with_format s rounds none = unsupported
  with_format s rounds (some format) =
      end_recording s (pcm_format_to_bits format)
        (capture_file rounds 0 (fseek header_size (record { content = []; at = 0 })))

  -- `main`, with the options behind the name of the file.
  unfoldable pub record_wav : List Text → List Met → Recording
  unfolding parse_options format_of capture_file
  record_wav args rounds =
      let s = parse_options args defaults in with_format s rounds (format_of s.bits)
