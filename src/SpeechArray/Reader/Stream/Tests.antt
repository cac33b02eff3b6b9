-- ===== src/SpeechArray/Reader/Stream/Tests.antt =====
-- Two calls of `SpeechArrayRead` of speech/src/speecharray.c on a small device.
use program_learning.Prelude.{
  none, ℕ, ◌/◌, ◌≡◌, refl, ap, some, List, [], ◌∷◌, ◌++◌, arith, take, drop, replicate,
}
use program_learning.Prelude.Int.{ℤ, pos}
use program_learning.SpeechArray.Format.{has_channels, is_silent}
use program_learning.SpeechArray.Samples.{mix}
use program_learning.SpeechArray.{parse_data_int32, skip_data}
use program_learning.SpeechArray.Reader.{Handle, speech_array_read}
use program_learning.SpeechArray.Reader.Plain.{at_once}
use program_learning.SpeechArray.Reader.Steady.{Steady}
use program_learning.SpeechArray.Reader.Stream.{reads, Streams, ahead}
use program_learning.SpeechArray.Reader.Stream.Delivers.{reads-mix}

-- A device whose state is its content.
abbrev device : List ℕ → ℕ → ℤ × List ℕ × List ℕ
device ws n = (pos 0, take (n / 4) ws, drop (n / 4) ws)

abbrev content : List ℕ → List ℕ
content ws = ws

device-Streams : Streams device content 0
device-Streams = record {
  answers = λ dev w some_asked there. (
    0,
    dev,
    drop w dev,
    at_once,
    omega arith,
    ap (λ k. (pos 0, take k dev, drop k dev)) {y = w} (omega arith),
    refl,
  );
}

abbrev sounds : List ℕ
sounds =
    0x00010100 ∷ 0x00020200 ∷ 0x00030300 ∷ 0x00040400 ∷ 0x00050500 ∷ 0x00060600 ∷ 0x00070700
    ∷ 0x00080800 ∷ 0x00090900 ∷ 0x000a0a00 ∷ 0x000b0b00 ∷ 0x000c0c00 ∷ []

abbrev recording : List ℕ
recording = sounds ++ sounds ++ sounds ++ sounds ++ sounds ++ sounds ++ replicate 70 0

abbrev fresh : Handle
fresh = record {
  out_align = 12;
  buff_size = 256;
  buffer = replicate 64 0;
  data_size = 0;
  hw_align = 64;
  ratio = 4;
}

-- A call for twelve bytes reads half of the buffer, and leaves more words than it parses: the `memcpy`
-- of them overlaps.
overlaps : speech_array_read device 1 (some fresh) 12 recording ≡ none
unfolding speech_array_read parse_data_int32 skip_data
overlaps = refl

fresh-Steady : Steady fresh 0 32 16
fresh-Steady = record {
  out = refl;
  size = refl;
  buffer_size = refl;
  left = refl;
  align = refl;
  ratio_4 = refl;
  room = omega arith;
  some_align = omega arith;
  small = omega arith;
}

reads-mix_example :
    (h' : Handle) × (p' : ℕ) × (dev' : List ℕ) × (reads device 1 fresh (36 ∷ 36 ∷ []) recording
      ≡ some (mix 6 recording, h', dev'))
    × Steady h' p' 32 16
    × (ahead device content h' p' dev' ≡ drop 72 recording)
unfolding has_channels is_silent
reads-mix_example =
    reads-mix device content 0 device-Streams 32 16 1 (3 ∷ 3 ∷ []) fresh 0 recording fresh-Steady
      (omega arith, omega arith, (omega arith, omega arith, tt)) (omega arith)
      (
        (refl, refl),
        ((refl, refl), ((refl, refl), ((refl, refl), ((refl, refl), ((refl, refl), tt))))),
      )
      (omega arith)
