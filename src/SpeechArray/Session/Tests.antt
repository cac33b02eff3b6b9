-- ===== src/SpeechArray/Session/Tests.antt =====
-- A session with the microphone array of speech/src/speecharray.c on a small device.
use program_learning.Prelude.{
  ℕ, ◌/◌, ◌≡◌, refl, ap, true, ◌==◌, if◌then◌else◌, some, List, [], ◌∷◌, ◌++◌, arith, take, drop,
  replicate,
}
use program_learning.Prelude.Int.{ℤ, pos}
use program_learning.SpeechArray.Format.{has_channels, is_silent}
use program_learning.SpeechArray.Samples.{mix}
use program_learning.SpeechArray.Reader.{Handle}
use program_learning.SpeechArray.Reader.Plain.{at_once}
use program_learning.SpeechArray.Reader.Steady.{Steady}
use program_learning.SpeechArray.Reader.Stream.{reads, Streams, ahead}
use program_learning.SpeechArray.Device.{
  ArrayConfig, Libraries, nothing, Opened, speech_array_open, speech_array_close,
}
use program_learning.SpeechArray.Device.Holding.{all_held}
use program_learning.SpeechArray.Session.{Given, opened, speech_array_session}

-- A device whose state is its content.
abbrev device : List ℕ → ℕ → ℤ × List ℕ × List ℕ
device ws n = (pos 0, take (n / 4) ws, drop (n / 4) ws)

abbrev content : List ℕ → List ℕ
content ws = ws

device-Streams : Streams device content 0
device-Streams = record {
  answers = λ dev w some_asked there. (
    0,
    dev,
    drop w dev,
    at_once,
    omega arith,
    ap (λ k. (pos 0, take k dev, drop k dev)) {y = w} (omega arith),
    refl,
  );
}

abbrev sounds : List ℕ
sounds =
    0x00010100 ∷ 0x00020200 ∷ 0x00030300 ∷ 0x00040400 ∷ 0x00050500 ∷ 0x00060600 ∷ 0x00070700
    ∷ 0x00080800 ∷ 0x00090900 ∷ 0x000a0a00 ∷ 0x000b0b00 ∷ 0x000c0c00 ∷ []

abbrev recording : List ℕ
recording = sounds ++ sounds ++ sounds ++ sounds ++ replicate 50 0

abbrev lib : Libraries
lib = record {
  pcm_format_to_bits = λ f. if f == 1 then 32 else 16;
  pcm_open = λ card device config. some 7;
  pcm_is_ready = λ p. true;
  buffer_bytes = λ p. 96;
  handle_memory = true;
  mutex_init = pos 0;
  cond_init = pos 0;
  buffer_memory = λ n. some (replicate 48 0);
}

abbrev config : ArrayConfig
config = record { card = 0; device = 1; channels = 6; format = 0 }

lib-Given : Given lib config 7 24 (replicate 48 0)
lib-Given = record {
  room = refl;
  mutex = refl;
  cond = refl;
  opens = refl;
  ready = refl;
  more = refl;
  bits = refl;
  twelve = refl;
  size = refl;
  words = refl;
}

abbrev array : Opened
array = opened lib config 7 24 (replicate 48 0) lib-Given (omega arith)

speech_array_session_example :
    (speech_array_open lib (some config) nothing ≡ (some array, all_held))
    × ((h : Handle) × (left : ℕ) × (dev' : List ℕ) × (reads device 1 array.handle
            (24 ∷ 24 ∷ [])
            recording
          ≡ some (mix 4 recording, h, dev'))
        × (speech_array_close (some (record array { handle = h })) all_held ≡ (pos 0, nothing))
        × Steady h left 24 2
        × (ahead device content h left dev' ≡ drop 48 recording))
unfolding has_channels is_silent
speech_array_session_example =
    speech_array_session lib config 7 24 (replicate 48 0) lib-Given (omega arith) device content 0
      device-Streams 1 (2 ∷ 2 ∷ []) recording
      (omega arith, omega arith, (omega arith, omega arith, tt)) (omega arith)
      ((refl, refl), ((refl, refl), ((refl, refl), ((refl, refl), tt)))) (omega arith)
