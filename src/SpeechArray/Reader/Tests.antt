-- ===== src/SpeechArray/Reader/Tests.antt =====
-- `SpeechArrayRead` of speech/src/speecharray.c on a small device.
use program_learning.Prelude.{
  ℕ, zero, suc, ◌*◌, ◌≡◌, refl, some, none, List, [], ◌∷◌, ◌++◌, arith, length, take, drop,
  replicate,
}
use program_learning.Prelude.Int.{ℤ, pos, negsuc}
use program_learning.SpeechArray.{parse_data_int32}
use program_learning.SpeechArray.Format.{samples, has_channels, is_silent}
use program_learning.SpeechArray.Reader.{Handle, speech_array_read}
use program_learning.SpeechArray.Reader.Ready.{Ready}
use program_learning.SpeechArray.Reader.Plain.{
  at_once, again, speech_array_read-delivers, speech_array_read-never_returns,
}

-- Twenty words that start with a sample.
abbrev recording : List ℕ
recording =
    0x00010100 ∷ 0x00020200 ∷ 0x00030300 ∷ 0x00040400 ∷ 0x00050500 ∷ 0x00060600 ∷ 0x00070700
    ∷ 0x00080800 ∷ 0x00090900 ∷ 0x000a0a00 ∷ 0x000b0b00 ∷ 0x000c0c00 ∷ 0x00110100 ∷ 0x00120200
    ∷ 0x00130300 ∷ 0x00140400 ∷ 0x00150500 ∷ 0x00160600 ∷ 0x00170700 ∷ 0x00180800 ∷ []

-- A device that fails as often as its state says, and then has the recording.
abbrev device : ℕ → ℕ → ℤ × List ℕ × ℕ
device zero n = (pos 0, recording, 0)
device (suc k) n = (negsuc 4, [], k)

abbrev handle : Handle
handle = record {
  out_align = 12;
  buff_size = 160;
  buffer = replicate 40 0;
  data_size = 0;
  hw_align = 8;
  ratio = 4;
}

handle-Ready : Ready handle 0 20 40
handle-Ready = record {
  whole = refl;
  buffer_size = refl;
  left = refl;
  room = omega arith;
  ratio_4 = refl;
  aligned = omega arith;
}

read_runs :
    speech_array_read device 3 (some handle) 12 2
    ≡ some (
      some (record {
        ret = 12;
        buff = 0x00010002 ∷ 0x00070008 ∷ 0x0004000a ∷ [];
        handle = record handle { buffer = drop 12 recording ++ replicate 32 0; data_size = 32 };
      }),
      0,
    )
unfolding speech_array_read parse_data_int32
read_runs = refl

read_refuses : speech_array_read device 3 (some handle) 13 2 ≡ some (none, 2)
unfolding speech_array_read
read_refuses = refl

speech_array_read-delivers_example :
    let out = samples 0 12 (recording ++ replicate 20 0) in
    (b : List ℕ) × (speech_array_read device 3 (some handle) 12 2
      ≡ some (
        some (record {
          ret = 4 * length out;
          buff = out;
          handle = record handle { buffer = b; data_size = 32 };
        }),
        0,
      ))
    × (take 8 b ≡ take 8 (drop 12 (recording ++ replicate 20 0)))
    × (length b ≡ 40)
unfolding has_channels is_silent
speech_array_read-delivers_example =
    speech_array_read-delivers device handle 0 20 40 handle-Ready 12 refl (omega arith) recording
      refl (refl, refl) (omega arith) 3 12 (omega arith) refl refl (omega arith)
      (again refl (again refl at_once)) (omega arith) refl

abbrev broken_device : ℕ → ℕ → ℤ × List ℕ × ℕ
broken_device dev n = (negsuc 4, [], dev)

speech_array_read-never_returns_example :
    speech_array_read broken_device 100 (some handle) 12 0 ≡ none
speech_array_read-never_returns_example =
    speech_array_read-never_returns broken_device handle 0 20 40 handle-Ready 12 refl (omega arith)
      (omega arith) 100 12 0 (omega arith) refl refl (λ dev. (4, dev, refl))
