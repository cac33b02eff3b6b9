-- ===== src/SpeechArray/Reader/First/Tests.antt =====
-- `SpeechArrayRead1` of speech/src/speecharray.c on a small device.
use program_learning.Prelude.{
  ℕ, zero, suc, ◌*◌, ◌-◌, ◌≡◌, refl, some, none, Option, List, [], ◌∷◌, ◌++◌, arith, length, take,
  drop, replicate,
}
use program_learning.Prelude.Int.{ℤ, pos, negsuc}
use program_learning.SpeechArray.{skip_data, parse_data_int32}
use program_learning.SpeechArray.Format.{samples, has_channels, is_silent}
use program_learning.SpeechArray.Reader.{Handle, Delivery}
use program_learning.SpeechArray.Reader.Ready.{Ready}
use program_learning.SpeechArray.Reader.Plain.{at_once, again}
use program_learning.SpeechArray.Reader.First.{speech_array_read1}
use program_learning.SpeechArray.Reader.First.Whole.{speech_array_read1-delivers}

abbrev sounds : List ℕ
sounds =
    0x00010100 ∷ 0x00020200 ∷ 0x00030300 ∷ 0x00040400 ∷ 0x00050500 ∷ 0x00060600 ∷ 0x00070700
    ∷ 0x00080800 ∷ 0x00090900 ∷ 0x000a0a00 ∷ 0x000b0b00 ∷ 0x000c0c00 ∷ []

abbrev silence : List ℕ
silence =
    0x00000100 ∷ 0x00000200 ∷ 0x00000300 ∷ 0x00000400 ∷ 0x00000500 ∷ 0x00000600 ∷ 0x00000700
    ∷ 0x00000800 ∷ 0x00000900 ∷ 0x00000a00 ∷ 0x00000b00 ∷ 0x00000c00 ∷ []

abbrev handle : Handle
handle = record {
  out_align = 12;
  buff_size = 240;
  buffer = replicate 60 0;
  data_size = 0;
  hw_align = 48;
  ratio = 4;
}

handle-Ready : Ready handle 0 12 60
handle-Ready = record {
  whole = refl;
  buffer_size = refl;
  left = refl;
  room = omega arith;
  ratio_4 = refl;
  aligned = omega arith;
}

-- A device that fails as often as its state says, and then has one sample with sound.
abbrev device : ℕ → ℕ → ℤ × List ℕ × ℕ
device zero n = (pos 0, sounds, 0)
device (suc k) n = (negsuc 4, [], k)

one_sample :
    let out = samples 0 12 (sounds ++ replicate 48 0) in
    (b : List ℕ) × (speech_array_read1 device 3 (some handle) 12 2
      ≡ some (
        some (record {
          ret = 4 * length out;
          buff = out;
          handle = record handle { buffer = b; data_size = 4 * (12 - 4 * length out) };
        }),
        0,
      ))
    × (take (12 - 4 * length out) b
        ≡ take (12 - 4 * length out) (drop (4 * length out) (sounds ++ replicate 48 0)))
    × (length b ≡ 60)
unfolding has_channels is_silent samples
one_sample =
    speech_array_read1-delivers device handle 0 12 60 handle-Ready sounds refl (refl, refl)
      (omega arith) 3 12 (omega arith) refl refl (again refl (again refl at_once)) (omega arith)
      refl (omega arith)

-- A device with a silent sample, and then two with sound.
abbrev late : ℕ → ℕ → ℤ × List ℕ × ℕ
late zero n = (pos 0, silence, 1)
late (suc k) n = (pos 0, sounds ++ sounds, 2)

abbrev ret_of : Option (Option Delivery × ℕ) → ℕ
ret_of none = 0
ret_of (some (none, dev)) = 0
ret_of (some (some d, dev)) = d.ret

-- Behind a silent sample twelve bytes are asked for, and the caller's buffer gets twenty-four.
more_than_asked : ret_of (speech_array_read1 late 2 (some handle) 12 0) ≡ 24
unfolding speech_array_read1 skip_data parse_data_int32
more_than_asked = refl
