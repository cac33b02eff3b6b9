-- ===== src/SpeechArray/Device/Tests.antt =====
-- Opening the microphone array in speech/src/speecharray.c on a small machine.
use program_learning.Prelude.{◌*◌, ◌≡◌, refl, true, none, some, replicate, arith}
use program_learning.Prelude.Int.{pos}
use program_learning.SpeechArray.Reader.Ready.{Ready}
use program_learning.SpeechArray.Device.{ArrayConfig, Libraries, nothing, filled, speech_array_open}
use program_learning.SpeechArray.Device.Holding.{all_held, device_held, speech_array_open-Ready}

abbrev good : Libraries
good = record {
  pcm_format_to_bits = λ f. 32;
  pcm_open = λ card device config. some 7;
  pcm_is_ready = λ p. true;
  buffer_bytes = λ p. 80;
  handle_memory = true;
  mutex_init = pos 0;
  cond_init = pos 0;
  buffer_memory = λ n. some (replicate 40 0);
}

-- A machine without memory for the buffer.
abbrev full : Libraries
full = record good { buffer_memory = λ n. none }

abbrev config : ArrayConfig
config = record { card = 0; device = 1; channels = 6; format = 0 }

-- The device stays open.
leak_runs : speech_array_open full (some config) nothing ≡ (none, device_held)
unfolding speech_array_open
leak_runs = refl

opened-Ready :
    (speech_array_open good (some config) nothing ≡ (
      some (record { handle = filled good config 7 (replicate 40 0); pcm_handle = 7 }),
      all_held,
    ))
    × Ready (filled good config 7 (replicate 40 0)) 0 20 (2 * 20)
opened-Ready =
    speech_array_open-Ready good config 7 20 20 (replicate 40 0) refl refl refl refl refl refl refl
      refl refl (omega arith)
