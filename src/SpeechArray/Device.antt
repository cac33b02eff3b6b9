-- ===== src/SpeechArray/Device.antt =====
-- How speech/src/speecharray.c opens and closes the microphone array. tinyalsa, `malloc` and pthread
-- are parameters: what they answer. A `Held` says what the process holds of what a handle needs.
pub mod Holding
mod Tests
use program_learning.Prelude.{
  ℕ, zero, ◌*◌, ◌/◌, Bool, true, false, Option, none, some, List, ltb, if◌then◌else◌,
}
use program_learning.Prelude.Int.{ℤ, pos, negsuc}
use program_learning.SpeechArray.Reader.{Handle, hw_buffer_count, hw_out_data_ratio}

-- `struct pcm_config` of tinyalsa
pub record PcmConfig : Type 0 where
  pub channels : ℕ
  pub rate : ℕ
  pub period_size : ℕ
  pub period_count : ℕ
  pub format : ℕ
  pub start_threshold : ℕ
  pub stop_threshold : ℕ
  pub silence_threshold : ℕ
  pub silence_size : ℕ

-- `PCM_FORMAT_S32_LE`
abbrev pub s32_le : ℕ
s32_le = 1

-- `hw_config`
abbrev pub hw_config : PcmConfig
hw_config = record {
  channels = 2;
  rate = 96000;
  period_size = 3072;
  period_count = 2;
  format = s32_le;
  start_threshold = 0;
  stop_threshold = 0;
  silence_threshold = 0;
  silence_size = 0;
}

-- What is used of `SpeechArray_t`
pub record ArrayConfig : Type 0 where
  pub card : ℕ
  pub device : ℕ
  pub channels : ℕ
  pub format : ℕ

-- What the libraries answer. A device is an address; `buffer_bytes` is the size of its buffer, and
-- `buffer_memory` what is in a new block of so many bytes.
pub record Libraries : Type 0 where
  pub pcm_format_to_bits : ℕ → ℕ
  pub pcm_open : ℕ → ℕ → PcmConfig → Option ℕ
  pub pcm_is_ready : ℕ → Bool
  pub buffer_bytes : ℕ → ℕ
  pub handle_memory : Bool
  pub mutex_init : ℤ
  pub cond_init : ℤ
  pub buffer_memory : ℕ → Option (List ℕ)

pub record Held : Type 0 where
  pub block : Bool
  pub lock : Bool
  pub cond : Bool
  pub locked : Bool
  pub pcm : Bool
  pub buffer : Bool

abbrev pub nothing : Held
nothing = record {
  block = false;
  lock = false;
  cond = false;
  locked = false;
  pcm = false;
  buffer = false;
}

-- A handle that is open, with its device.
pub record Opened : Type 0 where
  pub handle : Handle
  pub pcm_handle : ℕ

-- `Error:`, where the handle has no buffer yet.
abbrev pub on_error : Held → Option Opened × Held
on_error held = (none, record held { locked = false; lock = false; cond = false; block = false })

abbrev pub is_zero : ℤ → Bool
is_zero (pos zero) = true
is_zero _ = false

module _ (lib : Libraries) (config : ArrayConfig) where
  -- The handle, when its buffer is there.
  abbrev pub filled : ℕ → List ℕ → Handle
  filled p memory = record {
    out_align = lib.pcm_format_to_bits config.format * config.channels / 8;
    buff_size = hw_buffer_count * lib.buffer_bytes p;
    buffer = memory;
    data_size = 0;
    hw_align = hw_config.channels * lib.pcm_format_to_bits hw_config.format / 8;
    ratio = hw_out_data_ratio;
  }

  -- `speechArrayOpen` from the allocation of the buffer on.
  abbrev pub with_buffer : ℕ → Option (List ℕ) → Held → Option Opened × Held
  with_buffer p none held = on_error held
  with_buffer p (some memory) held = (
    some (record { handle = filled p memory; pcm_handle = p }),
    record held { buffer = true; locked = false },
  )

  -- From `pcm_is_ready` on.
  abbrev pub with_device : Option ℕ → Held → Option Opened × Held
  with_device none held = on_error held
  with_device (some p) held =
      if lib.pcm_is_ready p
      then with_buffer p (lib.buffer_memory (hw_buffer_count * lib.buffer_bytes p))
          (record held { pcm = true })
      else on_error (record held { pcm = true })

  -- From `pthread_cond_init` on.
  abbrev pub with_lock : Held → Option Opened × Held
  with_lock held =
      if is_zero lib.cond_init
      then with_device (lib.pcm_open config.card config.device hw_config)
          (record held { cond = true; locked = true })
      else (none, record held { lock = false; block = false })

  -- From `pthread_mutex_init` on.
  abbrev pub with_handle : Held → Option Opened × Held
  with_handle held =
      if is_zero lib.mutex_init
      then with_lock (record held { lock = true })
      else (none, record held { block = false })

-- `speechArrayOpen`
pub speech_array_open : Libraries → Option ArrayConfig → Held → Option Opened × Held
speech_array_open lib none held = (none, held)
speech_array_open lib (some config) held =
    if lib.handle_memory
    then with_handle lib config (record held { block = true })
    else (none, held)

-- `speechArrayClose`; an error of `pcm_close` is only printed.
pub speech_array_close : Option Opened → Held → ℤ × Held
speech_array_close none held = (negsuc 0, held)
speech_array_close (some opened) held = (
  pos 0,
  record held {
    pcm = false;
    locked = false;
    lock = false;
    cond = false;
    buffer = false;
    block = false;
  },
)

-- `speechArrayInit`, where `open` of the file for the dump gave a number: the result and `dumpfd`.
pub speech_array_init : ℤ → ℤ × ℤ
speech_array_init fd = (pos 0, fd)

-- `speechArrayUninit`: the result, and whether it closes the file.
pub speech_array_uninit : ℤ → ℤ × Bool
speech_array_uninit (pos n) = (pos 0, ltb 0 n)
speech_array_uninit (negsuc n) = (pos 0, false)

-- `SpeechArrayWrite`
pub speech_array_write : Opened → List ℕ → ℕ → ℤ
speech_array_write opened buff len = negsuc 0
