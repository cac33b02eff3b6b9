-- ===== src/SpeechArray/Device/Holding.antt =====
-- What `speechArrayOpen` of speech/src/speecharray.c holds on each of its ways, and its handle.
use program_learning.Prelude.{
  ℕ, ◌+◌, ◌*◌, ◌≤◌, ◌≡◌, refl, ◌⊎◌, true, false, Option, none, some, List, arith, length,
}
use program_learning.Prelude.Int.{pos}
use program_learning.SpeechArray.Reader.Ready.{Ready}
use program_learning.SpeechArray.Device.{
  ArrayConfig, Libraries, Held, nothing, Opened, is_zero, filled, speech_array_open,
  speech_array_close, hw_config, s32_le,
}

-- A handle's block, its lock and condition, its device and its buffer, with the lock free.
abbrev pub all_held : Held
all_held = record {
  block = true;
  lock = true;
  cond = true;
  locked = false;
  pcm = true;
  buffer = true;
}

-- Only the device.
abbrev pub device_held : Held
device_held = record nothing { pcm = true }

-- How a call of `speechArrayOpen` may end, from nothing held.
abbrev pub Accounts : Libraries → Option ArrayConfig → Option Opened × Held → Type 0
Accounts lib config (some o, held) =
    (held ≡ all_held) × (speech_array_close (some o) held ≡ (pos 0, nothing))
Accounts lib none (none, held) = held ≡ nothing
Accounts lib (some c) (none, held) =
    (held ≡ nothing)
    ⊎ ((p : ℕ) × (held ≡ device_held)
        × (lib.pcm_open c.card c.device hw_config ≡ some p)
        × ((lib.pcm_is_ready p ≡ false) ⊎ (lib.buffer_memory (2 * lib.buffer_bytes p) ≡ none)))

module _ (lib : Libraries) (c : ArrayConfig) where
  abbrev Fine : Option Opened × Held → Type 0
  Fine r = Accounts lib (some c) r

pub speech_array_close-held : (o : Opened) → speech_array_close (some o) all_held ≡ (pos 0, nothing)
unfolding speech_array_close
speech_array_close-held o = refl

-- If everything that `speechArrayOpen` asks for is given, a sample of the device's format has 32 bits,
-- the device's buffer has `q` words, and the new block has two times that, the call gives a handle that
-- is ready for `SpeechArrayRead`: nothing is left from a last call, and there is room for any `w`
-- words that leave a sample's place behind them.
pub speech_array_open-Ready :
    (lib : Libraries) (c : ArrayConfig) (p q w : ℕ) (memory : List ℕ)
    → lib.handle_memory ≡ true
    → is_zero lib.mutex_init ≡ true
    → is_zero lib.cond_init ≡ true
    → lib.pcm_open c.card c.device hw_config ≡ some p
    → lib.pcm_is_ready p ≡ true
    → lib.buffer_memory (2 * lib.buffer_bytes p) ≡ some memory
    → lib.pcm_format_to_bits s32_le ≡ 32
    → lib.buffer_bytes p ≡ 4 * q
    → length memory ≡ 2 * q
    → w + 11 ≤ 2 * q
    → (speech_array_open lib (some c) nothing
        ≡ (some (record { handle = filled lib c p memory; pcm_handle = p }), all_held))
      × Ready (filled lib c p memory) 0 w (2 * q)
unfolding speech_array_open
speech_array_open-Ready lib c p q w memory room mutex cond opens ready more bits size words fits = (
  rw (room, mutex, cond, opens) (rw ready (rw more refl)),
  record {
    whole = omega (arith, size);
    buffer_size = words;
    left = omega arith;
    room = omega (arith, fits);
    ratio_4 = refl;
    aligned = omega (arith, bits);
  },
)
