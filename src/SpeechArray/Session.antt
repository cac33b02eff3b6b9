-- ===== src/SpeechArray/Session.antt =====
-- A whole use of speech/src/speecharray.c: `speechArrayOpen`, calls of `SpeechArrayRead`, and
-- `speechArrayClose`.
mod Tests
use program_learning.Prelude.{
  ℕ, ◌+◌, ◌*◌, ◌/◌, ◌≤◌, ◌<◌, ◌≡◌, refl, true, some, List, arith, length, drop, map,
}
use program_learning.Prelude.Int.{ℤ, pos}
use program_learning.SpeechArray.Samples.{IsPlain, mix}
use program_learning.SpeechArray.Reader.{Handle}
use program_learning.SpeechArray.Reader.Steady.{Steady}
use program_learning.SpeechArray.Reader.Stream.{reads, Streams, ahead}
use program_learning.SpeechArray.Reader.Stream.Delivers.{sum, Fit, reads-mix}
use program_learning.SpeechArray.Device.{
  Libraries, ArrayConfig, Opened, nothing, filled, hw_config, s32_le, is_zero, speech_array_open,
  speech_array_close,
}
use program_learning.SpeechArray.Device.Holding.{
  all_held, speech_array_open-Ready, speech_array_close-held,
}

-- All that `speechArrayOpen` asks for is given: a sample of the device has 32 bits and one of the
-- caller's six channels together 12 bytes, and the device's buffer has `q` words.
pub record Given (lib : Libraries) (c : ArrayConfig) (p q : ℕ) (memory : List ℕ) : Type 0 where
  pub room : lib.handle_memory ≡ true
  pub mutex : is_zero lib.mutex_init ≡ true
  pub cond : is_zero lib.cond_init ≡ true
  pub opens : lib.pcm_open c.card c.device hw_config ≡ some p
  pub ready : lib.pcm_is_ready p ≡ true
  pub more : lib.buffer_memory (2 * lib.buffer_bytes p) ≡ some memory
  pub bits : lib.pcm_format_to_bits s32_le ≡ 32
  pub twelve : lib.pcm_format_to_bits c.format * c.channels / 8 ≡ 12
  pub size : lib.buffer_bytes p ≡ 4 * q
  pub words : length memory ≡ 2 * q

module _ (lib : Libraries) (c : ArrayConfig) (p q : ℕ) (memory : List ℕ)
    (g : Given lib c p q memory) (large : 13 ≤ q) where
  abbrev pub opened : Opened
  opened = record { handle = filled lib c p memory; pcm_handle = p }

  filled-Steady : Steady (filled lib c p memory) 0 q 2
  filled-Steady = record {
    out = g.twelve;
    size = omega (arith, g.size);
    buffer_size = g.words;
    left = refl;
    align = omega (arith, g.bits);
    ratio_4 = refl;
    room = omega arith;
    some_align = omega arith;
    small = omega arith;
  }

  -- If `speechArrayOpen` is given all that it asks for, and the device refuses at most so many
  -- reads in a row and then gives its content, which is samples with sound and long enough: the
  -- array opens; calls of `SpeechArrayRead` for lengths of whole samples, one after the other,
  -- return, if each has at least as many bytes as the device's buffer has words, so that no
  -- `memcpy` overlaps, and leaves room in the handle's buffer for a frame and a sample, each with
  -- fuel for the refusals and one more, and give together what the samples mix to, each once and in
  -- order; and `speechArrayClose` of what is left gives back all that was held. Before that the
  -- handle is ready for a next call, and what is left in it, and then in the device, is the rest of
  -- the content.
  pub speech_array_session :
      {σ : Type 0} (pcm_read : σ → ℕ → ℤ × List ℕ × σ) (content : σ → List ℕ) (refusals : ℕ)
      → Streams pcm_read content refusals
      → (fuel : ℕ) (ms : List ℕ) (dev : σ) → Fit q 2 ms
      → refusals < fuel
      → IsPlain (sum ms) (content dev)
      → sum ms * 12 + 2 * q ≤ length (content dev)
      → (speech_array_open lib (some c) nothing ≡ (some opened, all_held))
        × ((h : Handle) × (left : ℕ) × (dev' : σ) × (reads pcm_read fuel opened.handle
                (map (λ m. m * 12) ms)
                dev
              ≡ some (mix (sum ms) (content dev), h, dev'))
            × (speech_array_close (some (record opened { handle = h })) all_held ≡ (pos 0, nothing))
            × Steady h left q 2
            × (ahead pcm_read content h left dev' ≡ drop (sum ms * 12) (content dev)))
  speech_array_session pcm_read content refusals streams fuel ms dev fit patient good plenty =
      let opening =
        speech_array_open-Ready lib c p q 0 memory g.room g.mutex g.cond g.opens g.ready g.more
          g.bits g.size g.words (omega arith) in
      let (h, left, dev', runs, steady, rest) =
        reads-mix pcm_read content refusals streams q 2 fuel ms (filled lib c p memory) 0 dev
          filled-Steady fit patient good plenty in
      (
        opening.0,
        (h, left, dev', runs, speech_array_close-held (record opened { handle = h }), steady, rest),
      )
