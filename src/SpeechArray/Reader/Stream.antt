-- ===== src/SpeechArray/Reader/Stream.antt =====
-- A caller of `SpeechArrayRead` of speech/src/speecharray.c that reads again and again.
pub mod Front
pub mod Delivers
mod Tests
use program_learning.Prelude.{
  take-front, ℕ, zero, suc, ◌+◌, ◌-◌, ◌*◌, ◌/◌, ◌%◌, ◌≤◌, ◌<◌, ◌≡◌, ◌≢◌, refl, ap, ap₂, sym, ◌∙◌,
  Option, some, none, List, [], ◌∷◌, ◌++◌, arith, ◌>>=◌, length, take, drop, map, append_assoc,
  take-append-drop, length-take, length-drop, length-append, subst,
}
use program_learning.Prelude.Int.{ℤ, pos}
use program_learning.SpeechArray.Format.{samples}
use program_learning.SpeechArray.Skip.{Sounds}
use program_learning.SpeechArray.Samples.{
  IsPlain, mix, samples-mix, mix-front, IsPlain-front, IsPlain-behind, IsPlain-split, mix-split,
  drop-front,
}
use program_learning.SpeechArray.Reader.{Handle, bounded, read_size, speech_array_read}
use program_learning.SpeechArray.Reader.Plain.{
  Fails, stream, speech_array_read-delivers, speech_array_read-still,
}
use program_learning.SpeechArray.Reader.Steady.{Steady, read_size-words, bounded-len, Steady-Ready}

module _ {σ : Type 0} (pcm_read : σ → ℕ → ℤ × List ℕ × σ) where
  -- Calls for these lengths, one after the other: all that the caller gets. A refused length ends it.
  pub reads : ℕ → Handle → List ℕ → σ → Option (List ℕ × Handle × σ)
  reads fuel h [] dev = some ([], h, dev)
  reads fuel h (len ∷ lens) dev =
      speech_array_read pcm_read fuel (some h) len dev >>= λ (given, dev'). elim given [
        | none ↦ none
        | some d ↦
            reads fuel d.handle lens dev' >>= λ (out, h', dev''). some (d.buff ++ out, h', dev'')
      ]

  -- The device has a content, of which a read takes as many words as it asks for, after some refusals.
  pub record Streams (content : σ → List ℕ) (refusals : ℕ) : Type 0 where
    pub answers :
        (dev : σ) (w : ℕ)
        → 0 < w
        → w ≤ length (content dev)
        → (k : ℕ) × (dev' : σ) × (dev'' : σ) × Fails pcm_read (4 * w) k dev dev'
          × (k ≤ refusals)
          × (pcm_read dev' (4 * w) ≡ (pos 0, take w (content dev), dev''))
          × (content dev'' ≡ drop w (content dev))

  -- The words that the next call starts with.
  abbrev pub ahead : (σ → List ℕ) → Handle → ℕ → σ → List ℕ
  ahead content h p dev = take p h.buffer ++ content dev
