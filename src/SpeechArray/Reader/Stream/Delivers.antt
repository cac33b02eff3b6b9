-- ===== src/SpeechArray/Reader/Stream/Delivers.antt =====
-- What a caller of `SpeechArrayRead` of speech/src/speecharray.c gets from a stream of samples, whatever
-- the lengths it asks for.
use program_learning.Prelude.{
  ℕ, zero, suc, ◌+◌, ◌-◌, ◌*◌, ◌/◌, ◌%◌, ◌≤◌, ◌<◌, ◌≡◌, refl, ap, sym, ◌∙◌, some, List, [], ◌∷◌,
  ◌++◌, arith, length, take, drop, map, length-take, length-drop, length-append, subst, drop-add,
}
use program_learning.Prelude.Int.{ℤ}
use program_learning.SpeechArray.Format.{samples}
use program_learning.SpeechArray.Skip.{Sounds}
use program_learning.SpeechArray.Samples.{IsPlain, mix, IsPlain-split, mix-split}
use program_learning.SpeechArray.Reader.{Handle, Delivery, read_size, speech_array_read}
use program_learning.SpeechArray.Reader.Plain.{
  enough, speech_array_read-delivers, speech_array_read-still,
}
use program_learning.SpeechArray.Reader.Steady.{Steady, read_size-words, bounded-len, Steady-Ready}
use program_learning.SpeechArray.Reader.Stream.{reads, Streams, ahead}
use program_learning.SpeechArray.Reader.Stream.Front.{plain, mixes, remains, arrived}

abbrev pub sum : List ℕ → ℕ
sum [] = 0
sum (m ∷ ms) = m + sum ms

-- Each length is of whole samples: it needs half of the buffer or more, and leaves room in it for a
-- frame of the device and a sample.
abbrev pub Fit : ℕ → ℕ → List ℕ → Type 0
Fit half a [] = Unit {0}
Fit half a (m ∷ ms) = (half ≤ m * 12) × (m * 12 + a + 11 ≤ 2 * half) × Fit half a ms

-- The buffer when these words have arrived.
abbrev seen : Handle → ℕ → List ℕ → List ℕ
seen h p ws = take p h.buffer ++ ws ++ drop (p + length ws) h.buffer

first-Sounds : (m : ℕ) (ws : List ℕ) → 0 < m → IsPlain m ws → Sounds ws 0
first-Sounds zero ws h p = absurd (omega arith)
first-Sounds (suc m) ws h p = p.0

module _ {σ : Type 0} (pcm_read : σ → ℕ → ℤ × List ℕ × σ) (content : σ → List ℕ) (refusals : ℕ)
    (streams : Streams pcm_read content refusals) (half a : ℕ) where
  -- After a call for `m` samples.
  record Called (h : Handle) (p : ℕ) (dev : σ) (m fuel : ℕ) : Type 0 where
    handle : Handle
    left : ℕ
    next : σ
    steady : Steady handle left half a
    ret : ℕ
    gives :
        speech_array_read pcm_read fuel (some h) (m * 12) dev
        ≡ some (
          some (record {
            ret = ret;
            buff = mix m (ahead pcm_read content h p dev);
            handle = handle;
          }),
          next,
        )
    remains :
        ahead pcm_read content handle left next ≡ drop (m * 12) (ahead pcm_read content h p dev)

  module _ (h : Handle) (p : ℕ) (s : Steady h p half a) (dev : σ) (m : ℕ) (some_samples : 0 < m)
      (large : half ≤ m * 12) (fit : m * 12 + a + 11 ≤ 2 * half)
      (plenty : 2 * half ≤ length (ahead pcm_read content h p dev))
      (good : IsPlain m (ahead pcm_read content h p dev)) where
    has_words : (w : ℕ) → p + w + 11 ≤ 2 * half → w ≤ length (content dev)
    has_words w room = omega (
      arith,
      plenty,
      length-append {0} (take p h.buffer) (content dev),
      length-take p h.buffer,
      s.buffer_size,
    )

    needs : (w : ℕ) → read_size h (m * 12) ≡ 4 * w → p + w + 11 ≤ 2 * half → m * 12 ≤ p + w
    needs w asks room =
        enough pcm_read h p w (2 * half) (Steady-Ready h p half a s (m * 12) large fit w room)
          (m * 12) asks (omega arith)

    whole_len : m * 12 % h.out_align ≡ 0
    whole_len = ap (λ o. m * 12 % o) s.out ∙ (omega arith)

    -- The rest of the stream, when the call has ended.
    ended :
        (fuel w : ℕ) (next : σ) (b : List ℕ)
        → p + w + 11 ≤ 2 * half
        → m * 12 ≤ p + w
        → p + w - m * 12 + 11 ≤ half
        → content next ≡ drop w (content dev)
        → let out = samples 0 (m * 12 / 12 * 12) (seen h p (take w (content dev))) in
          (speech_array_read pcm_read fuel (some h) (m * 12) dev
            ≡ some (
              some (record {
                ret = 4 * length out;
                buff = out;
                handle = record h { buffer = b; data_size = 4 * (p + w - m * 12) };
              }),
              next,
            ))
          → take (p + w - m * 12) b
            ≡ take (p + w - m * 12) (drop (m * 12) (seen h p (take w (content dev))))
          → length b ≡ 2 * half
          → Called h p dev m fuel
    ended fuel w next b room have few rest done kept size = record {
      handle = record h { buffer = b; data_size = 4 * (p + w - m * 12) };
      left = p + w - m * 12;
      next = next;
      steady = record {
        out = s.out;
        size = s.size;
        buffer_size = size;
        left = refl;
        align = s.align;
        ratio_4 = s.ratio_4;
        room = few;
        some_align = s.some_align;
        small = s.small;
      };
      ret = 4 * length out;
      gives =
          done
          ∙ ap
              (λ o. some (
                some (record {
                  ret = 4 * length out;
                  buff = o;
                  handle = record h { buffer = b; data_size = 4 * (p + w - m * 12) };
                }),
                next,
              ))
              (mixes h p half a s (content dev) w m room there have good);
      remains =
          ap (λ l. take (p + w - m * 12) b ++ l) rest
          ∙ remains h p half a s (content dev) w m room there have b kept;
    }
      where
        there : w ≤ length (content dev)
        there = has_words w room

        out : List ℕ
        out = samples 0 (m * 12 / 12 * 12) (seen h p (take w (content dev)))

    -- With no word to ask for, and with some.
    call :
        (f w : ℕ)
        → read_size h (m * 12) ≡ 4 * w
        → p + w + 11 ≤ 2 * half
        → p + w ≤ m * 12 + m * 12
        → p + w - m * 12 + 11 ≤ half
        → refusals < suc f
        → Called h p dev m (suc f)
    call f zero asks room apart few patient =
        let (b, done, kept, size) =
          speech_array_read-still pcm_read h p 0 (2 * half)
            (Steady-Ready h p half a s (m * 12) large fit 0 room) (m * 12) asks (omega arith) []
            refl
            (first-Sounds m _ some_samples (
              plain h p half a s (content dev) 0 m room (has_words 0 room) (needs 0 asks room)
                good))
            f (m * 12) dev refl refl (omega arith) (whole_len)
            (bounded-len h p half a s (m * 12) large fit) apart in
        ended (suc f) 0 dev b room (needs 0 asks room) few refl done kept size
    call f (suc w) asks room apart few patient =
        let (k, dev', next, fails, tried, e, rest) =
          streams.answers dev (suc w) (omega arith) (has_words (suc w) room) in
        let (b, done, kept, size) =
          speech_array_read-delivers pcm_read h p (suc w) (2 * half)
            (Steady-Ready h p half a s (m * 12) large fit (suc w) room) (m * 12) asks (omega arith)
            (take (suc w) (content dev))
            (arrived h p half a s (content dev) (suc w) m room (has_words (suc w) room)
              (needs (suc w) asks room))
            (first-Sounds m _ some_samples (
              plain h p half a s (content dev) (suc w) m room (has_words (suc w) room)
                (needs (suc w) asks room) good))
            (omega arith) (suc f) (m * 12) (omega arith) (whole_len)
            (bounded-len h p half a s (m * 12) large fit) apart fails (omega arith) e in
        ended (suc f) (suc w) next b room (needs (suc w) asks room) few rest done kept size

  reads-step :
      (fuel : ℕ) (h h' : Handle) (len : ℕ) (lens : List ℕ) (dev dev' dev'' : σ) (d : Delivery)
      (out : List ℕ)
      → speech_array_read pcm_read fuel (some h) len dev ≡ some (some d, dev')
      → reads pcm_read fuel d.handle lens dev' ≡ some (out, h', dev'')
      → reads pcm_read fuel h (len ∷ lens) dev ≡ some (d.buff ++ out, h', dev'')
  unfolding reads
  reads-step fuel h h' len lens dev dev' dev'' d out e rest = rw (e, rest) refl

  -- A device that refuses at most so many reads in a row and then gives its content in order, a
  -- handle between two calls, and lengths of whole samples that need at least half of the buffer,
  -- so that no `memcpy` overlaps, and leave room in it for a frame of the device and a sample. What
  -- is left in the handle, and then the content, is a stream whose samples have sound, and there is
  -- enough of it. With fuel for the refusals and one more, calls of `SpeechArrayRead` for these
  -- lengths, one after the other, return: together they give what the samples mix to, each sample
  -- once and in order, however the reads cut the stream. The handle is ready for the next call, and
  -- what is left in it, and then the content, is the rest of the stream.
  pub reads-mix :
      (fuel : ℕ) (ms : List ℕ) (h : Handle) (p : ℕ) (dev : σ)
      → Steady h p half a
      → Fit half a ms
      → refusals < fuel
      → IsPlain (sum ms) (ahead pcm_read content h p dev)
      → sum ms * 12 + 2 * half ≤ length (ahead pcm_read content h p dev)
      → (h' : Handle) × (p' : ℕ) × (dev' : σ) × (reads pcm_read fuel h (map (λ m. m * 12) ms) dev
          ≡ some (mix (sum ms) (ahead pcm_read content h p dev), h', dev'))
        × Steady h' p' half a
        × (ahead pcm_read content h' p' dev' ≡ drop (sum ms * 12) (ahead pcm_read content h p dev))
  unfolding reads
  reads-mix fuel [] h p dev s fit patient good plenty = (h, p, dev, refl, s, refl)
  reads-mix zero (m ∷ ms) h p dev s fit patient good plenty = absurd (omega arith)
  reads-mix (suc f) (m ∷ ms) h p dev s (large, small, fit) patient good plenty =
      let (w, asks, room, apart, few) = read_size-words h p half a s (m * 12) large small in
      let parts =
        IsPlain-split m (sum ms) (m + sum ms) (ahead pcm_read content h p dev) refl good in
      let c =
        call h p s dev m (omega (arith, large, s.small)) large small (omega arith) parts.0 f w asks
          room apart few patient in
      let (h', p', dev', runs, steady, remains') =
        reads-mix (suc f) ms c.handle c.left c.next c.steady fit patient
          (subst (IsPlain (sum ms)) (sym c.remains) parts.1)
          (omega
            (arith, ap length c.remains, length-drop (m * 12) (ahead pcm_read content h p dev))) in
      (
        h',
        p',
        dev',
        reads-step (suc f) h h' (m * 12) (map (λ m. m * 12) ms) dev c.next dev' _ _ c.gives runs
            ∙ ap (λ o. some (o, h', dev'))
                (ap (λ l. mix m (ahead pcm_read content h p dev) ++ mix (sum ms) l) c.remains
                  ∙ sym (mix-split m (sum ms) (m + sum ms) (ahead pcm_read content h p dev) refl)),
        steady,
        remains'
            ∙ ap (drop (sum ms * 12)) c.remains
            ∙ sym (drop-add (m * 12) (sum ms * 12) (ahead pcm_read content h p dev))
            ∙ ap (λ k. drop k (ahead pcm_read content h p dev)) (omega arith),
      )
