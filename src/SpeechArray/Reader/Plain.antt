-- ===== src/SpeechArray/Reader/Plain.antt =====
-- What `SpeechArrayRead` of speech/src/speecharray.c delivers from a stream that starts with sound.
use program_learning.Prelude.{
  ℕ, zero, suc, ◌+◌, ◌-◌, ◌*◌, ◌/◌, ◌%◌, ◌≤◌, ◌<◌, ◌≡◌, ◌≢◌, refl, ap, ap₂, ◌∙◌, false, none, some,
  List, [], ◌++◌, arith, ◌==◌, ◌>>=◌, length, take, drop, length-append, length-take, length-drop,
  append-nil, take-append-drop,
}
use program_learning.Prelude.Int.{ℤ, pos, negsuc}
use program_learning.SpeechArray.{skip_data}
use program_learning.SpeechArray.Format.{samples}
use program_learning.SpeechArray.Skip.{Sounds, skip_data-Junk}
use program_learning.SpeechArray.Reader.{
  Handle, Reading, copy_in, finish, read_size, bounded, read_round, after_read, ask, read_loop,
  speech_array_read,
}
use program_learning.SpeechArray.Reader.Keep.{copy_in-lem, finish-lem}
use program_learning.SpeechArray.Reader.Ready.{Ready, Junk-Sounds, chained, accepted, round_up-le}

module _ {σ : Type 0} (pcm_read : σ → ℕ → ℤ × List ℕ × σ) where
  -- The device refuses `k` reads of `n` bytes, and stores nothing.
  pub data Fails (n : ℕ) : ℕ → σ → σ → Type 0 where
    at_once : {dev : σ} → Fails n 0 dev dev
    again :
        {k c : ℕ} {dev dev' dev'' : σ}
        → pcm_read dev n ≡ (negsuc c, [], dev')
        → Fails n k dev' dev''
        → Fails n (suc k) dev dev''

  module _ (h : Handle) (p w q : ℕ) (ready : Ready h p w q) (n : ℕ) (asks : read_size h n ≡ 4 * w)
      (long : 12 ≤ n) where
    abbrev start : Reading
    start = record {
      buffer = h.buffer;
      at = h.data_size;
      avail_size = h.data_size;
      read_bytes = read_size h n;
      check_skip = false;
    }

    asked : 0 < w → (dev : σ) → ask pcm_read start dev ≡ pcm_read dev (4 * w)
    asked some_asked dev = rw asks (rw not_zero)
      where
        not_zero : (4 * w == 0) ≡ false
        not_zero = ground arith

    kept : copy_in h.buffer h.data_size [] ≡ some h.buffer
    kept =
        ap (λ a. copy_in h.buffer a []) ready.left
        ∙ copy_in-lem h.buffer [] p (omega (arith, ready.room, ready.buffer_size))
        ∙ ap some (
            ap₂ (λ l k. l ++ drop k h.buffer) (append-nil (take p h.buffer)) (omega arith)
            ∙ take-append-drop p h.buffer)

    refused :
        0 < w
        → (fuel c : ℕ) (dev dev' : σ) → pcm_read dev (4 * w) ≡ (negsuc c, [], dev')
        → read_loop pcm_read (suc fuel) h n start dev ≡ read_loop pcm_read fuel h n start dev'
    unfolding read_loop read_round
    refused some_asked fuel c dev dev' e =
        ap (read_round h n (read_loop pcm_read fuel h n) start) (asked some_asked dev ∙ e) ∙ rw kept

    pub enough : n ≤ p + w
    enough = ground (
      arith,
      asks,
      ready,
      product,
      round_up-le (n * h.ratio - h.data_size) h.hw_align ready.aligned,
    )
      where
        product : n * h.ratio ≡ n * 4
        product = ap (λ r. n * r) ready.ratio_4

    unending :
        0 < w
        → ((dev : σ) → (c : ℕ) × (dev' : σ) × pcm_read dev (4 * w) ≡ (negsuc c, [], dev'))
        → (fuel : ℕ) (dev : σ) → read_loop pcm_read fuel h n start dev ≡ none
    unfolding read_loop
    unending some_asked broken zero dev = refl
    unending some_asked broken (suc fuel) dev =
        let (c, dev', e) = broken dev in
        refused some_asked fuel c dev dev' e ∙ unending some_asked broken fuel dev'

    -- With a ready handle, a length that is accepted and bounded to twelve bytes or more, and a
    -- device that refuses every read, `SpeechArrayRead` does not return, whatever the fuel.
    pub speech_array_read-never_returns :
        0 < w
        → (fuel len : ℕ) (dev : σ) → len ≢ 0
        → len % h.out_align ≡ 0
        → bounded h len ≡ n
        → ((dev : σ) → (c : ℕ) × (dev' : σ) × pcm_read dev (4 * w) ≡ (negsuc c, [], dev'))
        → speech_array_read pcm_read fuel (some h) len dev ≡ none
    unfolding speech_array_read
    speech_array_read-never_returns some_asked fuel len dev full fits same broken =
        rw (accepted h len full fits, same, unending some_asked broken fuel dev)

    -- The words of the last call and those that arrive, before what the buffer had there.
    abbrev pub stream : List ℕ → List ℕ
    stream ws = take p h.buffer ++ ws ++ drop (p + length ws) h.buffer

    module _ (ws : List ℕ) (arrived : length ws ≡ w) (sound : Sounds (stream ws) 0) where
      length-stream : length (stream ws) ≡ q
      length-stream = omega (
        arith,
        length-append {0} (take p h.buffer ++ ws) (drop (p + length ws) h.buffer),
        length-append {0} (take p h.buffer) ws,
        length-take p h.buffer,
        length-drop (p + length ws) h.buffer,
        ready.room,
        ready.buffer_size,
      )

      nothing_skipped : skip_data (stream ws) (4 * (p + w)) ≡ some (pos 0)
      nothing_skipped =
          let (m, e, junk, l, r) =
            skip_data-Junk (stream ws) (4 * (p + w)) (omega (arith, enough))
              (omega (arith, length-stream, ready.room)) in
          e ∙ ap (λ k. some (pos (4 * k))) (Junk-Sounds junk sound)

      finished :
          (fuel : ℕ) (dev dev' : σ)
          → ask pcm_read start dev ≡ (pos 0, ws, dev')
          → read_loop pcm_read (suc fuel) h n start dev
            ≡ (finish h n (stream ws) (4 * (p + w)) >>= λ d. some (d, dev'))
      unfolding read_loop read_round after_read
      finished fuel dev dev' e =
          ap (read_round h n (read_loop pcm_read fuel h n) start) e
          ∙ (rw filled)
          ∙ ap (λ v. after_read h n (read_loop pcm_read fuel h n) start (stream ws) v dev') total
          ∙ rw nothing_skipped
        where
          filled : copy_in h.buffer h.data_size ws ≡ some (stream ws)
          filled =
              ap (λ a. copy_in h.buffer a ws) ready.left
              ∙ copy_in-lem h.buffer ws p (omega (arith, ready.room, ready.buffer_size))

          total : h.data_size + read_size h n ≡ 4 * (p + w)
          total = omega (arith, ready.left, asks)

      retried :
          0 < w
          → (fuel : ℕ) {k : ℕ} {dev dev' dev'' : σ} → Fails (4 * w) k dev dev'
          → k < fuel
          → pcm_read dev' (4 * w) ≡ (pos 0, ws, dev'')
          → read_loop pcm_read fuel h n start dev
            ≡ (finish h n (stream ws) (4 * (p + w)) >>= λ d. some (d, dev''))
      retried some_asked zero f l e = absurd (omega arith)
      retried some_asked (suc fuel) at_once l e = finished fuel _ _ (asked some_asked _ ∙ e)
      retried some_asked (suc fuel) (again {c = c} r f) l e =
          refused some_asked fuel c _ _ r ∙ retried some_asked fuel f (omega arith) e

      -- The end of a call whose loop ends.
      ended :
          (fuel len : ℕ) (dev dev'' : σ)
          → len ≢ 0
          → len % h.out_align ≡ 0
          → bounded h len ≡ n
          → p + w ≤ n + n
          → read_loop pcm_read fuel h n start dev
            ≡ (finish h n (stream ws) (4 * (p + w)) >>= λ d. some (d, dev''))
          → let out = samples 0 (n / 12 * 12) (stream ws) in
            (b : List ℕ) × (speech_array_read pcm_read fuel (some h) len dev
              ≡ some (
                some (record {
                  ret = 4 * length out;
                  buff = out;
                  handle = record h { buffer = b; data_size = 4 * (p + w - n) };
                }),
                dev'',
              ))
            × (take (p + w - n) b ≡ take (p + w - n) (drop n (stream ws)))
            × (length b ≡ q)
      unfolding speech_array_read
      ended fuel len dev dev'' full fits same apart loop =
          let (b, done, kept_words, size) =
            finish-lem h q ready.whole (stream ws) n (p + w) length-stream long enough
              (omega (arith, ready.room)) apart (omega (arith, enough, ready.room)) in
          (
            b,
            rw (accepted h len full fits, same, loop)
                  (chained (finish h n (stream ws) (4 * (p + w))) dev'')
                ∙ ap (λ o. o >>= λ d. some (some d, dev'')) done,
            kept_words,
            size,
          )

      -- A ready handle, a length that is accepted and bounded to twelve bytes or more, and a device
      -- that refuses `k` reads and then gives the words asked for: with fuel for the refused reads
      -- and one more, `SpeechArrayRead` returns, if no more words are left than it parses, so that the
      -- `memcpy` of the rest does not overlap. If a sample with sound starts the stream, it delivers
      -- the samples of the length, six channels each, and keeps in the buffer, in order, the words of
      -- the stream behind them.
      pub speech_array_read-delivers :
          0 < w
          → (fuel len : ℕ) {k : ℕ} {dev dev' dev'' : σ} → len ≢ 0
          → len % h.out_align ≡ 0
          → bounded h len ≡ n
          → p + w ≤ n + n
          → Fails (4 * w) k dev dev'
          → k < fuel
          → pcm_read dev' (4 * w) ≡ (pos 0, ws, dev'')
          → let out = samples 0 (n / 12 * 12) (stream ws) in
            (b : List ℕ) × (speech_array_read pcm_read fuel (some h) len dev
              ≡ some (
                some (record {
                  ret = 4 * length out;
                  buff = out;
                  handle = record h { buffer = b; data_size = 4 * (p + w - n) };
                }),
                dev'',
              ))
            × (take (p + w - n) b ≡ take (p + w - n) (drop n (stream ws)))
            × (length b ≡ q)
      speech_array_read-delivers some_asked fuel len {dev = dev} {dev'' = dev''} full fits same
            apart fails l e =
          ended fuel len dev dev'' full fits same apart (retried some_asked fuel fails l e)

      -- With all the words of the length left from the last call, it delivers them without a read.
      pub speech_array_read-still :
          (fuel len : ℕ) (dev : σ)
          → w ≡ 0
          → ws ≡ []
          → len ≢ 0
          → len % h.out_align ≡ 0
          → bounded h len ≡ n
          → p + w ≤ n + n
          → let out = samples 0 (n / 12 * 12) (stream ws) in
            (b : List ℕ) × (speech_array_read pcm_read (suc fuel) (some h) len dev
              ≡ some (
                some (record {
                  ret = 4 * length out;
                  buff = out;
                  handle = record h { buffer = b; data_size = 4 * (p + w - n) };
                }),
                dev,
              ))
            × (take (p + w - n) b ≡ take (p + w - n) (drop n (stream ws)))
            × (length b ≡ q)
      speech_array_read-still fuel len dev none_asked nothing full fits same apart =
          ended (suc fuel) len dev dev full fits same apart (finished fuel dev dev unasked)
        where
          unasked : ask pcm_read start dev ≡ (pos 0, ws, dev)
          unasked = rw (asks, none_asked, nothing) refl
