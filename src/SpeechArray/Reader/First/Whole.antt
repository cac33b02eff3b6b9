-- ===== src/SpeechArray/Reader/First/Whole.antt =====
-- What `SpeechArrayRead1` of speech/src/speecharray.c delivers from a stream that starts with sound.
use program_learning.Prelude.{
  take-front, ℕ, zero, suc, ◌+◌, ◌-◌, ◌*◌, ◌/◌, ◌%◌, ◌≤◌, ◌<◌, ◌≡◌, ◌≢◌, refl, ap, ap₂, ◌∙◌, false,
  some, List, [], ◌++◌, arith, ltb, ◌>>=◌, length, take, drop, length-append, length-take,
  length-drop, append-nil, take-append-drop,
}
use program_learning.Prelude.Int.{ℤ, pos, negsuc}
use program_learning.SpeechArray.{skip_data, parse_data_int32}
use program_learning.SpeechArray.Format.{samples}
use program_learning.SpeechArray.Skip.{Sounds, skip_data-Junk}
use program_learning.SpeechArray.Reader.{Handle, copy_in, bounded}
use program_learning.SpeechArray.Reader.Keep.{
  copy_in-lem, words_of-times, keep_rest-lem, parse_data_int32-words, drop-over, length-over,
}
use program_learning.SpeechArray.Reader.Ready.{Ready, Junk-Sounds, chained, accepted}
use program_learning.SpeechArray.Reader.Plain.{Fails, at_once, again}
use program_learning.SpeechArray.Reader.First.{
  deliver_all, read_size1, read_round1, after_read1, read_loop1, start1, speech_array_read1,
}

-- The end of a call, with `v` words in the buffer.
deliver_all-lem :
    (h : Handle) (q : ℕ) (mem : List ℕ) (v : ℕ)
    → length mem ≡ q
    → 12 ≤ v
    → v + 11 ≤ q
    → v ≤ 8 * length (samples 0 (v / 12 * 12) mem)
    → let out = samples 0 (v / 12 * 12) mem in
      (b : List ℕ) × (deliver_all h mem (4 * v)
        ≡ some (record {
          ret = 4 * length out;
          buff = out;
          handle = record h { buffer = b; data_size = 4 * (v - 4 * length out) };
        }))
      × (take (v - 4 * length out) b ≡ take (v - 4 * length out) (drop (4 * length out) mem))
      × (length b ≡ q)
unfolding deliver_all
deliver_all-lem h q mem v e l room apart =
    let (b, runs, front, same) =
      keep_rest-lem q parsed (4 * length out) (v - 4 * length out) (4 * length out) length-parsed
        (omega (arith, apart)) (omega (arith, parses.1)) (omega (arith, parses.1)) in
    (
      b,
      rw (parses.0, words_of-times (length out), fits, from, left, runs, taken),
      front ∙ ap (take (v - 4 * length out)) (drop-over out mem (4 * length out) (omega arith)),
      same,
    )
  where
    out : List ℕ
    out = samples 0 (v / 12 * 12) mem

    parsed : List ℕ
    parsed = out ++ drop (length out) mem

    parses :
        (parse_data_int32 mem (4 * v) ≡ some (parsed, pos (4 * length out))) × (4 * length out ≤ v)
    parses = parse_data_int32-words mem v l (omega (arith, e))

    length-parsed : length parsed ≡ q
    length-parsed = length-over out mem (omega (arith, parses.1, e)) ∙ e

    from : 4 * length out * 4 ≡ 4 * (4 * length out)
    from = omega arith

    fits : ltb (4 * v) (4 * length out * 4) ≡ false
    fits = ground (arith, parses.1)

    left : 4 * v - 4 * (4 * length out) ≡ 4 * (v - 4 * length out)
    left = omega arith

    taken : take (length out) parsed ≡ out
    taken = take-front out (drop (length out) mem) (length out) refl

module _ {σ : Type 0} (pcm_read : σ → ℕ → ℤ × List ℕ × σ) (h : Handle) (p w q : ℕ)
    (ready : Ready h p w q) where
  kept : copy_in h.buffer h.data_size [] ≡ some h.buffer
  kept =
      ap (λ a. copy_in h.buffer a []) ready.left
      ∙ copy_in-lem h.buffer [] p (omega (arith, ready.room, ready.buffer_size))
      ∙ ap some (
          ap₂ (λ l k. l ++ drop k h.buffer) (append-nil (take p h.buffer)) (omega arith)
          ∙ take-append-drop p h.buffer)

  refused :
      (fuel c : ℕ) (dev dev' : σ)
      → pcm_read dev (4 * w) ≡ (negsuc c, [], dev')
      → read_loop1 pcm_read (suc fuel) h (start1 h (4 * w)) dev
        ≡ read_loop1 pcm_read fuel h (start1 h (4 * w)) dev'
  unfolding read_loop1 read_round1
  refused fuel c dev dev' e =
      ap (read_round1 h (read_loop1 pcm_read fuel h) (start1 h (4 * w))) e ∙ rw kept

  -- The words of the last call and those that arrive, before what the buffer had there.
  abbrev pub stream : List ℕ → List ℕ
  stream ws = take p h.buffer ++ ws ++ drop (p + length ws) h.buffer

  module _ (ws : List ℕ) (arrived : length ws ≡ w) (sound : Sounds (stream ws) 0)
      (long : 12 ≤ p + w) where
    length-stream : length (stream ws) ≡ q
    length-stream = omega (
      arith,
      length-append {0} (take p h.buffer ++ ws) (drop (p + length ws) h.buffer),
      length-append {0} (take p h.buffer) ws,
      length-take p h.buffer,
      length-drop (p + length ws) h.buffer,
      ready.room,
      ready.buffer_size,
    )

    nothing_skipped : skip_data (stream ws) (4 * (p + w)) ≡ some (pos 0)
    nothing_skipped =
        let (m, e, junk, l, r) =
          skip_data-Junk (stream ws) (4 * (p + w)) (omega (arith, long))
            (omega (arith, length-stream, ready.room)) in
        e ∙ ap (λ k. some (pos (4 * k))) (Junk-Sounds junk sound)

    retried :
        (fuel : ℕ) {k : ℕ} {dev dev' dev'' : σ}
        → Fails pcm_read (4 * w) k dev dev'
        → k < fuel
        → pcm_read dev' (4 * w) ≡ (pos 0, ws, dev'')
        → read_loop1 pcm_read fuel h (start1 h (4 * w)) dev
          ≡ (deliver_all h (stream ws) (4 * (p + w)) >>= λ d. some (d, dev''))
    unfolding read_loop1 read_round1 after_read1
    retried zero f l e = absurd (omega arith)
    retried (suc fuel) {dev'' = dev''} at_once l e =
        ap (read_round1 h (read_loop1 pcm_read fuel h) (start1 h (4 * w))) e
        ∙ (rw filled)
        ∙ ap
            (λ v. after_read1 h (read_loop1 pcm_read fuel h) (start1 h (4 * w)) (stream ws) v dev'')
            total
        ∙ rw nothing_skipped
      where
        filled : copy_in h.buffer h.data_size ws ≡ some (stream ws)
        filled =
            ap (λ a. copy_in h.buffer a ws) ready.left
            ∙ copy_in-lem h.buffer ws p (omega (arith, ready.room, ready.buffer_size))

        total : h.data_size + 4 * w ≡ 4 * (p + w)
        total = omega (arith, ready.left)
    retried (suc fuel) (again {c = c} r f) l e =
        refused fuel c _ _ r ∙ retried fuel f (omega arith) e

    -- A ready handle, a length that is accepted and for which the call asks `w` words, and a device
    -- that refuses `k` reads and then gives them: with fuel for the refused reads and one more,
    -- `SpeechArrayRead1` returns. If a sample with sound starts the stream and there are twelve words
    -- of it, and not more words are left than were delivered, it delivers all whole samples that are there, six channels each, whatever the length,
    -- and keeps in the buffer, in order, the words behind four times what it delivers.
    pub speech_array_read1-delivers :
        (fuel len : ℕ) {k : ℕ} {dev dev' dev'' : σ}
        → len ≢ 0
        → len % h.out_align ≡ 0
        → read_size1 h (bounded h len) ≡ some (4 * w)
        → Fails pcm_read (4 * w) k dev dev'
        → k < fuel
        → pcm_read dev' (4 * w) ≡ (pos 0, ws, dev'')
        → p + w ≤ 8 * length (samples 0 ((p + w) / 12 * 12) (stream ws))
        → let out = samples 0 ((p + w) / 12 * 12) (stream ws) in
          (b : List ℕ) × (speech_array_read1 pcm_read fuel (some h) len dev
            ≡ some (
              some (record {
                ret = 4 * length out;
                buff = out;
                handle = record h { buffer = b; data_size = 4 * (p + w - 4 * length out) };
              }),
              dev'',
            ))
          × (take (p + w - 4 * length out) b
              ≡ take (p + w - 4 * length out) (drop (4 * length out) (stream ws)))
          × (length b ≡ q)
    unfolding speech_array_read1
    speech_array_read1-delivers fuel len {dev = dev} {dev'' = dev''} full fits asks fails l e
          apart =
        let (b, done, kept_words, size) =
          deliver_all-lem h q (stream ws) (p + w) length-stream long ready.room apart in
        (b, entered ∙ ap (λ o. o >>= λ d. some (some d, dev'')) done, kept_words, size)
      where
        entered :
            speech_array_read1 pcm_read fuel (some h) len dev
            ≡ (deliver_all h (stream ws) (4 * (p + w)) >>= λ d. some (some d, dev''))
        entered =
            rw (accepted h len full fits, asks, retried fuel fails l e)
              (chained (deliver_all h (stream ws) (4 * (p + w))) dev'')
