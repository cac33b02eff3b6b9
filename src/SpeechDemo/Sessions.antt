-- ===== src/SpeechDemo/Sessions.antt =====
-- The sessions of demo/SpeechPersistentDemo/SpeechDemo.c and its `main`.
use program_learning.Prelude.{
  ℕ, zero, suc, ◌≡◌, refl, ap, ◌∙◌, true, false, none, some, [], ◌∷◌, arith, length, replicate,
  length-replicate,
}
use program_learning.Prelude.Int.{pos, negsuc, ℤ}
use program_learning.Prelude.Text.{Text}
use program_learning.Persistent.{speech, asr, nlp}
use program_learning.SpeechDemo.{
  Env, pass, pass_loop, pause, stop_with, speech_process_interrupt, speech_process_success,
  success_loop, run_all, after_open, main, end_main,
}
use program_learning.SpeechDemo.Passes.{
  Documented, short_session, whole_session, passes, short_from, whole_from, wholes, all_sessions,
  sessions_from,
}
use program_learning.SpeechDemo.Buffer.{
  Does, both, then, pass-Does, both-Does, then-Does, pass_loop-Does,
}

module _ {S : Type 0} (env : Env S) (documented : Documented env) where
  short_session-Does :
      (handle : ℕ)
      → Does
          (then (pass_loop env handle 0) (stop_with env handle false))
          (λ s. env.speech_stop handle false (passes env handle short_session s))
  short_session-Does handle =
      then-Does (pass_loop env handle 0) (stop_with env handle false)
        (passes env handle short_session) (env.speech_stop handle false)
        (pass_loop-Does env documented handle 0) (λ b s. refl)

  whole_session-Does :
      (handle : ℕ)
      → Does
          (both (pass_loop env handle 32) (
            both (pass env handle 2048 asr) (
              then
                (pass env handle 4096 nlp)
                (λ d. stop_with env handle true (pause env 100000 d)))))
          (λ s. env.speech_stop handle true (env.usleep 100000 (passes env handle whole_session s)))
  whole_session-Does handle =
      both-Does (pass_loop env handle 32) _ (passes env handle (replicate 33 (1024, speech))) _
        (pass_loop-Does env documented handle 32)
        (both-Does (pass env handle 2048 asr) _ (passes env handle ((2048, asr) ∷ [])) _
          (pass-Does env documented handle 2048 asr (omega arith))
          (then-Does (pass env handle 4096 nlp) _ (passes env handle ((4096, nlp) ∷ []))
            (λ s. env.speech_stop handle true (env.usleep 100000 s))
            (pass-Does env documented handle 4096 nlp (omega arith)) (λ b s. refl)))

  interrupt-Does : Does (speech_process_interrupt env) (λ s. short_from env (env.speech_start s))
  unfolding speech_process_interrupt
  interrupt-Does buffer s full =
      short_session-Does (env.speech_start s).0 buffer (env.speech_start s).1 full

  success-Does : Does (speech_process_success env) (λ s. whole_from env (env.speech_start s))
  unfolding speech_process_success
  success-Does buffer s full =
      whole_session-Does (env.speech_start s).0 buffer (env.speech_start s).1 full

  wholes-Does : (k : ℕ) → Does (success_loop env k) (wholes env k)
  unfolding success_loop
  wholes-Does zero buffer s full = (buffer, full, refl)
  wholes-Does (suc k) buffer s full =
      let (b, b_full, e) = success-Does buffer s full in
      let next = env.usleep 300000 (whole_from env (env.speech_start s)) in
      let (b', b'_full, e') = wholes-Does k b next b_full in
      (
        b',
        b'_full,
        ap (λ o. elim o [ none ↦ none | some d ↦ success_loop env k (pause env 300000 d) ]) e ∙ e',
      )

  run_all-runs :
      (buffer : Text) (s : S)
      → length buffer ≡ 4098
      → run_all env (buffer, env.init s) ≡ some (all_sessions env s)
  run_all-runs buffer s full =
      let (b, b_full, e) = interrupt-Does buffer (env.init s) full in
      let begun = env.usleep 100000 (short_from env (env.speech_start (env.init s))) in
      let (b', b'_full, e') = wholes-Does 64 b begun b_full in
      ap
        (λ o. elim o [
          | none ↦ none
          | some d ↦ elim (success_loop env 64 (pause env 100000 d)) [
            | none ↦ none
            | some d' ↦ some (end_main env d')
          ]
        ])
        e
      ∙ ap (λ o. elim o [ none ↦ none | some d ↦ some (end_main env d) ]) e'

  opened-runs : (o : ℤ × S) → after_open env o ≡ some (sessions_from env o)
  opened-runs (pos zero, s) = refl
  opened-runs (pos (suc n), s) = run_all-runs (replicate 4098 0) s (length-replicate {A = ℕ} 4098 0)
  opened-runs (negsuc n, s) = refl

  -- Whatever the program calls, if a read gives no more than it is asked for and a request depends on
  -- no more of the buffer than its length: `main` ends without a write behind its buffer. Where the
  -- file does not open it does no more. Otherwise it starts one session of a read of 1024 bytes, and
  -- then 64 sessions of 33 such reads, one of 2048 bytes for the text and one of 4096 for the meaning;
  -- each read that gives something is handed on with its type, just as it was given, under the
  -- session's id. The first session is stopped as interrupted, and the others as completed.
  pub main-sessions : (s : S) → main env s ≡ some (sessions_from env (env.open_input s))
  unfolding main
  main-sessions s = opened-runs (env.open_input s)
