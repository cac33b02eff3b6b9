-- ===== src/SpeechDemo/Hands.antt =====
-- What demo/SpeechPersistentDemo/SpeechDemo.c hands on of what it reads.
use program_learning.Prelude.{
  ◌<◌, sym, ℕ, zero, suc, ◌≤◌, ◌≡◌, refl, ap₂, ◌∙◌, Option, none, some, List, [], ◌∷◌, ◌++◌, arith,
  lt→ltb, le→leb, length, take_all, append-nil, replicate,
}
use program_learning.Prelude.Int.{ℤ, pos, negsuc}
use program_learning.Prelude.Text.{Text}
use program_learning.Persistent.{PersistentType, speech, asr, nlp, max_nlp_buffer_len}
use program_learning.SpeechDemo.{Env, main}
use program_learning.SpeechDemo.Passes.{
  Documented, short_session, whole_session, given_on, passes, whole_from, wholes, sessions_from,
}
use program_learning.SpeechDemo.Sessions.{main-sessions}
use program_learning.SpeechDemo.Watched.{
  Watched, watched, asked_of, with_bytes, with_fd, sessions-watched, watched-Documented,
}

module _ {S : Type 0} (env : Env S) (documented : Documented env) where
  -- All that the file gave is handed on.
  abbrev Even : Watched S → Type 0
  Even x = x.1.0 ≡ x.1.1

  asked_of-all :
      (bytes : Text)
      → 0 < length bytes
      → length bytes ≤ max_nlp_buffer_len
      → asked_of bytes (length bytes) ≡ bytes
  asked_of-all bytes some_bytes fits =
      rw
        (
          lt→ltb 0 (length bytes) some_bytes,
          le→leb (length bytes) max_nlp_buffer_len fits,
          le→leb (length bytes) (length bytes) (omega arith),
        )
        (take_all bytes)

  given_on-Even :
      (handle : ℕ) (type : PersistentType) (answer : Option Text × S) (seen : Text × Text)
      → ((bytes : Text) → answer.0 ≡ some bytes → length bytes ≤ max_nlp_buffer_len)
      → seen.0 ≡ seen.1
      → Even (given_on (watched env) handle type (with_bytes env answer seen))
  given_on-Even handle type (none, s) seen fits even = append-nil seen.0 ∙ even
  given_on-Even handle type (some [], s) seen fits even = append-nil seen.0 ∙ even
  given_on-Even handle type (some (c ∷ cs), s) seen fits even =
      ap₂ (λ l m. l ++ m) even (sym (asked_of-all (c ∷ cs) (omega arith) (fits (c ∷ cs) refl)))

  -- Every size is within the limit.
  abbrev Small : List (ℕ × PersistentType) → Type 0
  Small [] = Unit {0}
  Small ((size, type) ∷ more) = (size ≤ max_nlp_buffer_len) × Small more

  passes-Even :
      (handle : ℕ) (asked : List (ℕ × PersistentType)) (x : Watched S)
      → Small asked
      → Even x
      → Even (passes (watched env) handle asked x)
  passes-Even handle [] x small even = even
  passes-Even handle ((size, type) ∷ more) x (fits, small) even = passes-Even handle more _ small (
      given_on-Even handle type (env.read size x.0) x.1
        (λ bytes e. omega (arith, documented.read_bounds size x.0 bytes e, fits)) even)

  speeches-Small :
      (k : ℕ) (more : List (ℕ × PersistentType))
      → Small more
      → Small (replicate k (1024, speech) ++ more)
  speeches-Small zero more small = small
  speeches-Small (suc k) more small = (omega arith, speeches-Small k more small)

  whole-Even :
      (x : Watched S) → Even x → Even (whole_from (watched env) ((watched env).speech_start x))
  whole-Even x even =
      passes-Even (env.speech_start x.0).0 whole_session ((watched env).speech_start x).1
        (speeches-Small 33 ((2048, asr) ∷ (4096, nlp) ∷ []) (omega arith, (omega arith, tt))) even

  wholes-Even : (k : ℕ) (x : Watched S) → Even x → Even (wholes (watched env) k x)
  wholes-Even zero x even = even
  wholes-Even (suc k) x even = wholes-Even k _ (whole-Even x even)

  sessions-Even :
      (o : ℤ × S) (seen : Text × Text)
      → seen.0 ≡ seen.1
      → Even (sessions_from (watched env) (with_fd env o seen))
  sessions-Even (pos zero, s) seen even = even
  sessions-Even (pos (suc n), s) seen even = wholes-Even 64 _ (
      passes-Even (env.speech_start (env.init s)).0 short_session
        ((watched env).speech_start ((watched env).init (s, seen))).1 (omega arith, tt) even)
  sessions-Even (negsuc n, s) seen even = even

  -- Whatever the program calls, if a read gives no more than it is asked for and a request depends on
  -- no more of the buffer than its length: `main` ends, and with a record of the bytes that the file
  -- gave and of those that `speechProcess` was called with, at a length that it accepts, it does the
  -- same. At its end the two are equal: each byte that was read was handed on, once and in order,
  -- however much each read gives and wherever one fails.
  pub main-hands_on :
      (s : S)
      → (s' : S) × (given : Text) × (main env s ≡ some s')
        × (main (watched env) (s, ([], [])) ≡ some (s', (given, given)))
  main-hands_on s =
      let o = env.open_input s in
      let end = sessions_from (watched env) (with_fd env o ([], [])) in
      (
        sessions_from env o,
        end.1.0,
        main-sessions env documented s,
        main-sessions (watched env) (watched-Documented env documented) (s, ([], []))
            ∙ ap₂ (λ t l. some (t, (end.1.0, l))) (sessions-watched env o ([], []))
                (sym (sessions-Even o ([], []) refl)),
      )
