-- ===== src/SpeechDemo/Passes.antt =====
-- The sessions of demo/SpeechPersistentDemo/SpeechDemo.c without its buffer: lists of what is read and
-- handed on.
use program_learning.Prelude.{
  ℕ, zero, suc, ◌≤◌, ◌≡◌, true, false, Option, none, some, List, [], ◌∷◌, ◌++◌, length, take,
  replicate,
}
use program_learning.Prelude.Int.{pos, negsuc, ℤ}
use program_learning.Prelude.Text.{Text}
use program_learning.Persistent.{PersistentType, speech, asr, nlp}
use program_learning.SpeechDemo.{Env}

-- What `read` and `speechProcess` are documented to do: a read gives no more than it is asked for, and
-- a request depends on no more of the buffer than its length.
pub record Documented {S : Type 0} (env : Env S) : Type 0 where
  pub read_bounds :
      (size : ℕ) (s : S) (bytes : Text) → (env.read size s).0 ≡ some bytes → length bytes ≤ size
  pub process_takes :
      (handle : ℕ) (buffer : Text) (len : ℕ) (type : PersistentType) (s : S)
      → len ≤ length buffer
      → env.speech_process handle buffer len type s
        ≡ env.speech_process handle (take len buffer) len type s

-- What the two kinds of session ask for.
abbrev pub short_session : List (ℕ × PersistentType)
short_session = (1024, speech) ∷ []

abbrev pub whole_session : List (ℕ × PersistentType)
whole_session = replicate 33 (1024, speech) ++ ((2048, asr) ∷ (4096, nlp) ∷ [])

module _ {S : Type 0} (env : Env S) where
  -- What was read goes on if it is something.
  abbrev pub given_on : ℕ → PersistentType → Option Text × S → S
  given_on handle type (none, s) = s
  given_on handle type (some [], s) = s
  given_on handle type (some (c ∷ cs), s) =
      env.speech_process handle (c ∷ cs) (length (c ∷ cs)) type s

  abbrev pub passes : ℕ → List (ℕ × PersistentType) → S → S
  passes handle [] s = s
  passes handle ((size, type) ∷ more) s =
      passes handle more (given_on handle type (env.read size s))

  abbrev pub short_from : ℕ × S → S
  short_from (handle, s) = env.speech_stop handle false (passes handle short_session s)

  abbrev pub whole_from : ℕ × S → S
  whole_from (handle, s) =
      env.speech_stop handle true (env.usleep 100000 (passes handle whole_session s))

  abbrev pub wholes : ℕ → S → S
  wholes zero s = s
  wholes (suc k) s = wholes k (env.usleep 300000 (whole_from (env.speech_start s)))

  -- All that `main` does from `Init` on.
  abbrev pub all_sessions : S → S
  all_sessions s =
      env.close_input
        (env.un_init (wholes 64 (env.usleep 100000 (short_from (env.speech_start (env.init s))))))

  -- What `main` does.
  abbrev pub sessions_from : ℤ × S → S
  sessions_from (pos zero, s) = s
  sessions_from (pos (suc n), s) = all_sessions s
  sessions_from (negsuc n, s) = s
