-- ===== src/SpeechDemo.antt =====
-- demo/SpeechPersistentDemo/SpeechDemo.c, the program that hands recordings to
-- demo/SpeechPersistentDemo/SpeechPersistent.c. What it calls is a parameter: `read` gives bytes, or
-- `none` where it fails. `none` of a step is a write behind the buffer.
pub mod Passes
mod Buffer
pub mod Service
pub mod Sessions
pub mod Watched
pub mod Hands
mod Tests
use program_learning.Prelude.{
  ℕ, zero, suc, Bool, true, false, Option, none, some, List, [], ◌∷◌, ◌++◌, ltb, leb, if◌then◌else◌,
  length, set, drop, replicate,
}
use program_learning.Prelude.Int.{ℤ, pos, negsuc}
use program_learning.Prelude.Text.{Text}
use program_learning.Persistent.{PersistentType, speech, asr, nlp}

-- `S` is the state of all that the program calls.
pub record Env (S : Type 0) : Type 0 where
  pub open_input : S → ℤ × S
  pub read : ℕ → S → Option Text × S
  pub close_input : S → S
  pub init : S → S
  pub un_init : S → S
  pub speech_start : S → ℕ × S
  pub speech_process : ℕ → Text → ℕ → PersistentType → S → S
  pub speech_stop : ℕ → Bool → S → S
  pub usleep : ℕ → S → S

-- `buff`, and the rest.
abbrev pub Demo : Type 0 → Type 0
Demo S = Text × S

-- `buffer[i] = '\0'`
abbrev pub terminate : ℕ → Text → Option Text
terminate i buffer = if ltb i (length buffer) then some (set buffer i 0) else none

-- What `read` puts into the buffer, and what it returns.
abbrev pub into_buffer : Option Text → Text → Option Text
into_buffer none buffer = some buffer
into_buffer (some bytes) buffer =
    if leb (length bytes) (length buffer) then some (bytes ++ drop (length bytes) buffer) else none

abbrev pub ret_of : Option Text → ℤ
ret_of none = negsuc 0
ret_of (some bytes) = pos (length bytes)

module _ {S : Type 0} (env : Env S) where
  -- `if(ret > 0)`
  abbrev pub hand_on : ℕ → PersistentType → ℤ → Demo S → Demo S
  hand_on handle type (pos zero) d = d
  hand_on handle type (pos (suc n)) (buffer, s) =
      (buffer, env.speech_process handle buffer (suc n) type s)
  hand_on handle type (negsuc n) d = d

  abbrev pub after_answer : ℕ → ℕ → PersistentType → Text → Option Text × S → Option (Demo S)
  after_answer handle size type buffer (answer, s) = elim (into_buffer answer buffer) [
    | none ↦ none
    | some b ↦ elim (terminate size b) [
      | none ↦ none
      | some b' ↦ some (hand_on handle type (ret_of answer) (b', s))
    ]
  ]

  -- A read into the buffer, and the call with what it gave.
  unfoldable pub pass : ℕ → ℕ → PersistentType → Demo S → Option (Demo S)
  pass handle size type (buffer, s) = after_answer handle size type buffer (env.read size s)

  -- `do ... while(i--)`
  unfoldable pub pass_loop : ℕ → ℕ → Demo S → Option (Demo S)
  pass_loop handle zero d = pass handle 1024 speech d
  pass_loop handle (suc i) d = elim (pass handle 1024 speech d) [
    | none ↦ none
    | some d' ↦ pass_loop handle i d'
  ]

  abbrev pub pause : ℕ → Demo S → Demo S
  pause time (buffer, s) = (buffer, env.usleep time s)

  abbrev pub stop_with : ℕ → Bool → Demo S → Demo S
  stop_with handle completed (buffer, s) = (buffer, env.speech_stop handle completed s)

  abbrev pub interrupted_from : Text → ℕ × S → Option (Demo S)
  interrupted_from buffer (handle, s) = elim (pass_loop handle 0 (buffer, s)) [
    | none ↦ none
    | some d ↦ some (stop_with handle false d)
  ]

  unfoldable pub speech_process_interrupt : Demo S → Option (Demo S)
  speech_process_interrupt (buffer, s) = interrupted_from buffer (env.speech_start s)

  -- `speechProcessSuccess`, from the call of `speechStart` on.
  abbrev pub completed_from : Text → ℕ × S → Option (Demo S)
  completed_from buffer (handle, s) = elim (pass_loop handle 32 (buffer, s)) [
    | none ↦ none
    | some d ↦ elim (pass handle 2048 asr d) [
      | none ↦ none
      | some d' ↦ elim (pass handle 4096 nlp d') [
        | none ↦ none
        | some d'' ↦ some (stop_with handle true (pause 100000 d''))
      ]
    ]
  ]

  unfoldable pub speech_process_success : Demo S → Option (Demo S)
  speech_process_success (buffer, s) = completed_from buffer (env.speech_start s)

  -- The `for` loop of `main`, with so many rounds to go.
  unfoldable pub success_loop : ℕ → Demo S → Option (Demo S)
  success_loop zero d = some d
  success_loop (suc k) d = elim (speech_process_success d) [
    | none ↦ none
    | some d' ↦ success_loop k (pause 300000 d')
  ]

  abbrev pub end_main : Demo S → S
  end_main (buffer, s) = env.close_input (env.un_init s)

  abbrev pub run_all : Demo S → Option S
  run_all d = elim (speech_process_interrupt d) [
    | none ↦ none
    | some d' ↦ elim (success_loop 64 (pause 100000 d')) [
      | none ↦ none
      | some d'' ↦ some (end_main d'')
    ]
  ]

  -- `if(fd <= 0)`
  abbrev pub after_open : ℤ × S → Option S
  after_open (pos zero, s) = some s
  after_open (pos (suc n), s) = run_all (replicate 4098 0, env.init s)
  after_open (negsuc n, s) = some s

  unfoldable pub main : S → Option S
  main s = after_open (env.open_input s)
