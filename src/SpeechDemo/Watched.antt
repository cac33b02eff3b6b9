-- ===== src/SpeechDemo/Watched.antt =====
-- The program demo/SpeechPersistentDemo/SpeechDemo.c with a record beside the state of what it calls: the bytes that the file gave, and those that the calls of `speechProcess` were
-- given, if their length is one that it accepts.
use program_learning.Prelude.{
  ℕ, zero, suc, ◌≤◌, ◌≡◌, refl, ap, ap₂, ◌∙◌, ◌&&◌, Option, none, some, List, [], ◌∷◌, ◌++◌, arith,
  ltb, leb, le→leb, if◌then◌else◌, length, take, take-take, length-take, true, false,
}
use program_learning.Prelude.Int.{ℤ, pos, negsuc}
use program_learning.Prelude.Text.{Text}
use program_learning.Persistent.{PersistentType, max_nlp_buffer_len}
use program_learning.SpeechDemo.{Env}
use program_learning.SpeechDemo.Passes.{
  Documented, short_session, whole_session, given_on, passes, short_from, whole_from, wholes,
  all_sessions, sessions_from,
}

abbrev pub bytes_of : Option Text → Text
bytes_of none = []
bytes_of (some bytes) = bytes

-- The bytes that a call is given.
abbrev pub asked_of : Text → ℕ → Text
asked_of buffer len =
    if ltb 0 len && (leb len max_nlp_buffer_len && leb len (length buffer))
    then take len buffer
    else []

asked_of-take :
    (buffer : Text) (len : ℕ)
    → len ≤ length buffer
    → asked_of buffer len ≡ asked_of (take len buffer) len
asked_of-take buffer len fits = rw (
  le→leb len (length buffer) fits,
  le→leb len (length (take len buffer)) (omega (arith, fits, length-take len buffer)),
  take-take len buffer,
)

-- The state, the bytes that the file gave, and those that were handed on.
abbrev pub Watched : Type 0 → Type 0
Watched S = S × (Text × Text)

module _ {S : Type 0} (env : Env S) where
  abbrev pub with_id : ℕ × S → Text × Text → ℕ × Watched S
  with_id (id, s) seen = (id, (s, seen))

  abbrev pub with_fd : ℤ × S → Text × Text → ℤ × Watched S
  with_fd (fd, s) seen = (fd, (s, seen))

  abbrev pub with_bytes : Option Text × S → Text × Text → Option Text × Watched S
  with_bytes (answer, s) (gave, handed) = (answer, (s, (gave ++ bytes_of answer, handed)))

  -- The same calls, with the record.
  abbrev pub watched : Env (Watched S)
  watched = record {
    open_input = λ x. with_fd (env.open_input x.0) x.1;
    read = λ size x. with_bytes (env.read size x.0) x.1;
    close_input = λ x. (env.close_input x.0, x.1);
    init = λ x. (env.init x.0, x.1);
    un_init = λ x. (env.un_init x.0, x.1);
    speech_start = λ x. with_id (env.speech_start x.0) x.1;
    speech_process = λ handle buffer len type x.
        (env.speech_process handle buffer len type x.0, (x.1.0, x.1.1 ++ asked_of buffer len));
    speech_stop = λ handle completed x. (env.speech_stop handle completed x.0, x.1);
    usleep = λ time x. (env.usleep time x.0, x.1);
  }

  -- The record changes nothing of what the program does.
  given_on-watched :
      (handle : ℕ) (type : PersistentType) (answer : Option Text × S) (seen : Text × Text)
      → (given_on watched handle type (with_bytes answer seen)).0 ≡ given_on env handle type answer
  given_on-watched handle type (none, s) seen = refl
  given_on-watched handle type (some [], s) seen = refl
  given_on-watched handle type (some (c ∷ cs), s) seen = refl

  passes-watched :
      (handle : ℕ) (asked : List (ℕ × PersistentType)) (x : Watched S)
      → (passes watched handle asked x).0 ≡ passes env handle asked x.0
  passes-watched handle [] x = refl
  passes-watched handle ((size, type) ∷ more) x =
      passes-watched handle more (given_on watched handle type (watched.read size x))
      ∙ ap (passes env handle more) (given_on-watched handle type (env.read size x.0) x.1)

  short_from-watched :
      (x : Watched S)
      → (short_from watched (watched.speech_start x)).0 ≡ short_from env (env.speech_start x.0)
  short_from-watched x =
      ap (env.speech_stop (env.speech_start x.0).0 false)
        (passes-watched (env.speech_start x.0).0 short_session (watched.speech_start x).1)

  whole_from-watched :
      (x : Watched S)
      → (whole_from watched (watched.speech_start x)).0 ≡ whole_from env (env.speech_start x.0)
  whole_from-watched x =
      ap (λ s. env.speech_stop (env.speech_start x.0).0 true (env.usleep 100000 s))
        (passes-watched (env.speech_start x.0).0 whole_session (watched.speech_start x).1)

  wholes-watched : (k : ℕ) (x : Watched S) → (wholes watched k x).0 ≡ wholes env k x.0
  wholes-watched zero x = refl
  wholes-watched (suc k) x =
      wholes-watched k (watched.usleep 300000 (whole_from watched (watched.speech_start x)))
      ∙ ap (λ s. wholes env k (env.usleep 300000 s)) (whole_from-watched x)

  all-watched : (x : Watched S) → (all_sessions watched x).0 ≡ all_sessions env x.0
  all-watched x =
      ap (λ s. env.close_input (env.un_init s))
        (wholes-watched 64
            (watched.usleep 100000 (short_from watched (watched.speech_start (watched.init x))))
          ∙ ap (λ s. wholes env 64 (env.usleep 100000 s)) (short_from-watched (watched.init x)))

  pub sessions-watched :
      (o : ℤ × S) (seen : Text × Text)
      → (sessions_from watched (with_fd o seen)).0 ≡ sessions_from env o
  sessions-watched (pos zero, s) seen = refl
  sessions-watched (pos (suc n), s) seen = all-watched (s, seen)
  sessions-watched (negsuc n, s) seen = refl

  pub watched-Documented : Documented env → Documented watched
  watched-Documented d = record {
    read_bounds = λ size x bytes e. d.read_bounds size x.0 bytes e;
    process_takes = λ handle buffer len type x fits.
        ap₂ (λ s more. (s, (x.1.0, x.1.1 ++ more)))
          (d.process_takes handle buffer len type x.0 fits) (asked_of-take buffer len fits);
  }
