-- ===== src/SpeechDemo/Tests.antt =====
-- A file that gives what it is told to, for demo/SpeechPersistentDemo/SpeechDemo.c, and a service that
-- counts.
use program_learning.Prelude.{
  take-take, ℕ, ◌≤◌, ◌≡◌, refl, ap, sym, true, false, Option, none, some, List, [], ◌∷◌, ◌++◌,
  arith, length, take, replicate, length-take, subst,
}
use program_learning.Prelude.Int.{ℤ, pos}
use program_learning.Prelude.Text.{Text}
use program_learning.Files.{plain}
use program_learning.ThreadPool.{no_task}
use program_learning.Persistent.{
  speech, Call, access, mkdir, write, close, remove, upload, malloc_handle, malloc_buffer, System,
  World,
}
use program_learning.Persistent.Names.{Tm}
use program_learning.Persistent.Service.{
  init, speech_start, speech_process, speech_stop, work, un_init,
}
use program_learning.SpeechDemo.{Env, pass, pass_loop, main}
use program_learning.SpeechDemo.Passes.{Documented, sessions_from}
use program_learning.SpeechDemo.Service.{Serving, Serving-Documented}
use program_learning.SpeechDemo.Sessions.{main-sessions}
use program_learning.SpeechDemo.Watched.{watched}
use program_learning.SpeechDemo.Hands.{main-hands_on}

-- What the file will give, what it gave, and what was handed on.
record Count : Type 0 where
  ahead : List (Option Text)
  taken : Text
  handed : Text

abbrev read : ℕ → List (Option Text) → Text → Text → Option Text × Count
read size [] taken handed = (some [], record { ahead = []; taken = taken; handed = handed })
read size (none ∷ ahead) taken handed =
    (none, record { ahead = ahead; taken = taken; handed = handed })
read size (some bytes ∷ ahead) taken handed = (
  some (take size bytes),
  record { ahead = ahead; taken = taken ++ take size bytes; handed = handed },
)

abbrev counter : Env Count
counter = record {
  open_input = λ s. (pos 3, s);
  read = λ size s. read size s.ahead s.taken s.handed;
  close_input = λ s. s;
  init = λ s. s;
  un_init = λ s. s;
  speech_start = λ s. (1, s);
  speech_process = λ handle buffer len type s. record s { handed = s.handed ++ take len buffer };
  speech_stop = λ handle completed s. s;
  usleep = λ time s. s;
}

abbrev or_nothing : Option Text → Text
or_nothing none = []
or_nothing (some bytes) = bytes

read-bounded :
    (size : ℕ) (ahead : List (Option Text)) (taken handed bytes : Text)
    → (read size ahead taken handed).0 ≡ some bytes
    → length bytes ≤ size
read-bounded size [] taken handed bytes e =
    subst (λ l. length l ≤ size) (ap or_nothing e) (omega arith)
read-bounded size (none ∷ ahead) taken handed bytes e =
    subst (λ l. length l ≤ size) (ap or_nothing e) (omega arith)
read-bounded size (some all ∷ ahead) taken handed bytes e =
    subst (λ l. length l ≤ size) (ap or_nothing e) (omega (arith, length-take size all))

counter-Documented : Documented counter
counter-Documented = record {
  read_bounds = λ size s bytes e. read-bounded size s.ahead s.taken s.handed bytes e;
  process_takes = λ handle buffer len type s fits.
      ap (λ l. record s { handed = s.handed ++ l }) (sym (take-take len buffer));
}

abbrev begun : Count
begun = record {
  ahead = some (7 ∷ 8 ∷ []) ∷ none ∷ some (replicate 2000 5) ∷ some (9 ∷ []) ∷ [];
  taken = [];
  handed = [];
}

abbrev handed_by : Option (Text × Count) → Option Text
handed_by none = none
handed_by (some (buffer, s)) = some s.handed

-- A short read, one that fails, and one that is cut to its size.
three_passes :
    handed_by (pass_loop counter 1 2 (replicate 1025 0, begun)) ≡ some (7 ∷ 8 ∷ replicate 1024 5)
unfolding pass_loop pass
three_passes = refl

-- A buffer of 1024 bytes has no room for the zero.
no_room : pass counter 1 1024 speech (replicate 1024 0, begun) ≡ none
unfolding pass
no_room = refl

-- The service with all that it asks for; its thread takes a turn behind every request.
abbrev ready : System
ready calls (access p) = true
ready calls (mkdir p) = none
ready calls (Call.create p) = pos 3
ready calls (write fd bytes) = pos (length bytes)
ready calls (close fd) = tt
ready calls (remove p) = plain true
ready calls (upload p) = tt
ready calls malloc_handle = true
ready calls (malloc_buffer n) = true

abbrev Served : Type 0
Served = World × List (Option Text)

-- The world behind a call, or the one before it where the call faults.
abbrev world_of : {A : Type 0} → World → Option (A × World) → World
world_of w none = w
world_of w (some (a, w')) = w'

abbrev requested : Option (Option ℤ × World) → Served → Served
requested none s = s
requested (some (r, w)) s = (world_of w (work ready w), s.1)

abbrev id_of : World → Option (Option ℕ × World) → ℕ × World
id_of w (some (some id, w')) = (id, w')
id_of w _ = (0, w)

abbrev noon : Tm
noon = record { tm_year = 126; tm_mon = 0; tm_mday = 2; tm_hour = 12; tm_min = 0; tm_sec = 0 }

abbrev read_of : Option Text × Count → World → Option Text × Served
read_of (answer, s) w = (answer, (w, s.ahead))

abbrev service : Env Served
service = record {
  open_input = λ s. (pos 3, s);
  read = λ size s. read_of (read size s.1 [] []) s.0;
  close_input = λ s. s;
  init = λ s. (world_of s.0 (init none (some (replicate 64 no_task)) s.0), s.1);
  un_init = λ s. (world_of s.0 (un_init s.0), s.1);
  speech_start = λ s. let (id, w) = id_of s.0 (speech_start ready noon s.0) in (id, (w, s.1));
  speech_process = λ handle buffer len type s.
      requested (speech_process ready handle (some buffer) (pos len) type s.0) s;
  speech_stop = λ handle completed s. (world_of s.0 (speech_stop ready handle completed s.0), s.1);
  usleep = λ time s. s;
}

service-Serving : Serving service ready
service-Serving = record {
  world = λ s. s.0;
  after = requested;
  calls = λ handle buffer len type s. refl;
}

service-Documented : Documented service
service-Documented =
    Serving-Documented ready service (λ size s bytes e. read-bounded size s.1 [] [] bytes e)
      service-Serving

abbrev first : Served
first = (
  record {
    thread_pool = none;
    destroyed = false;
    pre_name = 0;
    persistent_count = 0;
    sd_id = replicate 33 0;
    default_path = none;
    default_path_index = 0;
    blocks = [];
    calls = [];
  },
  begun.ahead,
)

main-sessions_example : main service first ≡ some (sessions_from service (pos 3, first))
main-sessions_example = main-sessions service service-Documented first

main-hands_on_example :
    (s' : Served) × (given : Text) × (main service first ≡ some s')
    × (main (watched service) (first, ([], [])) ≡ some (s', (given, given)))
main-hands_on_example = main-hands_on service service-Documented first
