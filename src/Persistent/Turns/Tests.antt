-- ===== src/Persistent/Turns/Tests.antt =====
-- Turns in a small session of demo/SpeechPersistentDemo/SpeechPersistent.c.
use program_learning.Prelude.{
  ◌≡◌, refl, subst, ◌<◌, inl, true, false, Option, some, none, List, [], ◌∷◌, arith, length,
  replicate,
}
use program_learning.Prelude.Int.{pos, negsuc}
use program_learning.Prelude.Text.{Text, codes}
use program_learning.Files.{plain}
use program_learning.ThreadPool.{Pool, no_task, add_task, take_task}
use program_learning.Persistent.{
  start, speech, asr, nlp, stop, text, Call, access, mkdir, write, close, remove, upload,
  malloc_handle, malloc_buffer, System, World,
}
use program_learning.Persistent.Names.{◌</>◌}
use program_learning.Persistent.Service.{framed, speech_process, work}
use program_learning.Persistent.Order.{rounds}
use program_learning.Persistent.Turns.{Turns, here, next, asks, works, IsOn, files}
use program_learning.Persistent.Turns.Works.{Stores}
use program_learning.Persistent.Turns.Log.{Short, Turns-log}

-- A system with memory for one request only.
abbrev scarce : System
scarce calls (access p) = true
scarce calls (mkdir p) = none
scarce calls (Call.create p) = pos 3
scarce calls (write fd bytes) = pos (length bytes)
scarce calls (close fd) = tt
scarce calls (remove p) = plain true
scarce calls (upload p) = tt
scarce [] malloc_handle = true
scarce (c ∷ calls) malloc_handle = false
scarce calls (malloc_buffer n) = true

scarce-Stores : Stores scarce
scarce-Stores = record { opens = λ calls path. (2, refl); writes = λ calls fd bytes. refl }

abbrev pool : Pool
pool = record {
  min_thr_num = 1;
  max_thr_num = 1;
  live_thr_num = 1;
  busy_thr_num = 0;
  wait_exit_thr_num = 0;
  task_queue = replicate 2 no_task;
  queue_front = 0;
  queue_rear = 0;
  queue_size = 0;
  queue_max_size = 2;
  shutdown = false;
}

abbrev world : World
world = record {
  thread_pool = some pool;
  destroyed = false;
  pre_name = 1;
  persistent_count = 0;
  sd_id = [];
  default_path = none;
  default_path_index = 0;
  blocks = text (codes "/d") ∷ text (codes "i") ∷ [];
  calls = [];
}

world-IsOn : IsOn scarce (codes "/d") (codes "i") 2 world []
world-IsOn = record {
  queued = record {
    pool = pool;
    has = refl;
    valid = record {
      memory = refl;
      front = omega arith;
      rear = omega arith;
      fits = omega arith;
      ring = inl refl;
    };
    runs = refl;
    holds = refl;
    waiting = tt;
  };
  runs = refl;
  at = refl;
  folder = refl;
  no_buffer = tt;
}

fits :
    (a file : Text)
    → some a ≡ some file
    → length a < 100
    → length (codes "/d" </> (codes "i" </> file)) < 256
fits a file e h =
    subst (λ f. length (codes "/d" </> (codes "i" </> f)) < 256) {x = a} (cc e) (omega arith)

short : Short (codes "/d") (codes "i")
short start file e = cc
short speech file e = fits (codes "input.pcm") file e (omega arith)
short asr file e = fits (codes "outputasr.json") file e (omega arith)
short nlp file e = fits (codes "output.json") file e (omega arith)
short stop file e = cc

abbrev after : {A : Type 0} → Option (A × World) → World
after none = world
after (some (a, w)) = w

-- One request is accepted, one is refused, and the thread writes the first.
abbrev one : World
one = after (speech_process scarce 2 (some (codes "abc")) (pos 2) nlp world)

abbrev two : World
two = after (speech_process scarce 2 (some (codes "x")) (pos 1) asr one)

abbrev three : World
three = after (work scarce two)

abbrev asked : List (Text × Text)
asked = (codes "/d/i/output.json", framed nlp (codes "ab")) ∷ []

turns : Turns scarce (codes "/d") (codes "i") 2 world asked three
unfolding speech_process work add_task take_task
turns =
    next
      (next
        (next here
          (asks nlp (codes "abc") 2 (codes "output.json") (pos 0) (omega arith) (omega arith)
            (omega arith) refl refl refl)
          refl)
        (asks asr (codes "x") 1 (codes "outputasr.json") (negsuc 0) (omega arith) (omega arith)
          (omega arith) refl refl refl)
        refl)
      (works true refl refl) refl

Turns-log_example :
    (p : Pool) × (three.thread_pool ≡ some p)
    × ((end : World) × (rounds scarce p.queue_size three ≡ some (tt, end))
        × (files scarce end.calls ≡ asked))
Turns-log_example =
    Turns-log scarce (codes "/d") (codes "i") 2 scarce-Stores short world [] world-IsOn turns
