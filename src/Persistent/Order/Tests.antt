-- ===== src/Persistent/Order/Tests.antt =====
-- A request of demo/SpeechPersistentDemo/SpeechPersistent.c in a small queue.
use program_learning.Prelude.{
  ◌≡◌, refl, inl, true, false, some, none, [], ◌∷◌, arith, replicate, length,
}
use program_learning.Prelude.Int.{pos}
use program_learning.Prelude.Text.{codes}
use program_learning.Files.{plain}
use program_learning.ThreadPool.{Pool, no_task}
use program_learning.ThreadPool.Queue.{IsValid}
use program_learning.Persistent.{
  PersistentHandle, asr, nlp, text, handle, Call, access, mkdir, write, close, remove, upload,
  malloc_handle, malloc_buffer, System, World,
}
use program_learning.Persistent.Service.{process_function, speech_process}
use program_learning.Persistent.Session.{Job, Queued, all_served}
use program_learning.Persistent.Joining.{job_of}
use program_learning.Persistent.Order.{rounds, rounds-serve, speech_process-joins}

abbrev calm : System
calm calls (access p) = true
calm calls (mkdir p) = none
calm calls (Call.create p) = pos 3
calm calls (write fd bytes) = pos (length bytes)
calm calls (close fd) = tt
calm calls (remove p) = plain true
calm calls (upload p) = tt
calm calls malloc_handle = true
calm calls (malloc_buffer n) = true

-- A queue of four places with one task.
abbrev pool : Pool
pool = record {
  min_thr_num = 1;
  max_thr_num = 1;
  live_thr_num = 1;
  busy_thr_num = 0;
  wait_exit_thr_num = 0;
  task_queue = record { function = process_function; arg = 4 } ∷ replicate 3 no_task;
  queue_front = 0;
  queue_rear = 1;
  queue_size = 1;
  queue_max_size = 4;
  shutdown = false;
}

abbrev asr_handle : PersistentHandle
asr_handle = record { id = 2; type = asr; buf = 3; len = 2; completed = true }

abbrev world : World
world = record {
  thread_pool = some pool;
  destroyed = false;
  pre_name = 1;
  persistent_count = 0;
  sd_id = [];
  default_path = none;
  default_path_index = 0;
  blocks = text (codes "/d") ∷ text (codes "i") ∷ text (codes "{}") ∷ handle asr_handle ∷ [];
  calls = [];
}

abbrev job : Job
job = record {
  address = 4;
  at = asr_handle;
  id = codes "i";
  bytes = codes "{}";
  file = codes "outputasr.json";
}

pool-IsValid : IsValid pool
pool-IsValid = record {
  memory = refl;
  front = omega arith;
  rear = omega arith;
  fits = omega arith;
  ring = inl refl;
}

abbrev world_queued : Queued world (codes "/d") (job ∷ [])
world_queued = record {
  pool = pool;
  has = refl;
  valid = pool-IsValid;
  runs = refl;
  holds = refl;
  waiting = (
    record {
      request = record { at = refl; folder = refl; named = refl; buffer = refl; whole = refl };
      has_file = refl;
      fits = omega arith;
      own = λ e. absurd (omega arith);
    },
    tt,
    tt,
  );
}

served_runs :
    all_served calm (codes "/d") (job ∷ []) []
    ≡ close 3 ∷ write 3 (codes "{}") ∷ Call.create (codes "/d/i/outputasr.json") ∷ []
served_runs = refl

rounds-serve_example :
    (w' : World) × (rounds calm 1 world ≡ some (tt, w'))
    × Queued w' (codes "/d") []
    × (w'.calls ≡ all_served calm (codes "/d") (job ∷ []) [])
rounds-serve_example = rounds-serve calm (codes "/d") (job ∷ []) world world_queued

one_more_joins :
    (w' : World) × (speech_process calm 2 (some (codes "abc")) (pos 2) nlp world
      ≡ some (some (pos 0), w'))
    × Queued w'
        (codes "/d")
        (job ∷ job_of world 2 nlp (codes "ab") (codes "i") (codes "output.json") ∷ [])
one_more_joins =
    speech_process-joins calm (codes "/d") (job ∷ []) world world_queued 2 nlp (codes "abc") 2
      (codes "i") (codes "output.json") (λ e. absurd (omega arith)) (omega arith) (omega arith)
      (omega arith) refl refl refl refl refl refl (omega arith) ((λ e. absurd (omega arith)), tt)
      (omega arith)
