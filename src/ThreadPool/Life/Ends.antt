-- ===== src/ThreadPool/Life/Ends.antt =====
-- How the allocation and the release of a pool of demo/SpeechPersistentDemo/threadpool.c end.
use program_learning.Prelude.{
  ℕ, ◌≡◌, Bool, true, false, Option, none, some, List, take, ◌≤◌, ◌<◌, ◌∷◌, ◌++◌, map, length,
  replicate,
}
use program_learning.Prelude.Int.{pos}
use program_learning.ThreadPool.Life.{
  block, Parts, Released, Answers, Act, shuts, joins_admin, broadcasts, joins, threadpool_destroy,
}

-- Everything that a pool needs is there.
abbrev pub complete : Parts
complete = record {
  threads = block;
  task_queue = block;
  lock = true;
  thread_counter = true;
  queue_not_empty = true;
  queue_not_full = true;
}

abbrev pub all_released : Released
all_released = record {
  queue_freed = true;
  threads_freed = true;
  locks_destroyed = true;
  pool_freed = true;
}

-- Whether everything is given.
abbrev pub AllGiven : Answers → Type 0
AllGiven a =
    (a.threads_memory ≡ true)
    × (a.queue_memory ≡ true)
    × (a.lock_made ≡ true)
    × (a.counter_made ≡ true)
    × (a.not_empty_made ≡ true)
    × (a.not_full_made ≡ true)

-- What is done to end the threads in the first places of the array.
abbrev pub ending : List ℕ → ℕ → List Act
ending threads live =
    shuts ∷ joins_admin ∷ (replicate live broadcasts ++ map joins (take live threads))

-- How `threadpool_create` ends.
abbrev pub Ends : Answers → Option (Option Parts) → Type 0
Ends a (some (some parts)) =
    (parts ≡ complete)
    × AllGiven a
    × ((threads : List ℕ) (live : ℕ)
        → (live ≤ length threads
            → threadpool_destroy (some parts) threads live
              ≡ some (pos 0, ending threads live, some all_released))
          × (length threads < live → threadpool_destroy (some parts) threads live ≡ none))
Ends a (some none) = a.pool_memory ≡ false
Ends a none = (a.pool_memory ≡ true) × (¬ AllGiven a)

abbrev answers : Bool → Bool → Bool → Bool → Bool → Bool → Bool → Answers
answers p t q l c e f = record {
  pool_memory = p;
  threads_memory = t;
  queue_memory = q;
  lock_made = l;
  counter_made = c;
  not_empty_made = e;
  not_full_made = f;
}
