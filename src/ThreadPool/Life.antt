-- ===== src/ThreadPool/Life.antt =====
-- How demo/SpeechPersistentDemo/threadpool.c allocates and releases a pool. A pointer of the pool that
-- is being made may not have been set yet; a use of it, and of a lock or a condition that was not
-- initialised, is `none`.
pub mod Ends
use program_learning.Prelude.{
  ℕ, ◌≡◌, refl, Bool, true, false, not, ◌&&◌, Option, none, some, List, [], ◌==◌, if◌then◌else◌,
  ◌>>=◌, require, take, zero, suc, ◌+◌, ◌≤◌, ◌<◌, ◌∷◌, ◌++◌, map, length, drop, replicate,
  get_elem?, ltb, ltb→lt, Bool-cases, inl, inr, arith,
}
use program_learning.Prelude.Int.{ℤ, pos, negsuc}

-- A pointer to a block of the pool.
pub data Pointer : Type 0 where
  unset : Pointer
  null : Pointer
  block : Pointer

-- The parts of a pool: its two arrays, and which of `lock`, `thread_counter`, `queue_not_empty` and
-- `queue_not_full` are initialised.
pub record Parts : Type 0 where
  pub threads : Pointer
  pub task_queue : Pointer
  pub lock : Bool
  pub thread_counter : Bool
  pub queue_not_empty : Bool
  pub queue_not_full : Bool

-- What `threadpool_free` releases.
pub record Released : Type 0 where
  pub queue_freed : Bool
  pub threads_freed : Bool
  pub locks_destroyed : Bool
  pub pool_freed : Bool

-- `if (pool->task_queue) free(pool->task_queue)`
abbrev pub is_set : Pointer → Option Bool
is_set unset = none
is_set null = some false
is_set block = some true

-- The locks and conditions are destroyed with the array of threads.
abbrev pub destroy_locks : Parts → Bool → Option Bool
destroy_locks parts false = some false
destroy_locks parts true =
    require (parts.lock && parts.thread_counter && parts.queue_not_empty && parts.queue_not_full)
    >>= λ u. some true

-- `threadpool_free`: what it returns, and what it releases.
pub threadpool_free : Option Parts → Option (ℤ × Option Released)
threadpool_free none = some (negsuc 0, none)
threadpool_free (some parts) = is_set parts.task_queue >>= λ queue.
    is_set parts.threads >>= λ threads. destroy_locks parts threads >>= λ locks. some (
      pos 0,
      some (record {
        queue_freed = queue;
        threads_freed = threads;
        locks_destroyed = locks;
        pool_freed = true;
      }),
    )

-- What the system answers `threadpool_create`.
pub record Answers : Type 0 where
  pub pool_memory : Bool
  pub threads_memory : Bool
  pub queue_memory : Bool
  pub lock_made : Bool
  pub counter_made : Bool
  pub not_empty_made : Bool
  pub not_full_made : Bool

-- After the first `malloc`.
abbrev pub raw : Parts
raw = record {
  threads = unset;
  task_queue = unset;
  lock = false;
  thread_counter = false;
  queue_not_empty = false;
  queue_not_full = false;
}

-- `break`, then `threadpool_free`; the result is NULL.
abbrev pub give_up : Option Parts → Option (Option Parts)
give_up parts = threadpool_free parts >>= λ r. some none

-- `||` of the four initialisations, which stops at the first that fails.
abbrev pub initialise : Answers → Parts → Parts
initialise a parts = record parts {
  lock = a.lock_made;
  thread_counter = a.lock_made && a.counter_made;
  queue_not_empty = a.lock_made && (a.counter_made && a.not_empty_made);
  queue_not_full = a.lock_made && (a.counter_made && (a.not_empty_made && a.not_full_made));
}

-- `threadpool_create` but for the numbers and the threads, which start at its end.
pub create_parts : Answers → Option (Option Parts)
unfolding threadpool_free
create_parts a =
    if a.pool_memory
    then if a.threads_memory
      then if a.queue_memory
        then (let parts = initialise a (record raw { threads = block; task_queue = block }) in
            if parts.queue_not_full then some (some parts) else give_up (some parts))
        else give_up (some (record raw { threads = block; task_queue = null }))
      else give_up (some (record raw { threads = null }))
    else give_up none

-- What `threadpool_destroy` does before it releases the pool. `pthread_join` returns.
pub data Act : Type 0 where
  shuts joins_admin broadcasts : Act
  joins : ℕ → Act

-- `for (i=0; i<pool->live_thr_num; i++) pthread_join(pool->threads[i], NULL)` from round `i` on, with so
-- many rounds to go; `none` is a read behind the array.
abbrev pub join_threads : List ℕ → ℕ → ℕ → Option (List Act)
join_threads threads i zero = some []
join_threads threads i (suc rounds) =
    let rest = join_threads threads (suc i) rounds in
    get_elem? threads i >>= λ tid. rest >>= λ acts. some (joins tid ∷ acts)

-- `threadpool_destroy` on a pool with this array of threads, of which so many live all the time.
unfoldable pub threadpool_destroy :
    Option Parts → List ℕ → ℕ → Option (ℤ × List Act × Option Released)
unfolding threadpool_free
threadpool_destroy none threads live_thr_num = some (negsuc 0, [], none)
threadpool_destroy (some parts) threads live_thr_num =
    join_threads threads 0 live_thr_num >>= λ joined.
    threadpool_free (some parts) >>= λ (ret, released).
    some (pos 0, shuts ∷ joins_admin ∷ (replicate live_thr_num broadcasts ++ joined), released)

-- `ESRCH`
abbrev pub esrch : ℕ
esrch = 3

-- `is_thread_alive`, for what `pthread_kill` answers.
unfoldable pub is_thread_alive : ℕ → Bool
is_thread_alive kill_rc = not (kill_rc == esrch)
