-- ===== src/ThreadPool/System.antt =====
-- The threads of demo/SpeechPersistentDemo/threadpool.c in any order: the callers, the workers and the
-- manager take turns, and a turn is what one of them does under a lock.
use program_learning.Prelude.{ℕ, ◌+◌, ◌-◌, ◌≤◌, ◌<◌, ◌≡◌, Bool, true, List, [], ◌∷◌, ◌++◌}
use program_learning.ThreadPool.{
  Task, Pool, added, add_task, took, take_task, goes_on, ends, wake_up, start_threads, is_short,
  is_idle, ask_to_end, begin_work, end_work, shut_down,
}
use program_learning.ThreadPool.Queue.{IsValid, tasks}

-- The pool, the tasks that have been accepted and those that have been taken, in order, and the
-- numbers of workers that have a task and have not begun it, and of those that run one.
pub record System : Type 0 where
  pub pool : Pool
  pub accepted : List Task
  pub taken : List Task
  pub holding : ℕ
  pub running : ℕ

abbrev pub start : Pool → System
start pool = record { pool = pool; accepted = []; taken = []; holding = 0; running = 0 }

-- The values that the manager tests may be old, so they are any.
pub data Step : System → System → Type 0 where
  adds :
      {s : System} {p : Pool} (task : Task)
      → add_task s.pool task ≡ added p
      → Step s (record s { pool = p; accepted = s.accepted ++ (task ∷ []) })
  takes :
      {s : System} {p : Pool} (task : Task)
      → take_task s.pool ≡ took task p
      → Step s (record s { pool = p; taken = s.taken ++ (task ∷ []); holding = s.holding + 1 })
  wakes : {s : System} {p : Pool} → wake_up s.pool ≡ goes_on p → Step s (record s { pool = p })
  leaves : {s : System} {p : Pool} → wake_up s.pool ≡ ends p → Step s (record s { pool = p })
  starts :
      {s : System} (threads : List Bool) (queue_size live_thr_num : ℕ)
      → is_short s.pool queue_size live_thr_num ≡ true
      → Step s (record s { pool = start_threads threads 0 s.pool })
  asks :
      {s : System} (busy_thr_num live_thr_num : ℕ)
      → is_idle s.pool busy_thr_num live_thr_num ≡ true
      → Step s (record s { pool = ask_to_end s.pool })
  begins :
      {s : System}
      → 0 < s.holding
      → Step s
          (record s { pool = begin_work s.pool; holding = s.holding - 1; running = s.running + 1 })
  finishes :
      {s : System}
      → 0 < s.running
      → Step s (record s { pool = end_work s.pool; running = s.running - 1 })
  shuts : {s : System} → Step s (record s { pool = shut_down s.pool })

pub data Steps (s : System) : System → Type 0 where
  here : Steps s s
  then_ : {t u : System} → Steps s t → Step t u → Steps s u

-- What every turn keeps, for the minimum and the maximum of `threadpool_create`.
pub record Kept (min_thr_num max_thr_num : ℕ) (s : System) : Type 0 where
  pub valid : IsValid s.pool
  pub order : s.accepted ≡ s.taken ++ tasks s.pool
  pub least : s.pool.min_thr_num ≡ min_thr_num
  pub most : s.pool.max_thr_num ≡ max_thr_num
  pub at_least : min_thr_num ≤ s.pool.live_thr_num
  pub at_most : s.pool.live_thr_num ≤ max_thr_num
  pub busy : s.pool.busy_thr_num ≡ s.running
