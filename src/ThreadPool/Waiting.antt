-- ===== src/ThreadPool/Waiting.antt =====
-- The condition variables of demo/SpeechPersistentDemo/threadpool.c: who sleeps on `queue_not_empty` and
-- `queue_not_full`, who is woken, and which signals are still to come. A turn is what one thread does
-- from taking `pool->lock` to giving it back; a signal comes after that, and a wait may end by itself.
mod Keeps
mod Shut
mod Reached
pub mod Awake
pub mod Stalled
mod Tests
use program_learning.Prelude.{ℕ, ◌+◌, ◌-◌, ◌≡◌, ◌<◌, true, false, Bool, List, ◌==◌, if◌then◌else◌}
use program_learning.ThreadPool.{
  Task, Pool, Adding, blocks, refused, added, add_task, Taking, waits, exits, took, take_task,
  Waking, goes_on, ends, wake_up, start_threads, is_short, is_idle, ask_to_end, default_thread_num,
  shut_down,
}

-- The pool, and how many threads are where: workers before the lock, asleep on `queue_not_empty`, woken
-- from it, and with a task; callers of `threadpool_add_task` before the lock, and asleep on
-- `queue_not_full`; and the signals of `queue_not_empty` that are still to come.
pub record Threads : Type 0 where
  pub pool : Pool
  pub ready : ℕ
  pub asleep : ℕ
  pub woken : ℕ
  pub working : ℕ
  pub callers : ℕ
  pub blocked : ℕ
  pub owed : ℕ

-- After `threadpool_create`.
abbrev pub created : Pool → Threads
created pool = record {
  pool = pool;
  ready = pool.live_thr_num;
  asleep = 0;
  woken = 0;
  working = 0;
  callers = 0;
  blocked = 0;
  owed = 0;
}

-- `threadpool_thread` from the test of its inner loop on: it sleeps, ends, or takes a task, and then all
-- callers are woken.
abbrev pub after_test : Threads → Taking → Threads
after_test s waits = record s { asleep = s.asleep + 1 }
after_test s exits = s
after_test s (took task pool) = record s {
  pool = pool;
  working = s.working + 1;
  callers = s.callers + s.blocked;
  blocked = 0;
}

abbrev pub test : Threads → Threads
test s = after_test s (take_task s.pool)

-- A worker at the lock.
pub worker_turn : Threads → Threads
worker_turn s = test (record s { ready = s.ready - 1 })

-- A worker whose wait is over: it may end, and else it tests again.
abbrev pub after_waking : Threads → Waking → Threads
after_waking s (ends pool) = record s { pool = pool }
after_waking s (goes_on pool) = test (record s { pool = pool })

pub woken_turn : Threads → Threads
woken_turn s = after_waking (record s { woken = s.woken - 1 }) (wake_up s.pool)

-- A caller of `threadpool_add_task` at the lock. When the task is stored the signal is still to come.
abbrev pub after_adding : Threads → Adding → Threads
after_adding s blocks = record s { blocked = s.blocked + 1 }
after_adding s refused = s
after_adding s (added pool) = record s { pool = pool; owed = s.owed + 1 }

pub caller_turn : Task → Threads → Threads
caller_turn task s = after_adding (record s { callers = s.callers - 1 }) (add_task s.pool task)

-- `pthread_cond_signal(&(pool->queue_not_empty))`: one that sleeps is woken, if there is one.
pub signal : Threads → Threads
signal s =
    if s.asleep == 0
    then record s { owed = s.owed - 1 }
    else record s { owed = s.owed - 1; asleep = s.asleep - 1; woken = s.woken + 1 }

-- The two parts of `admin_thread`.
pub manager_starts : List Bool → Threads → Threads
manager_starts threads s =
    let pool = start_threads threads 0 s.pool in
    record s { pool = pool; ready = s.ready + (pool.live_thr_num - s.pool.live_thr_num) }

pub manager_asks : Threads → Threads
manager_asks s = record s { pool = ask_to_end s.pool; owed = s.owed + default_thread_num }

-- The turns of all of them. The last two are the first line of `threadpool_destroy`, and its broadcasts.
pub data Turn (s t : Threads) : Type 0 where
  calls : t ≡ record s { callers = s.callers + 1 } → Turn s t
  adds : (task : Task) → 0 < s.callers → t ≡ caller_turn task s → Turn s t
  signals : 0 < s.owed → t ≡ signal s → Turn s t
  takes : 0 < s.ready → t ≡ worker_turn s → Turn s t
  wakes : 0 < s.woken → t ≡ woken_turn s → Turn s t
  finishes :
      0 < s.working → t ≡ record s { working = s.working - 1; ready = s.ready + 1 } → Turn s t
  worker_by_itself :
      0 < s.asleep → t ≡ record s { asleep = s.asleep - 1; woken = s.woken + 1 } → Turn s t
  caller_by_itself :
      0 < s.blocked → t ≡ record s { blocked = s.blocked - 1; callers = s.callers + 1 } → Turn s t
  starts :
      (threads : List Bool) (queue_size live_thr_num : ℕ)
      → is_short s.pool queue_size live_thr_num ≡ true
      → t ≡ manager_starts threads s
      → Turn s t
  asks :
      (busy_thr_num live_thr_num : ℕ)
      → is_idle s.pool busy_thr_num live_thr_num ≡ true
      → t ≡ manager_asks s
      → Turn s t
  shuts : t ≡ record s { pool = shut_down s.pool } → Turn s t
  broadcasts :
      s.pool.shutdown ≡ true → t ≡ record s { asleep = 0; woken = s.woken + s.asleep } → Turn s t

pub data Turns (s : Threads) : Threads → Type 0 where
  here : Turns s s
  next : {t u : Threads} → Turns s t → Turn t u → Turns s u
