-- ===== src/ThreadPool/Waiting/Stalled.antt =====
-- How a wake-up is lost in demo/SpeechPersistentDemo/threadpool.c where the number of threads is not fixed.
use program_learning.Prelude.{◌+◌, ◌-◌, ◌<◌, ◌≡◌, refl, sym, ap, ◌∙◌, false, arith}
use program_learning.ThreadPool.{Task, Pool, store_task, ends, wake_up}
use program_learning.ThreadPool.Moves.{add_task-added}
use program_learning.ThreadPool.Waiting.{
  Threads, caller_turn, after_adding, signal, woken_turn, after_waking, Turns, next, adds, signals,
  wakes,
}

-- The workers sleep, more of them than the minimum and two at least; the queue is empty, threads are
-- asked to end, and a caller comes.
pub record Overstaffed (s : Threads) : Type 0 where
  pub runs : s.pool.shutdown ≡ false
  pub empty : s.pool.queue_size ≡ 0
  pub room : 0 < s.pool.queue_max_size
  pub asked : 0 < s.pool.wait_exit_thr_num
  pub more : s.pool.min_thr_num < s.pool.live_thr_num
  pub sleep : 1 < s.asleep
  pub ready : s.ready ≡ 0
  pub woken : s.woken ≡ 0
  pub working : s.working ≡ 0
  pub owed : s.owed ≡ 0
  pub caller : 0 < s.callers

-- A task waits, the workers sleep, and no signal is to come.
pub record Stalled (s : Threads) : Type 0 where
  pub waits : 0 < s.pool.queue_size
  pub sleep : 0 < s.asleep
  pub ready : s.ready ≡ 0
  pub woken : s.woken ≡ 0
  pub working : s.working ≡ 0
  pub owed : s.owed ≡ 0

ending :
    (pool : Pool)
    → 0 < pool.wait_exit_thr_num
    → pool.min_thr_num < pool.live_thr_num
    → (p : Pool) × (wake_up pool ≡ ends p)
      × (p.queue_size ≡ pool.queue_size)
      × (p.shutdown ≡ pool.shutdown)
unfolding wake_up
ending pool asked more = (
  record pool {
    wait_exit_thr_num = pool.wait_exit_thr_num - 1;
    live_thr_num = pool.live_thr_num - 1;
  },
  ground (arith, asked, more),
  refl,
  refl,
)

module _ (first s : Threads) (reached : Turns first s) (o : Overstaffed s) (task : Task) where
  abbrev stored : Threads
  stored = record s { pool = store_task s.pool task; callers = s.callers - 1; owed = s.owed + 1 }

  abbrev signalled : Threads
  signalled = record stored { owed = s.owed + 1 - 1; asleep = s.asleep - 1; woken = s.woken + 1 }

  stores : caller_turn task s ≡ stored
  unfolding caller_turn
  stores =
      ap (after_adding (record s { callers = s.callers - 1 }))
        (add_task-added s.pool task (ground (arith, o.empty, o.room)) o.runs)

  wakes_one : signal stored ≡ signalled
  unfolding signal
  wakes_one = ground (arith, o.sleep)

  -- A pool that is not shut down has gone from `first` to a state in which its queue is empty, with
  -- room; at least two workers sleep, and none is at the lock, woken or at a task; more of them live
  -- than the minimum, some are still asked to end, no signal is to come, and a caller is at the lock.
  -- Then it can go on from `first` to one in which a task waits and workers sleep, none is up, and no
  -- signal is to come, though the pool is not shut down: the caller's signal wakes a worker that ends.
  pub Overstaffed-Stalled : (t : Threads) × Turns first t × Stalled t × (t.pool.shutdown ≡ false)
  unfolding woken_turn
  Overstaffed-Stalled =
      let (p, e, same, still) = ending (store_task s.pool task) o.asked o.more in
      (
        record signalled { pool = p; woken = s.woken + 1 - 1 },
        next
            (next (next reached (adds task o.caller (sym stores)))
              (signals (omega arith) (sym wakes_one)))
            (wakes (omega arith)
              (sym (ap (after_waking (record signalled { woken = s.woken + 1 - 1 })) e))),
        record {
          waits = omega (arith, same);
          sleep = omega (arith, o.sleep);
          ready = o.ready;
          woken = omega (arith, o.woken);
          working = o.working;
          owed = omega (arith, o.owed);
        },
        still ∙ o.runs,
      )
