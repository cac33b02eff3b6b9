-- ===== src/ThreadPool/Waiting/Tests.antt =====
-- Sleeping and waking in small pools of demo/SpeechPersistentDemo/threadpool.c.
use program_learning.Prelude.{◌≡◌, refl, false, arith, replicate}
use program_learning.ThreadPool.{Task, create, no_task, add_task, take_task, wake_up}
use program_learning.ThreadPool.Waiting.{
  Threads, created, caller_turn, signal, worker_turn, woken_turn, Turns, here, next, calls, adds,
  signals, takes,
}
use program_learning.ThreadPool.Waiting.Awake.{Turns-IsAwake}
use program_learning.ThreadPool.Waiting.Keeps.{IsAwake}
use program_learning.ThreadPool.Waiting.Reached.{new_pool, five, five-reached}
use program_learning.ThreadPool.Waiting.Stalled.{Overstaffed, Stalled, Overstaffed-Stalled}

abbrev task : Task
task = record { function = 1; arg = 2 }

-- A pool of one thread, which sleeps when a caller comes, and is woken.
abbrev fresh : Threads
fresh = created (create 1 1 2 (replicate 2 no_task))

abbrev slept : Threads
slept = worker_turn fresh

abbrev called : Threads
called = record slept { callers = 1 }

abbrev stored : Threads
stored = caller_turn task called

abbrev up : Threads
up = signal stored

to_up : Turns fresh up
unfolding create worker_turn caller_turn signal add_task take_task
to_up =
    next
      (next (next (next here (takes (omega arith) refl)) (calls refl))
        (adds task (omega arith) refl))
      (signals (omega arith) refl)

runs : up.pool.shutdown ≡ false
unfolding create worker_turn caller_turn signal add_task take_task
runs = refl

Turns-IsAwake_example : IsAwake up
Turns-IsAwake_example = Turns-IsAwake 1 2 (replicate 2 no_task) to_up runs

-- The thread takes the task, and a next round finds no other.
worked : ((woken_turn up).working ≡ 1) × ((woken_turn up).pool.queue_size ≡ 0) × (up.woken ≡ 1)
unfolding create worker_turn caller_turn signal woken_turn add_task take_task wake_up
worked = (refl, refl, refl)

five-Overstaffed : Overstaffed five
unfolding create
five-Overstaffed = record {
  runs = refl;
  empty = refl;
  room = omega arith;
  asked = omega arith;
  more = omega arith;
  sleep = omega arith;
  ready = refl;
  woken = refl;
  working = refl;
  owed = refl;
  caller = omega arith;
}

Overstaffed-Stalled_example :
    (t : Threads) × Turns new_pool t × Stalled t × (t.pool.shutdown ≡ false)
Overstaffed-Stalled_example = Overstaffed-Stalled new_pool five five-reached five-Overstaffed task
