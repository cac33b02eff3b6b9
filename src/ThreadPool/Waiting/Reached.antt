-- ===== src/ThreadPool/Waiting/Reached.antt =====
-- Turns that take a new pool of demo/SpeechPersistentDemo/threadpool.c, with a minimum of one thread, to
-- a state in which a wake-up can be lost. A list of moves is run, each with its guard.
use program_learning.Prelude.{
  ◌+◌, ◌-◌, ◌≡◌, refl, sym, ◌∙◌, Bool, true, false, inl, inr, Option, none, some, List, [], ◌∷◌,
  ◌++◌, ltb, ltb→lt, if◌then◌else◌, ◌>>=◌, replicate, Option-cases, ap, subst, ℕ, zero, suc,
}
use program_learning.ThreadPool.{
  Task, no_task, create, add_task, take_task, wake_up, start_threads, is_short, is_idle,
}
use program_learning.ThreadPool.Waiting.{
  Threads, created, caller_turn, signal, worker_turn, woken_turn, manager_starts, manager_asks,
  Turn, calls, adds, signals, takes, wakes, finishes, starts, asks, Turns, here, next,
}

data Move : Type 0 where
  call add send take wake finish start ask : Move

abbrev task : Task
task = record { function = 1; arg = 2 }

-- The places of the array of threads but the first are free.
abbrev places : List Bool
places = false ∷ replicate 11 true

abbrev only_if : Bool → Threads → Option Threads
only_if b t = if b then some t else none

-- The manager goes by the values of the moment.
abbrev step : Move → Threads → Option Threads
step call s = some (record s { callers = s.callers + 1 })
step add s = only_if (ltb 0 s.callers) (caller_turn task s)
step send s = only_if (ltb 0 s.owed) (signal s)
step take s = only_if (ltb 0 s.ready) (worker_turn s)
step wake s = only_if (ltb 0 s.woken) (woken_turn s)
step finish s =
    only_if (ltb 0 s.working) (record s { working = s.working - 1; ready = s.ready + 1 })
step start s =
    only_if (is_short s.pool s.pool.queue_size s.pool.live_thr_num) (manager_starts places s)
step ask s = only_if (is_idle s.pool s.working s.pool.live_thr_num) (manager_asks s)

abbrev run : List Move → Threads → Option Threads
run [] s = some s
run (m ∷ ms) s = step m s >>= λ t. run ms t

holds : (b : Bool) (x t : Threads) → only_if b x ≡ some t → (b ≡ true) × (t ≡ x)
holds true x t e = (refl, cc e)
holds false x t e = cc e

step-Turn : (m : Move) (s t : Threads) → step m s ≡ some t → Turn s t
step-Turn call s t e = calls (cc e)
step-Turn add s t e =
    let (b, same) = holds (ltb 0 s.callers) _ t e in adds task (ltb→lt 0 s.callers b) same
step-Turn send s t e =
    let (b, same) = holds (ltb 0 s.owed) _ t e in signals (ltb→lt 0 s.owed b) same
step-Turn take s t e =
    let (b, same) = holds (ltb 0 s.ready) _ t e in takes (ltb→lt 0 s.ready b) same
step-Turn wake s t e =
    let (b, same) = holds (ltb 0 s.woken) _ t e in wakes (ltb→lt 0 s.woken b) same
step-Turn finish s t e =
    let (b, same) = holds (ltb 0 s.working) _ t e in finishes (ltb→lt 0 s.working b) same
step-Turn start s t e =
    let (b, same) = holds (is_short s.pool s.pool.queue_size s.pool.live_thr_num) _ t e in
    starts places s.pool.queue_size s.pool.live_thr_num b same
step-Turn ask s t e =
    let (b, same) = holds (is_idle s.pool s.working s.pool.live_thr_num) _ t e in
    asks s.working s.pool.live_thr_num b same

run-Turns :
    (ms : List Move) (first s t : Threads) → Turns first s → run ms s ≡ some t → Turns first t
run-Turns [] first s t before e = subst (Turns first) (cc e) before
run-Turns (m ∷ ms) first s t before e = elim (Option-cases (step m s)) [
  | inl failed ↦ cc (sym e ∙ ap (λ o. o >>= λ u. run ms u) failed)
  | inr (u, done) ↦
      run-Turns ms first u t (next before (step-Turn m s u done))
        (sym (ap (λ o. o >>= λ v. run ms v) done) ∙ e)
]

abbrev times : ℕ → List Move → List Move
times zero ms = []
times (suc k) ms = ms ++ times k ms

-- Ten tasks, for which ten threads are started; five threads are still at work when ten of the others
-- are asked to end. Six of them sleep and end, and then those five go to sleep.
abbrev moves : List Move
moves =
    times 10 (call ∷ add ∷ send ∷ [])
    ++ (start
        ∷ (times 11 (take ∷ [])
            ++ (times 5 (finish ∷ take ∷ [])
                ++ (ask
                    ∷ (times 10 (send ∷ [])
                        ++ (times 6 (wake ∷ [])
                            ++ (times 5 (finish ∷ take ∷ []) ++ (call ∷ []))))))))

abbrev pub new_pool : Threads
new_pool = created (create 1 12 20 (replicate 20 no_task))

-- Five threads that sleep, with one as the minimum, and four still asked to end.
abbrev pub five : Threads
five = record {
  pool = record (create 1 12 20 (replicate 10 task ++ replicate 10 no_task)) {
    live_thr_num = 5;
    wait_exit_thr_num = 4;
    queue_front = 10;
    queue_rear = 10;
  };
  ready = 0;
  asleep = 5;
  woken = 0;
  working = 0;
  callers = 1;
  blocked = 0;
  owed = 0;
}

pub five-reached : Turns new_pool five
unfolding create caller_turn add_task signal worker_turn take_task manager_starts start_threads
    manager_asks woken_turn wake_up
five-reached = run-Turns moves new_pool new_pool five here refl
