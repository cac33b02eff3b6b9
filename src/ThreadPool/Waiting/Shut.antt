-- ===== src/ThreadPool/Waiting/Shut.antt =====
-- The turns of demo/SpeechPersistentDemo/threadpool.c after shutdown.
use program_learning.Prelude.{
  ℕ, ◌+◌, ◌-◌, ◌≡◌, refl, sym, ap, ◌∙◌, true, Bool, List, [], ◌∷◌, arith,
}
use program_learning.ThreadPool.{
  Task, Pool, add_task, take_task, start_threads, Waking, goes_on, ends, wake_up,
}
use program_learning.ThreadPool.Moves.{wake_up-keeps, wake_up-ends}
use program_learning.ThreadPool.Waiting.{
  Threads, test, worker_turn, after_waking, woken_turn, caller_turn, signal, manager_starts,
  manager_asks, Turn, calls, adds, signals, takes, wakes, finishes, worker_by_itself,
  caller_by_itself, starts, asks, shuts, broadcasts,
}

-- A pool that is shut down stays so.
start_threads-shutdown :
    (threads : List Bool) (add : ℕ) (pool : Pool)
    → (start_threads threads add pool).shutdown ≡ pool.shutdown
unfolding start_threads
start_threads-shutdown [] add pool = refl
start_threads-shutdown (free ∷ threads) add pool = ground (
  arith,
  start_threads-shutdown threads (add + 1) (record pool { live_thr_num = pool.live_thr_num + 1 }),
  start_threads-shutdown threads add pool,
)

test-shutdown : (s : Threads) → s.pool.shutdown ≡ true → (test s).pool.shutdown ≡ true
unfolding take_task
test-shutdown s shut = ground (arith, shut)

caller_turn-shutdown :
    (task : Task) (s : Threads) → s.pool.shutdown ≡ true → (caller_turn task s).pool.shutdown ≡ true
unfolding caller_turn add_task
caller_turn-shutdown task s shut = ground (arith, shut)

signal-shutdown : (s : Threads) → (signal s).pool.shutdown ≡ s.pool.shutdown
unfolding signal
signal-shutdown s = ground arith

after_waking-shutdown :
    (s : Threads) (w : Waking)
    → s.pool.shutdown ≡ true
    → wake_up s.pool ≡ w
    → (after_waking (record s { woken = s.woken - 1 }) w).pool.shutdown ≡ true
after_waking-shutdown s (ends p) shut e =
    ap (λ q. q.shutdown) (sym (wake_up-ends s.pool p e).1) ∙ shut
after_waking-shutdown s (goes_on p) shut e =
    test-shutdown (record s { woken = s.woken - 1; pool = p })
      (ap (λ q. q.shutdown) (sym (wake_up-keeps s.pool p e).1) ∙ shut)

pub Turn-shutdown :
    (s : Threads) {t : Threads} → Turn s t → s.pool.shutdown ≡ true → t.pool.shutdown ≡ true
unfolding worker_turn woken_turn manager_starts manager_asks
Turn-shutdown s turn shut = elim turn [
  | calls e ↦ ap (λ t. t.pool.shutdown) e ∙ shut
  | adds task some e ↦ ap (λ t. t.pool.shutdown) e ∙ caller_turn-shutdown task s shut
  | signals some e ↦ ap (λ t. t.pool.shutdown) e ∙ (signal-shutdown s ∙ shut)
  | takes some e ↦
      ap (λ t. t.pool.shutdown) e ∙ test-shutdown (record s { ready = s.ready - 1 }) shut
  | wakes some e ↦ ap (λ t. t.pool.shutdown) e ∙ after_waking-shutdown s (wake_up s.pool) shut refl
  | finishes some e ↦ ap (λ t. t.pool.shutdown) e ∙ shut
  | worker_by_itself some e ↦ ap (λ t. t.pool.shutdown) e ∙ shut
  | caller_by_itself some e ↦ ap (λ t. t.pool.shutdown) e ∙ shut
  | starts threads queue_size live short e ↦
      ap (λ t. t.pool.shutdown) e ∙ (start_threads-shutdown threads 0 s.pool ∙ shut)
  | asks busy live idle e ↦ ap (λ t. t.pool.shutdown) e ∙ shut
  | shuts e ↦ ap (λ t. t.pool.shutdown) e
  | broadcasts shut' e ↦ ap (λ t. t.pool.shutdown) e ∙ shut
]
