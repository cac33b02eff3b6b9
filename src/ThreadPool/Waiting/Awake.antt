-- ===== src/ThreadPool/Waiting/Awake.antt =====
-- No wake-up is lost in demo/SpeechPersistentDemo/threadpool.c where the number of threads is fixed.
use program_learning.Prelude.{ℕ, ◌≡◌, refl, sym, ◌∙◌, inl, inr, false, List, arith, Bool-cases}
use program_learning.ThreadPool.{Task, create}
use program_learning.ThreadPool.Waiting.{Threads, created, Turns, here, next}
use program_learning.ThreadPool.Waiting.Keeps.{IsAwake, Turn-IsAwake}
use program_learning.ThreadPool.Waiting.Shut.{Turn-shutdown}

-- A new pool whose minimum of threads is its maximum, as that of SpeechPersistent.c is. Whatever turns
-- the callers, the workers and the manager take, with waits that end by themselves too: while the
-- pool is not shut down, the number of threads is the minimum, and each of them sleeps, is up or has
-- a task. If a worker sleeps, then for each task that waits a worker is up or a signal is to come,
-- so no wake-up is lost; and if a caller sleeps the queue is full.
pub Turns-IsAwake :
    (n size : ℕ) (memory : List Task) {s : Threads}
    → Turns (created (create n n size memory)) s
    → s.pool.shutdown ≡ false
    → IsAwake s
unfolding create
Turns-IsAwake n size memory here going = record {
  least = refl;
  most = refl;
  all = omega arith;
  fits = omega arith;
  not_lost = λ up. omega arith;
  full = λ up. absurd (omega (arith, up));
}
Turns-IsAwake n size memory (next {t = t} before turn) going = elim (Bool-cases t.pool.shutdown) [
  | inl shut ↦ cc (sym going ∙ Turn-shutdown t turn shut)
  | inr runs ↦ Turn-IsAwake t runs (Turns-IsAwake n size memory before runs) turn going
]
