-- ===== src/ThreadPool/Moves.antt =====
-- What a turn of a thread of demo/SpeechPersistentDemo/threadpool.c does to the pool, from its result.
use program_learning.Prelude.{
  ℕ, ◌+◌, ◌-◌, ◌≤◌, ◌<◌, ◌≡◌, refl, sym, ap, ◌∙◌, inl, inr, Bool, false, ◌&&◌, List, [], ◌∷◌, arith,
  ltb, ◌==◌, Bool-cases, get_or,
}
use program_learning.ThreadPool.{
  Task, Pool, no_task, Adding, blocks, refused, added, add_task, Taking, waits, exits, took,
  take_task, store_task, drop_task, Waking, goes_on, ends, wake_up, start_threads,
}
use program_learning.ThreadPool.Queue.{IsValid}

abbrev pool_in : Pool → Adding → Pool
pool_in p (added q) = q
pool_in p blocks = p
pool_in p refused = p

abbrev task_in : Task → Taking → Task
task_in t (took u q) = u
task_in t waits = t
task_in t exits = t

abbrev left_in : Pool → Taking → Pool
left_in p (took u q) = q
left_in p waits = p
left_in p exits = p

abbrev going_in : Pool → Waking → Pool
going_in p (goes_on q) = q
going_in p (ends q) = q

pub add_task-added :
    (pool : Pool) (task : Task)
    → (pool.queue_size == pool.queue_max_size) ≡ false
    → pool.shutdown ≡ false
    → add_task pool task ≡ added (store_task pool task)
unfolding add_task
add_task-added pool task room runs = rw (room, runs)

-- Where a task is stored, there was room, and the pool is the stored one.
pub add_task-stores :
    (pool : Pool) (task : Task) (p : Pool)
    → IsValid pool
    → add_task pool task ≡ added p
    → (pool.queue_size < pool.queue_max_size) × (store_task pool task ≡ p)
unfolding add_task
add_task-stores pool task p v e = elim (Bool-cases (pool.queue_size == pool.queue_max_size)) [
  | inl full ↦ elim (Bool-cases pool.shutdown) [
    | inl shut ↦ absurd (ground (arith, e, full, shut))
    | inr runs ↦ absurd (ground (arith, e, full, runs))
  ]
  | inr room ↦ elim (Bool-cases pool.shutdown) [
    | inl shut ↦ absurd (ground (arith, e, room, shut))
    | inr runs ↦ (
      ground (arith, room, v.fits),
      ap (pool_in p) (sym (add_task-added pool task room runs) ∙ e),
    )
  ]
]

-- Where a task is taken, there was one, at the front.
pub take_task-drops :
    (pool : Pool) (task : Task) (p : Pool)
    → take_task pool ≡ took task p
    → (0 < pool.queue_size)
      × (get_or pool.task_queue pool.queue_front no_task ≡ task)
      × (drop_task pool ≡ p)
unfolding take_task
take_task-drops pool task p e = elim (Bool-cases (pool.queue_size == 0)) [
  | inl none_left ↦ elim (Bool-cases pool.shutdown) [
    | inl shut ↦ absurd (ground (arith, e, none_left, shut))
    | inr runs ↦ absurd (ground (arith, e, none_left, runs))
  ]
  | inr some_left ↦ elim (Bool-cases pool.shutdown) [
    | inl shut ↦ absurd (ground (arith, e, some_left, shut))
    | inr runs ↦ (
      ground (arith, some_left),
      ap (task_in task) (sym (dropped some_left runs) ∙ e),
      ap (left_in p) (sym (dropped some_left runs) ∙ e),
    )
  ]
]
  where
    dropped :
        (pool.queue_size == 0) ≡ false
        → pool.shutdown ≡ false
        → take_task pool ≡ took (get_or pool.task_queue pool.queue_front no_task) (drop_task pool)
    dropped some_left runs = rw (some_left, runs)

-- The loop of the manager changes the number of threads only, and not beyond the maximum.
pub start_threads-live :
    (threads : List Bool) (add : ℕ) (pool : Pool)
    → pool.live_thr_num ≤ pool.max_thr_num
    → (n : ℕ) × (start_threads threads add pool ≡ record pool { live_thr_num = n })
      × (pool.live_thr_num ≤ n)
      × (n ≤ pool.max_thr_num)
unfolding start_threads
start_threads-live [] add pool h = (pool.live_thr_num, refl, omega arith, h)
start_threads-live (free ∷ threads) add pool h =
    elim (Bool-cases (ltb add 10 && ltb pool.live_thr_num pool.max_thr_num)) [
      | inl more ↦ elim (Bool-cases free) [
        | inl empty ↦
            let (n, e, l, m) =
              start_threads-live threads (add + 1)
                (record pool { live_thr_num = pool.live_thr_num + 1 }) (ground (arith, more)) in
            (n, rw (more, empty) e, omega (arith, l), m)
        | inr lives ↦
            let (n, e, l, m) = start_threads-live threads add pool h in
            (n, rw (more, lives) e, l, m)
      ]
      | inr enough ↦ (pool.live_thr_num, rw enough, omega arith, h)
    ]

pub wake_up-keeps :
    (pool p : Pool)
    → wake_up pool ≡ goes_on p
    → (n : ℕ) × (record pool { wait_exit_thr_num = n } ≡ p)
unfolding wake_up
wake_up-keeps pool p e = elim (Bool-cases (ltb 0 pool.wait_exit_thr_num)) [
  | inl asked ↦ elim (Bool-cases (ltb pool.min_thr_num pool.live_thr_num)) [
    | inl above ↦ absurd (ground (arith, e, asked, above))
    | inr least ↦ (pool.wait_exit_thr_num - 1, ap (going_in p) (rw (asked, least) at e))
  ]
  | inr left ↦ (pool.wait_exit_thr_num, ap (going_in p) (rw left at e))
]

pub wake_up-ends :
    (pool p : Pool)
    → wake_up pool ≡ ends p
    → (pool.min_thr_num < pool.live_thr_num)
      × (record pool {
        wait_exit_thr_num = pool.wait_exit_thr_num - 1;
        live_thr_num = pool.live_thr_num - 1;
      }
          ≡ p)
unfolding wake_up
wake_up-ends pool p e = elim (Bool-cases (ltb 0 pool.wait_exit_thr_num)) [
  | inl asked ↦ elim (Bool-cases (ltb pool.min_thr_num pool.live_thr_num)) [
    | inl above ↦ (ground (arith, above), ap (going_in p) (rw (asked, above) at e))
    | inr least ↦ absurd (ground (arith, e, asked, least))
  ]
  | inr left ↦ absurd (ground (arith, e, left))
]
