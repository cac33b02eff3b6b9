-- ===== src/ThreadPool/Queue.antt =====
-- The ring of tasks of demo/SpeechPersistentDemo/threadpool.c is a bounded queue.
use program_learning.Prelude.{
  ℕ, zero, suc, ◌+◌, ◌-◌, ◌%◌, ◌≤◌, ◌<◌, ◌≡◌, refl, sym, ap, ap₂, ◌∙◌, ◌⊎◌, inl, inr, Bool, false,
  List, [], ◌∷◌, ◌++◌, arith, ◌==◌, if◌then◌else◌, length, get_or, set, length-set, get_or-set_self,
  get_or-set_ne, mod-eq_of_lt, Bool-cases,
}
use native.Mathlib.Nat.{mod_self}
use program_learning.ThreadPool.{
  Task, Pool, Adding, Taking, exits, refused, no_task, blocks, added, add_task, waits, took,
  take_task, store_task, drop_task,
}

-- The place behind `i` in a ring of `m`.
abbrev next : ℕ → ℕ → ℕ
next m i = if i + 1 == m then 0 else i + 1

next-eq-mod : (m i : ℕ) → i < m → (i + 1) % m ≡ next m i
next-eq-mod m i h = elim (Bool-cases (i + 1 == m)) [
  | inl last ↦ rw last (ap (λ k. k % m) {x = i + 1} {y = m} (ground (arith, last)) ∙ mod_self m)
  | inr more ↦ rw more (mod-eq_of_lt (ground (arith, more)))
]

-- The front of the queue, its rear and its size fit each other.
pub record IsValid (pool : Pool) : Type 0 where
  pub memory : length pool.task_queue ≡ pool.queue_max_size
  pub front : pool.queue_front < pool.queue_max_size
  pub rear : pool.queue_rear < pool.queue_max_size
  pub fits : pool.queue_size ≤ pool.queue_max_size
  pub ring :
      (pool.queue_rear ≡ pool.queue_front + pool.queue_size)
      ⊎ (pool.queue_rear + pool.queue_max_size ≡ pool.queue_front + pool.queue_size)

-- `n` tasks of a ring of `m`, from place `i` on.
abbrev pub ring_from : List Task → ℕ → ℕ → ℕ → List Task
ring_from queue m i zero = []
ring_from queue m i (suc n) =
    get_or queue i no_task ∷ ring_from queue m (if i + 1 == m then 0 else i + 1) n

-- The tasks that wait, the oldest first.
abbrev pub tasks : Pool → List Task
tasks pool = ring_from pool.task_queue pool.queue_max_size pool.queue_front pool.queue_size

length-ring_from : (queue : List Task) (m i n : ℕ) → length (ring_from queue m i n) ≡ n
length-ring_from queue m i zero = refl
length-ring_from queue m i (suc n) =
    ap suc (length-ring_from queue m (if i + 1 == m then 0 else i + 1) n)

pub length-tasks : (pool : Pool) → length (tasks pool) ≡ pool.queue_size
length-tasks pool =
    length-ring_from pool.task_queue pool.queue_max_size pool.queue_front pool.queue_size

-- A task stored behind `n` others is the last one.
ring_from-set :
    (queue : List Task) (task : Task) (m i n r : ℕ)
    → length queue ≡ m
    → i < m
    → r < m
    → n < m
    → (r ≡ i + n) ⊎ (r + m ≡ i + n)
    → ring_from (set queue r task) m i (n + 1) ≡ ring_from queue m i n ++ (task ∷ [])
ring_from-set queue task m i zero r e hi hr hn ring =
    ap (λ k. get_or (set queue r task) k no_task ∷ []) {x = i} {y = r} (ground (arith, ring))
    ∙ ap (λ t. t ∷ []) (get_or-set_self queue r task no_task (omega arith))
ring_from-set queue task m i (suc n) r e hi hr hn ring =
    ap (ring_from (set queue r task) m i) {x = suc n + 1} {y = suc (n + 1)} (omega arith)
    ∙ ap₂ (λ t l. t ∷ l) (get_or-set_ne queue r i task no_task (λ same. ground (arith, ring, same)))
        (ring_from-set queue task m (if i + 1 == m then 0 else i + 1) n r e (ground arith) hr
          (omega arith) (ground (arith, ring)))

module _ (pool : Pool) (v : IsValid pool) where
  behind_rear :
      (pool.queue_rear + 1) % pool.queue_max_size ≡ next pool.queue_max_size pool.queue_rear
  behind_rear = next-eq-mod pool.queue_max_size pool.queue_rear v.rear

  behind_front :
      (pool.queue_front + 1) % pool.queue_max_size ≡ next pool.queue_max_size pool.queue_front
  behind_front = next-eq-mod pool.queue_max_size pool.queue_front v.front

  pub store_task-IsValid :
      (task : Task) → pool.queue_size < pool.queue_max_size → IsValid (store_task pool task)
  store_task-IsValid task room = record {
    memory = length-set pool.task_queue pool.queue_rear task ∙ v.memory;
    front = v.front;
    rear = ground (arith, behind_rear, v.rear);
    fits = omega (arith, room);
    ring = ground (arith, behind_rear, v.ring, v.rear, v.front);
  }

  pub tasks-store_task :
      (task : Task)
      → pool.queue_size < pool.queue_max_size
      → tasks (store_task pool task) ≡ tasks pool ++ (task ∷ [])
  tasks-store_task task room =
      ring_from-set pool.task_queue task pool.queue_max_size pool.queue_front pool.queue_size
        pool.queue_rear v.memory v.front v.rear room v.ring

  pub drop_task-IsValid : 0 < pool.queue_size → IsValid (drop_task pool)
  drop_task-IsValid some_left = record {
    memory = v.memory;
    front = ground (arith, behind_front, v.front);
    rear = v.rear;
    fits = omega (arith, v.fits);
    ring = ground (arith, behind_front, v.ring, v.rear, v.front, v.fits);
  }

  pub tasks-drop_task :
      0 < pool.queue_size
      → tasks pool ≡ get_or pool.task_queue pool.queue_front no_task ∷ tasks (drop_task pool)
  tasks-drop_task some_left =
      ap (ring_from pool.task_queue pool.queue_max_size pool.queue_front)
        {y = suc (pool.queue_size - 1)} (omega arith)
      ∙ ap
          (λ k.
            get_or pool.task_queue pool.queue_front no_task
            ∷ ring_from pool.task_queue pool.queue_max_size k (pool.queue_size - 1))
          (sym behind_front)

  tasks-none : pool.queue_size ≡ 0 → tasks pool ≡ []
  tasks-none e = ap (ring_from pool.task_queue pool.queue_max_size pool.queue_front) e

  -- In a pool that is valid and not shut down, `threadpool_add_task` waits exactly when the queue is
  -- full, and otherwise stores the task behind the others and leaves a valid pool.
  pub add_task-refines :
      (task : Task)
      → pool.shutdown ≡ false
      → ((length (tasks pool) ≡ pool.queue_max_size) × (add_task pool task ≡ blocks))
        ⊎ ((pool' : Pool) × (length (tasks pool) < pool.queue_max_size)
            × (add_task pool task ≡ added pool')
            × IsValid pool'
            × (tasks pool' ≡ tasks pool ++ (task ∷ [])))
  unfolding add_task
  add_task-refines task runs = elim (Bool-cases (pool.queue_size == pool.queue_max_size)) [
    | inl full ↦ inl (count ∙ ground (arith, full), rw (full, runs))
    | inr room ↦ inr (
      store_task pool task,
      ground (arith, count, room, v.fits),
      rw (room, runs),
      store_task-IsValid task (ground (arith, room, v.fits)),
      tasks-store_task task (ground (arith, room, v.fits)),
    )
  ]
    where
      count : length (tasks pool) ≡ pool.queue_size
      count = length-ring_from pool.task_queue pool.queue_max_size pool.queue_front pool.queue_size

  -- In a pool that is valid and not shut down, a thread that looks for a task waits exactly when
  -- there is none, and otherwise takes the oldest one and leaves a valid pool with the others.
  pub take_task-refines :
      pool.shutdown ≡ false
      → ((tasks pool ≡ []) × (take_task pool ≡ waits))
        ⊎ ((task : Task) × (pool' : Pool) × (take_task pool ≡ took task pool')
            × IsValid pool'
            × (tasks pool ≡ task ∷ tasks pool'))
  unfolding take_task
  take_task-refines runs = elim (Bool-cases (pool.queue_size == 0)) [
    | inl empty ↦ inl (tasks-none (ground (arith, empty)), rw (empty, runs))
    | inr some_left ↦ inr (
      get_or pool.task_queue pool.queue_front no_task,
      drop_task pool,
      rw (some_left, runs),
      drop_task-IsValid (ground (arith, some_left)),
      tasks-drop_task (ground (arith, some_left)),
    )
  ]

-- Neither of them touches `shutdown`.
abbrev shutdown_taking : Bool → Taking → Bool
shutdown_taking b (took task pool) = pool.shutdown
shutdown_taking b waits = b
shutdown_taking b exits = b

abbrev shutdown_adding : Bool → Adding → Bool
shutdown_adding b (added pool) = pool.shutdown
shutdown_adding b blocks = b
shutdown_adding b refused = b

pub take_task-shutdown :
    (pool pool' : Pool) (task : Task)
    → take_task pool ≡ took task pool'
    → pool'.shutdown ≡ pool.shutdown
unfolding take_task
take_task-shutdown pool pool' task e = sym (ap (shutdown_taking pool.shutdown) e) ∙ kept
  where
    kept : shutdown_taking pool.shutdown (take_task pool) ≡ pool.shutdown
    kept = ground arith

pub add_task-shutdown :
    (pool pool' : Pool) (task : Task)
    → add_task pool task ≡ added pool'
    → pool'.shutdown ≡ pool.shutdown
unfolding add_task
add_task-shutdown pool pool' task e = sym (ap (shutdown_adding pool.shutdown) e) ∙ kept
  where
    kept : shutdown_adding pool.shutdown (add_task pool task) ≡ pool.shutdown
    kept = ground arith
