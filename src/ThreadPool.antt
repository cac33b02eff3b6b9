-- ===== src/ThreadPool.antt =====
-- The task queue of demo/SpeechPersistentDemo/threadpool.c, of which libutils/handlerthread.c is a
-- copy. A definition is what one thread does while it holds `pool->lock`; where it would wait on a
-- condition variable, that is its result, for the lock is released there and the tests are made
-- again on the way back.
pub mod Queue
pub mod System
pub mod Moves
pub mod Safety
pub mod Life
pub mod Waiting
mod Tests
use program_learning.Prelude.{
  ℕ, suc, ◌+◌, ◌-◌, ◌*◌, ◌%◌, Bool, true, false, not, ◌&&◌, List, [], ◌∷◌, ltb, leb, ◌==◌,
  if◌then◌else◌, get_or, set, replicate,
}

-- `threadpool_task_t`: two addresses, NULL as 0.
pub record Task : Type 0 where
  pub function : ℕ
  pub arg : ℕ

-- `threadpool_t`, but for the locks and the threads' ids.
pub record Pool : Type 0 where
  pub min_thr_num : ℕ
  pub max_thr_num : ℕ
  pub live_thr_num : ℕ
  pub busy_thr_num : ℕ
  pub wait_exit_thr_num : ℕ
  pub task_queue : List Task
  pub queue_front : ℕ
  pub queue_rear : ℕ
  pub queue_size : ℕ
  pub queue_max_size : ℕ
  pub shutdown : Bool

-- What the memory holds where nothing has been stored.
abbrev pub no_task : Task
no_task = record { function = 0; arg = 0 }

-- `threadpool_create` where every allocation succeeds, with the memory of the queue.
pub create : ℕ → ℕ → ℕ → List Task → Pool
create min_thr_num max_thr_num queue_max_size memory = record {
  min_thr_num = min_thr_num;
  max_thr_num = max_thr_num;
  live_thr_num = min_thr_num;
  busy_thr_num = 0;
  wait_exit_thr_num = 0;
  task_queue = memory;
  queue_front = 0;
  queue_rear = 0;
  queue_size = 0;
  queue_max_size = queue_max_size;
  shutdown = false;
}

-- What a thread does at the lock.
pub data Adding : Type 0 where
  blocks : Adding
  refused : Adding
  added : Pool → Adding

-- The task goes to the rear.
abbrev pub store_task : Pool → Task → Pool
store_task pool task = record pool {
  task_queue = set pool.task_queue pool.queue_rear task;
  queue_rear = (pool.queue_rear + 1) % pool.queue_max_size;
  queue_size = pool.queue_size + 1;
}

-- `threadpool_add_task`: to wait on `queue_not_full`, to return -1, or to store the task.
unfoldable pub add_task : Pool → Task → Adding
add_task pool task =
    if pool.queue_size == pool.queue_max_size && not pool.shutdown
    then blocks
    else if pool.shutdown
    then refused
    else added (store_task pool task)

pub data Taking : Type 0 where
  waits : Taking
  exits : Taking
  took : Task → Pool → Taking

-- The front moves on.
abbrev pub drop_task : Pool → Pool
drop_task pool = record pool {
  queue_front = (pool.queue_front + 1) % pool.queue_max_size;
  queue_size = pool.queue_size - 1;
}

-- `threadpool_thread` at the test of its inner loop: to wait on `queue_not_empty`, to end, or to
-- take the task at the front.
unfoldable pub take_task : Pool → Taking
take_task pool =
    if pool.queue_size == 0 && not pool.shutdown
    then waits
    else if pool.shutdown
    then exits
    else took (get_or pool.task_queue pool.queue_front no_task) (drop_task pool)

-- `MIN_WAIT_TASK_NUM`, `DEFAULT_THREAD_NUM`
abbrev pub min_wait_task_num : ℕ
min_wait_task_num = 10

abbrev pub default_thread_num : ℕ
default_thread_num = 10

pub data Waking : Type 0 where
  goes_on : Pool → Waking
  ends : Pool → Waking

-- `threadpool_thread` when its wait on `queue_not_empty` is over: it may be asked to end.
pub wake_up : Pool → Waking
wake_up pool =
    let asked = record pool { wait_exit_thr_num = pool.wait_exit_thr_num - 1 } in
    if ltb 0 pool.wait_exit_thr_num
    then if ltb pool.min_thr_num pool.live_thr_num
      then ends (record asked { live_thr_num = pool.live_thr_num - 1 })
      else goes_on asked
    else goes_on pool

-- The loop of `admin_thread` that starts threads, over `threads`: whether a place has no thread that
-- lives. `pthread_create` succeeds.
pub start_threads : List Bool → ℕ → Pool → Pool
start_threads [] add pool = pool
start_threads (free ∷ threads) add pool =
    let started =
      start_threads threads (add + 1) (record pool { live_thr_num = pool.live_thr_num + 1 }) in
    let passed = start_threads threads add pool in
    if ltb add default_thread_num && ltb pool.live_thr_num pool.max_thr_num
    then if free then started else passed
    else pool

-- The two tests of `admin_thread`, on the values that it has read before.
abbrev pub is_short : Pool → ℕ → ℕ → Bool
is_short pool queue_size live_thr_num =
    leb min_wait_task_num queue_size && leb live_thr_num pool.max_thr_num

abbrev pub is_idle : Pool → ℕ → ℕ → Bool
is_idle pool busy_thr_num live_thr_num =
    ltb (busy_thr_num * 2) live_thr_num && ltb pool.min_thr_num live_thr_num

abbrev pub ask_to_end : Pool → Pool
ask_to_end pool = record pool { wait_exit_thr_num = default_thread_num }

-- Around a task, under `thread_counter`.
abbrev pub begin_work : Pool → Pool
begin_work pool = record pool { busy_thr_num = pool.busy_thr_num + 1 }

abbrev pub end_work : Pool → Pool
end_work pool = record pool { busy_thr_num = pool.busy_thr_num - 1 }

-- The first line of `threadpool_destroy`
abbrev pub shut_down : Pool → Pool
shut_down pool = record pool { shutdown = true }
