-- ===== src/ThreadPool/Tests.antt =====
-- demo/SpeechPersistentDemo/threadpool.c on a small pool.
use program_learning.Prelude.Int.{pos}
use program_learning.Prelude.{some, ◌<◌, ◌≡◌, ◌⊎◌, refl, true, false, [], ◌∷◌, ◌++◌, arith, length}
use program_learning.ThreadPool.Life.{Answers, threadpool_destroy, is_thread_alive}
use program_learning.ThreadPool.Life.Ends.{Ends, ending, complete, all_released}
use program_learning.ThreadPool.{
  Task, Pool, no_task, create, add_task, blocks, refused, added, take_task, waits, took,
  start_threads, shut_down,
}
use program_learning.ThreadPool.Queue.{IsValid, tasks, add_task-refines, take_task-refines}
use program_learning.ThreadPool.System.{
  System, adds, takes, begins, shuts, Steps, here, then_, Kept, start,
}
use program_learning.ThreadPool.Safety.{Steps-Kept}

abbrev first : Task
first = record { function = 1; arg = 10 }

abbrev second : Task
second = record { function = 2; arg = 20 }

-- Two tasks round the end of a queue of two.
abbrev pool : Pool
pool = record {
  min_thr_num = 1;
  max_thr_num = 3;
  live_thr_num = 1;
  busy_thr_num = 0;
  wait_exit_thr_num = 0;
  task_queue = second ∷ first ∷ [];
  queue_front = 1;
  queue_rear = 1;
  queue_size = 2;
  queue_max_size = 2;
  shutdown = false;
}

pool-IsValid : IsValid pool
pool-IsValid = record {
  memory = refl;
  front = omega arith;
  rear = omega arith;
  fits = omega arith;
  ring = omega arith;
}

tasks_run : tasks pool ≡ first ∷ second ∷ []
tasks_run = refl

full_run : add_task pool first ≡ blocks
unfolding add_task
full_run = refl

shut_run : add_task (shut_down pool) first ≡ refused
unfolding add_task
shut_run = refl

take_run : take_task pool ≡ took first (record pool { queue_front = 0; queue_size = 1 })
unfolding take_task
take_run = refl

starts_run : start_threads (false ∷ true ∷ true ∷ []) 0 pool ≡ record pool { live_thr_num = 3 }
unfolding start_threads
starts_run = refl

add_task-refines_example :
    ((length (tasks pool) ≡ 2) × (add_task pool first ≡ blocks))
    ⊎ ((pool' : Pool) × (length (tasks pool) < 2)
        × (add_task pool first ≡ added pool')
        × IsValid pool'
        × (tasks pool' ≡ tasks pool ++ (first ∷ [])))
add_task-refines_example = add_task-refines pool pool-IsValid first refl

take_task-refines_example :
    ((tasks pool ≡ []) × (take_task pool ≡ waits))
    ⊎ ((task : Task) × (pool' : Pool) × (take_task pool ≡ took task pool')
        × IsValid pool'
        × (tasks pool ≡ task ∷ tasks pool'))
take_task-refines_example = take_task-refines pool pool-IsValid refl

-- A task is added, taken and begun, and then the pool is shut down.
abbrev last : System
last = record {
  pool = shut_down (record (create 1 3 1 (no_task ∷ [])) {
    task_queue = first ∷ [];
    queue_front = 0;
    queue_rear = 0;
    queue_size = 0;
    busy_thr_num = 1;
  });
  accepted = first ∷ [];
  taken = first ∷ [];
  holding = 0;
  running = 1;
}

runs : Steps (start (create 1 3 1 (no_task ∷ []))) last
unfolding create add_task take_task
runs =
    then_ (then_ (then_ (then_ here (adds first refl)) (takes first refl)) (begins (omega arith)))
      shuts

Steps-Kept_example : Kept 1 3 last
Steps-Kept_example = Steps-Kept 1 3 1 (no_task ∷ []) (omega arith) (omega arith) refl runs

-- No memory for the queue.
abbrev short_of_memory : Answers
short_of_memory = record {
  pool_memory = true;
  threads_memory = true;
  queue_memory = false;
  lock_made = true;
  counter_made = true;
  not_empty_made = true;
  not_full_made = true;
}

-- The thread in the second place lives, and that in the first has ended: only the first is joined.
one_left_out :
    threadpool_destroy (some complete) (7 ∷ 8 ∷ []) 1
    ≡ some (pos 0, ending (7 ∷ 8 ∷ []) 1, some all_released)
unfolding threadpool_destroy
one_left_out = refl

esrch_is_dead : is_thread_alive 3 ≡ false
unfolding is_thread_alive
esrch_is_dead = refl
