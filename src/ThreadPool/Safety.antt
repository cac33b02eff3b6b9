-- ===== src/ThreadPool/Safety.antt =====
-- What holds of the pool of demo/SpeechPersistentDemo/threadpool.c whatever the order of the threads.
use program_learning.Prelude.{
  ℕ, ◌+◌, ◌-◌, ◌≤◌, ◌<◌, ◌≡◌, refl, sym, ap, ◌∙◌, inl, Bool, true, List, [], ◌∷◌, ◌++◌, arith,
  append_assoc, length, subst,
}
use program_learning.ThreadPool.{Task, Pool, create, added, add_task, took, take_task, drop_task}
use program_learning.ThreadPool.Queue.{
  IsValid, tasks, store_task-IsValid, tasks-store_task, drop_task-IsValid, tasks-drop_task,
}
use program_learning.ThreadPool.Moves.{
  add_task-stores, take_task-drops, start_threads-live, wake_up-keeps, wake_up-ends,
}
use program_learning.ThreadPool.System.{
  System, Step, adds, takes, wakes, leaves, start, starts, asks, begins, finishes, shuts, Steps,
  here, then_, Kept,
}

-- The queue does not depend on the counters.
counted-IsValid :
    (pool : Pool) (live busy asked : ℕ) (shut : Bool)
    → IsValid pool
    → IsValid (record pool {
      live_thr_num = live;
      busy_thr_num = busy;
      wait_exit_thr_num = asked;
      shutdown = shut;
    })
counted-IsValid pool live busy asked shut v = record {
  memory = v.memory;
  front = v.front;
  rear = v.rear;
  fits = v.fits;
  ring = v.ring;
}

module _ (lo hi : ℕ) (s : System) (k : Kept lo hi s) where
  adds-Kept :
      (task : Task) (p : Pool)
      → add_task s.pool task ≡ added p
      → Kept lo hi (record s { pool = p; accepted = s.accepted ++ (task ∷ []) })
  adds-Kept task p e =
      let (room, same) = add_task-stores s.pool task p k.valid e in
      subst (λ q. Kept lo hi (record s { pool = q; accepted = s.accepted ++ (task ∷ []) })) same
        (record {
          valid = store_task-IsValid s.pool k.valid task room;
          order =
              ap (λ l. l ++ (task ∷ [])) k.order
              ∙ append_assoc s.taken (tasks s.pool) (task ∷ [])
              ∙ ap (λ l. s.taken ++ l) (sym (tasks-store_task s.pool k.valid task room));
          least = k.least;
          most = k.most;
          at_least = k.at_least;
          at_most = k.at_most;
          busy = k.busy;
        })

  takes-Kept :
      (task : Task) (p : Pool)
      → take_task s.pool ≡ took task p
      → Kept lo hi (record s { pool = p; taken = s.taken ++ (task ∷ []); holding = s.holding + 1 })
  takes-Kept task p e =
      let (some_left, head, same) = take_task-drops s.pool task p e in
      subst
        (λ q.
          Kept lo hi
            (record s { pool = q; taken = s.taken ++ (task ∷ []); holding = s.holding + 1 }))
        same
        (record {
          valid = drop_task-IsValid s.pool k.valid some_left;
          order =
              k.order
              ∙ ap (λ l. s.taken ++ l)
                  (tasks-drop_task s.pool k.valid some_left
                    ∙ ap (λ t. t ∷ tasks (drop_task s.pool)) head)
              ∙ sym (append_assoc s.taken (task ∷ []) (tasks (drop_task s.pool)));
          least = k.least;
          most = k.most;
          at_least = k.at_least;
          at_most = k.at_most;
          busy = k.busy;
        })

  -- A turn that changes the counters only.
  counted-Kept :
      (live busy asked : ℕ) (shut : Bool) (holding running : ℕ)
      → lo ≤ live
      → live ≤ hi
      → busy ≡ running
      → Kept lo hi (record s {
        pool = record s.pool {
          live_thr_num = live;
          busy_thr_num = busy;
          wait_exit_thr_num = asked;
          shutdown = shut;
        };
        holding = holding;
        running = running;
      })
  counted-Kept live busy asked shut holding running l m e = record {
    valid = counted-IsValid s.pool live busy asked shut k.valid;
    order = k.order;
    least = k.least;
    most = k.most;
    at_least = l;
    at_most = m;
    busy = e;
  }

Step-Kept : {lo hi : ℕ} {s t : System} → Step s t → Kept lo hi s → Kept lo hi t
Step-Kept {lo} {hi} {s} (adds {p = p} task e) k = adds-Kept lo hi s k task p e
Step-Kept {lo} {hi} {s} (takes {p = p} task e) k = takes-Kept lo hi s k task p e
Step-Kept {lo} {hi} {s} (wakes {p = p} e) k =
    let (n, same) = wake_up-keeps s.pool p e in
    subst (λ q. Kept lo hi (record s { pool = q })) same
      (counted-Kept lo hi s k s.pool.live_thr_num s.pool.busy_thr_num n s.pool.shutdown s.holding
        s.running k.at_least k.at_most k.busy)
Step-Kept {lo} {hi} {s} (leaves {p = p} e) k =
    let (above, same) = wake_up-ends s.pool p e in
    subst (λ q. Kept lo hi (record s { pool = q })) same
      (counted-Kept lo hi s k (s.pool.live_thr_num - 1) s.pool.busy_thr_num
        (s.pool.wait_exit_thr_num - 1) s.pool.shutdown s.holding s.running (omega (arith, above))
        (omega (arith, k.at_most)) k.busy)
Step-Kept {lo} {hi} {s} (starts threads queue_size live short) k =
    let (n, same, l, m) = start_threads-live threads 0 s.pool (omega (arith, k.at_most, k.most)) in
    subst (λ q. Kept lo hi (record s { pool = q })) (sym same)
      (counted-Kept lo hi s k n s.pool.busy_thr_num s.pool.wait_exit_thr_num s.pool.shutdown
        s.holding s.running (omega (arith, l, k.at_least)) (omega (arith, m, k.most)) k.busy)
Step-Kept {lo} {hi} {s} (asks busy live idle) k =
    counted-Kept lo hi s k s.pool.live_thr_num s.pool.busy_thr_num 10 s.pool.shutdown s.holding
      s.running k.at_least k.at_most k.busy
Step-Kept {lo} {hi} {s} (begins some_held) k =
    counted-Kept lo hi s k s.pool.live_thr_num (s.pool.busy_thr_num + 1) s.pool.wait_exit_thr_num
      s.pool.shutdown (s.holding - 1) (s.running + 1) k.at_least k.at_most (ap (λ n. n + 1) k.busy)
Step-Kept {lo} {hi} {s} (finishes some_run) k =
    counted-Kept lo hi s k s.pool.live_thr_num (s.pool.busy_thr_num - 1) s.pool.wait_exit_thr_num
      s.pool.shutdown s.holding (s.running - 1) k.at_least k.at_most (ap (λ n. n - 1) k.busy)
Step-Kept {lo} {hi} {s} shuts k =
    counted-Kept lo hi s k s.pool.live_thr_num s.pool.busy_thr_num s.pool.wait_exit_thr_num true
      s.holding s.running k.at_least k.at_most k.busy

create-Kept :
    (min_thr_num max_thr_num size : ℕ) (memory : List Task)
    → min_thr_num ≤ max_thr_num
    → 0 < size
    → length memory ≡ size
    → Kept min_thr_num max_thr_num (start (create min_thr_num max_thr_num size memory))
unfolding create
create-Kept min_thr_num max_thr_num size memory h p e = record {
  valid = record { memory = e; front = p; rear = p; fits = omega arith; ring = inl (omega arith) };
  order = refl;
  least = refl;
  most = refl;
  at_least = omega arith;
  at_most = h;
  busy = refl;
}

-- Whatever turns the threads take from a new pool on, for a minimum that is no more than the
-- maximum and a queue of one place or more in memory of its size: the queue stays a valid ring,
-- the tasks that were accepted are those that were taken and then those that wait, in order, the
-- number of threads is between the minimum and the maximum, which stay, and the busy count is the
-- number of workers that run a task.
pub Steps-Kept :
    (min_thr_num max_thr_num size : ℕ) (memory : List Task) {s : System}
    → min_thr_num ≤ max_thr_num
    → 0 < size
    → length memory ≡ size
    → Steps (start (create min_thr_num max_thr_num size memory)) s
    → Kept min_thr_num max_thr_num s
Steps-Kept min_thr_num max_thr_num size memory h p e here =
    create-Kept min_thr_num max_thr_num size memory h p e
Steps-Kept min_thr_num max_thr_num size memory h p e (then_ before step) =
    Step-Kept step (Steps-Kept min_thr_num max_thr_num size memory h p e before)
