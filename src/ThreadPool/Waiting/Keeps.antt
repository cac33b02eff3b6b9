-- ===== src/ThreadPool/Waiting/Keeps.antt =====
-- What each turn on the condition variables of demo/SpeechPersistentDemo/threadpool.c keeps, where the
-- number of threads is fixed.
use program_learning.Prelude.{
  ◌+◌, ◌-◌, ◌≤◌, ◌<◌, ◌≡◌, refl, sym, ap, ◌∙◌, inl, inr, false, Bool, List, arith, subst, ◌==◌,
  Bool-cases,
}
use program_learning.ThreadPool.{Task, Pool, add_task, take_task, Waking, goes_on, ends, wake_up}
use program_learning.ThreadPool.Moves.{start_threads-live, wake_up-keeps, wake_up-ends}
use program_learning.ThreadPool.Waiting.{
  Threads, test, worker_turn, after_waking, woken_turn, caller_turn, signal, manager_starts,
  manager_asks, Turn, calls, adds, signals, takes, wakes, finishes, worker_by_itself,
  caller_by_itself, starts, asks, shuts, broadcasts,
}

-- What holds before shutdown: the number of threads is the minimum and the maximum, each is somewhere;
-- while a worker sleeps, each task that waits has a worker that is up or a signal that is to come; and
-- while a caller sleeps, the queue is full.
pub record IsAwake (s : Threads) : Type 0 where
  pub least : s.pool.live_thr_num ≡ s.pool.min_thr_num
  pub most : s.pool.live_thr_num ≡ s.pool.max_thr_num
  pub all : s.ready + s.asleep + s.woken + s.working ≡ s.pool.live_thr_num
  pub fits : s.pool.queue_size ≤ s.pool.queue_max_size
  pub not_lost : 0 < s.asleep → s.pool.queue_size ≤ s.owed + s.woken + s.ready
  pub full : 0 < s.blocked → s.pool.queue_size ≡ s.pool.queue_max_size

-- A worker that is one of none of the counts tests the queue.
record Between (s : Threads) : Type 0 where
  least : s.pool.live_thr_num ≡ s.pool.min_thr_num
  most : s.pool.live_thr_num ≡ s.pool.max_thr_num
  all : s.ready + s.asleep + s.woken + s.working + 1 ≡ s.pool.live_thr_num
  fits : s.pool.queue_size ≤ s.pool.queue_max_size
  not_lost : 0 < s.asleep → s.pool.queue_size ≤ s.owed + s.woken + s.ready + 1
  full : 0 < s.blocked → s.pool.queue_size ≡ s.pool.queue_max_size

test-IsAwake : (s : Threads) → s.pool.shutdown ≡ false → Between s → IsAwake (test s)
unfolding take_task
test-IsAwake s runs b = elim (Bool-cases (s.pool.queue_size == 0)) [
  | inl empty ↦
      rw (empty, runs)
        (record {
          least = b.least;
          most = b.most;
          all = omega (arith, b.all);
          fits = b.fits;
          not_lost = λ up. ground (arith, empty);
          full = b.full;
        })
  | inr some_left ↦
      rw (some_left, runs)
        (record {
          least = b.least;
          most = b.most;
          all = omega (arith, b.all);
          fits = omega (arith, b.fits);
          not_lost = λ up. ground (arith, some_left, b.not_lost up);
          full = λ up. absurd (omega (arith, up));
        })
]

module _ (s : Threads) (runs : s.pool.shutdown ≡ false) (a : IsAwake s) where
  adds-IsAwake : (task : Task) → 0 < s.callers → IsAwake (caller_turn task s)
  unfolding caller_turn add_task
  adds-IsAwake task some_caller = elim (Bool-cases (s.pool.queue_size == s.pool.queue_max_size)) [
    | inl full ↦
        rw (full, runs)
          (record {
            least = a.least;
            most = a.most;
            all = a.all;
            fits = a.fits;
            not_lost = a.not_lost;
            full = λ up. ground (arith, full);
          })
    | inr room ↦
        rw (room, runs)
          (record {
            least = a.least;
            most = a.most;
            all = a.all;
            fits = ground (arith, room, a.fits);
            not_lost = λ up. omega (arith, a.not_lost up);
            full = λ up. absurd (ground (arith, room, a.full up));
          })
  ]

  signals-IsAwake : 0 < s.owed → IsAwake (signal s)
  unfolding signal
  signals-IsAwake some_owed = elim (Bool-cases (s.asleep == 0)) [
    | inl none_sleeps ↦ rw none_sleeps (record {
      least = a.least;
      most = a.most;
      all = a.all;
      fits = a.fits;
      not_lost = λ up. absurd (ground (arith, none_sleeps, up));
      full = a.full;
    })
    | inr one_sleeps ↦ rw one_sleeps (record {
      least = a.least;
      most = a.most;
      all = ground (arith, a.all, one_sleeps);
      fits = a.fits;
      not_lost = λ up. ground (arith, a.not_lost (omega arith), up);
      full = a.full;
    })
  ]

  takes-IsAwake : 0 < s.ready → IsAwake (worker_turn s)
  unfolding worker_turn
  takes-IsAwake some_ready =
      test-IsAwake (record s { ready = s.ready - 1 }) runs
        (record {
          least = a.least;
          most = a.most;
          all = omega (arith, a.all);
          fits = a.fits;
          not_lost = λ up. omega (arith, a.not_lost up);
          full = a.full;
        })

  -- With as many threads as the minimum none ends.
  stays : (p : Pool) → wake_up s.pool ≡ ends p → 0 < 0
  stays p e = omega (arith, (wake_up-ends s.pool p e).0, a.least)

  after_waking-IsAwake :
      (w : Waking)
      → 0 < s.woken
      → wake_up s.pool ≡ w
      → IsAwake (after_waking (record s { woken = s.woken - 1 }) w)
  after_waking-IsAwake (ends p) some_woken e = absurd (omega (arith, stays p e))
  after_waking-IsAwake (goes_on p) some_woken e =
      let (n, same) = wake_up-keeps s.pool p e in
      subst (λ q. IsAwake (test (record s { woken = s.woken - 1; pool = q }))) same
        (test-IsAwake
          (record s { woken = s.woken - 1; pool = record s.pool { wait_exit_thr_num = n } }) runs
          (record {
            least = a.least;
            most = a.most;
            all = omega (arith, a.all);
            fits = a.fits;
            not_lost = λ up. omega (arith, a.not_lost up);
            full = a.full;
          }))

  wakes-IsAwake : 0 < s.woken → IsAwake (woken_turn s)
  unfolding woken_turn
  wakes-IsAwake some_woken = after_waking-IsAwake (wake_up s.pool) some_woken refl

  asks-IsAwake : IsAwake (manager_asks s)
  unfolding manager_asks
  asks-IsAwake = record {
    least = a.least;
    most = a.most;
    all = a.all;
    fits = a.fits;
    not_lost = λ up. omega (arith, a.not_lost up);
    full = a.full;
  }

  starts-IsAwake : (threads : List Bool) → IsAwake (manager_starts threads s)
  unfolding manager_starts
  starts-IsAwake threads =
      let (n, same, l, m) = start_threads-live threads 0 s.pool (omega (arith, a.most)) in
      subst
        (λ q.
          IsAwake (record s { pool = q; ready = s.ready + (q.live_thr_num - s.pool.live_thr_num) }))
        (sym same)
        (record {
          least = omega (arith, a.least, a.most, l, m);
          most = omega (arith, a.most, l, m);
          all = omega (arith, a.all, l);
          fits = a.fits;
          not_lost = λ up. omega (arith, a.not_lost up);
          full = a.full;
        })

  -- A turn before shutdown.
  pub Turn-IsAwake : {t : Threads} → Turn s t → t.pool.shutdown ≡ false → IsAwake t
  Turn-IsAwake (calls e) going = subst IsAwake (sym e) (record {
    least = a.least;
    most = a.most;
    all = a.all;
    fits = a.fits;
    not_lost = a.not_lost;
    full = a.full;
  })
  Turn-IsAwake (adds task some e) going = subst IsAwake (sym e) (adds-IsAwake task some)
  Turn-IsAwake (signals some e) going = subst IsAwake (sym e) (signals-IsAwake some)
  Turn-IsAwake (takes some e) going = subst IsAwake (sym e) (takes-IsAwake some)
  Turn-IsAwake (wakes some e) going = subst IsAwake (sym e) (wakes-IsAwake some)
  Turn-IsAwake (finishes some e) going = subst IsAwake (sym e) (record {
    least = a.least;
    most = a.most;
    all = omega (arith, a.all);
    fits = a.fits;
    not_lost = λ up. omega (arith, a.not_lost up);
    full = a.full;
  })
  Turn-IsAwake (worker_by_itself some e) going = subst IsAwake (sym e) (record {
    least = a.least;
    most = a.most;
    all = omega (arith, a.all);
    fits = a.fits;
    not_lost = λ up. omega (arith, a.not_lost some);
    full = a.full;
  })
  Turn-IsAwake (caller_by_itself some e) going = subst IsAwake (sym e) (record {
    least = a.least;
    most = a.most;
    all = a.all;
    fits = a.fits;
    not_lost = a.not_lost;
    full = λ up. a.full some;
  })
  Turn-IsAwake (starts threads queue_size live short e) going =
      subst IsAwake (sym e) (starts-IsAwake threads)
  Turn-IsAwake (asks busy live idle e) going = subst IsAwake (sym e) asks-IsAwake
  Turn-IsAwake (shuts e) going = cc (sym (ap (λ t. t.pool.shutdown) e) ∙ going)
  Turn-IsAwake (broadcasts shut e) going = cc (sym runs ∙ shut)
