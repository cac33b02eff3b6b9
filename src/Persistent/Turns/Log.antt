-- ===== src/Persistent/Turns/Log.antt =====
-- What the files of demo/SpeechPersistentDemo/SpeechPersistent.c get, whatever the order of the turns.
use program_learning.Prelude.{
  ℕ, ◌<◌, ◌≡◌, ap, sym, ◌∙◌, some, List, ◌++◌, map, length, append_assoc, append-nil, subst,
}
use program_learning.Prelude.Text.{Text}
use program_learning.Persistent.{PersistentType, System, World}
use program_learning.Persistent.Names.{◌</>◌}
use program_learning.Persistent.Writing.{file_of}
use program_learning.ThreadPool.{Pool}
use program_learning.ThreadPool.Queue.{length-tasks}
use program_learning.Persistent.Session.{Job, task_of}
use program_learning.Persistent.Joining.{length-map}
use program_learning.Persistent.Order.{rounds, rounds-serve}
use program_learning.Persistent.Turns.{
  Entry, entry_of, files, Turn, asks, works, Turns, here, next, IsOn, Goes,
}
use program_learning.Persistent.Turns.Asks.{asks-Goes}
use program_learning.Persistent.Turns.Works.{Stores, all_served-files, works-Goes}

-- The paths of the session fit their array.
abbrev pub Short : Text → Text → Type 0
Short pre name =
    (type : PersistentType) (file : Text)
    → file_of type ≡ some file
    → length (pre </> (name </> file)) < 256

module _ (system : System) (pre name : Text) (id : ℕ) (stores : Stores system)
    (short : Short pre name) where
  Turn-Goes :
      (w w' : World) (jobs : List Job) (new : List Entry)
      → IsOn system pre name id w jobs
      → Turn system pre name id w new w'
      → Goes system pre name id w jobs new w'
  Turn-Goes w w' jobs new on (asks type buf len file r some_bytes bounded fits has_file e accepts) =
      subst (λ l. Goes system pre name id w jobs l w') (sym accepts)
        (asks-Goes system pre name id w w' jobs on type buf len file r some_bytes bounded fits
          has_file (short type file has_file) e)
  Turn-Goes w w' jobs new on (works ran e nothing) =
      subst (λ l. Goes system pre name id w jobs l w') (sym nothing)
        (works-Goes system pre stores name id w w' jobs ran on e)

  Turns-Goes :
      (w : World) (jobs : List Job)
      → IsOn system pre name id w jobs
      → {new : List Entry} {w' : World} → Turns system pre name id w new w'
      → Goes system pre name id w jobs new w'
  Turns-Goes w jobs on here = record {
    left = jobs;
    on = on;
    log = ap (λ l. files system w.calls ++ l) (sym (append-nil (map (entry_of pre) jobs)));
  }
  Turns-Goes w jobs on (next {old = old} {new = new} {v = v} {w' = w'} before turn all) =
      let first = Turns-Goes w jobs on before in
      let last = Turn-Goes v w' first.left new first.on turn in
      record {
        left = last.left;
        on = last.on;
        log =
            last.log
            ∙ sym (append_assoc (files system v.calls) (map (entry_of pre) first.left) new)
            ∙ ap (λ l. l ++ new) first.log
            ∙ append_assoc (files system w.calls) (map (entry_of pre) jobs ++ old) new
            ∙ ap (λ l. files system w.calls ++ l)
                (append_assoc (map (entry_of pre) jobs) old new
                  ∙ ap (λ l. map (entry_of pre) jobs ++ l) (sym all));
      }

  -- A session is on, with any requests in the queue; every file opens, and every write stores all its
  -- bytes. Whatever turns its caller and the pool's thread take, in any order and with memory or
  -- without it: as many more rounds of the thread as tasks are then in the queue end, and what the
  -- files got is what they had got, then what waited at the start, and then every request that was
  -- accepted in the turns, each once, in their order, on its own path.
  pub Turns-log :
      (w : World) (jobs : List Job)
      → IsOn system pre name id w jobs
      → {new : List Entry} {w' : World} → Turns system pre name id w new w'
      → (pool : Pool) × (w'.thread_pool ≡ some pool)
        × ((end : World) × (rounds system pool.queue_size w' ≡ some (tt, end))
            × (files system end.calls ≡ files system w.calls ++ (map (entry_of pre) jobs ++ new)))
  Turns-log w jobs on {w' = w'} turns =
      let goes = Turns-Goes w jobs on turns in
      let queued = goes.on.queued in
      let (end, ran, _, calls) = rounds-serve system pre goes.left w' queued in
      let count =
        sym (length-tasks queued.pool) ∙ ap length queued.holds ∙ length-map task_of goes.left in
      (
        queued.pool,
        queued.has,
        (
          end,
          ap (λ k. rounds system k w') count ∙ ran,
          ap (files system) calls
              ∙ all_served-files system pre stores goes.left w'.calls
              ∙ goes.log,
        ),
      )
