-- ===== src/Persistent/Turns/Works.antt =====
-- A turn of the pool's thread in demo/SpeechPersistentDemo/SpeechPersistent.c: the first request that
-- waits is written, or there is none.
use program_learning.Prelude.{
  ℕ, suc, ◌≡◌, refl, ap, sym, ◌∙◌, inl, inr, Bool, true, false, some, List, [], ◌∷◌, ◌++◌, map,
  append_assoc, append-nil, subst, length, take_all,
}
use program_learning.Prelude.Int.{pos}
use program_learning.Prelude.Text.{Text}
use program_learning.ThreadPool.{take_task}
use program_learning.ThreadPool.Queue.{take_task-refines}
use program_learning.Persistent.{Call, write, create, System, World, given, block_at}
use program_learning.Persistent.Service.{work, after_taking}
use program_learning.Persistent.Heap.{step}
use program_learning.Persistent.Writing.{calls_made}
use program_learning.Persistent.Session.{Job, path_of, served, all_served, work-serves}
use program_learning.Persistent.Turns.{entry_of, stored, files, IsOn, Goes}

-- Every file that is asked for opens, and every write stores all its bytes.
pub record Stores (system : System) : Type 0 where
  pub opens :
      (calls : List Call) (path : Text) → (n : ℕ) × (system calls (create path) ≡ pos (suc n))
  pub writes :
      (calls : List Call) (fd : ℕ) (bytes : Text)
      → system calls (write fd bytes) ≡ pos (length bytes)

module _ (system : System) (pre : Text) (stores : Stores system) where
  served-files :
      (job : Job) (calls : List Call)
      → files system (served system pre job calls) ≡ files system calls ++ (entry_of pre job ∷ [])
  served-files job calls =
      let path = path_of pre job in
      let (n, opened) = stores.opens calls path in
      ap (λ r. files system (calls_made calls job.bytes path r)) opened
      ∙ ap (λ t. files system calls ++ ((path, t) ∷ []))
          (ap (λ r. stored r job.bytes) (stores.writes (create path ∷ calls) (suc n) job.bytes)
            ∙ take_all job.bytes)

  pub all_served-files :
      (jobs : List Job) (calls : List Call)
      → files system (all_served system pre jobs calls)
        ≡ files system calls ++ map (entry_of pre) jobs
  all_served-files [] calls = sym (append-nil (files system calls))
  all_served-files (job ∷ jobs) calls =
      all_served-files jobs (served system pre job calls)
      ∙ ap (λ l. l ++ map (entry_of pre) jobs) (served-files job calls)
      ∙ append_assoc (files system calls) (entry_of pre job ∷ []) (map (entry_of pre) jobs)

  module _ (name : Text) (id : ℕ) where
    nothing_waits : (w : World) → IsOn system pre name id w [] → work system w ≡ some (false, w)
    unfolding work
    nothing_waits w on = elim (take_task-refines on.queued.pool on.queued.valid on.queued.runs) [
      | inl (_, e) ↦
          step (λ v. given v.thread_pool v) (λ q. after_taking system (take_task q)) {w = w}
            (ap (λ o. given o w) on.queued.has)
          ∙ ap (λ t. after_taking system t w) e
      | inr (task, pool', _, _, split) ↦ cc (sym split ∙ on.queued.holds)
    ]

    same_end :
        (w w' v : World) (a b : Bool)
        → work system w ≡ some (a, v)
        → work system w ≡ some (b, w')
        → v ≡ w'
    same_end w w' v a b known e = cc (sym known ∙ e)

    pub works-Goes :
        (w w' : World) (jobs : List Job) (ran : Bool)
        → IsOn system pre name id w jobs
        → work system w ≡ some (ran, w')
        → Goes system pre name id w jobs [] w'
    works-Goes w w' [] ran on e =
        subst (Goes system pre name id w [] []) (same_end w w' w false ran (nothing_waits w on) e)
          (record { left = []; on = on; log = refl })
    works-Goes w w' (job ∷ jobs) ran on e =
        let (v, known, queued, calls, keeps) =
          work-serves system pre w job on.queued.waiting.0 jobs on.queued in
        subst (Goes system pre name id w (job ∷ jobs) []) (same_end w w' v true ran known e)
          (record {
            left = jobs;
            on = record {
              queued = queued;
              runs = keeps.destroyed ∙ on.runs;
              at = keeps.texts id name on.at on.no_buffer.0;
              folder =
                  ap (block_at v.blocks) keeps.pre_name
                  ∙ keeps.texts w.pre_name pre on.folder on.queued.waiting.0.own;
              no_buffer = on.no_buffer.1;
            };
            log =
                ap (λ c. files system c ++ map (entry_of pre) jobs) calls
                ∙ ap (λ l. l ++ map (entry_of pre) jobs) (served-files job w.calls)
                ∙ append_assoc (files system w.calls) (entry_of pre job ∷ [])
                    (map (entry_of pre) jobs)
                ∙ ap (λ l. files system w.calls ++ l)
                    (sym (append-nil (map (entry_of pre) (job ∷ jobs))));
          })
