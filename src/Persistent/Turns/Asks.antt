-- ===== src/Persistent/Turns/Asks.antt =====
-- A caller's turn in demo/SpeechPersistentDemo/SpeechPersistent.c: whatever memory there is, the
-- request joins those that wait, or nothing changes for them.
use program_learning.Prelude.{
  ℕ, ◌<◌, ◌≤◌, ◌≡◌, ◌≢◌, refl, ap, ap₂, sym, ◌∙◌, inl, inr, true, Option, some, List, [], ◌∷◌, ◌++◌,
  map, arith, length, take, append-nil, subst, Bool-cases,
}
use program_learning.Prelude.Int.{ℤ, pos}
use program_learning.Prelude.Text.{Text}
use program_learning.Persistent.{
  PersistentType, Block, released, Call, malloc_handle, malloc_buffer, System, World, block_at,
  max_nlp_buffer_len,
}
use program_learning.Persistent.Names.{◌</>◌}
use program_learning.Persistent.Service.{framed, framed_len, speech_process}
use program_learning.Persistent.Heap.{block_at-append}
use program_learning.Persistent.Writing.{file_of}
use program_learning.Persistent.Session.{Job, Waiting, Queued}
use program_learning.Persistent.Joining.{
  grown, NoBuffer, job_of, Pending-grown, joined_world, joined,
}
use program_learning.ThreadPool.{Task, Pool, add_task}
use program_learning.ThreadPool.Queue.{tasks, add_task-refines}
use program_learning.Persistent.Service.{failed, store_request}
use program_learning.Persistent.Asking.{speech_process-stores, without_handle, without_buffer}
use program_learning.Persistent.Requests.{after_adding, speech_process-asks}
use program_learning.Persistent.Session.{task_of}
use program_learning.Persistent.Joining.{length-map, block_at-le}
use program_learning.Persistent.Turns.{Entry, entry_of, files, accepted, IsOn, Goes}

module _ (system : System) (pre name : Text) (id : ℕ) where
  Waiting-more :
      (w : World) (more : List Block) (calls : List Call) (jobs : List Job)
      → Waiting w pre jobs
      → Waiting (grown pre w more w.thread_pool calls) pre jobs
  Waiting-more w more calls [] h = tt
  Waiting-more w more calls (k ∷ ks) (p, a, h) =
      (Pending-grown pre w more w.thread_pool calls k p, a, Waiting-more w more calls ks h)

  -- A call that is refused for want of memory changes nothing else.
  IsOn-grown :
      (w : World) (more : List Block) (calls : List Call) (jobs : List Job)
      → IsOn system pre name id w jobs
      → IsOn system pre name id (record w { blocks = w.blocks ++ more; calls = calls }) jobs
  IsOn-grown w more calls jobs on = record {
    queued = record {
      pool = on.queued.pool;
      has = on.queued.has;
      valid = on.queued.valid;
      runs = on.queued.runs;
      holds = on.queued.holds;
      waiting = Waiting-more w more calls jobs on.queued.waiting;
    };
    runs = on.runs;
    at = block_at-append w.blocks more id on.at;
    folder = block_at-append w.blocks more w.pre_name on.folder;
    no_buffer = on.no_buffer;
  }

  NoBuffer-last :
      (a : ℕ) (jobs : List Job) (job : Job)
      → job.at.buf ≢ a
      → NoBuffer a jobs
      → NoBuffer a (jobs ++ (job ∷ []))
  NoBuffer-last a [] job ne h = (ne, tt)
  NoBuffer-last a (k ∷ ks) job ne (x, h) = (x, NoBuffer-last a ks job ne h)

  map-last :
      (jobs : List Job) (job : Job)
      → map (entry_of pre) (jobs ++ (job ∷ [])) ≡ map (entry_of pre) jobs ++ (entry_of pre job ∷ [])
  map-last [] job = refl
  map-last (k ∷ ks) job = ap (λ l. entry_of pre k ∷ l) (map-last ks job)

  not_null : (w : World) (jobs : List Job) → IsOn system pre name id w jobs → id ≢ 0
  not_null w jobs on e = cc (sym (ap (block_at w.blocks) e) ∙ on.at)

  -- A refused call.
  refused :
      (w : World) (more : List Block) (calls : List Call) (jobs : List Job)
      → IsOn system pre name id w jobs
      → files system calls ≡ files system w.calls
      → Goes system pre name id w jobs [] (record w { blocks = w.blocks ++ more; calls = calls })
  refused w more calls jobs on same = record {
    left = jobs;
    on = IsOn-grown w more calls jobs on;
    log = ap₂ (λ a b. a ++ b) same (sym (append-nil (map (entry_of pre) jobs)));
  }

  returned :
      (r : ℤ) (a : Option ℤ) {v w : World}
      → ◌≡◌ {A = Option (Option ℤ × World)} (some (a, v)) (some (some r, w))
      → (a ≡ some r) × (v ≡ w)
  returned r a e = (cc e, cc e)

  -- A call that is accepted.
  module _ (w : World) (jobs : List Job) (on : IsOn system pre name id w jobs)
      (type : PersistentType) (bytes file : Text) (pool' : Pool) where
    abbrev new : Job
    new = job_of w id type bytes name file

    joins :
        Queued (joined_world w new pool') pre (jobs ++ (new ∷ []))
        → Goes system pre name id w jobs (entry_of pre new ∷ []) (joined_world w new pool')
    joins queued = record {
      left = jobs ++ (new ∷ []);
      on = record {
        queued = queued;
        runs = on.runs;
        at = block_at-append w.blocks _ id on.at;
        folder = block_at-append w.blocks _ w.pre_name on.folder;
        no_buffer =
            NoBuffer-last id jobs new
              (λ e. absurd (omega (arith, e, block_at-le w.blocks id on.at))) on.no_buffer;
      };
      log = ap (λ l. files system w.calls ++ l) (map-last jobs new);
    }

  module _ (w w' : World) (jobs : List Job) (on : IsOn system pre name id w jobs)
      (type : PersistentType) (buf : Text) (len : ℕ) (file : Text) (r : ℤ) (some_bytes : 0 < len)
      (bounded : len ≤ max_nlp_buffer_len) (fits : len ≤ length buf)
      (has_file : file_of type ≡ some file) (short : length (pre </> (name </> file)) < 256)
      (e : speech_process system id (some buf) (pos len) type w ≡ some (some r, w')) where
    abbrev entry : Entry
    entry = (pre </> (name </> file), framed type (take len buf))

    -- What the call is known to return is what it returned.
    settled :
        (s : ℤ) (v : World)
        → speech_process system id (some buf) (pos len) type w ≡ some (some s, v)
        → Goes system pre name id w jobs (accepted s entry) v
        → Goes system pre name id w jobs (accepted r entry) w'
    settled s v known goes =
        let same = returned r (some s) {v = v} {w = w'} (sym known ∙ e) in
        subst (Goes system pre name id w jobs (accepted r entry)) same.1
          (subst (λ t. Goes system pre name id w jobs (accepted t entry) v) (cc same.0) goes)

    stores :
        speech_process system id (some buf) (pos len) type w
        ≡ store_request system id buf len type w
    stores =
        speech_process-stores system w id type buf len on.queued.pool (not_null w jobs on)
          some_bytes bounded on.queued.has

    -- With memory, it returns only if there is room in the queue.
    with_memory :
        system w.calls malloc_handle ≡ true
        → system (malloc_handle ∷ w.calls) (malloc_buffer (framed_len type len)) ≡ true
        → Goes system pre name id w jobs (accepted r entry) w'
    with_memory room more =
        elim (add_task-refines on.queued.pool on.queued.valid task on.queued.runs) [
          | inl (_, full) ↦
              cc (sym e ∙ (asked ∙ ap (λ a. some (after_adding w id type (take len buf) a)) full))
          | inr (_, free, _, _, _) ↦
              (let (pool', known, queued) =
                  joined system pre jobs w on.queued id type buf len name file (not_null w jobs on)
                    some_bytes bounded fits on.runs room more on.at on.folder has_file short
                    on.no_buffer (omega (arith, free, count)) in
                settled (pos 0) (joined_world w (job_of w id type (take len buf) name file) pool')
                  known (joins w jobs on type (take len buf) file pool' queued))
        ]
      where
        task : Task
        task = task_of (job_of w id type (take len buf) name file)

        count : length (tasks on.queued.pool) ≡ length jobs
        count = ap length on.queued.holds ∙ length-map task_of jobs

        asked :
            speech_process system id (some buf) (pos len) type w
            ≡ some (after_adding w id type (take len buf) (add_task on.queued.pool task))
        asked =
            speech_process-asks system w id type buf len on.queued.pool (not_null w jobs on)
              some_bytes bounded fits on.queued.has on.runs room more

    pub asks-Goes : Goes system pre name id w jobs (accepted r entry) w'
    asks-Goes = elim (Bool-cases (system w.calls malloc_handle)) [
      | inr no_room ↦
          settled failed (record w { calls = malloc_handle ∷ w.calls })
            (stores ∙ without_handle system w id type buf len no_room)
            (subst
              (λ b.
                Goes system pre name id w jobs []
                  (record w { blocks = b; calls = malloc_handle ∷ w.calls }))
              (append-nil w.blocks) (refused w [] (malloc_handle ∷ w.calls) jobs on refl))
      | inl room ↦
          elim (Bool-cases
            (system (malloc_handle ∷ w.calls) (malloc_buffer (framed_len type len)))) [
              | inr no_more ↦
                  settled failed _ (stores ∙ without_buffer system w id type buf len room no_more) (
                    refused w (released ∷ [])
                      (malloc_buffer (framed_len type len) ∷ malloc_handle ∷ w.calls) jobs on refl)
              | inl more ↦ with_memory room more
            ]
    ]
