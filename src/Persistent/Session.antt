-- ===== src/Persistent/Session.antt =====
-- The requests of demo/SpeechPersistentDemo/SpeechPersistent.c that wait in the queue of its pool, and
-- the order in which the pool's thread writes them.
use program_learning.Prelude.{
  ℕ, ◌<◌, ◌≡◌, ◌≢◌, refl, ap, sym, ◌∙◌, inl, inr, true, false, some, List, [], ◌∷◌, ◌++◌, map,
  length,
}
use program_learning.Prelude.Text.{Text}
use program_learning.ThreadPool.{Task, Pool, took, take_task, begin_work, end_work}
use program_learning.ThreadPool.Queue.{IsValid, tasks, take_task-refines, take_task-shutdown}
use program_learning.Persistent.{
  PersistentHandle, Block, text, released, Call, create, System, World, ◌>>◌, pure, given, modify,
  block_at, put_block,
}
use program_learning.Persistent.Names.{◌</>◌}
use program_learning.Persistent.Tasks.{process_task}
use program_learning.Persistent.Service.{
  process_function, run_task, with_counter, after_taking, work,
}
use program_learning.Persistent.Heap.{block_at-append, block_at-put_ne, other_block, step, step_on}
use program_learning.Persistent.Saving.{process_task-saves}
use program_learning.Persistent.Writing.{file_of, Request, ended, name_left, calls_made}

-- A request: its handle, with the contents of the blocks that go with it, and the name of its file.
pub record Job : Type 0 where
  pub address : ℕ
  pub at : PersistentHandle
  pub id : Text
  pub bytes : Text
  pub file : Text

abbrev pub path_of : Text → Job → Text
path_of pre job = pre </> (job.id </> job.file)

abbrev pub task_of : Job → Task
task_of job = record { function = process_function; arg = job.address }

-- It has all it needs, and its buffer is not the folder's name.
pub record Pending (w : World) (pre : Text) (job : Job) : Type 0 where
  pub request : Request w job.address job.at pre job.id job.bytes
  pub has_file : file_of job.at.type ≡ some job.file
  pub fits : length (path_of pre job) < 256
  pub own : job.at.buf ≢ w.pre_name

-- A request shares its handle and its buffer with none of the others.
abbrev pub Apart : Job → List Job → Type 0
Apart job [] = Unit {0}
Apart job (k ∷ ks) =
    ((job.address ≢ k.address) × (job.at.buf ≢ k.at.buf) × (job.at.buf ≢ k.at.id)) × Apart job ks

abbrev pub Waiting : World → Text → List Job → Type 0
Waiting w pre [] = Unit {0}
Waiting w pre (job ∷ jobs) = Pending w pre job × Apart job jobs × Waiting w pre jobs

-- The pool is in use, and these are the requests in its queue.
pub record Queued (w : World) (pre : Text) (jobs : List Job) : Type 0 where
  pub pool : Pool
  pub has : w.thread_pool ≡ some pool
  pub valid : IsValid pool
  pub runs : pool.shutdown ≡ false
  pub holds : tasks pool ≡ map task_of jobs
  pub waiting : Waiting w pre jobs

-- What is done for a request, and for all of them in their order.
abbrev pub served : System → Text → Job → List Call → List Call
served system pre job calls =
    calls_made calls job.bytes (path_of pre job) (system calls (create (path_of pre job)))

abbrev pub all_served : System → Text → List Job → List Call → List Call
all_served system pre [] calls = calls
all_served system pre (job ∷ jobs) calls = all_served system pre jobs (served system pre job calls)

-- A round leaves the texts but for its buffer, and these variables.
pub record Keeps (w w' : World) (buf : ℕ) : Type 0 where
  pub texts :
      (x : ℕ) (t : Text)
      → block_at w.blocks x ≡ some (text t)
      → buf ≢ x
      → block_at w'.blocks x ≡ some (text t)
  pub pre_name : w'.pre_name ≡ w.pre_name
  pub destroyed : w'.destroyed ≡ w.destroyed

-- The world when a request was served, for what is left of the name.
abbrev pub after : World → Job → Block → Pool → List Call → World
after w job left pool calls = record (ended w job.address job.at.buf left calls) {
  thread_pool = some pool;
}

module _ (pre : Text) where
  -- Other requests do not notice.
  module _ (w : World) (job : Job) (left : Block) (pool : Pool) (calls : List Call)
      (p : Pending w pre job) where
    kept :
        (x : ℕ) {b : Block}
        → block_at w.blocks x ≡ some b
        → job.address ≢ x
        → job.at.buf ≢ x
        → block_at (after w job left pool calls).blocks x ≡ some b
    kept x e na nb =
        block_at-put_ne (put_block job.at.buf released (w.blocks ++ (left ∷ []))) job.address x
          released na
        ∙ block_at-put_ne (w.blocks ++ (left ∷ [])) job.at.buf x released nb
        ∙ block_at-append w.blocks (left ∷ []) x e

    text_kept :
        (x : ℕ) {t : Text}
        → block_at w.blocks x ≡ some (text t)
        → job.at.buf ≢ x
        → block_at (after w job left pool calls).blocks x ≡ some (text t)
    text_kept x e nb = kept x e (other_block w.blocks job.address x p.request.at e (λ d. cc)) nb

    Pending-after :
        (k : Job)
        → (job.address ≢ k.address) × (job.at.buf ≢ k.at.buf) × (job.at.buf ≢ k.at.id)
        → Pending w pre k
        → Pending (after w job left pool calls) pre k
    Pending-after k (na, nb, ni) q = record {
      request = record {
        at =
            kept k.address q.request.at na
              (other_block w.blocks job.at.buf k.address p.request.buffer q.request.at (λ d. cc));
        folder = text_kept w.pre_name q.request.folder p.own;
        named = text_kept k.at.id q.request.named ni;
        buffer = text_kept k.at.buf q.request.buffer nb;
        whole = q.request.whole;
      };
      has_file = q.has_file;
      fits = q.fits;
      own = q.own;
    }

    Waiting-after :
        (jobs : List Job)
        → Apart job jobs
        → Waiting w pre jobs
        → Waiting (after w job left pool calls) pre jobs
    Waiting-after [] a h = tt
    Waiting-after (k ∷ ks) (ne, a) (q, apart, h) =
        (Pending-after k ne q, apart, Waiting-after ks a h)

abbrev first_or : Task → List Task → Task
first_or d [] = d
first_or d (t ∷ ts) = t

abbrev behind : List Task → List Task
behind [] = []
behind (t ∷ ts) = ts

-- Counting a busy thread leaves the queue.
worked-IsValid : (pool : Pool) → IsValid pool → IsValid (end_work (begin_work pool))
worked-IsValid pool v = record {
  memory = v.memory;
  front = v.front;
  rear = v.rear;
  fits = v.fits;
  ring = v.ring;
}

module _ (system : System) (pre : Text) (w : World) (job : Job) (p : Pending w pre job) where
  abbrev path : Text
  path = path_of pre job

  abbrev next : Pool → World
  next pool =
      after w job (name_left system w job.at job.bytes path (system w.calls (create path)))
        (end_work (begin_work pool)) (served system pre job w.calls)

  abbrev busy : Pool → World
  busy pool = record w { thread_pool = some (begin_work pool) }

  -- The thread takes the request at the front and serves it.
  taken :
      (pool pool' : Pool)
      → w.thread_pool ≡ some pool
      → take_task pool ≡ took (task_of job) pool'
      → work system w ≡ some (true, next pool')
  unfolding work run_task
  taken pool pool' has e =
      step (λ v. given v.thread_pool v) (λ q. after_taking system (take_task q)) {w = w}
        (ap (λ o. given o w) has)
      ∙ ap (λ t. after_taking system t w) e
      ∙ step_on (process_task system job.address)
          (modify (with_counter system end_work) >> pure true) {w = busy pool'}
          (process_task-saves system (busy pool') job.address job.at pre job.id job.bytes job.file
            (record {
              at = p.request.at;
              folder = p.request.folder;
              named = p.request.named;
              buffer = p.request.buffer;
              whole = p.request.whole;
            })
            p.has_file p.fits)

  pub work-serves :
      (jobs : List Job)
      → Queued w pre (job ∷ jobs)
      → (w' : World) × (work system w ≡ some (true, w'))
        × Queued w' pre jobs
        × (w'.calls ≡ served system pre job w.calls)
        × Keeps w w' job.at.buf
  work-serves jobs q = elim (take_task-refines q.pool q.valid q.runs) [
    | inl (empty, _) ↦ absurd (cc (sym empty ∙ q.holds))
    | inr (task, pool', e, valid, split) ↦ (
      next pool',
      taken q.pool pool' q.has
          (e ∙ ap (λ t. took t pool') (ap (first_or task) (sym split ∙ q.holds))),
      record {
        pool = end_work (begin_work pool');
        has = refl;
        valid = worked-IsValid pool' valid;
        runs = take_task-shutdown q.pool pool' task e ∙ q.runs;
        holds = ap behind (sym split ∙ q.holds);
        waiting =
            Waiting-after pre w job _ (end_work (begin_work pool')) (served system pre job w.calls)
              p jobs q.waiting.1 q.waiting.2;
      },
      refl,
      record {
        texts = λ x t e ne.
            text_kept pre w job _ (end_work (begin_work pool')) (served system pre job w.calls) p x
              e ne;
        pre_name = refl;
        destroyed = refl;
      },
    )
  ]
