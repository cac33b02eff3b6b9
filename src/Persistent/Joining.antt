-- ===== src/Persistent/Joining.antt =====
-- What `speechProcess` of demo/SpeechPersistentDemo/SpeechPersistent.c adds to the requests that wait.
use program_learning.Prelude.{
  ℕ, zero, suc, ◌<◌, ◌≤◌, ◌≡◌, ◌≢◌, refl, ap, sym, ◌∙◌, inl, inr, true, false, Option, some, List,
  [], ◌∷◌, ◌++◌, map, arith, length, take, get_elem?, append_assoc, get_elem?-middle, length-append,
}
use program_learning.Prelude.Int.{pos}
use program_learning.Prelude.Text.{Text}
use program_learning.ThreadPool.{Task, Pool}
use program_learning.ThreadPool.Queue.{tasks, add_task-refines, add_task-shutdown}
use program_learning.Persistent.{
  PersistentType, Block, text, handle, Call, malloc_handle, malloc_buffer, System, World, block_at,
  max_nlp_buffer_len,
}
use program_learning.Persistent.Names.{◌</>◌}
use program_learning.Persistent.Service.{framed, framed_len, speech_process}
use program_learning.Persistent.Heap.{block_at-append}
use program_learning.Persistent.Writing.{file_of}
use program_learning.Persistent.Requests.{request, after_adding, speech_process-asks}
use program_learning.Persistent.Session.{Job, task_of, Pending, Apart, Waiting, Queued}

get_elem?-lt : {A : Type 0} (xs : List A) (i : ℕ) {x : A} → get_elem? xs i ≡ some x → i < length xs
get_elem?-lt [] i e = cc
get_elem?-lt (x ∷ xs) zero e = omega arith
get_elem?-lt (x ∷ xs) (suc i) e = omega (arith, get_elem?-lt xs i e)

pub block_at-le :
    (blocks : List Block) (a : ℕ) {b : Block} → block_at blocks a ≡ some b → a ≤ length blocks
block_at-le blocks zero e = omega arith
block_at-le blocks (suc i) e = get_elem?-lt blocks i e

map-append-one :
    (f : Job → Task) (xs : List Job) (x : Job) → map f xs ++ (f x ∷ []) ≡ map f (xs ++ (x ∷ []))
map-append-one f [] x = refl
map-append-one f (y ∷ xs) x = ap (λ l. f y ∷ l) (map-append-one f xs x)

pub length-map : (f : Job → Task) (xs : List Job) → length (map f xs) ≡ length xs
length-map f [] = refl
length-map f (x ∷ xs) = ap suc (length-map f xs)

-- An address that is not the buffer of any request.
abbrev pub NoBuffer : ℕ → List Job → Type 0
NoBuffer a [] = Unit {0}
NoBuffer a (k ∷ ks) = (k.at.buf ≢ a) × NoBuffer a ks

module _ (pre : Text) (w : World) (more : List Block) (pool : Option Pool) (calls : List Call) where
  abbrev pub grown : World
  grown = record w { thread_pool = pool; blocks = w.blocks ++ more; calls = calls }

  pub Pending-grown : (k : Job) → Pending w pre k → Pending grown pre k
  Pending-grown k q = record {
    request = record {
      at = block_at-append w.blocks more k.address q.request.at;
      folder = block_at-append w.blocks more w.pre_name q.request.folder;
      named = block_at-append w.blocks more k.at.id q.request.named;
      buffer = block_at-append w.blocks more k.at.buf q.request.buffer;
      whole = q.request.whole;
    };
    has_file = q.has_file;
    fits = q.fits;
    own = q.own;
  }

  module _ (job : Job) (p : Pending grown pre job) (first : job.address ≡ suc (length w.blocks))
      (second : job.at.buf ≡ suc (suc (length w.blocks))) where
    Apart-one :
        (k : Job)
        → Pending w pre k
        → k.at.buf ≢ job.at.id
        → (k.address ≢ job.address) × (k.at.buf ≢ job.at.buf) × (k.at.buf ≢ job.at.id)
    Apart-one k q ne = (
      (λ e. absurd (omega (arith, e, first, block_at-le w.blocks k.address q.request.at))),
      (λ e. absurd (omega (arith, e, second, block_at-le w.blocks k.at.buf q.request.buffer))),
      ne,
    )

    Apart-last :
        (k : Job) (jobs : List Job)
        → (k.address ≢ job.address) × (k.at.buf ≢ job.at.buf) × (k.at.buf ≢ job.at.id)
        → Apart k jobs
        → Apart k (jobs ++ (job ∷ []))
    Apart-last k [] one a = (one, tt)
    Apart-last k (j ∷ jobs) one (x, a) = (x, Apart-last k jobs one a)

    Waiting-grown :
        (jobs : List Job)
        → NoBuffer job.at.id jobs
        → Waiting w pre jobs
        → Waiting grown pre (jobs ++ (job ∷ []))
    Waiting-grown [] n h = (p, tt, tt)
    Waiting-grown (k ∷ ks) (ne, n) (q, a, h) =
        (Pending-grown k q, Apart-last k ks (Apart-one k q ne) a, Waiting-grown ks n h)

abbrev pub job_of : World → ℕ → PersistentType → Text → Text → Text → Job
job_of w id type bytes name file = record {
  address = suc (length w.blocks);
  at = request w id type bytes;
  id = name;
  bytes = framed type bytes;
  file = file;
}

new_blocks :
    (blocks : List Block) (b c : Block)
    → block_at (blocks ++ (b ∷ c ∷ [])) (suc (suc (length blocks))) ≡ some c
new_blocks blocks b c =
    ap (λ l. get_elem? l (suc (length blocks))) (sym (append_assoc blocks (b ∷ []) (c ∷ [])))
    ∙ get_elem?-middle (blocks ++ (b ∷ [])) c [] (suc (length blocks))
        (omega (arith, length-append {0} blocks (b ∷ [])))

module _ (pre : Text) (w : World) (id : ℕ) (type : PersistentType) (bytes name file : Text)
    (at : block_at w.blocks id ≡ some (text name))
    (folder : block_at w.blocks w.pre_name ≡ some (text pre)) (has_file : file_of type ≡ some file)
    (short : length (pre </> (name </> file)) < 256) where
  abbrev job : Job
  job = job_of w id type bytes name file

  pending :
      (pool : Pool) (calls : List Call)
      → Pending (grown pre w (handle job.at ∷ text job.bytes ∷ []) (some pool) calls) pre job
  pending pool calls = record {
    request = record {
      at = get_elem?-middle w.blocks (handle job.at) (text job.bytes ∷ []) (length w.blocks) refl;
      folder = block_at-append w.blocks _ w.pre_name folder;
      named = block_at-append w.blocks _ id at;
      buffer = new_blocks w.blocks (handle job.at) (text job.bytes);
      whole = refl;
    };
    has_file = has_file;
    fits = short;
    own = λ e. absurd (omega (arith, e, block_at-le w.blocks w.pre_name folder));
  }

-- The world with the request in the pool.
abbrev pub joined_world : World → Job → Pool → World
joined_world w new pool = record w {
  thread_pool = some pool;
  blocks = w.blocks ++ (handle new.at ∷ text new.bytes ∷ []);
  calls = malloc_buffer (length new.bytes) ∷ malloc_handle ∷ w.calls;
}

pub joined :
    (system : System) (pre : Text) (jobs : List Job) (w : World) (q : Queued w pre jobs) (id : ℕ)
    (type : PersistentType) (buf : Text) (len : ℕ) (name file : Text)
    → id ≢ 0
    → 0 < len
    → len ≤ max_nlp_buffer_len
    → len ≤ length buf
    → w.destroyed ≡ false
    → system w.calls malloc_handle ≡ true
    → system (malloc_handle ∷ w.calls) (malloc_buffer (framed_len type len)) ≡ true
    → block_at w.blocks id ≡ some (text name)
    → block_at w.blocks w.pre_name ≡ some (text pre)
    → file_of type ≡ some file
    → length (pre </> (name </> file)) < 256
    → NoBuffer id jobs
    → length jobs < q.pool.queue_max_size
    → let new = job_of w id type (take len buf) name file in
      (pool' : Pool) × (speech_process system id (some buf) (pos len) type w
        ≡ some (some (pos 0), joined_world w new pool'))
      × Queued (joined_world w new pool') pre (jobs ++ (new ∷ []))
joined system pre jobs w q id type buf len name file named some_bytes bounded fits runs room more at
      folder has_file short no_buffer not_full =
    elim (add_task-refines q.pool q.valid (task_of new) q.runs) [
      | inl (full, _) ↦ absurd (omega (arith, count, full))
      | inr (pool', _, e, valid, behind) ↦ (
        pool',
        speech_process-asks system w id type buf len q.pool named some_bytes bounded fits q.has runs
              room more
            ∙ ap (λ a. some (after_adding w id type (take len buf) a)) e,
        record {
          pool = pool';
          has = refl;
          valid = valid;
          runs = add_task-shutdown q.pool pool' (task_of new) e ∙ q.runs;
          holds =
              behind ∙ ap (λ l. l ++ (task_of new ∷ [])) q.holds ∙ map-append-one task_of jobs new;
          waiting =
              Waiting-grown pre w _ (some pool') _ new
                (pending pre w id type (take len buf) name file at folder has_file short pool' _)
                refl refl jobs no_buffer q.waiting;
        },
      )
    ]
  where
    new : Job
    new = job_of w id type (take len buf) name file

    count : length (tasks q.pool) ≡ length jobs
    count = ap length q.holds ∙ length-map task_of jobs
