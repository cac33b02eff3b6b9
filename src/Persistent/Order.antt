-- ===== src/Persistent/Order.antt =====
-- From `speechProcess` of demo/SpeechPersistentDemo/SpeechPersistent.c to the file: requests join the
-- queue at its end, and the pool's thread serves them from its front.
mod Tests
use program_learning.Prelude.{
  ℕ, zero, suc, ◌+◌, ◌<◌, ◌≤◌, ◌≡◌, ◌≢◌, refl, ap, ap₂, sym, ◌∙◌, ◌⊎◌, inl, inr, Bool, true, false,
  Option, some, none, List, [], ◌∷◌, ◌++◌, map, arith, length, take, get_elem?, append_assoc,
  get_elem?-middle, length-append,
}
use program_learning.Prelude.Int.{ℤ, pos}
use program_learning.Prelude.Text.{Text}
use program_learning.ThreadPool.{Task, Pool, added, add_task}
use program_learning.ThreadPool.Queue.{IsValid, tasks, add_task-refines, add_task-shutdown}
use program_learning.Persistent.{
  PersistentType, PersistentHandle, Block, text, handle, Call, malloc_handle, malloc_buffer, System,
  World, Run, ◌>>=◌, ◌>>◌, pure, block_at, max_nlp_buffer_len,
}
use program_learning.Persistent.Names.{◌</>◌}
use program_learning.Persistent.Service.{process_function, framed, framed_len, speech_process, work}
use program_learning.Persistent.Heap.{block_at-append, step}
use program_learning.Persistent.Writing.{file_of, Request}
use program_learning.Persistent.Requests.{request, stored, after_adding, speech_process-asks}
use program_learning.Persistent.Session.{
  Job, path_of, task_of, Pending, Apart, Waiting, Queued, all_served, served, work-serves,
}
use program_learning.Persistent.Joining.{NoBuffer, job_of, joined_world, joined}

-- So many rounds of the pool's thread.
abbrev pub rounds : System → ℕ → Run (Unit {0})
rounds system zero = pure tt
rounds system (suc k) = work system >>= λ ran. rounds system k

-- With the requests in the pool's queue and nothing else, as many rounds of the pool's thread end
-- without a fault and leave the queue empty. They serve the requests in the order of the queue: each
-- opens its own file, and where that succeeds, writes to it exactly its bytes and closes it.
pub rounds-serve :
    (system : System) (pre : Text) (jobs : List Job) (w : World)
    → Queued w pre jobs
    → (w' : World) × (rounds system (length jobs) w ≡ some (tt, w'))
      × Queued w' pre []
      × (w'.calls ≡ all_served system pre jobs w.calls)
rounds-serve system pre [] w q = (w, refl, q, refl)
rounds-serve system pre (job ∷ jobs) w q =
    let (v, ran, left, done, _) = work-serves system pre w job q.waiting.0 jobs q in
    let (w', e, empty, calls) = rounds-serve system pre jobs v left in
    (
      w',
      step (work system) (λ b. rounds system (length jobs)) {w = w} ran ∙ e,
      empty,
      calls ∙ ap (all_served system pre jobs) done,
    )

-- With requests in the pool's queue, which is not full, a call of `speechProcess` with an id, bytes,
-- a type that has a file, a path that fits its array, and memory, returns 0, and the new request
-- stands behind the others: its bytes are the caller's, for a result of the NLP in their JSON.
pub speech_process-joins :
    (system : System) (pre : Text) (jobs : List Job) (w : World) (q : Queued w pre jobs) (id : ℕ)
    (type : PersistentType) (buf : Text) (len : ℕ) (name file : Text)
    → id ≢ 0
    → 0 < len
    → len ≤ max_nlp_buffer_len
    → len ≤ length buf
    → w.destroyed ≡ false
    → system w.calls malloc_handle ≡ true
    → system (malloc_handle ∷ w.calls) (malloc_buffer (framed_len type len)) ≡ true
    → block_at w.blocks id ≡ some (text name)
    → block_at w.blocks w.pre_name ≡ some (text pre)
    → file_of type ≡ some file
    → length (pre </> (name </> file)) < 256
    → NoBuffer id jobs
    → length jobs < q.pool.queue_max_size
    → (w' : World) × (speech_process system id (some buf) (pos len) type w
        ≡ some (some (pos 0), w'))
      × Queued w' pre (jobs ++ (job_of w id type (take len buf) name file ∷ []))
speech_process-joins system pre jobs w q id type buf len name file named some_bytes bounded fits
      runs room more at folder has_file short no_buffer not_full =
    let (pool', e, queued) =
      joined system pre jobs w q id type buf len name file named some_bytes bounded fits runs room
        more at folder has_file short no_buffer not_full in
    (joined_world w (job_of w id type (take len buf) name file) pool', e, queued)
