-- ===== src/Persistent/Requests.antt =====
-- What `speechProcess` of demo/SpeechPersistentDemo/SpeechPersistent.c gives to the pool.
use program_learning.Prelude.{
  ℕ, suc, ◌<◌, ◌≤◌, ◌≡◌, ◌≢◌, refl, ap, ap₂, sym, ◌∙◌, true, false, Option, some, none, List, [],
  ◌∷◌, ◌++◌, arith, length, take, if◌then◌else◌, le→leb, append_assoc, length-append, length-take,
  set-middle, get_elem?-middle,
}
use program_learning.Prelude.Int.{ℤ, pos}
use program_learning.Prelude.Text.{Text}
use program_learning.ThreadPool.{Task, Pool, Adding, blocks, refused, added, add_task}
use program_learning.Persistent.{
  PersistentType, start, speech, asr, nlp, stop, PersistentHandle, Block, text, handle, released,
  malloc_handle, malloc_buffer, System, World, pure, given, put_block, free, max_nlp_buffer_len,
}
use program_learning.Persistent.Service.{
  process_function, failed, with_pool, threadpool_add_task, submit, end_submit, blank, framed,
  framed_len, nlp_header, nlp_tail, store_request, speech_process,
}
use program_learning.Persistent.Asking.{speech_process-stores}
use program_learning.Persistent.Heap.{free_lem, step, step_on}

-- The handle and the buffer that a request becomes, behind the blocks that are there.
abbrev pub request : World → ℕ → PersistentType → Text → PersistentHandle
request w id type bytes = record {
  id = id;
  type = type;
  buf = suc (suc (length w.blocks));
  len = length (framed type bytes);
  completed = true;
}

abbrev pub stored : World → Block → Text → World
stored w b bytes = record w {
  blocks = w.blocks ++ (b ∷ text bytes ∷ []);
  calls = malloc_buffer (length bytes) ∷ malloc_handle ∷ w.calls;
}

-- What becomes of a request, by what the pool does.
abbrev pub after_adding : World → ℕ → PersistentType → Text → Adding → Option ℤ × World
after_adding w id type bytes blocks =
    (none, stored w (handle (request w id type bytes)) (framed type bytes))
after_adding w id type bytes refused = (some failed, stored w released (framed type bytes))
after_adding w id type bytes (added pool) = (
  some (pos 0),
  record (stored w (handle (request w id type bytes)) (framed type bytes)) {
    thread_pool = some pool;
  },
)

length-framed :
    (type : PersistentType) (bytes : Text)
    → length (framed type bytes) ≡ framed_len type (length bytes)
length-framed nlp bytes =
    omega
      (arith, length-append {0} nlp_header (bytes ++ nlp_tail), length-append {0} bytes nlp_tail)
length-framed start bytes = refl
length-framed speech bytes = refl
length-framed asr bytes = refl
length-framed stop bytes = refl

behind : (bs : List Block) (b : Block) → length (bs ++ (b ∷ [])) ≡ suc (length bs)
behind bs b = omega (arith, length-append {0} bs (b ∷ []))

filled :
    (bs : List Block) (b c d : Block)
    → put_block (suc (length bs)) d ((bs ++ (b ∷ [])) ++ (c ∷ [])) ≡ bs ++ (d ∷ c ∷ [])
filled bs b c d =
    ap (put_block (suc (length bs)) d) (append_assoc bs (b ∷ []) (c ∷ []))
    ∙ set-middle bs b (c ∷ []) (length bs) d refl

module _ (w : World) (id : ℕ) (type : PersistentType) (bytes : Text) (pool : Pool) where
  abbrev here : World
  here = stored w (handle (request w id type bytes)) (framed type bytes)

  abbrev task : Task
  task = record { function = process_function; arg = suc (length w.blocks) }

  asked :
      w.thread_pool ≡ some pool
      → w.destroyed ≡ false
      → threadpool_add_task process_function (suc (length w.blocks)) here
        ≡ with_pool (add_task pool task) here
  asked has runs =
      step (λ v. given (if v.destroyed then none else v.thread_pool) v)
        (λ p. with_pool (add_task p task)) {w = here} (rw (runs, has) refl)

  submitted :
      (answer : Adding)
      → threadpool_add_task process_function (suc (length w.blocks)) here ≡ with_pool answer here
      → submit process_function (suc (length w.blocks)) here
        ≡ some (after_adding w id type bytes answer)
  unfolding submit
  submitted blocks e =
      step (threadpool_add_task _ _) (end_submit (suc (length w.blocks))) {w = here} e
  submitted (added p) e =
      step (threadpool_add_task _ _) (end_submit (suc (length w.blocks))) {w = here} e
  submitted refused e =
      step (threadpool_add_task _ _) (end_submit (suc (length w.blocks))) {w = here} e
      ∙ step_on (free (suc (length w.blocks))) (pure (some failed)) {w = here} (
          free_lem (suc (length w.blocks)) here {b = handle (request w id type bytes)}
            (get_elem?-middle w.blocks (handle (request w id type bytes))
              (text (framed type bytes) ∷ []) (length w.blocks) refl)
            refl)
      ∙ ap (λ b. some (some failed, record here { blocks = b }))
          (set-middle w.blocks (handle (request w id type bytes)) (text (framed type bytes) ∷ [])
            (length w.blocks) released refl)

module _ (system : System) (w : World) (id : ℕ) (type : PersistentType) (buf : Text) (len : ℕ)
    (fits : len ≤ length buf) where
  abbrev bytes : Text
  bytes = take len buf

  size : framed_len type len ≡ length (framed type bytes)
  size = sym (length-framed type bytes ∙ ap (framed_len type) (length-take len buf ∙ (omega arith)))

  abbrev rough : World
  rough = record w {
    blocks =
        put_block (suc (length w.blocks))
          (handle (record {
            id = id;
            type = type;
            buf = suc (length (w.blocks ++ (handle blank ∷ [])));
            len = framed_len type len;
            completed = true;
          }))
          ((w.blocks ++ (handle blank ∷ [])) ++ (text (framed type bytes) ∷ []));
    calls = malloc_buffer (framed_len type len) ∷ malloc_handle ∷ w.calls;
  }

  settled : rough ≡ stored w (handle (request w id type bytes)) (framed type bytes)
  settled =
      ap₂ (λ b c. record w { blocks = b; calls = c })
        (filled w.blocks (handle blank) (text (framed type bytes)) _
          ∙ ap₂
              (λ b l.
                w.blocks
                ++ (handle (record { id = id; type = type; buf = suc b; len = l; completed = true })
                    ∷ text (framed type bytes)
                    ∷ []))
              (behind w.blocks (handle blank)) size)
        (ap (λ l. malloc_buffer l ∷ malloc_handle ∷ w.calls) size)

  allocated :
      system w.calls malloc_handle ≡ true
      → system (malloc_handle ∷ w.calls) (malloc_buffer (framed_len type len)) ≡ true
      → store_request system id buf len type w
        ≡ submit process_function (suc (length w.blocks)) rough
  unfolding store_request
  allocated room more = rw (room, more, le→leb len (length buf) fits) refl

-- A call of `speechProcess` with an id, a length from 1 to 128 KB that the caller's buffer has, a pool
-- in use and memory for the handle and the buffer: the buffer that is made holds the first `len` bytes,
-- for a result of the NLP in the header and the tail of its JSON; the handle has the id, the type
-- and the length of that; and the pool is asked to take a task with the handle. If it takes the task
-- the call returns 0 with the new pool; if the queue is full the call waits; and if the pool refuses,
-- the call returns -1 and releases the handle, but the buffer stays.
pub speech_process-asks :
    (system : System) (w : World) (id : ℕ) (type : PersistentType) (buf : Text) (len : ℕ)
    (pool : Pool)
    → id ≢ 0
    → 0 < len
    → len ≤ max_nlp_buffer_len
    → len ≤ length buf
    → w.thread_pool ≡ some pool
    → w.destroyed ≡ false
    → system w.calls malloc_handle ≡ true
    → system (malloc_handle ∷ w.calls) (malloc_buffer (framed_len type len)) ≡ true
    → speech_process system id (some buf) (pos len) type w
      ≡ some (
          after_adding w id type
            (take len buf)
            (add_task pool (record { function = process_function; arg = suc (length w.blocks) })))
speech_process-asks system w id type buf len pool named some_bytes bounded fits has runs room more =
    speech_process-stores system w id type buf len pool named some_bytes bounded has
    ∙ allocated system w id type buf len fits room more
    ∙ ap (submit process_function (suc (length w.blocks))) (settled system w id type buf len fits)
    ∙ submitted w id type (take len buf) pool _ (asked w id type (take len buf) pool has runs)
