-- ===== src/Persistent/Service.antt =====
-- The calls that demo/SpeechPersistentDemo/SpeechPersistent.c offers, which give tasks to the pool of
-- threadpool.c, and the one thread of that pool, which runs them.
use program_learning.Prelude.{
  ℕ, ◌+◌, Bool, true, false, not, ◌&&◌, ◌||◌, Option, none, some, List, ◌++◌, ltb, leb, ◌==◌,
  if◌then◌else◌, length, take, drop,
}
use program_learning.Prelude.Int.{ℤ, pos, negsuc}
use program_learning.Prelude.Text.{Text, codes}
use program_learning.ThreadPool.{
  Task, Pool, create, Adding, blocks, refused, added, add_task, Taking, waits, exits, took,
  take_task, begin_work, end_work,
}
use program_learning.Persistent.{
  PersistentType, start, nlp, stop, PersistentHandle, text, handle, malloc_handle, malloc_buffer,
  System, World, Run, ◌>>=◌, ◌>>◌, pure, given, gets, modify, call, allocate, put, free, max_index,
  max_nlp_buffer_len, sn_length,
}
use program_learning.Persistent.Names.{Tm, get_id_by_time}
use program_learning.Persistent.Tasks.{start_task, stop_task, process_task}

-- The addresses of the tasks' functions.
abbrev pub start_function : ℕ
start_function = 1

abbrev pub process_function : ℕ
process_function = 2

abbrev pub stop_function : ℕ
stop_function = 3

abbrev pub failed : ℤ
failed = negsuc 0

abbrev pub default_id : Text
default_id = codes "UBTUBT0123456789UBTUBT0123456789"

abbrev pub id_of : Option Text → Text
id_of none = default_id
id_of (some id) = id

-- `Init`: `memory` is that of the queue of tasks, or `none` where `threadpool_create` fails.
unfoldable pub init : Option Text → Option (List Task) → Run (Unit {0})
init param memory = do
  modify (λ w. record w { persistent_count = 0; default_path_index = 0 })
  old ← gets (λ w. w.sd_id)
  let id = id_of param
  given (if leb (length id) sn_length then some tt else none)
  modify (λ w. record w { sd_id = id ++ drop (length id) old })
  modify (λ w. record w {
    thread_pool = elim memory [ none ↦ none | some m ↦ some (create 1 1 max_index m) ];
    destroyed = false;
  })

-- `if (gThreadPool == NULL)`
abbrev pub no_pool : World → Bool
no_pool w = elim w.thread_pool [ none ↦ true | some p ↦ false ]

-- What `threadpool_add_task` returns; `none` where it waits, and the call goes on by `submit` again
-- when it is woken.
abbrev pub with_pool : Adding → Run (Option ℤ)
with_pool blocks w = some (none, w)
with_pool refused w = some (some failed, w)
with_pool (added pool) w = some (some (pos 0), record w { thread_pool = some pool })

abbrev pub threadpool_add_task : ℕ → ℕ → Run (Option ℤ)
threadpool_add_task function arg = do
  pool ← (λ w. given (if w.destroyed then none else w.thread_pool) w)
  with_pool (add_task pool (record { function = function; arg = arg }))

-- What is done with its result: `free(handle)` where it fails.
abbrev pub end_submit : ℕ → Option ℤ → Run (Option ℤ)
end_submit a none = pure none
end_submit a (some (pos n)) = pure (some (pos n))
end_submit a (some (negsuc n)) = do free a; pure (some failed)

-- The calls from `threadpool_add_task` on.
unfoldable pub submit : ℕ → ℕ → Run (Option ℤ)
submit function a = do ret ← threadpool_add_task function a; end_submit a ret

-- The pointer that `speechStart` returns, NULL as 0.
abbrev pub id_or_null : ℕ → Option ℤ → Option ℕ
id_or_null id none = none
id_or_null id (some (pos n)) = some id
id_or_null id (some (negsuc n)) = some 0

-- What `malloc` gives before it is filled.
abbrev pub blank : PersistentHandle
blank = record { id = 0; type = start; buf = 0; len = 0; completed = false }

-- `nlpHeader`, `nlpTail`
abbrev pub nlp_header : Text
nlp_header = codes "{\"source\":\"dingdang3.0\",\"result\":["

abbrev pub nlp_tail : Text
nlp_tail = codes "]}"

-- What is put into the buffer.
abbrev pub framed : PersistentType → Text → Text
framed nlp bytes = nlp_header ++ (bytes ++ nlp_tail)
framed _ bytes = bytes

-- `len`, with the header and the tail where they are put in.
abbrev pub framed_len : PersistentType → ℕ → ℕ
framed_len nlp len = length nlp_header + len + length nlp_tail
framed_len _ len = len

module _ (system : System) where
  -- `speechStart`; the time is what `localtime` gives. `none` where it waits for room.
  unfoldable pub speech_start : Tm → Run (Option ℕ)
  unfolding get_id_by_time submit
  speech_start now = do
    missing ← gets no_pool
    if missing then pure (some 0) else (do
      room ← call system malloc_handle
      if room
          then (do
            a ← allocate (handle blank)
            id ← get_id_by_time now
            modify (put a (handle (record blank { id = id; type = start; completed = true })))
            ret ← submit start_function a
            pure (id_or_null id ret))
          else pure (some 0))

  -- `speechProcess` from its first `malloc` on.
  unfoldable pub store_request : ℕ → Text → ℕ → PersistentType → Run (Option ℤ)
  unfolding submit
  store_request id buf len type = do
    room ← call system malloc_handle
    if room
        then (do
          a ← allocate (handle blank)
          more ← call system (malloc_buffer (framed_len type len))
          if more
              then (do
                given (if leb len (length buf) then some tt else none)
                b ← allocate (text (framed type (take len buf)))
                modify (
                    put a (
                      handle (record {
                        id = id;
                        type = type;
                        buf = b;
                        len = framed_len type len;
                        completed = true;
                      })))
                submit process_function a)
              else (do free a; pure (some failed)))
        else pure (some failed)

  -- `speechProcess`, NULL as `none` and as address 0.
  unfoldable pub speech_process : ℕ → Option Text → ℤ → PersistentType → Run (Option ℤ)
  unfolding store_request
  speech_process id none len type = pure (some failed)
  speech_process id (some buf) (negsuc n) type = pure (some failed)
  speech_process id (some buf) (pos len) type = do
    missing ← gets no_pool
    if id == 0 || len == 0 || ltb max_nlp_buffer_len len || missing
        then pure (some failed)
        else store_request id buf len type

  -- `speechStop`
  unfoldable pub speech_stop : ℕ → Bool → Run (Option ℤ)
  unfolding submit
  speech_stop id completed = do
    missing ← gets no_pool
    if id == 0 || missing then pure (some failed) else (do
      room ← call system malloc_handle
      if room
          then (do
            a ← allocate (handle blank)
            modify (put a (handle (record blank { id = id; type = stop; completed = completed })))
            submit stop_function a)
          else pure (some failed))

  -- What the thread of the pool runs.
  unfoldable pub run_task : Task → Run (Unit {0})
  unfolding start_task process_task stop_task
  run_task task =
      if task.function == start_function
      then start_task system task.arg
      else if task.function == process_function
      then process_task system task.arg
      else if task.function == stop_function
      then stop_task system task.arg
      else given none

  abbrev pub with_counter : (Pool → Pool) → World → World
  with_counter f w = record w {
    thread_pool = elim w.thread_pool [ none ↦ none | some p ↦ some (f p) ];
  }

  -- One round of the pool's thread: whether it ran a task.
  abbrev pub after_taking : Taking → Run Bool
  after_taking waits = pure false
  after_taking exits = pure false
  after_taking (took task pool) = do
    modify (λ w. record w { thread_pool = some (begin_work pool) })
    run_task task
    modify (with_counter end_work)
    pure true

  unfoldable pub work : Run Bool
  unfolding run_task
  work = do pool ← (λ w. given w.thread_pool w); after_taking (take_task pool)

-- `unInit`; `gThreadPool` and `gPreName` are left as they are.
unfoldable pub un_init : Run (Unit {0})
un_init = do
  missing ← gets no_pool
  gone ← gets (λ w. w.destroyed)
  given (if gone && not missing then none else some tt)
  modify (λ w. record w { destroyed = not missing })
  name ← gets (λ w. w.pre_name)
  free name
