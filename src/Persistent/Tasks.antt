-- ===== src/Persistent/Tasks.antt =====
-- The tasks of demo/SpeechPersistentDemo/SpeechPersistent.c, which the thread of the pool runs, and
-- `UploadTask`, which has a thread of its own. A task is given the address of a handle.
use program_learning.Prelude.{
  ℕ, zero, suc, ◌+◌, ◌%◌, Bool, true, false, Option, none, some, leb, ◌==◌, if◌then◌else◌, length,
  get_elem?, take,
}
use program_learning.Prelude.Int.{ℤ, pos, negsuc}
use program_learning.Prelude.Text.{Text}
use program_learning.Persistent.{
  PersistentType, start, speech, asr, nlp, stop, PersistentHandle, mkdir, create, write, close,
  remove, upload, System, World, Run, ◌>>=◌, ◌>>◌, pure, given, gets, modify, call, read_text,
  read_handle, free, default_local, max_path_index, max_persistent_count,
}
use program_learning.Persistent.Names.{
  init_path, get_dir_by_id, get_name_by_id, get_asr_by_id, get_nlp_by_id,
}

-- `gpDefaultPath = gDefaultLocal[gnDefaultPathIndex]`
abbrev pub choose_path : World → World
choose_path w = record w { default_path = get_elem? default_local w.default_path_index }

abbrev pub is_start : PersistentType → Bool
is_start start = true
is_start _ = false

-- The name of the file for a type.
unfoldable pub name_by_type : PersistentType → ℕ → Option (Run ℕ)
unfolding get_name_by_id get_asr_by_id get_nlp_by_id
name_by_type asr id = some (get_asr_by_id id)
name_by_type nlp id = some (get_nlp_by_id id)
name_by_type speech id = some (get_name_by_id id)
name_by_type start id = none
name_by_type stop id = none

abbrev pub wrote_all : ℤ → ℕ → Bool
wrote_all (pos n) len = n == len
wrote_all (negsuc n) len = false

-- The first `len` bytes of a block.
abbrev pub bytes_of : ℕ → ℕ → Run Text
bytes_of a len = do
  bytes ← read_text a
  given (if leb len (length bytes) then some (take len bytes) else none)

module _ (system : System) where
  -- `UploadTask`; nothing is sent: the files are removed.
  unfoldable pub upload_task : Option Text → Run (Unit {0})
  upload_task none = pure tt
  upload_task (some path) = do
    modify (λ w. record w { default_path_index = (w.default_path_index + 1) % max_path_index })
    modify choose_path
    name ← gets (λ w. w.pre_name)
    free name
    modify (λ w. record w { pre_name = 0 })
    answers ← call system (remove path)
    pure tt

  -- `checkUpload`; the thread is started.
  unfoldable pub check_upload : Run (Unit {0})
  check_upload = do path ← gets (λ w. w.default_path); call system (upload path)

  -- `doCheckAndTriggerUpload`
  unfoldable pub do_check_and_trigger_upload : Run (Unit {0})
  unfolding check_upload
  do_check_and_trigger_upload = do
    count ← gets (λ w. w.persistent_count)
    if count + 1 == max_persistent_count then check_upload else pure tt
    modify (λ w. record w { persistent_count = (w.persistent_count + 1) % max_persistent_count })

  -- `StartTask` for a handle of its type.
  unfoldable pub make_work_space : ℕ → PersistentHandle → Run (Unit {0})
  unfolding init_path get_dir_by_id
  make_work_space a h = do
    modify choose_path
    init_path system
    name ← get_dir_by_id h.id
    path ← read_text name
    made ← call system (mkdir path)
    free name
    free a

  -- `StartTask`
  unfoldable pub start_task : ℕ → Run (Unit {0})
  unfolding make_work_space
  start_task zero = pure tt
  start_task (suc i) = do
    h ← read_handle (suc i)
    if is_start h.type then make_work_space (suc i) h else free (suc i)

  -- `StopTask` where the recording was not completed.
  unfoldable pub discard : ℕ → Run (Unit {0})
  unfolding get_dir_by_id
  discard id = do
    dir ← get_dir_by_id id
    path ← read_text dir
    answers ← call system (remove path)
    free dir

  -- `StopTask`; another type is only printed.
  unfoldable pub stop_task : ℕ → Run (Unit {0})
  unfolding discard do_check_and_trigger_upload
  stop_task zero = pure tt
  stop_task (suc i) = do
    h ← read_handle (suc i)
    if h.completed then do_check_and_trigger_upload else discard h.id
    free h.buf
    free h.id
    free (suc i)

  -- `ProcessTask` with the file open.
  unfoldable pub write_file : ℕ → PersistentHandle → ℕ → ℕ → Run (Unit {0})
  write_file a h name fd = do
    bytes ← bytes_of h.buf h.len
    ret ← call system (write fd bytes)
    if wrote_all ret h.len then free name else pure tt
    call system (close fd)
    free h.buf
    free a

  -- `ProcessTask` where the file cannot be opened.
  abbrev pub give_up : ℕ → PersistentHandle → ℕ → Run (Unit {0})
  give_up a h name = do free name; free h.buf; free a

  abbrev pub with_file : ℤ → ℕ → PersistentHandle → ℕ → Run (Unit {0})
  with_file (pos zero) a h name = give_up a h name
  with_file (pos (suc n)) a h name = write_file a h name (suc n)
  with_file (negsuc n) a h name = give_up a h name

  -- `ProcessTask` from `open` on.
  unfoldable pub save : ℕ → PersistentHandle → ℕ → Run (Unit {0})
  unfolding write_file
  save a h name = do path ← read_text name; fd ← call system (create path); with_file fd a h name

  -- `ProcessTask` for the name that goes with the type, if there is one.
  unfoldable pub process : ℕ → PersistentHandle → Option (Run ℕ) → Run (Unit {0})
  unfolding save
  process a h none = do free h.buf; free a
  process a h (some get_name) = do name ← get_name; save a h name

  -- `ProcessTask`
  unfoldable pub process_task : ℕ → Run (Unit {0})
  unfolding name_by_type process
  process_task zero = pure tt
  process_task (suc i) = do h ← read_handle (suc i); process (suc i) h (name_by_type h.type h.id)
