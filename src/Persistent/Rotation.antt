-- ===== src/Persistent/Rotation.antt =====
-- When demo/SpeechPersistentDemo/SpeechPersistent.c starts an upload, and what an upload does to the
-- folders and to a recording that goes on.
use program_learning.Prelude.{
  ℕ, zero, suc, ◌+◌, ◌/◌, ◌%◌, ◌<◌, ◌≡◌, ◌≢◌, refl, ap, sym, ◌∙◌, ◌⊎◌, inl, inr, some, none, List,
  [], ◌∷◌, arith, ◌==◌, get_elem?, if◌then◌else◌, Bool-cases,
}
use program_learning.Prelude.Text.{Text}
use program_learning.Persistent.{
  PersistentHandle, text, handle, released, Call, access, mkdir, create, write, close, remove,
  upload, malloc_handle, malloc_buffer, System, World, Run, ◌>>◌, ◌>>=◌, pure, given, modify, call,
  block_at, put_block, put, free, read_handle, read_text, as_handle, default_local,
  max_persistent_count, max_path_index,
}
use program_learning.Persistent.Names.{file_by_id}
use program_learning.Persistent.Tasks.{
  upload_task, check_upload, do_check_and_trigger_upload, save, process, process_task, name_by_type,
}
use program_learning.Persistent.Heap.{free_lem, step, step_on, fault, block_at-put_ne, other_block}
use program_learning.Persistent.Saving.{name_by_type-file}
use program_learning.Persistent.Writing.{file_of}

-- The uploads that were started.
abbrev pub uploads : List Call → ℕ
uploads [] = 0
uploads (upload p ∷ calls) = suc (uploads calls)
uploads (access p ∷ calls) = uploads calls
uploads (mkdir p ∷ calls) = uploads calls
uploads (create p ∷ calls) = uploads calls
uploads (write fd b ∷ calls) = uploads calls
uploads (close fd ∷ calls) = uploads calls
uploads (remove p ∷ calls) = uploads calls
uploads (malloc_handle ∷ calls) = uploads calls
uploads (malloc_buffer n ∷ calls) = uploads calls

-- An action so many times.
abbrev pub times : ℕ → Run (Unit {0}) → Run (Unit {0})
times zero m = pure tt
times (suc k) m = m >> times k m

module _ (system : System) where
  -- One more recording that is completed.
  abbrev pub counted : World → World
  counted w = record w {
    persistent_count = (w.persistent_count + 1) % max_persistent_count;
    calls =
        if w.persistent_count + 1 == max_persistent_count
        then upload w.default_path ∷ w.calls
        else w.calls;
  }

  pub checked : (w : World) → do_check_and_trigger_upload system w ≡ some (tt, counted w)
  unfolding do_check_and_trigger_upload check_upload
  checked w = elim (Bool-cases (w.persistent_count + 1 == max_persistent_count)) [
    | inl last ↦ rw last refl
    | inr more ↦ rw more refl
  ]

  uploads-counted :
      (w : World)
      → w.persistent_count < max_persistent_count
      → uploads (counted w).calls + 0
        ≡ uploads w.calls + (w.persistent_count + 1) / max_persistent_count
  uploads-counted w h = elim (Bool-cases (w.persistent_count + 1 == max_persistent_count)) [
    | inl last ↦ rw last (ground (arith, last))
    | inr more ↦ rw more (ground (arith, more))
  ]

  -- With a count below 20, any number of further completed recordings end without a fault: the count
  -- goes on modulo 20, and an upload is started each time it passes 20, no more and no less. The path,
  -- the memory and the pool stay as they are.
  pub do_check_and_trigger_upload-counts :
      (k : ℕ) (w : World)
      → w.persistent_count < max_persistent_count
      → (calls : List Call) × (times k (do_check_and_trigger_upload system) w
          ≡ some (
            tt,
            record w {
              persistent_count = (w.persistent_count + k) % max_persistent_count;
              calls = calls;
            },
          ))
        × (uploads calls ≡ uploads w.calls + (w.persistent_count + k) / max_persistent_count)
  do_check_and_trigger_upload-counts zero w h =
      (w.calls, ap (λ c. some (tt, record w { persistent_count = c })) (omega arith), omega arith)
  do_check_and_trigger_upload-counts (suc k) w h =
      let (calls, e, n) = do_check_and_trigger_upload-counts k (counted w) (omega arith) in
      (
        calls,
        step_on (do_check_and_trigger_upload system) (times k (do_check_and_trigger_upload system))
              {w = w} (checked w)
            ∙ e
            ∙ ap (λ c. some (tt, record w { persistent_count = c; calls = calls })) (omega arith),
        omega (arith, n, uploads-counted w h),
      )

  -- An upload takes the next of the four folders and forgets the name of the last one, which it
  -- releases.
  abbrev pub rotated : World → Text → World
  rotated w path = record w {
    default_path_index = (w.default_path_index + 1) % max_path_index;
    default_path = get_elem? default_local ((w.default_path_index + 1) % max_path_index);
    pre_name = 0;
    blocks = put_block w.pre_name released w.blocks;
    calls = remove path ∷ w.calls;
  }

  abbrev pub Named : World → Type 0
  Named w = (w.pre_name ≡ 0) ⊎ ((t : Text) × (block_at w.blocks w.pre_name ≡ some (text t)))

  name_freed : (w : World) → Named w → free w.pre_name w ≡ some (tt, put w.pre_name released w)
  name_freed w (inl e) = rw e refl
  name_freed w (inr (t, e)) = free_lem w.pre_name w e refl

  pub upload_task-rotated :
      (w : World) (path : Text)
      → Named w
      → upload_task system (some path) w ≡ some (tt, rotated w path)
  unfolding upload_task
  upload_task-rotated w path n =
      step_on (free w.pre_name)
        (modify (λ v. record v { pre_name = 0 })
          >> (call system (remove path) >>= λ answers. pure tt))
        {w = record w {
          default_path_index = (w.default_path_index + 1) % max_path_index;
          default_path = get_elem? default_local ((w.default_path_index + 1) % max_path_index);
        }}
        (name_freed
          (record w {
            default_path_index = (w.default_path_index + 1) % max_path_index;
            default_path = get_elem? default_local ((w.default_path_index + 1) % max_path_index);
          })
          n)

  nameless :
      (w : World) (a : ℕ) (h : PersistentHandle) (file : Text)
      → w.pre_name ≡ 0
      → block_at w.blocks a ≡ some (handle h)
      → file_of h.type ≡ some file
      → process_task system a w ≡ none
  unfolding process_task process file_by_id
  nameless w zero h file e at f = cc
  nameless w (suc i) h file e at f =
      step (read_handle (suc i)) (λ g. process system (suc i) g (name_by_type g.type g.id)) {w = w}
        (ap (λ o. given (as_handle o) w) at)
      ∙ ap (λ o. process system (suc i) h o w) (name_by_type-file h.type h.id file f)
      ∙ fault (file_by_id file h.id) (save system (suc i) h) {w = w}
          (fault (λ v. read_text v.pre_name v) _ {w = w} (ap (λ p. read_text p w) e))

  -- An upload that runs while a recording goes on: it takes the next of the four folders, and the next
  -- `ProcessTask` with a type that has a file faults, for it prints a path from the NULL that the
  -- upload left for the folder's name.
  pub upload_task-breaks :
      (w : World) (path : Text) (a : ℕ) (h : PersistentHandle) (file : Text)
      → Named w
      → block_at w.blocks a ≡ some (handle h)
      → file_of h.type ≡ some file
      → (w' : World) × (upload_task system (some path) w ≡ some (tt, w'))
        × (w'.default_path_index ≡ (w.default_path_index + 1) % max_path_index)
        × (w'.default_path ≡ get_elem? default_local w'.default_path_index)
        × (process_task system a w' ≡ none)
  upload_task-breaks w path a h file n at f = (
    rotated w path,
    upload_task-rotated w path n,
    refl,
    refl,
    nameless (rotated w path) a h file refl
        (block_at-put_ne w.blocks w.pre_name a released (apart n) ∙ at) f,
  )
    where
      apart : Named w → w.pre_name ≢ a
      apart (inl e) same = cc (ap (block_at w.blocks) (sym e ∙ same) ∙ at)
      apart (inr (t, e)) same = other_block w.blocks w.pre_name a e at (λ d. cc) same
