-- ===== src/Persistent/Stop.antt =====
-- What `StopTask` of demo/SpeechPersistentDemo/SpeechPersistent.c does and releases.
use program_learning.Prelude.{
  ℕ, zero, suc, ◌<◌, ◌≡◌, refl, ap, ◌∙◌, Bool, true, false, some, List, [], ◌∷◌, ◌++◌, length,
  lt→ltb, if◌then◌else◌,
}
use program_learning.Prelude.Text.{Text}
use program_learning.Persistent.{
  PersistentHandle, Block, text, handle, released, Call, remove, System, World, ◌>>◌, given,
  allocate, sprintf, block_at, put_block, put, free, read_text, read_handle, as_text, as_handle,
}
use program_learning.Persistent.Names.{◌</>◌, get_dir_by_id}
use program_learning.Persistent.Tasks.{discard, do_check_and_trigger_upload, stop_task}
use program_learning.Persistent.Heap.{
  free_lem, step, step_on, block_at-append, block_at-new, block_at-put_ne, put_block-new,
  other_block,
}
use program_learning.Persistent.Rotation.{counted, checked}

-- The world after the task, for a recording that was completed or not.
abbrev pub stopped : System → World → ℕ → PersistentHandle → Text → Bool → World
stopped system w a h dir true = record (counted system w) {
  blocks = put_block a released (put_block h.id released w.blocks);
}
stopped system w a h dir false = record w {
  blocks = put_block a released (put_block h.id released (w.blocks ++ (released ∷ [])));
  calls = remove dir ∷ w.calls;
}

module _ (system : System) (w : World) (a : ℕ) (h : PersistentHandle) (pre id : Text)
    (here : block_at w.blocks a ≡ some (handle h)) (no_buffer : h.buf ≡ 0)
    (ident : block_at w.blocks h.id ≡ some (text id))
    (folder : block_at w.blocks w.pre_name ≡ some (text pre))
    (fits : length (pre </> id) < 256) where
  -- The handle and its id are released.
  ended :
      (v : World)
      → block_at v.blocks a ≡ some (handle h)
      → block_at v.blocks h.id ≡ some (text id)
      → (free h.buf >> (free h.id >> free a)) v
        ≡ some (tt, record v { blocks = put_block a released (put_block h.id released v.blocks) })
  ended v at_handle at_id =
      ap (λ b. (free b >> (free h.id >> free a)) v) no_buffer
      ∙ step_on (free h.id) (free a) {w = v} (free_lem h.id v at_id refl)
      ∙ free_lem a (put h.id released v) {b = handle h}
          (block_at-put_ne v.blocks h.id a released
              (other_block v.blocks h.id a at_id at_handle (λ d. cc))
            ∙ at_handle)
          refl

  abbrev dir_world : Block → List Call → World
  dir_world b cs = record w { blocks = w.blocks ++ (b ∷ []); calls = cs }

  discarded : discard system h.id w ≡ some (tt, dir_world released (remove (pre </> id) ∷ w.calls))
  unfolding discard get_dir_by_id
  discarded =
      step (get_dir_by_id h.id) _ {w = w} named
      ∙ step (read_text (suc (length w.blocks))) _ {w = dir_world (text (pre </> id)) w.calls} (
          ap (λ o. given (as_text o) (dir_world (text (pre </> id)) w.calls))
            (block_at-new w.blocks (text (pre </> id))))
      ∙ free_lem (suc (length w.blocks))
          (dir_world (text (pre </> id)) (remove (pre </> id) ∷ w.calls))
          (block_at-new w.blocks (text (pre </> id))) refl
      ∙ ap (λ b. some (tt, record w { blocks = b; calls = remove (pre </> id) ∷ w.calls }))
          (put_block-new w.blocks (text (pre </> id)) released)
    where
      named :
          get_dir_by_id h.id w ≡ some (suc (length w.blocks), dir_world (text (pre </> id)) w.calls)
      named =
          step (λ v. read_text v.pre_name v) _ {w = w} (ap (λ o. given (as_text o) w) folder)
          ∙ step (read_text h.id) _ {w = w} (ap (λ o. given (as_text o) w) ident)
          ∙ step (sprintf 256 (pre </> id)) (λ t. allocate (text t)) {w = w}
              (rw (lt→ltb (length (pre </> id)) 256 fits) refl)

  by_completion :
      (b : Bool)
      → ((if b then do_check_and_trigger_upload system else discard system h.id)
            >> (free h.buf >> (free h.id >> free a)))
          w
        ≡ some (tt, stopped system w a h (pre </> id) b)
  by_completion true =
      step_on (do_check_and_trigger_upload system) (free h.buf >> (free h.id >> free a)) {w = w}
        (checked system w)
      ∙ ended (counted system w) here ident
  by_completion false =
      step_on (discard system h.id) (free h.buf >> (free h.id >> free a)) {w = w} discarded
      ∙ ended (dir_world released (remove (pre </> id) ∷ w.calls))
          (block_at-append w.blocks (released ∷ []) a here)
          (block_at-append w.blocks (released ∷ []) h.id ident)

-- A stop handle without a buffer, its id, the folder's name, and a path that fits its array: whatever
-- its type, `StopTask` does not fault. For a recording that was completed it counts it, and starts
-- an upload if it is the twentieth; for another it removes the recording's folder, and releases the
-- name that it made. Either way it releases the handle and the id, each once, and no other block.
pub stop_task-ends :
    (system : System) (w : World) (a : ℕ) (h : PersistentHandle) (pre id : Text)
    → block_at w.blocks a ≡ some (handle h)
    → h.buf ≡ 0
    → block_at w.blocks h.id ≡ some (text id)
    → block_at w.blocks w.pre_name ≡ some (text pre)
    → length (pre </> id) < 256
    → stop_task system a w ≡ some (tt, stopped system w a h (pre </> id) h.completed)
unfolding stop_task
stop_task-ends system w zero h pre id here no_buffer ident folder fits = cc here
stop_task-ends system w (suc i) h pre id here no_buffer ident folder fits =
    step (read_handle (suc i)) _ {w = w} (ap (λ o. given (as_handle o) w) here)
    ∙ by_completion system w (suc i) h pre id here no_buffer ident folder fits h.completed
