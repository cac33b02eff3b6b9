-- ===== src/Persistent/Saving.antt =====
-- What `ProcessTask` of demo/SpeechPersistentDemo/SpeechPersistent.c writes and releases.
use program_learning.Prelude.{
  ℕ, zero, suc, ◌<◌, ◌≡◌, refl, ap, ◌∙◌, Option, some, none, [], ◌∷◌, ◌++◌, length, lt→ltb,
}
use program_learning.Prelude.Text.{Text}
use program_learning.Persistent.{
  PersistentType, start, speech, asr, nlp, stop, PersistentHandle, text, create, System, World,
  ◌>>=◌, given, read_text, read_handle, block_at, as_text, as_handle, sprintf, allocate,
}
use program_learning.Persistent.Names.{◌</>◌, file_by_id}
use program_learning.Persistent.Tasks.{save, process, name_by_type, process_task}
use program_learning.Persistent.Heap.{step}
use program_learning.Persistent.Writing.{file_of, Request, ended, name_left, calls_made, saved}

abbrev text_in : Option Text → Text
text_in none = []
text_in (some t) = t

pub name_by_type-file :
    (t : PersistentType) (id : ℕ) (file : Text)
    → file_of t ≡ some file
    → name_by_type t id ≡ some (file_by_id file id)
unfolding name_by_type
name_by_type-file start id file e = cc
name_by_type-file speech id file e = ap (λ o. some (file_by_id (text_in o) id)) e
name_by_type-file asr id file e = ap (λ o. some (file_by_id (text_in o) id)) e
name_by_type-file nlp id file e = ap (λ o. some (file_by_id (text_in o) id)) e
name_by_type-file stop id file e = cc

file_by_id-lem :
    (w : World) (a : ℕ) (pre id file : Text)
    → block_at w.blocks w.pre_name ≡ some (text pre)
    → block_at w.blocks a ≡ some (text id)
    → length (pre </> (id </> file)) < 256
    → file_by_id file a w
      ≡ some (
        suc (length w.blocks),
        record w { blocks = w.blocks ++ (text (pre </> (id </> file)) ∷ []) },
      )
unfolding file_by_id
file_by_id-lem w a pre id file folder named fits =
    step (λ v. read_text v.pre_name v)
      (λ p. read_text a >>= λ n. sprintf 256 (p </> (n </> file)) >>= λ b. allocate (text b))
      {w = w} (ap (λ o. given (as_text o) w) folder)
    ∙ step (read_text a) (λ n. sprintf 256 (pre </> (n </> file)) >>= λ b. allocate (text b))
        {w = w} (ap (λ o. given (as_text o) w) named)
    ∙ step (sprintf 256 (pre </> (id </> file))) (λ b. allocate (text b)) {w = w}
        (rw (lt→ltb (length (pre </> (id </> file))) 256 fits) refl)

-- `ProcessTask` on a handle that has all it needs, for a type with a file and a path that fits its
-- array: whatever the system answers, it opens that path for appending, and if that gives a positive
-- number it writes exactly the buffer to it and closes it. The handle and its buffer are released,
-- each once, and no other block changes; the name that was made is released too, but for a write that
-- failed or was short, where it stays.
pub process_task-saves :
    (system : System) (w : World) (a : ℕ) (h : PersistentHandle) (pre id bytes file : Text)
    → Request w a h pre id bytes
    → file_of h.type ≡ some file
    → length (pre </> (id </> file)) < 256
    → let path = pre </> (id </> file) in
      let r = system w.calls (create path) in
      process_task system a w
      ≡ some (
        tt,
        ended w a h.buf (name_left system w h bytes path r) (calls_made w.calls bytes path r),
      )
unfolding process_task process
process_task-saves system w zero h pre id bytes file r f fits = cc r.at
process_task-saves system w (suc i) h pre id bytes file r f fits =
    step (read_handle (suc i)) (λ g. process system (suc i) g (name_by_type g.type g.id))
      (ap (λ o. given (as_handle o) w) r.at)
    ∙ ap (λ o. process system (suc i) h o w) (name_by_type-file h.type h.id file f)
    ∙ step (file_by_id file h.id) (save system (suc i) h) {w = w}
        (file_by_id-lem w h.id pre id file r.folder r.named fits)
    ∙ saved system w (suc i) h pre id bytes (pre </> (id </> file)) r
