-- ===== src/Persistent/Writing.antt =====
-- The end of `ProcessTask` of demo/SpeechPersistentDemo/SpeechPersistent.c: the file is opened and
-- written, and what the task holds is released.
use program_learning.Prelude.{
  ℕ, zero, suc, ◌≡◌, refl, ap, ◌∙◌, Bool, true, false, Option, some, none, List, [], ◌∷◌, ◌++◌,
  arith, length, if◌then◌else◌, le→leb, take_all,
}
use program_learning.Prelude.Int.{ℤ, pos, negsuc}
use program_learning.Prelude.Text.{Text, codes}
use program_learning.Persistent.{
  PersistentType, start, speech, asr, nlp, stop, PersistentHandle, Block, text, handle, released,
  Call, create, write, close, System, World, ◌>>◌, pure, given, call, read_text, block_at,
  put_block, free, as_text,
}
use program_learning.Persistent.Tasks.{bytes_of, wrote_all, write_file, give_up, with_file, save}
use program_learning.Persistent.Heap.{
  block_at-append, block_at-new, put_block-new, block_at-put_ne, other_block, free_lem, step,
  step_on,
}

-- The file for a type.
abbrev pub file_of : PersistentType → Option Text
file_of asr = some (codes "outputasr.json")
file_of nlp = some (codes "output.json")
file_of speech = some (codes "input.pcm")
file_of start = none
file_of stop = none

-- A handle with all that it needs: its own block, its id and its buffer, and the folder's name.
pub record Request (w : World) (a : ℕ) (h : PersistentHandle) (pre id bytes : Text) : Type 0 where
  pub at : block_at w.blocks a ≡ some (handle h)
  pub folder : block_at w.blocks w.pre_name ≡ some (text pre)
  pub named : block_at w.blocks h.id ≡ some (text id)
  pub buffer : block_at w.blocks h.buf ≡ some (text bytes)
  pub whole : h.len ≡ length bytes

-- The world when the name, the buffer and the handle are done with; `left` is what becomes of the name.
abbrev pub ended : World → ℕ → ℕ → Block → List Call → World
ended w a buf left calls = record w {
  blocks = put_block a released (put_block buf released (w.blocks ++ (left ∷ [])));
  calls = calls;
}

-- What becomes of the name, for the answer of `open`: it is kept where the write failed.
abbrev pub name_left : System → World → PersistentHandle → Text → Text → ℤ → Block
name_left system w h bytes path (pos (suc n)) =
    if wrote_all (system (create path ∷ w.calls) (write (suc n) bytes)) h.len
    then released
    else text path
name_left system w h bytes path (pos zero) = released
name_left system w h bytes path (negsuc n) = released

-- The calls of the task.
abbrev pub calls_made : List Call → Text → Text → ℤ → List Call
calls_made calls bytes path (pos (suc n)) =
    close (suc n) ∷ write (suc n) bytes ∷ create path ∷ calls
calls_made calls bytes path (pos zero) = create path ∷ calls
calls_made calls bytes path (negsuc n) = create path ∷ calls

module _ (system : System) (w : World) (a : ℕ) (h : PersistentHandle) (pre id bytes path : Text)
    (r : Request w a h pre id bytes) where
  abbrev name : ℕ
  name = suc (length w.blocks)

  -- The end of the task, for what is left of the name.
  released_both :
      (left : Block) (calls : List Call)
      → free h.buf (record w { blocks = w.blocks ++ (left ∷ []); calls = calls })
        ≡ some (
          tt,
          record w { blocks = put_block h.buf released (w.blocks ++ (left ∷ [])); calls = calls },
        )
  released_both left calls =
      free_lem h.buf _ (block_at-append w.blocks (left ∷ []) h.buf r.buffer) refl

  released_handle :
      (left : Block) (calls : List Call)
      → free a
          (record w { blocks = put_block h.buf released (w.blocks ++ (left ∷ [])); calls = calls })
        ≡ some (tt, ended w a h.buf left calls)
  released_handle left calls =
      free_lem a _ {b = handle h}
        (block_at-put_ne (w.blocks ++ (left ∷ [])) h.buf a released
            (other_block w.blocks h.buf a r.buffer r.at (λ e. cc))
          ∙ block_at-append w.blocks (left ∷ []) a r.at)
        refl

  name_freed :
      (calls : List Call)
      → free (name) (record w { blocks = w.blocks ++ (text path ∷ []); calls = calls })
        ≡ some (tt, record w { blocks = w.blocks ++ (released ∷ []); calls = calls })
  name_freed calls =
      free_lem (suc (length w.blocks)) _ (block_at-new w.blocks (text path)) refl
      ∙ ap (λ b. some (tt, record w { blocks = b; calls = calls }))
          (put_block-new w.blocks (text path) released)

  given_up :
      (calls : List Call)
      → give_up system a h
          (name)
          (record w { blocks = w.blocks ++ (text path ∷ []); calls = calls })
        ≡ some (tt, ended w a h.buf released calls)
  given_up calls =
      step_on (free name) (free h.buf >> free a) (name_freed calls)
      ∙ step_on (free h.buf) (free a) (released_both released calls)
      ∙ released_handle released calls

  abbrev named_world : List Call → World
  named_world calls = record w { blocks = w.blocks ++ (text path ∷ []); calls = calls }

  all_bytes :
      bytes_of h.buf h.len (named_world (create path ∷ w.calls))
      ≡ some (bytes, named_world (create path ∷ w.calls))
  all_bytes =
      step (read_text h.buf) _ (
        ap (λ o. given (as_text o) (named_world (create path ∷ w.calls)))
          (block_at-append w.blocks (text path ∷ []) h.buf r.buffer))
      ∙ rw (r.whole, le→leb (length bytes) (length bytes) (omega arith), take_all bytes) refl

  closed :
      (n : ℕ) (left : Block) (calls : List Call)
      → (call system (close n) >> (free h.buf >> free a))
          (record w { blocks = w.blocks ++ (left ∷ []); calls = calls })
        ≡ some (tt, ended w a h.buf left (close n ∷ calls))
  closed n left calls =
      step_on (free h.buf) (free a) (released_both left (close n ∷ calls))
      ∙ released_handle left (close n ∷ calls)

  kept_or_freed :
      (n : ℕ) (b : Bool) (calls : List Call)
      → ((if b then free name else pure tt) >> (call system (close n) >> (free h.buf >> free a)))
          (named_world calls)
        ≡ some (tt, ended w a h.buf (if b then released else text path) (close n ∷ calls))
  kept_or_freed n true calls =
      step_on (free name) (call system (close n) >> (free h.buf >> free a)) (name_freed calls)
      ∙ closed n released calls
  kept_or_freed n false calls = closed n (text path) calls

  written :
      (n : ℕ)
      → write_file system a h name (suc n) (named_world (create path ∷ w.calls))
        ≡ some (
          tt,
          ended w a h.buf
              (name_left system w h bytes path (pos (suc n)))
              (calls_made w.calls bytes path (pos (suc n))),
        )
  unfolding write_file
  written n =
      step (bytes_of h.buf h.len) _ all_bytes
      ∙ kept_or_freed (suc n)
          (wrote_all (system (create path ∷ w.calls) (write (suc n) bytes)) h.len)
          (write (suc n) bytes ∷ create path ∷ w.calls)

  opened :
      (f : ℤ)
      → with_file system f a h name (named_world (create path ∷ w.calls))
        ≡ some (
          tt,
          ended w a h.buf (name_left system w h bytes path f) (calls_made w.calls bytes path f),
        )
  opened (pos zero) = given_up (create path ∷ w.calls)
  opened (pos (suc n)) = written n
  opened (negsuc n) = given_up (create path ∷ w.calls)

  pub saved :
      save system a h name (named_world w.calls)
      ≡ some (
        tt,
        ended w a h.buf
            (name_left system w h bytes path (system w.calls (create path)))
            (calls_made w.calls bytes path (system w.calls (create path))),
      )
  unfolding save
  saved =
      step (read_text name) _
        (ap (λ o. given (as_text o) (named_world w.calls)) (block_at-new w.blocks (text path)))
      ∙ opened (system w.calls (create path))
