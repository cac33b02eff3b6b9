-- ===== src/Persistent/Asking.antt =====
-- `speechProcess` of demo/SpeechPersistentDemo/SpeechPersistent.c up to its first `malloc`, and without
-- memory.
use program_learning.Prelude.{
  ℕ, suc, ◌<◌, ◌≤◌, ◌≡◌, ◌≢◌, refl, ap, ◌∙◌, true, false, some, [], ◌∷◌, ◌++◌, arith, length, ltb,
  ◌==◌, ◌||◌, if◌then◌else◌, set-middle, get_elem?-middle,
}
use program_learning.Prelude.Int.{pos}
use program_learning.Prelude.Text.{Text}
use program_learning.ThreadPool.{Pool}
use program_learning.Persistent.{
  PersistentType, handle, released, malloc_handle, malloc_buffer, System, World, pure, free,
  max_nlp_buffer_len,
}
use program_learning.Persistent.Service.{
  failed, blank, framed_len, store_request, speech_process, no_pool,
}
use program_learning.Persistent.Heap.{free_lem, step_on}

-- Past its guards the call stores the request.
pub speech_process-stores :
    (system : System) (w : World) (id : ℕ) (type : PersistentType) (buf : Text) (len : ℕ)
    (pool : Pool)
    → id ≢ 0
    → 0 < len
    → len ≤ max_nlp_buffer_len
    → w.thread_pool ≡ some pool
    → speech_process system id (some buf) (pos len) type w ≡ store_request system id buf len type w
unfolding speech_process
speech_process-stores system w id type buf len pool named some_bytes bounded has =
    ap (λ b. (if b then pure (some failed) else store_request system id buf len type) w) guard
  where
    in_use : no_pool w ≡ false
    in_use = rw has refl

    guard : (id == 0 || len == 0 || ltb max_nlp_buffer_len len || no_pool w) ≡ false
    guard = ground (arith, in_use)

module _ (system : System) (w : World) (id : ℕ) (type : PersistentType) (buf : Text) (len : ℕ) where
  -- Without memory for the handle.
  pub without_handle :
      system w.calls malloc_handle ≡ false
      → store_request system id buf len type w
        ≡ some (some failed, record w { calls = malloc_handle ∷ w.calls })
  unfolding store_request
  without_handle room = rw room refl

  -- Without memory for the buffer: the handle is released.
  pub without_buffer :
      system w.calls malloc_handle ≡ true
      → system (malloc_handle ∷ w.calls) (malloc_buffer (framed_len type len)) ≡ false
      → store_request system id buf len type w
        ≡ some (
          some failed,
          record w {
            blocks = w.blocks ++ (released ∷ []);
            calls = malloc_buffer (framed_len type len) ∷ malloc_handle ∷ w.calls;
          },
        )
  unfolding store_request
  without_buffer room more =
      rw (room, more) refl
      ∙ step_on (free (suc (length w.blocks))) (pure (some failed)) {w = here} (
          free_lem (suc (length w.blocks)) here {b = handle blank}
            (get_elem?-middle w.blocks (handle blank) [] (length w.blocks) refl) refl)
      ∙ ap (λ b. some (some failed, record here { blocks = b }))
          (set-middle w.blocks (handle blank) [] (length w.blocks) released refl)
    where
      here : World
      here = record w {
        blocks = w.blocks ++ (handle blank ∷ []);
        calls = malloc_buffer (framed_len type len) ∷ malloc_handle ∷ w.calls;
      }
