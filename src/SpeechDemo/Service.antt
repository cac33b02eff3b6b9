-- ===== src/SpeechDemo/Service.antt =====
-- The calls of demo/SpeechPersistentDemo/SpeechPersistent.c as what the program SpeechDemo.c calls.
use program_learning.Prelude.{
  take-take, ℕ, ◌≤◌, ◌≡◌, ap, sym, ◌∙◌, fun_ext, Option, some, arith, le→leb, length, take,
  length-take,
}
use program_learning.Prelude.Int.{ℤ, pos}
use program_learning.Prelude.Text.{Text}
use program_learning.Persistent.{PersistentType, System, World}
use program_learning.Persistent.Service.{store_request, speech_process}
use program_learning.SpeechDemo.{Env}
use program_learning.SpeechDemo.Passes.{Documented}

-- `speechProcess` of the environment is that of the service, on the world that the state has, and
-- anything may come of what it returns.
pub record Serving {S : Type 0} (env : Env S) (system : System) : Type 0 where
  pub world : S → World
  pub after : Option (Option ℤ × World) → S → S
  pub calls :
      (handle : ℕ) (buffer : Text) (len : ℕ) (type : PersistentType) (s : S)
      → env.speech_process handle buffer len type s
        ≡ after (speech_process system handle (some buffer) (pos len) type (world s)) s

module _ (system : System) where
  store_request-take :
      (id : ℕ) (buf : Text) (len : ℕ) (type : PersistentType) (w : World)
      → len ≤ length buf
      → store_request system id (take len buf) len type w ≡ store_request system id buf len type w
  unfolding store_request
  store_request-take id buf len type w fits = rw (
    le→leb len (length buf) fits,
    le→leb len (length (take len buf)) (omega (arith, length-take len buf, fits)),
    take-take len buf,
  )

  -- A call depends on no more of the buffer than its length.
  speech_process-take :
      (id : ℕ) (buf : Text) (len : ℕ) (type : PersistentType) (w : World)
      → len ≤ length buf
      → speech_process system id (some (take len buf)) (pos len) type w
        ≡ speech_process system id (some buf) (pos len) type w
  unfolding speech_process
  speech_process-take id buf len type w fits =
      rw (speech_process, fun_ext (λ v. store_request-take id buf len type v fits))

  pub Serving-Documented :
      {S : Type 0} (env : Env S)
      → ((size : ℕ) (s : S) (bytes : Text) → (env.read size s).0 ≡ some bytes → length bytes ≤ size)
      → Serving env system
      → Documented env
  Serving-Documented env read_bounds serving = record {
    read_bounds = read_bounds;
    process_takes = λ handle buffer len type s fits.
        serving.calls handle buffer len type s
        ∙ (ap (λ r. serving.after r s)
              (sym (speech_process-take handle buffer len type (serving.world s) fits))
            ∙ sym (serving.calls handle (take len buffer) len type s));
  }
