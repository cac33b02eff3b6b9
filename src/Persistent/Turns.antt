-- ===== src/Persistent/Turns.antt =====
-- The caller of demo/SpeechPersistentDemo/SpeechPersistent.c and the pool's thread, in any order.
pub mod Asks
pub mod Works
pub mod Log
mod Tests
use program_learning.Prelude.{
  ℕ, zero, suc, ◌+◌, ◌<◌, ◌≤◌, ◌≡◌, ◌≢◌, refl, ap, ap₂, sym, ◌∙◌, ◌⊎◌, inl, inr, Bool, true, false,
  Option, some, none, List, [], ◌∷◌, ◌++◌, map, arith, length, take, append_assoc, append-nil,
  subst, Bool-cases,
}
use program_learning.Prelude.Int.{ℤ, pos, negsuc}
use program_learning.Prelude.Text.{Text}
use program_learning.Persistent.{
  PersistentType, PersistentHandle, Block, text, handle, released, Call, access, mkdir, create,
  write, close, remove, upload, malloc_handle, malloc_buffer, System, World, block_at,
  max_nlp_buffer_len,
}
use program_learning.Persistent.Names.{◌</>◌}
use program_learning.Persistent.Service.{framed, framed_len, speech_process, work}
use program_learning.Persistent.Heap.{block_at-append, step}
use program_learning.Persistent.Writing.{file_of}
use program_learning.Persistent.Session.{
  Job, path_of, Pending, Waiting, Queued, all_served, served, work-serves, Keeps,
}
use program_learning.Persistent.Joining.{
  grown, NoBuffer, job_of, Pending-grown, joined_world, joined,
}
use program_learning.Persistent.Order.{rounds, rounds-serve}

-- A path, and what is put there.
abbrev pub Entry : Type 0
Entry = Text × Text

abbrev pub entry_of : Text → Job → Entry
entry_of pre job = (path_of pre job, job.bytes)

-- The bytes that a `write` with this result stored.
abbrev pub stored : ℤ → Text → Text
stored (pos n) bytes = take n bytes
stored (negsuc n) bytes = []

-- What the calls stored, each at the path that was opened last.
abbrev pub files : System → List Call → List Entry
files system [] = []
files system (write fd bytes ∷ create path ∷ calls) =
    files system calls
    ++ ((path, stored (system (create path ∷ calls) (write fd bytes)) bytes) ∷ [])
files system (c ∷ calls) = files system calls

-- A request that returned this is accepted, or it is not.
abbrev pub accepted : ℤ → Entry → List Entry
accepted (pos n) e = e ∷ []
accepted (negsuc n) e = []

module _ (system : System) (pre name : Text) (id : ℕ) where
  -- One turn: a call of `speechProcess` for the session that returns, or a round of the pool's thread.
  pub data Turn (w : World) (new : List Entry) (w' : World) : Type 0 where
    asks :
        (type : PersistentType) (buf : Text) (len : ℕ) (file : Text) (r : ℤ)
        → 0 < len
        → len ≤ max_nlp_buffer_len
        → len ≤ length buf
        → file_of type ≡ some file
        → speech_process system id (some buf) (pos len) type w ≡ some (some r, w')
        → new ≡ accepted r (pre </> (name </> file), framed type (take len buf))
        → Turn w new w'
    works : (ran : Bool) → work system w ≡ some (ran, w') → new ≡ [] → Turn w new w'

  -- Turns, and the requests accepted in them.
  pub data Turns (w : World) : List Entry → World → Type 0 where
    here : Turns w [] w
    next :
        {old new all : List Entry} {v w' : World}
        → Turns w old v
        → Turn v new w'
        → all ≡ old ++ new
        → Turns w all w'

  -- The session is on, and these requests wait.
  pub record IsOn (w : World) (jobs : List Job) : Type 0 where
    pub queued : Queued w pre jobs
    pub runs : w.destroyed ≡ false
    pub at : block_at w.blocks id ≡ some (text name)
    pub folder : block_at w.blocks w.pre_name ≡ some (text pre)
    pub no_buffer : NoBuffer id jobs

  -- What a turn does to the requests that wait: what is written and what waits is what was, and then
  -- what was accepted.
  pub record Goes (w : World) (jobs : List Job) (new : List Entry) (w' : World) : Type 0 where
    pub left : List Job
    pub on : IsOn w' left
    pub log :
        files system w'.calls ++ map (entry_of pre) left
        ≡ files system w.calls ++ (map (entry_of pre) jobs ++ new)
