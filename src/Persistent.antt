-- ===== src/Persistent.antt =====
-- demo/SpeechPersistentDemo/SpeechPersistent.c, which stores recordings and their results: its types,
-- its global variables, the memory and the system. A function of it is an action, which takes the
-- world to a result and the next world; `none` is undefined behaviour, such as a use of NULL, a write
-- behind an array, or a second release of a block. What the system answers to a call may depend on
-- all calls before it, and is a parameter. `strdup` has memory.
pub mod Names
pub mod Tasks
pub mod Service
pub mod Heap
pub mod Writing
pub mod Saving
pub mod Session
pub mod Joining
pub mod Order
pub mod Asking
pub mod Turns
mod Tests
pub mod Stop
pub mod Start
pub mod Ids
pub mod Rotation
pub mod Requests
use program_learning.Prelude.{
  ℕ, zero, suc, ◌+◌, Bool, true, false, Option, none, some, List, [], ◌∷◌, ◌++◌, ltb, ◌==◌,
  if◌then◌else◌, length, get_elem?, set,
}
use program_learning.Prelude.Int.{ℤ}
use program_learning.Prelude.Text.{Text, codes}
use program_learning.Files.{Answers}
use program_learning.ThreadPool.{Pool}

-- `PersistentType_t`
pub data PersistentType : Type 0 where
  start speech asr nlp stop : PersistentType

-- `PersistentHandle_t`, with addresses for pointers, NULL as 0.
pub record PersistentHandle : Type 0 where
  pub id : ℕ
  pub type : PersistentType
  pub buf : ℕ
  pub len : ℕ
  pub completed : Bool

-- A block of memory.
pub data Block : Type 0 where
  text : Text → Block
  handle : PersistentHandle → Block
  released : Block

-- The calls of the system. `remove` stands for all those of `remove_file` on a path, `upload` for
-- the start of a thread that runs `UploadTask`.
pub data Call : Type 0 where
  access : Text → Call
  mkdir : Text → Call
  create : Text → Call
  write : ℕ → Text → Call
  close : ℕ → Call
  remove : Text → Call
  upload : Option Text → Call
  malloc_handle : Call
  malloc_buffer : ℕ → Call

-- What a call answers: `access` whether the path is there, `mkdir` the error, `open` and `write` a
-- number, `malloc` whether there is memory.
abbrev pub Reply : Call → Type 0
Reply (access p) = Bool
Reply (mkdir p) = Option ℕ
Reply (create p) = ℤ
Reply (write fd bytes) = ℤ
Reply (close fd) = Unit {0}
Reply (remove p) = Answers
Reply (upload p) = Unit {0}
Reply malloc_handle = Bool
Reply (malloc_buffer n) = Bool

-- Given the calls before, the latest first.
abbrev pub System : Type 0
System = List Call → (c : Call) → Reply c

-- `MAX_INDEX`, `MAX_NLP_BUFFER_LEN`, `MAX_PERSISTENT_COUNT`, `SN_LENGTH`, `MAX_PATH_INDEX`
abbrev pub max_index : ℕ
max_index = 64

abbrev pub max_nlp_buffer_len : ℕ
max_nlp_buffer_len = 131072

abbrev pub max_persistent_count : ℕ
max_persistent_count = 20

abbrev pub sn_length : ℕ
sn_length = 33

abbrev pub max_path_index : ℕ
max_path_index = 4

-- `gDefaultLocal`
abbrev pub default_local : List Text
default_local =
    codes "/data/speech0"
    ∷ codes "/data/speech1"
    ∷ codes "/data/speech2"
    ∷ codes "/data/speech3"
    ∷ []

-- The global variables, the memory, and the calls made so far. The pool is the one of
-- `gThreadPool`; `destroyed` says that its memory is no longer there.
pub record World : Type 0 where
  pub thread_pool : Option Pool
  pub destroyed : Bool
  pub pre_name : ℕ
  pub persistent_count : ℕ
  pub sd_id : List ℕ
  pub default_path : Option Text
  pub default_path_index : ℕ
  pub blocks : List Block
  pub calls : List Call

abbrev pub Run : Type 0 → Type 0
Run A = World → Option (A × World)

infixl 5 ◌>>=◌ ◌>>◌
abbrev pub ◌>>=◌ : {A B : Type 0} → Run A → (A → Run B) → Run B
◌>>=◌ m k w = elim (m w) [ none ↦ none | some (a, w') ↦ k a w' ]

abbrev pub ◌>>◌ : {B : Type 0} → Run (Unit {0}) → Run B → Run B
m >> k = m >>= λ _. k

module _ {A : Type 0} where
  abbrev pub pure : A → Run A
  pure a w = some (a, w)

  -- NULL, or what is out of range.
  abbrev pub given : Option A → Run A
  given none w = none
  given (some a) w = some (a, w)

  abbrev pub gets : (World → A) → Run A
  gets f w = some (f w, w)

abbrev pub modify : (World → World) → Run (Unit {0})
modify f w = some (tt, f w)

abbrev pub call : System → (c : Call) → Run (Reply c)
call system c w = some (system w.calls c, record w { calls = c ∷ w.calls })

-- A block gets an address that no other had.
abbrev pub allocate : Block → Run ℕ
allocate b w = some (suc (length w.blocks), record w { blocks = w.blocks ++ (b ∷ []) })

abbrev pub block_at : List Block → ℕ → Option Block
block_at blocks zero = none
block_at blocks (suc i) = get_elem? blocks i

abbrev pub as_text : Option Block → Option Text
as_text (some (text t)) = some t
as_text _ = none

abbrev pub as_handle : Option Block → Option PersistentHandle
as_handle (some (handle h)) = some h
as_handle _ = none

abbrev pub read_text : ℕ → Run Text
read_text a w = given (as_text (block_at w.blocks a)) w

abbrev pub read_handle : ℕ → Run PersistentHandle
read_handle a w = given (as_handle (block_at w.blocks a)) w

abbrev pub put_block : ℕ → Block → List Block → List Block
put_block zero b blocks = blocks
put_block (suc i) b blocks = set blocks i b

abbrev pub put : ℕ → Block → World → World
put a b w = record w { blocks = put_block a b w.blocks }

abbrev pub is_live : Option Block → Bool
is_live none = false
is_live (some (text t)) = true
is_live (some (handle h)) = true
is_live (some released) = false

-- `free`
abbrev pub free : ℕ → Run (Unit {0})
free zero w = some (tt, w)
free (suc i) w = if is_live (get_elem? w.blocks i) then some (tt, put (suc i) released w) else none

-- `sprintf` into an array of so many bytes.
abbrev pub sprintf : ℕ → Text → Run Text
sprintf size t w = if ltb (length t) size then some (t, w) else none
