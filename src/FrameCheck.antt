-- ===== src/FrameCheck.antt =====
-- speech/test/findError.c, which counts the bytes of well-formed and of broken frames in a recording.
-- A file is a list of words: one whose size is no multiple of four is outside the model, since C does
-- not tell what `fread` leaves of a last part. A file that cannot be opened, and a wrong count of
-- arguments, end the program before all this.
pub mod Counts
pub mod Clean
mod Tests
use program_learning.Prelude.{
  ℕ, zero, suc, ◌+◌, ◌*◌, Bool, true, false, ◌&&◌, Option, none, some, List, [], ◌∷◌, ◌++◌, ◌==◌,
  if◌then◌else◌, ◌>>=◌, ltb, ◌^◌, bit_and, length, take, drop, replicate, min,
}

-- `N_BYTES`, `FRAM_SIZE`
abbrev pub n_bytes : ℕ
n_bytes = 4

abbrev pub fram_size : ℕ
fram_size = 12

-- `fileBuffer`, `readCount`, `sucCount`, `errCount`
pub record Checker : Type 0 where
  pub file_buffer : List ℕ
  pub read_count : ℕ
  pub suc_count : ℕ
  pub err_count : ℕ

-- At the start.
abbrev pub fresh : Checker
fresh = record { file_buffer = replicate fram_size 0; read_count = 0; suc_count = 0; err_count = 0 }

-- `k << 8 == (word & 0xF00)`
abbrev pub has_tag : ℕ → ℕ → Bool
has_tag k word = bit_and word 0xf00 == k * 0x100

-- The words have the tags from `k` on, one after another.
abbrev pub in_order : ℕ → List ℕ → Bool
in_order k [] = true
in_order k (word ∷ words) = has_tag k word && in_order (suc k) words

-- `fread` into the buffer from word `i` on: words that are not read stay as they are.
abbrev pub read_into : ℕ → List ℕ → List ℕ → List ℕ
read_into i words buffer = take i buffer ++ (words ++ drop (i + length words) buffer)

-- The counts are of type `int`: one that goes out of its range is a fault.
abbrev pub ranged : Checker → Option Checker
ranged c =
    if ltb c.read_count (2 ^ 31) && (ltb c.suc_count (2 ^ 31) && ltb c.err_count (2 ^ 31))
    then some c
    else none

-- A frame whose eleven other words were read, or as many as there were.
abbrev pub judge : List ℕ → Checker → Checker
judge buffer c =
    if in_order 2 (drop 1 buffer)
    then record c {
      file_buffer = buffer;
      suc_count = c.suc_count + fram_size * n_bytes;
      read_count = c.read_count + fram_size * n_bytes;
    }
    else record c {
      file_buffer = buffer;
      err_count = c.err_count + fram_size * n_bytes;
      read_count = c.read_count + fram_size * n_bytes;
    }

-- A word that starts no frame.
abbrev pub stray : List ℕ → Checker → Checker
stray buffer c = record c {
  file_buffer = buffer;
  read_count = c.read_count + 1 * n_bytes;
  err_count = c.err_count + n_bytes;
}

-- A round behind the first word; `go` are the rounds that follow. With no word left the loop ends.
abbrev pub read_frame :
    (List ℕ → Checker → Option Checker) → List ℕ → List ℕ → Checker → Option Checker
read_frame go [] buffer c = some (record c { file_buffer = buffer })
read_frame go (word ∷ words) buffer c =
    ranged (judge (read_into 1 (take 11 (word ∷ words)) buffer) c) >>= λ c'.
    go (drop 11 (word ∷ words)) c'

abbrev pub read_word : (List ℕ → Checker → Option Checker) → List ℕ → Checker → Option Checker
read_word go [] c = some c
read_word go (word ∷ words) c =
    if has_tag 1 word
    then read_frame go words (read_into 0 (word ∷ []) c.file_buffer) c
    else (ranged (stray (read_into 0 (word ∷ []) c.file_buffer) c) >>= λ c'. go words c')

-- `while (1)`; `none` is a fault, or that the fuel ran out.
pub check_loop : ℕ → List ℕ → Checker → Option Checker
check_loop zero words c = none
check_loop (suc fuel) words c = read_word (check_loop fuel) words c

-- `main`, with a round for each word and one more.
pub check : List ℕ → Option Checker
unfolding check_loop
check words = check_loop (suc (length words)) words fresh
