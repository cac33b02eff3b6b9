-- ===== src/Files.antt =====
-- Paths and the removal of files in demo/SpeechPersistentDemo/SpeechPersistent.c. What the system
-- answers about a file, and about all that lies below it, is an argument: a tree of answers, which
-- may differ from one call to the next in any way.
pub mod Path
pub mod Order
pub mod Status
pub mod Folder
mod Tests
use program_learning.Prelude.{
  ℕ, ◌+◌, ◌-◌, Bool, true, false, not, ◌&&◌, ◌||◌, Option, none, some, List, [], ◌∷◌, ◌++◌, ltb,
  ◌==◌, if◌then◌else◌, length, get_or,
}
use program_learning.Prelude.Int.{ℤ, pos, negsuc}
use program_learning.Prelude.Text.{Text, codes}

abbrev pub slash : ℕ
slash = b'/'

abbrev pub dot : ℕ
dot = b'.'

-- `s[i]`, with the zero behind the text.
abbrev pub char_at : Text → ℕ → ℕ
char_at s i = get_or s i 0

-- `DOT_OR_DOTDOT`
pub dot_or_dotdot : Text → Bool
dot_or_dotdot s =
    char_at s 0 == dot && (char_at s 1 == 0 || (char_at s 1 == dot && char_at s 2 == 0))

-- `last_char_is`: whether it finds the character.
pub last_char_is : Option Text → ℕ → Bool
last_char_is none c = false
last_char_is (some s) c = ltb 0 (length s) && char_at s (length s - 1) == c

-- `while (*filename == '/') filename++`
pub skip_slashes : Text → Text
skip_slashes [] = []
skip_slashes (c ∷ cs) = if c == slash then skip_slashes cs else c ∷ cs

-- The path of `concat_path_file`, NULL as `none`; `vasprintf` has memory.
pub concat_path_file : Option Text → Text → Text
unfolding last_char_is skip_slashes
concat_path_file none filename = slash ∷ skip_slashes filename
concat_path_file (some path) filename =
    path ++ ((if last_char_is (some path) slash then [] else slash ∷ []) ++ skip_slashes filename)

-- `concat_subpath_file`
pub concat_subpath_file : Text → Text → Option Text
unfolding dot_or_dotdot concat_path_file
concat_subpath_file path f = if dot_or_dotdot f then none else some (concat_path_file (some path) f)

-- What the system answers about a path: `lstat` fails with an error; the path is a folder that cannot
-- be opened; a folder with entries, and whether `closedir` and `rmdir` succeed on it; or something
-- else, and whether `unlink` succeeds. Each entry comes with the answers about its own path.
mutual
  pub data Answers : Type 0 where
    no_stat : ℕ → Answers
    no_folder : Answers
    folder : Entries → Bool → Bool → Answers
    plain : Bool → Answers

  pub data Entries : Type 0 where
    end : Entries
    entry : Text → Answers → Entries → Entries

-- The calls that change something.
pub data Removal : Type 0 where
  removed_folder : Text → Removal
  unlinked : Text → Removal

-- `ENOENT`
abbrev pub enoent : ℕ
enoent = 2

abbrev pub failed : ℤ
failed = negsuc 0

-- `remove_file` from `closedir` on.
abbrev pub close_folder : Text → Bool → Bool → ℤ × List Removal → ℤ × List Removal
close_folder path false removes (status, done) = (failed, done)
close_folder path true false (status, done) = (failed, done ++ (removed_folder path ∷ []))
close_folder path true true (status, done) = (status, done ++ (removed_folder path ∷ []))

-- `if (remove_file(new_path) < 0) status = -1`
abbrev pub worse : ℤ → ℤ → ℤ
worse (pos n) status = status
worse (negsuc n) status = failed

abbrev pub then_also : List Removal → ℤ × List Removal → ℤ × List Removal
then_also done (status, more) = (status, done ++ more)

-- A round of its loop, for `new_path`; `remove` is the call on it and `more` are the other rounds.
abbrev pub remove_round :
    Option Text → ℤ → (Text → ℤ × List Removal) → (ℤ → ℤ × List Removal) → ℤ × List Removal
remove_round none status remove more = more status
remove_round (some new_path) status remove more =
    then_also (remove new_path).1 (more (worse (remove new_path).0 status))

-- `remove_file`: what it returns, and the calls of `rmdir` and `unlink` in their order.
unfoldable mutual
  pub remove_file : Text → Answers → ℤ × List Removal
  remove_file path (no_stat errno) = (if errno == enoent then pos 0 else failed, [])
  remove_file path no_folder = (failed, [])
  remove_file path (folder entries closes removes) =
      close_folder path closes removes (remove_entries path entries (pos 0))
  remove_file path (plain unlinks) = (if unlinks then pos 0 else failed, unlinked path ∷ [])

  -- Its loop over `readdir`, with `status`.
  pub remove_entries : Text → Entries → ℤ → ℤ × List Removal
  remove_entries path end status = (status, [])
  remove_entries path (entry name answers rest) status =
      remove_round (concat_subpath_file path name) status (λ new_path. remove_file new_path answers)
        (remove_entries path rest)

-- What `lstat` says of an entry in `rmDir`.
pub data Kind : Type 0 where
  regular : Kind
  other : Kind
  unknown : Kind

-- The loop of `rmDir`. Where `lstat` fails, `statbuf` still holds what it held, and so does this
-- test. The result are the names that are removed.
pub remove_regular : Bool → List (Text × Kind) → List Text
remove_regular last [] = []
remove_regular last ((name, regular) ∷ rest) = name ∷ remove_regular true rest
remove_regular last ((name, other) ∷ rest) = remove_regular false rest
remove_regular last ((name, unknown) ∷ rest) =
    (if last then name ∷ [] else []) ++ remove_regular last rest

-- What the system answers `rmDir` about its path.
pub data Place : Type 0 where
  missing : Place
  shut : Place
  opened : List (Text × Kind) → Place
  no_dir : Place

-- What it does besides: it makes the folder the working directory, and removes names there.
pub data Deletion : Type 0 where
  changed_to : Text → Deletion
  removed : Text → Deletion

abbrev pub each_removed : List Text → List Deletion
each_removed [] = []
each_removed (name ∷ names) = removed name ∷ each_removed names

-- `rmDir`
pub rm_dir : Option Text → Place → ℤ × List Deletion
unfolding remove_regular
rm_dir none place = (failed, [])
rm_dir (some dir) missing = (failed, [])
rm_dir (some dir) shut = (failed, [])
rm_dir (some dir) (opened entries) =
    (pos 0, changed_to dir ∷ each_removed (remove_regular false entries))
rm_dir (some dir) no_dir = (pos 0, removed dir ∷ [])
