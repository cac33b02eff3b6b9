-- ===== src/Files/Tests.antt =====
-- Paths and the removal of files in SpeechPersistent.c at small inputs.
use program_learning.Prelude.{
  ℕ, zero, suc, ◌<◌, ◌≡◌, ◌≢◌, refl, ◌⊎◌, ◌↔◌, true, false, some, List, [], ◌∷◌, ◌++◌, arith,
  replicate,
}
use program_learning.Prelude.Int.{pos}
use program_learning.Prelude.Text.{Text, codes}
use program_learning.Files.{
  slash, dot, char_at, dot_or_dotdot, concat_path_file, concat_subpath_file, Kind, Answers, no_stat,
  folder, plain, end, entry, removed_folder, unlinked, failed, remove_file, regular, other, unknown,
  removed, changed_to, opened, rm_dir,
}
use program_learning.Files.Path.{concat_path_file-joins, dot_or_dotdot_iff}
use program_learning.Files.Order.{
  Named, for_plain, for_folder, for_none, for_entry, Among, Holds, remove_file-Holds,
}
use program_learning.Files.Status.{Succeeds, remove_file-Succeeds}
use program_learning.Files.Folder.{rm_dir-removes}

joined : concat_path_file (some (codes "/data/")) (codes "//a") ≡ codes "/data/a"
unfolding concat_path_file
joined = refl

-- A folder with a file, and a folder in it that cannot be removed.
abbrev tree : Answers
tree =
    folder
      (entry (codes ".") (plain true) (
        entry (codes "b") (folder (entry (codes "..") (plain true) end) true false)
          (entry (codes "c") (plain true) end)))
      true true

removes : remove_file (codes "/a") tree ≡ (
  failed,
  removed_folder (codes "/a/b") ∷ unlinked (codes "/a/c") ∷ removed_folder (codes "/a") ∷ [],
)
unfolding remove_file concat_subpath_file
removes = refl

absent_path : remove_file (codes "/a") (no_stat 2) ≡ (pos 0, [])
unfolding remove_file
absent_path = refl

-- The entry that `lstat` fails on is taken for what the one before it is.
stale :
    rm_dir (some (codes "d")) (
      opened (
        (codes "a", regular)
        ∷ (codes "b", unknown)
        ∷ (codes "c", other)
        ∷ (codes "e", unknown)
        ∷ []))
    ≡ (pos 0, changed_to (codes "d") ∷ removed (codes "a") ∷ removed (codes "b") ∷ [])
unfolding rm_dir
stale = refl

joined_path :
    (stem name : Text) × (n : ℕ) × (concat_path_file (some (codes "/data/")) (codes "//a")
      ≡ stem ++ (slash ∷ name))
    × ((codes "/data/" ≡ stem) ⊎ (codes "/data/" ≡ stem ++ (slash ∷ [])))
    × (codes "//a" ≡ replicate n slash ++ name)
    × (char_at name 0 ≢ slash)
joined_path = concat_path_file-joins (codes "/data/") (codes "//a")

short_name : (a : ℕ) → a ≢ 0 → (i : ℕ) → i < 1 → char_at (a ∷ []) i ≢ 0
short_name a h zero l = h
short_name a h (suc i) l = absurd (omega arith)

two_dots : (i : ℕ) → i < 2 → char_at (codes "..") i ≢ 0
two_dots zero h = ground arith
two_dots (suc zero) h = ground arith
two_dots (suc (suc i)) h = absurd (omega arith)

tree-Named : Named tree
tree-Named = for_folder (
    for_entry (short_name dot (ground arith)) for_plain (
      for_entry (short_name b'b' (ground arith))
        (for_folder (for_entry two_dots for_plain for_none))
        (for_entry (short_name b'c' (ground arith)) for_plain for_none)))

remove_file-Holds_example :
    Among (unlinked (codes "/a/c")) (remove_file (codes "/a") tree).1
    ↔ Holds (codes "/a") tree (unlinked (codes "/a/c"))
remove_file-Holds_example = remove_file-Holds (codes "/a") tree (unlinked (codes "/a/c")) tree-Named

remove_file-Succeeds_example : ((remove_file (codes "/a") tree).0 ≡ pos 0) ↔ Succeeds tree
remove_file-Succeeds_example = remove_file-Succeeds (codes "/a") tree tree-Named

abbrev entries : List (Text × Kind)
entries = (codes "a", regular) ∷ (codes "b", unknown) ∷ []

removes_regular :
    (Among {A = Text × Kind} (codes "a", regular) entries
      → Among (removed (codes "a")) (rm_dir (some (codes "d")) (opened entries)).1)
    × (Among (removed (codes "a")) (rm_dir (some (codes "d")) (opened entries)).1
        → Among {A = Text × Kind} (codes "a", regular) entries
          ⊎ Among {A = Text × Kind} (codes "a", unknown) entries)
    × ((rm_dir (some (codes "d")) (opened entries)).0 ≡ pos 0)
removes_regular = rm_dir-removes (codes "d") entries (codes "a")

only_dots :
    (dot_or_dotdot (codes "..") ≡ true) ↔ ((codes ".." ≡ codes ".") ⊎ (codes ".." ≡ codes ".."))
only_dots = dot_or_dotdot_iff (codes "..") two_dots
