-- ===== src/Files/Folder.antt =====
-- What `rmDir` of demo/SpeechPersistentDemo/SpeechPersistent.c removes from a folder.
use program_learning.Prelude.{
  ◌≡◌, refl, ap, ◌⊎◌, inl, inr, Bool, true, false, some, List, [], ◌∷◌, arith,
}
use program_learning.Prelude.Int.{pos}
use program_learning.Prelude.Text.{Text}
use program_learning.Files.{
  Kind, regular, other, unknown, remove_regular, Deletion, changed_to, removed, each_removed,
  opened, rm_dir,
}
use program_learning.Files.Order.{Among}

names_removed :
    (name : Text) (names : List Text) → Among name names → Among (removed name) (each_removed names)
names_removed name (n ∷ names) (inl e) = inl (ap removed e)
names_removed name (n ∷ names) (inr h) = inr (names_removed name names h)
names_removed name [] h = absurd h

abbrev name_of : Deletion → Text
name_of (changed_to dir) = dir
name_of (removed name) = name

removed_names :
    (name : Text) (names : List Text) → Among (removed name) (each_removed names) → Among name names
removed_names name (n ∷ names) (inl e) = inl (ap name_of e)
removed_names name (n ∷ names) (inr h) = inr (removed_names name names h)
removed_names name [] h = absurd h

regular_removed :
    (name : Text) (last : Bool) (entries : List (Text × Kind))
    → Among (name, regular) entries
    → Among name (remove_regular last entries)
unfolding remove_regular
regular_removed name last [] h = absurd h
regular_removed name last ((n, regular) ∷ rest) (inl e) = inl (ap (λ (p : Text × Kind). p.0) e)
regular_removed name last ((n, regular) ∷ rest) (inr h) = inr (regular_removed name true rest h)
regular_removed name last ((n, other) ∷ rest) (inl e) = absurd (ground (arith, e))
regular_removed name last ((n, other) ∷ rest) (inr h) = regular_removed name false rest h
regular_removed name last ((n, unknown) ∷ rest) (inl e) = absurd (ground (arith, e))
regular_removed name true ((n, unknown) ∷ rest) (inr h) = inr (regular_removed name true rest h)
regular_removed name false ((n, unknown) ∷ rest) (inr h) = regular_removed name false rest h

abbrev Found : Text → List (Text × Kind) → Type 0
Found name entries = Among (name, regular) entries ⊎ Among (name, unknown) entries

deeper :
    {name : Text} {entry : Text × Kind} (rest : List (Text × Kind))
    → Found name rest
    → Found name (entry ∷ rest)
deeper rest (inl h) = inl (inr h)
deeper rest (inr h) = inr (inr h)

removed_found :
    (name : Text) (last : Bool) (entries : List (Text × Kind))
    → Among name (remove_regular last entries)
    → Found name entries
unfolding remove_regular
removed_found name last [] h = absurd h
removed_found name last ((n, regular) ∷ rest) (inl e) =
    inl (inl (ap (λ (m : Text). (m, regular)) e))
removed_found name last ((n, regular) ∷ rest) (inr h) = deeper rest (removed_found name true rest h)
removed_found name last ((n, other) ∷ rest) h = deeper rest (removed_found name false rest h)
removed_found name true ((n, unknown) ∷ rest) (inl e) =
    inr (inl (ap (λ (m : Text). (m, unknown)) e))
removed_found name true ((n, unknown) ∷ rest) (inr h) = deeper rest (removed_found name true rest h)
removed_found name false ((n, unknown) ∷ rest) h = deeper rest (removed_found name false rest h)

-- On a folder that can be opened, `rmDir` removes every entry that is a regular file; all that it
-- removes is such an entry, or one that `lstat` failed on; and it returns 0.
pub rm_dir-removes :
    (dir : Text) (entries : List (Text × Kind)) (name : Text)
    → (Among (name, regular) entries → Among (removed name) (rm_dir (some dir) (opened entries)).1)
      × (Among (removed name) (rm_dir (some dir) (opened entries)).1
          → Among (name, regular) entries ⊎ Among (name, unknown) entries)
      × ((rm_dir (some dir) (opened entries)).0 ≡ pos 0)
unfolding rm_dir
rm_dir-removes dir entries name = (
  λ h. inr (names_removed name _ (regular_removed name false entries h)),
  λ h. removed_found name false entries (removed_names name _ (behind h)),
  refl,
)
  where
    behind :
        Among (removed name) (changed_to dir ∷ each_removed (remove_regular false entries))
        → Among (removed name) (each_removed (remove_regular false entries))
    behind (inl e) = absurd (ground (arith, e))
    behind (inr h) = h
