-- ===== src/Files/Order.antt =====
-- What `remove_file` of demo/SpeechPersistentDemo/SpeechPersistent.c removes, in every state of the
-- file system, and when it reports success.
use program_learning.Prelude.{
  ℕ, ◌<◌, ◌≢◌, length, ◌≡◌, refl, sym, ◌⊎◌, ◌↔◌, inl, inr, Bool, true, false, some, List, [], ◌∷◌,
  ◌++◌, append-nil, if◌then◌else◌, Bool-cases, subst,
}
use program_learning.Prelude.Int.{ℤ, pos}
use program_learning.Prelude.Text.{Text}
use program_learning.Files.Path.{Ordinary, Ordinary-proper, proper-Ordinary}
use program_learning.Files.{
  char_at, dot_or_dotdot, concat_path_file, concat_subpath_file, Answers, no_stat, no_folder,
  folder, plain, Entries, end, entry, Removal, removed_folder, unlinked, close_folder, worse,
  then_also, remove_file, remove_entries,
}

abbrev pub Among : {A : Type 0} → A → List A → Type 0
Among a [] = ⊥
Among a (x ∷ xs) = (a ≡ x) ⊎ Among a xs

module _ {A : Type 0} (a : A) where
  Among-left : (xs ys : List A) → Among a xs → Among a (xs ++ ys)
  Among-left (x ∷ xs) ys (inl e) = inl e
  Among-left (x ∷ xs) ys (inr h) = inr (Among-left xs ys h)
  Among-left [] ys h = absurd h

  Among-right : (xs ys : List A) → Among a ys → Among a (xs ++ ys)
  Among-right [] ys h = h
  Among-right (x ∷ xs) ys h = inr (Among-right xs ys h)

  Among-cases : (xs ys : List A) → Among a (xs ++ ys) → Among a xs ⊎ Among a ys
  Among-cases [] ys h = inr h
  Among-cases (x ∷ xs) ys (inl e) = inl (inl e)
  Among-cases (x ∷ xs) ys (inr h) = elim (Among-cases xs ys h) [
    | inl l ↦ inl (inr l)
    | inr r ↦ inr r
  ]

-- The names that `readdir` gives are C strings: no character of them is zero.
mutual
  pub data Named : Answers → Type 0 where
    for_error : {errno : ℕ} → Named (no_stat errno)
    for_shut : Named no_folder
    for_plain : {unlinks : Bool} → Named (plain unlinks)
    for_folder :
        {entries : Entries} {closes removes : Bool}
        → NamedEntries entries
        → Named (folder entries closes removes)

  pub data NamedEntries : Entries → Type 0 where
    for_none : NamedEntries end
    for_entry :
        {name : Text} {answers : Answers} {rest : Entries}
        → ((i : ℕ) → i < length name → char_at name i ≢ 0)
        → Named answers
        → NamedEntries rest
        → NamedEntries (entry name answers rest)

-- The entries other than "." and "..", with their own paths: the files and folders at or below a
-- path. A folder counts where it could be closed.
mutual
  pub data Holds : Text → Answers → Removal → Type 0 where
    file : {path : Text} {unlinks : Bool} → Holds path (plain unlinks) (unlinked path)
    itself :
        {path : Text} {entries : Entries} {removes : Bool}
        → Holds path (folder entries true removes) (removed_folder path)
    inside :
        {path : Text} {entries : Entries} {closes removes : Bool} {r : Removal}
        → HoldsEntry path entries r
        → Holds path (folder entries closes removes) r

  pub data HoldsEntry : Text → Entries → Removal → Type 0 where
    first :
        {path name : Text} {answers : Answers} {rest : Entries} {r : Removal}
        → Ordinary name
        → Holds (concat_path_file (some path) name) answers r
        → HoldsEntry path (entry name answers rest) r
    later :
        {path name : Text} {answers : Answers} {rest : Entries} {r : Removal}
        → HoldsEntry path rest r
        → HoldsEntry path (entry name answers rest) r

module _ (path name : Text) (answers : Answers) (rest : Entries) (status : ℤ) where
  pub skip_entry :
      dot_or_dotdot name ≡ true
      → remove_entries path (entry name answers rest) status ≡ remove_entries path rest status
  unfolding remove_file concat_subpath_file
  skip_entry dots = rw dots refl

  pub visit_entry :
      dot_or_dotdot name ≡ false
      → remove_entries path (entry name answers rest) status
        ≡ then_also (remove_file (concat_path_file (some path) name) answers).1 (
            remove_entries path rest
              (worse (remove_file (concat_path_file (some path) name) answers).0 status))
  unfolding remove_file concat_subpath_file
  visit_entry proper = rw proper refl

-- The calls of a folder: those for its entries, then its own.
pub close_folder-calls :
    (path : Text) (closes removes : Bool) (p : ℤ × List Removal)
    → (close_folder path closes removes p).1
      ≡ p.1 ++ (if closes then removed_folder path ∷ [] else [])
close_folder-calls path false removes (s, done) = sym (append-nil done)
close_folder-calls path true false (s, done) = refl
close_folder-calls path true true (s, done) = refl

mutual
  unfolding remove_file

  held :
      (path : Text) (answers : Answers) (r : Removal)
      → Named answers
      → Holds path answers r
      → Among r (remove_file path answers).1
  held path (no_stat errno) r n h = elim h [ ]
  held path no_folder r n h = elim h [ ]
  held path (plain unlinks) r n file = inl refl
  held path (folder entries true removes) r n itself =
      rw (close_folder-calls path true removes (remove_entries path entries (pos 0))) (
        Among-right _ (remove_entries path entries (pos 0)).1 (removed_folder path ∷ []) (inl refl))
  held path (folder entries closes removes) r (for_folder n) (inside h) =
      rw (close_folder-calls path closes removes (remove_entries path entries (pos 0))) (
        Among-left _ (remove_entries path entries (pos 0)).1 _
          (held_entry path entries (pos 0) r n h))

  held_entry :
      (path : Text) (entries : Entries) (status : ℤ) (r : Removal)
      → NamedEntries entries
      → HoldsEntry path entries r
      → Among r (remove_entries path entries status).1
  held_entry path end status r n h = elim h [ ]
  held_entry path (entry name answers rest) status r (for_entry whole named n) (first ordinary h) =
      rw (visit_entry path name answers rest status (Ordinary-proper name whole ordinary))
        (Among-left _ _ _ (held (concat_path_file (some path) name) answers r named h))
  held_entry path (entry name answers rest) status r (for_entry whole named n) (later h) =
      elim (Bool-cases (dot_or_dotdot name)) [
        | inl dots ↦
            rw (skip_entry path name answers rest status dots) (held_entry path rest status r n h)
        | inr proper ↦ rw (visit_entry path name answers rest status proper) (
            Among-right _ (remove_file (concat_path_file (some path) name) answers).1 _ (
              held_entry path rest
                (worse (remove_file (concat_path_file (some path) name) answers).0 status) r n h))
      ]

own_call :
    (path : Text) (entries : Entries) (closes removes : Bool) (r : Removal)
    → Among r (if closes then removed_folder path ∷ [] else [])
    → Holds path (folder entries closes removes) r
own_call path entries false removes r h = absurd h
own_call path entries true removes r (inl e) =
    subst (Holds path (folder entries true removes)) (sym e) itself
own_call path entries true removes r (inr h) = absurd h

mutual
  unfolding remove_file

  holds :
      (path : Text) (answers : Answers) (r : Removal)
      → Among r (remove_file path answers).1
      → Holds path answers r
  holds path (no_stat errno) r h = absurd h
  holds path no_folder r h = absurd h
  holds path (plain unlinks) r (inl e) = subst (Holds path (plain unlinks)) (sym e) file
  holds path (plain unlinks) r (inr h) = absurd h
  holds path (folder entries closes removes) r h =
      elim (Among-cases r (remove_entries path entries (pos 0)).1 _ (
        subst (Among r)
          (close_folder-calls path closes removes (remove_entries path entries (pos 0))) h)) [
            | inl inner ↦ inside (holds_entry path entries (pos 0) r inner)
            | inr own ↦ own_call path entries closes removes r own
          ]

  holds_entry :
      (path : Text) (entries : Entries) (status : ℤ) (r : Removal)
      → Among r (remove_entries path entries status).1
      → HoldsEntry path entries r
  holds_entry path end status r h = absurd h
  holds_entry path (entry name answers rest) status r h = elim (Bool-cases (dot_or_dotdot name)) [
    | inl dots ↦ later (
        holds_entry path rest status r
          (subst (λ p. Among r p.1) (skip_entry path name answers rest status dots) h))
    | inr proper ↦
        elim (Among-cases r (remove_file (concat_path_file (some path) name) answers).1 _
          (subst (λ p. Among r p.1) (visit_entry path name answers rest status proper) h)) [
            | inl l ↦
                first (proper-Ordinary name proper)
                  (holds (concat_path_file (some path) name) answers r l)
            | inr m ↦ later (
                holds_entry path rest
                  (worse (remove_file (concat_path_file (some path) name) answers).0 status) r m)
          ]
  ]

-- Whatever fails, `remove_file` calls `unlink` and `rmdir` on exactly the files and folders at or
-- below its path: each that the system shows there, and nothing else. The entries "." and ".." are
-- passed over, and a folder that cannot be opened or closed is left. The names of all entries have no
-- zero in them.
pub remove_file-Holds :
    (path : Text) (answers : Answers) (r : Removal)
    → Named answers
    → Among r (remove_file path answers).1 ↔ Holds path answers r
remove_file-Holds path answers r n = (holds path answers r, held path answers r n)
