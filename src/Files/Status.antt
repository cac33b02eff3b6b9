-- ===== src/Files/Status.antt =====
-- When `remove_file` of demo/SpeechPersistentDemo/SpeechPersistent.c reports success.
use program_learning.Prelude.{
  ◌⊎◌, ℕ, ◌≡◌, refl, sym, ap, ◌∙◌, ◌↔◌, inl, inr, Bool, true, false, some, List, ◌==◌, arith,
  Bool-cases,
}
use program_learning.Prelude.Int.{ℤ, pos, negsuc}
use program_learning.Prelude.Text.{Text, codes}
use program_learning.Files.{
  dot_or_dotdot, concat_path_file, Answers, no_stat, no_folder, folder, plain, Entries, end, entry,
  Removal, enoent, close_folder, worse, remove_file, remove_entries,
}
use program_learning.Files.Path.{dots_found, found_dots}
use program_learning.Files.Order.{
  Named, NamedEntries, for_folder, for_entry, skip_entry, visit_entry,
}

-- Nothing failed, but for a path that was not there.
mutual
  pub data Succeeds : Answers → Type 0 where
    absent : {errno : ℕ} → errno ≡ enoent → Succeeds (no_stat errno)
    unlinks : Succeeds (plain true)
    empties : {entries : Entries} → AllSucceed entries → Succeeds (folder entries true true)

  pub data AllSucceed : Entries → Type 0 where
    none_left : AllSucceed end
    skips :
        {name : Text} {answers : Answers} {rest : Entries}
        → (name ≡ codes ".") ⊎ (name ≡ codes "..")
        → AllSucceed rest
        → AllSucceed (entry name answers rest)
    passes :
        {name : Text} {answers : Answers} {rest : Entries}
        → Succeeds answers
        → AllSucceed rest
        → AllSucceed (entry name answers rest)

mutual
  unfolding remove_file

  success :
      (path : Text) (answers : Answers) → Succeeds answers → (remove_file path answers).0 ≡ pos 0
  success path (no_stat errno) (absent e) = ground (arith, e)
  success path no_folder s = elim s [ ]
  success path (plain true) unlinks = refl
  success path (plain false) s = elim s [ ]
  success path (folder entries true true) (empties all) = entries_success path entries (pos 0) all
  success path (folder entries true false) s = elim s [ ]
  success path (folder entries false r) s = elim s [ ]

  entries_success :
      (path : Text) (entries : Entries) (status : ℤ)
      → AllSucceed entries
      → (remove_entries path entries status).0 ≡ status
  entries_success path end status none_left = refl
  entries_success path (entry name answers rest) status (skips dots all) =
      rw (skip_entry path name answers rest status (dots_found name dots))
        (entries_success path rest status all)
  entries_success path (entry name answers rest) status (passes one all) =
      elim (Bool-cases (dot_or_dotdot name)) [
        | inl dots ↦
            rw (skip_entry path name answers rest status dots)
              (entries_success path rest status all)
        | inr proper ↦ rw (visit_entry path name answers rest status proper) (
            entries_success path rest
              (worse (remove_file (concat_path_file (some path) name) answers).0 status) all
            ∙ ap (λ v. worse v status) (success (concat_path_file (some path) name) answers one))
      ]

closed_well :
    (path : Text) (closes removes : Bool) (p : ℤ × List Removal) (n : ℕ)
    → (close_folder path closes removes p).0 ≡ pos n
    → (closes ≡ true) × (removes ≡ true) × (p.0 ≡ pos n)
closed_well path false removes (status, done) n e = absurd (ground (arith, e))
closed_well path true false (status, done) n e = absurd (ground (arith, e))
closed_well path true true (status, done) n e = (refl, refl, e)

worse-pos :
    (r status : ℤ) (n : ℕ) → worse r status ≡ pos n → (m : ℕ) × (r ≡ pos m) × (status ≡ pos n)
worse-pos (pos m) status n e = (m, refl, e)
worse-pos (negsuc m) status n e = absurd (ground (arith, e))

mutual
  unfolding remove_file

  succeeded :
      (path : Text) (answers : Answers) (n : ℕ)
      → Named answers
      → (remove_file path answers).0 ≡ pos n
      → Succeeds answers
  succeeded path (no_stat errno) n names e = elim (Bool-cases (errno == enoent)) [
    | inl same ↦ absent (ground (arith, same))
    | inr differs ↦ absurd (ground (arith, e, differs))
  ]
  succeeded path no_folder n names e = absurd (ground (arith, e))
  succeeded path (plain true) n names e = unlinks
  succeeded path (plain false) n names e = absurd (ground (arith, e))
  succeeded path (folder entries closes removes) n (for_folder names) e =
      let (c, r, s) = closed_well path closes removes (remove_entries path entries (pos 0)) n e in
      rw (c, r) (empties (entries_succeeded path entries (pos 0) n names s).1)

  entries_succeeded :
      (path : Text) (entries : Entries) (status : ℤ) (n : ℕ)
      → NamedEntries entries
      → (remove_entries path entries status).0 ≡ pos n
      → (status ≡ pos n) × AllSucceed entries
  entries_succeeded path end status n names e = (e, none_left)
  entries_succeeded path (entry name answers rest) status n (for_entry whole here names) e =
      elim (Bool-cases (dot_or_dotdot name)) [
        | inl dots ↦
            let (s, all) =
              entries_succeeded path rest status n names
                (sym (ap (λ p. p.0) (skip_entry path name answers rest status dots)) ∙ e) in
            (s, skips (found_dots name whole dots) all)
        | inr proper ↦
            let (w, all) =
              entries_succeeded path rest
                (worse (remove_file (concat_path_file (some path) name) answers).0 status) n names
                (sym (ap (λ p. p.0) (visit_entry path name answers rest status proper)) ∙ e) in
            let (m, r, s) =
              worse-pos (remove_file (concat_path_file (some path) name) answers).0 status n w in
            (s, passes (succeeded (concat_path_file (some path) name) answers m here r) all)
      ]

-- `remove_file` returns 0 exactly if nothing failed at or below its path: where `lstat` fails, the
-- path is absent; every folder could be opened, closed and removed, and every other file unlinked,
-- but for the entries "." and "..". A failure below does not get lost, however many files are removed
-- after it. The names of all entries have no zero in them.
pub remove_file-Succeeds :
    (path : Text) (answers : Answers)
    → Named answers
    → ((remove_file path answers).0 ≡ pos 0) ↔ Succeeds answers
remove_file-Succeeds path answers names = (succeeded path answers 0 names, success path answers)
