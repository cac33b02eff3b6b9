-- ===== src/Files/Path.antt =====
-- The paths that `concat_path_file` of demo/SpeechPersistentDemo/SpeechPersistent.c makes.
use program_learning.Prelude.{
  ℕ, suc, ◌-◌, ◌<◌, ◌≡◌, ◌≢◌, refl, sym, ap, ◌∙◌, ◌⊎◌, ◌↔◌, inl, inr, true, false, some, [], ◌∷◌,
  ◌++◌, ◌==◌, arith, length, replicate, append_assoc, Bool-cases,
}
use program_learning.Prelude.Text.{Text, codes}
use program_learning.Files.{
  slash, char_at, dot_or_dotdot, last_char_is, skip_slashes, concat_path_file,
}

-- A text is what is before its last character, and that.
last_split :
    (s : Text) → 0 < length s → (stem : Text) × (s ≡ stem ++ (char_at s (length s - 1) ∷ []))
last_split [] h = elim h [ ]
last_split (c ∷ []) h = ([], refl)
last_split (c ∷ d ∷ s) h =
    let (stem, e) = last_split (d ∷ s) (omega arith) in
    (
      c ∷ stem,
      ap (λ l. c ∷ l) e
          ∙ ap (λ k. c ∷ (stem ++ (char_at (c ∷ d ∷ s) k ∷ []))) {x = suc (length (d ∷ s) - 1)}
              (omega arith),
    )

pub last_char_is-slash :
    (path : Text)
    → last_char_is (some path) slash ≡ true
    → (stem : Text) × (path ≡ stem ++ (slash ∷ []))
unfolding last_char_is
last_char_is-slash [] h = absurd (ground (arith, h))
last_char_is-slash (c ∷ s) h =
    let (stem, e) = last_split (c ∷ s) (omega arith) in
    (stem, e ∙ ap (λ l. stem ++ (l ∷ [])) (ground (arith, h)))

skip_slashes-lem :
    (f : Text)
    → (n : ℕ) × (f ≡ replicate n slash ++ skip_slashes f) × (char_at (skip_slashes f) 0 ≢ slash)
unfolding skip_slashes
skip_slashes-lem [] = (0, refl, ground arith)
skip_slashes-lem (c ∷ f) = elim (Bool-cases (c == slash)) [
  | inl more ↦
      let (n, e, first) = skip_slashes-lem f in
      rw more (
        suc n,
        ap (λ l. c ∷ l) e
            ∙ ap (λ d. d ∷ (replicate n slash ++ skip_slashes f)) (ground (arith, more)),
        first,
      )
  | inr done ↦ rw done (0, refl, ground (arith, done))
]

-- `concat_path_file` puts exactly one slash where the path and the name meet: the result is a stem, a
-- slash and a name that does not start with one, where the path is the stem or the stem with a
-- slash, and the filename is that name behind any number of slashes.
pub concat_path_file-joins :
    (path filename : Text)
    → (stem name : Text) × (n : ℕ) × (concat_path_file (some path) filename
        ≡ stem ++ (slash ∷ name))
      × ((path ≡ stem) ⊎ (path ≡ stem ++ (slash ∷ [])))
      × (filename ≡ replicate n slash ++ name)
      × (char_at name 0 ≢ slash)
unfolding concat_path_file
concat_path_file-joins path filename =
    let (n, e, first) = skip_slashes-lem filename in
    elim (Bool-cases (last_char_is (some path) slash)) [
      | inl ends ↦
          let (stem, p) = last_char_is-slash path ends in
          (
            stem,
            skip_slashes filename,
            n,
            (rw ends refl)
                ∙ ap (λ l. l ++ skip_slashes filename) p
                ∙ append_assoc stem (slash ∷ []) (skip_slashes filename),
            inr p,
            e,
            first,
          )
      | inr open_end ↦ (path, skip_slashes filename, n, rw open_end refl, inl refl, e, first)
    ]

pub dots_found : (s : Text) → (s ≡ codes ".") ⊎ (s ≡ codes "..") → dot_or_dotdot s ≡ true
unfolding dot_or_dotdot
dots_found s (inl e) = rw e refl
dots_found s (inr e) = rw e refl

pub found_dots :
    (s : Text)
    → ((i : ℕ) → i < length s → char_at s i ≢ 0)
    → dot_or_dotdot s ≡ true
    → (s ≡ codes ".") ⊎ (s ≡ codes "..")
unfolding dot_or_dotdot
found_dots [] w h = absurd (ground (arith, h))
found_dots (a ∷ []) w h = inl (ground (arith, h))
found_dots (a ∷ b ∷ []) w h = inr (ground (arith, h, w 1))
found_dots (a ∷ b ∷ c ∷ s) w h = absurd (ground (arith, h, w 1, w 2))

-- Of the names of C strings, `DOT_OR_DOTDOT` holds exactly of "." and "..".
pub dot_or_dotdot_iff :
    (s : Text)
    → ((i : ℕ) → i < length s → char_at s i ≢ 0)
    → (dot_or_dotdot s ≡ true) ↔ ((s ≡ codes ".") ⊎ (s ≡ codes ".."))
dot_or_dotdot_iff s whole = (found_dots s whole, dots_found s)

-- A name that is not passed over.
abbrev pub Ordinary : Text → Type 0
Ordinary name = (name ≢ codes ".") × (name ≢ codes "..")

pub Ordinary-proper :
    (name : Text)
    → ((i : ℕ) → i < length name → char_at name i ≢ 0)
    → Ordinary name
    → dot_or_dotdot name ≡ false
Ordinary-proper name whole (one, two) = elim (Bool-cases (dot_or_dotdot name)) [
  | inl dots ↦ elim ((dot_or_dotdot_iff name whole).0 dots) [
    | inl e ↦ absurd (one e)
    | inr e ↦ absurd (two e)
  ]
  | inr proper ↦ proper
]

pub proper-Ordinary : (name : Text) → dot_or_dotdot name ≡ false → Ordinary name
proper-Ordinary name proper = (
  (λ e. cc (sym (dots_found name (inl e)) ∙ proper)),
  (λ e. cc (sym (dots_found name (inr e)) ∙ proper)),
)
