-- ===== src/SpeechDemo/Buffer.antt =====
-- What a read into the buffer of demo/SpeechPersistentDemo/SpeechDemo.c comes to.
use program_learning.Prelude.{
  ℕ, zero, suc, ◌+◌, ◌<◌, ◌≤◌, ◌≡◌, refl, ap, ◌∙◌, Option, none, some, [], ◌∷◌, ◌++◌, lt→ltb,
  le→leb, arith, length, set, take, drop, replicate, length-append, length-set, length-drop,
}
use program_learning.Prelude.Text.{Text}
use program_learning.Persistent.{PersistentType, speech}
use program_learning.SpeechDemo.{Env, Demo, terminate, into_buffer, after_answer, pass, pass_loop}
use program_learning.SpeechDemo.Passes.{Documented, given_on, passes}

front_kept : (xs ys : Text) (i : ℕ) → length xs ≤ i → take (length xs) (set (xs ++ ys) i 0) ≡ xs
front_kept [] ys i h = refl
front_kept (x ∷ xs) ys zero h = absurd (omega (arith, h))
front_kept (x ∷ xs) ys (suc i) h = ap (λ l. x ∷ l) (front_kept xs ys i (omega (arith, h)))

module _ {S : Type 0} where
  -- A step on a buffer of full size keeps that size, and does this to the rest.
  abbrev pub Does : (Demo S → Option (Demo S)) → (S → S) → Type 0
  Does step rest =
      (buffer : Text) (s : S)
      → length buffer ≡ 4098
      → (b : Text) × (length b ≡ 4098) × (step (buffer, s) ≡ some (b, rest s))

  -- One step behind another.
  abbrev pub both :
      (Demo S → Option (Demo S)) → (Demo S → Option (Demo S)) → Demo S → Option (Demo S)
  both first second d = elim (first d) [ none ↦ none | some d' ↦ second d' ]

  pub both-Does :
      (first second : Demo S → Option (Demo S)) (f g : S → S)
      → Does first f
      → Does second g
      → Does (both first second) (λ s. g (f s))
  both-Does first second f g one two buffer s full =
      let (b, b_full, e) = one buffer s full in
      let (b', b'_full, e') = two b (f s) b_full in
      (b', b'_full, ap (λ o. elim o [ none ↦ none | some d' ↦ second d' ]) e ∙ e')

  -- A step, and then one that leaves the buffer as it is.
  abbrev pub then : (Demo S → Option (Demo S)) → (Demo S → Demo S) → Demo S → Option (Demo S)
  then step quietly d = elim (step d) [ none ↦ none | some d' ↦ some (quietly d') ]

  pub then-Does :
      (step : Demo S → Option (Demo S)) (quietly : Demo S → Demo S) (f g : S → S)
      → Does step f
      → ((buffer : Text) (s : S) → quietly (buffer, s) ≡ (buffer, g s))
      → Does (then step quietly) (λ s. g (f s))
  then-Does step quietly f g one is_quiet buffer s full =
      let (b, b_full, e) = one buffer s full in
      (
        b,
        b_full,
        ap (λ o. elim o [ none ↦ none | some d' ↦ some (quietly d') ]) e
            ∙ ap some (is_quiet b (f s)),
      )

module _ {S : Type 0} (env : Env S) (documented : Documented env) where
  after_answer-gives :
      (handle size : ℕ) (type : PersistentType) (buffer : Text) (answer : Option Text × S)
      → length buffer ≡ 4098
      → size < 4098
      → ((bytes : Text) → answer.0 ≡ some bytes → length bytes ≤ size)
      → (b : Text) × (length b ≡ 4098)
        × (after_answer env handle size type buffer answer
            ≡ some (b, given_on env handle type answer))
  after_answer-gives handle size type buffer (none, s) full room bounded = (
    set buffer size 0,
    length-set buffer size 0 ∙ full,
    rw (after_answer, terminate, lt→ltb size (length buffer) (omega (arith, full, room))),
  )
  after_answer-gives handle size type buffer (some [], s) full room bounded = (
    set buffer size 0,
    length-set buffer size 0 ∙ full,
    rw (
      after_answer,
      into_buffer,
      terminate,
      le→leb 0 (length buffer) (omega arith),
      lt→ltb size (length buffer) (omega (arith, full, room)),
    ),
  )
  after_answer-gives handle size type buffer (some (c ∷ cs), s) full room bounded =
      let bytes = c ∷ cs in
      let few = bounded bytes refl in
      let behind = drop (length bytes) buffer in
      let b = bytes ++ behind in
      let size_of_b =
        length-append bytes behind
        ∙ ap (λ n. length bytes + n) (length-drop (length bytes) buffer) in
      let b' = set b size 0 in
      let fits = length-set b size 0 in
      (
        b',
        omega (arith, fits, size_of_b, few, room, full),
        rw (
          after_answer,
          into_buffer,
          terminate,
          le→leb (length bytes) (length buffer) (omega (arith, few, room, full)),
          lt→ltb size (length b) (omega (arith, size_of_b, few, room, full)),
          documented.process_takes handle b' (length bytes) type s
              (omega (arith, fits, size_of_b, few, room, full)),
          front_kept bytes behind size few,
        ),
      )

  pub pass-Does :
      (handle size : ℕ) (type : PersistentType)
      → size < 4098
      → Does (pass env handle size type) (passes env handle ((size, type) ∷ []))
  unfolding pass
  pass-Does handle size type room buffer s full =
      after_answer-gives handle size type buffer (env.read size s) full room
        (documented.read_bounds size s)

  pub pass_loop-Does :
      (handle i : ℕ)
      → Does (pass_loop env handle i) (passes env handle (replicate (suc i) (1024, speech)))
  unfolding pass_loop
  pass_loop-Does handle zero = pass-Does handle 1024 speech (omega arith)
  pass_loop-Does handle (suc i) =
      both-Does (pass env handle 1024 speech) (pass_loop env handle i)
        (passes env handle ((1024, speech) ∷ []))
        (passes env handle (replicate (suc i) (1024, speech)))
        (pass-Does handle 1024 speech (omega arith)) (pass_loop-Does handle i)
