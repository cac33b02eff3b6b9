-- ===== src/Recorder/Capture.antt =====
-- What the loop of speech/test/speecharraytest.c counts.
use program_learning.Prelude.{
  Option, ◌≤◌, inl, inr, Option-cases, map, length, subst, and_parts, ℕ, ◌+◌, ◌≡◌, refl, ap, ◌∙◌,
  Bool, true, false, not, ◌&&◌, none, some, List, [], ◌∷◌, ◌++◌, arith, ◌==◌, if◌then◌else◌,
}
use program_learning.Recorder.{Round, capture}
use program_learning.Recorder.Program.{Met, buffer_size, WavFile, fwrite, Loop, ended, capture_file}
use program_learning.Recorder.File.{or_nothing}

-- The round goes on: something was read, all of it was written, and nothing stops the loop.
abbrev pub keeps_on : Round → Bool
keeps_on r = elim r.len [ none ↦ false | some len ↦ r.wrote == len && not r.over ]

-- The bytes that a round wrote whole.
abbrev pub kept : Round → ℕ
kept r = elim r.len [ none ↦ 0 | some len ↦ if r.wrote == len then len else 0 ]

abbrev pub all_go_on : List Round → Bool
all_go_on [] = true
all_go_on (r ∷ rounds) = keeps_on r && all_go_on rounds

abbrev pub total : List Round → ℕ
total [] = 0
total (r ∷ rounds) = kept r + total rounds

last_round :
    (r : Round) (after : List Round) (n : ℕ)
    → keeps_on r ≡ false
    → capture (r ∷ after) n ≡ some (n + kept r)
unfolding capture
last_round r after n stops = ground arith

one_round :
    (r : Round) (rounds : List Round) (n : ℕ)
    → keeps_on r ≡ true
    → capture (r ∷ rounds) n ≡ capture rounds (n + kept r)
unfolding capture
one_round r rounds n goes = ground arith

nothing_read : (n : ℕ) → capture [] n ≡ none
unfolding capture
nothing_read n = refl

-- Whatever rounds go on first, the loop ends at the first that does not, whatever would come behind
-- it: `bytes_write` is what it was before, the lengths of all those rounds, and the last one's too if
-- that was written whole. While all rounds go on it does not end.
pub capture-counts :
    (before after : List Round) (r : Round) (n : ℕ)
    → all_go_on before ≡ true
    → keeps_on r ≡ false
    → (capture (before ++ (r ∷ after)) n ≡ some (n + total before + kept r))
      × (capture before n ≡ none)
capture-counts [] after r n goes stops =
    (last_round r after n stops ∙ ap (λ t. some (t + kept r)) (omega arith), nothing_read n)
capture-counts (x ∷ before) after r n goes stops =
    (let both = and_parts (keeps_on x) (all_go_on before) goes in
      let rest = capture-counts before after r (n + kept x) both.1 stops in
      (
        one_round x (before ++ (r ∷ after)) n both.0
            ∙ (rest.0 ∙ ap (λ t. some (t + kept r)) (omega arith)),
        one_round x before n both.0 ∙ rest.1,
      ))

-- What a round counts.
abbrev round_of : Met → Round
round_of m = record {
  len = elim m.bytes [ none ↦ none | some bytes ↦ some (length bytes) ];
  wrote = m.wrote;
  over = m.over;
}

abbrev counted : Loop → Option ℕ
counted (ended n f) = some n
counted _ = none

abbrev AllFit : List Met → Type 0
AllFit [] = Unit {0}
AllFit (m ∷ rounds) = (length (or_nothing m.bytes) ≤ buffer_size) × AllFit rounds

-- The loop with the file counts as the loop without it, where the buffer has room.
pub capture_file-capture :
    (rounds : List Met) (n : ℕ) (f : WavFile)
    → AllFit rounds
    → counted (capture_file rounds n f) ≡ capture (map round_of rounds) n
unfolding capture_file capture
capture_file-capture [] n f fit = refl
capture_file-capture (m ∷ rounds) n f (fit, more) = elim (Option-cases m.bytes) [
  | inl e ↦ ground (arith, e)
  | inr (bytes, e) ↦
      (let small = subst (λ o. length (or_nothing o) ≤ buffer_size) e fit in
        ground
          (arith, e, small, capture_file-capture rounds (n + length bytes) (fwrite bytes f) more))
]
