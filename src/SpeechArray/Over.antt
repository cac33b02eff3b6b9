-- ===== src/SpeechArray/Over.antt =====
-- One round of `parseData_INT32` of speech/src/speecharray.c, which writes its result over its input.
use program_learning.Prelude.{
  ℕ, zero, suc, ◌+◌, ◌*◌, ◌≤◌, ◌<◌, ◌≡◌, refl, ap, ◌∙◌, not, some, List, [], ◌∷◌, ◌++◌, arith,
  if◌then◌else◌, ◌>>=◌, length, get_elem?, get_or, set, drop, get_elem?-eq-get_or, length-append,
  append_assoc, Bool-cases, inl, inr,
}
use program_learning.SpeechArray.{Parser, put_pair, parse_body, check_error_int32_le}
use program_learning.SpeechArray.Format.{
  has_channels, pair_of, mixed, merge-eq, get_or-drop, check_error_from-eq,
}

-- The input with its first words overwritten.
abbrev pub over : List ℕ → List ℕ → List ℕ
over out org = out ++ drop (length out) org

pub get_elem?-over :
    (out org : List ℕ) (i : ℕ)
    → length out ≤ i
    → i < length org
    → get_elem? (over out org) i ≡ some (get_or org i 0)
get_elem?-over [] org i h l = get_elem?-eq-get_or org i 0 l
get_elem?-over (o ∷ out) [] i h l = absurd (omega arith)
get_elem?-over (o ∷ out) (x ∷ org) zero h l = absurd (omega arith)
get_elem?-over (o ∷ out) (x ∷ org) (suc i) h l =
    get_elem?-over out org i (omega arith) (omega arith)

set-over :
    (out org : List ℕ) (v : ℕ)
    → length out < length org
    → set (over out org) (length out) v ≡ over (out ++ (v ∷ [])) org
set-over [] [] v h = absurd (omega arith)
set-over [] (x ∷ org) v h = refl
set-over (o ∷ out) [] v h = absurd (omega arith)
set-over (o ∷ out) (x ∷ org) v h = ap (λ l. o ∷ l) (set-over out org v (omega arith))

put_pair-over :
    (out org : List ℕ) (a i j : ℕ)
    → a ≡ length out
    → a ≤ i
    → a ≤ j
    → i < length org
    → j < length org
    → put_pair a i j (over out org) ≡ some (over (out ++ (pair_of i j org ∷ [])) org)
unfolding put_pair
put_pair-over out org a i j e hi hj li lj = rw (
  get_elem?-over out org i (omega arith) li,
  get_elem?-over out org j (omega arith) lj,
  get_elem?-over out org a (omega arith) (omega arith),
  e,
  merge-eq (get_or org i 0) (get_or org j 0),
  set-over out org (pair_of i j org) (omega arith),
)

-- The parser at word `s` of the input, with the words that it has written.
abbrev pub at : List ℕ → List ℕ → ℕ → Parser
at out org s = record {
  mem = over out org;
  speech = s;
  availspeech = length out;
  datalen = 16 * length out;
}

module _ (out org : List ℕ) (s : ℕ) (behind : length out ≤ s) (room : s + 12 ≤ length org) where
  -- No write of a sample reaches a word that is still to be read.
  sample-over :
      (put_pair (length out) s (s + 1) (over out org)
        >>= put_pair (length out + 1) (s + 6) (s + 7)
        >>= put_pair (length out + 2) (s + 3) (s + 9))
      ≡ some (over (out ++ mixed (drop s org)) org)
  sample-over =
      ap
        (λ o.
          o
          >>= put_pair (length out + 1) (s + 6) (s + 7)
          >>= put_pair (length out + 2) (s + 3) (s + 9))
        (put_pair-over out org (length out) s (s + 1) refl behind (omega arith) (omega arith)
          (omega arith))
      ∙ ap (λ o. o >>= put_pair (length out + 2) (s + 3) (s + 9))
          (put_pair-over one org (length out + 1) (s + 6) (s + 7)
            (omega (arith, length-append {0} out (first ∷ []))) (omega arith) (omega arith)
            (omega arith) (omega arith))
      ∙ put_pair-over two org (length out + 2) (s + 3) (s + 9)
          (omega (arith, length-append {0} out (first ∷ []), length-append {0} one (second ∷ [])))
          (omega arith) (omega arith) (omega arith) (omega arith)
      ∙ ap (λ l. some (over l org)) (joined ∙ ap (λ l. out ++ l) places)
    where
      first : ℕ
      first = pair_of s (s + 1) org

      second : ℕ
      second = pair_of (s + 6) (s + 7) org

      third : ℕ
      third = pair_of (s + 3) (s + 9) org

      one : List ℕ
      one = out ++ (first ∷ [])

      two : List ℕ
      two = one ++ (second ∷ [])

      joined : two ++ (third ∷ []) ≡ out ++ (first ∷ second ∷ third ∷ [])
      joined =
          ap (λ l. l ++ (third ∷ [])) (append_assoc out (first ∷ []) (second ∷ []))
          ∙ append_assoc out (first ∷ second ∷ []) (third ∷ [])

      zero_less : s + 0 ≡ s
      zero_less = omega arith

      places : (first ∷ second ∷ third ∷ []) ≡ mixed (drop s org)
      places = rw (
        get_or-drop org s 0,
        get_or-drop org s 1,
        get_or-drop org s 6,
        get_or-drop org s 7,
        get_or-drop org s 3,
        get_or-drop org s 9,
        zero_less,
      )

  pub parse_body-over :
      parse_body (at out org s)
      ≡ some (
          if has_channels 1 12 (drop s org)
          then at (out ++ mixed (drop s org)) org (s + 12)
          else at out org (s + 1))
  unfolding parse_body
  parse_body-over = elim (Bool-cases (has_channels 1 12 (drop s org))) [
    | inl good ↦ rw (checked, good, sample-over) (ap (λ p. some p) (ground (arith, longer)))
    | inr bad ↦ rw (checked, bad)
  ]
    where
      checked : check_error_int32_le (over out org) s ≡ some (not (has_channels 1 12 (drop s org)))
      checked =
          check_error_from-eq (over out org) org (length out) (get_elem?-over out org) s 1 12 behind
            room (omega arith)

      longer : length (out ++ mixed (drop s org)) ≡ length out + 3
      longer = length-append out (mixed (drop s org))
