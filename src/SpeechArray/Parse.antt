-- ===== src/SpeechArray/Parse.antt =====
-- `parseData_INT32` of speech/src/speecharray.c gives the samples of the format that it tests for.
use program_learning.Prelude.{
  ℕ, zero, suc, ◌+◌, ◌-◌, ◌*◌, ◌/◌, ◌≤◌, ◌<◌, ◌≡◌, refl, sym, ap, ap₂, ◌∙◌, false, Option, some,
  List, [], ◌∷◌, ◌++◌, arith, ltb, if◌then◌else◌, length, get_or, drop, drop-add, length-append,
  append_assoc, append-nil, Bool-cases, inl, inr, ltb→lt,
}
use program_learning.Prelude.Int.{ℤ, pos}
use program_learning.SpeechArray.{
  parse_body, parse_loop, parse_data_int32, whole_samples, mini_single_sample_bytes,
}
use program_learning.SpeechArray.Format.{has_channels, mixed, samples, drop-cons}
use program_learning.SpeechArray.Over.{at, parse_body-over}

samples-nil : (j k : ℕ) → samples j k [] ≡ []
unfolding samples
samples-nil j zero = refl
samples-nil zero (suc k) = refl
samples-nil (suc j) (suc k) = refl

samples-drop : (j k : ℕ) (ws : List ℕ) → samples j k ws ≡ samples 0 (k - j) (drop j ws)
unfolding samples
samples-drop zero k ws = ap (λ n. samples 0 n ws) (omega arith)
samples-drop (suc j) zero ws =
    ap (λ n. samples 0 n (drop (suc j) ws)) {x = 0} {y = 0 - suc j} (omega arith)
samples-drop (suc j) (suc k) [] = sym (samples-nil 0 (suc k - suc j))
samples-drop (suc j) (suc k) (w ∷ ws) =
    samples-drop j k ws ∙ ap (λ n. samples 0 n (drop j ws)) (omega arith)

samples-step :
    (k : ℕ) (w : ℕ) (ws : List ℕ)
    → samples 0 (suc k) (w ∷ ws) ≡ (
        if has_channels 1 12 (w ∷ ws)
        then mixed (w ∷ ws) ++ samples 0 (k - 11) (drop 11 ws)
        else samples 0 k ws)
unfolding samples
samples-step k w ws =
    ap (λ l. if has_channels 1 12 (w ∷ ws) then mixed (w ∷ ws) ++ l else samples 0 k ws)
      (samples-drop 11 k ws)

samples-at :
    (k s : ℕ) (ws : List ℕ)
    → s < length ws
    → samples 0 (suc k) (drop s ws) ≡ (
        if has_channels 1 12 (drop s ws)
        then mixed (drop s ws) ++ samples 0 (suc k - 12) (drop (s + 12) ws)
        else samples 0 k (drop (s + 1) ws))
samples-at k s ws h =
    rw (drop-cons ws s h, samples-step k (get_or ws s 0) (drop (s + 1) ws), behind, less)
  where
    behind : drop (s + 12) ws ≡ drop 11 (drop (s + 1) ws)
    behind = ap (λ n. drop n ws) (omega arith) ∙ drop-add (s + 1) 11 ws

    less : suc k - 12 ≡ k - 11
    less = omega arith

samples-done : (ws : List ℕ) → samples 0 0 ws ≡ []
unfolding samples
samples-done ws = refl

-- The rest of the loop gives the samples of the rest of the input, in their places.
module _ (org : List ℕ) (end : ℕ) (slack : end + 11 ≤ length org) where
  abbrev Ends : ℕ → Type 0
  Ends fuel =
      (out : List ℕ) (s : ℕ)
      → length out ≤ s
      → s < end
      → end - s ≤ fuel
      → (t : ℕ) × parse_loop fuel end (at out org s)
          ≡ some (at (out ++ samples 0 (end - s) (drop s org)) org t)

  goes_on :
      (fuel : ℕ)
      → Ends fuel
      → (out : List ℕ) (s : ℕ) → length out ≤ s
      → end - s ≤ fuel
      → (t : ℕ) × (if ltb s end then parse_loop fuel end (at out org s) else some (at out org s))
          ≡ some (at (out ++ samples 0 (end - s) (drop s org)) org t)
  goes_on fuel next out s h f = elim (Bool-cases (ltb s end)) [
    | inl more ↦ let (t, e) = next out s h (ltb→lt s end more) f in (t, rw more e)
    | inr last ↦ (s, rw (last, done last, samples-done (drop s org), append-nil out))
  ]
    where
      done : ltb s end ≡ false → end - s ≡ 0
      done last = ground arith

  round : (fuel : ℕ) → Ends fuel → Ends (suc fuel)
  unfolding parse_loop
  round fuel next out s h l f = elim (Bool-cases (has_channels 1 12 (drop s org))) [
    | inl good ↦
        let (t, e) = goes_on fuel next (out ++ mixed (drop s org)) (s + 12) longer (omega arith) in
        (
          t,
          rw (body, spec, good)
              (e
                ∙ ap (λ l. some (at l org t))
                    (append_assoc out (mixed (drop s org))
                      (samples 0 (end - (s + 12)) (drop (s + 12) org)))),
        )
    | inr bad ↦
        let (t, e) = goes_on fuel next out (s + 1) (omega arith) (omega arith) in
        (t, rw (body, spec, bad) e)
  ]
    where
      longer : length (out ++ mixed (drop s org)) ≤ s + 12
      longer = omega (arith, length-append {0} out (mixed (drop s org)))

      body :
          parse_body (at out org s)
          ≡ some (
              if has_channels 1 12 (drop s org)
              then at (out ++ mixed (drop s org)) org (s + 12)
              else at out org (s + 1))
      body = parse_body-over out org s h (omega arith)

      spec : samples 0 (end - s) (drop s org) ≡ (
          if has_channels 1 12 (drop s org)
          then mixed (drop s org) ++ samples 0 (end - (s + 12)) (drop (s + 12) org)
          else samples 0 (end - (s + 1)) (drop (s + 1) org))
      spec =
          ap (λ n. samples 0 n (drop s org)) {y = suc (end - s - 1)} (omega arith)
          ∙ samples-at (end - s - 1) s org (omega arith)
          ∙ ap₂
              (λ n k.
                if has_channels 1 12 (drop s org)
                then mixed (drop s org) ++ samples 0 n (drop (s + 12) org)
                else samples 0 k (drop (s + 1) org))
              {y = end - (s + 12)} (omega arith) (omega arith)

  ends : (fuel : ℕ) → Ends fuel
  ends zero = λ out s h l f. absurd (omega arith)
  ends (suc fuel) = round fuel (ends fuel)

-- A sample of input is three words of output.
length-samples : (k j q : ℕ) (ws : List ℕ) → k ≤ j + 12 * q → length (samples j k ws) ≤ 3 * q
unfolding samples
length-samples zero j q ws h = omega arith
length-samples (suc k) j q [] h = omega arith
length-samples (suc k) zero q (w ∷ ws) h =
    ground
      (arith, length-samples k 11 (q - 1) ws (omega arith), length-samples k 0 q ws (omega arith))
length-samples (suc k) (suc j) q (w ∷ ws) h = length-samples k j q ws (omega arith)

-- For a length of 48 or more, with eleven words behind its whole samples, `parseData_INT32`
-- returns without a read out of bounds. It puts the sound of the samples, twelve words numbered from 1
-- to 12 each, before the rest of the input, and returns the count of their bytes, at most a quarter of
-- the length. A sample gives three words, with the channels 1 and 2, 7 and 8, and 4 and 10, the first
-- of each pair in the upper half.
pub parse_data_int32-samples :
    (mem : List ℕ) (len : ℕ)
    → mini_single_sample_bytes ≤ len
    → len / 48 * 12 + 11 ≤ length mem
    → let out = samples 0 (len / 48 * 12) mem in
      (parse_data_int32 mem len ≡ some (out ++ drop (length out) mem, pos (4 * length out)))
      × (4 * (4 * length out) ≤ len)
unfolding parse_data_int32
parse_data_int32-samples mem len h room =
    let (t, e) =
      ends mem (len / 48 * 12) room (len / 4) [] 0 (omega arith) (omega arith) (omega arith) in
    (
      rw (enough, whole, e) returned,
      omega (arith, length-samples (len / 48 * 12) 0 (len / 48) mem (omega arith)),
    )
  where
    whole : whole_samples len / 4 ≡ len / 48 * 12
    whole = ground arith

    enough : ltb len 48 ≡ false
    enough = ground arith

    out : List ℕ
    out = samples 0 (len / 48 * 12) mem

    result : List ℕ → ℕ → Option (List ℕ × ℤ)
    result ws n = some (ws ++ drop (length ws) mem, pos n)

    returned :
        result
          (samples 0 (len / 48 * 12 - 0) mem)
          (16 * length (samples 0 (len / 48 * 12 - 0) mem) / 4)
        ≡ result out (4 * length out)
    returned =
        ap (λ n. result (samples 0 n mem) (16 * length (samples 0 n mem) / 4)) {y = len / 48 * 12}
          (omega arith)
        ∙ ap (result out) (omega arith)
