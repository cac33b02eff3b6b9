-- ===== src/SpeechArray/Skip.antt =====
-- `skipData` of speech/src/speecharray.c finds the first sample with sound.
use program_learning.Prelude.{
  ℕ, zero, suc, ◌+◌, ◌-◌, ◌*◌, ◌/◌, ◌≤◌, ◌<◌, ◌≡◌, refl, true, false, not, Option, some, List,
  arith, ltb, ◌==◌, if◌then◌else◌, length, get_elem?, get_or, drop, get_elem?-eq-get_or, Bool-cases,
  inl, inr, ◌⊎◌, ltb→lt,
}
use program_learning.Prelude.Int.{pos}
use program_learning.SpeechArray.{
  skip_loop, skip_data, whole_samples, mini_single_sample_bytes, check_error_int32_le,
  check_data_int32,
}
use program_learning.SpeechArray.Format.{
  has_channels, is_silent, drop-cons, check_error_from-eq, check_data_from-eq,
}

-- From word `i` to word `n` there are words at which no sample starts, and silent samples.
pub data Junk (mem : List ℕ) : ℕ → ℕ → Type 0 where
  none_left : {i : ℕ} → Junk mem i i
  no_sample : {i n : ℕ} → has_channels 1 12 (drop i mem) ≡ false → Junk mem (i + 1) n → Junk mem i n
  silence :
      {i n : ℕ}
      → has_channels 1 12 (drop i mem) ≡ true
      → is_silent 12 (drop i mem) ≡ true
      → Junk mem (i + 12) n
      → Junk mem i n

-- A sample with sound starts at word `n`.
abbrev pub Sounds : List ℕ → ℕ → Type 0
Sounds mem n = (has_channels 1 12 (drop n mem) ≡ true) × (is_silent 12 (drop n mem) ≡ false)

module _ (mem : List ℕ) (end : ℕ) (slack : end + 11 ≤ length mem) where
  zero-has_no_channels :
      (i : ℕ) → i < length mem → get_or mem i 0 ≡ 0 → has_channels 1 12 (drop i mem) ≡ false
  unfolding has_channels
  zero-has_no_channels i h e = rw (drop-cons mem i h, e)

  -- The tests of a round, as the format has them.
  abbrev chosen : ℕ → ℕ → Option ℕ
  chosen fuel i =
      if has_channels 1 12 (drop i mem)
      then if is_silent 12 (drop i mem)
        then if ltb (4 * (i + 12)) (4 * end)
          then skip_loop fuel mem (4 * end) (i + 12)
          else some (i + 12)
        else some i
      else if ltb (4 * (i + 1)) (4 * end)
      then skip_loop fuel mem (4 * end) (i + 1)
      else some (i + 1)

  skip_loop-chosen : (fuel i : ℕ) → i < end → skip_loop (suc fuel) mem (4 * end) i ≡ chosen fuel i
  unfolding skip_loop
  skip_loop-chosen fuel i h = elim (Bool-cases (get_or mem i 0 == 0)) [
    | inl null ↦ rw (word, null, zero-has_no_channels i (omega arith) (ground (arith, null)))
    | inr other ↦ elim (Bool-cases (has_channels 1 12 (drop i mem))) [
      | inl good ↦ rw (checked, sound, word, other, good)
      | inr bad ↦ rw (checked, sound, word, other, bad)
    ]
  ]
    where
      word : get_elem? mem i ≡ some (get_or mem i 0)
      word = get_elem?-eq-get_or mem i 0 (omega arith)

      reads : (j : ℕ) → 0 ≤ j → j < length mem → get_elem? mem j ≡ some (get_or mem j 0)
      reads j p l = get_elem?-eq-get_or mem j 0 l

      checked : check_error_int32_le mem i ≡ some (not (has_channels 1 12 (drop i mem)))
      checked = check_error_from-eq mem mem 0 reads i 1 12 (omega arith) (omega arith) (omega arith)

      sound : check_data_int32 mem i ≡ some (is_silent 12 (drop i mem))
      sound = check_data_from-eq mem mem 0 reads i 12 (omega arith) (omega arith)

  -- What the loop returns from word `i` on.
  abbrev Found : ℕ → Option ℕ → Type 0
  Found i o = (n : ℕ) × (o ≡ some n) × Junk mem i n × (n < end + 12) × ((end ≤ n) ⊎ Sounds mem n)

  abbrev Ends : ℕ → Type 0
  Ends fuel = (i : ℕ) → i < end → end - i ≤ fuel → Found i (skip_loop fuel mem (4 * end) i)

  goes_on :
      (fuel : ℕ)
      → Ends fuel
      → (i : ℕ) → i < end + 12
      → end - i ≤ fuel
      → Found i (if ltb (4 * i) (4 * end) then skip_loop fuel mem (4 * end) i else some i)
  goes_on fuel next i l f = elim (Bool-cases (ltb (4 * i) (4 * end))) [
    | inl more ↦ rw more (next i (omega (arith, ltb→lt (4 * i) (4 * end) more)) f)
    | inr last ↦ rw last (i, refl, none_left, l, inl (ground arith))
  ]

  round : (fuel : ℕ) → Ends fuel → Ends (suc fuel)
  round fuel next i h f =
      rw (skip_loop-chosen fuel i h) (elim (Bool-cases (has_channels 1 12 (drop i mem))) [
        | inl good ↦ elim (Bool-cases (is_silent 12 (drop i mem))) [
          | inl quiet ↦
              let (n, e, junk, l, stop) = goes_on fuel next (i + 12) (omega arith) (omega arith) in
              rw (good, quiet) (n, e, silence good quiet junk, l, stop)
          | inr loud ↦ rw (good, loud) (i, refl, none_left, omega arith, inr (good, loud))
        ]
        | inr bad ↦
            let (n, e, junk, l, stop) = goes_on fuel next (i + 1) (omega arith) (omega arith) in
            rw bad (n, e, no_sample bad junk, l, stop)
      ])

  ends : (fuel : ℕ) → Ends fuel
  ends zero = λ i h f. absurd (omega arith)
  ends (suc fuel) = round fuel (ends fuel)

-- For a length of 48 or more, with eleven words behind its whole samples, `skipData` returns
-- without a read out of bounds. What it skips is silent samples, of twelve words numbered from 1 to 12
-- each, and words at which no such sample starts; and what it stops at is a sample with sound, or the end of the whole samples, which it passes by eleven words at most.
pub skip_data-Junk :
    (mem : List ℕ) (len : ℕ)
    → mini_single_sample_bytes ≤ len
    → len / 48 * 12 + 11 ≤ length mem
    → (n : ℕ) × (skip_data mem len ≡ some (pos (4 * n)))
      × Junk mem 0 n
      × (n < len / 48 * 12 + 12)
      × ((len / 48 * 12 ≤ n) ⊎ Sounds mem n)
unfolding skip_data
skip_data-Junk mem len h room =
    let (n, e, junk, l, stop) =
      ends mem (len / 48 * 12) room (len / 4) 0 (omega arith) (omega arith) in
    (n, rw (enough, whole, e), junk, l, stop)
  where
    whole : whole_samples len ≡ 4 * (len / 48 * 12)
    whole = ground arith

    enough : ltb len 48 ≡ false
    enough = ground arith
