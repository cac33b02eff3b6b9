-- ===== src/FrameCheck/Counts.antt =====
-- What speech/test/findError.c counts, for any file.
use program_learning.Prelude.{
  ap, ◌∙◌, ◌^◌, ◌>>=◌, ℕ, zero, suc, ◌+◌, ◌*◌, ◌<◌, ◌≤◌, ◌≡◌, refl, some, List, [], ◌∷◌, arith,
  length, take, drop, length-drop, Bool-cases, inl, inr, min,
}
use program_learning.FrameCheck.{
  Checker, ranged, fresh, has_tag, read_into, judge, stray, read_frame, read_word, check_loop,
  check,
}

-- What a part of the loop has added to the counts, for the words that were left.
pub record Counted (c d : Checker) (words : ℕ) : Type 0 where
  pub all : d.read_count + (c.suc_count + c.err_count) ≡ c.read_count + (d.suc_count + d.err_count)
  pub at_least : c.read_count + 4 * words ≤ d.read_count + 4
  pub at_most : d.read_count ≤ c.read_count + 4 * words + 40 * min 1 words

-- The counts stay in the range of `int` with so many words to come.
pub record Room (c : Checker) (words : ℕ) : Type 0 where
  pub parts : c.suc_count + c.err_count ≤ c.read_count
  pub total : c.read_count + 4 * words + 40 * min 1 words < 2 ^ 31

pub ranged-small :
    (c : Checker)
    → c.suc_count + c.err_count ≤ c.read_count
    → c.read_count < 2 ^ 31
    → ranged c ≡ some c
ranged-small c parts small = ground (arith, parts, small)

abbrev Ends : ℕ → Type 0
Ends fuel =
    (words : List ℕ) (c : Checker)
    → length words < fuel
    → Room c (length words)
    → (d : Checker) × (check_loop fuel words c ≡ some d) × Counted c d (length words)

after_frame :
    {fuel : ℕ}
    → Ends fuel
    → (words buffer : List ℕ) (c : Checker) → length words < fuel
    → Room c (suc (length words))
    → (d : Checker) × (read_frame (check_loop fuel) words buffer c ≡ some d)
      × Counted c d (suc (length words))
after_frame ends [] buffer c h room = (
  record c { file_buffer = buffer },
  refl,
  record { all = omega arith; at_least = omega arith; at_most = omega arith },
)
after_frame {fuel} ends (w ∷ words) buffer c h room =
    let (d, e, counted) =
      ends (drop 11 (w ∷ words)) next (omega (arith, length-drop {0} 10 words)) (record {
        parts = omega (arith, judged frame, reading frame, room.parts);
        total = omega (arith, reading frame, length-drop {0} 10 words, room.total);
      }) in
    (
      d,
      ap (λ o. o >>= λ c'. check_loop fuel (drop 11 (w ∷ words)) c')
            (ranged-small next (omega (arith, judged frame, reading frame, room.parts))
              (omega (arith, reading frame, room.total)))
          ∙ e,
      sum d counted,
    )
  where
    frame : List ℕ
    frame = read_into 1 (take 11 (w ∷ words)) buffer

    next : Checker
    next = judge frame c

    judged :
        (b : List ℕ)
        → (judge b c).suc_count + (judge b c).err_count ≡ c.suc_count + c.err_count + 48
    judged b = ground arith

    reading : (b : List ℕ) → (judge b c).read_count ≡ c.read_count + 48
    reading b = ground arith

    sum :
        (d : Checker)
        → Counted
            (judge (read_into 1 (take 11 (w ∷ words)) buffer) c)
            d
            (length (drop 11 (w ∷ words)))
        → Counted c d (suc (suc (length words)))
    sum d k = record {
      all = omega (arith, k.all, judged b, reading b);
      at_least = omega (arith, k.at_least, reading b, length-drop {0} 10 words);
      at_most = omega (arith, k.at_most, reading b, length-drop {0} 10 words);
    }
      where
        b : List ℕ
        b = read_into 1 (take 11 (w ∷ words)) buffer

read_word-Counted :
    {fuel : ℕ}
    → Ends fuel
    → (words : List ℕ) (c : Checker) → length words < suc fuel
    → Room c (length words)
    → (d : Checker) × (read_word (check_loop fuel) words c ≡ some d) × Counted c d (length words)
read_word-Counted ends [] c h room =
    (c, refl, record { all = omega arith; at_least = omega arith; at_most = omega arith })
read_word-Counted {fuel} ends (w ∷ words) c h room = elim (Bool-cases (has_tag 1 w)) [
  | inl first ↦
      let (d, e, k) =
        after_frame ends words (read_into 0 (w ∷ []) c.file_buffer) c (omega arith) room in
      (d, rw first e, k)
  | inr other ↦
      let next = stray (read_into 0 (w ∷ []) c.file_buffer) c in
      let (d, e, k) =
        ends words next (omega arith)
          (record { parts = omega (arith, room.parts); total = omega (arith, room.total) }) in
      (
        d,
        rw other (
            ap (λ o. o >>= λ c'. check_loop fuel words c')
              (ranged-small next (omega (arith, room.parts)) (omega (arith, room.total)))
            ∙ e),
        record {
          all = omega (arith, k.all);
          at_least = omega (arith, k.at_least);
          at_most = omega (arith, k.at_most);
        },
      )
]

loop_ends : (fuel : ℕ) → Ends fuel
unfolding check_loop
loop_ends zero words c h room = absurd (omega arith)
loop_ends (suc fuel) words c h room = read_word-Counted (loop_ends fuel) words c h room

-- The program ends on every file of whole words that is 40 bytes shorter than the range of `int`:
-- its counts stay in that range. Each byte it has counted as read is counted as right or as wrong,
-- and not as both; it has counted all words, but for a first word of a frame at the very end; and
-- it has counted 40 bytes too many at most, for a frame that the file's end cuts short.
pub check-counts :
    (words : List ℕ)
    → 4 * length words + 40 < 2 ^ 31
    → (d : Checker) × (check words ≡ some d)
      × (d.read_count ≡ d.suc_count + d.err_count)
      × (4 * length words ≤ d.read_count + 4)
      × (d.read_count ≤ 4 * length words + 40)
unfolding check
check-counts words short =
    let (d, e, k) =
      loop_ends (suc (length words)) words fresh (omega arith)
        (record { parts = omega arith; total = omega (arith, short) }) in
    (d, e, omega (arith, k.all), omega (arith, k.at_least), omega (arith, k.at_most))
