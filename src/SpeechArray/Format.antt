-- ===== src/SpeechArray/Format.antt =====
-- The format that speech/src/speecharray.c reads: samples of twelve words, each with the number of its
-- channel, from 1 on, in the bits 8 to 11, and sixteen bits of sound in its upper half. These are the
-- numbers that speech/test/findError.c looks for too. The comment above `parseData_INT32` gives the
-- words the numbers 000 to b00, though it counts the channels from 1 on.
use program_learning.Prelude.{
  ℕ, zero, suc, ◌+◌, ◌*◌, ◌/◌, ◌%◌, ◌^◌, ◌≤◌, ◌<◌, ◌≡◌, refl, ap, ◌∙◌, Bool, true, false, not, ◌&&◌,
  ◌||◌, some, List, [], ◌∷◌, ◌++◌, arith, ◌==◌, if◌then◌else◌, length, get_elem?, get_or, drop,
}
use program_learning.Prelude.Bits.{or_shifted}
use program_learning.Prelude.Fields.{and_0xf00, and_field}
use program_learning.SpeechArray.{check_error_from, check_data_from, merge}

-- The words carry the channels from `c` on, `n` of them.
unfoldable pub has_channels : ℕ → ℕ → List ℕ → Bool
has_channels c zero ws = true
has_channels c (suc n) [] = false
has_channels c (suc n) (w ∷ ws) = (w / 256 % 16 == c) && has_channels (c + 1) n ws

-- The sound of a word.
abbrev pub sound : ℕ → ℕ
sound w = w / 2 ^ 16 % 2 ^ 16

-- The first `n` words have sounds of 0 or -1 only.
unfoldable pub is_silent : ℕ → List ℕ → Bool
is_silent zero ws = true
is_silent (suc n) [] = false
is_silent (suc n) (w ∷ ws) = (sound w == 0 || sound w == 0xffff) && is_silent n ws

-- Two channels, by their places in a sample, in one word.
abbrev pub pair_of : ℕ → ℕ → List ℕ → ℕ
pair_of i j ws = sound (get_or ws i 0) * 2 ^ 16 + sound (get_or ws j 0)

-- The four microphones 1, 2, 7, 8 and the two echo channels 4, 10.
abbrev pub mixed : List ℕ → List ℕ
mixed ws = pair_of 0 1 ws ∷ pair_of 6 7 ws ∷ pair_of 3 9 ws ∷ []

-- The words in the first `k` that a sample starts at, up to words that are skipped where none does;
-- `j` is the number of words left of a sample that was found. What a sample gives stands for it.
unfoldable pub samples : ℕ → ℕ → List ℕ → List ℕ
samples j zero ws = []
samples j (suc k) [] = []
samples zero (suc k) (w ∷ ws) =
    let after_sample = samples 11 k ws in
    let after_word = samples zero k ws in
    if has_channels 1 12 (w ∷ ws) then mixed (w ∷ ws) ++ after_sample else after_word
samples (suc j) (suc k) (w ∷ ws) = samples j k ws

pub merge-eq : (v w : ℕ) → merge v w ≡ sound v * 2 ^ 16 + sound w
merge-eq v w = ground (
  arith,
  and_field 16 16 v,
  and_field 16 16 w,
  or_shifted 16 (v / 2 ^ 16 % 2 ^ 16) (w / 2 ^ 16 % 2 ^ 16),
)

pub drop-cons : (ws : List ℕ) (i : ℕ) → i < length ws → drop i ws ≡ get_or ws i 0 ∷ drop (i + 1) ws
drop-cons [] i h = absurd (omega arith)
drop-cons (w ∷ ws) zero h = refl
drop-cons (w ∷ ws) (suc i) h =
    drop-cons ws i (omega arith)
    ∙ ap (λ k. get_or ws i 0 ∷ drop k (w ∷ ws)) {x = suc (i + 1)} (omega arith)

pub get_or-drop : (ws : List ℕ) (i j : ℕ) → get_or (drop i ws) j 0 ≡ get_or ws (i + j) 0
get_or-drop ws zero j = ap (λ k. get_or ws k 0) (omega arith)
get_or-drop [] (suc i) j = refl
get_or-drop (w ∷ ws) (suc i) j =
    get_or-drop ws i j ∙ ap (λ k. get_or (w ∷ ws) k 0) {x = suc (i + j)} (omega arith)

-- Where two memories agree from word `i` on, and the words are there, the macros read the format.
module _ (mem org : List ℕ) (from : ℕ)
    (agree : (i : ℕ) → from ≤ i → i < length org → get_elem? mem i ≡ some (get_or org i 0)) where
  pub check_error_from-eq :
      (i c n : ℕ)
      → from ≤ i
      → i + n ≤ length org
      → c + n ≤ 16
      → check_error_from mem i c n ≡ some (not (has_channels c n (drop i org)))
  unfolding check_error_from has_channels
  check_error_from-eq i c zero h l s = refl
  check_error_from-eq i c (suc n) h l s = ground (
    arith,
    agree i h (omega arith),
    drop-cons org i (omega arith),
    check_error_from-eq (i + 1) (c + 1) n (omega arith) (omega arith) (omega arith),
    and_0xf00 (get_or org i 0),
  )

  pub check_data_from-eq :
      (i n : ℕ)
      → from ≤ i
      → i + n ≤ length org
      → check_data_from mem i n ≡ some (is_silent n (drop i org))
  unfolding check_data_from is_silent
  check_data_from-eq i zero h l = refl
  check_data_from-eq i (suc n) h l = ground (
    arith,
    agree i h (omega arith),
    drop-cons org i (omega arith),
    check_data_from-eq (i + 1) n (omega arith) (omega arith),
    and_field 16 16 (get_or org i 0),
  )
