-- ===== src/FrameCheck/Clean.antt =====
-- What speech/test/findError.c says of a recording of well-formed frames.
use program_learning.Prelude.{
  ◌≤◌, ◌^◌, ◌>>=◌, and_parts, ℕ, zero, suc, ◌+◌, ◌*◌, ◌<◌, ◌≡◌, refl, ap, ap₂, ◌∙◌, true, Option,
  some, List, [], ◌∷◌, ◌++◌, arith, length, take, drop, length-append, append-nil,
}
use program_learning.FrameCheck.{
  Checker, ranged, fresh, has_tag, in_order, read_into, judge, read_word, check_loop, check,
}
use program_learning.FrameCheck.Counts.{ranged-small}

-- Twelve words with the tags from 1 to 12.
pub record Frame (words : List ℕ) : Type 0 where
  pub size : length words ≡ 12
  pub tags : in_order 1 words ≡ true

-- Frames one after another.
pub data Frames : ℕ → List ℕ → Type 0 where
  none_left : Frames 0 []
  and_more :
      {n : ℕ} {frame words : List ℕ}
      → Frame frame
      → Frames n words
      → Frames (suc n) (frame ++ words)

module _ {A : Type 0} where
  take_front : (xs ys : List A) (n : ℕ) → n ≡ length xs → take n (xs ++ ys) ≡ xs
  take_front [] ys zero e = refl
  take_front [] ys (suc n) e = absurd (omega arith)
  take_front (x ∷ xs) ys zero e = absurd (omega arith)
  take_front (x ∷ xs) ys (suc n) e = ap (λ l. x ∷ l) (take_front xs ys n (omega arith))

  drop_front : (xs ys : List A) (n : ℕ) → n ≡ length xs → drop n (xs ++ ys) ≡ ys
  drop_front [] ys zero e = refl
  drop_front [] ys (suc n) e = absurd (omega arith)
  drop_front (x ∷ xs) ys zero e = absurd (omega arith)
  drop_front (x ∷ xs) ys (suc n) e = drop_front xs ys n (omega arith)

-- The frame's last eleven words behind its first one in the buffer.
buffer_filled :
    (w : ℕ) (rest buffer : List ℕ)
    → length buffer ≡ 12
    → length rest ≡ 11
    → read_into 1 rest (read_into 0 (w ∷ []) buffer) ≡ w ∷ rest
buffer_filled w rest [] b e = absurd (omega arith)
buffer_filled w rest (x ∷ buffer) b e =
    ap (λ l. w ∷ (rest ++ l)) (ap (λ k. drop (1 + k) (w ∷ buffer)) e ∙ gone 11 buffer (omega arith))
    ∙ ap (λ l. w ∷ l) (append-nil rest)
  where
    gone : (n : ℕ) (l : List ℕ) → length l ≡ n → drop n l ≡ []
    gone zero [] h = refl
    gone zero (y ∷ l) h = absurd (omega arith)
    gone (suc n) [] h = refl
    gone (suc n) (y ∷ l) h = gone n l (omega arith)

abbrev counted : Checker → List ℕ → Checker
counted c frame = record c {
  file_buffer = frame;
  suc_count = c.suc_count + 48;
  read_count = c.read_count + 48;
}

first_counted :
    (go : List ℕ → Checker → Option Checker) (frame words : List ℕ) (c : Checker)
    → Frame frame
    → length c.file_buffer ≡ 12
    → read_word go (frame ++ words) c ≡ (ranged (counted c frame) >>= λ c'. go words c')
first_counted go [] words c f b = absurd (omega (arith, f.size))
first_counted go (w ∷ []) words c f b = absurd (omega (arith, f.size))
first_counted go (w ∷ v ∷ rest) words c f b = rw first (
    ap₂ (λ l k. ranged k >>= λ c'. go l c') {v = counted c (w ∷ v ∷ rest)}
      (drop_front (v ∷ rest) words 11 (omega (arith, f.size)))
      (ap (λ l. judge (read_into 1 l (read_into 0 (w ∷ []) c.file_buffer)) c)
          (take_front (v ∷ rest) words 11 (omega (arith, f.size)))
        ∙ ap (λ l. judge l c) (buffer_filled w (v ∷ rest) c.file_buffer b (omega (arith, f.size)))
        ∙ rw rest_tags refl))
  where
    first : has_tag 1 w ≡ true
    first = (and_parts (has_tag 1 w) (in_order 2 (v ∷ rest)) f.tags).0

    rest_tags : in_order 2 (v ∷ rest) ≡ true
    rest_tags = (and_parts (has_tag 1 w) (in_order 2 (v ∷ rest)) f.tags).1

all_counted :
    (fuel : ℕ) {n : ℕ} {words : List ℕ} (c : Checker)
    → Frames n words
    → n < fuel
    → length c.file_buffer ≡ 12
    → c.suc_count + c.err_count ≤ c.read_count
    → c.read_count + 48 * n < 2 ^ 31
    → (d : Checker) × (check_loop fuel words c ≡ some d)
      × (d.suc_count ≡ c.suc_count + 48 * n)
      × (d.err_count ≡ c.err_count)
      × (d.read_count ≡ c.read_count + 48 * n)
unfolding check_loop
all_counted zero c f h b parts total = absurd (omega arith)
all_counted (suc fuel) c none_left h b parts total = (c, refl, omega arith, refl, omega arith)
all_counted (suc fuel) c (and_more {frame = frame} {words = words} one more) h b parts total =
    let next = counted c frame in
    let (d, e, s, r, k) =
      all_counted fuel next more (omega arith) one.size (omega (arith, parts))
        (omega (arith, total)) in
    (
      d,
      first_counted (check_loop fuel) frame words c one b
          ∙ (ap (λ o. o >>= λ c'. check_loop fuel words c')
                (ranged-small next (omega (arith, parts)) (omega (arith, total)))
              ∙ e),
      omega (arith, s),
      r,
      omega (arith, k),
    )

length-Frames : {n : ℕ} {words : List ℕ} → Frames n words → length words ≡ 12 * n
length-Frames none_left = omega arith
length-Frames (and_more {frame = frame} {words = words} one more) =
    omega (arith, length-append {0} frame words, length-Frames more, one.size)

-- On a file of well-formed frames, with fewer bytes than the range of `int`, the program ends with all
-- its bytes counted as right, and none as wrong.
pub check-Frames :
    {n : ℕ} {words : List ℕ}
    → Frames n words
    → 4 * length words < 2 ^ 31
    → (d : Checker) × (check words ≡ some d)
      × (d.suc_count ≡ 4 * length words)
      × (d.err_count ≡ 0)
      × (d.read_count ≡ 4 * length words)
unfolding check
check-Frames {words = words} f short =
    let (d, e, s, r, k) =
      all_counted (suc (length words)) fresh f (omega (arith, length-Frames f)) (omega arith)
        (omega arith) (omega (arith, length-Frames f, short)) in
    (d, e, omega (arith, s, length-Frames f), r, omega (arith, k, length-Frames f))
