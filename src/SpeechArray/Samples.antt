-- ===== src/SpeechArray/Samples.antt =====
-- Streams of whole samples with sound, in the format of speech/src/speecharray.c, and what is mixed of
-- them.
use program_learning.Prelude.{
  ℕ, zero, suc, ◌+◌, ◌*◌, ◌/◌, ◌%◌, ◌^◌, ◌≤◌, ◌≡◌, refl, ap, ap₂, sym, ◌∙◌, and_parts, ◌==◌, ◌&&◌,
  ◌||◌, true, false, List, [], ◌∷◌, ◌++◌, arith, length, drop, get_or, drop-add, length-drop,
  append_assoc, subst,
}
use program_learning.SpeechArray.Format.{has_channels, is_silent, mixed, pair_of, samples, sound}
use program_learning.SpeechArray.Skip.{Sounds}

-- The first `m` times twelve words are samples with sound.
abbrev pub IsPlain : ℕ → List ℕ → Type 0
IsPlain zero ws = Unit {0}
IsPlain (suc m) ws = Sounds ws 0 × IsPlain m (drop 12 ws)

-- What the first `m` samples give.
abbrev pub mix : ℕ → List ℕ → List ℕ
mix zero ws = []
mix (suc m) ws = mixed ws ++ mix m (drop 12 ws)

pub has_channels-length : (c n : ℕ) (ws : List ℕ) → has_channels c n ws ≡ true → n ≤ length ws
unfolding has_channels
has_channels-length c zero ws e = omega arith
has_channels-length c (suc n) [] e = cc
has_channels-length c (suc n) (w ∷ ws) e =
    omega (arith, has_channels-length (c + 1) n ws (and_parts (w / 256 % 16 == c) _ e).1)

samples-nil : (j k : ℕ) → samples j k [] ≡ []
unfolding samples
samples-nil j zero = refl
samples-nil j (suc k) = refl

inside_sample : (j k n : ℕ) (ws : List ℕ) → n ≡ j + k → samples j n ws ≡ samples 0 k (drop j ws)
unfolding samples
inside_sample zero k n ws e = ap (λ l. samples 0 l ws) {y = k} (omega arith)
inside_sample (suc j) k zero ws e = absurd (omega arith)
inside_sample (suc j) k (suc n) [] e = sym (samples-nil 0 k)
inside_sample (suc j) k (suc n) (w ∷ ws) e = inside_sample j k n ws (omega arith)

sample_first :
    (w k : ℕ) (ws : List ℕ)
    → has_channels 1 12 (w ∷ ws) ≡ true
    → samples 0 (suc k) (w ∷ ws) ≡ mixed (w ∷ ws) ++ samples 11 k ws
unfolding samples
sample_first w k ws e = rw e refl

no_sample : has_channels 1 12 [] ≡ false
unfolding has_channels
no_sample = refl

-- The samples of such a stream are those that stand there.
pub samples-mix : (m : ℕ) (ws : List ℕ) → IsPlain m ws → samples 0 (m * 12) ws ≡ mix m ws
unfolding samples
samples-mix zero ws h = refl
samples-mix (suc m) [] (s, h) = cc (sym no_sample ∙ s.0)
samples-mix (suc m) (w ∷ ws) (s, h) =
    ap (λ k. samples 0 k (w ∷ ws)) {y = suc (11 + m * 12)} (omega arith)
    ∙ sample_first w (11 + m * 12) ws s.0
    ∙ ap (λ l. mixed (w ∷ ws) ++ l)
        (inside_sample 11 (m * 12) (11 + m * 12) ws refl ∙ samples-mix m (drop 11 ws) h)

module _ (t : List ℕ) where
  has_channels-front :
      (c n : ℕ) (ws : List ℕ) → n ≤ length ws → has_channels c n (ws ++ t) ≡ has_channels c n ws
  unfolding has_channels
  has_channels-front c zero ws h = refl
  has_channels-front c (suc n) [] h = absurd (omega arith)
  has_channels-front c (suc n) (w ∷ ws) h =
      ap (λ b. (w / 256 % 16 == c) && b) (has_channels-front (c + 1) n ws (omega arith))

  is_silent-front : (n : ℕ) (ws : List ℕ) → n ≤ length ws → is_silent n (ws ++ t) ≡ is_silent n ws
  unfolding is_silent
  is_silent-front zero ws h = refl
  is_silent-front (suc n) [] h = absurd (omega arith)
  is_silent-front (suc n) (w ∷ ws) h =
      ap (λ b. (sound w == 0 || sound w == 0xffff) && b) (is_silent-front n ws (omega arith))

  get_or-front : (ws : List ℕ) (i : ℕ) → suc i ≤ length ws → get_or (ws ++ t) i 0 ≡ get_or ws i 0
  get_or-front [] i h = absurd (omega arith)
  get_or-front (w ∷ ws) zero h = refl
  get_or-front (w ∷ ws) (suc i) h = get_or-front ws i (omega arith)

  pub drop-front : (n : ℕ) (ws : List ℕ) → n ≤ length ws → drop n (ws ++ t) ≡ drop n ws ++ t
  drop-front zero ws h = refl
  drop-front (suc n) [] h = absurd (omega arith)
  drop-front (suc n) (w ∷ ws) h = drop-front n ws (omega arith)

  mixed-front : (ws : List ℕ) → 12 ≤ length ws → mixed (ws ++ t) ≡ mixed ws
  mixed-front ws h = λ i.
      pair 0 1 (omega arith) (omega arith) i
      ∷ pair 6 7 (omega arith) (omega arith) i
      ∷ pair 3 9 (omega arith) (omega arith) i
      ∷ []
    where
      pair : (a b : ℕ) → suc a ≤ 12 → suc b ≤ 12 → pair_of a b (ws ++ t) ≡ pair_of a b ws
      pair a b la lb =
          ap₂ (λ x y. sound x * 2 ^ 16 + sound y) (get_or-front ws a (omega arith))
            (get_or-front ws b (omega arith))

  -- What stands behind the samples does not matter.
  pub mix-front : (m : ℕ) (ws : List ℕ) → m * 12 ≤ length ws → mix m (ws ++ t) ≡ mix m ws
  mix-front zero ws h = refl
  mix-front (suc m) ws h =
      ap₂ (λ a b. a ++ b) (mixed-front ws (omega arith))
        (ap (mix m) (drop-front 12 ws (omega arith))
          ∙ mix-front m (drop 12 ws) (omega (arith, length-drop 12 ws)))

  pub IsPlain-front :
      (m : ℕ) (ws : List ℕ) → m * 12 ≤ length ws → IsPlain m (ws ++ t) → IsPlain m ws
  IsPlain-front zero ws h p = tt
  IsPlain-front (suc m) ws h (s, p) = (
    (
      sym (has_channels-front 1 12 ws (omega arith)) ∙ s.0,
      sym (is_silent-front 12 ws (omega arith)) ∙ s.1,
    ),
    IsPlain-front m (drop 12 ws) (omega (arith, length-drop 12 ws))
        (subst (IsPlain m) (drop-front 12 ws (omega arith)) p),
  )

  pub IsPlain-behind :
      (m : ℕ) (ws : List ℕ) → m * 12 ≤ length ws → IsPlain m ws → IsPlain m (ws ++ t)
  IsPlain-behind zero ws h p = tt
  IsPlain-behind (suc m) ws h (s, p) = (
    (has_channels-front 1 12 ws (omega arith) ∙ s.0, is_silent-front 12 ws (omega arith) ∙ s.1),
    subst (IsPlain m) (sym (drop-front 12 ws (omega arith)))
        (IsPlain-behind m (drop 12 ws) (omega (arith, length-drop 12 ws)) p),
  )

-- Some samples, and then those behind them.
behind : (m : ℕ) (ws : List ℕ) → drop (m * 12) (drop 12 ws) ≡ drop (suc m * 12) ws
behind m ws = sym (drop-add 12 (m * 12) ws) ∙ ap (λ j. drop j ws) (omega arith)

pub IsPlain-split :
    (m k n : ℕ) (ws : List ℕ)
    → n ≡ m + k
    → IsPlain n ws
    → IsPlain m ws × IsPlain k (drop (m * 12) ws)
IsPlain-split zero k n ws e p = (tt, subst (λ l. IsPlain l ws) {y = k} (omega arith) p)
IsPlain-split (suc m) k zero ws e p = absurd (omega arith)
IsPlain-split (suc m) k (suc n) ws e (s, p) =
    let both = IsPlain-split m k n (drop 12 ws) (omega arith) p in
    ((s, both.0), subst (IsPlain k) (behind m ws) both.1)

pub mix-split :
    (m k n : ℕ) (ws : List ℕ) → n ≡ m + k → mix n ws ≡ mix m ws ++ mix k (drop (m * 12) ws)
mix-split zero k n ws e = ap (λ l. mix l ws) {y = k} (omega arith)
mix-split (suc m) k zero ws e = absurd (omega arith)
mix-split (suc m) k (suc n) ws e =
    ap (λ l. mixed ws ++ l) (mix-split m k n (drop 12 ws) (omega arith))
    ∙ sym (append_assoc (mixed ws) (mix m (drop 12 ws)) (mix k (drop (m * 12) (drop 12 ws))))
    ∙ ap (λ l. mix (suc m) ws ++ mix k l) (behind m ws)
