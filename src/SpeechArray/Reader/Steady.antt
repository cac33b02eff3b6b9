-- ===== src/SpeechArray/Reader/Steady.antt =====
-- A handle of speech/src/speecharray.c between two calls of `SpeechArrayRead`, and how much the next
-- one asks for.
use program_learning.Prelude.{
  ℕ, ◌+◌, ◌-◌, ◌*◌, ◌/◌, ◌%◌, ◌≤◌, ◌<◌, ◌≡◌, refl, ap, ap₂, ◌∙◌, inl, inr, false, arith, length,
  ltb, Bool-cases,
}
use native.Mathlib.Nat.{mod-lt, mod-add-div, add-mul-mod_self_left, mod-eq_of_lt, mul_assoc}
use program_learning.SpeechArray.Reader.{Handle, read_size, bounded, round_up}
use program_learning.SpeechArray.Reader.Ready.{Ready}

-- A handle for samples of six channels of sixteen bits, on a device whose buffer has `half` words and
-- whose frames have `a`, with `p` words left from the last call.
pub record Steady (h : Handle) (p half a : ℕ) : Type 0 where
  pub out : h.out_align ≡ 12
  pub size : h.buff_size ≡ 8 * half
  pub buffer_size : length h.buffer ≡ 2 * half
  pub left : h.data_size ≡ 4 * p
  pub align : h.hw_align ≡ 4 * a
  pub ratio_4 : h.ratio ≡ 4
  pub room : p + 11 ≤ half
  pub some_align : 0 < a
  pub small : a + 11 ≤ half

-- `round_up` of words.
mod_words : (x a : ℕ) → 0 < a → 4 * x % (4 * a) ≡ 4 * (x % a)
mod_words x a h =
    ap (λ t. t % (4 * a)) split
    ∙ add-mul-mod_self_left (4 * (x % a)) (4 * a) (x / a)
    ∙ mod-eq_of_lt (omega (arith, mod-lt x h))
  where
    split : 4 * x ≡ 4 * (x % a) + 4 * a * (x / a)
    split = omega (arith, mod-add-div x a, mul_assoc 4 a (x / a))

round_up_words : (x a : ℕ) → 0 < a → round_up (4 * x) (4 * a) ≡ 4 * round_up x a
round_up_words x a h = ground (arith, mod_words x a h, next)
  where
    next : (4 * x + 4 * a) % (4 * a) ≡ 4 * ((x + a) % a)
    next = ap (λ t. t % (4 * a)) {y = 4 * (x + a)} (omega arith) ∙ mod_words (x + a) a h

round_up-near : (x a : ℕ) → round_up x a ≤ x + a
round_up-near x a = ground arith

module _ (h : Handle) (p half a : ℕ) (s : Steady h p half a) (n : ℕ) (large : half ≤ n)
    (small : n + a + 11 ≤ 2 * half) where
  -- The call asks for whole words, there is room for them, what it leaves does not overlap with what it
  -- parses, and is few enough for the next call.
  pub read_size-words :
      (w : ℕ) × (read_size h n ≡ 4 * w)
      × (p + w + 11 ≤ 2 * half)
      × (p + w ≤ n + n)
      × (p + w - n + 11 ≤ half)
  read_size-words = elim (Bool-cases (ltb (4 * words) (h.buff_size / 2))) [
    | inl few ↦ (
      half,
      rw (more, rounded, few) (omega (arith, s.size)),
      omega (arith, s.room),
      omega (arith, s.room),
      omega (arith, s.room),
    )
    | inr many ↦ (
      words,
      rw (more, rounded, many) refl,
      omega (arith, s.room, round_up-near (n - p) a, s.small),
      omega (arith, s.room, round_up-near (n - p) a, s.small),
      omega (arith, s.room, round_up-near (n - p) a, s.small),
    )
  ]
    where
      more : ltb (n * 4) h.data_size ≡ false
      more = ground (arith, s.left, s.room)

      words : ℕ
      words = round_up (n - p) a

      rounded : round_up (n * h.ratio - h.data_size) h.hw_align ≡ 4 * words
      rounded =
          ap₂ round_up (ap₂ (λ r d. n * r - d) s.ratio_4 s.left ∙ (omega arith)) s.align
          ∙ round_up_words (n - p) a s.some_align

  pub bounded-len : bounded h n ≡ n
  bounded-len = rw not_more refl
    where
      most : h.buff_size / h.ratio ≡ 2 * half
      most = ap₂ (λ x y. x / y) s.size s.ratio_4 ∙ (omega arith)

      not_more : ltb (h.buff_size / h.ratio) n ≡ false
      not_more = ground (arith, most)

  pub Steady-Ready : (w : ℕ) → p + w + 11 ≤ 2 * half → Ready h p w (2 * half)
  Steady-Ready w room = record {
    whole = omega (arith, s.size);
    buffer_size = s.buffer_size;
    left = s.left;
    room = room;
    ratio_4 = s.ratio_4;
    aligned = omega (arith, s.align, s.some_align);
  }
