-- ===== src/SpeechArray/Reader/Stream/Front.antt =====
-- The buffer of `SpeechArrayRead` of speech/src/speecharray.c on a stream of whole samples.
use program_learning.Prelude.{
  take-front, ℕ, ◌+◌, ◌-◌, ◌*◌, ◌/◌, ◌≤◌, ◌≡◌, ap, sym, ◌∙◌, List, ◌++◌, arith, length, take, drop,
  append_assoc, take-append-drop, length-take, length-drop, length-append, subst,
}
use program_learning.SpeechArray.Format.{samples}
use program_learning.SpeechArray.Samples.{
  IsPlain, mix, samples-mix, mix-front, IsPlain-front, IsPlain-behind, drop-front,
}
use program_learning.SpeechArray.Reader.{Handle}
use program_learning.SpeechArray.Reader.Steady.{Steady}

-- What is in the buffer when `w` words of the content have arrived behind the `p` that were left.
module _ (h : Handle) (p half a : ℕ) (s : Steady h p half a) (content : List ℕ) (w m : ℕ)
    (room : p + w + 11 ≤ 2 * half) (there : w ≤ length content) (enough : m * 12 ≤ p + w) where
  abbrev front : List ℕ
  front = take p h.buffer ++ take w content

  abbrev tail : List ℕ
  tail = drop (p + length (take w content)) h.buffer

  pub arrived : length (take w content) ≡ w
  arrived = omega (arith, length-take w content)

  pub length-front : length front ≡ p + w
  length-front = omega (
    arith,
    length-append {0} (take p h.buffer) (take w content),
    length-take p h.buffer,
    s.buffer_size,
    arrived,
  )

  pub whole : front ++ drop w content ≡ take p h.buffer ++ content
  whole =
      append_assoc (take p h.buffer) (take w content) (drop w content)
      ∙ ap (λ l. take p h.buffer ++ l) (take-append-drop w content)

  pub plain : IsPlain m (take p h.buffer ++ content) → IsPlain m (front ++ tail)
  plain h' = IsPlain-behind tail m front (omega (arith, length-front)) (
      IsPlain-front (drop w content) m front (omega (arith, length-front))
        (subst (IsPlain m) (sym whole) h'))

  pub mixes :
      IsPlain m (take p h.buffer ++ content)
      → samples 0 (m * 12 / 12 * 12) (front ++ tail) ≡ mix m (take p h.buffer ++ content)
  mixes h' =
      ap (λ k. samples 0 k (front ++ tail)) {y = m * 12} (omega arith)
      ∙ samples-mix m (front ++ tail) (plain h')
      ∙ mix-front tail m front (omega (arith, length-front))
      ∙ sym (mix-front (drop w content) m front (omega (arith, length-front)))
      ∙ ap (mix m) whole

  pub remains :
      (b : List ℕ)
      → take (p + w - m * 12) b ≡ take (p + w - m * 12) (drop (m * 12) (front ++ tail))
      → take (p + w - m * 12) b ++ drop w content ≡ drop (m * 12) (take p h.buffer ++ content)
  remains b e =
      ap (λ l. l ++ drop w content)
        (e
          ∙ ap (take (p + w - m * 12))
              (drop-front tail (m * 12) front (omega (arith, length-front)))
          ∙ take-front (drop (m * 12) front) tail (p + w - m * 12)
              (omega (arith, length-drop (m * 12) front, length-front)))
      ∙ sym (drop-front (drop w content) (m * 12) front (omega (arith, length-front)))
      ∙ ap (drop (m * 12)) whole
