-- ===== src/SpeechArray/Reader/Ready.antt =====
-- A handle of speech/src/speecharray.c that is ready for `SpeechArrayRead`, and its guards.
use program_learning.Prelude.{
  ℕ, ◌+◌, ◌*◌, ◌%◌, ◌≤◌, ◌<◌, ◌≡◌, ◌≢◌, refl, sym, ◌∙◌, false, not, ◌||◌, Option, none, some, List,
  arith, ◌==◌, ◌>>=◌, length,
}
use native.Mathlib.Nat.{mod-lt}
use mathlib.Core.Bool.{true≢false}
use program_learning.SpeechArray.Skip.{Sounds, Junk, none_left, no_sample, silence}
use program_learning.SpeechArray.Reader.{Handle, Delivery, round_up}

pub Junk-Sounds : {mem : List ℕ} {i n : ℕ} → Junk mem i n → Sounds mem i → n ≡ i
Junk-Sounds none_left s = refl
Junk-Sounds (no_sample e junk) s = absurd (true≢false (sym s.0 ∙ e))
Junk-Sounds (silence e q junk) s = absurd (true≢false (sym q ∙ s.1))

pub chained :
    {σ : Type 0} (o : Option Delivery) (dev : σ)
    → ◌>>=◌ {B = Option Delivery × σ}
        (◌>>=◌ {B = Delivery × σ} o (λ d. some (d, dev)))
        (λ (d, s). some (some d, s))
      ≡ ◌>>=◌ {B = Option Delivery × σ} o (λ d. some (some d, dev))
chained none dev = refl
chained (some d) dev = refl

pub accepted :
    (h : Handle) (len : ℕ)
    → len ≢ 0
    → len % h.out_align ≡ 0
    → (len == 0 || not (len % h.out_align == 0)) ≡ false
accepted h len full fits = ground (arith, full, fits)

-- A handle with `p` words left from the last call, and room for `w` more and a sample.
pub record Ready (h : Handle) (p w q : ℕ) : Type 0 where
  pub whole : h.buff_size ≡ 4 * q
  pub buffer_size : length h.buffer ≡ q
  pub left : h.data_size ≡ 4 * p
  pub room : p + w + 11 ≤ q
  pub ratio_4 : h.ratio ≡ 4
  pub aligned : 0 < h.hw_align

pub round_up-le : (n align : ℕ) → 0 < align → n ≤ round_up n align
round_up-le n align h = ground (arith, mod-lt (n + align) h)
