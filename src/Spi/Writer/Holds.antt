-- ===== src/Spi/Writer/Holds.antt =====
-- What a call of one of the writers of demo/perfdemo/perfdemo.c does to a buffer that holds packed
-- symbols.
use program_learning.Prelude.{
  ℕ, zero, suc, ◌+◌, ◌-◌, ◌*◌, ◌/◌, ◌%◌, ◌^◌, ◌<◌, ◌≤◌, ◌≡◌, ◌≢◌, refl, sym, ap, ◌∙◌, Option, some,
  List, [], ◌∷◌, ◌++◌, length, replicate, arith, length-append, append_assoc, ℕ_discrete,
}
use native.Mathlib.Nat.{mod-lt, one-le-pow}
use program_learning.Spi.Symbols.{pack}
use program_learning.Spi.Writer.{Sink}
use program_learning.Spi.Writer.Steps.{Writes, low_byte}

-- The first `n` bytes of the buffer hold the symbols `sent`, packed, and zeros behind them; `old` is
-- what lies behind.
pub record Holds (n : ℕ) (old sent : List ℕ) (s : Sink) : Type 0 where
  pub out : List ℕ
  pub c : ℕ
  pub k : ℕ
  pub z : ℕ
  pub few : k < 8
  pub fits : c < 2 ^ k
  pub layout : s.buf ≡ out ++ (pack c k [] ++ (replicate z 0 ++ old))
  pub pos : s.bit_pos ≡ 8 * length out + k
  pub count : s.bit_pos ≡ 9 * length sent
  pub sends : (rest : List ℕ) → out ++ pack c k rest ≡ pack 0 0 (sent ++ rest)
  pub room : length out + length (pack c k []) + z ≡ n

-- Where there is room for a symbol, the byte at hand and a clear one lie behind the full bytes.
open_bytes :
    (c k z : ℕ) (old : List ℕ)
    → k < 8
    → c < 2 ^ k
    → k + 9 ≤ 8 * (length (pack c k []) + z)
    → (z' : ℕ) × (pack c k [] ++ (replicate z 0 ++ old)
        ≡ c * 2 ^ (8 - k) ∷ 0 ∷ (replicate z' 0 ++ old))
      × (length (pack c k []) + z ≡ 2 + z')
unfolding pack
open_bytes c zero zero old p h r = absurd (omega arith)
open_bytes c zero (suc zero) old p h r = absurd (omega arith)
open_bytes c zero (suc (suc z)) old p h r =
    (z, ap (λ b. b ∷ 0 ∷ (replicate z 0 ++ old)) (omega arith), omega arith)
open_bytes c (suc k) zero old p h r = absurd (ground arith)
open_bytes c (suc k) (suc z) old p h r = (z, ground arith, ground arith)

abbrev head_of : ℕ → ℕ → ℕ
head_of k bits = bits / 2 ^ (k + 1)

abbrev kept_of : ℕ → ℕ → ℕ
kept_of k bits = bits % 2 ^ (k + 1)

pack-full :
    (c s : ℕ) (ss : List ℕ)
    → pack c 7 (s ∷ ss) ≡ head_of 7 (c * 512 + s) ∷ kept_of 7 (c * 512 + s) ∷ pack 0 0 ss
unfolding pack
pack-full c s ss = refl

pack-more :
    (c k s : ℕ) (ss : List ℕ)
    → k ≢ 7
    → pack c k (s ∷ ss) ≡ head_of k (c * 512 + s) ∷ pack (kept_of k (c * 512 + s)) (k + 1) ss
unfolding pack
pack-more c k s ss h = ground arith

pack-kept : (c k : ℕ) → pack c (k + 1) [] ≡ c * 2 ^ (7 - k) ∷ []
unfolding pack
pack-kept c k = ground (arith, ap (λ (t : ℕ). c * 2 ^ t) e)
  where
    e : 8 - (k + 1) ≡ 7 - k
    e = omega arith

-- After a symbol: the full bytes, the bits kept, and the symbol sent.
module _ {n : ℕ} {old sent : List ℕ} {s : Sink} (writer : Sink → Option Sink) (symbol : ℕ)
    (w : Writes writer symbol) (h : Holds n old sent s) (free : s.bit_pos + 9 ≤ 8 * n)
    (short : 8 * n < 2 ^ 32) where
  open h use {out, c, k, z}

  abbrev bits : ℕ
  bits = c * 512 + symbol

  abbrev written : ℕ → Sink
  written z' = record {
    buf = out ++ (head_of k bits ∷ low_byte k bits ∷ (replicate z' 0 ++ old));
    bit_pos = s.bit_pos + 9;
  }

  opened :
      (z' : ℕ) × (pack c k [] ++ (replicate z 0 ++ old)
        ≡ c * 2 ^ (8 - k) ∷ 0 ∷ (replicate z' 0 ++ old))
      × (length (pack c k []) + z ≡ 2 + z')
  opened = open_bytes c k z old h.few h.fits (omega (arith, h.pos, h.room))

  writes : writer s ≡ some (written opened.0)
  writes =
      ap (λ b. writer (record { buf = b; bit_pos = s.bit_pos }))
        (h.layout ∙ ap (λ l. out ++ l) opened.1)
      ∙ w out c k s.bit_pos (replicate opened.0 0 ++ old) h.few h.fits h.pos (omega arith)

  counted : s.bit_pos + 9 ≡ 9 * length (sent ++ (symbol ∷ []))
  counted = omega (arith, h.count, length-append {0} sent (symbol ∷ []))

  -- What is known of the count of bytes and of the room behind them.
  length-pack : (a : ℕ) → length (pack a 0 []) ≡ 0
  unfolding pack
  length-pack a = refl

  low_at_seven : k ≡ 7 → low_byte k bits ≡ kept_of k bits
  low_at_seven e = ground arith

  low_before : k ≢ 7 → low_byte k bits ≡ kept_of k bits * 2 ^ (7 - k)
  low_before ne = ground arith

  full_at_seven :
      k ≡ 7
      → (rest : List ℕ) → pack c k (symbol ∷ rest) ≡ head_of k bits ∷ kept_of k bits ∷ pack 0 0 rest
  full_at_seven e rest = ground (arith, pack-full c symbol rest)

  after_full : k ≡ 7 → Holds n old (sent ++ (symbol ∷ [])) (written opened.0)
  unfolding pack
  after_full e = record {
    out = out ++ (head_of k bits ∷ kept_of k bits ∷ []);
    c = 0;
    k = 0;
    z = opened.0;
    few = omega arith;
    fits = omega arith;
    layout =
        ap (λ b. out ++ (head_of k bits ∷ b ∷ (replicate opened.0 0 ++ old))) (low_at_seven e)
        ∙ sym (append_assoc out (head_of k bits ∷ kept_of k bits ∷ []) _);
    pos = omega (arith, h.pos, length-append {0} out (head_of k bits ∷ kept_of k bits ∷ []));
    count = counted;
    sends = λ rest.
        append_assoc out (head_of k bits ∷ kept_of k bits ∷ []) (pack 0 0 rest)
        ∙ ap (λ l. out ++ l) (sym (full_at_seven e rest))
        ∙ h.sends (symbol ∷ rest)
        ∙ ap (pack 0 0) (sym (append_assoc sent (symbol ∷ []) rest));
    room = omega (
      arith,
      h.room,
      opened.2,
      length-append {0} out (head_of k bits ∷ kept_of k bits ∷ []),
      length-pack 0,
    );
  }

  after_more : k ≢ 7 → Holds n old (sent ++ (symbol ∷ [])) (written opened.0)
  after_more ne = record {
    out = out ++ (head_of k bits ∷ []);
    c = kept_of k bits;
    k = k + 1;
    z = opened.0;
    few = omega (arith, h.few);
    fits = mod-lt bits (one-le-pow (k + 1) 2 (omega arith));
    layout =
        ap (λ b. out ++ (head_of k bits ∷ b ∷ (replicate opened.0 0 ++ old))) (low_before ne)
        ∙ ap (λ l. out ++ (head_of k bits ∷ (l ++ (replicate opened.0 0 ++ old))))
            (sym (pack-kept (kept_of k bits) k))
        ∙ sym (append_assoc out (head_of k bits ∷ []) _);
    pos = omega (arith, h.pos, length-append {0} out (head_of k bits ∷ []));
    count = counted;
    sends = λ rest.
        append_assoc out (head_of k bits ∷ []) (pack (kept_of k bits) (k + 1) rest)
        ∙ ap (λ l. out ++ l) (sym (pack-more c k symbol rest ne))
        ∙ h.sends (symbol ∷ rest)
        ∙ ap (pack 0 0) (sym (append_assoc sent (symbol ∷ []) rest));
    room = omega (
      arith,
      h.room,
      opened.2,
      length-append {0} out (head_of k bits ∷ []),
      ap length (pack-kept (kept_of k bits) k),
    );
  }

  pub Holds-step : (s' : Sink) × (writer s ≡ some s') × Holds n old (sent ++ (symbol ∷ [])) s'
  Holds-step = (
    written opened.0,
    writes,
    (elim (ℕ_discrete k 7) [ yes e ↦ after_full e | no ne ↦ after_more ne ]),
  )
