-- ===== src/Prelude/Fields.antt =====
-- `&` with a mask of ones, `|` of fields and flags, and the bounds of `|`, as arithmetic.
use Prim.Native.Nat.{ℕ, zero, suc, ◌+◌, ◌*◌, ◌/◌, ◌%◌, ◌^◌, ◌-◌, ◌<◌, bit_or, bit_and}
use mathlib.Core.Path.{◌≡◌, ap, ap₂, sym, ◌∙◌}
use native.Mathlib.Omega.{arith}
use native.Mathlib.Nat.{
  pow-suc, one-le-pow, div-add-mod', mod-lt, mul-add-mod_self_right, mod-eq_of_lt,
}
use program_learning.Prelude.Bits.{
  and-ones_below, and_split, or_split, Disjoint, Disjoint-field, Disjoint-gap, and-zero, or_digit,
  zero-Disjoint,
}

-- A mask of ones below digit `k` takes a remainder.
pub and_ones : (k a : ℕ) → bit_and a (2 ^ k - 1) ≡ a % 2 ^ k
and_ones k a = ground (
  arith,
  one-le-pow k 2,
  and_split k (a / 2 ^ k) 0 (a % 2 ^ k) (2 ^ k - 1),
  and-zero (a / 2 ^ k),
  and-ones_below k (a % 2 ^ k),
  div-add-mod' a (2 ^ k),
)

-- `& 0xf00`, and `& 0xffff0000` of a word.
pub and_0xf00 : (w : ℕ) → bit_and w 0xf00 ≡ w / 256 % 16 * 256
and_0xf00 w = ground (
  arith,
  and_split 8 (w / 256) 15 (w % 256) 0,
  and_ones 4 (w / 256),
  and-zero (w % 256),
  div-add-mod' w 256,
)

-- A mask of ones from digit `k` on.
pub and_field : (k m w : ℕ) → bit_and w ((2 ^ m - 1) * 2 ^ k) ≡ w / 2 ^ k % 2 ^ m * 2 ^ k
and_field k m w = ground (
  arith,
  one-le-pow k 2,
  and_split k (w / 2 ^ k) (2 ^ m - 1) (w % 2 ^ k) 0,
  and_ones m (w / 2 ^ k),
  and-zero (w % 2 ^ k),
  div-add-mod' w (2 ^ k),
  ap (λ (t : ℕ). t * 2 ^ k) (and_ones m (w / 2 ^ k)),
)

-- A field of `k` digits below a flag.
pub Disjoint-flag :
    (k a b r : ℕ) {x y : ℕ}
    → x ≡ a * 2 * 2 ^ k + r
    → y ≡ (b * 2 + 1) * 2 ^ k
    → r < 2 ^ k
    → Disjoint a b
    → Disjoint x y
Disjoint-flag k a b r ex ey h d =
    Disjoint-field k (a * 2) (b * 2 + 1) r ex ey h
      (Disjoint-gap 1 a b 1 (omega arith) (omega arith) (omega arith) d)

-- `|` does not go past the digits of its operands.
pub or-lt : (k a b : ℕ) → a < 2 ^ k → b < 2 ^ k → bit_or a b < 2 ^ k
or-lt zero a b p q = ground (arith, zero-Disjoint 0)
or-lt (suc k) a b p q = ground (
  arith,
  or_digit a b,
  pow-suc 2 k,
  or-lt k (a / 2) (b / 2) (omega (arith, pow-suc 2 k)) (omega (arith, pow-suc 2 k)),
)

module _ (k a b : ℕ) where
  or_parts : bit_or a b ≡ bit_or (a / 2 ^ k) (b / 2 ^ k) * 2 ^ k + bit_or (a % 2 ^ k) (b % 2 ^ k)
  or_parts =
      ap₂ bit_or (sym (div-add-mod' a (2 ^ k))) (sym (div-add-mod' b (2 ^ k)))
      ∙ or_split k (a / 2 ^ k) (b / 2 ^ k) (a % 2 ^ k) (b % 2 ^ k) (mod-lt a pos) (mod-lt b pos)
    where
      pos : 0 < 2 ^ k
      pos = one-le-pow k 2 (omega arith)

  low-lt : bit_or (a % 2 ^ k) (b % 2 ^ k) < 2 ^ k
  low-lt = or-lt k (a % 2 ^ k) (b % 2 ^ k) (mod-lt a pos) (mod-lt b pos)
    where
      pos : 0 < 2 ^ k
      pos = one-le-pow k 2 (omega arith)

  -- The digits below `k`.
  pub or-mod : bit_or a b % 2 ^ k ≡ bit_or (a % 2 ^ k) (b % 2 ^ k)
  or-mod =
      ap (λ t. t % 2 ^ k) or_parts
      ∙ mul-add-mod_self_right (bit_or (a / 2 ^ k) (b / 2 ^ k)) (2 ^ k)
          (bit_or (a % 2 ^ k) (b % 2 ^ k))
      ∙ mod-eq_of_lt low-lt
