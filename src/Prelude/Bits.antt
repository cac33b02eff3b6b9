-- ===== src/Prelude/Bits.antt =====
-- `|` and `&` of C as arithmetic: `|` of numbers with no digit in common is their sum, `&` with a
-- mask of low ones a remainder. Each goes digit by digit through the definition behind the native
-- operation.
use Prim.Native.Nat.{
  ℕ, zero, suc, ◌+◌, ◌*◌, ◌/◌, ◌%◌, ◌^◌, ◌-◌, ◌≤◌, ◌<◌, max, min, bit_or, bit_and,
}
use Prim.Native.Nat.{digits, bit_or-bitwise, bit_and-bitwise}
use mathlib.Core.Path.{◌≡◌, refl, ap}
use native.Mathlib.Omega.{arith}
use native.Mathlib.Nat.{pow-suc, one-le-pow}

-- The fuel of `digits` does not matter once it is as large as the first number.
module _ (z : ℕ → ℕ) (op : ℕ → ℕ → ℕ) where
  enough_fuel : (k l a b : ℕ) → a ≤ k → a ≤ l → digits z op k a b ≡ digits z op l a b
  enough_fuel zero zero a b p q = refl
  enough_fuel zero (suc l) zero b p q = refl
  enough_fuel zero (suc l) (suc a) b p q = absurd (omega arith)
  enough_fuel (suc k) zero zero b p q = refl
  enough_fuel (suc k) zero (suc a) b p q = absurd (omega arith)
  enough_fuel (suc k) (suc l) zero b p q = refl
  enough_fuel (suc k) (suc l) (suc a) b p q =
      rw (enough_fuel k l (suc a / 2) (b / 2) (omega arith) (omega arith))

  digits-suc :
      (a b : ℕ)
      → digits z op (suc a) (suc a) b
        ≡ digits z op (suc a / 2) (suc a / 2) (b / 2) * 2 + op (suc a % 2) (b % 2)
  digits-suc a b =
      omega (arith, enough_fuel a (suc a / 2) (suc a / 2) (b / 2) (omega arith) (omega arith))

-- The lowest digit of `|`, and the rest.
pub or_digit : (a b : ℕ) → bit_or a b ≡ bit_or (a / 2) (b / 2) * 2 + max (a % 2) (b % 2)
or_digit zero b = omega (arith, bit_or-bitwise 0 b, bit_or-bitwise 0 (b / 2))
or_digit (suc a) b = omega (
  arith,
  bit_or-bitwise (suc a) b,
  bit_or-bitwise (suc a / 2) (b / 2),
  digits-suc (λ y. y) max a b,
)

-- The lowest digit of `&`, and the rest.
pub and_digit : (a b : ℕ) → bit_and a b ≡ bit_and (a / 2) (b / 2) * 2 + min (a % 2) (b % 2)
and_digit zero b = omega (arith, bit_and-bitwise 0 b, bit_and-bitwise 0 (b / 2))
and_digit (suc a) b = omega (
  arith,
  bit_and-bitwise (suc a) b,
  bit_and-bitwise (suc a / 2) (b / 2),
  digits-suc (λ y. zero) min a b,
)

-- No binary digit is set in both: then `|` is `+`.
abbrev pub Disjoint : ℕ → ℕ → Type 0
Disjoint a b = bit_or a b ≡ a + b

pub zero-Disjoint : (b : ℕ) → Disjoint 0 b
zero-Disjoint b = omega (arith, bit_or-bitwise 0 b)

Disjoint-zero_below : (n a : ℕ) → a ≤ n → Disjoint a 0
Disjoint-zero_below n zero h = zero-Disjoint 0
Disjoint-zero_below zero (suc a) h = absurd (omega arith)
Disjoint-zero_below (suc n) (suc a) h =
    omega (arith, or_digit (suc a) 0, Disjoint-zero_below n (suc a / 2) (omega arith))

shifted : (k a : ℕ) → a * 2 ^ suc k ≡ a * 2 ^ k * 2
shifted k a = omega (arith, ap (λ (t : ℕ). a * t) (pow-suc 2 k))

-- `|` works on the digits from `k` on and on those below `k` apart.
pub or_split :
    (k a b r s : ℕ)
    → r < 2 ^ k
    → s < 2 ^ k
    → bit_or (a * 2 ^ k + r) (b * 2 ^ k + s) ≡ bit_or a b * 2 ^ k + bit_or r s
or_split zero a b r s hr hs = ground (arith, zero-Disjoint 0)
or_split (suc k) a b r s hr hs = ground (
  arith,
  or_digit (a * 2 ^ suc k + r) (b * 2 ^ suc k + s),
  or_digit r s,
  shifted k a,
  shifted k b,
  shifted k (bit_or a b),
  pow-suc 2 k,
  or_split k a b (r / 2) (s / 2) (omega (arith, pow-suc 2 k)) (omega (arith, pow-suc 2 k)),
)

-- `&` too.
pub and_split :
    (k a b r s : ℕ)
    → r < 2 ^ k
    → s < 2 ^ k
    → bit_and (a * 2 ^ k + r) (b * 2 ^ k + s) ≡ bit_and a b * 2 ^ k + bit_and r s
and_split zero a b r s hr hs = ground (arith, bit_and-bitwise 0 0)
and_split (suc k) a b r s hr hs = ground (
  arith,
  and_digit (a * 2 ^ suc k + r) (b * 2 ^ suc k + s),
  and_digit r s,
  shifted k a,
  shifted k b,
  shifted k (bit_and a b),
  pow-suc 2 k,
  and_split k a b (r / 2) (s / 2) (omega (arith, pow-suc 2 k)) (omega (arith, pow-suc 2 k)),
)

pub Disjoint-zero : (a : ℕ) → Disjoint a 0
Disjoint-zero a = Disjoint-zero_below a a (omega arith)

-- A field of `k` digits below the digits of `x` where `y` has none, and the other way round.
pub Disjoint-field :
    (k a b r : ℕ) {x y : ℕ}
    → x ≡ a * 2 ^ k + r
    → y ≡ b * 2 ^ k
    → r < 2 ^ k
    → Disjoint a b
    → Disjoint x y
Disjoint-field k a b r {x} {y} ex ey h d =
    ground (arith, or_split k a b r 0, Disjoint-zero r, ap (λ (t : ℕ). t * 2 ^ k) d)

pub Disjoint-gap :
    (k a b s : ℕ) {x y : ℕ}
    → x ≡ a * 2 ^ k
    → y ≡ b * 2 ^ k + s
    → s < 2 ^ k
    → Disjoint a b
    → Disjoint x y
Disjoint-gap k a b s {x} {y} ex ey h d =
    ground (arith, or_split k a b 0 s, zero-Disjoint s, ap (λ (t : ℕ). t * 2 ^ k) d)

-- The two common forms: a number shifted past the digits of another.
pub or_shifted : (k q r : ℕ) → r < 2 ^ k → bit_or (q * 2 ^ k) r ≡ q * 2 ^ k + r
or_shifted k q r h = Disjoint-gap k q 0 r refl (omega arith) h (Disjoint-zero q)

pub or_below : (k q r : ℕ) → r < 2 ^ k → bit_or r (q * 2 ^ k) ≡ r + q * 2 ^ k
or_below k q r h = Disjoint-field k 0 q r (omega arith) refl h (zero-Disjoint q)

and-zero_below : (n a : ℕ) → a ≤ n → bit_and a 0 ≡ 0
and-zero_below n zero h = bit_and-bitwise 0 0
and-zero_below zero (suc a) h = absurd (omega arith)
and-zero_below (suc n) (suc a) h =
    omega (arith, and_digit (suc a) 0, and-zero_below n (suc a / 2) (omega arith))

pub and-zero : (a : ℕ) → bit_and a 0 ≡ 0
and-zero a = and-zero_below a a (omega arith)

-- A mask of ones keeps a number that fits it.
pub and-ones_below : (k r : ℕ) → r < 2 ^ k → bit_and r (2 ^ k - 1) ≡ r
and-ones_below zero r h = omega (arith, and-zero r)
and-ones_below (suc k) r h = ground (
  arith,
  and_digit r (2 ^ suc k - 1),
  one-le-pow k 2,
  pow-suc 2 k,
  and-ones_below k (r / 2) (omega (arith, pow-suc 2 k)),
)
