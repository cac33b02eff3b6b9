-- ===== src/Prelude/Lists.antt =====
-- C arrays as lists with native indices.
use Prim.Native.Nat.{ℕ, zero, suc, ◌+◌, ◌-◌, ◌≤◌, ◌<◌, min}
use mathlib.Core.Path.{◌≡◌, refl, ap, ◌∙◌}
use mathlib.Core.Logic.{◌≢◌}
use mathlib.Core.List.{List, [], ◌∷◌, ◌++◌}
use mathlib.Core.Option.{Option, none, some}
use native.Mathlib.Omega.{arith}

module _ {ℓ} {A : Type ℓ} where
  abbrev pub length : List A → ℕ
  length [] = 0
  length (x ∷ xs) = suc (length xs)

  abbrev pub get_elem? : List A → ℕ → Option A
  get_elem? [] i = none
  get_elem? (x ∷ xs) zero = some x
  get_elem? (x ∷ xs) (suc i) = get_elem? xs i

  abbrev pub get_or : List A → ℕ → A → A
  get_or [] i d = d
  get_or (x ∷ xs) zero d = x
  get_or (x ∷ xs) (suc i) d = get_or xs i d

  -- A write out of bounds changes nothing: where C has no such write, a guard rules it out.
  abbrev pub set : List A → ℕ → A → List A
  set [] i v = []
  set (x ∷ xs) zero v = v ∷ xs
  set (x ∷ xs) (suc i) v = x ∷ set xs i v

  abbrev pub take : ℕ → List A → List A
  take zero xs = []
  take (suc n) [] = []
  take (suc n) (x ∷ xs) = x ∷ take n xs

  abbrev pub drop : ℕ → List A → List A
  drop zero xs = xs
  drop (suc n) [] = []
  drop (suc n) (x ∷ xs) = drop n xs

  abbrev pub replicate : ℕ → A → List A
  replicate zero a = []
  replicate (suc n) a = a ∷ replicate n a

module _ {ℓ} {A : Type ℓ} where
  pub length-append : (xs ys : List A) → length (xs ++ ys) ≡ length xs + length ys
  length-append [] ys = omega arith
  length-append (x ∷ xs) ys = omega (arith, length-append xs ys)

  pub length-set : (xs : List A) (i : ℕ) (v : A) → length (set xs i v) ≡ length xs
  length-set [] i v = refl
  length-set (x ∷ xs) zero v = refl
  length-set (x ∷ xs) (suc i) v = ap suc (length-set xs i v)

  pub get_or-set_self :
      (xs : List A) (i : ℕ) (v d : A) → i < length xs → get_or (set xs i v) i d ≡ v
  get_or-set_self [] i v d h = elim h [ ]
  get_or-set_self (x ∷ xs) zero v d h = refl
  get_or-set_self (x ∷ xs) (suc i) v d h = get_or-set_self xs i v d (omega arith)

  pub get_or-set_ne :
      (xs : List A) (i j : ℕ) (v d : A) → i ≢ j → get_or (set xs i v) j d ≡ get_or xs j d
  get_or-set_ne [] i j v d h = refl
  get_or-set_ne (x ∷ xs) zero zero v d h = absurd (h refl)
  get_or-set_ne (x ∷ xs) zero (suc j) v d h = refl
  get_or-set_ne (x ∷ xs) (suc i) zero v d h = refl
  get_or-set_ne (x ∷ xs) (suc i) (suc j) v d h = get_or-set_ne xs i j v d (λ e. h (ap suc e))

  pub get_elem?-eq-get_or :
      (xs : List A) (i : ℕ) (d : A) → i < length xs → get_elem? xs i ≡ some (get_or xs i d)
  get_elem?-eq-get_or [] i d h = elim h [ ]
  get_elem?-eq-get_or (x ∷ xs) zero d h = refl
  get_elem?-eq-get_or (x ∷ xs) (suc i) d h = get_elem?-eq-get_or xs i d (omega arith)

  pub length-take : (n : ℕ) (xs : List A) → length (take n xs) ≡ min n (length xs)
  length-take zero xs = omega arith
  length-take (suc n) [] = omega arith
  length-take (suc n) (x ∷ xs) = omega (arith, length-take n xs)

  pub length-drop : (n : ℕ) (xs : List A) → length (drop n xs) ≡ length xs - n
  length-drop zero xs = omega arith
  length-drop (suc n) [] = omega arith
  length-drop (suc n) (x ∷ xs) = omega (arith, length-drop n xs)

  pub take-append-drop : (n : ℕ) (xs : List A) → take n xs ++ drop n xs ≡ xs
  take-append-drop zero xs = refl
  take-append-drop (suc n) [] = refl
  take-append-drop (suc n) (x ∷ xs) = rw (take-append-drop n xs)

  pub length-replicate : (n : ℕ) (a : A) → length (replicate n a) ≡ n
  length-replicate zero a = refl
  length-replicate (suc n) a = ap suc (length-replicate n a)

  pub take_all : (xs : List A) → take (length xs) xs ≡ xs
  take_all [] = refl
  take_all (x ∷ xs) = rw (take_all xs)

  pub take-nil : (n : ℕ) → take {A = A} n [] ≡ []
  take-nil zero = refl
  take-nil (suc n) = refl

  pub drop-nil : (n : ℕ) → drop {A = A} n [] ≡ []
  drop-nil zero = refl
  drop-nil (suc n) = refl

module _ {ℓ} {A : Type ℓ} where
  pub take-add : (n m : ℕ) (xs : List A) → take (n + m) xs ≡ take n xs ++ take m (drop n xs)
  take-add zero m xs = ap (λ k. take k xs) (omega arith)
  take-add (suc n) m [] = rw (take-nil (suc n + m), take-nil m)
  take-add (suc n) m (x ∷ xs) = ap (λ k. take k (x ∷ xs)) e ∙ ap (λ l. x ∷ l) (take-add n m xs)
    where
      e : suc n + m ≡ suc (n + m)
      e = omega arith

  pub drop-add : (n m : ℕ) (xs : List A) → drop (n + m) xs ≡ drop m (drop n xs)
  drop-add zero m xs = ap (λ k. drop k xs) (omega arith)
  drop-add (suc n) m [] = rw (drop-nil (suc n + m), drop-nil m)
  drop-add (suc n) m (x ∷ xs) = ap (λ k. drop k (x ∷ xs)) e ∙ drop-add n m xs
    where
      e : suc n + m ≡ suc (n + m)
      e = omega arith

-- The element behind a list, and the one behind that.
module _ {ℓ} {A : Type ℓ} where
  pub get_elem?-middle :
      (xs : List A) (y : A) (ys : List A) (i : ℕ)
      → i ≡ length xs
      → get_elem? (xs ++ (y ∷ ys)) i ≡ some y
  get_elem?-middle [] y ys i e = ap (get_elem? (y ∷ ys)) e
  get_elem?-middle (x ∷ xs) y ys zero e = absurd (omega arith)
  get_elem?-middle (x ∷ xs) y ys (suc i) e = get_elem?-middle xs y ys i (omega arith)

  pub set-middle :
      (xs : List A) (y : A) (ys : List A) (i : ℕ) (v : A)
      → i ≡ length xs
      → set (xs ++ (y ∷ ys)) i v ≡ xs ++ (v ∷ ys)
  set-middle [] y ys i v e = ap (λ k. set (y ∷ ys) k v) e
  set-middle (x ∷ xs) y ys zero v e = absurd (omega arith)
  set-middle (x ∷ xs) y ys (suc i) v e = ap (λ l. x ∷ l) (set-middle xs y ys i v (omega arith))

-- What is in front of the end of a list, and what is behind it.
module _ {ℓ} {A : Type ℓ} where
  pub take-front : (xs ys : List A) (n : ℕ) → n ≡ length xs → take n (xs ++ ys) ≡ xs
  take-front [] ys n e = ap (λ k. take k ys) e
  take-front (x ∷ xs) ys zero e = absurd (omega arith)
  take-front (x ∷ xs) ys (suc n) e = ap (λ l. x ∷ l) (take-front xs ys n (omega arith))

  pub drop-front : (xs ys : List A) (n : ℕ) → n ≡ length xs → drop n (xs ++ ys) ≡ ys
  drop-front [] ys n e = ap (λ k. drop k ys) e
  drop-front (x ∷ xs) ys zero e = absurd (omega arith)
  drop-front (x ∷ xs) ys (suc n) e = drop-front xs ys n (omega arith)

  pub take_beyond : (n : ℕ) (xs : List A) → length xs ≤ n → take n xs ≡ xs
  take_beyond n [] h = take-nil n
  take_beyond zero (x ∷ xs) h = absurd (omega arith)
  take_beyond (suc n) (x ∷ xs) h = ap (λ l. x ∷ l) (take_beyond n xs (omega arith))

  pub drop_beyond : (n : ℕ) (xs : List A) → length xs ≤ n → drop n xs ≡ []
  drop_beyond n [] h = drop-nil n
  drop_beyond zero (x ∷ xs) h = absurd (omega arith)
  drop_beyond (suc n) (x ∷ xs) h = drop_beyond n xs (omega arith)

  pub take-take : (n : ℕ) (xs : List A) → take n (take n xs) ≡ take n xs
  take-take zero xs = refl
  take-take (suc n) [] = refl
  take-take (suc n) (x ∷ xs) = rw (take-take n xs)
