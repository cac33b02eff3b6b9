-- ===== src/Persistent/Heap.antt =====
-- What the memory of demo/SpeechPersistentDemo/SpeechPersistent.c holds after `malloc` and `free`.
use program_learning.Prelude.{
  ℕ, zero, suc, ◌≡◌, ◌≢◌, refl, ap, true, some, none, List, [], ◌∷◌, ◌++◌, length, get_elem?, set,
  get_elem?-middle, set-middle,
}
use program_learning.Persistent.{
  Block, released, World, block_at, put_block, put, is_live, free, Run, ◌>>=◌, ◌>>◌,
}

module _ {A : Type 0} where
  get_elem?-append :
      (xs ys : List A) (i : ℕ) {x : A} → get_elem? xs i ≡ some x → get_elem? (xs ++ ys) i ≡ some x
  get_elem?-append [] ys i e = cc
  get_elem?-append (x ∷ xs) ys zero e = e
  get_elem?-append (x ∷ xs) ys (suc i) e = get_elem?-append xs ys i e

  get_elem?-set_ne :
      (xs : List A) (i j : ℕ) (v : A) → i ≢ j → get_elem? (set xs i v) j ≡ get_elem? xs j
  get_elem?-set_ne [] i j v h = refl
  get_elem?-set_ne (x ∷ xs) zero zero v h = absurd (h refl)
  get_elem?-set_ne (x ∷ xs) zero (suc j) v h = refl
  get_elem?-set_ne (x ∷ xs) (suc i) zero v h = refl
  get_elem?-set_ne (x ∷ xs) (suc i) (suc j) v h = get_elem?-set_ne xs i j v (λ e. h (ap suc e))

pub block_at-append :
    (blocks more : List Block) (a : ℕ) {b : Block}
    → block_at blocks a ≡ some b
    → block_at (blocks ++ more) a ≡ some b
block_at-append blocks more zero e = cc
block_at-append blocks more (suc i) e = get_elem?-append blocks more i e

pub block_at-new :
    (blocks : List Block) (b : Block) → block_at (blocks ++ (b ∷ [])) (suc (length blocks)) ≡ some b
block_at-new blocks b = get_elem?-middle blocks b [] (length blocks) refl

pub put_block-new :
    (blocks : List Block) (b c : Block)
    → put_block (suc (length blocks)) c (blocks ++ (b ∷ [])) ≡ blocks ++ (c ∷ [])
put_block-new blocks b c = set-middle blocks b [] (length blocks) c refl

pub block_at-put_ne :
    (blocks : List Block) (a x : ℕ) (b : Block)
    → a ≢ x
    → block_at (put_block a b blocks) x ≡ block_at blocks x
block_at-put_ne blocks zero x b h = refl
block_at-put_ne blocks (suc i) zero b h = refl
block_at-put_ne blocks (suc i) (suc j) b h = get_elem?-set_ne blocks i j b (λ e. h (ap suc e))

-- Blocks with other contents are other blocks.
pub other_block :
    (blocks : List Block) (a x : ℕ) {b c : Block}
    → block_at blocks a ≡ some b
    → block_at blocks x ≡ some c
    → b ≢ c
    → a ≢ x
other_block blocks a x e f differs same = differs (cc (ap (block_at blocks) same))

-- A live block is released.
pub free_lem :
    (a : ℕ) (w : World) {b : Block}
    → block_at w.blocks a ≡ some b
    → is_live (some b) ≡ true
    → free a w ≡ some (tt, put a released w)
free_lem zero w e live = cc
free_lem (suc i) w e live = rw e (rw live refl)

-- A step of an action, and one with no result.
pub step :
    {A B : Type 0} (m : Run A) (k : A → Run B) {w w' : World} {a : A}
    → m w ≡ some (a, w')
    → (m >>= k) w ≡ k a w'
step m k e = rw (e, ◌>>=◌) refl

pub step_on :
    {B : Type 0} (m : Run (Unit {0})) (k : Run B) {w w' : World}
    → m w ≡ some (tt, w')
    → (m >> k) w ≡ k w'
step_on m k e = rw (e, ◌>>=◌) refl

pub fault : {A B : Type 0} (m : Run A) (k : A → Run B) {w : World} → m w ≡ none → (m >>= k) w ≡ none
fault m k e = rw (e, ◌>>=◌) refl
