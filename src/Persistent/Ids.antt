-- ===== src/Persistent/Ids.antt =====
-- The ids of recordings in demo/SpeechPersistentDemo/SpeechPersistent.c.
use program_learning.Prelude.{
  ℕ, suc, ◌+◌, ◌/◌, ◌%◌, ◌<◌, ◌≤◌, ◌≡◌, refl, ap, ap₂, sym, ◌∙◌, some, [], ◌∷◌, ◌++◌, arith, length,
  lt→ltb, get_or,
}
use program_learning.Prelude.Text.{Text}
use program_learning.Persistent.{text, World, sprintf, allocate}
use program_learning.Persistent.Names.{Tm, digits, padded, id_text, get_id_by_time}
use program_learning.Persistent.Heap.{step}

-- What `localtime` gives in this millennium's first eight: the ranges of its fields.
pub record InRange (t : Tm) : Type 0 where
  pub year : t.tm_year + 1900 < 10000
  pub four : 1000 ≤ t.tm_year + 1900
  pub mon : t.tm_mon < 12
  pub mday : t.tm_mday < 32
  pub hour : t.tm_hour < 24
  pub min : t.tm_min < 60
  pub sec : t.tm_sec < 62

abbrev digit : ℕ → ℕ
digit n = 48 + n % 10

two_digits : (n : ℕ) → n < 100 → padded 2 n ≡ digit (n / 10) ∷ digit n ∷ []
unfolding padded digits
two_digits n h = ground arith

four_digits :
    (n : ℕ)
    → 1000 ≤ n
    → n < 10000
    → padded 4 n ≡ digit (n / 1000) ∷ digit (n / 100) ∷ digit (n / 10) ∷ digit n ∷ []
unfolding padded digits
four_digits n l h = ground arith

abbrev pair : ℕ → Text
pair n = digit (n / 10) ∷ digit n ∷ []

-- The fourteen digits.
abbrev fourteen : Tm → Text
fourteen t =
    (digit ((t.tm_year + 1900) / 1000)
      ∷ digit ((t.tm_year + 1900) / 100)
      ∷ digit ((t.tm_year + 1900) / 10)
      ∷ digit (t.tm_year + 1900)
      ∷ [])
    ++ (pair t.tm_mon ++ (pair t.tm_mday ++ (pair t.tm_hour ++ (pair t.tm_min ++ pair t.tm_sec))))

id_text-fourteen : (t : Tm) → InRange t → id_text t ≡ fourteen t
unfolding id_text
id_text-fourteen t r =
    ap₂ (λ a b. a ++ b) (four_digits (t.tm_year + 1900) r.four r.year)
      (ap₂ (λ a b. a ++ b) (two_digits t.tm_mon (omega (arith, r.mon)))
        (ap₂ (λ a b. a ++ b) (two_digits t.tm_mday (omega (arith, r.mday)))
          (ap₂ (λ a b. a ++ b) (two_digits t.tm_hour (omega (arith, r.hour)))
            (ap₂ (λ a b. a ++ b) (two_digits t.tm_min (omega (arith, r.min)))
              (two_digits t.tm_sec (omega (arith, r.sec)))))))

-- For a time in range `getIDbytime` fills fourteen of its twenty bytes, and gives a new block with
-- the id; nothing else changes.
pub get_id_by_time-fits :
    (t : Tm) (w : World)
    → InRange t
    → (length (id_text t) ≡ 14)
      × (get_id_by_time t w
          ≡ some (suc (length w.blocks), record w { blocks = w.blocks ++ (text (id_text t) ∷ []) }))
unfolding get_id_by_time
get_id_by_time-fits t w r = (
  size,
  step (sprintf 20 (id_text t)) (λ b. allocate (text b)) {w = w}
      (rw (lt→ltb (length (id_text t)) 20 (omega (arith, size))) refl),
)
  where
    size : length (id_text t) ≡ 14
    size = ap length (id_text-fourteen t r)

at :
    (i : ℕ) (t u : Tm)
    → InRange t
    → InRange u
    → id_text t ≡ id_text u
    → get_or (fourteen t) i 0 ≡ get_or (fourteen u) i 0
at i t u r s e = ap (λ l. get_or l i 0) (sym (id_text-fourteen t r) ∙ e ∙ id_text-fourteen u s)

-- Two times in range have the same id only if they are the same, to the second.
pub id_text-inj : (t u : Tm) → InRange t → InRange u → id_text t ≡ id_text u → t ≡ u
id_text-inj t u r s e = ground (
  arith,
  r,
  s,
  at 0 t u r s e,
  at 1 t u r s e,
  at 2 t u r s e,
  at 3 t u r s e,
  at 4 t u r s e,
  at 5 t u r s e,
  at 6 t u r s e,
  at 7 t u r s e,
  at 8 t u r s e,
  at 9 t u r s e,
  at 10 t u r s e,
  at 11 t u r s e,
  at 12 t u r s e,
  at 13 t u r s e,
)
