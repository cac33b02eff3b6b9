-- ===== src/Spi/Symbols.antt =====
-- What the display is meant to see: a stream of nine-bit symbols, most significant bit first, cut
-- into bytes. `pack` is the reference for all packers of demo/perfdemo/perfdemo.c, and `unpack`
-- the receiver.
use program_learning.Prelude.{
  ℕ, zero, suc, ◌+◌, ◌-◌, ◌*◌, ◌/◌, ◌%◌, ◌^◌, ◌<◌, ◌≡◌, refl, List, [], ◌∷◌, arith, ◌==◌,
  if◌then◌else◌,
}

-- A command has the flag 0, a data byte the flag 1.
abbrev pub command : ℕ → ℕ
command b = b

abbrev pub datum : ℕ → ℕ
datum b = 256 + b

-- The bytes of a stream of which `k` bits, with the value `c`, have not been sent; the last byte is
-- filled up with zeros.
unfoldable pub pack : ℕ → ℕ → List ℕ → List ℕ
pack c k [] = if k == 0 then [] else c * 2 ^ (8 - k) ∷ []
pack c k (s ∷ ss) =
    let head = (c * 512 + s) / 2 ^ (k + 1) in
    let low = (c * 512 + s) % 2 ^ (k + 1) in
    let full = pack 0 0 ss in
    let more = pack low (k + 1) ss in if k == 7 then head ∷ low ∷ full else head ∷ more

-- The symbols in a stream of bytes, after `m` bits of a symbol with the value `d`.
unfoldable pub unpack : ℕ → ℕ → List ℕ → List ℕ
unpack d m [] = []
unpack d m (b ∷ bs) =
    let first = unpack b 8 bs in
    let next = unpack ((d * 256 + b) % 2 ^ (m - 1)) (m - 1) bs in
    if m == 0 then first else (d * 256 + b) / 2 ^ (m - 1) ∷ next

abbrev pub AreSymbols : List ℕ → Type 0
AreSymbols [] = Unit {0}
AreSymbols (s ∷ ss) = (s < 512) × AreSymbols ss

-- The receiver is `9 - k` bits into a symbol when the sender has kept its last `k` bits.
abbrev Lags : List ℕ → Type 0
Lags ss =
    (k c d : ℕ) → 0 < k → k < 8 → c < 2 ^ k → unpack d (9 - k) (pack c k ss) ≡ (d * 2 ^ k + c) ∷ ss

abbrev InStep : List ℕ → Type 0
InStep ss = unpack 0 0 (pack 0 0 ss) ≡ ss

in_step : (s : ℕ) (ss : List ℕ) → s < 512 → Lags ss → InStep (s ∷ ss)
unfolding pack unpack
in_step s ss h lags = ground (arith, lags 1 (s % 2) (s / 2))

-- The clause for eight and more makes the last clause one for each number from 1 to 7.
Lags-nil : Lags []
unfolding pack unpack
Lags-nil (suc (suc (suc (suc (suc (suc (suc (suc k)))))))) c d p q h = absurd (omega arith)
Lags-nil zero c d p q h = absurd (omega arith)
Lags-nil k c d p q h = ground arith

Lags-cons : (s : ℕ) (ss : List ℕ) → s < 512 → InStep ss → Lags ss → Lags (s ∷ ss)
unfolding pack unpack
Lags-cons s ss l step lags (suc (suc (suc (suc (suc (suc (suc (suc k)))))))) c d p q h =
    absurd (omega arith)
Lags-cons s ss l step lags zero c d p q h = absurd (omega arith)
Lags-cons s ss l step lags k c d p q h =
    ground (arith, step, lags (suc k) ((c * 512 + s) % 2 ^ (k + 1)) (s / 2 ^ (k + 1)))

received : (ss : List ℕ) → AreSymbols ss → InStep ss × Lags ss
unfolding pack unpack
received [] a = (refl, Lags-nil)
received (s ∷ ss) a =
    let rest = received ss a.1 in (in_step s ss a.0 rest.1, Lags-cons s ss a.0 rest.0 rest.1)

-- The receiver gets from the packed bytes the symbols that were sent, all of them and in order.
pub unpack-pack : (ss : List ℕ) → AreSymbols ss → unpack 0 0 (pack 0 0 ss) ≡ ss
unpack-pack ss a = (received ss a).0
