-- ===== src/Spi/Writer/Steps.antt =====
-- The bit-by-bit packer of demo/perfdemo/perfdemo.c sends the symbols of the reference packer.
use program_learning.Prelude.{
  ℕ, suc, ◌+◌, ◌-◌, ◌*◌, ◌/◌, ◌%◌, ◌^◌, ◌<◌, ◌≡◌, refl, sym, ap, ◌∙◌, ◌⊎◌, inl, inr, Option, some,
  List, [], ◌∷◌, ◌++◌, bit_or, ◌==◌, if◌then◌else◌, u8, length, arith, length-append, append_assoc,
  get_elem?-middle, set-middle,
}
use program_learning.Prelude.Bits.{or_shifted, zero-Disjoint}
use program_learning.Spi.Symbols.{command, datum}
use program_learning.Spi.Writer.{Sink, or_at, put_at, write_rest, write_lcm_command, write_lcm_data}

module _ (out : List ℕ) (x : ℕ) (tl : List ℕ) (i : ℕ) (at : i ≡ length out) where
  or_at-middle : (v : ℕ) → or_at i v (out ++ (x ∷ tl)) ≡ some (out ++ (bit_or x v ∷ tl))
  or_at-middle v = rw (get_elem?-middle out x tl i at, set-middle out x tl i (bit_or x v) at)

  put_at-middle : (v : ℕ) → put_at i v (out ++ (x ∷ tl)) ≡ some (out ++ (v ∷ tl))
  put_at-middle v = rw (get_elem?-middle out x tl i at, set-middle out x tl i v at)

module _ (out : List ℕ) (x y : ℕ) (tl : List ℕ) (i : ℕ) (at : i ≡ length out) where
  behind : i + 1 ≡ length (out ++ (x ∷ []))
  behind = omega (arith, length-append {0} out (x ∷ []))

  or_at-next : (v : ℕ) → or_at (i + 1) v (out ++ (x ∷ y ∷ tl)) ≡ some (out ++ (x ∷ bit_or y v ∷ tl))
  or_at-next v =
      ap (or_at (i + 1) v) (sym (append_assoc out (x ∷ []) (y ∷ tl)))
      ∙ or_at-middle (out ++ (x ∷ [])) y tl (i + 1) behind v
      ∙ ap some (append_assoc out (x ∷ []) (bit_or y v ∷ tl))

  put_at-next : (v : ℕ) → put_at (i + 1) v (out ++ (x ∷ y ∷ tl)) ≡ some (out ++ (x ∷ v ∷ tl))
  put_at-next v =
      ap (put_at (i + 1) v) (sym (append_assoc out (x ∷ []) (y ∷ tl)))
      ∙ put_at-middle (out ++ (x ∷ [])) y tl (i + 1) behind v
      ∙ ap some (append_assoc out (x ∷ []) (v ∷ tl))

-- The two bytes that the last lines of both writers leave.
write_rest-middle :
    (out : List ℕ) (x y : ℕ) (tl : List ℕ) (i b j : ℕ)
    → i ≡ length out
    → write_rest b i j (out ++ (x ∷ y ∷ tl))
      ≡ some (
          out
          ++ ((if j == 0 then x else bit_or x (u8 (b / 2 ^ j)))
              ∷ (if j == 0 then b else bit_or y (u8 (b * 2 ^ (8 - j))))
              ∷ tl))
write_rest-middle out x y tl i b j at = ground (
  arith,
  put_at-next out x y tl i at b,
  or_at-middle out x (y ∷ tl) i at (u8 (b / 2 ^ j)),
  or_at-next out (bit_or x (u8 (b / 2 ^ j))) y tl i at (u8 (b * 2 ^ (8 - j))),
)

-- The second byte of a symbol that begins at bit `k` of the first.
abbrev pub low_byte : ℕ → ℕ → ℕ
low_byte k bits = if k == 7 then bits % 2 ^ (k + 1) else bits % 2 ^ (k + 1) * 2 ^ (7 - k)

-- The bytes of a symbol behind `k` bits with the value `c`.
module _ (c b : ℕ) (small : b < 256) where
  head-command :
      (k : ℕ)
      → k < 8
      → c < 2 ^ k
      → (if (k + 1) % 8 == 0
          then c * 2 ^ (8 - k)
          else bit_or (c * 2 ^ (8 - k)) (u8 (b / 2 ^ ((k + 1) % 8))))
        ≡ (c * 512 + b) / 2 ^ (k + 1)
  head-command (suc (suc (suc (suc (suc (suc (suc (suc k)))))))) p h = absurd (omega arith)
  head-command k p h = ground (arith, or_shifted (8 - k) c (b / 2 ^ (k + 1)))

  head-data :
      (k : ℕ)
      → k < 8
      → c < 2 ^ k
      → (let x = bit_or (c * 2 ^ (8 - k)) (u8 (0x80 / 2 ^ k)) in
          if (k + 1) % 8 == 0 then x else bit_or x (u8 (b / 2 ^ ((k + 1) % 8))))
        ≡ (c * 512 + (256 + b)) / 2 ^ (k + 1)
  head-data (suc (suc (suc (suc (suc (suc (suc (suc k)))))))) p h = absurd (omega arith)
  head-data k p h =
      ground (
        arith,
        or_shifted (8 - k) c (2 ^ (7 - k)),
        or_shifted (7 - k) (c * 2 + 1) (b / 2 ^ (k + 1)),
      )

  low-rest :
      (k s : ℕ)
      → k < 8
      → (s ≡ b) ⊎ (s ≡ 256 + b)
      → (if (k + 1) % 8 == 0 then b else bit_or 0 (u8 (b * 2 ^ (8 - (k + 1) % 8))))
        ≡ low_byte k (c * 512 + s)
  low-rest (suc (suc (suc (suc (suc (suc (suc (suc k)))))))) s p h = absurd (omega arith)
  low-rest k s p h = ground (arith, zero-Disjoint (u8 (b * 2 ^ (7 - k))))

-- A writer that puts the symbol `symbol` behind `k` bits, where the next byte is clear.
abbrev pub Writes : (Sink → Option Sink) → ℕ → Type 0
Writes writer symbol =
    (out : List ℕ) (c k pos : ℕ) (tl : List ℕ)
    → k < 8
    → c < 2 ^ k
    → pos ≡ 8 * length out + k
    → pos + 9 < 2 ^ 32
    → writer (record { buf = out ++ (c * 2 ^ (8 - k) ∷ 0 ∷ tl); bit_pos = pos })
      ≡ some (record {
        buf = out ++ ((c * 512 + symbol) / 2 ^ (k + 1) ∷ low_byte k (c * 512 + symbol) ∷ tl);
        bit_pos = pos + 9;
      })

pub write_lcm_command-Writes : (b : ℕ) → b < 256 → Writes (write_lcm_command b) (command b)
unfolding write_lcm_command
write_lcm_command-Writes b small out c k pos tl p h e l = ground (
  arith,
  write_rest-middle out (c * 2 ^ (8 - k)) 0 tl (pos / 8) b ((k + 1) % 8) (omega arith),
  head-command c b small k p h,
  low-rest c b small k b p (inl refl),
  bit,
)
  where
    bit : pos % 8 ≡ k
    bit = omega arith

pub write_lcm_data-Writes : (b : ℕ) → b < 256 → Writes (write_lcm_data b) (datum b)
unfolding write_lcm_data
write_lcm_data-Writes b small out c k pos tl p h e l = ground (
  arith,
  or_at-middle out (c * 2 ^ (8 - k)) (0 ∷ tl) (pos / 8) (omega arith) (u8 (0x80 / 2 ^ k)),
  write_rest-middle out (bit_or (c * 2 ^ (8 - k)) (u8 (0x80 / 2 ^ k))) 0 tl (pos / 8) b
      ((k + 1) % 8) (omega arith),
  head-data c b small k p h,
  low-rest c b small k (256 + b) p (inr refl),
  bit,
)
  where
    bit : pos % 8 ≡ k
    bit = omega arith
