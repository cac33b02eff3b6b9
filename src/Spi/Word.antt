-- ===== src/Spi/Word.antt =====
-- The unsigned words of demo/perfdemo/perfdemo.c, their bytes in memory, and the two macros that
-- reverse those bytes.
use program_learning.Prelude.{ℕ, ◌*◌, ◌/◌, ◌%◌, ◌^◌, List, [], ◌∷◌, bit_and, bit_or}

-- `unsigned int` and `unsigned long long` shifted left lose what passes the top.
abbrev pub shl32 : ℕ → ℕ → ℕ
shl32 x k = x * 2 ^ k % 2 ^ 32

abbrev pub shl64 : ℕ → ℕ → ℕ
shl64 x k = x * 2 ^ k % 2 ^ 64

-- An `int` shifted left, where the result fits.
infixl 72 ◌<<<◌ ◌>>>◌
abbrev pub ◌<<<◌ : ℕ → ℕ → ℕ
x <<< k = x * 2 ^ k

abbrev pub ◌>>>◌ : ℕ → ℕ → ℕ
x >>> k = x / 2 ^ k

infixl 40 ◌|||◌
abbrev pub ◌|||◌ : ℕ → ℕ → ℕ
a ||| b = bit_or a b

-- Byte `i` of a word, at the address of the word plus `i`.
abbrev pub byte : ℕ → ℕ → ℕ
byte w i = w / 256 ^ i % 256

abbrev pub bytes32 : ℕ → List ℕ
bytes32 w = byte w 0 ∷ byte w 1 ∷ byte w 2 ∷ byte w 3 ∷ []

abbrev pub bytes64 : ℕ → List ℕ
bytes64 w =
    byte w 0 ∷ byte w 1 ∷ byte w 2 ∷ byte w 3 ∷ byte w 4 ∷ byte w 5 ∷ byte w 6 ∷ byte w 7 ∷ []

-- `swap_endian_32`
unfoldable pub swap_endian_32 : ℕ → ℕ
swap_endian_32 x =
    shl32 (bit_and x 0x000000ff) 24
    ||| shl32 (bit_and x 0x0000ff00) 8
    ||| bit_and x 0x00ff0000 >>> 8
    ||| bit_and x 0xff000000 >>> 24

-- `swap_endian_64`
unfoldable pub swap_endian_64 : ℕ → ℕ
swap_endian_64 x =
    shl64 (bit_and x 0x00000000000000ff) 56
    ||| shl64 (bit_and x 0x000000000000ff00) 40
    ||| shl64 (bit_and x 0x0000000000ff0000) 24
    ||| shl64 (bit_and x 0x00000000ff000000) 8
    ||| bit_and x 0x000000ff00000000 >>> 8
    ||| bit_and x 0x0000ff0000000000 >>> 24
    ||| bit_and x 0x00ff000000000000 >>> 40
    ||| bit_and x 0xff00000000000000 >>> 56
