-- ===== src/Spi/Writer.antt =====
-- The bit-by-bit packer of demo/perfdemo/perfdemo.c: `write_lcm_command`, `write_lcm_data` and
-- `filling_spi_send_display_data`.
pub mod Steps
pub mod Holds
pub mod Frame
pub mod Received
mod Tests
use program_learning.Prelude.{
  ℕ, zero, suc, ◌+◌, ◌-◌, ◌*◌, ◌/◌, ◌%◌, ◌^◌, Option, none, some, List, [], ◌∷◌, ◌++◌, bit_or, ltb,
  leb, ◌==◌, ◌||◌, if◌then◌else◌, ◌>>=◌, u8, u32, length, get_elem?, set, take, drop, replicate,
}
use program_learning.Spi.Word.{◌|||◌, byte}

-- The bytes of the send buffer, and the count of bits that are in it.
pub record Sink : Type 0 where
  pub buf : List ℕ
  pub bit_pos : ℕ

-- `buf[i] |= v`, and `buf[i] = v`; out of bounds it is undefined.
abbrev pub or_at : ℕ → ℕ → List ℕ → Option (List ℕ)
or_at i v buf = get_elem? buf i >>= λ b. some (set buf i (b ||| v))

abbrev pub put_at : ℕ → ℕ → List ℕ → Option (List ℕ)
put_at i v buf = get_elem? buf i >>= λ b. some (set buf i v)

-- The lines that both writers end with: the byte `b` from bit `j` of byte `i` on.
abbrev pub write_rest : ℕ → ℕ → ℕ → List ℕ → Option (List ℕ)
write_rest b i j buf =
    if j == 0
    then put_at (i + 1) b buf
    else or_at i (u8 (b / 2 ^ j)) buf >>= or_at (i + 1) (u8 (b * 2 ^ (8 - j)))

-- `write_lcm_command`: a flag 0, which is in the buffer already, and the byte.
pub write_lcm_command : ℕ → Sink → Option Sink
write_lcm_command b s =
    let i = s.bit_pos / 8 in
    let j = (s.bit_pos % 8 + 1) % 8 in
    write_rest b i j s.buf >>= λ buf. some (record { buf = buf; bit_pos = u32 (s.bit_pos + 9) })

-- `write_lcm_data`: a flag 1 and the byte.
pub write_lcm_data : ℕ → Sink → Option Sink
write_lcm_data b s =
    let i = s.bit_pos / 8 in
    let j = s.bit_pos % 8 in
    or_at i (u8 (0x80 / 2 ^ j)) s.buf >>= λ flagged. write_rest b i ((j + 1) % 8) flagged >>= λ buf.
    some (record { buf = buf; bit_pos = u32 (s.bit_pos + 9) })

-- `get_u8_from_u32`: most significant byte first.
abbrev pub get_u8_from_u32 : ℕ → List ℕ
get_u8_from_u32 w = u8 (w / 2 ^ 24) ∷ u8 (w / 2 ^ 16) ∷ u8 (w / 2 ^ 8) ∷ u8 w ∷ []

pub write_all : List ℕ → Sink → Option Sink
unfolding write_lcm_data
write_all [] s = some s
write_all (b ∷ bs) s = write_lcm_data b s >>= write_all bs

-- The four calls for one word of pixels: bytes 2, 3, 0, 1 of `temp_buf`.
abbrev pub pixel_bytes : ℕ → List ℕ
pixel_bytes w = u8 (w / 2 ^ 8) ∷ u8 w ∷ u8 (w / 2 ^ 24) ∷ u8 (w / 2 ^ 16) ∷ []

-- `for (i = 0; i < len; i++)` over `p_buf`, for the words from `p_buf` on.
pub write_pixels : List ℕ → Sink → Option Sink
unfolding write_all
write_pixels [] s = some s
write_pixels (w ∷ ws) s = write_all (pixel_bytes w) s >>= write_pixels ws

-- `TX_BUF_MAX_LEN`
abbrev pub tx_buf_max_len : ℕ
tx_buf_max_len = 345728

-- The bytes that hold a count of bits.
abbrev pub byte_count : ℕ → ℕ
byte_count i = if i % 8 == 0 then i / 8 else i / 8 + 1

-- `memset(p, 0, n)`
abbrev pub clear : ℕ → List ℕ → Option (List ℕ)
clear n buf = if ltb (length buf) n then none else some (replicate n 0 ++ drop n buf)

-- What a call leaves: -1, or the send buffer. The other return value is a local that no line of
-- the code sets, so it is left out. `spi_send_len` is set either way.
pub data Filled : Type 0 where
  refused : (spi_send_len : ℕ) → Filled
  filled : (spi_send_len : ℕ) → (p_spi_send_buf : List ℕ) → Filled

-- The calls between `memset` and `return`.
pub write_frame : List ℕ → ℕ → ℕ → Sink → Option Sink
unfolding write_lcm_command write_all write_pixels
write_frame words x y s =
    write_lcm_command 0x2a s
    >>= write_all (get_u8_from_u32 x)
    >>= write_lcm_command 0x2b
    >>= write_all (get_u8_from_u32 y)
    >>= write_lcm_command 0x2c
    >>= write_pixels words
    >>= write_lcm_command 0

-- `filling_spi_send_display_data`, with the send buffer and the words of `data_buf`.
pub filling_spi_send_display_data : List ℕ → List ℕ → ℕ → ℕ → ℕ → Option Filled
unfolding write_frame
filling_spi_send_display_data buf words len x y =
    let n = byte_count (u32 ((12 + len * 4) * 9)) in
    if n == 0 || ltb tx_buf_max_len n
    then some (refused n)
    else if ltb (length words) len
    then none
    else (clear n buf >>= λ zeros.
        write_frame (take len words) x y (record { buf = zeros; bit_pos = 0 }) >>= λ s.
        some (filled n s.buf))
