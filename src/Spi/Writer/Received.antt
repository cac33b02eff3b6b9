-- ===== src/Spi/Writer/Received.antt =====
-- What a display gets from the bytes of `filling_spi_send_display_data` of
-- demo/perfdemo/perfdemo.c.
use program_learning.Prelude.{
  ℕ, zero, suc, ◌+◌, ◌*◌, ◌%◌, ◌^◌, ◌<◌, ◌≤◌, ◌≡◌, sym, ap, ◌∙◌, some, List, [], ◌∷◌, ◌++◌, arith,
  length, take, drop,
}
use program_learning.Spi.Symbols.{pack, unpack, command, AreSymbols, unpack-pack}
use program_learning.Spi.Writer.{
  Filled, refused, filled, filling_spi_send_display_data, byte_count, tx_buf_max_len,
  get_u8_from_u32, pixel_bytes,
}
use program_learning.Spi.Writer.Frame.{
  bytes_as_data, pixel_symbols, frame_symbols, filling-packs, length-frame_symbols,
}

-- The `spi_send_len` bytes that are to go over the wire.
abbrev pub wire : Filled → List ℕ
wire (refused n) = []
wire (filled n b) = take n b

length-pack :
    (ss : List ℕ) (c k : ℕ) → k < 8 → length (pack c k ss) ≡ byte_count (k + 9 * length ss)
unfolding pack
length-pack [] c k h = ground arith
length-pack (s ∷ ss) c k h =
    let full = length-pack ss 0 0 (omega arith) in
    let more = length-pack ss ((c * 512 + s) % 2 ^ (k + 1)) (k + 1) in ground (arith, full, more)

AreSymbols-append : (xs ys : List ℕ) → AreSymbols xs → AreSymbols ys → AreSymbols (xs ++ ys)
AreSymbols-append [] ys p q = q
AreSymbols-append (x ∷ xs) ys p q = (p.0, AreSymbols-append xs ys p.1 q)

pixel_symbols-AreSymbols : (ws : List ℕ) → AreSymbols (pixel_symbols ws)
pixel_symbols-AreSymbols [] = tt
pixel_symbols-AreSymbols (w ∷ ws) =
    AreSymbols-append (bytes_as_data (pixel_bytes w)) (pixel_symbols ws) (omega arith)
      (pixel_symbols-AreSymbols ws)

frame_symbols-AreSymbols : (ws : List ℕ) (x y : ℕ) → AreSymbols (frame_symbols ws x y)
frame_symbols-AreSymbols ws x y =
    AreSymbols-append (address 0x2a x) (address 0x2b y ++ behind) (omega arith) (
      AreSymbols-append (address 0x2b y) behind (omega arith) (
        AreSymbols-append (command 0x2c ∷ []) (pixel_symbols ws ++ (command 0 ∷ [])) (omega arith) (
          AreSymbols-append (pixel_symbols ws) (command 0 ∷ []) (pixel_symbols-AreSymbols ws)
            (omega arith))))
  where
    address : ℕ → ℕ → List ℕ
    address c a = command c ∷ bytes_as_data (get_u8_from_u32 a)

    behind : List ℕ
    behind = (command 0x2c ∷ []) ++ pixel_symbols ws ++ (command 0 ∷ [])

take-length : (xs ys : List ℕ) (n : ℕ) → length xs ≡ n → take n (xs ++ ys) ≡ xs
take-length [] ys n e = ap (λ k. take k ys) (sym e)
take-length (x ∷ xs) ys zero e = absurd (omega arith)
take-length (x ∷ xs) ys (suc n) e = ap (λ l. x ∷ l) (take-length xs ys n (omega arith))

-- A frame that fits a send buffer of the full size reaches the display whole: from the bytes on
-- the wire it reads the addresses, the pixels and the last command, and nothing else.
pub filling-received :
    (buf words : List ℕ) (x y : ℕ)
    → length buf ≡ tx_buf_max_len
    → byte_count ((12 + length words * 4) * 9) ≤ tx_buf_max_len
    → (r : Filled) × (filling_spi_send_display_data buf words (length words) x y ≡ some r)
      × unpack 0 0 (wire r) ≡ frame_symbols words x y
filling-received buf words x y e fits = (
  filled n (pack 0 0 symbols ++ drop n buf),
  filling-packs buf words x y e fits,
  ap (unpack 0 0) (take-length (pack 0 0 symbols) (drop n buf) n long)
      ∙ unpack-pack symbols (frame_symbols-AreSymbols words x y),
)
  where
    n : ℕ
    n = byte_count ((12 + length words * 4) * 9)

    symbols : List ℕ
    symbols = frame_symbols words x y

    long : length (pack 0 0 symbols) ≡ n
    long =
        length-pack symbols 0 0 (omega arith)
        ∙ ap byte_count (omega (arith, length-frame_symbols words x y))
