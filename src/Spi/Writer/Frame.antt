-- ===== src/Spi/Writer/Frame.antt =====
-- `filling_spi_send_display_data` of demo/perfdemo/perfdemo.c sends a frame as the reference packer
-- does.
use program_learning.Prelude.{
  ℕ, ◌+◌, ◌*◌, ◌/◌, ◌^◌, ◌<◌, ◌≤◌, ◌≡◌, refl, sym, ap, ◌∙◌, Option, some, List, [], ◌∷◌, ◌++◌, ◌==◌,
  if◌then◌else◌, ◌>>=◌, u8, u32, length, drop, replicate, arith, length-append, append_assoc,
  append-nil, map, take_all, subst,
}
use program_learning.Spi.Symbols.{pack, command, datum}
use program_learning.Spi.Writer.{
  Sink, write_lcm_command, write_lcm_data, write_all, write_pixels, get_u8_from_u32, pixel_bytes,
  write_frame, filling_spi_send_display_data, byte_count, filled, tx_buf_max_len,
}
use program_learning.Spi.Writer.Steps.{Writes, write_lcm_command-Writes, write_lcm_data-Writes}
use program_learning.Spi.Writer.Holds.{Holds, Holds-step}

-- The four data symbols for a word, and those for the words of pixels.
abbrev pub bytes_as_data : List ℕ → List ℕ
bytes_as_data = map datum

abbrev pub pixel_symbols : List ℕ → List ℕ
pixel_symbols [] = []
pixel_symbols (w ∷ ws) = bytes_as_data (pixel_bytes w) ++ pixel_symbols ws

-- The frame: the column address, the row address, the pixels and a last command 0.
abbrev pub frame_symbols : List ℕ → ℕ → ℕ → List ℕ
frame_symbols words x y =
    (command 0x2a ∷ [])
    ++ bytes_as_data (get_u8_from_u32 x)
    ++ (command 0x2b ∷ [])
    ++ bytes_as_data (get_u8_from_u32 y)
    ++ (command 0x2c ∷ [])
    ++ pixel_symbols words
    ++ (command 0 ∷ [])

module _ (n : ℕ) (old : List ℕ) (short : 8 * n < 2 ^ 32) where
  -- A part of the code that appends symbols, wherever they fit.
  abbrev Appends : (Sink → Option Sink) → List ℕ → Type 0
  Appends code symbols =
      (sent : List ℕ) (s : Sink)
      → Holds n old sent s
      → s.bit_pos + 9 * length symbols ≤ 8 * n
      → (s' : Sink) × (code s ≡ some s') × Holds n old (sent ++ symbols) s'

  Appends-one :
      (writer : Sink → Option Sink) (symbol : ℕ)
      → Writes writer symbol
      → Appends writer (symbol ∷ [])
  Appends-one writer symbol w sent s h free = Holds-step writer symbol w h (omega arith) short

  Appends-nil : Appends some []
  Appends-nil sent s h free = (s, refl, subst (λ l. Holds n old l s) (sym (append-nil sent)) h)

  Appends-then :
      (first next : Sink → Option Sink) (xs ys : List ℕ)
      → Appends first xs
      → Appends next ys
      → Appends (λ s. first s >>= next) (xs ++ ys)
  Appends-then first next xs ys p q sent s h free =
      let (t, e, ht) = p sent s h (omega (arith, length-append {0} xs ys)) in
      let (u, e', hu) =
        q (sent ++ xs) t ht
          (omega (arith, h.count, ht.count, length-append {0} sent xs, length-append {0} xs ys)) in
      (u, rw e e', subst (λ l. Holds n old l u) (append_assoc sent xs ys) hu)

  command-Appends : (b : ℕ) → b < 256 → Appends (write_lcm_command b) (command b ∷ [])
  command-Appends b l = Appends-one (write_lcm_command b) b (write_lcm_command-Writes b l)

  AreBytes : List ℕ → Type 0
  AreBytes [] = Unit {0}
  AreBytes (b ∷ bs) = (b < 256) × AreBytes bs

  data-Appends : (bs : List ℕ) → AreBytes bs → Appends (write_all bs) (bytes_as_data bs)
  unfolding write_all AreBytes
  data-Appends [] a = Appends-nil
  data-Appends (b ∷ bs) a =
      Appends-then (write_lcm_data b) (write_all bs) (datum b ∷ []) (bytes_as_data bs)
        (Appends-one (write_lcm_data b) (datum b) (write_lcm_data-Writes b a.0))
        (data-Appends bs a.1)

  u8-AreBytes : (a b c d : ℕ) → AreBytes (u8 a ∷ u8 b ∷ u8 c ∷ u8 d ∷ [])
  unfolding AreBytes
  u8-AreBytes a b c d = omega arith

  pixels-Appends : (ws : List ℕ) → Appends (write_pixels ws) (pixel_symbols ws)
  unfolding write_pixels
  pixels-Appends [] = Appends-nil
  pixels-Appends (w ∷ ws) =
      Appends-then (write_all (pixel_bytes w)) (write_pixels ws) (bytes_as_data (pixel_bytes w))
        (pixel_symbols ws)
        (data-Appends (pixel_bytes w) (u8-AreBytes (w / 2 ^ 8) w (w / 2 ^ 24) (w / 2 ^ 16)))
        (pixels-Appends ws)

  address-Appends :
      (w : ℕ) → Appends (write_all (get_u8_from_u32 w)) (bytes_as_data (get_u8_from_u32 w))
  address-Appends w =
      data-Appends (get_u8_from_u32 w) (u8-AreBytes (w / 2 ^ 24) (w / 2 ^ 16) (w / 2 ^ 8) w)

  frame-Appends : (ws : List ℕ) (x y : ℕ) → Appends (write_frame ws x y) (frame_symbols ws x y)
  unfolding write_frame
  frame-Appends ws x y =
      Appends-then _ (write_lcm_command 0) _ (command 0 ∷ [])
        (Appends-then _ (write_pixels ws) _ (pixel_symbols ws)
          (Appends-then _ (write_lcm_command 0x2c) _ (command 0x2c ∷ [])
            (Appends-then _ (write_all (get_u8_from_u32 y)) _ (bytes_as_data (get_u8_from_u32 y))
              (Appends-then _ (write_lcm_command 0x2b) _ (command 0x2b ∷ [])
                (Appends-then (write_lcm_command 0x2a) (write_all (get_u8_from_u32 x))
                  (command 0x2a ∷ []) (bytes_as_data (get_u8_from_u32 x))
                  (command-Appends 0x2a (omega arith)) (address-Appends x))
                (command-Appends 0x2b (omega arith)))
              (address-Appends y))
            (command-Appends 0x2c (omega arith)))
          (pixels-Appends ws))
        (command-Appends 0 (omega arith))

length-pixel_symbols : (ws : List ℕ) → length (pixel_symbols ws) ≡ 4 * length ws
length-pixel_symbols [] = refl
length-pixel_symbols (w ∷ ws) = omega (arith, length-pixel_symbols ws)

pub length-frame_symbols :
    (ws : List ℕ) (x y : ℕ) → length (frame_symbols ws x y) ≡ 12 + 4 * length ws
length-frame_symbols ws x y =
    omega (arith, length-append {0} (pixel_symbols ws) (command 0 ∷ []), length-pixel_symbols ws)

-- A clear buffer holds no symbols.
clear-Holds :
    (n : ℕ) (old : List ℕ) → Holds n old [] (record { buf = replicate n 0 ++ old; bit_pos = 0 })
unfolding pack
clear-Holds n old = record {
  out = [];
  c = 0;
  k = 0;
  z = n;
  few = omega arith;
  fits = omega arith;
  layout = refl;
  pos = refl;
  count = refl;
  sends = λ rest. refl;
  room = omega arith;
}

length-pack_last : (c k : ℕ) → length (pack c k []) ≡ (if k == 0 then 0 else 1)
unfolding pack
length-pack_last c k = ground arith

-- Symbols that take up all of the first `n` bytes.
Holds-full :
    (n : ℕ) (old sent : List ℕ) (s : Sink)
    → Holds n old sent s
    → byte_count (9 * length sent) ≡ n
    → s.buf ≡ pack 0 0 sent ++ old
Holds-full n old sent s h e =
    h.layout
    ∙ ap (λ z. h.out ++ (pack h.c h.k [] ++ (replicate z 0 ++ old))) none_left
    ∙ sym (append_assoc h.out (pack h.c h.k []) old)
    ∙ ap (λ l. l ++ old) (h.sends [] ∙ ap (pack 0 0) (append-nil sent))
  where
    none_left : h.z ≡ 0
    none_left = ground (arith, h.pos, h.count, h.room, h.few, length-pack_last h.c h.k)

-- With a send buffer of its full size in which the frame fits, `filling_spi_send_display_data`
-- writes within it, leaves in its first `spi_send_len` bytes the packed symbols of the frame, and
-- keeps the bytes behind.
pub filling-packs :
    (buf words : List ℕ) (x y : ℕ)
    → length buf ≡ tx_buf_max_len
    → byte_count ((12 + length words * 4) * 9) ≤ tx_buf_max_len
    → let n = byte_count ((12 + length words * 4) * 9) in
      filling_spi_send_display_data buf words (length words) x y
      ≡ some (filled n (pack 0 0 (frame_symbols words x y) ++ drop n buf))
unfolding filling_spi_send_display_data
filling-packs buf words x y e fits =
    let (s, runs, holds) =
      frame-Appends n (drop n buf) (omega arith) words x y [] start (clear-Holds n (drop n buf))
        room in
    enters
    ∙ ap (λ r. r >>= λ t. some (filled n t.buf)) runs
    ∙ ap (λ b. some (filled n b))
        (Holds-full n (drop n buf) (frame_symbols words x y) s holds (ap byte_count bits))
  where
    n : ℕ
    n = byte_count ((12 + length words * 4) * 9)

    start : Sink
    start = record { buf = replicate n 0 ++ drop n buf; bit_pos = 0 }

    bits : 9 * length (frame_symbols words x y) ≡ (12 + length words * 4) * 9
    bits = omega (arith, length-frame_symbols words x y)

    room : 0 + 9 * length (frame_symbols words x y) ≤ 8 * n
    room = ground (arith, bits)

    whole : u32 ((12 + length words * 4) * 9) ≡ (12 + length words * 4) * 9
    whole = ground arith

    enters :
        filling_spi_send_display_data buf words (length words) x y
        ≡ (write_frame words x y start >>= λ t. some (filled n t.buf))
    enters = ground (arith, take_all words, whole)
