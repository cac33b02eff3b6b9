-- ===== src/Recorder/File.antt =====
-- The file that speech/test/speecharraytest.c leaves.
use program_learning.Prelude.{
  ℕ, ◌+◌, ◌-◌, ◌≤◌, ◌≡◌, ◌⊎◌, inl, inr, refl, ap, ap₂, sym, ◌∙◌, true, false, Option, none, some,
  List, [], ◌∷◌, ◌++◌, map, arith, length, drop, replicate, append_assoc, append-nil, subst,
  length-append, drop-front, take_beyond, drop_beyond,
}
use program_learning.Prelude.Text.{Text}
use program_learning.Recorder.{
  Settings, defaults, parse_options, format_of, header_of, header_bytes,
}
use program_learning.Recorder.Program.{
  Met, buffer_size, WavFile, write_at, fwrite, ended, capture_file, recorded, end_recording,
  with_format, record_wav,
}

-- Behind the room for the header the file has these bytes, and the next write goes behind them.
pub record Holds (f : WavFile) (sounds : List ℕ) : Type 0 where
  pub at : f.at ≡ 44 + length sounds
  pub content :
      ((f.content ≡ []) × (sounds ≡ []))
      ⊎ ((room : List ℕ) × (length room ≡ 44) × (f.content ≡ room ++ sounds))

write_behind :
    (at : ℕ) (bytes content : List ℕ)
    → length content ≤ at
    → write_at at bytes content ≡ content ++ (replicate (at - length content) 0 ++ bytes)
write_behind at bytes content short = rw (
  take_beyond at content short,
  drop_beyond (at + length bytes) content (omega (arith, short)),
  append-nil bytes,
)

fwrite-Holds :
    (f : WavFile) (sounds bytes : List ℕ)
    → Holds f sounds
    → Holds (fwrite bytes f) (sounds ++ bytes)
fwrite-Holds f sounds bytes h = record {
  at = omega (arith, h.at, length-append sounds bytes);
  content = inr (elim h.content [
    | inl (empty, none_yet) ↦
        (let to = ap length empty in
          let from = ap length none_yet in
          (
            replicate 44 0,
            refl,
            write_behind f.at bytes f.content (omega (arith, h.at, to))
                ∙ (ap₂ (λ c n. c ++ (replicate n 0 ++ bytes)) {v = 44} empty
                      (omega (arith, h.at, to, from))
                    ∙ ap (λ l. replicate 44 0 ++ (l ++ bytes)) (sym none_yet)),
          ))
    | inr (room, size, e) ↦
        (let to = ap length e ∙ length-append room sounds in
          (
            room,
            size,
            write_behind f.at bytes f.content (omega (arith, h.at, to, size))
                ∙ (ap₂ (λ c n. c ++ (replicate n 0 ++ bytes)) {v = 0} e
                      (omega (arith, h.at, to, size))
                    ∙ append_assoc room sounds bytes),
          ))
  ]);
}

-- Rounds that go on: what they read fits the buffer and is written whole.
abbrev pub going : List ℕ → Met
going bytes = record { bytes = some bytes; wrote = length bytes; over = false }

-- The round that ends the loop: there was nothing to read, or the time is over.
abbrev pub closing : Option (List ℕ) → Met
closing none = record { bytes = none; wrote = 0; over = false }
closing (some bytes) = record { bytes = some bytes; wrote = length bytes; over = true }

abbrev pub or_nothing : Option (List ℕ) → List ℕ
or_nothing none = []
or_nothing (some bytes) = bytes

abbrev pub Fits : List (List ℕ) → Type 0
Fits [] = Unit {0}
Fits (bytes ∷ more) = (length bytes ≤ buffer_size) × Fits more

abbrev pub joined : List (List ℕ) → List ℕ
joined [] = []
joined (bytes ∷ more) = bytes ++ joined more

goes_round :
    (bytes : List ℕ) (rounds : List Met) (n : ℕ) (f : WavFile)
    → length bytes ≤ buffer_size
    → capture_file (going bytes ∷ rounds) n f
      ≡ capture_file rounds (n + length bytes) (fwrite bytes f)
unfolding capture_file
goes_round bytes rounds n f fits = ground arith

ends_round :
    (bytes : List ℕ) (rounds : List Met) (n : ℕ) (f : WavFile)
    → length bytes ≤ buffer_size
    → capture_file (closing (some bytes) ∷ rounds) n f ≡ ended (n + length bytes) (fwrite bytes f)
unfolding capture_file
ends_round bytes rounds n f fits = ground arith

stops_round :
    (rounds : List Met) (n : ℕ) (f : WavFile) → capture_file (closing none ∷ rounds) n f ≡ ended n f
unfolding capture_file
stops_round rounds n f = refl

capture_file-Holds :
    (read : List (List ℕ)) (last : Option (List ℕ)) (after : List Met) (n : ℕ) (f : WavFile)
    (sounds : List ℕ)
    → Holds f sounds
    → Fits read
    → length (or_nothing last) ≤ buffer_size
    → (f' : WavFile) × (capture_file (map going read ++ (closing last ∷ after)) n f
        ≡ ended (n + length (joined read ++ or_nothing last)) f')
      × Holds f' (sounds ++ (joined read ++ or_nothing last))
capture_file-Holds [] none after n f sounds h fit fits = (
  f,
  stops_round after n f ∙ ap (λ k. ended k f) (omega arith),
  subst (Holds f) (sym (append-nil sounds)) h,
)
capture_file-Holds [] (some bytes) after n f sounds h fit fits =
    (fwrite bytes f, ends_round bytes after n f fits, fwrite-Holds f sounds bytes h)
capture_file-Holds (bytes ∷ read) last after n f sounds h (fit, more) fits =
    let rest = joined read ++ or_nothing last in
    let (f', e, holds) =
      capture_file-Holds read last after (n + length bytes) (fwrite bytes f) (sounds ++ bytes)
        (fwrite-Holds f sounds bytes h) more fits in
    let one = append_assoc bytes (joined read) (or_nothing last) in
    (
      f',
      goes_round bytes (map going read ++ (closing last ∷ after)) n f fit
          ∙ (e ∙ ap (λ k. ended k f') (omega (arith, ap length one, length-append bytes rest))),
      subst (Holds f') (append_assoc sounds bytes rest ∙ ap (λ l. sounds ++ l) (sym one)) holds,
    )

drop_room : (f : WavFile) (sounds : List ℕ) → Holds f sounds → drop 44 f.content ≡ sounds
drop_room f sounds h = elim h.content [
  | inl (empty, none_yet) ↦ ap (drop 44) empty ∙ sym none_yet
  | inr (room, size, e) ↦ ap (drop 44) e ∙ drop-front room sounds 44 (sym size)
]

ends_with :
    (s : Settings) (bits n : ℕ) (f : WavFile) (sounds : List ℕ)
    → Holds f sounds
    → end_recording s bits (ended n f) ≡ recorded (header_bytes (header_of s bits n) ++ sounds)
ends_with s bits n f sounds h =
    let header = header_bytes (header_of s bits n) in
    let no_gap : 0 - length f.content ≡ 0 = omega arith in
    ap (λ k. recorded (replicate k 0 ++ (header ++ drop 44 f.content))) no_gap
    ∙ ap (λ l. recorded (header_bytes (header_of s bits n) ++ l)) (drop_room f sounds h)

module _ (pcm_format_to_bits : ℕ → ℕ) where
  pub record_wav-writes :
      (args : List Text) (format : ℕ) (read : List (List ℕ)) (last : Option (List ℕ))
      (after : List Met)
      → format_of (parse_options args defaults).bits ≡ some format
      → Fits read
      → length (or_nothing last) ≤ buffer_size
      → record_wav pcm_format_to_bits args (map going read ++ (closing last ∷ after))
        ≡ recorded (
            header_bytes (
              header_of
                (parse_options args defaults)
                (pcm_format_to_bits format)
                (length (joined read ++ or_nothing last)))
            ++ (joined read ++ or_nothing last))
  unfolding record_wav
  record_wav-writes args format read last after supported fit fits =
      let s = parse_options args defaults in
      let sounds = joined read ++ or_nothing last in
      let rounds = map going read ++ (closing last ∷ after) in
      let (f, e, holds) =
        capture_file-Holds read last after 0 (record { content = []; at = 44 }) []
          (record { at = refl; content = inl (refl, refl) }) fit fits in
      ap (with_format pcm_format_to_bits s rounds) supported
      ∙ (ap (end_recording s (pcm_format_to_bits format)) e
          ∙ (ends_with s (pcm_format_to_bits format) (0 + length sounds) f sounds holds
              ∙ ap
                  (λ n.
                    recorded (header_bytes (header_of s (pcm_format_to_bits format) n) ++ sounds))
                  (omega arith)))
