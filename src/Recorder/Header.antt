-- ===== src/Recorder/Header.antt =====
-- The WAV header of speech/test/speecharraytest.c: its layout, and its sizes.
use program_learning.Prelude.{
  ℕ, ◌+◌, ◌*◌, ◌/◌, ◌%◌, ◌^◌, ◌<◌, ◌≡◌, ap, ◌∙◌, List, [], ◌∷◌, arith, take, drop, mod-eq_of_lt,
}
use program_learning.Recorder.{Settings, WavHeader, header_of, header_bytes, little}

-- The number in bytes, the lowest first.
abbrev pub value : List ℕ → ℕ
value [] = 0
value (b ∷ bs) = b + 256 * value bs

-- A header read by the layout of the format: the offset and the size of each field.
abbrev pub read_header : List ℕ → WavHeader
read_header bytes = record {
  riff_id = value (take 4 bytes);
  riff_sz = value (take 4 (drop 4 bytes));
  riff_fmt = value (take 4 (drop 8 bytes));
  fmt_id = value (take 4 (drop 12 bytes));
  fmt_sz = value (take 4 (drop 16 bytes));
  audio_format = value (take 2 (drop 20 bytes));
  num_channels = value (take 2 (drop 22 bytes));
  sample_rate = value (take 4 (drop 24 bytes));
  byte_rate = value (take 4 (drop 28 bytes));
  block_align = value (take 2 (drop 32 bytes));
  bits_per_sample = value (take 2 (drop 34 bytes));
  data_id = value (take 4 (drop 36 bytes));
  data_sz = value (take 4 (drop 40 bytes));
}

-- The fields fit their types.
pub record InRange (h : WavHeader) : Type 0 where
  pub riff_id : h.riff_id < 2 ^ 32
  pub riff_sz : h.riff_sz < 2 ^ 32
  pub riff_fmt : h.riff_fmt < 2 ^ 32
  pub fmt_id : h.fmt_id < 2 ^ 32
  pub fmt_sz : h.fmt_sz < 2 ^ 32
  pub audio_format : h.audio_format < 2 ^ 16
  pub num_channels : h.num_channels < 2 ^ 16
  pub sample_rate : h.sample_rate < 2 ^ 32
  pub byte_rate : h.byte_rate < 2 ^ 32
  pub block_align : h.block_align < 2 ^ 16
  pub bits_per_sample : h.bits_per_sample < 2 ^ 16
  pub data_id : h.data_id < 2 ^ 32
  pub data_sz : h.data_sz < 2 ^ 32

value_4 : (n : ℕ) → n < 2 ^ 32 → value (little 4 n) ≡ n
value_4 n h = omega arith

value_2 : (n : ℕ) → n < 2 ^ 16 → value (little 2 n) ≡ n
value_2 n h = omega arith

read_written : (h : WavHeader) → InRange h → read_header (header_bytes h) ≡ h
read_written h r = λ i. record {
  riff_id = value_4 h.riff_id r.riff_id i;
  riff_sz = value_4 h.riff_sz r.riff_sz i;
  riff_fmt = value_4 h.riff_fmt r.riff_fmt i;
  fmt_id = value_4 h.fmt_id r.fmt_id i;
  fmt_sz = value_4 h.fmt_sz r.fmt_sz i;
  audio_format = value_2 h.audio_format r.audio_format i;
  num_channels = value_2 h.num_channels r.num_channels i;
  sample_rate = value_4 h.sample_rate r.sample_rate i;
  byte_rate = value_4 h.byte_rate r.byte_rate i;
  block_align = value_2 h.block_align r.block_align i;
  bits_per_sample = value_2 h.bits_per_sample r.bits_per_sample i;
  data_id = value_4 h.data_id r.data_id i;
  data_sz = value_4 h.data_sz r.data_sz i;
}

header_of-InRange : (s : Settings) (bits bytes : ℕ) → InRange (header_of s bits bytes)
header_of-InRange s bits bytes = record {
  riff_id = omega arith;
  riff_sz = omega arith;
  riff_fmt = omega arith;
  fmt_id = omega arith;
  fmt_sz = omega arith;
  audio_format = omega arith;
  num_channels = omega arith;
  sample_rate = omega arith;
  byte_rate = omega arith;
  block_align = omega arith;
  bits_per_sample = omega arith;
  data_id = omega arith;
  data_sz = omega arith;
}

-- Whatever the options and the count of bytes, the header that the program writes at last reads back
-- by the layout of a WAV file.
pub header_bytes-reads :
    (s : Settings) (bits bytes : ℕ)
    → read_header (header_bytes (header_of s bits bytes)) ≡ header_of s bits bytes
header_bytes-reads s bits bytes =
    read_written (header_of s bits bytes) (header_of-InRange s bits bytes)

frames_of : (frames : ℕ) → frames * 12 / 12 ≡ frames
frames_of frames = omega arith

pub written : (frames a : ℕ) → frames * a < 2 ^ 32 → frames * 12 / 12 * a % 2 ^ 32 ≡ frames * a
written frames a fits = ap (λ t. t * a % 2 ^ 32) (frames_of frames) ∙ mod-eq_of_lt fits
