-- ===== src/Recorder.antt =====
-- speech/test/speecharraytest.c, which records the microphone array to a WAV file: its options, the
-- rounds of its loop and its header. An option's number is read by `atoi`; a text that is no number in
-- the range of `int` is outside the model of it.
pub mod Capture
pub mod Program
pub mod File
pub mod Sounds
pub mod Header
mod Tests
use program_learning.Prelude.{
  ℕ, zero, suc, ◌+◌, ◌-◌, ◌*◌, ◌/◌, ◌%◌, ◌^◌, Bool, true, false, ◌&&◌, ◌||◌, Option, none, some,
  List, [], ◌∷◌, ◌++◌, ltb, leb, ◌==◌, if◌then◌else◌, u32,
}
use program_learning.Prelude.Text.{Text, codes}

-- The variables of `main` that the options set.
pub record Settings : Type 0 where
  pub card : ℕ
  pub device : ℕ
  pub channels : ℕ
  pub rate : ℕ
  pub bits : ℕ
  pub period_size : ℕ
  pub period_count : ℕ
  pub cap_time : ℕ

abbrev pub defaults : Settings
defaults = record {
  card = 0;
  device = 0;
  channels = 2;
  rate = 48000;
  bits = 16;
  period_size = 9600;
  period_count = 2;
  cap_time = 0;
}

-- `strcmp(a, b) == 0`
abbrev pub same : Text → Text → Bool
same [] [] = true
same [] (b ∷ bs) = false
same (a ∷ as') [] = false
same (a ∷ as') (b ∷ bs) = a == b && same as' bs

abbrev pub is_digit : ℕ → Bool
is_digit c = leb b'0' c && leb c b'9'

-- The digits at the front of a text, behind the value so far.
abbrev pub number : ℕ → Text → ℕ
number value [] = value
number value (c ∷ cs) = if is_digit c then number (value * 10 + (c - b'0')) cs else value

-- `atoi`, put into an `unsigned int`.
abbrev pub atoi : Text → ℕ
atoi [] = 0
atoi (c ∷ cs) =
    if c == b'-'
    then u32 (2 ^ 32 - u32 (number 0 cs))
    else if c == b'+'
    then number 0 cs
    else if c == b' '
    then atoi cs
    else number 0 (c ∷ cs)

-- The variable that an option sets.
pub option : Text → Option (ℕ → Settings → Settings)
option flag =
    if same flag (codes "-d")
    then some (λ n s. record s { device = n })
    else if same flag (codes "-c")
    then some (λ n s. record s { channels = n })
    else if same flag (codes "-r")
    then some (λ n s. record s { rate = n })
    else if same flag (codes "-b")
    then some (λ n s. record s { bits = n })
    else if same flag (codes "-D")
    then some (λ n s. record s { card = n })
    else if same flag (codes "-p")
    then some (λ n s. record s { period_size = n })
    else if same flag (codes "-n")
    then some (λ n s. record s { period_count = n })
    else if same flag (codes "-T")
    then some (λ n s. record s { cap_time = n })
    else none

-- `while (*argv)`: an option takes the argument behind it, if there is one; another argument is passed
-- over.
pub parse_options : List Text → Settings → Settings
unfolding option
parse_options [] s = s
parse_options (flag ∷ []) s = s
parse_options (flag ∷ value ∷ rest) s = elim (option flag) [
  | none ↦ parse_options (value ∷ rest) s
  | some put ↦ parse_options rest (put (atoi value) s)
]

-- `PCM_FORMAT_S16_LE`, `PCM_FORMAT_S32_LE`, `PCM_FORMAT_S24_LE`, for the bits of a sample.
pub format_of : ℕ → Option ℕ
format_of bits =
    if bits == 32
    then some 1
    else if bits == 24
    then some 3
    else if bits == 16
    then some 0
    else none

-- `struct wav_header`
pub record WavHeader : Type 0 where
  pub riff_id : ℕ
  pub riff_sz : ℕ
  pub riff_fmt : ℕ
  pub fmt_id : ℕ
  pub fmt_sz : ℕ
  pub audio_format : ℕ
  pub num_channels : ℕ
  pub sample_rate : ℕ
  pub byte_rate : ℕ
  pub block_align : ℕ
  pub bits_per_sample : ℕ
  pub data_id : ℕ
  pub data_sz : ℕ

abbrev pub u16 : ℕ → ℕ
u16 n = n % 2 ^ 16

-- The header that `main` writes at last, for the bits of the format in memory.
abbrev pub header_of : Settings → ℕ → ℕ → WavHeader
header_of s format_bits bytes_write = record {
  riff_id = 0x46464952;
  riff_sz = u32 (u32 (bytes_write / 12 * u16 (u16 s.channels * (u16 format_bits / 8))) + 44 - 8);
  riff_fmt = 0x45564157;
  fmt_id = 0x20746d66;
  fmt_sz = 16;
  audio_format = 1;
  num_channels = u16 s.channels;
  sample_rate = u32 s.rate;
  byte_rate = u32 (u16 format_bits / 8 * s.channels * s.rate);
  block_align = u16 (u16 s.channels * (u16 format_bits / 8));
  bits_per_sample = u16 format_bits;
  data_id = 0x61746164;
  data_sz = u32 (bytes_write / 12 * u16 (u16 s.channels * (u16 format_bits / 8)));
}

-- `size`, what each round asks for.
abbrev pub size_of : Settings → ℕ
size_of s = u32 (s.bits * s.channels * s.period_count * s.period_size) / 8

-- A number in so many bytes, the lowest first.
abbrev pub little : ℕ → ℕ → List ℕ
little zero n = []
little (suc k) n = n % 256 ∷ little k (n / 256)

-- `fwrite` of the header.
abbrev pub header_bytes : WavHeader → List ℕ
header_bytes h =
    little 4 h.riff_id
    ++ (little 4 h.riff_sz
        ++ (little 4 h.riff_fmt
            ++ (little 4 h.fmt_id
                ++ (little 4 h.fmt_sz
                    ++ (little 2 h.audio_format
                        ++ (little 2 h.num_channels
                            ++ (little 4 h.sample_rate
                                ++ (little 4 h.byte_rate
                                    ++ (little 2 h.block_align
                                        ++ (little 2 h.bits_per_sample
                                            ++ (little 4 h.data_id ++ little 4 h.data_sz)))))))))))

-- What a round of the loop meets: what `SpeechArrayRead` returned, if that is positive, what `fwrite`
-- wrote, and whether the time is over or a signal has come.
pub record Round : Type 0 where
  pub len : Option ℕ
  pub wrote : ℕ
  pub over : Bool

-- `while (1)`: `bytes_write` at its end, where it stays in the range of `int`; `none` is that no round
-- ended it.
pub capture : List Round → ℕ → Option ℕ
capture [] bytes_write = none
capture (r ∷ rounds) bytes_write = elim r.len [
  | none ↦ some bytes_write
  | some len ↦
      (let more = capture rounds (bytes_write + len) in
        if r.wrote == len
        then if r.over then some (bytes_write + len) else more
        else some bytes_write)
]
