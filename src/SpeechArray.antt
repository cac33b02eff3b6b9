-- ===== src/SpeechArray.antt =====
-- The data format of the microphone array in speech/src/speecharray.c: `skipData` and
-- `parseData_INT32`. The memory from `data` on is a list of 32-bit words, and a pointer to a word is
-- its index; an access behind the list is `none`. A length is a count of bytes.
pub mod Format
pub mod Over
pub mod Parse
pub mod Skip
pub mod Samples
pub mod Reader
pub mod Device
pub mod Session
mod Tests
use program_learning.Prelude.{
  ℕ, zero, suc, ◌+◌, ◌-◌, ◌*◌, ◌/◌, ◌%◌, ◌^◌, Bool, true, false, not, ◌&&◌, ◌||◌, Option, none,
  some, List, [], ◌∷◌, bit_and, bit_or, ltb, ◌==◌, if◌then◌else◌, ◌>>=◌, length, get_elem?, set,
}
use program_learning.Prelude.Int.{ℤ, pos, negsuc}

-- `MINI_SINGLE_SAMPLE_BYTES`
abbrev pub mini_single_sample_bytes : ℕ
mini_single_sample_bytes = 48

-- `CHECKERROR_INT32_LE` from channel `c` on, for `n` channels. A wrong channel number ends it, and
-- the words behind are not read.
pub check_error_from : List ℕ → ℕ → ℕ → ℕ → Option Bool
check_error_from mem i c zero = some false
check_error_from mem i c (suc n) =
    let rest = check_error_from mem (i + 1) (c + 1) n in
    get_elem? mem i >>= λ w. if bit_and w 0x00000f00 == c * 0x100 then rest else some true

abbrev pub check_error_int32_le : List ℕ → ℕ → Option Bool
unfolding check_error_from
check_error_int32_le mem i = check_error_from mem i 1 12

-- `CHECKDATA_INT32` for `n` words. One that is neither near zero nor near minus zero ends it.
pub check_data_from : List ℕ → ℕ → ℕ → Option Bool
check_data_from mem i zero = some true
check_data_from mem i (suc n) =
    let rest = check_data_from mem (i + 1) n in
    get_elem? mem i >>= λ w.
    if bit_and w 0xffff0000 == 0 || bit_and w 0xffff0000 == 0xffff0000 then rest else some false

abbrev pub check_data_int32 : List ℕ → ℕ → Option Bool
unfolding check_data_from
check_data_int32 mem i = check_data_from mem i 12

-- `len -= len % MINI_SINGLE_SAMPLE_BYTES`
abbrev pub whole_samples : ℕ → ℕ
whole_samples len =
    if len % mini_single_sample_bytes == 0 then len else len - len % mini_single_sample_bytes

-- The loop of `skipData` from word `i` on, where `skip_data` is `4 * i`.
pub skip_loop : ℕ → List ℕ → ℕ → ℕ → Option ℕ
unfolding check_error_int32_le check_data_int32
skip_loop zero mem len i = none
skip_loop (suc fuel) mem len i =
    let by_word =
      (let rest = skip_loop fuel mem len (i + 1) in
        if ltb (4 * (i + 1)) len then rest else some (i + 1)) in
    let by_sample =
      (let rest = skip_loop fuel mem len (i + 12) in
        if ltb (4 * (i + 12)) len then rest else some (i + 12)) in
    get_elem? mem i >>= λ w.
    if w == 0
    then by_word
    else check_error_int32_le mem i >>= λ bad.
        if bad
        then by_word
        else check_data_int32 mem i >>= λ silent. if silent then by_sample else some i

-- `skipData`, with fuel for a round per word.
pub skip_data : List ℕ → ℕ → Option ℤ
unfolding skip_loop
skip_data mem len =
    if ltb len mini_single_sample_bytes
    then some (negsuc 0)
    else (skip_loop (len / 4) mem (whole_samples len) 0 >>= λ i. some (pos (4 * i)))

-- `((*p) & 0xffff0000) | (((*q) & 0xffff0000) >> 16)`
abbrev pub merge : ℕ → ℕ → ℕ
merge v w = bit_or (bit_and v 0xffff0000) (bit_and w 0xffff0000 / 2 ^ 16)

-- One of the assignments `*(availspeech + …) = …`: two reads, then the write.
pub put_pair : ℕ → ℕ → ℕ → List ℕ → Option (List ℕ)
put_pair a i j mem = get_elem? mem i >>= λ v.
    get_elem? mem j >>= λ w. get_elem? mem a >>= λ old. some (set mem a (merge v w))

-- The memory and the locals of `parseData_INT32`, pointers as indices.
pub record Parser : Type 0 where
  pub mem : List ℕ
  pub speech : ℕ
  pub availspeech : ℕ
  pub datalen : ℕ

-- The body of the loop of `parseData_INT32`; `continue` is its first branch.
pub parse_body : Parser → Option Parser
unfolding check_error_int32_le put_pair
parse_body p = check_error_int32_le p.mem p.speech >>= λ bad.
    if bad
    then some (record p { speech = p.speech + 1 })
    else (put_pair p.availspeech p.speech (p.speech + 1) p.mem
        >>= put_pair (p.availspeech + 1) (p.speech + 6) (p.speech + 7)
        >>= put_pair (p.availspeech + 2) (p.speech + 3) (p.speech + 9)
        >>= λ mem. some (record {
          mem = mem;
          speech = p.speech + 12;
          availspeech = p.availspeech + 3;
          datalen = p.datalen + mini_single_sample_bytes;
        }))

pub parse_loop : ℕ → ℕ → Parser → Option Parser
unfolding parse_body
parse_loop zero end p = none
parse_loop (suc fuel) end p = parse_body p >>= λ q.
    let rest = parse_loop fuel end q in if ltb q.speech end then rest else some q

-- `parseData_INT32`, with fuel for a round per word: the memory, and the result.
pub parse_data_int32 : List ℕ → ℕ → Option (List ℕ × ℤ)
unfolding parse_loop
parse_data_int32 mem len =
    if ltb len mini_single_sample_bytes
    then some (mem, negsuc 0)
    else (parse_loop (len / 4) (whole_samples len / 4)
          (record { mem = mem; speech = 0; availspeech = 0; datalen = 0 })
        >>= λ p. some (p.mem, pos (p.datalen / 4)))
