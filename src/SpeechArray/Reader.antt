-- ===== src/SpeechArray/Reader.antt =====
-- `SpeechArrayRead` of speech/src/speecharray.c. `pcm_read` is tinyalsa's, so it is a parameter: from
-- a state of the device and a count of bytes it gives the return value, the words that it stores and
-- the next state. The buffer is a list of words, so a count of bytes that is no multiple of four, as
-- an access behind the buffer and a negative count, is `none`. The lock is held all the time.
pub mod Keep
pub mod Ready
pub mod Plain
pub mod First
pub mod Steady
pub mod Stream
mod Tests
use program_learning.Prelude.{
  ℕ, zero, suc, ◌+◌, ◌-◌, ◌*◌, ◌/◌, ◌%◌, Bool, true, false, not, ◌&&◌, ◌||◌, Option, none, some,
  List, [], ◌∷◌, ◌++◌, ltb, leb, ◌==◌, if◌then◌else◌, ◌>>=◌, length, take, drop, replicate,
}
use program_learning.Prelude.Int.{ℤ, pos, negsuc}
use program_learning.SpeechArray.{skip_data, parse_data_int32}

-- `HW_BUFFER_COUNT`, `HW_OUT_DATA_RATIO`
abbrev pub hw_buffer_count : ℕ
hw_buffer_count = 2

abbrev pub hw_out_data_ratio : ℕ
hw_out_data_ratio = 4

-- What `SpeechArrayHandle_t` has for a reader, but for the lock and the device.
pub record Handle : Type 0 where
  pub out_align : ℕ
  pub buff_size : ℕ
  pub buffer : List ℕ
  pub data_size : ℕ
  pub hw_align : ℕ
  pub ratio : ℕ

-- A count of words for a count of bytes.
abbrev pub words_of : ℕ → Option ℕ
words_of n = if n % 4 == 0 then some (n / 4) else none

-- A copy of words into the buffer, from byte `at` on.
abbrev pub copy_in : List ℕ → ℕ → List ℕ → Option (List ℕ)
copy_in buffer at ws = words_of at >>= λ i.
    if ltb (length buffer) (i + length ws)
    then none
    else some (take i buffer ++ ws ++ drop (i + length ws) buffer)

-- `memcpy(buffer, buffer + from, n)`: where the two parts overlap C does not define it, so that is
-- `none`.
abbrev pub copy_down : List ℕ → ℕ → ℕ → Option (List ℕ)
copy_down buffer from n = words_of from >>= λ i. words_of n >>= λ k.
    if ltb i k || ltb (length buffer) (i + k)
    then none
    else copy_in buffer 0 (take k (drop i buffer))

-- Up to a multiple of `align`: `if (n % align) { n += align; n -= n % align; }`
abbrev pub round_up : ℕ → ℕ → ℕ
round_up n align = if n % align == 0 then n else n + align - (n + align) % align

-- `if (len > buff_size / ratio) len = buff_size / ratio`
abbrev pub bounded : Handle → ℕ → ℕ
bounded h len = if ltb (h.buff_size / h.ratio) len then h.buff_size / h.ratio else len

-- `read_size`, for the bounded length
abbrev pub read_size : Handle → ℕ → ℕ
read_size h len =
    if ltb (len * hw_out_data_ratio) h.data_size
    then 0
    else (let n = round_up (len * h.ratio - h.data_size) h.hw_align in
        if ltb n (h.buff_size / hw_buffer_count) then h.buff_size / hw_buffer_count else n)

-- `read_bytes` after a skip that leaves `avail` bytes; `none` where it is negative.
abbrev pub read_again : Handle → ℕ → ℕ → ℕ → Option ℕ
read_again h len skipped avail =
    let n = skipped - skipped % h.hw_align + h.hw_align in
    let size = read_size h len in
    if leb (len * hw_out_data_ratio) avail
    then some 0
    else if ltb h.buff_size (avail + size)
    then if ltb h.buff_size (avail + size % h.hw_align)
      then none
      else some (h.buff_size - avail - size % h.hw_align)
    else some (if ltb n (h.buff_size / hw_buffer_count) then h.buff_size / hw_buffer_count else n)

-- The result: what is returned, the words in the caller's buffer, the handle.
pub record Delivery : Type 0 where
  pub ret : ℕ
  pub buff : List ℕ
  pub handle : Handle

-- `data_size` bytes from byte `from` on go to the front of the buffer, so many zeros behind them.
pub keep_rest : List ℕ → ℕ → ℕ → ℕ → Option (List ℕ)
keep_rest buffer from data_size cleared =
    if data_size == 0
    then some buffer
    else (copy_down buffer from data_size >>= λ moved.
        words_of cleared >>= λ n. copy_in moved data_size (replicate n 0))

-- `parse_size`
abbrev pub parse_size : ℕ → ℕ → ℕ
parse_size len avail =
    if ltb (len * hw_out_data_ratio) avail then len * hw_out_data_ratio else avail

-- Parse that many bytes, copy the result out, and keep the rest. A failed parse is a copy of -1
-- bytes.
pub deliver : Handle → List ℕ → ℕ → ℕ → Option Delivery
unfolding keep_rest
deliver h buffer avail n = parse_data_int32 buffer n >>= λ (parsed, r). elim r [
  | negsuc k ↦ none
  | pos ret ↦ words_of ret >>= λ k.
      keep_rest parsed n (avail - n) (h.buff_size - (avail - n)) >>= λ kept. some (record {
        ret = ret;
        buff = take k parsed;
        handle = record h { buffer = kept; data_size = avail - n };
      })
]

-- The last part of the loop.
pub finish : Handle → ℕ → List ℕ → ℕ → Option Delivery
unfolding deliver
finish h len buffer avail = deliver h buffer avail (parse_size len avail)

-- The locals of the loop; `at` is `data`, as an offset.
pub record Reading : Type 0 where
  pub buffer : List ℕ
  pub at : ℕ
  pub avail_size : ℕ
  pub read_bytes : ℕ
  pub check_skip : Bool

-- A round of the loop from the result of its read on; `loop` are the rounds that follow.
module _ {σ : Type 0} (h : Handle) (len : ℕ) (loop : Reading → σ → Option (Delivery × σ)) where
  abbrev pub finish_with : List ℕ → ℕ → σ → Option (Delivery × σ)
  unfolding finish
  finish_with buffer avail dev = finish h len buffer avail >>= λ d. some (d, dev)

  -- After a skip of `s` bytes.
  pub after_skip : Reading → List ℕ → ℕ → ℕ → σ → Option (Delivery × σ)
  unfolding finish
  after_skip r buffer avail s dev =
      if ltb avail s
      then none
      else (copy_down buffer s (avail - s) >>= λ moved. read_again h len s (avail - s) >>= λ more.
          if more == 0
          then finish_with moved (avail - s) dev
          else loop
              (record {
                buffer = moved;
                at = r.at + avail - s;
                avail_size = avail - s;
                read_bytes = more;
                check_skip = true;
              })
              dev)

  -- After a read that succeeds.
  pub after_read : Reading → List ℕ → ℕ → σ → Option (Delivery × σ)
  unfolding finish skip_data after_skip
  after_read r buffer avail dev =
      if r.check_skip
      then finish_with buffer avail dev
      else (skip_data buffer avail >>= λ s. elim s [
        | negsuc n ↦ finish_with buffer avail dev
        | pos zero ↦ finish_with buffer avail dev
        | pos (suc n) ↦ after_skip r buffer avail (suc n) dev
      ])

  -- An error of `pcm_read` starts the next round.
  pub read_round : Reading → ℤ × List ℕ × σ → Option (Delivery × σ)
  unfolding after_read
  read_round r (ret, ws, dev) = copy_in r.buffer r.at ws >>= λ buffer. elim ret [
    | negsuc n ↦ loop (record r { buffer = buffer }) dev
    | pos (suc n) ↦ loop (record r { buffer = buffer }) dev
    | pos zero ↦ after_read r buffer (r.avail_size + r.read_bytes) dev
  ]

module _ {σ : Type 0} (pcm_read : σ → ℕ → ℤ × List ℕ × σ) where
  -- `if (read_bytes) ret = pcm_read(…)`
  abbrev pub ask : Reading → σ → ℤ × List ℕ × σ
  ask r dev = if r.read_bytes == 0 then (pos 0, [], dev) else pcm_read dev r.read_bytes

  -- `do { … } while (1)`. `none` is undefined behaviour, or that the fuel ran out.
  pub read_loop : ℕ → Handle → ℕ → Reading → σ → Option (Delivery × σ)
  unfolding read_round
  read_loop zero h len r dev = none
  read_loop (suc fuel) h len r dev = read_round h len (read_loop fuel h len) r (ask r dev)

  -- `SpeechArrayRead` with a buffer to fill; -1 is `none` on the right of the result. A handle that is
  -- NULL is used before it is tested.
  pub speech_array_read : ℕ → Option Handle → ℕ → σ → Option (Option Delivery × σ)
  unfolding read_loop
  speech_array_read fuel none len dev = none
  speech_array_read fuel (some h) len dev =
      if len == 0 || not (len % h.out_align == 0)
      then some (none, dev)
      else (let n = bounded h len in
          read_loop fuel h n
            (record {
              buffer = h.buffer;
              at = h.data_size;
              avail_size = h.data_size;
              read_bytes = read_size h n;
              check_skip = false;
            })
            dev
          >>= λ (d, dev'). some (some d, dev'))
