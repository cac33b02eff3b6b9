-- ===== src/SpeechArray/Reader/First.antt =====
-- `SpeechArrayRead1` of speech/src/speecharray.c, an older form of `SpeechArrayRead` that nothing
-- calls: it parses all that there is, and reads no more than the length needs.
pub mod Whole
mod Tests
use program_learning.Prelude.{
  ℕ, zero, suc, ◌+◌, ◌-◌, ◌*◌, ◌%◌, Bool, true, false, not, ◌||◌, Option, none, some, List, [], ◌∷◌,
  ltb, leb, ◌==◌, if◌then◌else◌, ◌>>=◌, take,
}
use program_learning.Prelude.Int.{ℤ, pos, negsuc}
use program_learning.SpeechArray.{skip_data, parse_data_int32}
use program_learning.SpeechArray.Reader.{
  Handle, Delivery, Reading, words_of, copy_in, copy_down, round_up, bounded, keep_rest,
  hw_out_data_ratio,
}

-- `read_size`, for the bounded length. It is negative where more is left than the length needs; up to a
-- multiple of `hw_align` that is 0, or negative still, a count that `pcm_read` cannot take: `none`.
abbrev pub read_size1 : Handle → ℕ → Option ℕ
read_size1 h len =
    if leb h.data_size (len * h.ratio)
    then some (round_up (len * h.ratio - h.data_size) h.hw_align)
    else if ltb (h.data_size - len * h.ratio) h.hw_align
    then some 0
    else none

-- Parse all, copy the result out, and keep what is behind four times the result. A failed parse is a
-- copy of -1 bytes.
pub deliver_all : Handle → List ℕ → ℕ → Option Delivery
unfolding keep_rest
deliver_all h buffer avail = parse_data_int32 buffer avail >>= λ (parsed, r). elim r [
  | negsuc k ↦ none
  | pos ret ↦ words_of ret >>= λ k.
      (let from = ret * hw_out_data_ratio in
        if ltb avail from
        then none
        else (keep_rest parsed from (avail - from) from >>= λ kept. some (record {
          ret = ret;
          buff = take k parsed;
          handle = record h { buffer = kept; data_size = avail - from };
        })))
]

-- A round of the loop from the result of its read on; `loop` are the rounds that follow.
module _ {σ : Type 0} (h : Handle) (loop : Reading → σ → Option (Delivery × σ)) where
  abbrev pub all_with : List ℕ → ℕ → σ → Option (Delivery × σ)
  unfolding deliver_all
  all_with buffer avail dev = deliver_all h buffer avail >>= λ d. some (d, dev)

  -- After a skip of `s` bytes.
  pub after_skip1 : Reading → List ℕ → ℕ → ℕ → σ → Option (Delivery × σ)
  unfolding deliver_all
  after_skip1 r buffer avail s dev =
      if ltb avail s
      then none
      else (copy_down buffer s (avail - s) >>= λ moved.
          (let more = s - s % h.hw_align + h.hw_align in
            if more == 0
            then all_with moved (avail - s) dev
            else loop
                (record {
                  buffer = moved;
                  at = r.at + avail - s;
                  avail_size = avail - s;
                  read_bytes = more;
                  check_skip = true;
                })
                dev))

  -- After a read that succeeds.
  pub after_read1 : Reading → List ℕ → ℕ → σ → Option (Delivery × σ)
  unfolding deliver_all skip_data after_skip1
  after_read1 r buffer avail dev =
      if r.check_skip
      then all_with buffer avail dev
      else (skip_data buffer avail >>= λ s. elim s [
        | negsuc n ↦ all_with buffer avail dev
        | pos zero ↦ all_with buffer avail dev
        | pos (suc n) ↦ after_skip1 r buffer avail (suc n) dev
      ])

  -- An error of `pcm_read` starts the next round.
  pub read_round1 : Reading → ℤ × List ℕ × σ → Option (Delivery × σ)
  unfolding after_read1
  read_round1 r (ret, ws, dev) = copy_in r.buffer r.at ws >>= λ buffer. elim ret [
    | negsuc n ↦ loop (record r { buffer = buffer }) dev
    | pos (suc n) ↦ loop (record r { buffer = buffer }) dev
    | pos zero ↦ after_read1 r buffer (r.avail_size + r.read_bytes) dev
  ]

-- The locals at the start of the loop.
abbrev pub start1 : Handle → ℕ → Reading
start1 h n = record {
  buffer = h.buffer;
  at = h.data_size;
  avail_size = h.data_size;
  read_bytes = n;
  check_skip = false;
}

module _ {σ : Type 0} (pcm_read : σ → ℕ → ℤ × List ℕ × σ) where
  -- `do { … } while (1)`. `none` is undefined behaviour, or that the fuel ran out.
  pub read_loop1 : ℕ → Handle → Reading → σ → Option (Delivery × σ)
  unfolding read_round1
  read_loop1 zero h r dev = none
  read_loop1 (suc fuel) h r dev = read_round1 h (read_loop1 fuel h) r (pcm_read dev r.read_bytes)

  -- `SpeechArrayRead1` with a buffer to fill; -1 is `none` on the right of the result.
  pub speech_array_read1 : ℕ → Option Handle → ℕ → σ → Option (Option Delivery × σ)
  unfolding read_loop1
  speech_array_read1 fuel none len dev = none
  speech_array_read1 fuel (some h) len dev =
      if len == 0 || not (len % h.out_align == 0)
      then some (none, dev)
      else (read_size1 h (bounded h len) >>= λ n.
          read_loop1 fuel h (start1 h n) dev >>= λ (d, dev'). some (some d, dev'))
