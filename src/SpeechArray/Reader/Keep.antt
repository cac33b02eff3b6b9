-- ===== src/SpeechArray/Reader/Keep.antt =====
-- The end of `SpeechArrayRead` of speech/src/speecharray.c: parse, copy out, keep the rest.
use program_learning.Prelude.{
  take-front, drop-front, ℕ, zero, suc, ◌+◌, ◌-◌, ◌*◌, ◌/◌, ◌≤◌, ◌≡◌, refl, sym, ap, ◌∙◌, false,
  some, List, ◌++◌, arith, ltb, ◌==◌, length, take, drop, replicate, length-append, length-take,
  length-drop, length-replicate, append_assoc, drop-add, subst,
}
use program_learning.Prelude.Int.{pos}
use program_learning.SpeechArray.{parse_data_int32}
use program_learning.SpeechArray.Format.{samples}
use program_learning.SpeechArray.Parse.{parse_data_int32-samples}
use program_learning.SpeechArray.Reader.{
  Handle, words_of, copy_in, copy_down, keep_rest, parse_size, deliver, finish,
}

pub words_of-times : (n : ℕ) → words_of (4 * n) ≡ some n
words_of-times n = ground arith

pub copy_in-lem :
    (buffer ws : List ℕ) (i : ℕ)
    → i + length ws ≤ length buffer
    → copy_in buffer (4 * i) ws ≡ some (take i buffer ++ ws ++ drop (i + length ws) buffer)
copy_in-lem buffer ws i h = rw (words_of-times i, fits)
  where
    fits : ltb (length buffer) (i + length ws) ≡ false
    fits = ground arith

copy_down-lem :
    (buffer : List ℕ) (i k : ℕ)
    → k ≤ i
    → i + k ≤ length buffer
    → copy_down buffer (4 * i) (4 * k) ≡ some (take k (drop i buffer) ++ drop k buffer)
copy_down-lem buffer i k apart h =
    rw (words_of-times i, words_of-times k, distinct, fits)
      (copy_in-lem buffer (take k (drop i buffer)) 0 (omega (arith, long))
        ∙ ap (λ j. some (take k (drop i buffer) ++ drop j buffer)) {y = k} (omega (arith, long)))
  where
    distinct : ltb i k ≡ false
    distinct = ground arith

    fits : ltb (length buffer) (i + k) ≡ false
    fits = ground arith

    long : length (take k (drop i buffer)) ≡ k
    long = omega (arith, length-take k (drop i buffer), length-drop i buffer)

-- The rest of the stream moves to the front of a buffer of `q` words, with zeros behind it.
pub keep_rest-lem :
    (q : ℕ) (buffer : List ℕ) (i k z : ℕ)
    → length buffer ≡ q
    → k ≤ i
    → i + k ≤ q
    → k + z ≤ q
    → (b : List ℕ) × (keep_rest buffer (4 * i) (4 * k) (4 * z) ≡ some b)
      × (take k b ≡ take k (drop i buffer))
      × (length b ≡ q)
unfolding keep_rest
keep_rest-lem q buffer i zero z e apart l m = (buffer, refl, refl, e)
keep_rest-lem q buffer i (suc k) z e apart l m = (
  take (suc k) moved ++ (zeros ++ drop (suc k + length zeros) moved),
  runs,
  take-front (take (suc k) moved) (zeros ++ drop (suc k + length zeros) moved) (suc k)
        (omega (arith, length-take (suc k) moved, length-moved))
      ∙ take-front front (drop (suc k) buffer) (suc k) (sym length-front),
  omega (
    arith,
    length-append {0} (take (suc k) moved) (zeros ++ drop (suc k + length zeros) moved),
    length-append {0} zeros (drop (suc k + length zeros) moved),
    length-drop (suc k + length zeros) moved,
    length-take (suc k) moved,
    length-moved,
    length-zeros,
  ),
)
  where
    front : List ℕ
    front = take (suc k) (drop i buffer)

    moved : List ℕ
    moved = front ++ drop (suc k) buffer

    zeros : List ℕ
    zeros = replicate z 0

    length-front : length front ≡ suc k
    length-front = omega (arith, length-take (suc k) (drop i buffer), length-drop i buffer)

    length-moved : length moved ≡ q
    length-moved = omega (
      arith,
      length-append {0} front (drop (suc k) buffer),
      length-front,
      length-drop (suc k) buffer,
    )

    length-zeros : length zeros ≡ z
    length-zeros = length-replicate {A = ℕ} z 0

    some_left : (4 * suc k == 0) ≡ false
    some_left = ground arith

    runs :
        keep_rest buffer (4 * i) (4 * suc k) (4 * z)
        ≡ some (take (suc k) moved ++ (zeros ++ drop (suc k + length zeros) moved))
    runs =
        rw (some_left, copy_down-lem buffer i (suc k) apart (omega arith), words_of-times z)
          (copy_in-lem moved zeros (suc k) (omega (arith, length-moved, length-zeros))
            ∙ ap some (append_assoc (take (suc k) moved) zeros (drop (suc k + length zeros) moved)))

-- Parsing whole words, and what that leaves.
pub parse_data_int32-words :
    (mem : List ℕ) (n : ℕ)
    → 12 ≤ n
    → n / 12 * 12 + 11 ≤ length mem
    → let out = samples 0 (n / 12 * 12) mem in
      (parse_data_int32 mem (4 * n) ≡ some (out ++ drop (length out) mem, pos (4 * length out)))
      × (4 * length out ≤ n)
parse_data_int32-words mem n l room = (both.0, omega (arith, both.1))
  where
    both :
        (parse_data_int32 mem (4 * n)
          ≡ some (
            samples 0 (n / 12 * 12) mem ++ drop (length (samples 0 (n / 12 * 12) mem)) mem,
            pos (4 * length (samples 0 (n / 12 * 12) mem)),
          ))
        × (4 * (4 * length (samples 0 (n / 12 * 12) mem)) ≤ 4 * n)
    both =
        subst
          (λ k.
            (parse_data_int32 mem (4 * n)
              ≡ some (
                samples 0 k mem ++ drop (length (samples 0 k mem)) mem,
                pos (4 * length (samples 0 k mem)),
              ))
            × (4 * (4 * length (samples 0 k mem)) ≤ 4 * n))
          {x = 4 * n / 48 * 12} (omega arith)
          (parse_data_int32-samples mem (4 * n) (omega arith) (omega arith))

pub drop-over :
    (out mem : List ℕ) (n : ℕ) → length out ≤ n → drop n (out ++ drop (length out) mem) ≡ drop n mem
drop-over out mem n short =
    ap (λ k. drop k (out ++ drop (length out) mem)) {y = length out + (n - length out)}
      (omega arith)
    ∙ drop-add (length out) (n - length out) (out ++ drop (length out) mem)
    ∙ ap (drop (n - length out)) (drop-front out (drop (length out) mem) (length out) refl)
    ∙ sym (drop-add (length out) (n - length out) mem)
    ∙ ap (λ k. drop k mem) (omega arith)

pub length-over :
    (out mem : List ℕ)
    → length out ≤ length mem
    → length (out ++ drop (length out) mem) ≡ length mem
length-over out mem short =
    omega (arith, length-append {0} out (drop (length out) mem), length-drop (length out) mem)

module _ (h : Handle) (q : ℕ) (whole : h.buff_size ≡ 4 * q) where
  -- The last part of the loop, with `v` words in the buffer and `n` words to parse.
  pub finish-lem :
      (mem : List ℕ) (n v : ℕ)
      → length mem ≡ q
      → 12 ≤ n
      → n ≤ v
      → v ≤ q
      → v ≤ n + n
      → n / 12 * 12 + 11 ≤ q
      → let out = samples 0 (n / 12 * 12) mem in
        (b : List ℕ) × (finish h n mem (4 * v)
          ≡ some (record {
            ret = 4 * length out;
            buff = out;
            handle = record h { buffer = b; data_size = 4 * (v - n) };
          }))
        × (take (v - n) b ≡ take (v - n) (drop n mem))
        × (length b ≡ q)
  unfolding finish deliver
  finish-lem mem n v e l m r apart slack =
      let (b, runs, front, same) =
        keep_rest-lem q parsed n (v - n) (q - (v - n)) length-parsed (omega (arith, apart))
          (omega arith) (omega arith) in
      (
        b,
        ap (deliver h mem (4 * v)) size
            ∙ rw (parses.0, words_of-times (length out), left, cleared, runs, taken),
        front ∙ ap (take (v - n)) behind,
        same,
      )
    where
      out : List ℕ
      out = samples 0 (n / 12 * 12) mem

      parsed : List ℕ
      parsed = out ++ drop (length out) mem

      size : parse_size n (4 * v) ≡ 4 * n
      size = ground arith

      left : 4 * v - 4 * n ≡ 4 * (v - n)
      left = omega arith

      cleared : h.buff_size - 4 * (v - n) ≡ 4 * (q - (v - n))
      cleared = omega (arith, whole)

      taken : take (length out) parsed ≡ out
      taken = take-front out (drop (length out) mem) (length out) refl

      parses :
          (parse_data_int32 mem (4 * n) ≡ some (parsed, pos (4 * length out)))
          × (4 * length out ≤ n)
      parses = parse_data_int32-words mem n l (omega (arith, e))

      length-parsed : length parsed ≡ q
      length-parsed = length-over out mem (omega (arith, parses.1, e)) ∙ e

      behind : drop n parsed ≡ drop n mem
      behind = drop-over out mem n (omega (arith, parses.1))
