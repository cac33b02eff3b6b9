-- ===== src/Fifo/Heap.antt =====
-- Allocation and release in libutils/fifo.c. A heap is the list of the addresses that `malloc` has
-- handed out and `free` has not taken back; what `malloc` returns is an argument, for it is not the
-- program's.
use program_learning.Prelude.{
  ℕ, suc, ◌+◌, ◌≤◌, ◌<◌, ◌^◌, ◌≡◌, refl, ap, Option, none, some, List, [], ◌∷◌, arith, ◌==◌,
  if◌then◌else◌, ◌>>=◌, length, Option-cases, inl, inr, sym, ◌∙◌,
}
use program_learning.Fifo.{Fifo, reset}
use program_learning.Fifo.Refine.{IsValid, contents}
use program_learning.Fifo.Laws.{reset-IsValid}

abbrev pub Heap : Type 0
Heap = List ℕ

-- `free(p)`: an address that is not live is undefined behaviour.
pub release : Heap → ℕ → Option Heap
release [] p = none
release (q ∷ h) p = if q == p then some h else (release h p >>= λ h'. some (q ∷ h'))

-- A block that `malloc` has returned, with what is in it.
pub record Block : Type 0 where
  pub at : ℕ
  pub bytes : List ℕ

-- A FIFO with the addresses of its two blocks. `buffer` is the first field of the struct, so
-- `&f->buffer` is the address of the struct.
pub record Owned : Type 0 where
  pub addr : ℕ
  pub block : ℕ
  pub fifo : Fifo

abbrev pub buffer_offset : ℕ
buffer_offset = 0

-- `fifo_alloc_common`: `header` is what the inner `malloc` returns.
pub alloc_common : Heap → Option Block → Option ℕ → Option (Option Owned × Heap)
unfolding release reset
alloc_common h none header = some (none, h)
alloc_common h (some b) none = release h b.at >>= λ h'. some (none, h')
alloc_common h (some b) (some p) = some (
  some (record {
    addr = p;
    block = b.at;
    fifo = reset (record { buffer = b.bytes; rptr = 0; wptr = 0; rndx = 0; wndx = 0 });
  }),
  p ∷ h,
)

-- `st_fifo_alloc`: `block` is what the outer `malloc` returns.
pub alloc : Heap → Option Block → Option ℕ → Option (Option Owned × Heap)
unfolding alloc_common
alloc h none header = alloc_common h none header
alloc h (some b) header = alloc_common (b.at ∷ h) (some b) header

-- `st_fifo_free`
pub free : Heap → Option Owned → Option Heap
unfolding release
free h none = some h
free h (some f) = release h (f.addr + buffer_offset) >>= λ h'. release h' f.addr

-- How often an address is live: once, where `malloc` does not hand out a live one.
abbrev pub live : Heap → ℕ → ℕ
live [] p = 0
live (q ∷ h) p = (if q == p then 1 else 0) + live h p

-- `st_fifo_alloc` never faults. It fails exactly when one `malloc` does, and then leaves the heap
-- as it was; otherwise it owns the two new blocks, and the FIFO is valid and empty, if the buffer
-- has a byte and less than 2 ^ 31.
pub alloc_lem :
    (h : Heap) (b : Block) (p : ℕ)
    → 0 < length b.bytes
    → length b.bytes < 2 ^ 31
    → (alloc h none (some p) ≡ some (none, h))
      × (alloc h (some b) none ≡ some (none, h))
      × ((f : Owned) × (alloc h (some b) (some p) ≡ some (some f, p ∷ b.at ∷ h))
          × IsValid f.fifo
          × (contents f.fifo ≡ []))
unfolding alloc
alloc_lem h b p pos small = (
  refl,
  ground arith,
  (record { addr = p; block = b.at; fifo = reset fresh }, refl, made.0, made.1),
)
  where
    fresh : Fifo
    fresh = record { buffer = b.bytes; rptr = 0; wptr = 0; rndx = 0; wndx = 0 }

    made : IsValid (reset fresh) × (contents (reset fresh) ≡ [])
    made = reset-IsValid fresh pos small

release-dead : (h : Heap) (p : ℕ) → live h p ≡ 0 → release h p ≡ none
unfolding release
release-dead [] p e = refl
release-dead (q ∷ h) p e = ground (arith, release-dead h p)

live-release : (h : Heap) (p : ℕ) (h' : Heap) → release h p ≡ some h' → live h p ≡ suc (live h' p)
unfolding release
live-release [] p h' e = absurd (ground arith)
live-release (q ∷ h) p h' e = elim (Option-cases (release h p)) [
  | inl dead ↦ ground (arith, release-dead h p)
  | inr (r, e') ↦ ground (arith, live-release h p r e')
]

-- `st_fifo_free` of a FIFO is undefined behaviour, a release of what is not live, wherever the
-- address of its struct is live once at most.
pub free-faults : (h : Heap) (f : Owned) → live h f.addr ≤ 1 → free h (some f) ≡ none
unfolding free
free-faults h f once = elim (Option-cases (release h (f.addr + 0))) [
  | inl dead ↦ rw dead
  | inr (r, e) ↦ rw e (release-dead r f.addr (omega (arith, gone r e)))
]
  where
    same : f.addr + 0 ≡ f.addr
    same = omega arith

    gone : (r : Heap) → release h (f.addr + 0) ≡ some r → live h f.addr ≡ suc (live r f.addr)
    gone r e = live-release h f.addr r (ap (release h) (sym same) ∙ e)
