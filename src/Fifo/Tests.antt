-- ===== src/Fifo/Tests.antt =====
-- libutils/fifo.c at small inputs.
use program_learning.Prelude.{◌-◌, ◌≤◌, ◌≡◌, refl, none, some, [], ◌∷◌, arith, length}
use program_learning.Prelude.Int.{pos, ◌<ℤ◌}
use program_learning.Fifo.{Fifo, capacity, reset, size, space, write, read, drain, write_loop}
use program_learning.Fifo.Span.{span}
use program_learning.Fifo.Refine.{IsValid, contents, Appended}
use program_learning.Fifo.Laws.{
  reset-IsValid, size-eq-length, write-refines, read-refines, read-write,
}
use program_learning.Fifo.Limits.{write_loop-never_ends, write-overruns}
use program_learning.Fifo.Heap.{Block, Owned, alloc, free, alloc_lem, free-faults}

-- Two bytes, 8 and 9, round the end of a buffer of three.
abbrev wrapped : Fifo
wrapped = record { buffer = 9 ∷ 7 ∷ 8 ∷ []; rptr = 2; wptr = 1; rndx = 0xffffffff; wndx = 1 }

wrapped-IsValid : IsValid wrapped
wrapped-IsValid = omega arith

abbrev vacant : Fifo
vacant = record { buffer = 0 ∷ 0 ∷ 0 ∷ []; rptr = 2; wptr = 2; rndx = 5; wndx = 5 }

vacant-IsValid : IsValid vacant
vacant-IsValid = omega arith

write_runs :
    write wrapped (4 ∷ 5 ∷ []) 1
    ≡ some (record wrapped { buffer = 9 ∷ 4 ∷ 8 ∷ []; wptr = 2; wndx = 2 }, 1)
unfolding write
write_runs = refl

read_runs : read wrapped 2 ≡ some (8 ∷ 9 ∷ [], record wrapped { rptr = 1; rndx = 1 })
unfolding read
read_runs = refl

reset_fresh : IsValid (reset wrapped) × (contents (reset wrapped) ≡ [])
reset_fresh = reset-IsValid wrapped (omega arith) (omega arith)

size_counts : (size wrapped ≡ pos 2) × (space wrapped ≡ pos 1) × (length (contents wrapped) ≤ 3)
unfolding span
size_counts = size-eq-length wrapped wrapped-IsValid

write-refines_example :
    (g : Fifo) × (write wrapped (4 ∷ 5 ∷ []) 1 ≡ some (g, 1)) × Appended wrapped (4 ∷ []) g
write-refines_example =
    write-refines wrapped (4 ∷ 5 ∷ []) 1 wrapped-IsValid (omega arith) (omega arith)

read-refines_example :
    (g : Fifo) × (read wrapped 1 ≡ some (8 ∷ [], g))
    × (drain wrapped 1 ≡ g)
    × IsValid g
    × (contents g ≡ 9 ∷ [])
unfolding span
read-refines_example = read-refines wrapped 1 wrapped-IsValid (omega arith)

read-write_example :
    (g g' g'' : Fifo) × (write vacant (1 ∷ 2 ∷ []) 2 ≡ some (g, 2))
    × (read g 1 ≡ some (1 ∷ [], g'))
    × (read g' (2 - 1) ≡ some (2 ∷ [], g''))
    × (contents g'' ≡ [])
read-write_example =
    read-write vacant (1 ∷ 2 ∷ []) 1 vacant-IsValid refl (omega arith) (omega arith)

no_buffer_no_end : write_loop 1000 (record { mem = []; wptr = 0; wndx = 0 }) (1 ∷ []) 1 ≡ none
no_buffer_no_end = write_loop-never_ends 1000 0 0 (1 ∷ []) 1 (omega arith)

overrun :
    (g : Fifo) × (write wrapped (4 ∷ 5 ∷ []) 2 ≡ some (g, 2))
    × (size g ≡ pos 4)
    × (space g <ℤ pos 0)
    × (capacity g ≡ 3)
overrun =
    write-overruns wrapped (4 ∷ 5 ∷ []) 2 wrapped-IsValid (omega arith) (omega arith) (omega arith)

abbrev block : Block
block = record { at = 16; bytes = 0 ∷ 0 ∷ [] }

alloc_runs :
    (alloc [] none (some 32) ≡ some (none, []))
    × (alloc [] (some block) none ≡ some (none, []))
    × ((f : Owned) × (alloc [] (some block) (some 32) ≡ some (some f, 32 ∷ 16 ∷ []))
        × IsValid f.fifo
        × (contents f.fifo ≡ []))
alloc_runs = alloc_lem [] block 32 (omega arith) (omega arith)

free-faults_example :
    free (32 ∷ 16 ∷ []) (some (record { addr = 32; block = 16; fifo = vacant })) ≡ none
free-faults_example =
    free-faults (32 ∷ 16 ∷ []) (record { addr = 32; block = 16; fifo = vacant }) (omega arith)
