-- ===== src/FrameCheck/Tests.antt =====
-- speech/test/findError.c on small files.
use program_learning.Prelude.{arith, ℕ, ◌+◌, ◌*◌, ◌≤◌, ◌≡◌, refl, some, List, [], ◌∷◌, ◌++◌}
use program_learning.FrameCheck.{Checker, check}
use program_learning.FrameCheck.Counts.{check-counts}
use program_learning.FrameCheck.Clean.{none_left, and_more, check-Frames}

abbrev frame : List ℕ
frame =
    0x100 ∷ 0x200 ∷ 0x300 ∷ 0x400 ∷ 0x500 ∷ 0x600 ∷ 0x700 ∷ 0x800 ∷ 0x900 ∷ 0xa00 ∷ 0xb00 ∷ 0xc00
    ∷ []

-- Two words behind a good frame pass for another one: the rest of the buffer is that of the first.
short_passes :
    check (frame ++ (0x100 ∷ 0x200 ∷ []))
    ≡ some (record { file_buffer = frame; read_count = 96; suc_count = 96; err_count = 0 })
unfolding check
short_passes = refl

-- A stray word before a frame.
stray_runs :
    check (0x500 ∷ frame)
    ≡ some (record { file_buffer = frame; read_count = 52; suc_count = 48; err_count = 4 })
unfolding check
stray_runs = refl

check-counts_example :
    (d : Checker) × (check (frame ++ (0x100 ∷ 0x200 ∷ [])) ≡ some d)
    × (d.read_count ≡ d.suc_count + d.err_count)
    × (4 * 14 ≤ d.read_count + 4)
    × (d.read_count ≤ 4 * 14 + 40)
check-counts_example = check-counts (frame ++ (0x100 ∷ 0x200 ∷ [])) (omega arith)

check-Frames_example :
    (d : Checker) × (check (frame ++ []) ≡ some d)
    × (d.suc_count ≡ 4 * 12)
    × (d.err_count ≡ 0)
    × (d.read_count ≡ 4 * 12)
check-Frames_example =
    check-Frames (and_more {frame = frame} (record { size = refl; tags = refl }) none_left)
      (omega arith)
