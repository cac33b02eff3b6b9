-- ===== src/Spi/Writer/Tests.antt =====
-- `write_lcm_command` and `write_lcm_data` of demo/perfdemo/perfdemo.c at small inputs.
use program_learning.Prelude.{◌≡◌, refl, some, [], ◌∷◌}
use program_learning.Spi.Writer.{write_lcm_command, write_lcm_data}

-- A command and a data byte after it.
writes_run :
    write_lcm_command 0x2a (record { buf = 0 ∷ 0 ∷ 0 ∷ []; bit_pos = 0 })
    ≡ some (record { buf = 0x15 ∷ 0 ∷ 0 ∷ []; bit_pos = 9 })
unfolding write_lcm_command
writes_run = refl

data_run :
    write_lcm_data 0xff (record { buf = 0x15 ∷ 0 ∷ 0 ∷ []; bit_pos = 9 })
    ≡ some (record { buf = 0x15 ∷ 0x7f ∷ 0xc0 ∷ []; bit_pos = 18 })
unfolding write_lcm_data
data_run = refl
