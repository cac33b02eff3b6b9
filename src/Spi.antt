-- ===== src/Spi.antt =====
-- The display driver's packers of demo/perfdemo/perfdemo.c: a frame of commands and pixel words is
-- sent as symbols of nine bits, a flag and a byte. The memory is that of a little-endian machine.
pub mod Word
pub mod Symbols
pub mod Writer
pub mod Groups
mod Tests
