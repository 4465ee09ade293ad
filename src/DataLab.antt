-- ===== src/DataLab.antt =====
-- Lab2/bits.c: the bit puzzles, against the functions of Lab2/tests.c and descriptions of their own.
pub mod Ints
pub mod Functions
pub mod References
pub mod Logic
pub mod TopBit
pub mod Choice
pub mod Floats
pub mod Bytes
pub mod Swap
mod Tests
