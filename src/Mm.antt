-- ===== src/Mm.antt =====
-- Tp2/mm.c: the implicit-list allocator with boundary tags.
pub mod Words
pub mod Run
pub mod Block
pub mod Heap
pub mod Api
mod Tests
pub mod Layout
pub mod Live
