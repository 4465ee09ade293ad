-- ===== src/Client.antt =====
-- The calls of mm.c that a client makes, one after the other.
pub mod Session
pub mod Drain
pub mod Tests
