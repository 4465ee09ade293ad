-- ===== src/Driver.antt =====
-- Tp2/mdriver.c: the driver that replays traces of requests on an allocator and checks the answers.
-- It is written against mm.h and memlib.h, so the allocator is a parameter, `Package`.
pub mod Package
pub mod Trace
pub mod Ranges
pub mod Eval
pub mod Measure
pub mod Util
pub mod Peak
pub mod Speed
pub mod Series
pub mod Options
pub mod Report
pub mod Directory
pub mod Libc
pub mod Contract
pub mod Held
pub mod Valid
pub mod Legal
pub mod OnMm
pub mod Signs
pub mod Files
mod Tests
