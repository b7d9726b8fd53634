-- ===== src/Ondisk.antt =====
-- The structs of include/f2fs.h (under zns-tools.fs/) as they lie on the disk, and the reads of them.
pub mod Layout
pub mod RoundTrip
pub mod Super
pub mod Checkpoint
pub mod Node
pub mod Read
pub mod Written
mod Tests
