-- ===== src/SafeWrite.antt =====
-- src/gpthands/safe_write.py: files are written as a whole or not at all.
pub mod Defs
pub mod Stable
pub mod Placed
pub mod Complete
pub mod Atomic
pub mod Clobber
pub mod Returns
mod Tests
