-- ===== src/Locking.antt =====
-- src/gpthands/locking.py: the advisory lock on a file, away from Windows.
pub mod Defs
pub mod Acquired
mod Tests
