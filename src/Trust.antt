-- ===== src/Trust.antt =====
-- src/gpthands/trust.py and the state files of src/gpthands/state.py: which workspaces are trusted.
pub mod Defs
pub mod Store
pub mod List
mod Tests
