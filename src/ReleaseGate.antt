-- ===== src/ReleaseGate.antt =====
-- src/gpthands/release_gate.py: a stable release needs an independent review of its baseline.
pub mod Defs
pub mod Review
pub mod Promotion
pub mod Script
pub mod VersionOnly
mod Tests
