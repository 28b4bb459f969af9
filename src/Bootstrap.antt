-- ===== src/Bootstrap.antt =====
-- scripts/release_bootstrap.py: the offline installer of released wheels, with rollback.
pub mod Wheel
pub mod Defs
pub mod Install
pub mod Commands
pub mod Digest
pub mod Bound
pub mod Kept
pub mod OneDigest
pub mod Current
pub mod Lists
pub mod Ready
pub mod Back
mod Tests
