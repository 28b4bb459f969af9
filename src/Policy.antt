-- ===== src/Policy.antt =====
-- src/gpthands/policy.py: the external policy, its leases, the confinement of paths and the check of
-- commands.
pub mod Defs
pub mod Paths
pub mod Confinement
pub mod Load
pub mod Bounds
pub mod Commands
pub mod Migration
mod Tests
