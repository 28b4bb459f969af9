-- ===== src/Tunnel.antt =====
-- src/gpthands/tunnel.py: the commands of the tunnel client and the environment it is given.
pub mod Defs
pub mod Environment
mod Tests
