-- ===== src/Sandbox.antt =====
-- src/gpthands/sandbox.py: commands run inside the sandbox of the operating system.
pub mod Defs
pub mod Contained
pub mod Bubblewrap
mod Tests
