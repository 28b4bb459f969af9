-- ===== src/Process.antt =====
-- src/gpthands/process_control.py: the output of a child process is kept up to a limit.
pub mod Defs
pub mod Output
mod Tests
