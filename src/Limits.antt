-- ===== src/Limits.antt =====
-- src/gpthands/limits.py: the quota of tool calls, by a sliding window and by slots.
pub mod Defs
pub mod Window
pub mod Run
pub mod Quota
mod Tests
