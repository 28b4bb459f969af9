-- ===== src/Pending.antt =====
-- src/gpthands/pending_approvals.py: the queue of actions that wait for a person's approval.
pub mod Defs
pub mod Queue
pub mod Added
pub mod Shown
mod Tests
