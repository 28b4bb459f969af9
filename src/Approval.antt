-- ===== src/Approval.antt =====
-- src/gpthands/approval.py: human approval tokens, signed with a local key, bound to a workspace, a
-- risk level and an action, and accepted once.
pub mod Defs
pub mod Tokens
pub mod Replay
pub mod Acceptance
pub mod OneUse
pub mod Issue
pub mod Open
mod Tests
