-- ===== src/Control.antt =====
-- src/gpthands/control_ui.py: the local page on which a person trusts workspaces and approves actions.
pub mod Defs
pub mod Issued
mod Tests
