-- ===== src/Audit.antt =====
-- src/gpthands/audit.py: the hash-chained audit log. The file, its verification and the append are in
-- the children, with what is proved of them.
pub mod Redact
pub mod Defs
pub mod Append
pub mod Chain
pub mod Tail
pub mod State
pub mod Recording
pub mod Appending
pub mod Seal
pub mod Evidence
pub mod BlankLines
pub mod Samples
pub mod Open
mod Tests
mod BlankTests
