-- ===== src/Server.antt =====
-- The MCP server: src/gpthands/server.py and its subclasses in limits.py, ux_server.py and
-- stable_server.py.
pub mod World
pub mod Approve
pub mod Call
pub mod Confined
pub mod Recorded
pub mod Verified
pub mod Searched
pub mod Granted
pub mod Settled
pub mod Read
pub mod Search
pub mod Command
pub mod Edit
pub mod Once
pub mod Planned
pub mod Applied
pub mod Previewing
pub mod Previewed
pub mod Tools
pub mod Handle
pub mod Handled
pub mod Responded
pub mod Serve
pub mod Lines
pub mod Served
pub mod Samples
mod Tests
mod CallTests
mod ServeTests
