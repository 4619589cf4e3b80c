-- ===== src/Mcp.antt =====
-- The MCP server of crates/memoryd/src/mcp.rs.
pub mod Lines
pub mod Messages
pub mod Definitions
pub mod Host
pub mod Tools
pub mod Calls
pub mod Server
