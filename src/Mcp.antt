-- ===== src/Mcp.antt =====
-- The parts of src/mcp/server.ts.
pub mod Paths
pub mod Lines
pub mod Files
pub mod Tools
pub mod Streaming
pub mod Read
pub mod Server
pub mod Confined
