-- ===== src/Agent/Files.antt =====
-- The file operations over the agent of a guest: src/backends/agent-files.ts.
pub mod Responses
pub mod Requests
pub mod Transfer
pub mod Committed
