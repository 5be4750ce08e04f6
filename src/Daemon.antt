-- ===== src/Daemon.antt =====
-- The HTTP surface of src/daemon/http.ts.
pub mod Auth
pub mod Envelope
pub mod Mcp
pub mod Leasing
pub mod Binding
pub mod Routes
pub mod Admission
