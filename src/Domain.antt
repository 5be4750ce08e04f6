-- ===== src/Domain.antt =====
-- The parts of src/domain.
pub mod Errors
pub mod Types
pub mod World
pub mod Sandbox
pub mod Turns
pub mod Sessions
pub mod Recovery
