-- ===== src/Storage.antt =====
-- The parts of src/storage.
pub mod Archive
pub mod Database
pub mod Artifacts
pub mod Export
pub mod Repository
