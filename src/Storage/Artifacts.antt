-- ===== src/Storage/Artifacts.antt =====
-- The artifact files of src/storage/artifacts.ts.
pub mod Store
pub mod Sliced
