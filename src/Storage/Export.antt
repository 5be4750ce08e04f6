-- ===== src/Storage/Export.antt =====
-- The writing of snapshots of src/storage/cfs.ts: `collectEntries`, `exportCfs` and `ingestCfs`.
pub mod Tree
pub mod Writing
pub mod Texts
pub mod Archived
pub mod Growth
pub mod Whole
pub mod RoundTrip
pub mod Order
pub mod Ingest
