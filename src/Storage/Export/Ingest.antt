-- ===== src/Storage/Export/Ingest.antt =====
-- src/storage/cfs.ts: `ingestCfs`. The source is read twice, by `ingestCfs` and by `extractCfs`, and
-- may change in between: `bytes` is the first answer and `again` the second. The calls are those of
-- an extraction, in whose state the maps start empty.
use electrosphere.Base.{
  Bool, true, Option, none, some, [], ◌∷◌, ◌++◌, length, leb, if◌then◌else◌, codes,
}
use electrosphere.Base.Bytes.{Bytes, bytes_eq}
use electrosphere.Base.Exec.{Exec, pure, throw, lift, catch, attempt, guard, ◌>>=◌, ◌>>◌}
use electrosphere.Base.Paths.{AbsolutePath}
use electrosphere.Domain.Errors.{ErrorCode, Thrown, throws}
use electrosphere.Storage.Archive.Extract.{
  Disk, Extraction, make_directory, create_file, write_file, link, change_mode, remove, perform,
  extract_cfs,
}
use electrosphere.Storage.Export.Writing.{CfsObject, max_tree_bytes, staging_directory}

abbrev pub is_expected : (expected : Option Bytes) → (tree_digest : Bytes) → Bool
is_expected none tree_digest = true
is_expected (some expected) tree_digest = bytes_eq tree_digest expected

abbrev pub validation_root : (object_root : AbsolutePath) → (uuid : Bytes) → AbsolutePath
validation_root object_root uuid =
    staging_directory object_root ++ ((codes "validate-" ++ uuid) ∷ [])

-- `is_present` and `is_crossing` tell the error codes `EEXIST` and `EXDEV`; `staging` is the fresh
-- name that the extraction takes beside its destination.
module _ (disk : Disk) (is_present is_crossing : Thrown → Bool) (utf8 sha256 : Bytes → Bytes)
    (source object_root : AbsolutePath) (uuid staging : Bytes) where
  -- A trial extraction, whose directory is removed whatever it came to.
  unfoldable pub validate : (again : Bytes) → Exec Extraction (Unit {0})
  validate again = do
    perform disk (make_directory (validation_root object_root uuid) true 448)
    extracted ← attempt (
        extract_cfs disk utf8 (validation_root object_root uuid ++ (staging ∷ []))
          (validation_root object_root uuid ++ (codes "workspace" ∷ [])) again)
    perform disk (remove (validation_root object_root uuid))
    lift extracted

  unfoldable pub copy_object :
      (final_path : AbsolutePath) → (bytes : Bytes) → Exec Extraction (Unit {0})
  copy_object final_path bytes = do
    perform disk (create_file final_path 256)
    perform disk (write_file final_path bytes)

  unfoldable pub install_object :
      (final_path : AbsolutePath) → (bytes : Bytes) → Exec Extraction (Unit {0})
  install_object final_path bytes = catch (perform disk (link source final_path)) λ e.
      if is_present e
      then pure tt
      else if is_crossing e
      then copy_object final_path bytes
      else throw e

  unfoldable pub ingest_cfs :
      (expected : Option Bytes) → (bytes again : Bytes) → Exec Extraction CfsObject
  ingest_cfs expected bytes again = do
    guard (leb (length bytes) max_tree_bytes)
        (throws ErrorCode.snapshot_limit "Snapshot exceeds total size limit")
    guard (is_expected expected (codes "sha256:" ++ sha256 bytes))
        (throws ErrorCode.backend_error "Guest snapshot digest mismatch")
    validate again
    perform disk (make_directory (object_root ++ (codes "sha256" ∷ [])) true 448)
    install_object (object_root ++ (codes "sha256" ∷ sha256 bytes ∷ [])) bytes
    perform disk (change_mode (object_root ++ (codes "sha256" ∷ sha256 bytes ∷ [])) 256)
    pure (record {
      tree_digest = codes "sha256:" ++ sha256 bytes;
      path = object_root ++ (codes "sha256" ∷ sha256 bytes ∷ []);
      size_bytes = length bytes;
    })
