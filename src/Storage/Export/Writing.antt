-- ===== src/Storage/Export/Writing.antt =====
-- src/storage/cfs.ts: `exportCfs`. The calls of the file system are recorded, the latest first; a
-- host answers a call after the calls before it. The entries come from a directory as `readdir` and
-- `lstat` answer on it, while files and links are read by calls of their own, since they may change
-- in between. A write takes the whole chunk or throws; the source does not read how much was
-- written. A time before 1970, which `writeBigUInt64BE` rejects, is not a value of `Stats`.
use electrosphere.Base.{
  ℕ, zero, suc, ◌+◌, ◌-◌, ◌*◌, ◌/◌, ◌%◌, min, Bool, true, not, ◌&&◌, ◌||◌, Option, none, some, List,
  [], ◌∷◌, ◌++◌, length, ltb, leb, ◌==◌, if◌then◌else◌, codes,
}
use electrosphere.Base.Bytes.{Bytes, starts_with, split}
use electrosphere.Base.Exec.{
  Result, ok, err, Exec, pure, throw, gets, lift, catch, attempt, modify, guard, ◌>>=◌, ◌>>◌,
}
use electrosphere.Base.Paths.{AbsolutePath, slash, dirname, resolve, is_within}
use electrosphere.Domain.Errors.{ErrorCode, Thrown, plain_error, throws}
use electrosphere.Storage.Archive.{EntryHeader, is_set_id, encode_header}
use electrosphere.Storage.Archive.Extract.{
  DiskCall, make_directory, create_file, write_file, link, change_mode, remove, magic, unsupported,
  type_directory, type_file, type_symlink, type_hardlink,
}
use electrosphere.Storage.Export.Tree.{FileKind, Directory, Collected, collect_entries}

abbrev pub max_file_bytes : ℕ
max_file_bytes = 268_435_456

abbrev pub max_tree_bytes : ℕ
max_tree_bytes = 1_073_741_824

-- The calls of the file system: changes of it, the handle of the archive, and reads.
pub data ExportCall : Type 0 where
  change : DiskCall → ExportCall
  sync_output close_output : ExportCall
  open_input close_input read_link : AbsolutePath → ExportCall
  read_input : AbsolutePath → (size : ℕ) → (offset : ℕ) → ExportCall

-- How the host answers. `is_present` tells the error code `EEXIST`, and `sha256` is the hash of
-- bytes in hexadecimal digits.
pub record Host : Type 0 where
  pub answer : List ExportCall → ExportCall → Result (Unit {0})
  pub bytes : List ExportCall → ExportCall → Result Bytes
  pub is_present : Thrown → Bool
  pub sha256 : Bytes → Bytes

-- The variables of a call: `hashed` is what the hasher was given.
pub record Export : Type 0 where
  pub total : ℕ
  pub hashed : Bytes
  pub hard_links : List ((ℕ × ℕ) × Bytes)
  pub calls : List ExportCall

abbrev pub unwritten : Export
unwritten = record { total = 0; hashed = []; hard_links = []; calls = [] }

pub record CfsObject : Type 0 where
  pub tree_digest : Bytes
  pub path : AbsolutePath
  pub size_bytes : ℕ

abbrev pub find_link : List ((ℕ × ℕ) × Bytes) → ℕ → ℕ → Option Bytes
find_link [] dev ino = none
find_link (l ∷ links) dev ino =
    if (l.0.0 == dev) && (l.0.1 == ino) then some l.1 else find_link links dev ino

-- `encodeHeader`, with the errors of `writeUInt32BE` and `writeBigUInt64BE`; the mode and the
-- payload length are always within their fields.
unfoldable pub checked_header : EntryHeader → Result Bytes
checked_header h =
    if ltb (length h.path) 4_294_967_296 && ltb h.mtime_ns 18_446_744_073_709_551_616
    then ok (encode_header h)
    else err (plain_error "The value is out of range")

-- To the nearest millisecond.
abbrev pub rounded_ns : ℕ → ℕ
rounded_ns ns = (ns + 500_000) / 1_000_000 * 1_000_000

-- The header of an entry, with its mode without the type bits.
abbrev pub header_for : Collected → (entry_type payload_length : ℕ) → EntryHeader
header_for e t n = record {
  path = e.path;
  entry_type = t;
  mode = e.stats.mode % 4096;
  mtime_ns = rounded_ns e.stats.mtime_ns;
  payload_length = n;
}

abbrev pub known_link : Collected → List ((ℕ × ℕ) × Bytes) → Option Bytes
known_link e links = if ltb 1 e.stats.nlink then find_link links e.stats.dev e.stats.ino else none

abbrev pub absolute : (root : AbsolutePath) → Collected → AbsolutePath
absolute root e = root ++ split slash e.path

-- Whether a link's target is relative and stays below the root.
abbrev pub is_inside : (root : AbsolutePath) → Collected → (target : Bytes) → Bool
is_inside root e target = not (
    starts_with (slash ∷ []) target
    || not (is_within root (resolve (dirname (absolute root e)) target)))

module _ (host : Host) where
  unfoldable pub perform : ExportCall → Exec Export (Unit {0})
  perform call s = (host.answer s.calls call, record s { calls = call ∷ s.calls })

  unfoldable pub read_bytes : ExportCall → Exec Export Bytes
  read_bytes call s = (host.bytes s.calls call, record s { calls = call ∷ s.calls })

  module _ (staging : AbsolutePath) where
    unfoldable pub append : (chunk : Bytes) → Exec Export (Unit {0})
    append chunk = do
      modify (λ s. record s { total = s.total + length chunk })
      total ← gets (λ s. s.total)
      guard (leb total max_tree_bytes)
          (throws ErrorCode.snapshot_limit "Snapshot exceeds total size limit")
      modify (λ s. record s { hashed = s.hashed ++ chunk })
      perform (change (write_file staging chunk))

    unfoldable pub append_header : EntryHeader → Exec Export (Unit {0})
    append_header h = do bytes ← lift (checked_header h); append bytes

    -- A header and its payload in one piece, as links have it.
    unfoldable pub append_link :
        Collected → (entry_type : ℕ) → (target : Bytes) → Exec Export (Unit {0})
    append_link e t target = do append_header (header_for e t (length target)); append target

    -- The archive under its digest, which may be there already.
    unfoldable pub install : (object_root : AbsolutePath) → Export → Exec Export CfsObject
    install object_root written = do
      let final_path = object_root ++ (codes "sha256" ∷ host.sha256 written.hashed ∷ [])
      perform close_output
      catch (perform (change (link staging final_path)))
          (λ e. if host.is_present e then pure tt else throw e)
      perform (change (remove staging))
      perform (change (change_mode final_path 256))
      pure (record {
        tree_digest = codes "sha256:" ++ host.sha256 written.hashed;
        path = final_path;
        size_bytes = written.total;
      })

    module _ (root : AbsolutePath) where
      unfoldable pub export_symlink : Collected → Exec Export (Unit {0})
      export_symlink e = do
        target ← read_bytes (read_link (absolute root e))
        guard (is_inside root e target) (unsupported "Symlink target escapes workspace")
        append_link e type_symlink target

      -- The loop that reads a file; where it stands comes back.
      unfoldable pub copy_chunks : Collected → (fuel : ℕ) → (offset : ℕ) → Exec Export ℕ
      copy_chunks e zero offset = pure offset
      copy_chunks e (suc fuel) offset =
          if ltb offset e.stats.size
          then read_bytes (read_input (absolute root e) (min 65_536 (e.stats.size - offset)) offset)
            >>= (λ chunk.
                if length chunk == 0
                then pure offset
                else append chunk >> copy_chunks e fuel (offset + length chunk))
          else pure offset

      unfoldable pub copy_file : Collected → Exec Export (Unit {0})
      copy_file e = do
        offset ← copy_chunks e e.stats.size 0
        guard (offset == e.stats.size)
            (throws ErrorCode.backend_error "File changed during snapshot")

      unfoldable pub remember_link : Collected → Exec Export (Unit {0})
      remember_link e s =
          if ltb 1 e.stats.nlink
          then (
            ok tt,
            record s { hard_links = ((e.stats.dev, e.stats.ino), e.path) ∷ s.hard_links },
          )
          else (ok tt, s)

      -- The input is closed behind the loop, whatever it came to.
      unfoldable pub export_content : Collected → Exec Export (Unit {0})
      export_content e = do
        remember_link e
        append_header (header_for e type_file e.stats.size)
        perform (open_input (absolute root e))
        copied ← attempt (copy_file e)
        perform (close_input (absolute root e))
        lift copied

      -- A collected path is not empty, so that a link that is found counts as one.
      unfoldable pub export_linked : Collected → Option Bytes → Exec Export (Unit {0})
      export_linked e none = export_content e
      export_linked e (some target) = append_link e type_hardlink target

      unfoldable pub export_file : Collected → Exec Export (Unit {0})
      export_file e = do
        guard (leb e.stats.size max_file_bytes)
            (throws ErrorCode.snapshot_limit "File exceeds size limit")
        links ← gets (λ s. s.hard_links)
        export_linked e (known_link e links)

      unfoldable pub export_kind : FileKind → Collected → Exec Export (Unit {0})
      export_kind FileKind.directory e = append_header (header_for e type_directory 0)
      export_kind FileKind.symbolic_link e = export_symlink e
      export_kind FileKind.file e = export_file e
      export_kind FileKind.other e = throw (unsupported "Unsupported entry")

      -- The body of the loop.
      unfoldable pub export_entry : Collected → Exec Export (Unit {0})
      export_entry e = do
        guard (not (is_set_id (e.stats.mode % 4096))) (unsupported "setuid/setgid entry rejected")
        export_kind e.stats.kind e

      unfoldable pub export_entries : List Collected → Exec Export (Unit {0})
      export_entries [] = pure tt
      export_entries (e ∷ es) = do export_entry e; export_entries es

      -- The body of `try`.
      unfoldable pub write_archive :
          (object_root : AbsolutePath) → (tree : Directory) → Exec Export CfsObject
      write_archive object_root tree = do
        append magic
        entries ← lift (collect_entries tree)
        export_entries entries
        perform sync_output
        written ← gets (λ s. s)
        install object_root written

abbrev pub staging_directory : (object_root : AbsolutePath) → AbsolutePath
staging_directory object_root = dirname (dirname object_root) ++ (codes "staging" ∷ [])

-- `uuid` is the name of the staging file, without its extension.
abbrev pub staging_path : (object_root : AbsolutePath) → (uuid : Bytes) → AbsolutePath
staging_path object_root uuid = staging_directory object_root ++ ((uuid ++ codes ".cfs") ∷ [])

-- `is_directory` is what `stat` says of the root, false where it fails.
unfoldable pub export_cfs :
    Host
    → (is_directory : Bool) → (root object_root : AbsolutePath) → (uuid : Bytes)
    → (tree : Directory) → Exec Export CfsObject
export_cfs host is_directory root object_root uuid tree = do
  let staging = staging_path object_root uuid
  guard is_directory (throws ErrorCode.invalid_argument "Workspace root does not exist")
  perform host (change (make_directory (object_root ++ (codes "sha256" ∷ [])) true 448))
  perform host (change (make_directory (staging_directory object_root) true 448))
  perform host (change (create_file staging 384))
  catch (write_archive host staging root object_root tree)
      (λ e. do attempt (perform host close_output); perform host (change (remove staging)); throw e)
