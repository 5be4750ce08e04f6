-- ===== src/Storage/Archive/Extract.antt =====
-- src/storage/cfs.ts: `extractCfs`. The calls of the file system are recorded, the latest first;
-- `disk` is how it answers a call after the calls before it. What is left of the archive stands
-- for the offset.
use electrosphere.Base.{
  ℕ, zero, suc, ◌%◌, String, Bool, true, false, not, ◌||◌, Option, none, some, List, [], ◌∷◌, ◌++◌,
  length, take, drop, leb, ◌==◌, if◌then◌else◌,
}
use electrosphere.Base.Bytes.{Bytes, bytes_eq, includes, starts_with, split}
use electrosphere.Base.Exec.{
  Result, ok, err, Exec, pure, throw, gets, lift, catch, modify, guard, ◌>>=◌, ◌>>◌,
}
use electrosphere.Base.Paths.{AbsolutePath, slash, dirname, resolve, is_within}
use electrosphere.Domain.Errors.{ErrorCode, Thrown, throws}
use electrosphere.Storage.Archive.{EntryHeader, read_header, validate_relative_path}

-- The calls of the file system. A file is opened to be created and is written, synchronised and
-- closed; times are in nanoseconds, where the code passes the quotient in seconds.
pub data DiskCall : Type 0 where
  make_directory : AbsolutePath → (recursive : Bool) → (mode : ℕ) → DiskCall
  create_file : AbsolutePath → (mode : ℕ) → DiskCall
  write_file : AbsolutePath → Bytes → DiskCall
  symlink : (target : Bytes) → AbsolutePath → DiskCall
  link : (target : AbsolutePath) → AbsolutePath → DiskCall
  change_mode : AbsolutePath → (mode : ℕ) → DiskCall
  set_times : AbsolutePath → ℕ → DiskCall
  set_link_times : AbsolutePath → ℕ → DiskCall
  remove : AbsolutePath → DiskCall
  rename : AbsolutePath → AbsolutePath → DiskCall

abbrev pub Disk : Type 0
Disk = List DiskCall → DiskCall → Result (Unit {0})

-- `entry_types` is a map, the latest key first; `directory_times` has the latest first, the order
-- in which they are set.
pub record Extraction : Type 0 where
  pub entry_types : List (Bytes × ℕ)
  pub directory_times : List (AbsolutePath × ℕ)
  pub calls : List DiskCall

abbrev pub nothing_done : Extraction
nothing_done = record { entry_types = []; directory_times = []; calls = [] }

abbrev pub type_directory : ℕ
type_directory = 1

abbrev pub type_file : ℕ
type_file = 2

abbrev pub type_symlink : ℕ
type_symlink = 3

abbrev pub type_hardlink : ℕ
type_hardlink = 4

unfoldable pub type_of : List (Bytes × ℕ) → Bytes → Option ℕ
type_of [] path = none
type_of (e ∷ types) path = if bytes_eq e.0 path then some e.1 else type_of types path

unfoldable pub has_type : List (Bytes × ℕ) → Bytes → ℕ → Bool
has_type types path t = elim (type_of types path) [ none ↦ false | some u ↦ u == t ]

abbrev pub below : (ancestor : Bytes) → (part : Bytes) → Bytes
below ancestor part = if length ancestor == 0 then part else ancestor ++ (slash ∷ part)

-- Whether a part before the last names a symbolic link, from the ancestor on.
abbrev pub traverses_symlink : List (Bytes × ℕ) → (ancestor : Bytes) → List Bytes → Bool
traverses_symlink types ancestor [] = false
traverses_symlink types ancestor (part ∷ []) = false
traverses_symlink types ancestor (part ∷ next ∷ parts) =
    has_type types (below ancestor part) type_symlink
    || traverses_symlink types (below ancestor part) (next ∷ parts)

abbrev pub unsupported : String → Thrown
unsupported m = throws ErrorCode.snapshot_unsupported_entry m

unfoldable pub assert_no_symlink_ancestor : Bytes → Exec Extraction (Unit {0})
assert_no_symlink_ancestor path s =
    if traverses_symlink s.entry_types [] (split slash path)
    then (err (unsupported "CFS path traverses symlink"), s)
    else (ok tt, s)

unfoldable pub safe_destination : (root : AbsolutePath) → Bytes → Result AbsolutePath
safe_destination root path =
    if is_within root (resolve root path)
    then ok (resolve root path)
    else err (unsupported "CFS path escapes workspace")

module _ (disk : Disk) where
  unfoldable pub perform : DiskCall → Exec Extraction (Unit {0})
  perform call s = (disk s.calls call, record s { calls = call ∷ s.calls })

  module _ (staging : AbsolutePath) where
    -- `chmod` and, but for a directory, `utimes`.
    unfoldable pub finish_entry : EntryHeader → AbsolutePath → Exec Extraction (Unit {0})
    finish_entry h output = do
      perform (change_mode output (h.mode % 512))
      if h.entry_type == type_directory then pure tt else perform (set_times output h.mtime_ns)

    unfoldable pub place_directory : EntryHeader → AbsolutePath → Exec Extraction (Unit {0})
    place_directory h output = do
      perform (make_directory output false (h.mode % 512))
      modify (λ s. record s { directory_times = (output, h.mtime_ns) ∷ s.directory_times })
      finish_entry h output

    unfoldable pub place_file :
        EntryHeader → (payload : Bytes) → AbsolutePath → Exec Extraction (Unit {0})
    place_file h payload output = do
      perform (create_file output (h.mode % 512))
      perform (write_file output payload)
      finish_entry h output

    unfoldable pub place_symlink :
        EntryHeader → (target : Bytes) → AbsolutePath → Exec Extraction (Unit {0})
    place_symlink h target output = do
      guard (not (includes 0 target || starts_with (slash ∷ []) target))
          (unsupported "Unsafe symlink target")
      guard (is_within staging (resolve (dirname output) target))
          (unsupported "Symlink target escapes workspace")
      perform (symlink target output)
      perform (set_link_times output h.mtime_ns)

    unfoldable pub link_prior :
        (types : List (Bytes × ℕ))
        → EntryHeader
        → (target : Bytes) → AbsolutePath
        → Exec Extraction (Unit {0})
    link_prior types h target output = do
      guard (has_type types target type_file)
          (unsupported "Hard-link target is not a prior regular file")
      source ← lift (safe_destination staging target)
      perform (link source output)
      finish_entry h output

    -- The target is the path of an entry, not of the file system.
    unfoldable pub place_hardlink :
        EntryHeader → (target : Bytes) → AbsolutePath → Exec Extraction (Unit {0})
    place_hardlink h target output = do
      lift (validate_relative_path target)
      types ← gets (λ s. s.entry_types)
      link_prior types h target output

    -- `utf8` decodes the payload of a link.
    unfoldable pub place_node :
        (utf8 : Bytes → Bytes)
        → EntryHeader
        → (payload : Bytes) → AbsolutePath
        → Exec Extraction (Unit {0})
    place_node utf8 h payload output =
        if h.entry_type == type_directory
        then place_directory h output
        else if h.entry_type == type_file
        then place_file h payload output
        else if h.entry_type == type_symlink
        then place_symlink h (utf8 payload) output
        else if h.entry_type == type_hardlink
        then place_hardlink h (utf8 payload) output
        else throw (unsupported "Unsupported CFS entry type")

    -- The round of the loop behind the decoding of the entry.
    unfoldable pub place_entry :
        (utf8 : Bytes → Bytes) → EntryHeader → (payload : Bytes) → Exec Extraction (Unit {0})
    place_entry utf8 h payload = do
      assert_no_symlink_ancestor h.path
      output ← lift (safe_destination staging h.path)
      perform (make_directory (dirname output) true 448)
      place_node utf8 h payload output
      modify (λ s. record s { entry_types = (h.path, h.entry_type) ∷ s.entry_types })

    unfoldable pub extract_payload :
        (utf8 : Bytes → Bytes) → EntryHeader → (rest : Bytes) → Exec Extraction Bytes
    extract_payload utf8 h rest = do
      guard (leb h.payload_length (length rest))
          (throws ErrorCode.backend_error "Truncated CFS payload")
      place_entry utf8 h (take h.payload_length rest)
      pure (drop h.payload_length rest)

    -- A round of the loop on the bytes that are left; what it leaves comes back.
    unfoldable pub extract_entry : (utf8 : Bytes → Bytes) → Bytes → Exec Extraction Bytes
    extract_entry utf8 bytes = do
      (h, rest) ← lift (read_header utf8 bytes)
      extract_payload utf8 h rest

    unfoldable pub extract_entries :
        (utf8 : Bytes → Bytes) → (fuel : ℕ) → Bytes → Exec Extraction (Unit {0})
    extract_entries utf8 zero bytes = pure tt
    extract_entries utf8 (suc fuel) bytes =
        if length bytes == 0
        then pure tt
        else extract_entry utf8 bytes >>= λ rest. extract_entries utf8 fuel rest

    unfoldable pub set_directory_times : List (AbsolutePath × ℕ) → Exec Extraction (Unit {0})
    set_directory_times [] = pure tt
    set_directory_times (d ∷ times) = do perform (set_times d.0 d.1); set_directory_times times

    -- The body of `try`: the entries, the times of the directories, and the exchange.
    unfoldable pub extract_into :
        (utf8 : Bytes → Bytes) → (destination : AbsolutePath) → Bytes → Exec Extraction (Unit {0})
    extract_into utf8 destination entries = do
      extract_entries utf8 (length entries) entries
      times ← gets (λ s. s.directory_times)
      set_directory_times times
      perform (remove destination)
      perform (rename staging destination)

-- The bytes of `CFS-v1` and a zero.
abbrev pub magic : Bytes
magic = 67 ∷ 70 ∷ 83 ∷ 45 ∷ 118 ∷ 49 ∷ 0 ∷ []

-- `extractCfs` of the archive's bytes. `staging` is the fresh directory beside the destination.
unfoldable pub extract_cfs :
    Disk
    → (utf8 : Bytes → Bytes) → (staging destination : AbsolutePath) → Bytes
    → Exec Extraction (Unit {0})
extract_cfs disk utf8 staging destination bytes = do
  guard (bytes_eq (take 7 bytes) magic) (throws ErrorCode.backend_error "Invalid CFS magic")
  perform disk (make_directory staging false 448)
  catch (extract_into disk staging utf8 destination (drop 7 bytes))
      (λ e. do perform disk (remove staging); throw e)
