-- ===== src/Storage/Archive.antt =====
-- src/storage/cfs.ts: `validateRelativePath`, `encodeHeader` and `readHeader`. What is read starts
-- at the offset, so the bytes behind it come back in place of the next offset. The text of a path
-- is its UTF-8 bytes, and `utf8` is `toString('utf8')` of bytes, which replaces ill-formed
-- sequences.
pub mod RoundTrip
pub mod Reading
pub mod Rounds
pub mod Confined
pub mod Extract
use electrosphere.Base.{
  ℕ, ◌+◌, ◌/◌, ◌%◌, ◌<◌, ◌≤◌, ◌≡◌, refl, sym, ◌∙◌, Bool, true, false, not, ◌||◌, List, [], ◌∷◌,
  ◌++◌, arith, any, length, take, drop, ltb, lt→ltb, ltb→lt, ◌==◌, if◌then◌else◌, Bool-cases, inl,
  inr, append_assoc,
}
use electrosphere.Base.Bytes.{Bytes, includes, starts_with, split}
use electrosphere.Base.Exec.{Result, ok, err}
use electrosphere.Base.Paths.{slash, is_unsafe_part}
use electrosphere.Base.Words.{
  u32_be, read_u32_be, read_u32_be-u32_be, u64_be, read_u64_be, read_u64_be-u64_be,
}
use electrosphere.Domain.Errors.{ErrorCode, throws}

pub record EntryHeader : Type 0 where
  pub path : Bytes
  pub entry_type : ℕ
  pub mode : ℕ
  pub mtime_ns : ℕ
  pub payload_length : ℕ

-- `Number.MAX_SAFE_INTEGER`.
abbrev pub max_safe_integer : ℕ
max_safe_integer = 9_007_199_254_740_991

-- `(mode & 0o6000) !== 0`: the bits 10 and 11.
abbrev pub is_set_id : ℕ → Bool
is_set_id mode = not (mode / 1024 % 4 == 0)

unfoldable pub is_safe_path : Bytes → Bool
is_safe_path path = not (
    length path == 0
    || includes 0 path
    || starts_with (slash ∷ []) path
    || any is_unsafe_part (split slash path))

unfoldable pub validate_relative_path : Bytes → Result (Unit {0})
validate_relative_path path =
    if is_safe_path path
    then ok tt
    else err (throws ErrorCode.snapshot_unsupported_entry "Unsafe snapshot path")

-- `Buffer.from([type])` keeps the low byte. `writeUInt32BE` and `writeBigUInt64BE` throw outside
-- their ranges; a path and a mode that the file system gives are within them.
unfoldable pub encode_header : EntryHeader → Bytes
encode_header h =
    u32_be (length h.path)
    ++ (h.path
        ++ ((h.entry_type % 256)
            ∷ (u32_be h.mode ++ (u64_be h.mtime_ns ++ u64_be h.payload_length))))

-- `buffer[offset] ?? 0`.
abbrev first_byte : Bytes → ℕ
first_byte [] = 0
first_byte (b ∷ bytes) = b

-- The fields behind the path.
abbrev header_of : (path : Bytes) → (fields : Bytes) → EntryHeader
header_of path fields = record {
  path = path;
  entry_type = first_byte fields;
  mode = read_u32_be (drop 1 fields);
  mtime_ns = read_u64_be (drop 5 fields);
  payload_length = read_u64_be (drop 13 fields);
}

unfoldable pub check_header : EntryHeader → (rest : Bytes) → Result (EntryHeader × Bytes)
check_header h rest =
    if ltb max_safe_integer h.payload_length
    then err (throws ErrorCode.snapshot_limit "CFS payload is too large")
    else if is_set_id h.mode
    then err (throws ErrorCode.snapshot_unsupported_entry "setuid/setgid entry rejected")
    else elim (validate_relative_path h.path) [ ok _ ↦ ok (h, rest) | err e ↦ err e ]

unfoldable pub read_header : (utf8 : Bytes → Bytes) → Bytes → Result (EntryHeader × Bytes)
read_header utf8 bytes =
    let path_length = read_u32_be bytes in
    let fields = drop path_length (drop 4 bytes) in
    if ltb (length bytes) 4
    then err (throws ErrorCode.backend_error "Truncated CFS path length")
    else if ltb (length (drop 4 bytes)) (path_length + 21)
    then err (throws ErrorCode.backend_error "Truncated CFS entry")
    else check_header (header_of (utf8 (take path_length (drop 4 bytes))) fields) (drop 21 fields)
