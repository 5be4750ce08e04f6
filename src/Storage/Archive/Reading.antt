-- ===== src/Storage/Archive/Reading.antt =====
-- What `readHeader` of src/storage/cfs.ts admits.
use electrosphere.Base.{
  ◌+◌, ◌≤◌, ◌≡◌, subst, ap, true, false, arith, length, take, drop, length-drop, ltb,
}
use electrosphere.Base.Bytes.{Bytes}
use electrosphere.Base.Exec.{ok}
use electrosphere.Base.Words.{read_u32_be}
use electrosphere.Storage.Archive.{
  EntryHeader, max_safe_integer, is_set_id, is_safe_path, validate_relative_path, check_header,
  read_header, header_of,
}

-- A header that is read has a safe path, no set-id bit, and a payload length that is exact.
abbrev pub Admitted : EntryHeader → Type 0
Admitted h =
    (is_safe_path h.path ≡ true)
    × (is_set_id h.mode ≡ false)
    × (h.payload_length ≤ max_safe_integer)

check_header-Admitted :
    (k h : EntryHeader) (fields rest : Bytes)
    → check_header k fields ≡ ok (h, rest)
    → (k ≡ h) × (fields ≡ rest) × Admitted k
unfolding check_header validate_relative_path
check_header-Admitted k h fields rest e = ground (arith, e)

read_header-checked :
    (utf8 : Bytes → Bytes) (bytes : Bytes) (h : EntryHeader) (rest : Bytes)
    → read_header utf8 bytes ≡ ok (h, rest)
    → (ltb (length bytes) 4 ≡ false)
      × (ltb (length (drop 4 bytes)) (read_u32_be bytes + 21) ≡ false)
      × (check_header
            (header_of
              (utf8 (take (read_u32_be bytes) (drop 4 bytes)))
              (drop (read_u32_be bytes) (drop 4 bytes)))
            (drop 21 (drop (read_u32_be bytes) (drop 4 bytes)))
          ≡ ok (h, rest))
unfolding read_header
read_header-checked utf8 bytes h rest e = ground (arith, e)

pub read_header-Admitted :
    (utf8 : Bytes → Bytes) (bytes : Bytes) (h : EntryHeader) (rest : Bytes)
    → read_header utf8 bytes ≡ ok (h, rest)
    → Admitted h × (length rest + 25 ≤ length bytes)
read_header-Admitted utf8 bytes h rest e =
    let (long, enough, checked) = read_header-checked utf8 bytes h rest e in
    let fields = drop (read_u32_be bytes) (drop 4 bytes) in
    let (same, left, admitted) = check_header-Admitted _ h _ rest checked in
    (
      subst Admitted same admitted,
      let a = length-drop 4 bytes in
          let b = length-drop (read_u32_be bytes) (drop 4 bytes) in
          let c = length-drop 21 fields in
          let d : length (drop 21 fields) ≡ length rest = ap length left in
          ground (arith, a, b, c, d, long, enough),
    )
