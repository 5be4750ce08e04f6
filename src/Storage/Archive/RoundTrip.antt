-- ===== src/Storage/Archive/RoundTrip.antt =====
-- What is written by `encodeHeader` of src/storage/cfs.ts is read back by `readHeader`.
use electrosphere.Base.{
  ◌+◌, ◌%◌, ◌<◌, ◌≤◌, ◌≡◌, refl, ap, ◌∙◌, true, false, [], ◌∷◌, ◌++◌, arith, length, take, drop,
  ltb, append_assoc, length-append,
}
use electrosphere.Base.Bytes.{Bytes}
use electrosphere.Base.Exec.{ok}
use electrosphere.Base.Words.{
  u32_be, read_u32_be, read_u32_be-u32_be, u64_be, read_u64_be, read_u64_be-u64_be,
}
use electrosphere.Storage.Archive.{
  EntryHeader, max_safe_integer, is_set_id, is_safe_path, validate_relative_path, encode_header,
  check_header, read_header, header_of,
}

pub take-append : (xs ys : Bytes) → take (length xs) (xs ++ ys) ≡ xs
take-append [] ys = refl
take-append (x ∷ xs) ys = ap (◌∷◌ x) (take-append xs ys)

pub drop-append : (xs ys : Bytes) → drop (length xs) (xs ++ ys) ≡ ys
drop-append [] ys = refl
drop-append (x ∷ xs) ys = drop-append xs ys

abbrev fields_of : EntryHeader → Bytes → Bytes
fields_of h rest =
    (h.entry_type % 256)
    ∷ (u32_be h.mode ++ (u64_be h.mtime_ns ++ (u64_be h.payload_length ++ rest)))

abbrev fields_of_end : EntryHeader → Bytes
fields_of_end h =
    (h.entry_type % 256) ∷ (u32_be h.mode ++ (u64_be h.mtime_ns ++ u64_be h.payload_length))

encode_header-fields :
    (h : EntryHeader) (rest : Bytes)
    → encode_header h ++ rest ≡ u32_be (length h.path) ++ (h.path ++ fields_of h rest)
unfolding encode_header
encode_header-fields h rest =
    ap (λ b. u32_be (length h.path) ++ b) (append_assoc h.path (fields_of_end h) rest)

-- A header that an export can write: its numbers have the widths of their fields.
abbrev pub Fits : EntryHeader → Type 0
Fits h =
    (length h.path < 4_294_967_296)
    × (h.entry_type < 256)
    × (h.mode < 4_294_967_296)
    × (h.mtime_ns < 18_446_744_073_709_551_616)
    × (h.payload_length ≤ max_safe_integer)

header_of-fields :
    (h : EntryHeader) (rest : Bytes) → Fits h → header_of h.path (fields_of h rest) ≡ h
unfolding read_u32_be read_u64_be
header_of-fields h rest fits =
    let small : h.entry_type % 256 ≡ h.entry_type = omega (arith, fits.1) in
    let mode : read_u32_be (drop 1 (fields_of h rest)) ≡ h.mode =
      read_u32_be-u32_be h.mode (u64_be h.mtime_ns ++ (u64_be h.payload_length ++ rest)) fits.2 in
    let mtime : read_u64_be (drop 5 (fields_of h rest)) ≡ h.mtime_ns =
      read_u64_be-u64_be h.mtime_ns (u64_be h.payload_length ++ rest) fits.3 in
    let payload : read_u64_be (drop 13 (fields_of h rest)) ≡ h.payload_length =
      read_u64_be-u64_be h.payload_length rest (omega (arith, fits.4)) in
    rw (small, mode, mtime, payload) refl

read_header-parts :
    (utf8 : Bytes → Bytes) (path fields : Bytes)
    → length path < 4_294_967_296
    → 21 ≤ length fields
    → read_header utf8 (u32_be (length path) ++ (path ++ fields))
      ≡ check_header (header_of (utf8 path) fields) (drop 21 fields)
unfolding read_header
read_header-parts utf8 path fields small long =
    let size = read_u32_be-u32_be (length path) (path ++ fields) small in
    let whole : ltb (length (u32_be (length path) ++ (path ++ fields))) 4 ≡ false = ground arith in
    let enough : ltb (length (path ++ fields)) (length path + 21) ≡ false =
      ground (arith, length-append path fields, long) in
    rw (size, whole, enough, drop-append path fields, take-append path fields) refl

check_header_good :
    (h : EntryHeader) (rest : Bytes)
    → h.payload_length ≤ max_safe_integer
    → is_safe_path h.path ≡ true
    → is_set_id h.mode ≡ false
    → check_header h rest ≡ ok (h, rest)
unfolding check_header validate_relative_path
check_header_good h rest fits safe plain = ground (arith, fits, safe, plain)

-- For a header whose numbers fit their fields, whose path is safe and stays as it is when its
-- UTF-8 bytes are decoded, and whose mode has no set-id bit, reading what `encodeHeader` wrote
-- gives the header back, and the bytes behind it.
pub read_header-encode_header :
    (utf8 : Bytes → Bytes) (h : EntryHeader) (rest : Bytes)
    → Fits h
    → utf8 h.path ≡ h.path
    → is_safe_path h.path ≡ true
    → is_set_id h.mode ≡ false
    → read_header utf8 (encode_header h ++ rest) ≡ ok (h, rest)
read_header-encode_header utf8 h rest fits decoded safe plain =
    let fields = fields_of h rest in
    ap (read_header utf8) (encode_header-fields h rest)
    ∙ read_header-parts utf8 h.path fields fits.0 (omega arith)
    ∙ ap (λ path. check_header (header_of path fields) rest) decoded
    ∙ ap (λ k. check_header k rest) (header_of-fields h rest fits)
    ∙ check_header_good h rest fits.4 safe plain
