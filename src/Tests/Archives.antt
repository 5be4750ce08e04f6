-- ===== src/Tests/Archives.antt =====
-- The theorems on archives at concrete inputs.
use electrosphere.Base.{◌≡◌, refl, true, All, List, [], ◌∷◌, ◌++◌, arith, codes, length}
use electrosphere.Base.Bytes.{Bytes}
use electrosphere.Base.Exec.{ok}
use electrosphere.Base.Paths.{AbsolutePath, is_unsafe_part}
use electrosphere.Storage.Archive.{EntryHeader, is_safe_path, encode_header, read_header}
use electrosphere.Storage.Archive.RoundTrip.{Fits, read_header-encode_header}
use electrosphere.Storage.Archive.Extract.{Disk, nothing_done, magic, extract_entries, extract_cfs}
use electrosphere.Storage.Archive.Rounds.{
  Entry, IsEntry, entry_bytes, place_entries, extract_entries-fuel, extract_entries-entry_bytes,
}
use electrosphere.Storage.Archive.Confined.{IsConfined}
use electrosphere.Storage.Archive.Confined.Linked.{Unlinked}
use electrosphere.Storage.Archive.Confined.Whole.{extract_cfs-IsConfined}

-- A decoder of ASCII.
abbrev utf8 : Bytes → Bytes
utf8 bytes = bytes

-- A file system that takes every call.
abbrev disk : Disk
disk earlier call = ok tt

abbrev header : EntryHeader
header = record {
  path = codes "a/b";
  entry_type = 2;
  mode = 420;
  mtime_ns = 1_700_000_000_000_000_000;
  payload_length = 2;
}

abbrev entries : List Entry
entries = (header, 7 ∷ 9 ∷ []) ∷ []

header-Fits : Fits header
header-Fits = (omega arith, omega arith, omega arith, omega arith, omega arith)

safe : is_safe_path (codes "a/b") ≡ true
unfolding is_safe_path is_unsafe_part
safe = refl

read_header-encode_header_example :
    read_header utf8 (encode_header header ++ (7 ∷ [])) ≡ ok (header, 7 ∷ [])
read_header-encode_header_example =
    read_header-encode_header utf8 header (7 ∷ []) header-Fits refl safe refl

extract_entries-fuel_example :
    extract_entries disk [] utf8 9 (1 ∷ 2 ∷ []) nothing_done
    ≡ extract_entries disk [] utf8 2 (1 ∷ 2 ∷ []) nothing_done
extract_entries-fuel_example =
    extract_entries-fuel disk [] utf8 9 (1 ∷ 2 ∷ []) nothing_done (omega arith)

are_entries : All (IsEntry utf8) entries
are_entries = ((header-Fits, refl, safe, refl, refl), tt)

extract_entries-entry_bytes_example :
    extract_entries disk [] utf8 (length (entry_bytes entries)) (entry_bytes entries) nothing_done
    ≡ place_entries disk [] utf8 entries nothing_done
extract_entries-entry_bytes_example =
    extract_entries-entry_bytes disk [] utf8 entries nothing_done are_entries

abbrev staging : AbsolutePath
staging = codes "s" ∷ codes ".staging" ∷ []

abbrev destination : AbsolutePath
destination = codes "s" ∷ codes "workspace" ∷ []

extract_cfs-IsConfined_example :
    IsConfined staging destination
      (extract_cfs disk utf8 staging destination
        (magic ++ entry_bytes entries)
        nothing_done).1.calls
    × Unlinked
        (extract_cfs disk utf8 staging destination
          (magic ++ entry_bytes entries)
          nothing_done).1.entry_types
extract_cfs-IsConfined_example =
    extract_cfs-IsConfined disk staging destination utf8 (magic ++ entry_bytes entries)
