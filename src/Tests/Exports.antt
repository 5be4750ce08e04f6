-- ===== src/Tests/Exports.antt =====
-- The theorems on exports at concrete inputs.
use electrosphere.Base.{◌≡◌, ◌≢◌, refl, true, false, List, [], ◌∷◌, ◌++◌, arith, codes}
use electrosphere.Base.Bytes.{Bytes, bytes_eq_iff}
use electrosphere.Base.Exec.{ok}
use electrosphere.Base.Paths.{AbsolutePath, is_unsafe_part}
use electrosphere.Storage.Archive.{is_safe_path, validate_relative_path, encode_header}
use electrosphere.Storage.Archive.Extract.{Disk, Extraction, extract_cfs}
use electrosphere.Storage.Archive.Rounds.{Entry}
use electrosphere.Storage.Export.Tree.{
  FileKind, Stats, Directory, readable, nothing, name_of, Collected, bytes_leb, insert_name,
  sort_directory, relative_path, walk_name, walk, insert_entry, sort_entries, collect,
  collect_entries,
}
use electrosphere.Storage.Export.Texts.{AreTexts, SplitsAtSlash}
use electrosphere.Storage.Export.Order.{SameDirectory, read, swap, collect-same}
use electrosphere.Storage.Export.Archived.{written}
use electrosphere.Storage.Export.Writing.{
  Host, Export, CfsObject, unwritten, checked_header, perform, read_bytes, append, append_header,
  copy_chunks, copy_file, remember_link, export_content, export_linked, export_file, export_kind,
  export_entry, export_entries, install, write_archive, export_cfs,
}
use electrosphere.Storage.Export.Whole.{AllDescribed, IsArchive, export_cfs-IsArchive}
use electrosphere.Storage.Export.RoundTrip.{place_all, extract_cfs-export_cfs}

-- A decoder of ASCII.
abbrev utf8 : Bytes → Bytes
utf8 bytes = bytes

-- Calls succeed, and every file has two bytes.
abbrev host : Host
host = record {
  answer = λ calls call. ok tt;
  bytes = λ calls call. ok (7 ∷ 9 ∷ []);
  is_present = λ e. false;
  sha256 = λ bytes. codes "00";
}

abbrev file_stats : Stats
file_stats = record {
  kind = FileKind.file;
  mode = 33_188;
  mtime_ns = 1_700_000_000_000_400_000;
  size = 2;
  nlink = 1;
  dev = 1;
  ino = 12;
}

abbrev directory_stats : Stats
directory_stats = record file_stats { kind = FileKind.directory; mode = 16_877 }

abbrev inner : Directory
inner = readable (name_of (codes "x") (ok file_stats) (readable nothing) nothing)

abbrev tree : Directory
tree = readable (
    name_of (codes "b") (ok file_stats) (readable nothing)
      (name_of (codes "a") (ok directory_stats) inner nothing))

abbrev same_tree : Directory
same_tree = readable (
    name_of (codes "a") (ok directory_stats) inner
      (name_of (codes "b") (ok file_stats) (readable nothing) nothing))

abbrev root : AbsolutePath
root = codes "work" ∷ []

abbrev object_root : AbsolutePath
object_root = codes "data" ∷ codes "objects" ∷ codes "trees" ∷ []

abbrev object : CfsObject
object = record {
  tree_digest = codes "sha256:00";
  path = object_root ++ (codes "sha256" ∷ codes "00" ∷ []);
  size_bytes = 91;
}

abbrev after : Export
after = (export_cfs host true root object_root (codes "u") tree unwritten).1

exported : export_cfs host true root object_root (codes "u") tree unwritten ≡ (ok object, after)
unfolding export_cfs write_archive export_entries export_entry export_kind export_file export_linked
    export_content copy_file copy_chunks remember_link append_header append perform read_bytes
    checked_header install encode_header collect sort_directory walk walk_name insert_name bytes_leb
    relative_path validate_relative_path is_safe_path is_unsafe_part sort_entries insert_entry
exported = refl

splits : SplitsAtSlash utf8
splits a b = refl

texts : AreTexts utf8 tree
unfolding AreTexts
texts = (refl, tt, (refl, (refl, tt, tt), tt))

export_cfs-IsArchive_example :
    (es : List Collected) × ((collect_entries tree ≡ ok es)
      × ((ps : List Entry) × IsArchive host.sha256 utf8 es object (written after.calls) ps))
export_cfs-IsArchive_example =
    export_cfs-IsArchive host utf8 root object_root (codes "u") tree true object after splits refl
      texts exported

extract_cfs-export_cfs_example :
    (ps : List Entry) × ((es : List Collected) × ((collect_entries tree ≡ ok es)
        × AllDescribed utf8 es ps
        × ((disk : Disk) (staging destination : AbsolutePath) (x : Extraction)
            → extract_cfs disk utf8 staging destination (written after.calls) x
              ≡ place_all disk utf8 staging destination ps x)))
extract_cfs-export_cfs_example =
    extract_cfs-export_cfs host utf8 root object_root (codes "u") tree true object after splits refl
      texts exported

names_differ : codes "b" ≢ codes "a"
names_differ e = ground (arith, bytes_eq_iff (codes "b") (codes "a"), e)

swapped : SameDirectory tree same_tree
swapped = read _ _ (
    swap (codes "b") (codes "a") (ok file_stats) (ok directory_stats) (readable nothing) inner
      nothing names_differ)

collect-same_example :
    collect validate_relative_path tree ≡ collect validate_relative_path same_tree
collect-same_example = collect-same validate_relative_path tree same_tree swapped
