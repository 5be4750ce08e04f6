-- ===== src/Storage/Archive/Confined/Whole.antt =====
-- The entries, and `extractCfs` of src/storage/cfs.ts as a whole.
use electrosphere.Base.{
  ℕ, zero, suc, ◌≡◌, refl, true, false, ◌||◌, List, [], ◌∷◌, arith, All, take, drop, length, leb,
  ◌==◌, Bool-cases, inl, inr,
}
use electrosphere.Base.Bytes.{Bytes, bytes_eq}
use electrosphere.Base.Exec.{Result-cases}
use electrosphere.Base.Exec.Triple.{
  Keeps, Keeps-bind, Keeps-pure, Keeps-throw, Keeps-catch, Triple-state,
}
use electrosphere.Base.Paths.{AbsolutePath, is_within, is_within_refl}
use electrosphere.Storage.Archive.{EntryHeader, is_safe_path, read_header}
use electrosphere.Storage.Archive.Reading.{read_header-Admitted}
use electrosphere.Storage.Archive.Extract.{
  make_directory, set_times, remove, rename, Disk, Extraction, nothing_done, has_type, type_of,
  magic, perform, extract_payload, extract_entry, extract_entries, set_directory_times,
  extract_into, extract_cfs,
}
use electrosphere.Storage.Archive.Confined.Linked.{Unlinked, extract_cfs-Noted}
use electrosphere.Storage.Archive.Confined.{
  Allowed, IsConfined, Safe, Safe-perform, place_entry-Safe, path_eq, path_eq_refl,
}

module _ (disk : Disk) (staging destination : AbsolutePath) (utf8 : Bytes → Bytes) where
  abbrev Ok : Extraction → Type 0
  Ok s = Safe disk staging destination s

  extract_payload-Safe :
      (h : EntryHeader) (rest : Bytes)
      → is_safe_path h.path ≡ true
      → Keeps Ok (extract_payload disk staging utf8 h rest)
  unfolding extract_payload
  extract_payload-Safe h rest safe = elim (Bool-cases (leb h.payload_length (length rest))) [
    | inl enough ↦ rw enough (
        Keeps-bind _ _
          (place_entry-Safe disk staging destination utf8 h (take h.payload_length rest) safe)
          λ _. Keeps-pure (drop h.payload_length rest))
    | inr short ↦ rw short (Keeps-throw _)
  ]

  extract_entry-Safe : (bytes : Bytes) → Keeps Ok (extract_entry disk staging utf8 bytes)
  unfolding extract_entry
  extract_entry-Safe bytes = elim (Result-cases (read_header utf8 bytes)) [
    | inl ((h, rest), e) ↦
        rw e (extract_payload-Safe h rest (read_header-Admitted utf8 bytes h rest e).0.0)
    | inr (x, e) ↦ rw e (Keeps-throw x)
  ]

  extract_entries-Safe :
      (fuel : ℕ) (bytes : Bytes) → Keeps Ok (extract_entries disk staging utf8 fuel bytes)
  unfolding extract_entries
  extract_entries-Safe zero bytes = Keeps-pure tt
  extract_entries-Safe (suc fuel) bytes = elim (Bool-cases (length bytes == 0)) [
    | inl e ↦ rw e (Keeps-pure tt)
    | inr e ↦
        rw e (Keeps-bind _ _ (extract_entry-Safe bytes) λ rest. extract_entries-Safe fuel rest)
  ]

  set_directory_times-Safe :
      (times : List (AbsolutePath × ℕ))
      → All (λ d. is_within staging d.0 ≡ true) times
      → Keeps Ok (set_directory_times disk staging times)
  unfolding set_directory_times Allowed
  set_directory_times-Safe [] inside = Keeps-pure tt
  set_directory_times-Safe (d ∷ times) inside =
      Keeps-bind _ _ (Safe-perform disk staging destination (set_times d.0 d.1) (λ s _. inside.0))
        λ _. set_directory_times-Safe times inside.1

  remove-Safe :
      (p : AbsolutePath)
      → (path_eq p staging || path_eq p destination) ≡ true
      → Keeps Ok (perform disk (remove p))
  unfolding Allowed
  remove-Safe p known = Safe-perform disk staging destination (remove p) (λ s _. known)

  exchange-Safe : Keeps Ok (perform disk (rename staging destination))
  unfolding Allowed
  exchange-Safe =
      Safe-perform disk staging destination (rename staging destination)
        (λ s _. (path_eq_refl staging, path_eq_refl destination))

  extract_into-Safe :
      (entries : Bytes) → Keeps Ok (extract_into disk staging utf8 destination entries)
  unfolding extract_into
  extract_into-Safe entries = Keeps-bind _ _ (extract_entries-Safe (length entries) entries) λ _.
      record {
        at = λ s safe.
            (Keeps-bind _ _ (set_directory_times-Safe s.directory_times safe.inside) λ _.
                Keeps-bind _ _ (remove-Safe destination (ground (arith, path_eq_refl destination)))
                  λ _. exchange-Safe).at
              s safe;
      }

  extract_cfs-Safe : (bytes : Bytes) → Keeps Ok (extract_cfs disk utf8 staging destination bytes)
  unfolding extract_cfs Allowed
  extract_cfs-Safe bytes = elim (Bool-cases (bytes_eq (take 7 bytes) magic)) [
    | inl e ↦ rw e (
        Keeps-bind _ _
          (Safe-perform disk staging destination (make_directory staging false 448)
            (λ s _. is_within_refl staging))
          λ _. Keeps-catch _ _ (extract_into-Safe (drop 7 bytes)) λ e.
            Keeps-bind _ _ (remove-Safe staging (rw (path_eq_refl staging) refl))
              λ _. Keeps-throw e)
    | inr e ↦ rw e (Keeps-throw _)
  ]

-- Whatever bytes are extracted and however the file system answers, each call that an extraction
-- makes is allowed: until the exchange it touches only paths whose text is within the staging
-- directory, the text of a symbolic link that it makes, read from the link's own directory, leads to
-- within that directory, a hard link that it makes is to a regular file that it created before, it
-- removes nothing but the staging directory and the destination, and it renames nothing but the one
-- to the other. And no entry that it notes as placed stands below one that it noted before as a
-- symbolic link. Where a link's text leads through another link, nothing is said of where the file
-- system ends up.
pub extract_cfs-IsConfined :
    (disk : Disk) (staging destination : AbsolutePath) (utf8 : Bytes → Bytes) (bytes : Bytes)
    → IsConfined staging destination
        (extract_cfs disk utf8 staging destination bytes nothing_done).1.calls
      × Unlinked (extract_cfs disk utf8 staging destination bytes nothing_done).1.entry_types
unfolding has_type type_of IsConfined Unlinked
extract_cfs-IsConfined disk staging destination utf8 bytes = (
  (Triple-state _ (extract_cfs-Safe disk staging destination utf8 bytes) nothing_done
      (record { confined = tt; made = λ p known. ground (arith, known); inside = tt })).confined,
  Triple-state _ (extract_cfs-Noted disk staging utf8 destination bytes) nothing_done tt,
)
