-- ===== src/Storage/Archive/Confined/Linked.antt =====
-- The paths of an archive's entries and the symbolic links among the entries, as
-- `assertNoSymlinkAncestor` of src/storage/cfs.ts has it.
use electrosphere.Base.{
  ℕ, zero, suc, ◌≡◌, refl, sym, ◌∙◌, ap, Bool, true, false, ◌||◌, List, [], ◌∷◌, ◌++◌, arith, any,
  map, take, drop, length, leb, ◌==◌, not, append_assoc, Bool-cases, inl, inr,
}
use electrosphere.Base.Bytes.{Bytes, bytes_eq, split, starts_with, includes}
use electrosphere.Base.Exec.{Result, Result-cases, Exec, lift, guard, modify, ◌>>=◌, ◌>>◌}
use electrosphere.Base.Exec.Triple.{
  Triple, Keeps, After-always, Triple-bind, Triple-weaken, Triple-modify, Keeps-bind, Keeps-pure,
  Keeps-throw, Keeps-guard, Keeps-gets, Keeps-if, Keeps-catch,
}
use electrosphere.Base.Paths.{AbsolutePath, slash, dirname, resolve, is_within, is_unsafe_part}
use electrosphere.Storage.Archive.{EntryHeader, is_safe_path, validate_relative_path, read_header}
use electrosphere.Storage.Archive.Reading.{read_header-Admitted}
use electrosphere.Storage.Archive.Extract.{
  DiskCall, make_directory, set_times, remove, rename, link, magic, Disk, Extraction,
  type_directory, type_file, type_symlink, type_hardlink, unsupported, below, has_type,
  traverses_symlink, assert_no_symlink_ancestor, safe_destination, perform, finish_entry,
  place_directory, place_file, place_symlink, link_prior, place_hardlink, place_node, place_entry,
  extract_payload, extract_entry, extract_entries, set_directory_times, extract_into, extract_cfs,
}

-- The paths of the directories above the path with the parts.
abbrev pub above : List Bytes → List Bytes
above [] = []
above (part ∷ []) = []
above (part ∷ next ∷ parts) = part ∷ map (λ a. part ++ (slash ∷ a)) (above (next ∷ parts))

-- Whether a directory above the path counts as a symbolic link.
abbrev pub passes_link : List (Bytes × ℕ) → Bytes → Bool
passes_link types path = any (λ a. has_type types a type_symlink) (above (split slash path))

-- No entry stands below what counted as a symbolic link when the entry was noted. The latest entry
-- stands first.
unfoldable pub Unlinked : List (Bytes × ℕ) → Type 0
Unlinked [] = Unit
Unlinked (e ∷ earlier) = (passes_link earlier e.0 ≡ false) × Unlinked earlier

any-map :
    (p q : Bytes → Bool) (f : Bytes → Bytes)
    → ((x : Bytes) → q x ≡ p (f x))
    → (xs : List Bytes) → any q xs ≡ any p (map f xs)
any-map p q f same [] = refl
any-map p q f same (x ∷ xs) = rw (same x, any-map p q f same xs) refl

below-cons :
    (c : ℕ) (ancestor part : Bytes) → below (c ∷ ancestor) part ≡ c ∷ (ancestor ++ (slash ∷ part))
below-cons c ancestor part = ground arith

module _ (types : List (Bytes × ℕ)) where
  abbrev is_link : Bytes → Bool
  is_link a = has_type types a type_symlink

  traverses-below :
      (c : ℕ) (ancestor : Bytes) (parts : List Bytes)
      → traverses_symlink types (c ∷ ancestor) parts
        ≡ any (λ a. is_link (c ∷ ancestor ++ (slash ∷ a))) (above parts)
  traverses-below c ancestor [] = refl
  traverses-below c ancestor (part ∷ []) = refl
  traverses-below c ancestor (part ∷ next ∷ parts) = rw (below-cons c ancestor part) (
      ap (◌||◌ (is_link (c ∷ ancestor ++ (slash ∷ part)))) (
        traverses-below c (ancestor ++ (slash ∷ part)) (next ∷ parts)
        ∙ any-map (λ a. is_link (c ∷ ancestor ++ (slash ∷ a)))
            (λ a. is_link (c ∷ (ancestor ++ (slash ∷ part)) ++ (slash ∷ a)))
            (λ a. part ++ (slash ∷ a))
            (λ a. ap (λ x. is_link (c ∷ x)) (append_assoc ancestor (slash ∷ part) (slash ∷ a)))
            (above (next ∷ parts))))

  traverses-above :
      (parts : List Bytes)
      → any is_unsafe_part parts ≡ false
      → traverses_symlink types [] parts ≡ any is_link (above parts)
  unfolding is_unsafe_part
  traverses-above [] safe = refl
  traverses-above (part ∷ []) safe = refl
  traverses-above ([] ∷ next ∷ parts) safe = absurd (ground (arith, safe))
  traverses-above ((c ∷ part) ∷ next ∷ parts) safe = ap (◌||◌ (is_link (c ∷ part))) (
      traverses-below c part (next ∷ parts)
      ∙ any-map is_link (λ a. is_link (c ∷ part ++ (slash ∷ a))) (λ a. c ∷ part ++ (slash ∷ a))
          (λ a. refl) (above (next ∷ parts)))

module _ (disk : Disk) (staging : AbsolutePath) (utf8 : Bytes → Bytes) where
  module _ (types : List (Bytes × ℕ)) where
    -- The map of entry types is as it was.
    abbrev Same : Extraction → Type 0
    Same s = s.entry_types ≡ types

    perform-Same : (call : DiskCall) → Keeps Same (perform disk call)
    unfolding perform
    perform-Same call = record { at = λ s same. After-always Same (disk s.calls call) _ same }

    lift-Same : {A : Type 0} (r : Result A) → Keeps Same (lift r)
    lift-Same r = record { at = λ s same. After-always Same r s same }

    finish_entry-Same :
        (h : EntryHeader) (output : AbsolutePath) → Keeps Same (finish_entry disk staging h output)
    unfolding finish_entry
    finish_entry-Same h output =
        Keeps-bind _ _ (perform-Same _)
          λ _. Keeps-if (h.entry_type == type_directory) _ _ (Keeps-pure tt) (perform-Same _)

    link_prior-Same :
        (known : List (Bytes × ℕ)) (h : EntryHeader) (target : Bytes) (output : AbsolutePath)
        → Keeps Same (link_prior disk staging known h target output)
    unfolding link_prior
    link_prior-Same known h target output =
        Keeps-bind (guard (has_type known target type_file) _) _ (Keeps-guard _ _) λ _.
          Keeps-bind _ _ (lift-Same (safe_destination staging target)) λ source.
            Keeps-bind _ _ (perform-Same (link source output)) λ _. finish_entry-Same h output

    place_directory-Same :
        (h : EntryHeader) (output : AbsolutePath)
        → Keeps Same (place_directory disk staging h output)
    unfolding place_directory
    place_directory-Same h output = Keeps-bind _ _ (perform-Same _) λ _.
        Keeps-bind _ _
          (Triple-modify {R = Same}
            (λ s. record s { directory_times = (output, h.mtime_ns) ∷ s.directory_times })
            (λ s same. same))
          λ _. finish_entry-Same h output

    place_file-Same :
        (h : EntryHeader) (payload : Bytes) (output : AbsolutePath)
        → Keeps Same (place_file disk staging h payload output)
    unfolding place_file
    place_file-Same h payload output =
        Keeps-bind _ _ (perform-Same _)
          λ _. Keeps-bind _ _ (perform-Same _) λ _. finish_entry-Same h output

    place_symlink-Same :
        (h : EntryHeader) (target : Bytes) (output : AbsolutePath)
        → Keeps Same (place_symlink disk staging h target output)
    unfolding place_symlink
    place_symlink-Same h target output =
        Keeps-bind _ _
          (Keeps-guard (not (includes 0 target || starts_with (slash ∷ []) target))
            (unsupported "Unsafe symlink target"))
          λ _.
            Keeps-bind _ _
              (Keeps-guard (is_within staging (resolve (dirname output) target))
                (unsupported "Symlink target escapes workspace"))
              λ _. Keeps-bind _ _ (perform-Same _) λ _. perform-Same _

    place_hardlink-Same :
        (h : EntryHeader) (target : Bytes) (output : AbsolutePath)
        → Keeps Same (place_hardlink disk staging h target output)
    unfolding place_hardlink
    place_hardlink-Same h target output =
        Keeps-bind _ _ (lift-Same (validate_relative_path target)) λ _.
          Keeps-bind _ _ (Keeps-gets (λ s. s.entry_types))
            λ known. link_prior-Same known h target output

    place_node-Same :
        (h : EntryHeader) (payload : Bytes) (output : AbsolutePath)
        → Keeps Same (place_node disk staging utf8 h payload output)
    unfolding place_node
    place_node-Same h payload output =
        Keeps-if (h.entry_type == type_directory) _ _ (place_directory-Same h output) (
          Keeps-if (h.entry_type == type_file) _ _ (place_file-Same h payload output) (
            Keeps-if (h.entry_type == type_symlink) _ _ (place_symlink-Same h (utf8 payload) output)
              (Keeps-if (h.entry_type == type_hardlink) _ _
                (place_hardlink-Same h (utf8 payload) output)
                (Keeps-throw (unsupported "Unsupported CFS entry type")))))

  abbrev Noted : Extraction → Type 0
  Noted s = Unlinked s.entry_types

  or_Noted :
      (types : List (Bytes × ℕ))
      → Unlinked types
      → {A : Type 0} (m : Exec Extraction A) → Keeps (Same types) m
      → Triple (Same types) m (λ _. Same types) (λ _. Noted)
  or_Noted types earlier m keeps =
      Triple-weaken m keeps (λ s p. p) (λ _ s p. p) (λ e s same. rw same earlier)

  -- What stands behind the guard of an entry.
  place_behind-Noted :
      (types : List (Bytes × ℕ)) (h : EntryHeader) (payload : Bytes)
      → passes_link types h.path ≡ false
      → Unlinked types
      → Triple
          (Same types)
          (lift (safe_destination staging h.path) >>= λ output.
            perform disk (make_directory (dirname output) true 448)
            >> (place_node disk staging utf8 h payload output
                >> modify (λ s. record s { entry_types = (h.path, h.entry_type) ∷ s.entry_types })))
          (λ _. Noted)
          (λ _. Noted)
  unfolding Unlinked
  place_behind-Noted types h payload clear earlier =
      Triple-bind {R = λ _. Same types} _ _
        (or_Noted types earlier _ (lift-Same types (safe_destination staging h.path)))
        λ output.
          Triple-bind {R = λ _. Same types} _ _
            (or_Noted types earlier _
              (perform-Same types (make_directory (dirname output) true 448)))
            λ _.
              Triple-bind {R = λ _. Same types} _ _
                (or_Noted types earlier _ (place_node-Same types h payload output))
                λ _.
                  Triple-modify {R = Noted}
                    (λ s. record s { entry_types = (h.path, h.entry_type) ∷ s.entry_types })
                    (λ s same. rw same (clear, earlier))

  place_entry-Noted :
      (h : EntryHeader) (payload : Bytes)
      → is_safe_path h.path ≡ true
      → Keeps Noted (place_entry disk staging utf8 h payload)
  unfolding place_entry assert_no_symlink_ancestor is_safe_path
  place_entry-Noted h payload safe = record {
    at = λ s earlier.
        let same = traverses-above s.entry_types (split slash h.path) (ground (arith, safe)) in
        elim (Bool-cases (traverses_symlink s.entry_types [] (split slash h.path))) [
          | inl e ↦ rw e earlier
          | inr e ↦
              rw e ((place_behind-Noted s.entry_types h payload (sym same ∙ e) earlier).at s refl)
        ];
  }

  extract_entry-Noted : (bytes : Bytes) → Keeps Noted (extract_entry disk staging utf8 bytes)
  unfolding extract_entry extract_payload
  extract_entry-Noted bytes = elim (Result-cases (read_header utf8 bytes)) [
    | inl ((h, rest), e) ↦ rw e (
        Keeps-bind _ _ (Keeps-guard (leb h.payload_length (length rest)) _) λ _.
          Keeps-bind _ _
            (place_entry-Noted h (take h.payload_length rest)
              (read_header-Admitted utf8 bytes h rest e).0.0)
            λ _. Keeps-pure (drop h.payload_length rest))
    | inr (x, e) ↦ rw e (Keeps-throw x)
  ]

  extract_entries-Noted :
      (fuel : ℕ) (bytes : Bytes) → Keeps Noted (extract_entries disk staging utf8 fuel bytes)
  unfolding extract_entries
  extract_entries-Noted zero bytes = Keeps-pure tt
  extract_entries-Noted (suc fuel) bytes = elim (Bool-cases (length bytes == 0)) [
    | inl e ↦ rw e (Keeps-pure tt)
    | inr e ↦
        rw e (Keeps-bind _ _ (extract_entry-Noted bytes) λ rest. extract_entries-Noted fuel rest)
  ]

  perform-Noted : (call : DiskCall) → Keeps Noted (perform disk call)
  unfolding perform
  perform-Noted call = record { at = λ s noted. After-always Noted (disk s.calls call) _ noted }

  set_directory_times-Noted :
      (times : List (AbsolutePath × ℕ)) → Keeps Noted (set_directory_times disk staging times)
  unfolding set_directory_times
  set_directory_times-Noted [] = Keeps-pure tt
  set_directory_times-Noted (d ∷ times) =
      Keeps-bind _ _ (perform-Noted (set_times d.0 d.1)) λ _. set_directory_times-Noted times

  -- The entries of an extraction, whatever the file system answers.
  pub extract_cfs-Noted :
      (destination : AbsolutePath) (bytes : Bytes)
      → Keeps Noted (extract_cfs disk utf8 staging destination bytes)
  unfolding extract_cfs extract_into
  extract_cfs-Noted destination bytes = elim (Bool-cases (bytes_eq (take 7 bytes) magic)) [
    | inl e ↦ rw e (
        Keeps-bind _ _ (perform-Noted (make_directory staging false 448)) λ _.
          Keeps-catch _ _
            (Keeps-bind _ _ (extract_entries-Noted (length (drop 7 bytes)) (drop 7 bytes)) λ _.
              Keeps-bind _ _ (Keeps-gets (λ s. s.directory_times)) λ times.
                Keeps-bind _ _ (set_directory_times-Noted times) λ _.
                  Keeps-bind _ _ (perform-Noted (remove destination))
                    λ _. perform-Noted (rename staging destination))
            λ x. Keeps-bind _ _ (perform-Noted (remove staging)) λ _. Keeps-throw x)
    | inr e ↦ rw e (Keeps-throw _)
  ]
