-- ===== src/Storage/Archive/Confined.antt =====
-- What `extractCfs` of src/storage/cfs.ts asks of the file system names paths below the
-- staging directory, until the exchange with the destination.
pub mod Linked
pub mod Whole
use electrosphere.Base.{
  ℕ, zero, suc, ◌%◌, ◌≡◌, ◌⊎◌, refl, sym, subst, ◌∙◌, ap, Bool, true, false, not, ◌||◌, ◌&&◌,
  Option, List, [], ◌∷◌, arith, any, All, take, drop, length, ◌==◌, if◌then◌else◌, Bool-cases, inl,
  inr,
}
use electrosphere.Base.Exec.{Result-cases}
use electrosphere.Base.Bytes.{
  Bytes, bytes_eq, bytes_eq_iff, bytes_eq_refl, split, starts_with, includes,
}
use electrosphere.Base.Exec.{
  Result, ok, err, Exec, pure, throw, catch, ◌>>=◌, guard, lift, gets, modify,
}
use electrosphere.Base.Exec.Triple.{
  Triple, Keeps, After-always, After-both, Triple-bind, Keeps-bind, Keeps-pure, Keeps-throw,
  Keeps-guard, Triple-weaken, Triple-modify, Keeps-catch,
}
use electrosphere.Base.Paths.{
  AbsolutePath, slash, dirname, resolve, is_within, is_within-append, is_within-dirname,
  resolve_safe, split_cons, is_unsafe_part,
}
use electrosphere.Domain.Errors.{Thrown}
use electrosphere.Storage.Archive.{
  EntryHeader, is_safe_path, validate_relative_path, read_header, check_header,
}
use electrosphere.Storage.Archive.Extract.{
  DiskCall, make_directory, create_file, write_file, symlink, link, change_mode, set_times,
  set_link_times, remove, rename, Disk, Extraction, type_directory, type_file, type_symlink,
  type_hardlink, type_of, has_type, unsupported, traverses_symlink, assert_no_symlink_ancestor,
  safe_destination, perform, finish_entry, place_directory, place_file, place_symlink, link_prior,
  place_hardlink, place_node, place_entry, extract_entry, extract_entries, set_directory_times,
  extract_into, extract_cfs,
}

abbrev pub path_eq : AbsolutePath → AbsolutePath → Bool
path_eq [] [] = true
path_eq (a ∷ path) (b ∷ other) = bytes_eq a b && path_eq path other
path_eq _ _ = false

path_eq_refl : (p : AbsolutePath) → path_eq p p ≡ true
path_eq_refl [] = refl
path_eq_refl (a ∷ p) = rw (bytes_eq_refl a) (path_eq_refl p)

abbrev pub creates : AbsolutePath → DiskCall → Bool
creates path (create_file p _) = path_eq p path
creates path _ = false

-- A call after the earlier ones: it is about paths within the staging directory, as texts; the text
-- of a symbolic link, read from the link's directory, leads to within it; a hard link is to a file
-- that an earlier call created; what is removed is the staging directory or the destination; and the
-- one replaces the other.
unfoldable pub Allowed : (staging destination : AbsolutePath) → List DiskCall → DiskCall → Type 0
Allowed staging destination earlier (make_directory p _ _) = is_within staging p ≡ true
Allowed staging destination earlier (create_file p _) = is_within staging p ≡ true
Allowed staging destination earlier (write_file p _) = is_within staging p ≡ true
Allowed staging destination earlier (symlink target p) =
    (is_within staging p ≡ true) × (is_within staging (resolve (dirname p) target) ≡ true)
Allowed staging destination earlier (link source p) =
    (is_within staging p ≡ true) × (any (creates source) earlier ≡ true)
Allowed staging destination earlier (change_mode p _) = is_within staging p ≡ true
Allowed staging destination earlier (set_times p _) = is_within staging p ≡ true
Allowed staging destination earlier (set_link_times p _) = is_within staging p ≡ true
Allowed staging destination earlier (remove p) = (path_eq p staging || path_eq p destination) ≡ true
Allowed staging destination earlier (rename p q) =
    (path_eq p staging ≡ true) × (path_eq q destination ≡ true)

unfoldable pub IsConfined : (staging destination : AbsolutePath) → List DiskCall → Type 0
IsConfined staging destination [] = Unit
IsConfined staging destination (call ∷ earlier) =
    Allowed staging destination earlier call × IsConfined staging destination earlier

destination-cases :
    (root : AbsolutePath) (path : Bytes)
    → ((is_within root (resolve root path) ≡ true)
        × (safe_destination root path ≡ ok (resolve root path)))
      ⊎ ((e : Thrown) × (safe_destination root path ≡ err e))
unfolding safe_destination
destination-cases root path = elim (Bool-cases (is_within root (resolve root path))) [
  | inl e ↦ inl (e, rw e refl)
  | inr e ↦ inr (unsupported "CFS path escapes workspace", rw e refl)
]

module _ (disk : Disk) (staging destination : AbsolutePath) where
  record Safe (s : Extraction) : Type 0 where
    confined : IsConfined staging destination s.calls
    -- The entries that count as regular files were created.
    made :
        (p : Bytes)
        → has_type s.entry_types p type_file ≡ true
        → any (creates (resolve staging p)) s.calls ≡ true
    inside : All (λ d. is_within staging d.0 ≡ true) s.directory_times

  Safe-call :
      (call : DiskCall) (s : Extraction)
      → Safe s
      → Allowed staging destination s.calls call
      → Safe (record s { calls = call ∷ s.calls })
  unfolding IsConfined
  Safe-call call s safe allowed = record {
    confined = (allowed, safe.confined);
    made = λ p known. ground (arith, safe.made p known);
    inside = safe.inside;
  }

  Safe-perform :
      (call : DiskCall)
      → ((s : Extraction) → Safe s → Allowed staging destination s.calls call)
      → Keeps Safe (perform disk call)
  unfolding perform
  Safe-perform call allowed = record {
    at = λ s safe.
        After-always Safe (disk s.calls call) (record s { calls = call ∷ s.calls })
          (Safe-call call s safe (allowed s safe));
  }

  -- The same, with a file known to be created.
  abbrev Made : AbsolutePath → Extraction → Type 0
  Made output s = Safe s × (any (creates output) s.calls ≡ true)

  Made-perform :
      (output : AbsolutePath) (call : DiskCall)
      → ((s : Extraction) → Safe s → Allowed staging destination s.calls call)
      → Keeps (Made output) (perform disk call)
  unfolding perform
  Made-perform output call allowed = record {
    at = λ s made.
        After-always (Made output) (disk s.calls call) (record s { calls = call ∷ s.calls })
          (Safe-call call s made.0 (allowed s made.0), ground (arith, made.1));
  }

  Made-weak :
      (output : AbsolutePath) (m : Exec Extraction (Unit {0}))
      → Keeps (Made output) m
      → Triple (Made output) m (λ _. Made output) (λ _. Safe)
  Made-weak output m keeps = Triple-weaken m keeps (λ s p. p) (λ a s p. p) (λ e s p. p.0)

  -- A state whose map of entry types is known.
  abbrev Known : List (Bytes × ℕ) → Extraction → Type 0
  Known types s = Safe s × (s.entry_types ≡ types)

  link-Safe :
      (types : List (Bytes × ℕ)) (target : Bytes) (output : AbsolutePath)
      → is_within staging output ≡ true
      → has_type types target type_file ≡ true
      → Triple
          (Known types)
          (perform disk (link (resolve staging target) output))
          (λ _. Safe)
          (λ _. Safe)
  unfolding perform Allowed
  link-Safe types target output here known = record {
    at = λ s p. After-always Safe _ _ (
        Safe-call (link (resolve staging target) output) s p.0
          (here, p.0.made target (rw p.1 known)));
  }

  -- After the node of a regular file, the file was created.
  abbrev Placed : EntryHeader → AbsolutePath → Extraction → Type 0
  Placed h output s =
      Safe s × ((h.entry_type == type_file) ≡ true → any (creates output) s.calls ≡ true)

  module _ (h : EntryHeader) (output : AbsolutePath) (here : is_within staging output ≡ true) where
    -- The calls that end an entry, under any condition that calls on paths within staging keep.
    finish_entry-Keeps :
        (P : Extraction → Type 0)
        → ((call : DiskCall)
            → ((s : Extraction) → Safe s → Allowed staging destination s.calls call)
            → Keeps P (perform disk call))
        → Keeps P (finish_entry disk staging h output)
    unfolding finish_entry Allowed
    finish_entry-Keeps P performs =
        Keeps-bind _ _ (performs (change_mode output (h.mode % 512)) (λ s _. here)) λ _.
          elim (Bool-cases (h.entry_type == type_directory)) [
            | inl e ↦ rw e (Keeps-pure tt)
            | inr e ↦ rw e (performs (set_times output h.mtime_ns) (λ s _. here))
          ]

    note_directory-Safe :
        Keeps Safe
          (modify (λ s. record s { directory_times = (output, h.mtime_ns) ∷ s.directory_times }))
    note_directory-Safe = record {
      at = λ s safe. record {
        confined = safe.confined;
        made = safe.made;
        inside = (here, safe.inside);
      };
    }

    place_directory-Safe : Keeps Safe (place_directory disk staging h output)
    unfolding place_directory Allowed
    place_directory-Safe =
        Keeps-bind _ _ (Safe-perform (make_directory output false (h.mode % 512)) (λ s _. here))
          λ _. Keeps-bind _ _ note_directory-Safe λ _. finish_entry-Keeps Safe Safe-perform

    create-Made :
        (mode : ℕ)
        → Triple Safe (perform disk (create_file output mode)) (λ _. Made output) (λ _. Safe)
    unfolding perform Allowed
    create-Made mode = record {
      at = λ s safe.
          let after = Safe-call (create_file output mode) s safe here in
          After-both (λ _. Made output) (λ _. Safe) (disk s.calls (create_file output mode))
            (record s { calls = create_file output mode ∷ s.calls })
            (λ _. (after, rw (path_eq_refl output) refl)) (λ _. after);
    }

    place_file-Made :
        (payload : Bytes)
        → Triple Safe (place_file disk staging h payload output) (λ _. Made output) (λ _. Safe)
    unfolding place_file Allowed
    place_file-Made payload = Triple-bind _ _ (create-Made (h.mode % 512)) λ _.
        Triple-bind _ _
          (Made-weak output _ (Made-perform output (write_file output payload) (λ s _. here)))
          λ _. Made-weak output _ (finish_entry-Keeps (Made output) (Made-perform output))

    place_symlink-Safe : (target : Bytes) → Keeps Safe (place_symlink disk staging h target output)
    unfolding place_symlink Allowed
    place_symlink-Safe target =
        elim (Bool-cases (not (includes 0 target || starts_with (slash ∷ []) target))) [
          | inl plain ↦
              rw plain (elim (Bool-cases (is_within staging (resolve (dirname output) target))) [
                | inl leads ↦ rw leads (
                    Keeps-bind _ _ (Safe-perform (symlink target output) (λ s _. (here, leads)))
                      λ _. Safe-perform (set_link_times output h.mtime_ns) (λ s _. here))
                | inr e ↦ rw e (Keeps-throw _)
              ])
          | inr e ↦ rw e (Keeps-throw _)
        ]

    link_prior-Safe :
        (types : List (Bytes × ℕ)) (target : Bytes)
        → Triple
            (Known types)
            (link_prior disk staging types h target output)
            (λ _. Safe)
            (λ _. Safe)
    unfolding link_prior
    link_prior-Safe types target = elim (Bool-cases (has_type types target type_file)) [
      | inl known ↦ rw known (elim (destination-cases staging target) [
        | inl (_, e) ↦ rw e (
            Triple-bind _ _ (link-Safe types target output here known)
              λ _. finish_entry-Keeps Safe Safe-perform)
        | inr (x, e) ↦ rw e (record { at = λ s p. p.0 })
      ])
      | inr e ↦ rw e (record { at = λ s p. p.0 })
    ]

    place_hardlink-Safe :
        (target : Bytes) → Keeps Safe (place_hardlink disk staging h target output)
    unfolding place_hardlink
    place_hardlink-Safe target = elim (Result-cases (validate_relative_path target)) [
      | inl (_, e) ↦
          rw e (record { at = λ s safe. (link_prior-Safe s.entry_types target).at s (safe, refl) })
      | inr (x, e) ↦ rw e (Keeps-throw x)
    ]

    Placed-other :
        (m : Exec Extraction (Unit {0}))
        → (h.entry_type == type_file) ≡ false
        → Keeps Safe m
        → Triple Safe m (λ _. Placed h output) (λ _. Safe)
    Placed-other m other keeps =
        Triple-weaken m keeps (λ s p. p) (λ _ s p. (p, λ f. absurd (ground (arith, other, f))))
          (λ _ s p. p)

    place_node-Placed :
        (utf8 : Bytes → Bytes) (payload : Bytes)
        → Triple Safe
            (place_node disk staging utf8 h payload output)
            (λ _. Placed h output)
            (λ _. Safe)
    unfolding place_node
    place_node-Placed utf8 payload = elim (Bool-cases (h.entry_type == type_directory)) [
      | inl e ↦ rw e (Placed-other _ (ground (arith, e)) place_directory-Safe)
      | inr e1 ↦ rw e1 (elim (Bool-cases (h.entry_type == type_file)) [
        | inl e ↦ rw e (
            Triple-weaken _ (place_file-Made payload) (λ s p. p) (λ _ s p. (p.0, λ _. p.1))
              (λ _ s p. p))
        | inr other ↦ rw other (elim (Bool-cases (h.entry_type == type_symlink)) [
          | inl e ↦ rw e (Placed-other _ other (place_symlink-Safe (utf8 payload)))
          | inr e2 ↦ rw e2 (elim (Bool-cases (h.entry_type == type_hardlink)) [
            | inl e ↦ rw e (Placed-other _ other (place_hardlink-Safe (utf8 payload)))
            | inr e ↦ rw e (record { at = λ s p. p })
          ])
        ])
      ])
    ]

  note_type-Safe :
      (h : EntryHeader)
      → Triple
          (Placed h (resolve staging h.path))
          (modify (λ s. record s { entry_types = (h.path, h.entry_type) ∷ s.entry_types }))
          (λ _. Safe)
          (λ _. Safe)
  unfolding has_type type_of
  note_type-Safe h = record {
    at = λ s placed. record {
      confined = placed.0.confined;
      made = λ p known. elim (Bool-cases (bytes_eq h.path p)) [
        | inl e ↦
            subst (λ q. any (creates (resolve staging q)) s.calls ≡ true)
              ((bytes_eq_iff h.path p).0 e) (placed.1 (ground (arith, known, e)))
        | inr e ↦ placed.0.made p (ground (arith, known, e))
      ];
      inside = placed.0.inside;
    };
  }

  assert-Safe : (path : Bytes) → Keeps Safe (assert_no_symlink_ancestor path)
  unfolding assert_no_symlink_ancestor
  assert-Safe path = record {
    at = λ s safe. elim (Bool-cases (traverses_symlink s.entry_types [] (split slash path))) [
      | inl e ↦ rw e safe
      | inr e ↦ rw e safe
    ];
  }

  dirname_within :
      (path : Bytes)
      → is_safe_path path ≡ true
      → is_within staging (dirname (resolve staging path)) ≡ true
  unfolding is_safe_path
  dirname_within path safe =
      let (part, (parts, e)) = split_cons path in
      rw (resolve_safe staging path (ground (arith, safe)) (ground (arith, safe)), e)
        (is_within-dirname staging part parts)

  place_entry-Safe :
      (utf8 : Bytes → Bytes) (h : EntryHeader) (payload : Bytes)
      → is_safe_path h.path ≡ true
      → Keeps Safe (place_entry disk staging utf8 h payload)
  unfolding place_entry Allowed
  place_entry-Safe utf8 h payload safe = Keeps-bind _ _ (assert-Safe h.path) λ _.
      elim (destination-cases staging h.path) [
        | inl (here, e) ↦ rw e (
            Keeps-bind _ _
              (Safe-perform (make_directory (dirname (resolve staging h.path)) true 448)
                (λ s _. dirname_within h.path safe))
              λ _.
                Triple-bind _ _ (place_node-Placed h (resolve staging h.path) here utf8 payload)
                  λ _. note_type-Safe h)
        | inr (x, e) ↦ rw e (Keeps-throw x)
      ]
