-- ===== src/Storage/Export/Texts.antt =====
-- The paths that `collectEntries` of src/storage/cfs.ts collects.
use electrosphere.Base.{
  suc, ◌≡◌, refl, subst, ◌∙◌, true, false, List, [], ◌∷◌, ◌++◌, arith, length, ◌==◌, All,
  Bool-cases, inl, inr,
}
use electrosphere.Base.Bytes.{Bytes}
use electrosphere.Base.Exec.{Result, ok, err}
use electrosphere.Base.Paths.{slash}
use electrosphere.Storage.Archive.{is_safe_path, validate_relative_path}
use electrosphere.Storage.Export.Tree.{
  FileKind, Stats, Directory, unreadable, readable, Names, nothing, name_of, Collected, bytes_leb,
  insert_name, sort_directory, sort_names, relative_path, then_entries, entry_found, entry_at,
  walk_name, walk, walk_names, insert_entry, sort_entries, sorted_entries, collect, collect_entries,
}

-- Decoding leaves a path between slashes alone: a slash is never a part of a longer sequence.
abbrev pub SplitsAtSlash : (utf8 : Bytes → Bytes) → Type 0
SplitsAtSlash utf8 = (a b : Bytes) → utf8 (a ++ (slash ∷ b)) ≡ utf8 a ++ (slash ∷ utf8 b)

module _ (utf8 : Bytes → Bytes) where
  abbrev pub IsText : Bytes → Type 0
  IsText b = utf8 b ≡ b

  -- The names are texts, as `readdir` decodes them.
  unfoldable mutual
    pub AreTexts : Directory → Type 0
    AreTexts (unreadable e) = Unit {0}
    AreTexts (readable names) = NamesAreTexts names

    pub NamesAreTexts : Names → Type 0
    NamesAreTexts nothing = Unit {0}
    NamesAreTexts (name_of name stats below names) =
        IsText name × AreTexts below × NamesAreTexts names

  -- A path that an archive can name.
  abbrev pub IsPath : Collected → Type 0
  IsPath e = (is_safe_path e.path ≡ true) × IsText e.path

  abbrev ArePaths : Result (List Collected) → Type 0
  ArePaths (ok es) = All IsPath es
  ArePaths (err e) = Unit {0}

  insert_name-AreTexts :
      (name : Bytes) (stats : Result Stats) (below : Directory) (names : Names)
      → IsText name
      → AreTexts below
      → NamesAreTexts names
      → NamesAreTexts (insert_name name stats below names)
  unfolding insert_name AreTexts
  insert_name-AreTexts name stats below nothing t b ts = (t, b, tt)
  insert_name-AreTexts name stats below (name_of next s d names) t b ts =
      elim (Bool-cases (bytes_leb name next)) [
        | inl e ↦ rw e (t, b, ts)
        | inr e ↦ rw e (ts.0, ts.1, insert_name-AreTexts name stats below names t b ts.2)
      ]

  mutual
    unfolding sort_directory AreTexts

    sort_directory-AreTexts : (d : Directory) → AreTexts d → AreTexts (sort_directory d)
    sort_directory-AreTexts (unreadable e) ts = tt
    sort_directory-AreTexts (readable names) ts = sort_names-AreTexts names ts

    sort_names-AreTexts : (ns : Names) → NamesAreTexts ns → NamesAreTexts (sort_names ns)
    sort_names-AreTexts nothing ts = tt
    sort_names-AreTexts (name_of name stats below names) ts =
        insert_name-AreTexts name stats (sort_directory below) (sort_names names) ts.0
          (sort_directory-AreTexts below ts.1) (sort_names-AreTexts names ts.2)

  module _ (splits : SplitsAtSlash utf8) where
    relative_path-IsText :
        (at name : Bytes) → IsText at → IsText name → IsText (relative_path at name)
    unfolding relative_path
    relative_path-IsText [] name a n = n
    relative_path-IsText (c ∷ at) name a n =
        let some_at : (suc (length at) == 0) ≡ false = ground arith in
        rw some_at (splits (c ∷ at) name ∙ rw (a, n) refl)

    entries-append :
        (es fs : List Collected) → All IsPath es → All IsPath fs → All IsPath (es ++ fs)
    entries-append [] fs h k = k
    entries-append (e ∷ es) fs h k = (h.0, entries-append es fs h.1 k)

    then_entries-ArePaths :
        (r q : Result (List Collected)) → ArePaths r → ArePaths q → ArePaths (then_entries r q)
    then_entries-ArePaths (ok es) (ok fs) h k = entries-append es fs h k
    then_entries-ArePaths (ok es) (err e) h k = tt
    then_entries-ArePaths (err e) q h k = tt

    entry_found-ArePaths :
        (path : Bytes) (found : Stats) (kind : FileKind) (below : Result (List Collected))
        → is_safe_path path ≡ true
        → IsText path
        → ArePaths below
        → ArePaths (entry_found path found kind below)
    entry_found-ArePaths path found FileKind.directory (ok es) safe text h = ((safe, text), h)
    entry_found-ArePaths path found FileKind.directory (err e) safe text h = tt
    entry_found-ArePaths path found FileKind.file below safe text h = ((safe, text), tt)
    entry_found-ArePaths path found FileKind.symbolic_link below safe text h = ((safe, text), tt)
    entry_found-ArePaths path found FileKind.other below safe text h = ((safe, text), tt)

    entry_at-ArePaths :
        (path : Bytes) (stats : Result Stats) (below : Result (List Collected))
        → is_safe_path path ≡ true
        → IsText path
        → ArePaths below
        → ArePaths (entry_at (ok tt) path stats below)
    entry_at-ArePaths path (ok found) below safe text h =
        entry_found-ArePaths path found found.kind below safe text h
    entry_at-ArePaths path (err e) below safe text h = tt

    walk_name-ArePaths :
        (path : Bytes) (stats : Result Stats) (below : Result (List Collected))
        → IsText path
        → ArePaths below
        → ArePaths (walk_name validate_relative_path path stats below)
    unfolding walk_name validate_relative_path
    walk_name-ArePaths path stats below text h = elim (Bool-cases (is_safe_path path)) [
      | inl safe ↦ rw (safe, ArePaths) (entry_at-ArePaths path stats below safe text h)
      | inr e ↦ rw (e, ArePaths) tt
    ]

    mutual
      unfolding walk AreTexts

      walk-ArePaths :
          (at : Bytes) (d : Directory)
          → IsText at
          → AreTexts d
          → ArePaths (walk validate_relative_path at d)
      walk-ArePaths at (unreadable e) a ts = tt
      walk-ArePaths at (readable names) a ts = walk_names-ArePaths at names a ts

      walk_names-ArePaths :
          (at : Bytes) (ns : Names)
          → IsText at
          → NamesAreTexts ns
          → ArePaths (walk_names validate_relative_path at ns)
      walk_names-ArePaths at nothing a ts = tt
      walk_names-ArePaths at (name_of name stats below names) a ts =
          let t = relative_path-IsText at name a ts.0 in
          then_entries-ArePaths _ _ (walk_name-ArePaths _ stats _ t (walk-ArePaths _ below t ts.1))
            (walk_names-ArePaths at names a ts.2)

    insert_entry-paths :
        (e : Collected) (es : List Collected)
        → IsPath e
        → All IsPath es
        → All IsPath (insert_entry e es)
    unfolding insert_entry
    insert_entry-paths e [] h k = (h, tt)
    insert_entry-paths e (f ∷ es) h k = elim (Bool-cases (bytes_leb e.path f.path)) [
      | inl first ↦ rw first (h, k)
      | inr later ↦ rw later (k.0, insert_entry-paths e es h k.1)
    ]

    sort_entries-paths : (es : List Collected) → All IsPath es → All IsPath (sort_entries es)
    unfolding sort_entries
    sort_entries-paths [] h = tt
    sort_entries-paths (e ∷ es) h =
        insert_entry-paths e (sort_entries es) h.0 (sort_entries-paths es h.1)

    sorted_entries-ArePaths :
        (r : Result (List Collected)) → ArePaths r → ArePaths (sorted_entries r)
    sorted_entries-ArePaths (ok es) h = sort_entries-paths es h
    sorted_entries-ArePaths (err e) h = tt

    collect_entries-ArePaths :
        (tree : Directory) → IsText [] → AreTexts tree → ArePaths (collect_entries tree)
    unfolding collect
    collect_entries-ArePaths tree n ts =
        sorted_entries-ArePaths _
          (walk-ArePaths [] (sort_directory tree) n (sort_directory-AreTexts tree ts))

    pub collect_entries-paths :
        (tree : Directory) (es : List Collected)
        → IsText []
        → AreTexts tree
        → collect_entries tree ≡ ok es
        → All IsPath es
    collect_entries-paths tree es n ts e = subst ArePaths e (collect_entries-ArePaths tree n ts)
