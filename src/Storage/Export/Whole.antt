-- ===== src/Storage/Export/Whole.antt =====
-- An archive that `exportCfs` of src/storage/cfs.ts returns, and what `extractCfs` makes of it.
use electrosphere.Base.{
  ◌≤◌, ◌≡◌, refl, sym, subst, ap, ◌∙◌, Bool, List, [], ◌∷◌, ◌++◌, arith, append_assoc, append-nil,
  All, length, if◌then◌else◌, codes, Bool-cases, inl, inr,
}
use electrosphere.Base.Bytes.{Bytes}
use electrosphere.Base.Exec.{ok, attempt, catch, throw, gets, lift, pure}
use electrosphere.Base.Exec.Triple.{
  After, Triple-pure, Triple-throw, Triple-bind, Triple-gets, Triple-catch, Triple-weaken,
}
use electrosphere.Base.Exec.Leads.{
  Anything, Leads, Leads-lift, Leads-exists, Leads-anywhere, Leads-guard,
}
use electrosphere.Base.Paths.{AbsolutePath}
use electrosphere.Storage.Archive.{encode_header}
use electrosphere.Storage.Archive.Extract.{remove, change_mode, link, magic}
use electrosphere.Storage.Archive.Rounds.{Entry, IsEntry, entry_bytes}
use electrosphere.Storage.Export.Tree.{Directory, Collected, collect_entries}
use electrosphere.Storage.Export.Texts.{
  IsPath, IsText, AreTexts, SplitsAtSlash, collect_entries-paths,
}
use electrosphere.Storage.Export.Writing.{
  change, Host, Export, CfsObject, max_tree_bytes, perform, append, export_entry, export_entries,
  install, write_archive, export_cfs, sync_output, close_output, staging_path, unwritten,
}
use electrosphere.Storage.Export.Archived.{
  Holds, perform-Holds, perform-Keeps, append-Holds, written,
}
use electrosphere.Storage.Export.Growth.{Describes, export_entry-Grows}

-- The entries describe what was collected, one by one.
unfoldable pub AllDescribed : (utf8 : Bytes → Bytes) → List Collected → List Entry → Type 0
AllDescribed utf8 [] [] = Unit {0}
AllDescribed utf8 (e ∷ es) (p ∷ ps) = (Describes e p × IsEntry utf8 p) × AllDescribed utf8 es ps
AllDescribed utf8 _ _ = ⊥

entries_append :
    (b : Bytes) (p : Entry) (ps : List Entry)
    → (b ++ (encode_header p.0 ++ p.1)) ++ entry_bytes ps ≡ b ++ entry_bytes (p ∷ ps)
unfolding entry_bytes
entries_append b p ps =
    append_assoc b (encode_header p.0 ++ p.1) (entry_bytes ps)
    ∙ ap (λ x. b ++ x) (append_assoc (encode_header p.0) p.1 (entry_bytes ps))

module _ (host : Host) (staging : AbsolutePath) (utf8 : Bytes → Bytes) where
  -- The entries more than the bytes.
  abbrev Fills : List Collected → Bytes → Export → Type 0
  Fills es b s = (ps : List Entry) × (AllDescribed utf8 es ps × Holds (b ++ entry_bytes ps) s)

  export_entries-Fills :
      (root : AbsolutePath) (es : List Collected) (b : Bytes)
      → All (IsPath utf8) es
      → Leads (Holds b) (export_entries host staging root es) (λ _. Fills es b)
  unfolding export_entries entry_bytes AllDescribed
  export_entries-Fills root [] b paths =
      Triple-pure tt λ s h. ([], (tt, subst (λ x. Holds x s) (sym (append-nil b)) h))
  export_entries-Fills root (e ∷ es) b paths =
      Triple-bind (export_entry host staging root e) _
        (export_entry-Grows host staging utf8 root e b paths.0)
        λ _. Leads-exists _ λ p. Leads-exists _ λ good.
          let more = b ++ (encode_header p.0 ++ p.1) in
          Triple-weaken _ (export_entries-Fills root es more paths.1) (λ s h. h)
            (λ _ s (ps, (all_good, h)).
              (p ∷ ps, ((good, all_good), subst (λ x. Holds x s) (entries_append b p ps) h)))
            (λ _ s x. x)

  -- The object names the bytes of the archive.
  abbrev IsObjectOf : Bytes → CfsObject → Type 0
  IsObjectOf b o = (o.tree_digest ≡ codes "sha256:" ++ host.sha256 b) × (o.size_bytes ≡ length b)

  link-Keeps :
      (b : Bytes) (final_path : AbsolutePath)
      → Leads
          (Holds b)
          (catch
            (perform host (change (link staging final_path)))
            (λ e. if host.is_present e then pure tt else throw e))
          (λ _. Holds b)
  link-Keeps b final_path =
      Triple-catch (perform host (change (link staging final_path))) _
        (perform-Keeps host b (change (link staging final_path)) refl)
        λ e. elim (Bool-cases (host.is_present e)) [
          | inl present ↦ rw present (Triple-pure tt (λ s h. h))
          | inr other ↦ rw other (Triple-throw e (λ s h. tt))
        ]

  install-IsObjectOf :
      (object_root : AbsolutePath) (b : Bytes) (w : Export)
      → Holds b w
      → Leads (Holds b) (install host staging object_root w) (λ o s. IsObjectOf b o × Holds b s)
  unfolding install
  install-IsObjectOf object_root b w h =
      let final_path = object_root ++ (codes "sha256" ∷ host.sha256 w.hashed ∷ []) in
      Triple-bind (perform host close_output) _ (perform-Holds host b close_output refl) λ _.
        Triple-bind _ _ (link-Keeps b final_path) λ _.
          Triple-bind (perform host (change (remove staging))) _
            (perform-Holds host b (change (remove staging)) refl)
            λ _.
              Triple-bind (perform host (change (change_mode final_path 256))) _
                (perform-Holds host b (change (change_mode final_path 256)) refl)
                λ _.
                  Triple-pure _
                    λ s k. ((ap (λ x. codes "sha256:" ++ host.sha256 x) h.in_hash, h.counted), k)

  -- The object is that of an archive of the collected entries.
  abbrev Archives : List Collected → CfsObject → Export → Type 0
  Archives es o s =
      (ps : List Entry) × ((AllDescribed utf8 es ps × IsObjectOf (magic ++ entry_bytes ps) o)
        × Holds (magic ++ entry_bytes ps) s)

  write_archive-Archives :
      (root object_root : AbsolutePath) (tree : Directory)
      → ((es : List Collected) → collect_entries tree ≡ ok es → All (IsPath utf8) es)
      → Leads
          (Holds [])
          (write_archive host staging root object_root tree)
          (λ o s. (es : List Collected) × ((collect_entries tree ≡ ok es) × Archives es o s))
  unfolding write_archive
  write_archive-Archives root object_root tree paths =
      Triple-bind (append host staging magic) _ (append-Holds host staging [] magic) λ _.
        Triple-bind (lift (collect_entries tree)) _ (Leads-lift (collect_entries tree)) λ es.
          Leads-exists _ λ found.
            Triple-bind (export_entries host staging root es) _
              (export_entries-Fills root es magic (paths es found))
              λ _. Leads-exists _ λ ps. Leads-exists _ λ good.
                let b = magic ++ entry_bytes ps in
                Triple-bind (perform host sync_output) _ (perform-Holds host b sync_output refl)
                  λ _.
                    Triple-bind (gets (λ s. s)) _
                      (Triple-gets {R = λ w s. Holds b w × Holds b s} (λ s. s) (λ s h. (h, h)))
                      λ w. Leads-exists _ λ h.
                        Triple-weaken _ (install-IsObjectOf object_root b w h) (λ s k. k)
                          (λ o s (named, k). (es, (found, (ps, ((good, named), k))))) (λ _ s x. x)

unwritten-Holds : Holds [] unwritten
unfolding written
unwritten-Holds = record { in_file = refl; in_hash = refl; counted = refl; bounded = omega arith }

-- An archive of the entries, its object and the calls that wrote it.
abbrev pub IsArchive :
    (sha256 utf8 : Bytes → Bytes) → List Collected → CfsObject → Bytes → List Entry → Type 0
IsArchive sha256 utf8 es o bytes ps =
    AllDescribed utf8 es ps
    × (bytes ≡ magic ++ entry_bytes ps)
    × (o.tree_digest ≡ codes "sha256:" ++ sha256 bytes)
    × (o.size_bytes ≡ length bytes)
    × (o.size_bytes ≤ max_tree_bytes)

module _ (host : Host) (utf8 : Bytes → Bytes) (root object_root : AbsolutePath) (uuid : Bytes)
    (tree : Directory) where
  abbrev Exported : CfsObject → Export → Type 0
  Exported o s =
      (es : List Collected) × ((collect_entries tree ≡ ok es)
        × Archives host (staging_path object_root uuid) utf8 es o s)

  export_cfs-Archives :
      (is_directory : Bool)
      → ((es : List Collected) → collect_entries tree ≡ ok es → All (IsPath utf8) es)
      → Leads (Holds []) (export_cfs host is_directory root object_root uuid tree) Exported
  unfolding export_cfs
  export_cfs-Archives is_directory paths =
      let staging = staging_path object_root uuid in
      Leads-guard is_directory _ _ λ _.
        Triple-bind (perform host _) _ (perform-Holds host [] _ refl) λ _.
          Triple-bind (perform host _) _ (perform-Holds host [] _ refl) λ _.
            Triple-bind (perform host _) _ (perform-Holds host [] _ refl) λ _.
              Triple-catch (write_archive host staging root object_root tree) _
                (write_archive-Archives host staging utf8 root object_root tree paths)
                λ e. Triple-bind (attempt (perform host close_output)) _ (Leads-anywhere _) λ _.
                  Triple-bind (perform host (change (remove staging))) _ (Leads-anywhere _)
                    λ _. Triple-throw e (λ _ _. tt)

  IsArchive-of :
      (o : CfsObject) (s : Export)
      → Exported o s
      → (es : List Collected) × ((collect_entries tree ≡ ok es)
          × ((ps : List Entry) × IsArchive host.sha256 utf8 es o (written s.calls) ps))
  IsArchive-of o s (es, (found, (ps, ((described, named), h)))) =
      let same = sym h.in_file in
      let small : o.size_bytes ≤ max_tree_bytes = omega (arith, named.1, h.bounded) in
      (
        es,
        (
          found,
          (
            ps,
            (
              described,
              h.in_file,
              subst (λ b. o.tree_digest ≡ codes "sha256:" ++ host.sha256 b) same named.0,
              subst (λ b. o.size_bytes ≡ length b) same named.1,
              small,
            ),
          ),
        ),
      )

  -- When every name of the tree is a text, and decoding leaves the parts between slashes alone, an
  -- export that returns has written the magic and one entry for each path collected, in order, with
  -- its path, mode and rounded time, and each such that it can be extracted: its header fits, its
  -- path is safe, its mode has no set-id bit, and its payload has the length that the header says.
  -- The object's digest is that of these bytes, and its size theirs, at most the limit.
  pub export_cfs-IsArchive :
      (is_directory : Bool) (o : CfsObject) (s : Export)
      → SplitsAtSlash utf8
      → IsText utf8 []
      → AreTexts utf8 tree
      → export_cfs host is_directory root object_root uuid tree unwritten ≡ (ok o, s)
      → (es : List Collected) × ((collect_entries tree ≡ ok es)
          × ((ps : List Entry) × IsArchive host.sha256 utf8 es o (written s.calls) ps))
  export_cfs-IsArchive is_directory o s splits n texts e = IsArchive-of o s (
      subst (λ r. After Exported Anything r.0 r.1) e
        ((export_cfs-Archives is_directory
            (λ es. collect_entries-paths utf8 splits tree es n texts)).at
          unwritten unwritten-Holds))
