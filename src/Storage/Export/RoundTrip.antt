-- ===== src/Storage/Export/RoundTrip.antt =====
-- What `exportCfs` of src/storage/cfs.ts writes, extracted by `extractCfs`.
use electrosphere.Base.{◌≡◌, refl, ap, ◌∙◌, List, [], ◌∷◌, ◌++◌, Bool, false, All}
use electrosphere.Base.Bytes.{Bytes}
use electrosphere.Base.Exec.{
  Result, ok, err, Exec, continue, handle, catch, gets, throw, ◌>>=◌, ◌>>◌,
}
use electrosphere.Base.Paths.{AbsolutePath}
use electrosphere.Storage.Archive.Extract.{
  Disk, Extraction, make_directory, remove, rename, magic, perform, extract_into, extract_cfs,
  set_directory_times,
}
use electrosphere.Storage.Archive.Rounds.{
  Entry, IsEntry, entry_bytes, place_entries, extract_entries-entry_bytes,
}
use electrosphere.Storage.Export.Tree.{Directory, Collected, collect_entries}
use electrosphere.Storage.Export.Texts.{IsText, AreTexts, SplitsAtSlash}
use electrosphere.Storage.Export.Archived.{written}
use electrosphere.Storage.Export.Writing.{Host, Export, CfsObject, unwritten, export_cfs}
use electrosphere.Storage.Export.Whole.{AllDescribed, export_cfs-IsArchive}

module _ (disk : Disk) (utf8 : Bytes → Bytes) (staging destination : AbsolutePath) where
  -- Entries placed in a fresh directory, which then replaces the destination.
  unfoldable pub place_into : List Entry → Exec Extraction (Unit {0})
  place_into ps = do
    place_entries disk staging utf8 ps
    times ← gets (λ s. s.directory_times)
    set_directory_times disk staging times
    perform disk (remove destination)
    perform disk (rename staging destination)

  unfoldable pub place_all : List Entry → Exec Extraction (Unit {0})
  place_all ps = do
    perform disk (make_directory staging false 448)
    catch (place_into ps) (λ e. do perform disk (remove staging); throw e)

  continue_same :
      {A B : Type 0} (f g : A → Exec Extraction B) (r : Result A) (s : Extraction)
      → ((a : A) (t : Extraction) → f a t ≡ g a t)
      → continue f r s ≡ continue g r s
  continue_same f g (ok a) s h = h a s
  continue_same f g (err e) s h = refl

  extract_into-place_into :
      (ps : List Entry) (s : Extraction)
      → All (IsEntry utf8) ps
      → extract_into disk staging utf8 destination (entry_bytes ps) s ≡ place_into ps s
  unfolding extract_into place_into
  extract_into-place_into ps s good =
      rw (extract_entries-entry_bytes disk staging utf8 ps s good) refl

  extract_cfs-magic :
      (ps : List Entry) (s : Extraction)
      → All (IsEntry utf8) ps
      → extract_cfs disk utf8 staging destination (magic ++ entry_bytes ps) s ≡ place_all ps s
  unfolding extract_cfs place_all
  extract_cfs-magic ps s good = continue_same _ _ _ _ λ _ t.
      ap (λ r. handle (λ e. perform disk (remove staging) >> throw e) r.0 r.1)
        (extract_into-place_into ps t good)

All-described :
    (utf8 : Bytes → Bytes) (es : List Collected) (ps : List Entry)
    → AllDescribed utf8 es ps
    → All (IsEntry utf8) ps
unfolding AllDescribed
All-described utf8 [] [] h = tt
All-described utf8 [] (p ∷ ps) h = absurd h
All-described utf8 (e ∷ es) [] h = absurd h
All-described utf8 (e ∷ es) (p ∷ ps) h = (h.0.1, All-described utf8 es ps h.1)

-- Under the conditions of `export_cfs-IsArchive`, the bytes that an export has written are
-- extracted, whatever the file system answers then, by placing exactly the entries that describe
-- what was collected, one by one, and then replacing the destination.
pub extract_cfs-export_cfs :
    (host : Host) (utf8 : Bytes → Bytes) (root object_root : AbsolutePath) (uuid : Bytes)
    (tree : Directory) (is_directory : Bool) (o : CfsObject) (s : Export)
    → SplitsAtSlash utf8
    → IsText utf8 []
    → AreTexts utf8 tree
    → export_cfs host is_directory root object_root uuid tree unwritten ≡ (ok o, s)
    → (ps : List Entry) × ((es : List Collected) × ((collect_entries tree ≡ ok es)
          × AllDescribed utf8 es ps
          × ((disk : Disk) (staging destination : AbsolutePath) (x : Extraction)
              → extract_cfs disk utf8 staging destination (written s.calls) x
                ≡ place_all disk utf8 staging destination ps x)))
extract_cfs-export_cfs host utf8 root object_root uuid tree is_directory o s splits n texts e =
    let (es, (found, (ps, archive))) =
      export_cfs-IsArchive host utf8 root object_root uuid tree is_directory o s splits n texts e in
    let good = All-described utf8 es ps archive.0 in
    (
      ps,
      (
        es,
        (
          found,
          archive.0,
          λ disk staging destination x.
              ap (λ b. extract_cfs disk utf8 staging destination b x) archive.1
              ∙ extract_cfs-magic disk utf8 staging destination ps x good,
        ),
      ),
    )
