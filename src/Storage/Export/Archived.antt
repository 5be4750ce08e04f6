-- ===== src/Storage/Export/Archived.antt =====
-- What `exportCfs` of src/storage/cfs.ts writes: the magic and entries that can be extracted.
use electrosphere.Base.{
  ◌+◌, ◌<◌, ◌≤◌, ◌≡◌, sym, subst, ap, ◌∙◌, List, [], ◌∷◌, ◌++◌, arith, append-nil, length,
  length-append, leb, leb→le, Bool-cases, inl, inr,
}
use electrosphere.Base.Bytes.{Bytes}
use electrosphere.Base.Exec.{ok, lift}
use electrosphere.Base.Exec.Triple.{After-both, After-always, Keeps, Triple-bind, Triple-weaken}
use electrosphere.Base.Exec.Leads.{Anything, Leads, Leads-lift, Leads-exists}
use electrosphere.Base.Paths.{AbsolutePath}
use electrosphere.Storage.Archive.{EntryHeader, encode_header}
use electrosphere.Storage.Archive.Extract.{DiskCall, write_file}
use electrosphere.Storage.Export.Writing.{
  ExportCall, change, Host, Export, max_tree_bytes, checked_header, perform, read_bytes, append,
  append_header,
}

-- The bytes of a call that writes to the archive's handle.
abbrev disk_bytes : DiskCall → Bytes
disk_bytes (write_file path bytes) = bytes
disk_bytes _ = []

abbrev bytes_of : ExportCall → Bytes
bytes_of (change call) = disk_bytes call
bytes_of _ = []

-- The bytes that the calls, the latest first, have written.
unfoldable pub written : List ExportCall → Bytes
written [] = []
written (call ∷ calls) = written calls ++ bytes_of call

-- The archive has these bytes: in its file, for the hasher and as they are counted.
pub record Holds (b : Bytes) (s : Export) : Type 0 where
  pub in_file : written s.calls ≡ b
  pub in_hash : s.hashed ≡ b
  pub counted : s.total ≡ length b
  pub bounded : length b ≤ max_tree_bytes

-- The fields of a header that can be too wide are not.
abbrev pub Narrow : EntryHeader → Type 0
Narrow h = (length h.path < 4_294_967_296) × (h.mtime_ns < 18_446_744_073_709_551_616)

silent-Holds :
    (s : Export) (b : Bytes) (call : ExportCall)
    → Holds b s
    → bytes_of call ≡ []
    → Holds b (record s { calls = call ∷ s.calls })
unfolding written
silent-Holds s b call h silent = record {
  in_file = rw silent (append-nil (written s.calls) ∙ h.in_file);
  in_hash = h.in_hash;
  counted = h.counted;
  bounded = h.bounded;
}

checked_header-ok :
    (h : EntryHeader) (bytes : Bytes)
    → checked_header h ≡ ok bytes
    → Narrow h × (encode_header h ≡ bytes)
unfolding checked_header
checked_header-ok h bytes e = ground (arith, e)

module _ (host : Host) where
  pub perform-Keeps :
      (b : Bytes) (call : ExportCall) → bytes_of call ≡ [] → Keeps (Holds b) (perform host call)
  unfolding perform
  perform-Keeps b call silent = record {
    at = λ s h.
        After-always (Holds b) (host.answer s.calls call) (record s { calls = call ∷ s.calls })
          (silent-Holds s b call h silent);
  }

  pub perform-Holds :
      (b : Bytes) (call : ExportCall)
      → bytes_of call ≡ []
      → Leads (Holds b) (perform host call) (λ _. Holds b)
  perform-Holds b call silent =
      Triple-weaken _ (perform-Keeps b call silent) (λ s h. h) (λ _ s h. h) (λ _ s h. tt)

  pub read_bytes-Holds :
      (b : Bytes) (call : ExportCall)
      → bytes_of call ≡ []
      → Leads (Holds b) (read_bytes host call) (λ _. Holds b)
  unfolding read_bytes written
  read_bytes-Holds b call silent = record {
    at = λ s h.
        After-both (λ _. Holds b) Anything (host.bytes s.calls call)
          (record s { calls = call ∷ s.calls }) (λ _. silent-Holds s b call h silent) (λ _. tt);
  }

  module _ (staging : AbsolutePath) where
    pub append-Holds :
        (b chunk : Bytes) → Leads (Holds b) (append host staging chunk) (λ _. Holds (b ++ chunk))
    unfolding append perform written
    append-Holds b chunk = record {
      at = λ s h. elim (Bool-cases (leb (s.total + length chunk) max_tree_bytes)) [
        | inl small ↦ rw small (
            After-both (λ _. Holds (b ++ chunk)) Anything
              (host.answer s.calls (change (write_file staging chunk))) _
              (λ _. record {
                in_file = ap (λ x. x ++ chunk) h.in_file;
                in_hash = ap (λ x. x ++ chunk) h.in_hash;
                counted = omega (arith, length-append b chunk, h.counted);
                bounded =
                    let fits = leb→le (s.total + length chunk) max_tree_bytes small in
                    omega (arith, length-append b chunk, h.counted, fits);
              })
              (λ _. tt))
        | inr large ↦ rw large tt
      ];
    }

    pub append_header-Holds :
        (b : Bytes) (h : EntryHeader)
        → Leads
            (Holds b)
            (append_header host staging h)
            (λ _ s. Narrow h × Holds (b ++ encode_header h) s)
    unfolding append_header
    append_header-Holds b h =
        Triple-bind (lift (checked_header h)) _ (Leads-lift (checked_header h)) λ bytes.
          Leads-exists _ λ checked.
            let (narrow, same) = checked_header-ok h bytes checked in
            Triple-weaken _ (append-Holds b bytes) (λ s p. p)
              (λ _ s p. (narrow, subst (λ x. Holds (b ++ x) s) (sym same) p)) (λ _ s x. x)
