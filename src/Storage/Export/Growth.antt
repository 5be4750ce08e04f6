-- ===== src/Storage/Export/Growth.antt =====
-- The entry that a round of `exportCfs` of src/storage/cfs.ts writes.
use electrosphere.Base.{
  ℕ, zero, suc, ◌+◌, ◌%◌, ◌<◌, ◌≤◌, ◌≡◌, refl, sym, subst, false, not, Option, none, some, [], ◌++◌,
  arith, append_assoc, append-nil, length, length-append, leb, ltb, ◌==◌, Bool-cases, inl, inr,
}
use electrosphere.Base.Bytes.{Bytes}
use electrosphere.Base.Exec.{Result, ok, err, attempt, lift, pure, ◌>>◌}
use electrosphere.Base.Exec.Triple.{
  After, Triple-pure, Triple-throw, Triple-bind, Triple-attempt, Triple-weaken,
}
use electrosphere.Base.Exec.Leads.{Anything, Leads, Leads-exists, Leads-anywhere, Leads-guard}
use electrosphere.Base.Paths.{AbsolutePath}
use electrosphere.Domain.Errors.{ErrorCode, throws}
use electrosphere.Storage.Archive.{is_set_id, encode_header}
use electrosphere.Storage.Archive.Extract.{unsupported}
use electrosphere.Storage.Archive.Rounds.{Entry, IsEntry}
use electrosphere.Storage.Export.Tree.{FileKind, Collected}
use electrosphere.Storage.Export.Texts.{IsPath}
use electrosphere.Storage.Export.Writing.{
  absolute, open_input, close_input, Host, Export, max_tree_bytes, header_for, perform, read_bytes,
  append, append_header, append_link, is_inside, known_link, max_file_bytes, export_symlink,
  copy_chunks, copy_file, remember_link, export_content, export_linked, export_file, export_kind,
  export_entry,
}
use electrosphere.Storage.Export.Archived.{
  Holds, Narrow, perform-Holds, read_bytes-Holds, append-Holds, append_header-Holds,
}

-- The header has the entry's path, mode and time.
abbrev pub Describes : Collected → Entry → Type 0
Describes e p = p.0 ≡ header_for e p.0.entry_type p.0.payload_length

module _ (host : Host) (staging : AbsolutePath) (utf8 : Bytes → Bytes) where
  header_for-IsEntry :
      (e : Collected) (t : ℕ) (payload : Bytes)
      → IsPath utf8 e
      → is_set_id (e.stats.mode % 4096) ≡ false
      → t < 256
      → length payload ≤ max_tree_bytes
      → Narrow (header_for e t (length payload))
      → IsEntry utf8 (header_for e t (length payload), payload)
  header_for-IsEntry e t payload (safe, text) plain small fits (short, young) =
      ((short, small, omega arith, young, omega (arith, fits)), text, safe, plain, refl)

  -- The entry more than the bytes, as it can be extracted.
  abbrev pub Grows : Collected → Bytes → Export → Type 0
  Grows e b s =
      (p : Entry) × ((Describes e p × IsEntry utf8 p) × Holds (b ++ (encode_header p.0 ++ p.1)) s)

  grown :
      (b : Bytes) (e : Collected) (t : ℕ) (payload : Bytes) (s : Export)
      → IsPath utf8 e
      → is_set_id (e.stats.mode % 4096) ≡ false
      → t < 256
      → Narrow (header_for e t (length payload))
      → Holds ((b ++ encode_header (header_for e t (length payload))) ++ payload) s
      → Grows e b s
  grown b e t payload s path plain small narrow h =
      let header = header_for e t (length payload) in
      let fits : length payload ≤ max_tree_bytes =
        omega (arith, h.bounded, length-append (b ++ encode_header header) payload) in
      (
        (header, payload),
        (
          (refl, header_for-IsEntry e t payload path plain small fits narrow),
          subst (λ x. Holds x s) (append_assoc b (encode_header header) payload) h,
        ),
      )

  module _ (e : Collected) (path : IsPath utf8 e) (plain : is_set_id (e.stats.mode % 4096) ≡ false)
      (b : Bytes) where
    append_link-Grows :
        (t : ℕ) (target : Bytes)
        → t < 256
        → Leads (Holds b) (append_link host staging e t target) (λ _. Grows e b)
    unfolding append_link
    append_link-Grows t target small =
        let header = header_for e t (length target) in
        Triple-bind (append_header host staging header) _
          (append_header-Holds host staging b header)
          λ _. Leads-exists _ λ narrow.
            Triple-weaken _ (append-Holds host staging (b ++ encode_header header) target)
              (λ s p. p) (λ _ s. grown b e t target s path plain small narrow) (λ _ s x. x)

    append_directory-Grows :
        Leads (Holds b) (append_header host staging (header_for e 1 0)) (λ _. Grows e b)
    append_directory-Grows =
        Triple-weaken _ (append_header-Holds host staging b (header_for e 1 0)) (λ s p. p)
          (λ _ s p.
            grown b e 1 [] s path plain (omega arith) p.0 (
              subst (λ x. Holds x s) (sym (append-nil (b ++ encode_header (header_for e 1 0))))
                p.1))
          (λ _ s x. x)

    module _ (root : AbsolutePath) where
      copied_nothing :
          (a : Bytes) (offset : ℕ)
          → Leads
              (Holds a)
              (pure offset)
              (λ end s. (c : Bytes) × ((end ≡ offset + length c) × Holds (a ++ c) s))
      copied_nothing a offset =
          Triple-pure offset
            λ s h. ([], (omega arith, subst (λ x. Holds x s) (sym (append-nil a)) h))

      copy_chunks-Holds :
          (a : Bytes) (fuel offset : ℕ)
          → Leads
              (Holds a)
              (copy_chunks host staging root e fuel offset)
              (λ end s. (c : Bytes) × ((end ≡ offset + length c) × Holds (a ++ c) s))
      unfolding copy_chunks
      copy_chunks-Holds a zero offset = copied_nothing a offset
      copy_chunks-Holds a (suc fuel) offset = elim (Bool-cases (ltb offset e.stats.size)) [
        | inl more ↦ rw more (
            Triple-bind (read_bytes host _) _ (read_bytes-Holds host a _ refl) λ chunk.
              elim (Bool-cases (length chunk == 0)) [
                | inl at_end ↦ rw at_end (copied_nothing a offset)
                | inr some_bytes ↦ rw some_bytes (
                    Triple-bind (append host staging chunk) _ (append-Holds host staging a chunk)
                      λ _.
                        Triple-weaken _
                          (copy_chunks-Holds (a ++ chunk) fuel (offset + length chunk)) (λ s p. p)
                          (λ end s (c, (count, h)). (
                            chunk ++ c,
                            (
                              omega (arith, count, length-append chunk c),
                              subst (λ x. Holds x s) (append_assoc a chunk c) h,
                            ),
                          ))
                          (λ _ s x. x))
              ])
        | inr done ↦ rw done (copied_nothing a offset)
      ]

      -- What `copy_file` leaves, where it does not throw.
      abbrev Complete : (a : Bytes) → Export → Type 0
      Complete a s = (c : Bytes) × ((length c ≡ e.stats.size) × Holds (a ++ c) s)

      copy_file-Complete :
          (a : Bytes) → Leads (Holds a) (copy_file host staging root e) (λ _. Complete a)
      unfolding copy_file
      copy_file-Complete a =
          Triple-bind (copy_chunks host staging root e e.stats.size 0) _
            (copy_chunks-Holds a e.stats.size 0)
            λ end. record {
              at = λ s (c, (count, h)). elim (Bool-cases (end == e.stats.size)) [
                | inl all_read ↦ rw all_read (c, (ground (arith, all_read, count), h))
                | inr cut ↦ rw cut tt
              ];
            }

      closed :
          (a : Bytes) (copied : Result (Unit {0}))
          → Leads
              (After (λ _. Complete a) Anything copied)
              (perform host (close_input (absolute root e)) >> lift copied)
              (λ _. Complete a)
      closed a (ok _) = Leads-exists _ λ c. Leads-exists _ λ count.
          Triple-bind (perform host (close_input (absolute root e))) _
            (perform-Holds host (a ++ c) _ refl) λ _. record { at = λ s h. (c, (count, h)) }
      closed a (err x) =
          Triple-bind (perform host (close_input (absolute root e))) _
            (Leads-anywhere (perform host (close_input (absolute root e))))
            λ _. record { at = λ s h. tt }

      remember_link-Holds : Leads (Holds b) (remember_link host staging root e) (λ _. Holds b)
      unfolding remember_link
      remember_link-Holds = record {
        at = λ s h. elim (Bool-cases (ltb 1 e.stats.nlink)) [
          | inl shared ↦ rw shared (record {
            in_file = h.in_file;
            in_hash = h.in_hash;
            counted = h.counted;
            bounded = h.bounded;
          })
          | inr alone ↦ rw alone h
        ];
      }

      export_content-Grows : Leads (Holds b) (export_content host staging root e) (λ _. Grows e b)
      unfolding export_content
      export_content-Grows =
          let header = header_for e 2 e.stats.size in
          Triple-bind (remember_link host staging root e) _ remember_link-Holds λ _.
            Triple-bind (append_header host staging header) _
              (append_header-Holds host staging b header)
              λ _. Leads-exists _ λ narrow.
                Triple-bind (perform host (open_input (absolute root e))) _
                  (perform-Holds host (b ++ encode_header header) _ refl)
                  λ _.
                    Triple-bind (attempt (copy_file host staging root e)) _
                      (Triple-attempt (copy_file host staging root e)
                        (copy_file-Complete (b ++ encode_header header)))
                      λ copied.
                        Triple-weaken _ (closed (b ++ encode_header header) copied) (λ s p. p)
                          (λ _ s (c, (count, h)).
                            grown b e 2 c s path plain (omega arith)
                              (subst (λ n. Narrow (header_for e 2 n)) (sym count) narrow)
                              (subst (λ n. Holds ((b ++ encode_header (header_for e 2 n)) ++ c) s)
                                (sym count) h))
                          (λ _ s x. x)

      export_linked-Grows :
          (target : Option Bytes)
          → Leads (Holds b) (export_linked host staging root e target) (λ _. Grows e b)
      unfolding export_linked
      export_linked-Grows none = export_content-Grows
      export_linked-Grows (some target) = append_link-Grows 4 target (omega arith)

      export_file-Grows : Leads (Holds b) (export_file host staging root e) (λ _. Grows e b)
      unfolding export_file
      export_file-Grows =
          Leads-guard (leb e.stats.size max_file_bytes)
            (throws ErrorCode.snapshot_limit "File exceeds size limit") _
            λ _. record { at = λ s h. (export_linked-Grows (known_link e s.hard_links)).at s h }

      export_symlink-Grows : Leads (Holds b) (export_symlink host staging root e) (λ _. Grows e b)
      unfolding export_symlink
      export_symlink-Grows =
          Triple-bind (read_bytes host _) _ (read_bytes-Holds host b _ refl) λ target.
            Leads-guard (is_inside root e target) (unsupported "Symlink target escapes workspace")
              (append_link host staging e 3 target) λ _. append_link-Grows 3 target (omega arith)

      export_kind-Grows :
          (kind : FileKind)
          → Leads (Holds b) (export_kind host staging root kind e) (λ _. Grows e b)
      unfolding export_kind
      export_kind-Grows FileKind.directory = append_directory-Grows
      export_kind-Grows FileKind.symbolic_link = export_symlink-Grows
      export_kind-Grows FileKind.file = export_file-Grows
      export_kind-Grows FileKind.other = Triple-throw _ (λ _ _. tt)

  pub export_entry-Grows :
      (root : AbsolutePath) (e : Collected) (b : Bytes)
      → IsPath utf8 e
      → Leads (Holds b) (export_entry host staging root e) (λ _. Grows e b)
  unfolding export_entry
  export_entry-Grows root e b path =
      Leads-guard (not (is_set_id (e.stats.mode % 4096)))
        (unsupported "setuid/setgid entry rejected") (export_kind host staging root e.stats.kind e)
        λ plain. export_kind-Grows e path (ground (arith, plain)) b root e.stats.kind
