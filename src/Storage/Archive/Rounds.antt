-- ===== src/Storage/Archive/Rounds.antt =====
-- The loop of `extractCfs` of src/storage/cfs.ts: its fuel, and the entries that it places.
use electrosphere.Base.{
  ℕ, zero, suc, ◌≤◌, ◌<◌, ◌≡◌, ◌∙◌, refl, ap, true, false, List, [], ◌∷◌, ◌++◌, arith, All, length,
  take, length-drop, length-append, leb, ◌==◌, Bool-cases, inl, inr,
}
use electrosphere.Base.Bytes.{Bytes}
use electrosphere.Base.Paths.{AbsolutePath}
use electrosphere.Base.Exec.{ok, Result-cases, Exec, pure, continue, ◌>>=◌, ◌>>◌}
use electrosphere.Storage.Archive.{EntryHeader, is_set_id, is_safe_path, encode_header, read_header}
use electrosphere.Storage.Archive.RoundTrip.{
  Fits, read_header-encode_header, take-append, drop-append,
}
use electrosphere.Storage.Archive.Reading.{read_header-Admitted}
use electrosphere.Storage.Archive.Extract.{
  Disk, Extraction, place_entry, extract_payload, extract_entry, extract_entries,
}

module _ (disk : Disk) (staging : AbsolutePath) (utf8 : Bytes → Bytes) where
  extract_payload-rest :
      (h : EntryHeader) (bytes : Bytes) (s : Extraction) (rest : Bytes)
      → (extract_payload disk staging utf8 h bytes s).0 ≡ ok rest
      → length rest ≤ length bytes
  unfolding extract_payload
  extract_payload-rest h bytes s rest e = elim (Bool-cases (leb h.payload_length (length bytes))) [
    | inl fits ↦
        elim (Result-cases (place_entry disk staging utf8 h (take h.payload_length bytes) s).0) [
          | inl (_, placed) ↦ ground (arith, e, fits, placed, length-drop h.payload_length bytes)
          | inr (x, thrown) ↦ absurd (ground (arith, e, fits, thrown))
        ]
    | inr short ↦ absurd (ground (arith, e, short))
  ]

  extract_entry-rest :
      (bytes : Bytes) (s : Extraction) (rest : Bytes)
      → (extract_entry disk staging utf8 bytes s).0 ≡ ok rest
      → length rest < length bytes
  unfolding extract_entry
  extract_entry-rest bytes s rest e = elim (Result-cases (read_header utf8 bytes)) [
    | inl ((h, behind), read) ↦
        let shorter = (read_header-Admitted utf8 bytes h behind read).1 in
        let e' : (extract_payload disk staging utf8 h behind s).0 ≡ ok rest = (rw read refl) ∙ e in
        let less = extract_payload-rest h behind s rest e' in omega (arith, shorter, less)
    | inr (x, thrown) ↦ absurd (ground (arith, e, thrown))
  ]

  abbrev Agree : ℕ → ℕ → Bytes → Type 0
  Agree m n bytes =
      (s : Extraction)
      → extract_entries disk staging utf8 m bytes s ≡ extract_entries disk staging utf8 n bytes s

  extract_entries-more :
      (m n : ℕ) (bytes : Bytes) → length bytes ≤ m → length bytes ≤ n → Agree m n bytes
  unfolding extract_entries
  extract_entries-more zero zero bytes p q s = refl
  extract_entries-more zero (suc n) bytes p q s = ground (arith, p)
  extract_entries-more (suc m) zero bytes p q s = ground (arith, q)
  extract_entries-more (suc m) (suc n) bytes p q s = elim (Bool-cases (length bytes == 0)) [
    | inl e ↦ rw e refl
    | inr more ↦ rw more (elim (Result-cases (extract_entry disk staging utf8 bytes s).0) [
      | inl (rest, e) ↦
          let less = extract_entry-rest bytes s rest e in
          rw e (
            extract_entries-more m n rest (omega arith) (omega arith)
              (extract_entry disk staging utf8 bytes s).1)
      | inr (x, e) ↦ rw e refl
    ])
  ]

-- The loop of an extraction ends: as many rounds as there are bytes are enough, more change
-- nothing, whatever the bytes are and however the file system answers.
pub extract_entries-fuel :
    (disk : Disk) (staging : AbsolutePath) (utf8 : Bytes → Bytes) (fuel : ℕ) (bytes : Bytes)
    (s : Extraction)
    → length bytes ≤ fuel
    → extract_entries disk staging utf8 fuel bytes s
      ≡ extract_entries disk staging utf8 (length bytes) bytes s
extract_entries-fuel disk staging utf8 fuel bytes s enough =
    extract_entries-more disk staging utf8 fuel (length bytes) bytes enough (omega arith) s

-- An entry of an archive: its header and its payload.
abbrev pub Entry : Type 0
Entry = EntryHeader × Bytes

-- The bytes of the entries, in order.
unfoldable pub entry_bytes : List Entry → Bytes
entry_bytes [] = []
entry_bytes (e ∷ es) = encode_header e.0 ++ (e.1 ++ entry_bytes es)

-- The entries placed one after the other.
unfoldable pub place_entries :
    Disk
    → (staging : AbsolutePath) → (utf8 : Bytes → Bytes) → List Entry
    → Exec Extraction (Unit {0})
place_entries disk staging utf8 [] = pure tt
place_entries disk staging utf8 (e ∷ es) = do
  place_entry disk staging utf8 e.0 e.1
  place_entries disk staging utf8 es

-- An entry as an export writes it.
abbrev pub IsEntry : (utf8 : Bytes → Bytes) → Entry → Type 0
IsEntry utf8 (h, payload) =
    Fits h
    × (utf8 h.path ≡ h.path)
    × (is_safe_path h.path ≡ true)
    × (is_set_id h.mode ≡ false)
    × (h.payload_length ≡ length payload)

module _ (disk : Disk) (staging : AbsolutePath) (utf8 : Bytes → Bytes) where
  extract_payload-append :
      (h : EntryHeader) (payload rest : Bytes) (s : Extraction)
      → h.payload_length ≡ length payload
      → extract_payload disk staging utf8 h (payload ++ rest) s
        ≡ (place_entry disk staging utf8 h payload >> pure rest) s
  unfolding extract_payload
  extract_payload-append h payload rest s size =
      let enough : leb (length payload) (length (payload ++ rest)) ≡ true =
        ground (arith, length-append payload rest) in
      rw (size, enough, take-append payload rest, drop-append payload rest) refl

  extract_entry-entry :
      (h : EntryHeader) (payload rest : Bytes) (s : Extraction)
      → IsEntry utf8 (h, payload)
      → extract_entry disk staging utf8 (encode_header h ++ (payload ++ rest)) s
        ≡ (place_entry disk staging utf8 h payload >> pure rest) s
  unfolding extract_entry
  extract_entry-entry h payload rest s (fits, decoded, safe, plain, size) =
      rw (read_header-encode_header utf8 h (payload ++ rest) fits decoded safe plain)
        (extract_payload-append h payload rest s size)

  length-encode_header : (h : EntryHeader) → 0 < length (encode_header h)
  unfolding encode_header
  length-encode_header h = omega arith

  length-entry_bytes :
      (h : EntryHeader) (payload : Bytes) (es : List Entry)
      → length (entry_bytes es) < length (entry_bytes ((h, payload) ∷ es))
  unfolding entry_bytes
  length-entry_bytes h payload es = omega (
    arith,
    length-append (encode_header h) (payload ++ entry_bytes es),
    length-append payload (entry_bytes es),
    length-encode_header h,
  )

  entries-done :
      (fuel : ℕ) (s : Extraction) → extract_entries disk staging utf8 fuel [] s ≡ (ok tt, s)
  unfolding extract_entries
  entries-done zero s = refl
  entries-done (suc fuel) s = refl

  entries-next :
      (fuel : ℕ) (e : Entry) (es : List Entry) (s : Extraction)
      → extract_entries disk staging utf8 (suc fuel) (entry_bytes (e ∷ es)) s
        ≡ (extract_entry disk staging utf8 (entry_bytes (e ∷ es)) >>= λ rest.
              extract_entries disk staging utf8 fuel rest)
            s
  unfolding extract_entries
  entries-next fuel (h, payload) es s =
      let some : (length (entry_bytes ((h, payload) ∷ es)) == 0) ≡ false =
        ground (arith, length-entry_bytes h payload es) in
      rw some refl

  entries-placed :
      (fuel : ℕ) (es : List Entry) (s : Extraction)
      → All (IsEntry utf8) es
      → length (entry_bytes es) ≤ fuel
      → extract_entries disk staging utf8 fuel (entry_bytes es) s
        ≡ place_entries disk staging utf8 es s
  unfolding place_entries entry_bytes
  entries-placed fuel [] s good enough = entries-done fuel s
  entries-placed zero ((h, payload) ∷ es) s good enough =
      absurd (omega (arith, length-entry_bytes h payload es, enough))
  entries-placed (suc fuel) ((h, payload) ∷ es) s good enough =
      entries-next fuel (h, payload) es s
      ∙ ap (λ r. continue (λ rest. extract_entries disk staging utf8 fuel rest) r.0 r.1)
          (extract_entry-entry h payload (entry_bytes es) s good.0)
      ∙ elim (Result-cases (place_entry disk staging utf8 h payload s).0) [
        | inl (_, e) ↦ rw e (
            entries-placed fuel es (place_entry disk staging utf8 h payload s).1 good.1
              (omega (arith, length-entry_bytes h payload es, enough)))
        | inr (x, e) ↦ rw e refl
      ]

-- The archive of entries whose headers fit their fields, whose paths are safe and well-formed,
-- whose modes have no set-id bit, and whose payload lengths are right, is extracted by placing
-- exactly these entries, in order, up to the first that fails.
pub extract_entries-entry_bytes :
    (disk : Disk) (staging : AbsolutePath) (utf8 : Bytes → Bytes) (es : List Entry) (s : Extraction)
    → All (IsEntry utf8) es
    → extract_entries disk staging utf8 (length (entry_bytes es)) (entry_bytes es) s
      ≡ place_entries disk staging utf8 es s
extract_entries-entry_bytes disk staging utf8 es s good =
    entries-placed disk staging utf8 (length (entry_bytes es)) es s good (omega arith)
