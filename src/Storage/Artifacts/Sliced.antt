-- ===== src/Storage/Artifacts/Sliced.antt =====
-- What the stream of `open` of src/storage/artifacts.ts yields.
use electrosphere.Base.{
  ℕ, zero, suc, ◌+◌, ◌-◌, String, ◌≤◌, ◌<◌, ◌≡◌, refl, sym, subst, ap, ◌∙◌, min, true, false,
  Option, none, some, [], ◌∷◌, ◌++◌, arith, length, take, drop, drop-drop, length-drop, length-take,
  ◌==◌, get_or, Bool-cases, inl, inr,
}
use electrosphere.Base.Bytes.{Bytes}
use electrosphere.Base.Exec.{ok, lift}
use electrosphere.Base.Exec.Triple.{After, Triple-bind, Triple-throw, Triple-pure}
use electrosphere.Base.Exec.Leads.{Anything, Leads, Leads-lift, Leads-exists, Leads-guard}
use electrosphere.Storage.Database.{Artifact}
use electrosphere.Storage.Repository.Artifacts.{get_granted_artifact}
use electrosphere.Mcp.Files.{Source}
use electrosphere.Mcp.Read.Handler.{append_all}
use electrosphere.Storage.Artifacts.Store.{
  Store, StoreEnv, StoredRef, stream_chunk_bytes, find_file, pull_chunks, is_consistent,
  resolve_row, resolve_found, read_open, is_range, open_range, resolve_artifact, open_artifact,
}

take_nil : (n : ℕ) → take {A = ℕ} n [] ≡ []
take_nil zero = refl
take_nil (suc n) = refl

take-split : (a b r : ℕ) (xs : Bytes) → r ≡ a + b → take a xs ++ take b (drop a xs) ≡ take r xs
take-split zero b r xs h = ap (λ j. take j xs) (omega (arith, h))
take-split (suc a) b zero xs h = absurd (omega (arith, h))
take-split (suc a) b (suc r) [] h = take_nil b
take-split (suc a) b (suc r) (x ∷ xs) h = ap (◌∷◌ x) (take-split a b r xs (omega (arith, h)))

-- The stream closes without an error and yields this slice.
abbrev pub Slices : (content : Bytes) → (position size : ℕ) → Source → Type 0
Slices content position size source =
    (source.failure ≡ none) × (append_all source.chunks ≡ take size (drop position content))

-- How far a pull comes.
pulled_size :
    (content : Bytes) (position remaining : ℕ)
    → position + remaining ≤ length content
    → length (take (min stream_chunk_bytes remaining) (drop position content))
      ≡ min stream_chunk_bytes remaining
pulled_size content position remaining inside =
    let n = min stream_chunk_bytes remaining in
    let a = length-take n (drop position content) in
    let b = length-drop position content in omega (arith, a, b, inside)

pull_chunks-Slices :
    (fuel : ℕ) (content : Bytes) (position remaining : ℕ)
    → position + remaining ≤ length content
    → remaining ≤ fuel
    → Slices content position remaining (pull_chunks fuel content position remaining)
unfolding pull_chunks
pull_chunks-Slices zero content position remaining inside enough =
    let done : 0 ≡ remaining = omega (arith, enough) in
    (refl, ap (λ n. take n (drop position content)) done)
pull_chunks-Slices (suc fuel) content position remaining inside enough =
    elim (Bool-cases (remaining == 0)) [
      | inl done ↦
          let end : 0 ≡ remaining = ground (arith, done) in
          rw done (refl, ap (λ n. take n (drop position content)) end)
      | inr more ↦
          let n = min stream_chunk_bytes remaining in
          let size = pulled_size content position remaining inside in
          let some_bytes : (length (take n (drop position content)) == 0) ≡ false =
            ground (arith, more, size) in
          let more_left : 0 < remaining = ground (arith, more) in
          let (closed, yielded) =
            pull_chunks-Slices fuel content (position + n) (remaining - n) (omega (arith, inside))
              (omega (arith, enough, more_left)) in
          let moved = sym (drop-drop position n (position + n) content refl) in
          rw (more, some_bytes, size)
            (
              closed,
              ap (λ x. take n (drop position content) ++ x)
                    (yielded ∙ ap (λ x. take (remaining - n) x) moved)
                  ∙ take-split n (remaining - n) remaining (drop position content) (omega arith),
            )
    ]

-- The file of an artifact is there, with the recorded size.
abbrev pub IsStored : Store → StoredRef → Bytes → Type 0
IsStored s ref content =
    (find_file ref.path s.files ≡ some content) × (length content ≡ ref.size_bytes)

-- What is found of an artifact, in a state that has not changed.
abbrev Found : Store → StoredRef → Store → Type 0
Found s ref t = ((content : Bytes) × IsStored s ref content) × (t ≡ s)

module _ (env : StoreEnv) (s : Store) where
  consistent :
      (file : Option Bytes) (row : Artifact)
      → is_consistent file row ≡ true
      → (content : Bytes) × ((file ≡ some content) × (length content ≡ row.size_bytes))
  consistent none row h = ground (arith, h)
  consistent (some content) row h = (content, (refl, ground (arith, h)))

  resolve_row-Found : (row : Artifact) → Leads (λ t. t ≡ s) (resolve_row env row) (Found s)
  unfolding resolve_row
  resolve_row-Found row =
      Triple-bind (lift (env.media_type_of row.metadata_json)) _
        (Leads-lift (env.media_type_of row.metadata_json))
        λ media_type. Leads-exists _ λ _. record {
          at = λ t same. elim (Bool-cases (is_consistent (find_file row.path t.files) row)) [
            | inr bad ↦ rw bad tt
            | inl good ↦
                let stored = consistent (find_file row.path t.files) row good in
                rw good (
                  (
                    stored.0,
                    (ap (λ u. find_file row.path u.files) (sym same) ∙ stored.1.0, stored.1.1),
                  ),
                  same,
                )
          ];
        }

  resolve_found-Found :
      (row : Option Artifact) → Leads (λ t. t ≡ s) (resolve_found env row) (Found s)
  resolve_found-Found none = Triple-throw _ (λ _ _. tt)
  resolve_found-Found (some row) = resolve_row-Found row

  resolve_artifact-Found :
      (thread_id digest : String)
      → Leads (λ t. t ≡ s) (resolve_artifact env thread_id digest) (Found s)
  unfolding resolve_artifact
  resolve_artifact-Found thread_id digest = record {
    at = λ t same. (resolve_found-Found (get_granted_artifact t.db thread_id digest)).at t same;
  }

  -- A stream of the artifact's bytes from the offset on, as many as were asked for and are there.
  abbrev pub Opened : (offset limit : Option ℕ) → Source × StoredRef → Type 0
  Opened offset limit (source, ref) =
      let start = get_or offset 0 in
      let left = ref.size_bytes - start in
      (content : Bytes) × (IsStored s ref content
        × (start ≤ length content)
        × Slices content start (min (get_or limit left) left) source)

  read_open-Opened :
      (ref : StoredRef) (content : Bytes) (offset limit : Option ℕ)
      → IsStored s ref content
      → get_or offset 0 ≤ ref.size_bytes
      → Leads
          (λ t. t ≡ s)
          (read_open ref.path (get_or offset 0) (
            min
              (get_or limit (ref.size_bytes - get_or offset 0))
              (ref.size_bytes - get_or offset 0)))
          (λ source _. Opened offset limit (source, ref))
  read_open-Opened ref content offset limit (found, size) inside = record {
    at = λ t same.
        let there : find_file ref.path t.files ≡ some content =
          ap (λ u. find_file ref.path u.files) same ∙ found in
        let start = get_or offset 0 in
        let left = ref.size_bytes - start in
        rw there (
          content,
          (
            (found, size),
            omega (arith, inside, size),
            pull_chunks-Slices (min (get_or limit left) left) content start
                (min (get_or limit left) left) (omega (arith, inside, size)) (omega arith),
          ),
        );
  }

  open_range-Opened :
      (ref : StoredRef) (content : Bytes) (offset limit : Option ℕ)
      → IsStored s ref content
      → Leads (λ t. t ≡ s) (open_range ref offset limit) (λ r _. Opened offset limit r)
  unfolding open_range
  open_range-Opened ref content offset limit stored =
      let start = get_or offset 0 in
      let size = get_or limit (ref.size_bytes - start) in
      Leads-guard (is_range ref start size) _ _ λ good.
        let inside : start ≤ ref.size_bytes = ground (arith, good) in
        Triple-bind (read_open ref.path start (min size (ref.size_bytes - start))) _
          (read_open-Opened ref content offset limit stored inside)
          λ source. Triple-pure (source, ref) (λ _ h. h)

-- An open that returns gives a stream of the artifact's file, which is there with the recorded
-- size: without an error it yields the bytes from the offset on, as many as the limit allows and
-- the file has, the whole file where no range is given.
pub open_artifact-Opened :
    (env : StoreEnv) (s : Store) (thread_id digest : String) (offset limit : Option ℕ)
    (source : Source) (ref : StoredRef) (t : Store)
    → open_artifact env thread_id digest offset limit s ≡ (ok (source, ref), t)
    → Opened env s offset limit (source, ref)
unfolding open_artifact
open_artifact-Opened env s thread_id digest offset limit source ref t e =
    subst (λ r. After (λ x _. Opened env s offset limit x) Anything r.0 r.1) e
      ((Triple-bind (resolve_artifact env thread_id digest) _
          (resolve_artifact-Found env s thread_id digest)
          λ artifact.
            Leads-exists _
              λ (content, stored). open_range-Opened env s artifact content offset limit stored).at
        s refl)
