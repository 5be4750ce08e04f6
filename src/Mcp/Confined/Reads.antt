-- ===== src/Mcp/Confined/Reads.antt =====
-- What the `read`, `artifact_export` and `artifact_materialize` handlers of src/mcp/server.ts ask
-- of the backends.
use electrosphere.Base.{
  ℕ, zero, suc, ◌+◌, ◌≡◌, Bool, true, false, not, ◌||◌, ◌∷◌, Option, none, [], length, leb, ltb,
  min, max, ◌==◌, Bool-cases, inl, inr, get_or,
}
use electrosphere.Base.Bytes.{Bytes}
use electrosphere.Base.Exec.{Result, ok, err, Exec}
use electrosphere.Base.Exec.Triple.{
  Keeps, Keeps-bind, Keeps-continue, Keeps-if, Keeps-pure, Keeps-throw,
}
use electrosphere.Domain.Turns.{BoundTurn}
use electrosphere.Mcp.Paths.{
  normalize_workspace_path, parse_artifact_uri, media_type_for_path, looks_binary,
  is_text_media_type,
}
use electrosphere.Mcp.Paths.Safe.{is_clean, normalize-clean, clean-true}
use electrosphere.Mcp.Streaming.{select_lines, read_lines, no_lines}
use electrosphere.Mcp.Files.{
  FileStat, FileBytes, FileReadInput, Source, file_stat, file_read, file_read_bytes, file_write,
  Backends, ServerState, ArtifactRef, ArtifactStore, FileContext,
}
use electrosphere.Mcp.Tools.{is_file, max_raw_bytes}
use electrosphere.Mcp.Read.{
  ask_stat, ask_bytes, pulled, stream_workspace_file, export_workspace_artifact, export_in,
  digest_of, materialize_in,
}
use electrosphere.Mcp.Read.Handler.{
  ReadArguments, Codecs, read_all, read_artifact_text, read_artifact_raw, read_artifact,
  read_linked, read_raw, read_with, read_text, read_workspace, read_in, is_directory_type,
}
use electrosphere.Mcp.Confined.{IsCleanCall, IsRuntime, Confined, Keeps-ask, Keeps-on_server}
use electrosphere.Storage.Database.{Db}

module _ (db : Db) (turn : BoundTurn) (b : Backends) (c : FileContext)
    (runtime : IsRuntime db turn c.place) where
  abbrev K : {A : Type 0} → Exec ServerState A → Type 0
  K m = Keeps (Confined db turn) m

  module _ (p : Bytes) (clean : is_clean true p ≡ true) where
    ask_stat-Confined : K (ask_stat b c.place p)
    unfolding IsCleanCall
    ask_stat-Confined = Keeps-ask db turn c.place (file_stat p) _ runtime clean

    ask_bytes-Confined : (offset limit : ℕ) → K (ask_bytes b c.place p offset limit)
    unfolding IsCleanCall
    ask_bytes-Confined offset limit =
        Keeps-ask db turn c.place (file_read_bytes p offset limit) _ runtime clean

    pulled-Confined :
        (size : ℕ) (r : Result FileBytes) (rest : ℕ → Exec ServerState Source)
        → ((n : ℕ) → K (rest n))
        → K (pulled size r rest)
    pulled-Confined size (err e) rest keeps = Keeps-pure _
    pulled-Confined size (ok r) rest keeps =
        elim (Bool-cases (not (r.size == size) || length r.data_bytes == 0)) [
          | inl bad ↦ rw bad (Keeps-pure _)
          | inr good ↦ rw good (elim (Bool-cases r.eof) [
            | inl last ↦ rw last (Keeps-pure _)
            | inr more ↦
                rw more (Keeps-bind _ _ (keeps (length r.data_bytes)) λ source. Keeps-pure _)
          ])
        ]

    stream-Confined :
        (size fuel offset : ℕ) → K (stream_workspace_file b c.place p size fuel offset)
    unfolding stream_workspace_file IsCleanCall
    stream-Confined size zero offset = record { at = λ s h. h }
    stream-Confined size (suc fuel) offset = record {
      at = λ s h. elim (Bool-cases (leb size offset)) [
        | inl finished ↦ rw finished h
        | inr more ↦ rw more (
            (pulled-Confined size (b.read_bytes s.calls c.place p offset max_raw_bytes) _
                (λ n. stream-Confined size fuel (offset + n))).at
              (record s { calls = (c.place, file_read_bytes p offset max_raw_bytes) ∷ s.calls })
              ((runtime, clean), h))
      ];
    }

    module _ (store : ArtifactStore) where
      export-Confined :
          (media_type : Bytes) (filename : Option Bytes)
          → K (export_workspace_artifact b store c p media_type filename)
      unfolding export_workspace_artifact
      export-Confined media_type filename = Keeps-bind _ _ ask_stat-Confined λ stat.
          elim (Bool-cases (is_file stat.file_type)) [
            | inl regular ↦ rw regular (
                Keeps-bind _ _ (stream-Confined stat.size (stat.size + 1) 0)
                  λ source. Keeps-on_server db turn _)
            | inr other ↦ rw other (Keeps-throw _)
          ]

  module _ (store : ArtifactStore) where
    pub export_in-Confined :
        (is_utf8 : Bytes → Bool) (path : Bytes) (media_type filename : Option Bytes)
        → K (export_in b store is_utf8 path media_type filename c)
    unfolding export_in
    export_in-Confined is_utf8 path media_type filename =
        Keeps-continue (normalize_workspace_path false path) _ λ p e.
          let clean = clean-true p (normalize-clean false path p e) in
          Keeps-bind _ _ (ask_stat-Confined p clean) λ stat.
            elim (Bool-cases (is_file stat.file_type)) [
              | inl regular ↦ rw regular (
                  Keeps-bind _ _ (ask_bytes-Confined p clean 0 (max 1 (min 8192 stat.size)))
                    λ prefix. export-Confined p clean store _ filename)
              | inr other ↦ rw other (Keeps-throw _)
            ]

    pub materialize_in-Confined :
        (artifact path : Bytes) (create_parents : Bool)
        → K (materialize_in b store artifact path create_parents c)
    unfolding materialize_in IsCleanCall
    materialize_in-Confined artifact path create_parents =
        Keeps-continue (digest_of b store (parse_artifact_uri artifact)) _ λ digest d.
          Keeps-continue (normalize_workspace_path false path) _ λ p e.
            Keeps-bind _ _
              (Keeps-on_server db turn (store.open_stream c.turn.thread_id digest none))
              λ source.
                Keeps-bind _ _
                  (Keeps-ask db turn c.place (file_write p source create_parents) _ runtime
                    (normalize-clean false path p e))
                  λ written. Keeps-pure (p, written)

    module _ (k : Codecs) where
      read_linked-Confined :
          (p : Bytes)
          → is_clean true p ≡ true
          → (media_type : Bytes) → K (read_linked b store k c p media_type)
      unfolding read_linked
      read_linked-Confined p clean media_type =
          Keeps-bind _ _ (export-Confined p clean store media_type none) λ artifact. Keeps-pure _

      read_raw-Confined :
          (p : Bytes)
          → is_clean true p ≡ true
          → (stat : FileStat) (args : ReadArguments) → K (read_raw b store k c p stat args)
      unfolding read_raw
      read_raw-Confined p clean stat args =
          elim (Bool-cases (ltb (get_or args.limit 10_000) stat.size)) [
            | inl large ↦ rw large (read_linked-Confined p clean _)
            | inr small ↦
                rw small (Keeps-bind _ _ (ask_bytes-Confined p clean 0 _) λ r. Keeps-pure _)
          ]

      read_with-Confined :
          (input : FileReadInput) (args : ReadArguments)
          → is_clean true input.path ≡ true
          → K (read_with b store k c input args)
      unfolding read_with IsCleanCall
      read_with-Confined input args clean =
          Keeps-bind _ _ (Keeps-ask db turn c.place (file_read input) _ runtime clean)
            λ r. Keeps-pure _

      read_text-Confined :
          (p : Bytes)
          → is_clean true p ≡ true
          → (stat : FileStat) (args : ReadArguments) → K (read_text b store k c p stat args)
      unfolding read_text
      read_text-Confined p clean stat args =
          Keeps-bind _ _ (ask_bytes-Confined p clean 0 (max 1 (min 8192 stat.size))) λ prefix.
            elim (Bool-cases (
              is_text_media_type
                (media_type_for_path p (looks_binary k.is_utf8 prefix.data_bytes)))) [
                  | inl text ↦ rw text (read_with-Confined _ args clean)
                  | inr binary ↦ rw binary (read_linked-Confined p clean _)
                ]

      pub read_in-Confined : (args : ReadArguments) → K (read_in b store k args c)
      unfolding read_in read_workspace
      read_in-Confined args = Keeps-continue (normalize_workspace_path true args.path) _ λ p e.
          let clean = normalize-clean true args.path p e in
          Keeps-bind _ _ (ask_stat-Confined p clean) λ stat.
            elim (Bool-cases (is_directory_type b store k stat.file_type)) [
              | inl dir ↦ rw dir (read_with-Confined _ args clean)
              | inr other ↦ rw other (
                  Keeps-if args.raw _ _ (read_raw-Confined p clean stat args)
                    (read_text-Confined p clean stat args))
            ]

module _ (db : Db) (turn : BoundTurn) (b : Backends) (store : ArtifactStore) (k : Codecs) where
  abbrev L : {A : Type 0} → Exec ServerState A → Type 0
  L m = Keeps (Confined db turn) m

  read_artifact_text-Confined :
      (artifact : ArtifactRef) (args : ReadArguments)
      → L (read_artifact_text b store k turn artifact args)
  unfolding read_artifact_text
  read_artifact_text-Confined artifact args =
      Keeps-continue (select_lines k.next_line args.cursor args.ranges args.offset args.limit) _
        λ selection e.
          Keeps-bind _ _
            (Keeps-on_server db turn (store.open_stream turn.thread_id artifact.digest none))
            λ source.
              Keeps-continue
                (read_lines k.json_size selection k.decode k.flush [] source source.chunks no_lines)
                _ λ text f. Keeps-pure _

  read_artifact_raw-Confined :
      (artifact : ArtifactRef) (args : ReadArguments)
      → L (read_artifact_raw b store k turn artifact args)
  unfolding read_artifact_raw
  read_artifact_raw-Confined artifact args =
      Keeps-bind _ _ (Keeps-on_server db turn (store.open_stream turn.thread_id artifact.digest _))
        λ source. Keeps-continue (read_all source) _ λ bytes e. Keeps-pure _

  pub read_artifact-Confined :
      (digest : Bytes) (args : ReadArguments) → L (read_artifact b store k turn digest args)
  unfolding read_artifact
  read_artifact-Confined digest args =
      Keeps-bind _ _ (Keeps-on_server db turn (store.resolve turn.thread_id digest)) λ found.
        Keeps-if args.raw _ _ (read_artifact_raw-Confined _ args) (
          Keeps-if (not (is_text_media_type found.media_type)) _ _ (Keeps-pure _) (
            Keeps-bind _ _ (Keeps-on_server db turn (store.open_stream turn.thread_id digest _))
              λ prefix. Keeps-continue (read_all prefix) _ λ bytes e.
                Keeps-if (looks_binary k.is_utf8 bytes) _ _ (Keeps-pure _)
                  (read_artifact_text-Confined _ args)))
