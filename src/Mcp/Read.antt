-- ===== src/Mcp/Read.antt =====
-- src/mcp/server.ts: `streamWorkspaceFile`, `exportWorkspaceArtifact`, `artifact_export` and
-- `artifact_materialize`. The handler of `read` is in a child module.
pub mod Handler
pub mod Exported
use electrosphere.Base.{
  ℕ, zero, suc, ◌+◌, ◌-◌, Bool, true, false, not, ◌||◌, Option, none, some, List, [], ◌∷◌, ◌++◌,
  length, leb, ltb, min, max, ◌==◌, if◌then◌else◌, get_or, is_some, codes,
}
use electrosphere.Base.Bytes.{Bytes, starts_with}
use electrosphere.Base.Exec.{Result, ok, err, Exec, pure, throw, lift, guard, ◌>>=◌, ◌>>◌}
use electrosphere.Domain.Errors.{ErrorCode, Thrown, throws}
use electrosphere.Domain.Turns.{BoundTurn}
use electrosphere.Mcp.Paths.{
  normalize_workspace_path, parse_artifact_uri, media_type_for_path, is_text_media_type,
  looks_binary,
}
use electrosphere.Mcp.Lines.{LineRange, NumberedLine, line_numbers, start_of}
use electrosphere.Mcp.Streaming.{Selection, LineState, no_lines, read_lines, select_lines}
use electrosphere.Mcp.Files.{
  FileType, FileStat, FileBytes, FileWritten, FileEntry, FileReadInput, FileReadResult, Source,
  file_stat, file_read, file_read_bytes, file_write, Place, Calls, Backends, ServerState,
  ArtifactRef, ArtifactStore, FileContext, require_turn, file_context, ask, on_server,
}
use electrosphere.Mcp.Tools.{max_raw_bytes, is_file, basename, not_regular}

abbrev pub add_chunk : Bytes → Source → Source
add_chunk chunk source = record source { chunks = chunk ∷ source.chunks }

abbrev closed_source : Source
closed_source = record { chunks = []; failure = none }

abbrev failed_source : Thrown → Source
failed_source e = record { chunks = []; failure = some e }

abbrev pub changed : Thrown
changed = throws ErrorCode.backend_error "Workspace file changed during artifact export"

-- What an answer to a pull yields; `rest` are the pulls behind so many more bytes.
abbrev pub pulled :
    (size : ℕ) → Result FileBytes → (ℕ → Exec ServerState Source) → Exec ServerState Source
pulled size (err e) rest = pure (failed_source e)
pulled size (ok r) rest =
    if not (r.size == size) || length r.data_bytes == 0
    then pure (failed_source changed)
    else if r.eof
    then pure (add_chunk r.data_bytes closed_source)
    else rest (length r.data_bytes) >>= λ source. pure (add_chunk r.data_bytes source)

module _ (b : Backends) (place : Place) (path : Bytes) (size : ℕ) where
  -- `streamWorkspaceFile`, from an offset on: the calls that the pulls make, and what they yield. A
  -- pull that goes on has yielded a byte or more, so a round for each byte is enough.
  unfoldable pub stream_workspace_file : (fuel : ℕ) → (offset : ℕ) → Exec ServerState Source
  stream_workspace_file zero offset s = (ok closed_source, s)
  stream_workspace_file (suc fuel) offset s =
      if leb size offset
      then (ok closed_source, s)
      else pulled size (b.read_bytes s.calls place path offset max_raw_bytes)
          (λ more. stream_workspace_file fuel (offset + more))
          (record s { calls = (place, file_read_bytes path offset max_raw_bytes) ∷ s.calls })

abbrev pub ask_bytes :
    Backends → Place → (path : Bytes) → (offset limit : ℕ) → Exec ServerState FileBytes
ask_bytes b place path offset limit =
    ask place (file_read_bytes path offset limit)
      (λ calls. b.read_bytes calls place path offset limit)

abbrev pub ask_stat : Backends → Place → (path : Bytes) → Exec ServerState FileStat
ask_stat b place path = ask place (file_stat path) (λ calls. b.stat calls place path)

module _ (b : Backends) (store : ArtifactStore) where
  -- `exportWorkspaceArtifact`. The pulls are made before the store takes what they yield.
  unfoldable pub export_workspace_artifact :
      FileContext
      → (path media_type : Bytes) → (filename : Option Bytes) → Exec ServerState ArtifactRef
  export_workspace_artifact context path media_type filename = do
    stat ← ask_stat b context.place path
    guard (is_file stat.file_type) not_regular
    source ← stream_workspace_file b context.place path stat.size (stat.size + 1) 0
    on_server (
        store.put_stream context.turn.thread_id source media_type (get_or filename (basename path)))

  unfoldable pub export_in :
      (is_utf8 : Bytes → Bool)
      → (path : Bytes) → (media_type filename : Option Bytes) → FileContext
      → Exec ServerState ArtifactRef
  export_in is_utf8 path media_type filename context = do
    p ← lift (normalize_workspace_path false path)
    stat ← ask_stat b context.place p
    guard (is_file stat.file_type) not_regular
    prefix ← ask_bytes b context.place p 0 (max 1 (min 8192 stat.size))
    export_workspace_artifact context p
        (get_or media_type (media_type_for_path p (looks_binary is_utf8 prefix.data_bytes)))
        filename

  abbrev pub digest_of : Option Bytes → Result Bytes
  digest_of none = err (throws ErrorCode.invalid_argument "Artifact URI is invalid")
  digest_of (some digest) = ok digest

  unfoldable pub materialize_in :
      (artifact path : Bytes)
      → (create_parents : Bool) → FileContext
      → Exec ServerState (Bytes × FileWritten)
  materialize_in artifact path create_parents context = do
    digest ← lift (digest_of (parse_artifact_uri artifact))
    p ← lift (normalize_workspace_path false path)
    source ← on_server (store.open_stream context.turn.thread_id digest none)
    written ←
        ask context.place (file_write p source create_parents)
          (λ calls. b.write calls context.place p source)
    pure (p, written)

module _ (bound : Option BoundTurn) (b : Backends) (store : ArtifactStore) where
  -- `artifact_export`.
  unfoldable pub handle_export :
      (is_utf8 : Bytes → Bool)
      → (path : Bytes) → (media_type filename : Option Bytes) → Exec ServerState ArtifactRef
  handle_export is_utf8 path media_type filename =
      file_context bound >>= export_in b store is_utf8 path media_type filename

  -- `artifact_materialize`.
  unfoldable pub handle_materialize :
      (artifact path : Bytes) → (create_parents : Bool) → Exec ServerState (Bytes × FileWritten)
  handle_materialize artifact path create_parents =
      file_context bound >>= materialize_in b store artifact path create_parents
