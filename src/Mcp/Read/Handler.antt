-- ===== src/Mcp/Read/Handler.antt =====
-- src/mcp/server.ts: `handleRead`, `readArtifact` and `workspaceReadResult`. A result has the
-- fields that the source's object has; base64 text stands as its bytes.
use electrosphere.Base.{
  ℕ, ◌+◌, ◌-◌, Bool, true, false, not, Option, none, some, List, [], ◌∷◌, ◌++◌, length, ltb, min,
  max, ◌==◌, if◌then◌else◌, get_or, is_some, codes,
}
use electrosphere.Base.Bytes.{Bytes, starts_with}
use electrosphere.Base.Exec.{Result, ok, err, Exec, pure, throw, lift, ◌>>=◌}
use electrosphere.Domain.Errors.{ErrorCode, throws}
use electrosphere.Domain.Turns.{BoundTurn}
use electrosphere.Mcp.Paths.{
  normalize_workspace_path, parse_artifact_uri, media_type_for_path, is_text_media_type,
  looks_binary,
}
use electrosphere.Mcp.Lines.{LineRange, NumberedLine, line_numbers, start_of}
use electrosphere.Mcp.Streaming.{Selection, LineState, no_lines, read_lines, select_lines}
use electrosphere.Mcp.Files.{
  FileType, FileStat, FileEntry, FileReadInput, FileReadResult, Source, file_read, Backends,
  ServerState, ArtifactRef, ArtifactStore, FileContext, require_turn, file_context, ask, on_server,
}
use electrosphere.Mcp.Tools.{max_raw_bytes}
use electrosphere.Mcp.Read.{ask_bytes, ask_stat, export_workspace_artifact}

pub record ReadArguments : Type 0 where
  pub path : Bytes
  pub offset : Option ℕ
  pub limit : Option ℕ
  pub ranges : Option (List LineRange)
  pub cursor : Option Bytes
  pub raw : Bool

-- What the language's own decoders and encoders make of bytes: `next_line` of a cursor, `decode`
-- and `flush` of a decoder, the JSON size of lines, whether bytes are UTF-8, and their digest.
-- `fuel` bounds the search of `lineNumbers`.
pub record Codecs : Type 0 where
  pub next_line : Bytes → Option ℕ
  pub cursor_of : ℕ → Bytes
  pub decode : List Bytes → Bytes → Option Bytes
  pub flush : List Bytes → Option Bytes
  pub json_size : List Bytes → ℕ
  pub is_utf8 : Bytes → Bool
  pub digest : Bytes → Bytes
  pub fuel : ℕ

-- The fields that the results of a text have in common.
pub record Common : Type 0 where
  pub path : Bytes
  pub size : Option ℕ
  pub digest : Option Bytes
  pub truncated : Bool
  pub media_type : Bytes
  pub next_offset : Option ℕ
  pub next_cursor : Option Bytes

-- The objects that a read returns. Lines are none while their numbering does not end.
pub data ReadResult : Type 0 where
  listing :
      (path : Bytes)
      → List FileEntry
      → (truncated : Bool) → (next_cursor : Option Bytes) → ReadResult
  content : Common → (text : List Bytes) → (offset : ℕ) → ReadResult
  ranged : Common → Option (List NumberedLine) → ReadResult
  linked : (path : Bytes) → (digest : Bytes) → (size : ℕ) → (media_type : Bytes) → ReadResult
  raw : Common → Bytes → (offset : ℕ) → ReadResult

-- `next_cursor` is left out when it is empty.
abbrev pub non_empty : Option Bytes → Option Bytes
non_empty none = none
non_empty (some c) = if length c == 0 then none else some c

module _ (k : Codecs) where
  abbrev text_result : Common → List Bytes → (start_line : ℕ) → Option (List LineRange) → ReadResult
  text_result common lines start_line none = content common lines start_line
  text_result common lines start_line (some ranges) =
      ranged common (line_numbers k.fuel lines start_line (some ranges))

  unfoldable pub workspace_read_result : Bytes → FileReadResult → ReadArguments → ReadResult
  workspace_read_result path r args =
      if r.is_directory
      then listing path r.entries r.truncated (non_empty r.next_cursor)
      else text_result
          (record {
            path = path;
            size = r.size;
            digest = r.digest;
            truncated = r.truncated;
            media_type = codes "text/plain";
            next_offset = r.next_offset;
            next_cursor = non_empty r.next_cursor;
          })
          r.lines (start_of k.next_line args.cursor args.ranges args.offset) args.ranges

abbrev pub append_all : List Bytes → Bytes
append_all [] = []
append_all (chunk ∷ chunks) = chunk ++ append_all chunks

-- `readAll`.
abbrev pub read_all : Source → Result Bytes
read_all source = elim source.failure [ some e ↦ err e | none ↦ ok (append_all source.chunks) ]

abbrev pub artifact_scheme : Bytes
artifact_scheme = codes "artifact://"

module _ (b : Backends) (store : ArtifactStore) (k : Codecs) where
  abbrev pub artifact_text : ArtifactRef → ReadArguments → Selection → Option LineState → ReadResult
  artifact_text artifact args selection none =
      linked (artifact_scheme ++ artifact.digest) artifact.digest artifact.size_bytes
        artifact.media_type
  artifact_text artifact args selection (some text) =
      text_result k
        (record {
          path = artifact_scheme ++ artifact.digest;
          size = some artifact.size_bytes;
          digest = some artifact.digest;
          truncated = is_some text.next_line;
          media_type = artifact.media_type;
          next_offset = if is_some args.ranges then none else text.next_line;
          next_cursor = elim text.next_line [ none ↦ none | some n ↦ some (k.cursor_of n) ];
        })
        text.lines selection.start_line args.ranges

  -- `streamArtifactLines` and the result of its lines.
  unfoldable pub read_artifact_text :
      BoundTurn → ArtifactRef → ReadArguments → Exec ServerState ReadResult
  read_artifact_text turn artifact args = do
    selection ← lift (select_lines k.next_line args.cursor args.ranges args.offset args.limit)
    source ← on_server (store.open_stream turn.thread_id artifact.digest none)
    text ← lift (read_lines k.json_size selection k.decode k.flush [] source source.chunks no_lines)
    pure (artifact_text artifact args selection text)

  -- The raw branch of `readArtifact`.
  unfoldable pub read_artifact_raw :
      BoundTurn → ArtifactRef → ReadArguments → Exec ServerState ReadResult
  read_artifact_raw turn artifact args = do
    let offset = get_or args.offset 1 - 1
    source ← on_server (
        store.open_stream turn.thread_id artifact.digest
          (some (offset, min (get_or args.limit 10_000) max_raw_bytes)))
    bytes ← lift (read_all source)
    let end_ = offset + length bytes
    pure (
        raw
          (record {
            path = artifact_scheme ++ artifact.digest;
            size = some artifact.size_bytes;
            digest = some artifact.digest;
            truncated = ltb end_ artifact.size_bytes;
            media_type = artifact.media_type;
            next_offset = if ltb end_ artifact.size_bytes then some (end_ + 1) else none;
            next_cursor = none;
          })
          bytes (offset + 1))

  unfoldable pub read_artifact :
      BoundTurn → (digest : Bytes) → ReadArguments → Exec ServerState ReadResult
  read_artifact turn digest args = do
    found ← on_server (store.resolve turn.thread_id digest)
    let artifact = record found { digest = digest }
    let link = linked (artifact_scheme ++ digest) digest artifact.size_bytes artifact.media_type
    if args.raw
        then read_artifact_raw turn artifact args
        else if not (is_text_media_type artifact.media_type)
        then pure link
        else (do
          prefix ←
              on_server
                (store.open_stream turn.thread_id digest (some (0, min 8192 artifact.size_bytes)))
          bytes ← lift (read_all prefix)
          if looks_binary k.is_utf8 bytes then pure link else read_artifact_text turn artifact args)

  -- The link to a workspace file that was exported.
  unfoldable pub read_linked : FileContext → (path media_type : Bytes) → Exec ServerState ReadResult
  read_linked context path media_type = do
    artifact ← export_workspace_artifact b store context path media_type none
    pure (linked path artifact.digest artifact.size_bytes artifact.media_type)

  -- The raw branch of a file.
  unfoldable pub read_raw :
      FileContext → (path : Bytes) → FileStat → ReadArguments → Exec ServerState ReadResult
  read_raw context path stat args =
      if ltb (get_or args.limit 10_000) stat.size
      then read_linked context path (media_type_for_path path true)
      else (do
        r ←
            ask_bytes b context.place path 0
              (min (if stat.size == 0 then 1 else stat.size) max_raw_bytes)
        pure (
            raw
              (record {
                path = path;
                size = some r.size;
                digest = some (k.digest r.data_bytes);
                truncated = not r.eof;
                media_type = media_type_for_path path true;
                next_offset = none;
                next_cursor = none;
              })
              r.data_bytes 1))

  -- The call of `fileRead`, and its result.
  unfoldable pub read_with :
      FileContext → FileReadInput → ReadArguments → Exec ServerState ReadResult
  read_with context input args = do
    r ← ask context.place (file_read input) (λ calls. b.read calls context.place input)
    pure (workspace_read_result k input.path r args)

  unfoldable pub read_text :
      FileContext → (path : Bytes) → FileStat → ReadArguments → Exec ServerState ReadResult
  read_text context path stat args = do
    prefix ← ask_bytes b context.place path 0 (max 1 (min 8192 stat.size))
    let media_type = media_type_for_path path (looks_binary k.is_utf8 prefix.data_bytes)
    if not (is_text_media_type media_type)
        then read_linked context path media_type
        else read_with context
            (record {
              path = path;
              offset = args.offset;
              limit = args.limit;
              ranges = args.ranges;
              cursor = non_empty args.cursor;
            })
            args

  abbrev pub is_directory_type : FileType → Bool
  is_directory_type FileType.directory = true
  is_directory_type _ = false

  unfoldable pub read_workspace :
      FileContext → (path : Bytes) → ReadArguments → Exec ServerState ReadResult
  read_workspace context path args = do
    stat ← ask_stat b context.place path
    if is_directory_type stat.file_type
        then read_with context
            (record {
              path = path;
              offset = none;
              limit = args.limit;
              ranges = none;
              cursor = non_empty args.cursor;
            })
            args
        else if args.raw
        then read_raw context path stat args
        else read_text context path stat args

  unfoldable pub read_in : ReadArguments → FileContext → Exec ServerState ReadResult
  read_in args context = do
    path ← lift (normalize_workspace_path true args.path)
    read_workspace context path args

module _ (bound : Option BoundTurn) (b : Backends) (store : ArtifactStore) (k : Codecs) where
  -- Where the path is no artifact's.
  unfoldable pub read_file : ReadArguments → Exec ServerState ReadResult
  read_file args =
      if starts_with artifact_scheme args.path
      then throw (throws ErrorCode.invalid_argument "Artifact URI is invalid")
      else file_context bound >>= read_in b store k args

  abbrev pub read_named :
      BoundTurn → ReadArguments → (digest : Option Bytes) → Exec ServerState ReadResult
  read_named turn args (some digest) = read_artifact b store k turn digest args
  read_named turn args none = read_file args

  unfoldable pub handle_read : ReadArguments → Exec ServerState ReadResult
  handle_read args = do
    turn ← require_turn bound
    read_named turn args (parse_artifact_uri args.path)
