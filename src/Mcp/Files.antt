-- ===== src/Mcp/Files.antt =====
-- src/mcp/server.ts: `requireTurn`, `fileContext` and the calls of the file operations of
-- `InstantBackend` (src/backends/types.ts) and of `ArtifactStore` (src/storage/artifacts.ts). The
-- file calls are recorded, the latest first, with the runtime they are made of. `Backends` is how
-- the backends answer a call after the calls before it.
-- Fields that nothing reads are left out of the results.
use electrosphere.Base.{ℕ, String, Bool, Option, none, some, List, ◌∷◌}
use electrosphere.Base.Bytes.{Bytes}
use electrosphere.Base.Exec.{Result, Exec, pure, throw, ◌>>=◌}
use electrosphere.Domain.Errors.{ErrorCode, Thrown, throws}
use electrosphere.Domain.Types.{Backend, BackendHandle}
use electrosphere.Domain.Sandbox.{get_turn_handle}
use electrosphere.Domain.Turns.{BoundTurn}
use electrosphere.Mcp.Lines.{LineRange}
use electrosphere.Storage.Database.{Db, InstanceRecord}

pub data FileType : Type 0 where
  file directory symlink : FileType

pub record FileStat : Type 0 where
  pub file_type : FileType
  pub size : ℕ

pub record FileEntry : Type 0 where
  pub path : Bytes
  pub file_type : FileType
  pub size : Option ℕ
  pub modified_at : Option ℕ

pub record FileReadInput : Type 0 where
  pub path : Bytes
  pub offset : Option ℕ
  pub limit : Option ℕ
  pub ranges : Option (List LineRange)
  pub cursor : Option Bytes

pub record FileReadResult : Type 0 where
  pub lines : List Bytes
  pub entries : List FileEntry
  pub is_directory : Bool
  pub size : Option ℕ
  pub digest : Option Bytes
  pub next_offset : Option ℕ
  pub truncated : Bool
  pub next_cursor : Option Bytes

pub record FileBytes : Type 0 where
  pub data_bytes : Bytes
  pub size : ℕ
  pub eof : Bool

pub record FileWritten : Type 0 where
  pub size : ℕ
  pub digest : Bytes

pub data EditKind : Type 0 where
  replace insert_before insert_after delete : EditKind

pub record Edit : Type 0 where
  pub kind : EditKind
  pub start_line : ℕ
  pub end_line : Option ℕ
  pub content : Option Bytes

pub record FileEdited : Type 0 where
  pub lines_before : ℕ
  pub lines_after : ℕ
  pub digest : Bytes

pub record GlobOptions : Type 0 where
  pub cursor : Option Bytes
  pub limit : Option ℕ
  pub gitignore : Option Bool
  pub hidden : Option Bool
  pub sort_modified : Option Bool

pub record GlobResult : Type 0 where
  pub entries : List FileEntry
  pub truncated : Bool
  pub next_cursor : Option Bytes

pub record GrepOptions : Type 0 where
  pub cursor : Option Bytes
  pub limit : Option ℕ
  pub case_sensitive : Option Bool
  pub context_before : Option ℕ
  pub context_after : Option ℕ
  pub gitignore : Option Bool

pub record FileMatch : Type 0 where
  pub path : Bytes
  pub line : ℕ
  pub text : Bytes
  pub context_before : Option (List Bytes)
  pub context_after : Option (List Bytes)

pub record GrepResult : Type 0 where
  pub found : List FileMatch
  pub total_matches : ℕ
  pub skipped_files : ℕ
  pub truncated : Bool
  pub next_cursor : Option Bytes

-- What a stream yields until it closes, or until it errs.
pub record Source : Type 0 where
  pub chunks : List Bytes
  pub failure : Option Thrown

pub data FileCall : Type 0 where
  file_stat : (path : Bytes) → FileCall
  file_read : FileReadInput → FileCall
  file_read_bytes : (path : Bytes) → (offset : ℕ) → (limit : ℕ) → FileCall
  file_write : (path : Bytes) → Source → (create_parents : Bool) → FileCall
  file_edit : (path : Bytes) → (expected_digest : Bytes) → List Edit → FileCall
  file_glob : (patterns : List Bytes) → GlobOptions → FileCall
  file_grep : (pattern : Bytes) → (paths : Option (List Bytes)) → GrepOptions → FileCall
  file_move : (source : Bytes) → (destination : Bytes) → FileCall
  file_remove : (path : Bytes) → FileCall

-- The runtime of a call.
pub record Place : Type 0 where
  pub backend : Backend
  pub handle : BackendHandle

abbrev pub Calls : Type 0
Calls = List (Place × FileCall)

pub record Backends : Type 0 where
  pub stat : Calls → Place → (path : Bytes) → Result FileStat
  pub read : Calls → Place → FileReadInput → Result FileReadResult
  pub read_bytes : Calls → Place → (path : Bytes) → (offset limit : ℕ) → Result FileBytes
  pub write : Calls → Place → (path : Bytes) → Source → Result FileWritten
  pub edit : Calls → Place → (path : Bytes) → Result FileEdited
  pub glob : Calls → Place → List Bytes → Result GlobResult
  pub grep : Calls → Place → (pattern : Bytes) → Result GrepResult
  pub done : Calls → Place → FileCall → Result (Unit {0})

pub record ServerState : Type 0 where
  pub db : Db
  pub calls : Calls

pub record ArtifactRef : Type 0 where
  pub digest : Bytes
  pub size_bytes : ℕ
  pub media_type : Bytes

-- `putStream`, `resolve` and `open`; a range is an offset and a limit.
pub record ArtifactStore : Type 0 where
  pub put_stream :
      (thread_id : String)
      → Source
      → (media_type : Bytes) → (filename : Bytes) → Exec Db ArtifactRef
  pub resolve : (thread_id : String) → (digest : Bytes) → Exec Db ArtifactRef
  pub open_stream : (thread_id : String) → (digest : Bytes) → Option (ℕ × ℕ) → Exec Db Source

pub record FileContext : Type 0 where
  pub turn : BoundTurn
  pub place : Place

abbrev pub unbound : Thrown
unbound = throws ErrorCode.turn_closed "Tool call is not bound to an open turn"

unfoldable pub require_turn : Option BoundTurn → Exec ServerState BoundTurn
require_turn none = throw unbound
require_turn (some turn) = pure turn

abbrev pub on_server : {A : Type 0} → Exec Db A → Exec ServerState A
on_server m s = ((m s.db).0, record s { db = (m s.db).1 })

abbrev pub context_of : BoundTurn → InstanceRecord × BackendHandle → FileContext
context_of turn (instance_, handle) = record {
  turn = turn;
  place = record { backend = instance_.backend; handle = handle };
}

unfoldable pub file_context : Option BoundTurn → Exec ServerState FileContext
file_context bound = do
  turn ← require_turn bound
  found ← on_server (get_turn_handle turn.instance_id)
  pure (context_of turn found)

-- A file call: it is recorded, and answered.
unfoldable pub ask : {A : Type 0} → Place → FileCall → (Calls → Result A) → Exec ServerState A
ask place call answer s = (answer s.calls, record s { calls = (place, call) ∷ s.calls })
