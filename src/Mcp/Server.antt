-- ===== src/Mcp/Server.antt =====
-- src/mcp/server.ts: the handler of `shell`, and `buildMcpServer` as the dispatch of a call to the
-- tool that it names. `R` is what the session manager (src/domain/session-manager.ts) returns.
use electrosphere.Base.{
  ℕ, String, Bool, true, Option, List, ◌++◌, length, ◌==◌, if◌then◌else◌, get_or,
}
use electrosphere.Base.Bytes.{Bytes}
use electrosphere.Base.Exec.{Exec, pure, lift, ◌>>=◌}
use electrosphere.Domain.Turns.{BoundTurn}
use electrosphere.Mcp.Paths.{workspace, workspace_prefix, normalize_workspace_path}
use electrosphere.Mcp.Files.{
  FileWritten, Edit, FileEdited, GlobOptions, GlobResult, GrepOptions, GrepResult, Backends,
  ServerState, ArtifactRef, ArtifactStore, require_turn, on_server,
}
use electrosphere.Mcp.Tools.{
  ToolAnswer, tool, handle_write, handle_edit, handle_glob, handle_grep, handle_move, handle_remove,
}
use electrosphere.Mcp.Read.{handle_export, handle_materialize}
use electrosphere.Mcp.Read.Handler.{ReadArguments, Codecs, ReadResult, handle_read}
use electrosphere.Storage.Database.{Db}

-- The arguments of `shell`, by their action.
pub data ShellArgs : Type 0 where
  shell_exec :
      (command : Bytes)
      → (workdir : Option Bytes) → (tty : Option Bool)
      → (yield_time_ms timeout_ms max_output_tokens : Option ℕ) → ShellArgs
  shell_write :
      (session_id : String)
      → (chars : Bytes) → (yield_time_ms max_output_tokens : Option ℕ) → ShellArgs
  shell_poll : (session_id : String) → (yield_time_ms max_output_tokens : Option ℕ) → ShellArgs
  shell_kill : (session_id : String) → ShellArgs

-- What the session manager is asked.
pub data SessionCall : Type 0 where
  session_exec :
      (instance_id : String)
      → (command workdir : Bytes) → (tty : Option Bool) → (yield_time_ms timeout_ms : ℕ)
      → (max_output_tokens : Option ℕ) → SessionCall
  session_write :
      (instance_id session_id : String)
      → (chars : Bytes) → (yield_time_ms : ℕ) → (max_output_tokens : Option ℕ) → SessionCall
  session_poll :
      (instance_id session_id : String)
      → (yield_time_ms : ℕ) → (max_output_tokens : Option ℕ) → SessionCall
  session_kill : (instance_id session_id : String) → SessionCall

abbrev workdir_of : Bytes → Bytes
workdir_of path = if length path == 0 then workspace else workspace_prefix ++ path

pub data ToolCall : Type 0 where
  shell : ShellArgs → ToolCall
  read : ReadArguments → ToolCall
  write : (path bytes : Bytes) → (create_parents : Bool) → ToolCall
  edit : (path expected_digest : Bytes) → List Edit → ToolCall
  glob : (pattern : Bytes) → GlobOptions → ToolCall
  grep : (pattern : Bytes) → Option (List Bytes) → GrepOptions → ToolCall
  move : (source destination : Bytes) → ToolCall
  remove_path : (path : Bytes) → ToolCall
  artifact_export : (path : Bytes) → (media_type filename : Option Bytes) → ToolCall
  artifact_materialize : (artifact path : Bytes) → (create_parents : Bool) → ToolCall

pub data ToolResult (R : Type 0) : Type 0 where
  of_session : R → ToolResult R
  of_read : ReadResult → ToolResult R
  of_write : Bytes × FileWritten → ToolResult R
  of_edit : Bytes × FileEdited → ToolResult R
  of_glob : GlobResult → ToolResult R
  of_grep : GrepResult → ToolResult R
  of_move : Bytes × Bytes → ToolResult R
  of_remove : Bytes → ToolResult R
  of_export : ArtifactRef → ToolResult R

module _ {R : Type 0} (bound : Option BoundTurn) (sessions : SessionCall → Exec Db R) where
  abbrev pub session_call : ShellArgs → BoundTurn → Exec ServerState R
  session_call (shell_exec command workdir tty yield_ms timeout_ms tokens) turn = do
    path ← lift (normalize_workspace_path true (get_or workdir workspace))
    on_server (
        sessions (
          session_exec turn.instance_id command (workdir_of path) tty (get_or yield_ms 10_000)
            (get_or timeout_ms 0) tokens))
  session_call (shell_write session_id chars yield_ms tokens) turn =
      on_server
        (sessions (session_write turn.instance_id session_id chars (get_or yield_ms 10_000) tokens))
  session_call (shell_poll session_id yield_ms tokens) turn =
      on_server
        (sessions (session_poll turn.instance_id session_id (get_or yield_ms 10_000) tokens))
  session_call (shell_kill session_id) turn =
      on_server (sessions (session_kill turn.instance_id session_id))

  unfoldable pub handle_shell : ShellArgs → Exec ServerState R
  handle_shell args = require_turn bound >>= session_call args

  module _ (b : Backends) (store : ArtifactStore) (k : Codecs) where
    unfoldable pub run_tool : ToolCall → Exec ServerState (ToolResult R)
    run_tool (shell args) = handle_shell args >>= λ r. pure (of_session r)
    run_tool (read args) = handle_read bound b store k args >>= λ r. pure (of_read r)
    run_tool (write path bytes create_parents) =
        handle_write bound b path bytes create_parents >>= λ r. pure (of_write r)
    run_tool (edit path digest edits) =
        handle_edit bound b path digest edits >>= λ r. pure (of_edit r)
    run_tool (glob pattern options) = handle_glob bound b pattern options >>= λ r. pure (of_glob r)
    run_tool (grep pattern paths options) =
        handle_grep bound b pattern paths options >>= λ r. pure (of_grep r)
    run_tool (move source destination) =
        handle_move bound b source destination >>= λ r. pure (of_move r)
    run_tool (remove_path path) = handle_remove bound b path >>= λ r. pure (of_remove r)
    run_tool (artifact_export path media_type filename) =
        handle_export bound b store k.is_utf8 path media_type filename >>= λ r. pure (of_export r)
    run_tool (artifact_materialize artifact path create_parents) =
        handle_materialize bound b store artifact path create_parents >>= λ r. pure (of_write r)

    -- The registered handlers.
    unfoldable pub serve : ToolCall → ServerState → ToolAnswer (ToolResult R) × ServerState
    serve call s = tool (run_tool call) s
