-- ===== src/Mcp/Confined/Tools.antt =====
-- Every tool of src/mcp/server.ts.
use electrosphere.Base.{◌≡◌, refl, true, Option, none, some, [], Bool-cases, inl, inr, All, get_or}
use electrosphere.Base.Bytes.{Bytes, starts_with}
use electrosphere.Base.Exec.{Result-cases, Exec, pure, ◌>>=◌}
use electrosphere.Base.Exec.Triple.{Keeps, Keeps-continue, Triple-state}
use electrosphere.Domain.Errors.{to_service_error}
use electrosphere.Domain.Turns.{BoundTurn}
use electrosphere.Mcp.Files.{
  Backends, ServerState, ArtifactStore, require_turn, file_context, unbound,
}
use electrosphere.Mcp.Paths.{workspace, normalize_workspace_path, parse_artifact_uri}
use electrosphere.Mcp.Tools.{
  tool, tool_error, write_in, edit_in, glob_in, grep_in, move_in, remove_in, handle_write,
  handle_edit, handle_glob, handle_grep, handle_move, handle_remove,
}
use electrosphere.Mcp.Read.{export_in, materialize_in, handle_export, handle_materialize}
use electrosphere.Mcp.Read.Handler.{
  ReadArguments, Codecs, read_in, read_named, read_file, handle_read, artifact_scheme,
}
use electrosphere.Mcp.Server.{
  ShellArgs, shell_exec, shell_write, shell_poll, shell_kill, SessionCall, ToolCall, shell, read,
  write, edit, glob, grep, move, remove_path, artifact_export, artifact_materialize, session_call,
  handle_shell, run_tool, serve,
}
use electrosphere.Mcp.Confined.{
  Confined, IsTurnCall, Keeps-on_server, with_context, write_in-Confined, edit_in-Confined,
  glob_in-Confined, grep_in-Confined, move_in-Confined, remove_in-Confined,
}
use electrosphere.Mcp.Confined.Reads.{
  export_in-Confined, materialize_in-Confined, read_in-Confined, read_artifact-Confined,
}
use electrosphere.Storage.Database.{Db}

-- A call without a bound turn answers `TURN_CLOSED`, whatever the tool and its arguments are, and
-- changes nothing: no backend, session manager or artifact store is asked.
pub serve-unbound :
    {R : Type 0} (sessions : SessionCall → Exec Db R) (b : Backends) (store : ArtifactStore)
    (k : Codecs) (call : ToolCall) (s : ServerState)
    → serve none sessions b store k call s ≡ (tool_error (to_service_error unbound), s)
unfolding serve tool run_tool require_turn file_context handle_shell handle_read handle_write
    handle_edit handle_glob handle_grep handle_move handle_remove handle_export handle_materialize
serve-unbound sessions b store k (shell args) s = refl
serve-unbound sessions b store k (read args) s = refl
serve-unbound sessions b store k (write path bytes create_parents) s = refl
serve-unbound sessions b store k (edit path digest edits) s = refl
serve-unbound sessions b store k (glob pattern options) s = refl
serve-unbound sessions b store k (grep pattern paths options) s = refl
serve-unbound sessions b store k (move source destination) s = refl
serve-unbound sessions b store k (remove_path path) s = refl
serve-unbound sessions b store k (artifact_export path media_type filename) s = refl
serve-unbound sessions b store k (artifact_materialize artifact path create_parents) s = refl

module _ (db : Db) (turn : BoundTurn) where
  -- The result's wrapping makes no call.
  Confined-wrap :
      {A B : Type 0} (m : Exec ServerState A) (wrap : A → B) (s : ServerState)
      → Confined db turn (m s).1
      → Confined db turn ((m >>= λ a. pure (wrap a)) s).1
  Confined-wrap m wrap s h = elim (Result-cases (m s).0) [
    | inl (a, e) ↦ rw e h
    | inr (x, e) ↦ rw e h
  ]

  module _ {R : Type 0} (sessions : SessionCall → Exec Db R) where
    session_call-Confined :
        (args : ShellArgs) → Keeps (Confined db turn) (session_call (some turn) sessions args turn)
    session_call-Confined (shell_exec command workdir tty yield_ms timeout_ms tokens) =
        Keeps-continue (normalize_workspace_path true (get_or workdir workspace)) _
          λ path e. Keeps-on_server db turn _
    session_call-Confined (shell_write session_id chars yield_ms tokens) = Keeps-on_server db turn _
    session_call-Confined (shell_poll session_id yield_ms tokens) = Keeps-on_server db turn _
    session_call-Confined (shell_kill session_id) = Keeps-on_server db turn _

  module _ (b : Backends) (store : ArtifactStore) (k : Codecs) (s : ServerState) (same : s.db ≡ db)
      (h : Confined db turn s) where
    read_named-Confined :
        (args : ReadArguments) (digest : Option Bytes)
        → Confined db turn (read_named (some turn) b store k turn args digest s).1
    unfolding read_file
    read_named-Confined args (some digest) =
        Triple-state _ (read_artifact-Confined db turn b store k digest args) s h
    read_named-Confined args none = elim (Bool-cases (starts_with artifact_scheme args.path)) [
      | inl e ↦ rw e h
      | inr e ↦ rw e (
          with_context db turn (read_in b store k args) s same h
            (λ c runtime. read_in-Confined db turn b c runtime store k args))
    ]

    module _ {R : Type 0} (sessions : SessionCall → Exec Db R) where
      run_tool-Confined :
          (call : ToolCall) → Confined db turn (run_tool (some turn) sessions b store k call s).1
      unfolding run_tool handle_shell handle_read require_turn handle_write handle_edit handle_glob
          handle_grep handle_move handle_remove handle_export handle_materialize
      run_tool-Confined (shell args) =
          Confined-wrap (session_call (some turn) sessions args turn) _ s
            (Triple-state _ (session_call-Confined sessions args) s h)
      run_tool-Confined (read args) =
          Confined-wrap (read_named (some turn) b store k turn args (parse_artifact_uri args.path))
            _ s (read_named-Confined args (parse_artifact_uri args.path))
      run_tool-Confined (write path bytes create_parents) =
          Confined-wrap (handle_write (some turn) b path bytes create_parents) _ s (
            with_context db turn (write_in b path bytes create_parents) s same h
              (λ c runtime. write_in-Confined db turn b c runtime path bytes create_parents))
      run_tool-Confined (edit path digest edits) =
          Confined-wrap (handle_edit (some turn) b path digest edits) _ s (
            with_context db turn (edit_in b path digest edits) s same h
              (λ c runtime. edit_in-Confined db turn b c runtime path digest edits))
      run_tool-Confined (glob pattern options) =
          Confined-wrap (handle_glob (some turn) b pattern options) _ s (
            with_context db turn (glob_in b pattern options) s same h
              (λ c runtime. glob_in-Confined db turn b c runtime pattern options))
      run_tool-Confined (grep pattern paths options) =
          Confined-wrap (handle_grep (some turn) b pattern paths options) _ s (
            with_context db turn (grep_in b pattern paths options) s same h
              (λ c runtime. grep_in-Confined db turn b c runtime pattern paths options))
      run_tool-Confined (move source destination) =
          Confined-wrap (handle_move (some turn) b source destination) _ s (
            with_context db turn (move_in b source destination) s same h
              (λ c runtime. move_in-Confined db turn b c runtime source destination))
      run_tool-Confined (remove_path path) = Confined-wrap (handle_remove (some turn) b path) _ s (
          with_context db turn (remove_in b path) s same h
            (λ c runtime. remove_in-Confined db turn b c runtime path))
      run_tool-Confined (artifact_export path media_type filename) =
          Confined-wrap (handle_export (some turn) b store k.is_utf8 path media_type filename) _ s (
            with_context db turn (export_in b store k.is_utf8 path media_type filename) s same h
              (λ c runtime.
                export_in-Confined db turn b c runtime store k.is_utf8 path media_type filename))
      run_tool-Confined (artifact_materialize artifact path create_parents) =
          Confined-wrap (handle_materialize (some turn) b store artifact path create_parents) _ s (
            with_context db turn (materialize_in b store artifact path create_parents) s same h
              (λ c runtime.
                materialize_in-Confined db turn b c runtime store artifact path create_parents))

-- Every file call that a tool makes for a bound turn, whatever its arguments are and however the
-- backends, the session manager and the artifact store answer, is of the runtime that the database
-- has for the turn and names only clean paths: relative ones without `.`, `..` or empty parts, and
-- not the workspace itself where something is written, edited, moved or removed.
pub serve-Confined :
    {R : Type 0} (sessions : SessionCall → Exec Db R) (b : Backends) (store : ArtifactStore)
    (k : Codecs) (turn : BoundTurn) (db : Db) (call : ToolCall)
    → All
        (IsTurnCall db turn)
        (serve (some turn) sessions b store k call (record { db = db; calls = [] })).1.calls
unfolding serve tool
serve-Confined sessions b store k turn db call =
    run_tool-Confined db turn b store k (record { db = db; calls = [] }) refl tt sessions call
