-- ===== src/Mcp/Tools.antt =====
-- src/mcp/server.ts: the tool handlers but `shell` and `read`, as functions of the arguments that
-- their schemas admit. `bound` is the turn that the request is bound to, `b` the backends.
use electrosphere.Base.{
  ℕ, Bool, true, false, not, ◌||◌, ◌&&◌, Option, none, some, List, [], ◌∷◌, map, select, reverse,
  length, leb, ◌==◌, if◌then◌else◌,
}
use electrosphere.Base.Bytes.{Bytes, split}
use electrosphere.Base.Exec.{Result, ok, err, Exec, pure, lift, guard, ◌>>=◌, ◌>>◌}
use electrosphere.Base.Paths.{slash}
use electrosphere.Domain.Errors.{ErrorCode, ServiceError, Thrown, throws, to_service_error}
use electrosphere.Domain.Turns.{BoundTurn}
use electrosphere.Mcp.Paths.{normalize_workspace_path, normalize_workspace_pattern}
use electrosphere.Mcp.Files.{
  FileType, FileWritten, Edit, FileEdited, GlobOptions, GlobResult, GrepOptions, GrepResult, Source,
  file_write, file_edit, file_glob, file_grep, file_move, file_remove, Backends, ServerState,
  FileContext, file_context, ask,
}

-- What a handler answers: `toolSuccess` of a result, or `toolError` of what was thrown.
pub data ToolAnswer {ℓ} (A : Type ℓ) : Type ℓ where
  tool_success : A → ToolAnswer A
  tool_error : ServiceError → ToolAnswer A

abbrev answer_of : {A : Type 0} → Result A → ToolAnswer A
answer_of (ok a) = tool_success a
answer_of (err e) = tool_error (to_service_error e)

-- The `try` of a handler: it returns in any case.
unfoldable pub tool : {A : Type 0} → Exec ServerState A → ServerState → ToolAnswer A × ServerState
tool m s = (answer_of (m s).0, (m s).1)

-- A stream of one chunk.
abbrev pub single : Bytes → Source
single bytes = record { chunks = bytes ∷ []; failure = none }

-- `MAX_RAW_BYTES`.
abbrev pub max_raw_bytes : ℕ
max_raw_bytes = 393_216

abbrev pub is_file : FileType → Bool
is_file FileType.file = true
is_file _ = false

abbrev pub last_part : Bytes → List Bytes → Bytes
last_part p [] = p
last_part p (q ∷ parts) = last_part q parts

-- `basename` of a path that does not end with `/`.
abbrev pub basename : Bytes → Bytes
basename path = last_part [] (split slash path)

-- The characters that `trim` takes off.
abbrev is_space : ℕ → Bool
is_space c =
    leb 9 c && leb c 13
    || c == 32
    || c == 160
    || c == 5760
    || leb 8192 c && leb c 8202
    || c == 8232
    || c == 8233
    || c == 8239
    || c == 8287
    || c == 12_288
    || c == 65_279

abbrev trim_start : Bytes → Bytes
trim_start [] = []
trim_start (c ∷ s) = if is_space c then trim_start s else c ∷ s

abbrev trim : Bytes → Bytes
trim s = reverse (trim_start (reverse (trim_start s)))

abbrev pub both : Result Bytes → Result (List Bytes) → Result (List Bytes)
both (err e) ys = err e
both (ok y) (err e) = err e
both (ok y) (ok ys) = ok (y ∷ ys)

-- `map` with a function that may throw.
unfoldable pub each : (Bytes → Result Bytes) → List Bytes → Result (List Bytes)
each f [] = ok []
each f (x ∷ xs) = both (f x) (each f xs)

abbrev pub given : Result (List Bytes) → Result (Option (List Bytes))
given (err e) = err e
given (ok ps) = ok (some ps)

unfoldable pub each_path : Option (List Bytes) → Result (Option (List Bytes))
each_path none = ok none
each_path (some paths) = given (each (normalize_workspace_path true) paths)

-- The parts of a glob between semicolons.
abbrev pub glob_parts : Bytes → List Bytes
glob_parts pattern = select (λ p. not (length p == 0)) (map trim (split 59 pattern))

abbrev pub not_regular : Thrown
not_regular = throws ErrorCode.invalid_argument "Only regular files can be exported as artifacts"

-- The handlers behind the file context.
module _ (b : Backends) where
  -- `write`; `bytes` encode the content.
  unfoldable pub write_in :
      (path bytes : Bytes)
      → (create_parents : Bool) → FileContext
      → Exec ServerState (Bytes × FileWritten)
  write_in path bytes create_parents context = do
    p ← lift (normalize_workspace_path false path)
    written ←
        ask context.place (file_write p (single bytes) create_parents)
          (λ calls. b.write calls context.place p (single bytes))
    pure (p, written)

  unfoldable pub edit_in :
      (path : Bytes)
      → (expected_digest : Bytes) → List Edit
      → FileContext
      → Exec ServerState (Bytes × FileEdited)
  edit_in path expected_digest edits context = do
    p ← lift (normalize_workspace_path false path)
    edited ←
        ask context.place (file_edit p expected_digest edits)
          (λ calls. b.edit calls context.place p)
    pure (p, edited)

  unfoldable pub glob_in :
      (pattern : Bytes) → GlobOptions → FileContext → Exec ServerState GlobResult
  glob_in pattern options context = do
    patterns ← lift (each normalize_workspace_pattern (glob_parts pattern))
    guard (not (length patterns == 0)) (throws ErrorCode.invalid_argument "Glob pattern is empty")
    ask context.place (file_glob patterns options) (λ calls. b.glob calls context.place patterns)

  unfoldable pub grep_in :
      (pattern : Bytes)
      → (paths : Option (List Bytes)) → GrepOptions
      → FileContext
      → Exec ServerState GrepResult
  grep_in pattern paths options context = do
    ps ← lift (each_path paths)
    ask context.place (file_grep pattern ps options) (λ calls. b.grep calls context.place pattern)

  unfoldable pub move_in :
      (source destination : Bytes) → FileContext → Exec ServerState (Bytes × Bytes)
  move_in source destination context = do
    s ← lift (normalize_workspace_path false source)
    d ← lift (normalize_workspace_path false destination)
    ask context.place (file_move s d) (λ calls. b.done calls context.place (file_move s d))
    pure (s, d)

  unfoldable pub remove_in : (path : Bytes) → FileContext → Exec ServerState Bytes
  remove_in path context = do
    p ← lift (normalize_workspace_path false path)
    ask context.place (file_remove p) (λ calls. b.done calls context.place (file_remove p))
    pure p

module _ (bound : Option BoundTurn) (b : Backends) where
  unfoldable pub handle_write :
      (path bytes : Bytes) → (create_parents : Bool) → Exec ServerState (Bytes × FileWritten)
  handle_write path bytes create_parents =
      file_context bound >>= write_in b path bytes create_parents

  unfoldable pub handle_edit :
      (path : Bytes) → (expected_digest : Bytes) → List Edit → Exec ServerState (Bytes × FileEdited)
  handle_edit path expected_digest edits =
      file_context bound >>= edit_in b path expected_digest edits

  unfoldable pub handle_glob : (pattern : Bytes) → GlobOptions → Exec ServerState GlobResult
  handle_glob pattern options = file_context bound >>= glob_in b pattern options

  unfoldable pub handle_grep :
      (pattern : Bytes) → (paths : Option (List Bytes)) → GrepOptions → Exec ServerState GrepResult
  handle_grep pattern paths options = file_context bound >>= grep_in b pattern paths options

  unfoldable pub handle_move : (source destination : Bytes) → Exec ServerState (Bytes × Bytes)
  handle_move source destination = file_context bound >>= move_in b source destination

  unfoldable pub handle_remove : (path : Bytes) → Exec ServerState Bytes
  handle_remove path = file_context bound >>= remove_in b path
