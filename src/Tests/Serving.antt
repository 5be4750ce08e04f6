-- ===== src/Tests/Serving.antt =====
-- The theorems on the MCP server at concrete inputs.
use electrosphere.Base.{
  ℕ, ◌≤◌, ◌≡◌, refl, true, false, none, some, List, [], ◌∷◌, arith, codes, map, take, All, length,
}
use electrosphere.Base.Bytes.{Bytes}
use electrosphere.Base.Exec.{ok, err, Exec, throw}
use electrosphere.Base.Paths.{resolve, is_within, is_unsafe_part}
use electrosphere.Domain.Errors.{plain_error, to_service_error}
use electrosphere.Domain.Types.{Backend, SandboxKind, TurnState}
use electrosphere.Domain.Turns.{BoundTurn}
use electrosphere.Mcp.Paths.{
  has_mark, relative_to_workspace, has_unsafe_part, check_parts, normalize_workspace_path,
}
use electrosphere.Mcp.Paths.Safe.{normalize-normalize}
use electrosphere.Mcp.Lines.{LineRange, in_ranges, selected_line, line_numbers}
use electrosphere.Mcp.Lines.Numbering.{text_of, selected_lines, line_numbers-selected_lines}
use electrosphere.Mcp.Lines.Endless.{line_numbers_endless}
use electrosphere.Mcp.Read.Exported.{slice}
use electrosphere.Mcp.Files.{Place, Backends, ArtifactStore, unbound}
use electrosphere.Mcp.Tools.{tool_error}
use electrosphere.Mcp.Read.Handler.{Codecs}
use electrosphere.Mcp.Server.{SessionCall, ToolCall, move, serve}
use electrosphere.Mcp.Confined.{IsTurnCall}
use electrosphere.Mcp.Confined.Tools.{serve-unbound, serve-Confined}
use electrosphere.Storage.Database.{Db}
use electrosphere.Tests.Publishing.{store}

abbrev named : Bytes
named = codes "/workspace/a"

normalized : normalize_workspace_path false named ≡ ok (codes "a")
unfolding normalize_workspace_path has_mark relative_to_workspace check_parts has_unsafe_part
    is_unsafe_part
normalized = refl

normalize-normalize_example :
    (normalize_workspace_path false (codes "a") ≡ ok (codes "a"))
    × (is_within (codes "w" ∷ []) (resolve (codes "w" ∷ []) (codes "a")) ≡ true)
normalize-normalize_example =
    normalize-normalize false named (codes "a") (codes "w" ∷ []) normalized

abbrev document : List Bytes
document = codes "a" ∷ codes "b" ∷ codes "c" ∷ codes "d" ∷ []

abbrev some_ranges : List LineRange
some_ranges = record { start = 2; last = 2 } ∷ record { start = 4; last = 9 } ∷ []

line_numbers-selected_lines_example :
    line_numbers 5
      (map text_of (take 9 (selected_lines 2 (some some_ranges) 1 document)))
      2
      (some some_ranges)
    ≡ some (take 9 (selected_lines 2 (some some_ranges) 1 document))
line_numbers-selected_lines_example =
    line_numbers-selected_lines document 9 2 5 (some some_ranges) (omega arith) (omega arith)

two_numbered :
    selected_lines 2 (some some_ranges) 1 document
    ≡ record { line = 2; text = codes "b" } ∷ record { line = 4; text = codes "d" } ∷ []
unfolding selected_lines in_ranges selected_line
two_numbered = refl

none_in : (n : ℕ) → 1 ≤ n → in_ranges [] n ≡ false
unfolding in_ranges
none_in n positive = refl

-- An empty list of ranges, as the tool's schema admits it.
line_numbers_endless_example : line_numbers 1_000 (codes "a" ∷ codes "b" ∷ []) 1 (some []) ≡ none
line_numbers_endless_example = line_numbers_endless 1_000 (codes "a") (codes "b" ∷ []) 1 [] none_in

-- Backends, sessions and a store that refuse every call.
abbrev backends : Backends
backends = record {
  stat = λ calls place path. err (plain_error "refused");
  read = λ calls place input. err (plain_error "refused");
  read_bytes = λ calls place path offset limit. err (plain_error "refused");
  write = λ calls place path source. err (plain_error "refused");
  edit = λ calls place path. err (plain_error "refused");
  glob = λ calls place patterns. err (plain_error "refused");
  grep = λ calls place pattern. err (plain_error "refused");
  done = λ calls place call. ok tt;
}

abbrev sessions : SessionCall → Exec Db ℕ
sessions call = throw (plain_error "refused")

abbrev artifacts : ArtifactStore
artifacts = record {
  put_stream = λ thread_id source media_type filename. throw (plain_error "refused");
  resolve = λ thread_id digest. throw (plain_error "refused");
  open_stream = λ thread_id digest range. throw (plain_error "refused");
}

abbrev codecs : Codecs
codecs = record {
  next_line = λ cursor. none;
  cursor_of = λ n. [];
  decode = λ before chunk. some chunk;
  flush = λ before. some [];
  json_size = λ lines. length lines;
  is_utf8 = λ bytes. true;
  digest = λ bytes. bytes;
  fuel = 100;
}

abbrev turn : BoundTurn
turn = record {
  thread_id = "thread";
  turn_id = "turn";
  mode = SandboxKind.durable;
  instance_id = "i";
  workspace_id = some "w";
  expected_head = some "c0";
}

abbrev moving : ToolCall
moving = move (codes "/workspace/a") (codes "b/c")

serve-unbound_example :
    serve none sessions backends artifacts codecs moving
      (record { db = store TurnState.opened; calls = [] })
    ≡ (tool_error (to_service_error unbound), record { db = store TurnState.opened; calls = [] })
serve-unbound_example =
    serve-unbound sessions backends artifacts codecs moving
      (record { db = store TurnState.opened; calls = [] })

serve-Confined_example :
    All
      (IsTurnCall (store TurnState.opened) turn)
      (serve
        (some turn)
        sessions
        backends
        artifacts
        codecs
        moving
        (record { db = store TurnState.opened; calls = [] })).1.calls
serve-Confined_example =
    serve-Confined sessions backends artifacts codecs turn (store TurnState.opened) moving

-- A backend with one file.
abbrev one_file : Backends
one_file = record backends {
  read_bytes = λ calls place path offset limit. ok (slice (codes "abc") offset limit);
}

abbrev place : Place
place = record {
  backend = Backend.docker;
  handle = record {
    backend = Backend.docker;
    instance_id = "i";
    opaque_id = "o";
    workspace_path = "/p";
  };
}
