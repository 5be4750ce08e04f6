-- ===== src/Domain/Sessions/Shaping.antt =====
-- src/domain/session-manager.ts: `shapeOutput` and `response`.
use electrosphere.Base.{
  ℕ, ◌+◌, ◌-◌, ◌*◌, ◌/◌, ◌≤◌, ◌≡◌, refl, String, Bool, true, false, ◌&&◌, Option, none, some, List,
  length, drop, take, length-take, length-drop, arith, max, min, ltb, leb, get_or, Bool-cases, inl,
  inr, if◌then◌else◌,
}
use electrosphere.Domain.Types.{ExecutionState}
use electrosphere.Domain.Sessions.{ExecutionResult, Session}

-- The text of an answer: the bytes decoded as UTF-8, or two pieces of them around the number of
-- bytes that were left out.
pub data Output : Type 0 where
  whole : List ℕ → Output
  elided : List ℕ → ℕ → List ℕ → Output

pub record Shaped : Type 0 where
  pub output : Output
  pub original_token_count : ℕ
  pub omitted : ℕ
  pub truncated : Bool

abbrev requested_bytes : ℕ → Option ℕ → ℕ
requested_bytes max_output_bytes none = max_output_bytes
requested_bytes max_output_bytes (some tokens) = min max_output_bytes (tokens * 4)

abbrev pub limit_of : ℕ → Option ℕ → ℕ
limit_of max_output_bytes tokens = max 256 (requested_bytes max_output_bytes tokens)

shape : (limit : ℕ) → List ℕ → (original_bytes : ℕ) → Shaped
shape limit bytes original_bytes =
    let side = limit / 2 in
    if leb original_bytes limit && leb (length bytes) limit
    then record {
      output = whole bytes;
      original_token_count = (original_bytes + 3) / 4;
      omitted = 0;
      truncated = false;
    }
    else record {
      output =
          elided (take side bytes) (original_bytes - side * 2)
            (drop (max side (length bytes - side)) bytes);
      original_token_count = (original_bytes + 3) / 4;
      omitted = original_bytes - side * 2;
      truncated = true;
    }

unfoldable pub shape_output :
    (max_output_bytes : ℕ) → List ℕ → Option ℕ → (original_bytes : ℕ) → Shaped
unfolding shape
shape_output max_output_bytes bytes tokens original_bytes =
    shape (limit_of max_output_bytes tokens) bytes original_bytes

pub data ShellStatus : Type 0 where
  running completed timed_out canceled failed killed : ShellStatus

abbrev status_of : (was_killed : Bool) → ExecutionState → ShellStatus
status_of true state = ShellStatus.killed
status_of false ExecutionState.running = ShellStatus.running
status_of false ExecutionState.completed = ShellStatus.completed
status_of false ExecutionState.timed_out = ShellStatus.timed_out
status_of false ExecutionState.canceled = ShellStatus.canceled
status_of false ExecutionState.failed = ShellStatus.failed
status_of false ExecutionState.lost = ShellStatus.failed

abbrev pub is_running : ExecutionState → Bool
is_running ExecutionState.running = true
is_running _ = false

-- `chunk_id`, a fresh identifier, is left out.
pub record ShellResult : Type 0 where
  pub status : ShellStatus
  pub session_id : Option String
  pub exit_code : Option ℕ
  pub shaped : Shaped
  pub wall_time_ms : ℕ

-- `response`, with the session that it leaves. Clocks do not run backwards.
unfoldable pub response :
    (now max_output_bytes : ℕ)
    → Session
    → ExecutionResult
    → Option ℕ
    → (was_killed : Bool) → ShellResult × Session
unfolding shape_output
response now max_output_bytes s r tokens was_killed = (
  record {
    status = status_of was_killed r.state;
    session_id = if is_running r.state then some s.id else none;
    exit_code = r.exit_code;
    shaped = shape_output max_output_bytes delta tokens delta_original;
    wall_time_ms = get_or r.finished_at now - r.started_at;
  },
  record s { cursor = original; active = s.active && is_running r.state },
)
  where
    original : ℕ
    original = get_or r.original_bytes (length r.output)

    backend_truncated : Bool
    backend_truncated = ltb 0 (get_or r.output_omitted_bytes 0)

    delta : List ℕ
    delta = if backend_truncated then r.output else drop s.cursor r.output

    delta_original : ℕ
    delta_original = if backend_truncated then original else original - s.cursor

abbrev pub shown_bytes : Output → ℕ
shown_bytes (whole bytes) = length bytes
shown_bytes (elided head n tail) = length head + length tail

shape-within :
    (limit : ℕ) (bytes : List ℕ) (original : ℕ)
    → (shown_bytes (shape limit bytes original).output ≤ limit)
      × (original ≡ length bytes
          → (shown_bytes (shape limit bytes original).output + (shape limit bytes original).omitted
              ≡ length bytes)
            × ((shape limit bytes original).truncated ≡ ltb limit (length bytes)))
unfolding shape
shape-within limit bytes original =
    let taken = length-take (limit / 2) bytes in
    let dropped = length-drop (max (limit / 2) (length bytes - limit / 2)) bytes in
    elim (Bool-cases (leb original limit && leb (length bytes) limit)) [
      | inl fits ↦ rw fits (ground arith, λ same. ground arith)
      | inr large ↦
          rw large
            (omega (arith, taken, dropped), λ same. (ground (arith, taken, dropped), ground arith))
    ]

-- An answer shows no more bytes than its limit. Where the bytes at hand are all there were, those
-- shown and those counted as left out are all of them, and an answer is cut exactly if there are
-- more than the limit.
pub shape_output-within :
    (max_output_bytes : ℕ) (bytes : List ℕ) (tokens : Option ℕ) (original : ℕ)
    → (shown_bytes (shape_output max_output_bytes bytes tokens original).output
        ≤ limit_of max_output_bytes tokens)
      × (shown_bytes (shape_output max_output_bytes bytes tokens (length bytes)).output
            + (shape_output max_output_bytes bytes tokens (length bytes)).omitted
          ≡ length bytes)
      × ((shape_output max_output_bytes bytes tokens (length bytes)).truncated
          ≡ ltb (limit_of max_output_bytes tokens) (length bytes))
unfolding shape_output
shape_output-within max_output_bytes bytes tokens original =
    let limit = limit_of max_output_bytes tokens in
    let (shown, cut) = (shape-within limit bytes (length bytes)).1 refl in
    ((shape-within limit bytes original).0, shown, cut)
