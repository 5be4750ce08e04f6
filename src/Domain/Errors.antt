-- ===== src/Domain/Errors.antt =====
-- src/domain/errors.ts: the error codes, their HTTP statuses, and what a call can throw.
use Prim.Native.Nat.{ℕ}
use Prim.Native.String.{String}
use mathlib.Core.Option.{Option, none}

pub data ErrorCode : Type 0 where
  invalid_argument auth_required forbidden not_found instance_busy head_conflict thread_busy :
      ErrorCode
  turn_closed snapshot_limit snapshot_unsupported_entry backend_error : ErrorCode
  backend_unavailable execution_timed_out storage_exhausted session_capacity : ErrorCode
  session_stdin_closed : ErrorCode

pub status_by_code : ErrorCode → ℕ
status_by_code ErrorCode.invalid_argument = 400
status_by_code ErrorCode.auth_required = 401
status_by_code ErrorCode.forbidden = 403
status_by_code ErrorCode.not_found = 404
status_by_code ErrorCode.instance_busy = 409
status_by_code ErrorCode.head_conflict = 409
status_by_code ErrorCode.thread_busy = 409
status_by_code ErrorCode.turn_closed = 409
status_by_code ErrorCode.snapshot_limit = 413
status_by_code ErrorCode.snapshot_unsupported_entry = 422
status_by_code ErrorCode.backend_error = 500
status_by_code ErrorCode.backend_unavailable = 500
status_by_code ErrorCode.execution_timed_out = 504
status_by_code ErrorCode.storage_exhausted = 507
status_by_code ErrorCode.session_capacity = 409
status_by_code ErrorCode.session_stdin_closed = 409

-- The two objects that the code passes as `details`.
pub data Details : Type 0 where
  ref_changed : (captured_commit : String) → (current_head : Option String) → Details
  stale_digest : (current_digest : Option String) → Details

pub record ServiceError : Type 0 where
  pub code : ErrorCode
  pub message : String
  pub details : Option Details

-- `service_error` is an instance of `ServiceError`; `plain_error` is any other thrown value, with
-- its message.
pub data Thrown : Type 0 where
  service_error : ServiceError → Thrown
  plain_error : String → Thrown

abbrev pub throws : ErrorCode → String → Thrown
throws c m = service_error (record { code = c; message = m; details = none })

-- `serviceError` of turn-service.ts, also written out in `failOperation`, `toolError` and `/mcp`.
abbrev pub to_service_error : Thrown → ServiceError
to_service_error (service_error e) = e
to_service_error (plain_error m) = record {
  code = ErrorCode.backend_error;
  message = m;
  details = none;
}
