-- ===== src/Agent/Files/Responses.antt =====
-- src/backends/agent-files.ts: the responses of the agent and what they are checked for. The sizes
-- of responses as JSON are a parameter.
use electrosphere.Base.{
  ℕ, String, Bool, true, Option, none, some, List, [], ◌∷◌, leb, codes, get_or, if◌then◌else◌,
}
use electrosphere.Base.Bytes.{Bytes}
use electrosphere.Base.Exec.{Result, ok, err}
use electrosphere.Domain.Errors.{ErrorCode, Thrown, service_error, stale_digest, throws}
use electrosphere.Domain.Types.{is_digest}
use electrosphere.Mcp.Files.{FileEntry, FileMatch, FileType}
use electrosphere.Storage.Archive.{max_safe_integer}

-- A number of a response: a natural number, or one that is negative or not whole.
pub data Number : Type 0 where
  natural : ℕ → Number
  not_natural : Number

pub data AgentErrorCode : Type 0 where
  invalid_argument snapshot_limit snapshot_unsupported_entry storage_exhausted : AgentErrorCode
  path_outside_workspace file_not_found file_too_large invalid_edit : AgentErrorCode
  transfer_not_found transfer_capacity regex_limit backend_unavailable unknown : AgentErrorCode

pub record StatResult : Type 0 where
  pub file_type : FileType
  pub size : Number
  pub mode : Number
  pub modified_at : Number

-- The fields that the file operations read. `data` is in base64.
pub record AgentResponse : Type 0 where
  pub succeeded : Bool
  pub error : Option String
  pub error_code : Option AgentErrorCode
  pub current_digest : Option String
  pub lines : Option (List Bytes)
  pub entries : Option (List FileEntry)
  pub found : Option (List FileMatch)
  pub stat_result : Option StatResult
  pub total_matches : Option Number
  pub next_offset : Option Number
  pub skipped_files : Option Number
  pub is_directory : Option Bool
  pub encoded : Option Bytes
  pub size : Option Number
  pub digest : Option String
  pub eof : Option Bool
  pub truncated : Option Bool
  pub next_cursor : Option Bytes
  pub lines_before : Option Number
  pub lines_after : Option Number

abbrev pub no_response : AgentResponse
no_response = record {
  succeeded = true;
  error = none;
  error_code = none;
  current_digest = none;
  lines = none;
  entries = none;
  found = none;
  stat_result = none;
  total_matches = none;
  next_offset = none;
  skipped_files = none;
  is_directory = none;
  encoded = none;
  size = none;
  digest = none;
  eof = none;
  truncated = none;
  next_cursor = none;
  lines_before = none;
  lines_after = none;
}

-- `MAX_CHUNK_BYTES` and `MAX_ENCODED_RESPONSE_BYTES`.
abbrev pub max_chunk_bytes : ℕ
max_chunk_bytes = 393_216

abbrev pub max_encoded_response_bytes : ℕ
max_encoded_response_bytes = 1_500_000

-- A text in a condition counts as false where it is empty.
abbrev pub non_empty : Option Bytes → Option Bytes
non_empty none = none
non_empty (some []) = none
non_empty (some (c ∷ s)) = some (c ∷ s)

abbrev pub non_empty_text : Option String → Option String
non_empty_text none = none
non_empty_text (some String.[]) = none
non_empty_text (some (String.◌∷◌ c s)) = some (String.◌∷◌ c s)

abbrev code_of : Option AgentErrorCode → ErrorCode
code_of none = ErrorCode.backend_error
code_of (some AgentErrorCode.invalid_argument) = ErrorCode.invalid_argument
code_of (some AgentErrorCode.path_outside_workspace) = ErrorCode.invalid_argument
code_of (some AgentErrorCode.file_too_large) = ErrorCode.invalid_argument
code_of (some AgentErrorCode.regex_limit) = ErrorCode.invalid_argument
code_of (some AgentErrorCode.file_not_found) = ErrorCode.not_found
code_of (some AgentErrorCode.transfer_not_found) = ErrorCode.not_found
code_of (some AgentErrorCode.transfer_capacity) = ErrorCode.storage_exhausted
code_of (some AgentErrorCode.storage_exhausted) = ErrorCode.storage_exhausted
code_of (some AgentErrorCode.invalid_edit) = ErrorCode.head_conflict
code_of (some AgentErrorCode.backend_unavailable) = ErrorCode.backend_unavailable
code_of (some AgentErrorCode.snapshot_limit) = ErrorCode.snapshot_limit
code_of (some AgentErrorCode.snapshot_unsupported_entry) = ErrorCode.snapshot_unsupported_entry
code_of (some AgentErrorCode.unknown) = ErrorCode.backend_error

-- Only a rejected edit has details.
unfoldable pub agent_error : AgentResponse → (fallback : String) → Thrown
agent_error response fallback = service_error (record {
  code = code_of response.error_code;
  message = get_or response.error fallback;
  details = elim response.error_code [
    | some AgentErrorCode.invalid_edit ↦
        some (stale_digest (non_empty_text response.current_digest))
    | _ ↦ none
  ];
})

unfoldable pub require_ok : AgentResponse → (fallback : String) → Result (Unit {0})
require_ok response fallback =
    if response.succeeded then ok tt else err (agent_error response fallback)

abbrev pub malformed : Thrown
malformed = throws ErrorCode.backend_error "Guest agent returned an invalid response"

unfoldable pub guard_encoded_response :
    (encoded_length : AgentResponse → ℕ) → AgentResponse → Result (Unit {0})
guard_encoded_response encoded_length response =
    if leb (encoded_length response) max_encoded_response_bytes
    then ok tt
    else err (throws ErrorCode.backend_error "Guest agent response exceeds transport-safe limit")

unfoldable pub require_digest : Option String → Result Bytes
require_digest none = err malformed
require_digest (some value) = if is_digest value then ok (codes value) else err malformed

unfoldable pub require_number : Option Number → Result ℕ
require_number none = err malformed
require_number (some not_natural) = err malformed
require_number (some (natural n)) = if leb n max_safe_integer then ok n else err malformed

abbrev optionally : {A B : Type 0} → (A → Result B) → Option A → Result (Option B)
optionally check none = ok none
optionally check (some a) = elim (check a) [ ok b ↦ ok (some b) | err e ↦ err e ]

-- The number of a field that may be absent.
abbrev pub optional_number : Option Number → Result (Option ℕ)
optional_number value = optionally (λ n. require_number (some n)) value

-- The digest of a field that may be absent or empty.
abbrev pub optional_digest : Option String → Result (Option Bytes)
optional_digest value = optionally (λ d. require_digest (some d)) (non_empty_text value)
