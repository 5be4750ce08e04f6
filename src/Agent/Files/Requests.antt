-- ===== src/Agent/Files/Requests.antt =====
-- src/backends/agent-files.ts: `AgentFileClient`, but for `write`. The requests are recorded, the
-- latest first; a transport answers a request after the requests before it. `AgentFileClient` takes
-- its fields from the inputs of the backends' interface, an absent option and an empty cursor left
-- out.
use electrosphere.Base.{
  ℕ, ◌+◌, String, Bool, false, ◌&&◌, Option, none, some, List, [], ◌∷◌, length, leb, get_or,
  is_some, if◌then◌else◌,
}
use electrosphere.Base.Bytes.{Bytes}
use electrosphere.Base.Exec.{Result, ok, err, Exec, pure, lift, guard, ◌>>=◌, ◌>>◌}
use electrosphere.Domain.Errors.{ErrorCode, throws}
use electrosphere.Mcp.Files.{
  FileReadInput, FileReadResult, FileBytes, FileType, Edit, FileEdited, GlobOptions, GlobResult,
  GrepOptions, GrepResult,
}
use electrosphere.Agent.Files.Responses.{
  Number, AgentResponse, max_chunk_bytes, malformed, non_empty, require_ok, guard_encoded_response,
  require_digest, require_number, optional_number, optional_digest, non_empty_text,
}

pub data AgentRequest : Type 0 where
  file_read : FileReadInput → AgentRequest
  file_read_bytes : (path : Bytes) → (offset limit : ℕ) → AgentRequest
  file_write_begin : (transfer_id : Bytes) → (path : Bytes) → (create_parents : Bool) → AgentRequest
  file_write_chunk : (transfer_id : Bytes) → (encoded : Bytes) → AgentRequest
  file_write_commit file_write_abort : (transfer_id : Bytes) → AgentRequest
  file_edit : (path : Bytes) → (expected_digest : Bytes) → List Edit → AgentRequest
  file_glob : (patterns : List Bytes) → GlobOptions → AgentRequest
  file_grep : (pattern : Bytes) → (paths : Option (List Bytes)) → GrepOptions → AgentRequest
  file_stat file_remove : (path : Bytes) → AgentRequest
  file_move : (source destination : Bytes) → AgentRequest

abbrev pub Requests : Type 0
Requests = List AgentRequest

-- `request`, base64 both ways, and the size of a response as JSON.
pub record Transport : Type 0 where
  pub answer : Requests → AgentRequest → Result AgentResponse
  pub to_base64 : Bytes → Bytes
  pub from_base64 : Bytes → Bytes
  pub encoded_length : AgentResponse → ℕ

pub record FileStatResult : Type 0 where
  pub file_type : FileType
  pub size : ℕ
  pub mode : ℕ
  pub modified_at : ℕ

abbrev pub required : {A : Type 0} → Option A → Result A
required none = err malformed
required (some a) = ok a

module _ (transport : Transport) where
  unfoldable pub request : AgentRequest → Exec Requests AgentResponse
  request r s = (transport.answer s r, r ∷ s)

  -- A request that must succeed.
  unfoldable pub request_ok : AgentRequest → (fallback : String) → Exec Requests AgentResponse
  request_ok r fallback = do
    response ← request r
    lift (require_ok response fallback)
    pure response

  unfoldable pub read_result : AgentResponse → Exec Requests FileReadResult
  read_result response = do
    size ← lift (optional_number response.size)
    digest ← lift (optional_digest response.digest)
    next_offset ← lift (optional_number response.next_offset)
    pure (record {
      lines = get_or response.lines [];
      entries = get_or response.entries [];
      is_directory = get_or response.is_directory false;
      size = size;
      digest = digest;
      next_offset = next_offset;
      truncated = get_or response.truncated false;
      next_cursor = non_empty response.next_cursor;
    })

  -- Whether the fields of a directory, or of a file, are there. A digest that is empty is caught
  -- here, as an absent one.
  abbrev pub is_complete : AgentResponse → Bool
  is_complete response =
      if get_or response.is_directory false
      then is_some response.entries
      else is_some response.lines
        && is_some response.size
        && is_some (non_empty_text response.digest)

  unfoldable pub read : FileReadInput → Exec Requests FileReadResult
  read input = do
    response ←
        request_ok (file_read (record input { cursor = non_empty input.cursor }))
          "Guest agent file read failed"
    lift (guard_encoded_response transport.encoded_length response)
    guard (is_complete response) malformed
    read_result response

  -- The bytes that were asked for, no more than a chunk and no more than the file has.
  unfoldable pub checked_bytes :
      (offset limit : ℕ)
      → (bytes : Bytes) → (size : Option Number) → (eof : Bool) → Exec Requests FileBytes
  checked_bytes offset limit bytes size eof = do
    guard (leb (length bytes) limit && leb (length bytes) max_chunk_bytes)
        (throws ErrorCode.backend_error "Guest agent byte read exceeded requested limit")
    file_size ← lift (require_number size)
    guard (leb (offset + length bytes) file_size)
        (throws ErrorCode.backend_error "Guest agent byte read exceeds reported file size")
    pure (record { data_bytes = bytes; size = file_size; eof = eof })

  unfoldable pub read_bytes : (path : Bytes) → (offset limit : ℕ) → Exec Requests FileBytes
  read_bytes path offset limit = do
    response ← request_ok (file_read_bytes path offset limit) "Guest agent byte read failed"
    encoded ← lift (required response.encoded)
    lift (required response.size)
    eof ← lift (required response.eof)
    checked_bytes offset limit (transport.from_base64 encoded) response.size eof

  unfoldable pub edit :
      (path : Bytes) → (expected_digest : Bytes) → List Edit → Exec Requests FileEdited
  edit path expected_digest edits = do
    response ← request_ok (file_edit path expected_digest edits) "Guest agent file edit failed"
    lines_before ← lift (require_number response.lines_before)
    lines_after ← lift (require_number response.lines_after)
    digest ← lift (require_digest response.digest)
    pure (record { lines_before = lines_before; lines_after = lines_after; digest = digest })

  unfoldable pub glob : (patterns : List Bytes) → GlobOptions → Exec Requests GlobResult
  glob patterns options = do
    response ←
        request_ok (file_glob patterns (record options { cursor = non_empty options.cursor }))
          "Guest agent glob failed"
    lift (guard_encoded_response transport.encoded_length response)
    entries ← lift (required response.entries)
    pure (record {
      entries = entries;
      truncated = get_or response.truncated false;
      next_cursor = non_empty response.next_cursor;
    })

  unfoldable pub grep :
      (pattern : Bytes) → (paths : Option (List Bytes)) → GrepOptions → Exec Requests GrepResult
  grep pattern paths options = do
    response ←
        request_ok (file_grep pattern paths (record options { cursor = non_empty options.cursor }))
          "Guest agent grep failed"
    lift (guard_encoded_response transport.encoded_length response)
    found ← lift (required response.found)
    total_matches ← lift (require_number response.total_matches)
    skipped_files ← lift (require_number response.skipped_files)
    pure (record {
      found = found;
      total_matches = total_matches;
      skipped_files = skipped_files;
      truncated = get_or response.truncated false;
      next_cursor = non_empty response.next_cursor;
    })

  unfoldable pub stat : (path : Bytes) → Exec Requests FileStatResult
  stat path = do
    response ← request_ok (file_stat path) "Guest agent file stat failed"
    result ← lift (required response.stat_result)
    size ← lift (require_number (some result.size))
    mode ← lift (require_number (some result.mode))
    modified_at ← lift (require_number (some result.modified_at))
    pure (record {
      file_type = result.file_type;
      size = size;
      mode = mode;
      modified_at = modified_at;
    })

  unfoldable pub move : (source destination : Bytes) → Exec Requests (Unit {0})
  move source destination = do
    request_ok (file_move source destination) "Guest agent file move failed"
    pure tt

  unfoldable pub remove : (path : Bytes) → Exec Requests (Unit {0})
  remove path = do request_ok (file_remove path) "Guest agent file remove failed"; pure tt
