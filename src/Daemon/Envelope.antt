-- ===== src/Daemon/Envelope.antt =====
-- src/daemon/http.ts: `inspectMcpRequest`, headers and responses. The names of headers are in lower
-- case, each once. `parse` is `JSON.parse` of a body's text, none where it throws.
use electrosphere.Base.{
  ℕ, String, Bool, true, false, ◌||◌, Option, none, some, List, [], ◌∷◌, length, ◌==◌, str_eq,
  if◌then◌else◌, select_first, delete_where,
}
use electrosphere.Base.Bytes.{Bytes}
use electrosphere.Domain.Errors.{ServiceError, Thrown, status_by_code, to_service_error}

abbrev pub Headers : Type 0
Headers = List (String × String)

abbrev pub is_header : (name : String) → String × String → Bool
is_header name h = str_eq h.0 name

abbrev value_of : Option (String × String) → Option String
value_of none = none
value_of (some h) = some h.1

unfoldable pub get_header : (name : String) → Headers → Option String
get_header name headers = value_of (select_first (is_header name) headers)

unfoldable pub delete_header : (name : String) → Headers → Headers
delete_header name headers = delete_where (is_header name) headers

unfoldable pub set_header : (name value : String) → Headers → Headers
set_header name value headers = (name, value) ∷ delete_header name headers

abbrev pub internal_lease_header : String
internal_lease_header = "electrosphere-internal-lease-id"

abbrev pub thread_header : String
thread_header = "electrosphere-thread-id"

abbrev pub turn_header : String
turn_header = "electrosphere-turn-id"

abbrev pub method_header : String
method_header = "mcp-method"

-- A text in a condition counts as false where it is empty.
abbrev pub given : Option String → Option String
given none = none
given (some String.[]) = none
given (some (String.◌∷◌ c s)) = some (String.◌∷◌ c s)

pub data MessageId : Type 0 where
  null : MessageId
  text_id : String → MessageId
  number_id : ℕ → MessageId

-- The two fields of a message that are read; a method that is no text is none, an id that is
-- neither a text nor a number is null.
pub record Message : Type 0 where
  pub method : Option String
  pub id : MessageId

-- A parsed body: one value or an array, where a value that is no object is none.
pub data Parsed : Type 0 where
  single : Option Message → Parsed
  batch : List (Option Message) → Parsed

pub record McpEnvelope : Type 0 where
  pub method : Option String
  pub id : MessageId
  pub body : Option Bytes

pub record McpRequest : Type 0 where
  pub http_method : String
  pub headers : Headers
  pub content : Bytes

abbrev pub objects_among : List (Option Message) → List Message
objects_among [] = []
objects_among (none ∷ messages) = objects_among messages
objects_among (some message ∷ messages) = message ∷ objects_among messages

abbrev pub objects_of : Parsed → List Message
objects_of (single value) = objects_among (value ∷ [])
objects_of (batch messages) = objects_among messages

abbrev is_call : Message → Bool
is_call message = elim message.method [ none ↦ false | some m ↦ str_eq m "tools/call" ]

abbrev has_method : Message → Bool
has_method message = elim message.method [ none ↦ false | some m ↦ true ]

abbrev method_of : Option Message → Option String
method_of none = none
method_of (some message) = message.method

abbrev or_else : Option String → Option String → Option String
or_else none value = value
or_else (some value) other = some value

-- `tools/call` wherever it is, otherwise the first method.
unfoldable pub body_method : List Message → Option String
body_method objects =
    or_else (method_of (select_first is_call objects)) (method_of (select_first has_method objects))

abbrev pub body_id : List Message → MessageId
body_id (message ∷ []) = message.id
body_id _ = null

abbrev pub body_of : McpRequest → Option Bytes
body_of request =
    if str_eq request.http_method "GET" || str_eq request.http_method "HEAD"
    then none
    else some request.content

module _ (parse : Bytes → Option Parsed) where
  -- `undefined`, the value of no body or an empty one, is no object.
  abbrev parsed_body : Option Bytes → Option Parsed
  parsed_body none = some (single none)
  parsed_body (some body) = if length body == 0 then some (single none) else parse body

  abbrev envelope_of :
      (header : Option String) → (body : Option Bytes) → Option Parsed → McpEnvelope
  envelope_of header body none = record { method = given header; id = null; body = body }
  envelope_of header body (some value) = record {
    method = given (or_else header (body_method (objects_of value)));
    id = body_id (objects_of value);
    body = body;
  }

  unfoldable pub inspect_mcp_request : McpRequest → McpEnvelope
  inspect_mcp_request request =
      envelope_of (get_header method_header request.headers) (body_of request)
        (parsed_body (body_of request))

-- The answers: an error with its status, an error of the protocol with status 400,
-- a value as JSON, or the answer of the MCP library as it is.
pub data Response (A : Type 0) : Type 0 where
  failure : (status : ℕ) → ServiceError → Response A
  turn_error : MessageId → ServiceError → Response A
  answered : (status : ℕ) → A → Response A
  passed_on : A → Response A

-- `errorResponse`: what is no `ServiceError` is answered as `BACKEND_ERROR` with status 500.
unfoldable pub error_response : {A : Type 0} → Thrown → Response A
error_response e = failure (status_by_code (to_service_error e).code) (to_service_error e)
