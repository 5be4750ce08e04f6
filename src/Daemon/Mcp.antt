-- ===== src/Daemon/Mcp.antt =====
-- src/daemon/http.ts: the route `/mcp` and the turn that a request's server is bound to. The
-- handler of the MCP library is `fetch`, which may do anything to the state of the turn service;
-- `decode` is `toString('utf8')` of a body.
use electrosphere.Base.{String, Bool, false, ◌&&◌, Option, none, some, codes, str_eq, if◌then◌else◌}
use electrosphere.Base.Bytes.{Bytes}
use electrosphere.Base.Exec.{
  Result, ok, err, Exec, pure, throw, lift, attempt, catch, modify, ◌>>=◌, ◌>>◌,
}
use electrosphere.Domain.Errors.{ErrorCode, throws, to_service_error}
use electrosphere.Domain.Types.{is_identifier}
use electrosphere.Domain.Turns.{BoundTurn, Lease, Turns, acquire, release, resolve_lease}
use electrosphere.Daemon.Auth.{require_auth}
use electrosphere.Daemon.Envelope.{
  Headers, get_header, delete_header, set_header, internal_lease_header, thread_header, turn_header,
  given, Parsed, McpEnvelope, McpRequest, inspect_mcp_request, Response, turn_error, passed_on,
  error_response,
}

-- What the handler is called with.
pub record Forwarded : Type 0 where
  pub http_method : String
  pub headers : Headers
  pub body : Option Bytes

abbrev pub turn_of : Option Lease → Option BoundTurn
turn_of none = none
turn_of (some lease) = some lease.turn

abbrev pub leased_turn : Option String → Turns → Option BoundTurn
leased_turn none s = none
leased_turn (some id) s = turn_of (resolve_lease id s)

-- The turn of the server that is built for a request with these headers.
unfoldable pub bound_turn : Headers → Turns → Option BoundTurn
bound_turn headers s = leased_turn (given (get_header internal_lease_header headers)) s

-- What a request finds: `construct` is `new Request`, which throws for a URL or a method that it
-- does not take, and `lease_id` is the fresh identifier that an acquire takes.
pub record McpEnv (A : Type 0) : Type 0 where
  pub utf8 : Bytes → Bytes
  pub decode : Bytes → Bytes
  pub parse : Bytes → Option Parsed
  pub auth_token : Option Bytes
  pub lease_id : String
  pub construct : Forwarded → Result (Unit {0})
  pub fetch : Forwarded → Exec Turns A

abbrev invalid_argument : {A : Type 0} → (message : String) → Exec Turns A
invalid_argument message = throw (throws ErrorCode.invalid_argument message)

abbrev pub authorization_of : McpRequest → Option Bytes
authorization_of request = elim (get_header "authorization" request.headers) [
  | none ↦ none
  | some v ↦ some (codes v)
]

abbrev pub is_tool_call : McpEnvelope → Bool
is_tool_call envelope = elim envelope.method [ none ↦ false | some m ↦ str_eq m "tools/call" ]

-- The lease of the turn that the headers name.
unfoldable pub lease_for :
    (lease_id : String) → (thread_id turn_id : Option String) → Exec Turns Lease
lease_for lease_id (some thread_id) (some turn_id) =
    if is_identifier thread_id && is_identifier turn_id
    then acquire lease_id thread_id turn_id
    else invalid_argument "Electrosphere thread or turn header is invalid"
lease_for lease_id _ _ = invalid_argument "Electrosphere thread and turn headers are required"

module _ {A : Type 0} (env : McpEnv A) where
  -- What `new Request` is given besides the URL and the signal, which are those of the request.
  abbrev pub forward : McpRequest → McpEnvelope → Headers → Forwarded
  forward request envelope headers = record {
    http_method = request.http_method;
    headers = headers;
    body = elim envelope.body [ none ↦ none | some body ↦ some (env.decode body) ];
  }

  -- The headers without the one that only the daemon sets.
  abbrev pub clean_headers : McpRequest → Headers
  clean_headers request = delete_header internal_lease_header request.headers

  -- The headers of a request with a lease.
  abbrev pub leased_headers : McpRequest → Lease → Headers
  leased_headers request lease = set_header internal_lease_header lease.id (clean_headers request)

  -- The handler, and the release of the lease whatever it came to. The request to it is constructed
  -- before, outside `try`.
  unfoldable pub fetch_leased : McpRequest → McpEnvelope → Lease → Exec Turns (Response A)
  fetch_leased request envelope lease = do
    lift (env.construct (forward request envelope (leased_headers request lease)))
    outcome ← attempt (env.fetch (forward request envelope (leased_headers request lease)))
    modify (λ s. (release false lease s).1)
    answer ← lift outcome
    pure (passed_on answer)

  abbrev pub with_lease : McpRequest → McpEnvelope → Result Lease → Exec Turns (Response A)
  with_lease request envelope (ok lease) = fetch_leased request envelope lease
  with_lease request envelope (err e) = pure (turn_error envelope.id (to_service_error e))

  unfoldable pub call_tool : McpRequest → McpEnvelope → Exec Turns (Response A)
  call_tool request envelope = do
    lease ← attempt (
        lease_for env.lease_id (given (get_header thread_header request.headers))
          (given (get_header turn_header request.headers)))
    with_lease request envelope lease

  unfoldable pub fetch_unleased : McpRequest → McpEnvelope → Exec Turns (Response A)
  fetch_unleased request envelope = do
    lift (env.construct (forward request envelope (clean_headers request)))
    answer ← env.fetch (forward request envelope (clean_headers request))
    pure (passed_on answer)

  abbrev pub authorized : McpRequest → McpEnvelope → Result (Unit {0}) → Exec Turns (Response A)
  authorized request envelope (err e) = pure (error_response e)
  authorized request envelope (ok _) =
      if is_tool_call envelope then call_tool request envelope else fetch_unleased request envelope

  -- What is thrown behind the authentication is answered by `onError`.
  unfoldable pub mcp : McpRequest → Exec Turns (Response A)
  mcp request =
      catch
        (authorized request (inspect_mcp_request env.parse request)
          (require_auth env.utf8 env.auth_token (authorization_of request)))
        (λ e. pure (error_response e))
