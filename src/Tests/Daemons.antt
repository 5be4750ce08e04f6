-- ===== src/Tests/Daemons.antt =====
-- The theorems on the HTTP surface and on the agent's files at concrete inputs.
use electrosphere.Base.{◌≡◌, ◌↔◌, refl, true, Option, none, some, any, [], ◌∷◌, codes}
use electrosphere.Base.Bytes.{Bytes}
use electrosphere.Base.Exec.{ok, err}
use electrosphere.Domain.Errors.{Thrown, plain_error}
use electrosphere.Domain.Types.{is_identifier}
use electrosphere.Domain.Turns.{BoundTurn, Lease, Turns, is_lease, acquire, resolve, bound}
use electrosphere.Daemon.Auth.{require_auth, check_token}
use electrosphere.Daemon.Admission.{HasToken, require_auth_iff}
use electrosphere.Daemon.Envelope.{
  get_header, delete_header, set_header, Message, text_id, single, body_method, McpRequest,
  inspect_mcp_request, passed_on, error_response,
}
use electrosphere.Daemon.Mcp.{
  bound_turn, McpEnv, authorization_of, is_tool_call, lease_for, fetch_leased, call_tool, mcp,
}
use electrosphere.Daemon.Leasing.{mcp-Leaked}
use electrosphere.Daemon.Binding.{observe, IsNamed, mcp-IsNamed}
use electrosphere.Mcp.Files.{Source}
use electrosphere.Agent.Files.Responses.{natural, AgentResponse, no_response}
use electrosphere.Agent.Files.Requests.{Transport}
use electrosphere.Agent.Files.Transfer.{write}
use electrosphere.Agent.Files.Committed.{Ended, write-Ended}
use electrosphere.Tests.Leasing.{leased, bound_turn as test_turn}

abbrev utf8 : Bytes → Bytes
utf8 bytes = bytes

abbrev token : Bytes
token = codes "secret"

require_auth_iff_example :
    (require_auth utf8 (some token) (some (codes "Bearer secret")) ≡ ok tt)
    ↔ HasToken utf8 (some token) (some (codes "Bearer secret"))
require_auth_iff_example = require_auth_iff utf8 (some token) (some (codes "Bearer secret"))

abbrev message : Message
message = record { method = some "tools/call"; id = text_id "1" }

-- The client names a lease of its own.
abbrev request : McpRequest
request = record {
  http_method = "POST";
  headers =
      ("authorization", "Bearer secret")
      ∷ ("electrosphere-internal-lease-id", "lease")
      ∷ ("electrosphere-thread-id", "thread")
      ∷ ("electrosphere-turn-id", "turn")
      ∷ [];
  content = codes "{}";
}

abbrev env : McpEnv (Option BoundTurn)
env = record {
  utf8 = utf8;
  decode = utf8;
  parse = λ body. some (single (some message));
  auth_token = some token;
  lease_id = "fresh";
  construct = λ f. ok tt;
  fetch = observe;
}

-- As where the method is one that a `Request` must not have.
abbrev refused : Thrown
refused = plain_error "Method is forbidden"

abbrev refusing : McpEnv (Option BoundTurn)
refusing = record env { construct = λ f. err refused }

abbrev fresh : Lease
fresh = record { id = "fresh"; turn = test_turn }

abbrev holding : Turns
holding = (lease_for "fresh" (some "thread") (some "turn") leased).1

mcp-Leaked_example :
    (mcp refusing request leased ≡ (ok (error_response refused), holding))
    × (any (is_lease "fresh") (mcp refusing request leased).1.active_leases ≡ true)
unfolding require_auth check_token inspect_mcp_request get_header body_method lease_for acquire
    resolve bound is_identifier
mcp-Leaked_example = mcp-Leaked refusing request leased fresh holding refused refl refl refl refl

served : (mcp (record env { fetch = observe }) request leased).0 ≡ ok (passed_on (some test_turn))
unfolding mcp require_auth check_token inspect_mcp_request get_header body_method call_tool
    lease_for acquire resolve bound is_identifier fetch_leased set_header delete_header bound_turn
served = refl

mcp-IsNamed_example :
    (require_auth utf8 (some token) (authorization_of request) ≡ ok tt)
    × (is_tool_call (inspect_mcp_request env.parse request) ≡ true)
    × IsNamed env request (inspect_mcp_request env.parse request) leased test_turn
mcp-IsNamed_example = mcp-IsNamed env request leased test_turn served

abbrev answer : AgentResponse
answer = record no_response { size = some (natural 3) }

-- The agent accepts every request, but answers a commit without a digest.
abbrev transport : Transport
transport = record {
  answer = λ requests r. ok answer;
  to_base64 = λ bytes. bytes;
  from_base64 = λ bytes. bytes;
  encoded_length = λ response. 0;
}

abbrev source : Source
source = record { chunks = (1 ∷ 2 ∷ []) ∷ [] ∷ (3 ∷ []) ∷ []; failure = none }

write-Ended_example :
    Ended transport
      (codes "t")
      (codes "a")
      true
      source
      (write transport (codes "t") (codes "a") source true []).0
      (write transport (codes "t") (codes "a") source true []).1
write-Ended_example = write-Ended transport (codes "t") (codes "a") true source
