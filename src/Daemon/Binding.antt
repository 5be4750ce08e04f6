-- ===== src/Daemon/Binding.antt =====
-- The turn that a request to `/mcp` of src/daemon/http.ts is served for.
use electrosphere.Base.{
  String, ◌≡◌, refl, sym, subst, ◌∙◌, true, Option, none, some, List, [], ◌∷◌, arith, select_first,
  delete_where, eq_refl, Bool-cases, inl, inr,
}
use electrosphere.Base.Exec.{Result, ok, err, Exec, pure, handle}
use electrosphere.Base.Exec.Triple.{After}
use electrosphere.Domain.Turns.{BoundTurn, Lease, Turns, is_lease, resolve, resolve_lease}
use electrosphere.Daemon.Auth.{require_auth}
use electrosphere.Daemon.Envelope.{
  Headers, is_header, get_header, delete_header, set_header, internal_lease_header, thread_header,
  turn_header, given, McpEnvelope, McpRequest, inspect_mcp_request, Response, passed_on,
  error_response,
}
use electrosphere.Daemon.Mcp.{
  Forwarded, turn_of, leased_turn, bound_turn, McpEnv, authorization_of, is_tool_call, lease_for,
  clean_headers, fetch_leased, with_lease, call_tool, fetch_unleased, authorized, mcp,
}
use electrosphere.Daemon.Leasing.{lease_for-Leased}

-- A handler that answers the turn of the server that it builds.
abbrev pub observe : Forwarded → Exec Turns (Option BoundTurn)
observe f s = (ok (bound_turn f.headers s), s)

select_first-delete_where :
    (name : String) (headers : Headers)
    → select_first (is_header name) (delete_where (is_header name) headers) ≡ none
select_first-delete_where name [] = refl
select_first-delete_where name (h ∷ headers) =
    ground (arith, select_first-delete_where name headers)

-- Without a lease, the header of the client binds nothing.
bound_turn-clean :
    (headers : Headers) (s : Turns)
    → bound_turn (delete_header internal_lease_header headers) s ≡ none
unfolding bound_turn get_header delete_header
bound_turn-clean headers s = rw (select_first-delete_where internal_lease_header headers) refl

given-some : (value : Option String) (x : String) → given value ≡ some x → value ≡ some x
given-some none x e = e
given-some (some String.[]) x e = ground (arith, e)
given-some (some (String.◌∷◌ c s)) x e = e

leased_turn-first :
    (id : String) (l : Lease) (ls : List Lease) (t : Turns) (turn : BoundTurn)
    → is_lease id l ≡ true
    → t.active_leases ≡ l ∷ ls
    → leased_turn (given (some id)) t ≡ some turn
    → l.turn ≡ turn
leased_turn-first String.[] l ls t turn own active e = ground (arith, e)
leased_turn-first (String.◌∷◌ c s) l ls t turn own active e =
    let found : turn_of (resolve_lease (String.◌∷◌ c s) t) ≡ some l.turn = rw (active, own) refl in
    ground (arith, sym found ∙ e)

-- With a lease, the request is served for its turn.
bound_turn-leased :
    (headers : Headers) (l : Lease) (ls : List Lease) (t : Turns) (turn : BoundTurn)
    → t.active_leases ≡ l ∷ ls
    → bound_turn (set_header internal_lease_header l.id headers) t ≡ some turn
    → l.turn ≡ turn
unfolding bound_turn get_header set_header
bound_turn-leased headers l ls t turn active e =
    leased_turn-first l.id l ls t turn (eq_refl l.id) active e

module _ (env : McpEnv (Option BoundTurn)) (request : McpRequest) (envelope : McpEnvelope)
    (s : Turns) (turn : BoundTurn) where
  abbrev observed : McpEnv (Option BoundTurn)
  observed = record env { fetch = observe }

  -- The turn is the open one that the headers name.
  abbrev pub IsNamed : Type 0
  IsNamed =
      (get_header thread_header request.headers ≡ some turn.thread_id)
      × (get_header turn_header request.headers ≡ some turn.turn_id)
      × ((resolve turn.thread_id turn.turn_id s).0 ≡ ok turn)

  -- The answer is that of a server for the turn.
  abbrev IsFor : Result (Response (Option BoundTurn)) → Type 0
  IsFor r = r ≡ ok (passed_on (some turn))

  leased-IsNamed :
      (l : Lease) (t : Turns)
      → (l.id ≡ env.lease_id)
        × (given (get_header thread_header request.headers) ≡ some l.turn.thread_id)
        × (given (get_header turn_header request.headers) ≡ some l.turn.turn_id)
        × ((resolve l.turn.thread_id l.turn.turn_id s).0 ≡ ok l.turn)
        × (t.active_leases ≡ l ∷ s.active_leases)
      → IsFor (fetch_leased observed request envelope l t).0
      → IsNamed
  unfolding fetch_leased
  leased-IsNamed l t (own, thread, turn_name, found, active) e =
      let same =
        bound_turn-leased (clean_headers observed request) l s.active_leases t turn active
          (ground (arith, e)) in
      (
        subst (λ b. get_header thread_header request.headers ≡ some b.thread_id) same
            (given-some (get_header thread_header request.headers) l.turn.thread_id thread),
        subst (λ b. get_header turn_header request.headers ≡ some b.turn_id) same
            (given-some (get_header turn_header request.headers) l.turn.turn_id turn_name),
        subst (λ b. (resolve b.thread_id b.turn_id s).0 ≡ ok b) same found,
      )

  with_lease-IsNamed :
      (lease : Result Lease) (t : Turns)
      → After
          (λ l t.
            (l.id ≡ env.lease_id)
            × (given (get_header thread_header request.headers) ≡ some l.turn.thread_id)
            × (given (get_header turn_header request.headers) ≡ some l.turn.turn_id)
            × ((resolve l.turn.thread_id l.turn.turn_id s).0 ≡ ok l.turn)
            × (t.active_leases ≡ l ∷ s.active_leases))
          (λ _ u. u ≡ s)
          lease
          t
      → IsFor (with_lease observed request envelope lease t).0
      → IsNamed
  with_lease-IsNamed (ok l) t h e = leased-IsNamed l t h e
  with_lease-IsNamed (err x) t h e = absurd (ground (arith, e))

  call_tool-IsNamed : IsFor (call_tool observed request envelope s).0 → IsNamed
  unfolding call_tool
  call_tool-IsNamed e =
      let thread_id = given (get_header thread_header request.headers) in
      let turn_id = given (get_header turn_header request.headers) in
      let r = lease_for env.lease_id thread_id turn_id s in
      with_lease-IsNamed r.0 r.1 (lease_for-Leased env.lease_id thread_id turn_id s) e

  no_answer : IsFor (fetch_unleased observed request envelope s).0 → ⊥
  unfolding fetch_unleased
  no_answer e = let nothing = bound_turn-clean request.headers s in ground (arith, nothing, e)

  authorized-IsNamed :
      (auth : Result (Unit {0}))
      → IsFor (authorized observed request envelope auth s).0
      → (auth ≡ ok tt) × (is_tool_call envelope ≡ true) × IsNamed
  unfolding error_response
  authorized-IsNamed (err x) e = absurd (ground (arith, e))
  authorized-IsNamed (ok _) e = elim (Bool-cases (is_tool_call envelope)) [
    | inl call ↦ (refl, call, call_tool-IsNamed ((rw call refl) ∙ e))
    | inr other ↦ absurd (no_answer ((rw other refl) ∙ e))
  ]

handled :
    (r : Result (Response (Option BoundTurn))) (t : Turns) (turn : Option BoundTurn)
    → (handle (λ x. pure (error_response x)) r t).0 ≡ ok (passed_on turn)
    → r ≡ ok (passed_on turn)
unfolding error_response
handled (ok a) t turn e = e
handled (err x) t turn e = absurd (ground (arith, e))

-- The route is followed with a handler that answers the turn of the server that it builds. If that
-- is a turn, then the request has the token of the daemon, it is a tool call, and the turn is the
-- open one that its thread and turn headers name: a lease that the client names itself binds
-- nothing.
pub mcp-IsNamed :
    (env : McpEnv (Option BoundTurn)) (request : McpRequest) (s : Turns) (turn : BoundTurn)
    → (mcp (record env { fetch = observe }) request s).0 ≡ ok (passed_on (some turn))
    → (require_auth env.utf8 env.auth_token (authorization_of request) ≡ ok tt)
      × (is_tool_call (inspect_mcp_request env.parse request) ≡ true)
      × IsNamed env request (inspect_mcp_request env.parse request) s turn
unfolding mcp
mcp-IsNamed env request s turn e =
    let envelope = inspect_mcp_request env.parse request in
    let auth = require_auth env.utf8 env.auth_token (authorization_of request) in
    authorized-IsNamed env request envelope s turn auth (handled _ _ (some turn) e)
