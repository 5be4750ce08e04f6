-- ===== src/Daemon/Leasing.antt =====
-- The lease of a request to `/mcp` of src/daemon/http.ts, and what is left of it behind the request.
use electrosphere.Base.{
  String, ◌≡◌, refl, sym, subst, ap, true, any, eq_refl, ◌&&◌, Option, none, some, ◌∷◌, Bool-cases,
  inl, inr,
}
use electrosphere.Base.Exec.{ok, err}
use electrosphere.Base.Exec.Triple.{After, Triple}
use electrosphere.Domain.Errors.{Thrown}
use electrosphere.Domain.Types.{is_identifier}
use electrosphere.Domain.Turns.{Lease, Turns, is_lease, resolve}
use electrosphere.Domain.Turns.Leases.Acquire.{Unleased, acquire-cases}
use electrosphere.Daemon.Auth.{require_auth}
use electrosphere.Daemon.Envelope.{
  get_header, thread_header, turn_header, given, McpEnvelope, McpRequest, inspect_mcp_request,
  error_response,
}
use electrosphere.Daemon.Mcp.{
  McpEnv, authorization_of, is_tool_call, lease_for, forward, leased_headers, fetch_leased,
  call_tool, mcp,
}

-- What `acquire` comes to: a lease of the turn with the identifier, or the state as it was.
pub lease_for-Leased :
    (id : String) (thread_id turn_id : Option String) (s : Turns)
    → After
        (λ l t.
          (l.id ≡ id)
          × (thread_id ≡ some l.turn.thread_id)
          × (turn_id ≡ some l.turn.turn_id)
          × ((resolve l.turn.thread_id l.turn.turn_id s).0 ≡ ok l.turn)
          × (t.active_leases ≡ l ∷ s.active_leases))
        (λ _ t. t ≡ s)
        (lease_for id thread_id turn_id s).0
        (lease_for id thread_id turn_id s).1
unfolding lease_for
lease_for-Leased id none turn_id s = refl
lease_for-Leased id (some thread_id) none s = refl
lease_for-Leased id (some thread_id) (some turn_id) s =
    elim (Bool-cases (is_identifier thread_id && is_identifier turn_id)) [
      | inr bad ↦ rw bad refl
      | inl good ↦ rw good (elim (acquire-cases id thread_id turn_id s) [
        | inl (e, refused) ↦ rw refused refl
        | inr (b, t, u, found, more) ↦ rw more (
          refl,
          ap some (sym t),
          ap some (sym u),
          subst (λ i. (resolve i b.turn_id s).0 ≡ ok b) (sym t)
              (subst (λ i. (resolve thread_id i s).0 ≡ ok b) (sym u) found),
          refl,
        )
      ])
    ]

module _ {A : Type 0} (env : McpEnv A) (request : McpRequest) (envelope : McpEnvelope) where
  -- No lease of the request is left.
  abbrev Clear : Turns → Type 0
  Clear s = Unleased env.lease_id s

-- A tool call with the token of the daemon, for which a lease was acquired, but for which the
-- request to the handler cannot be constructed, is answered with that error, while its lease stays
-- active: nothing releases it.
pub mcp-Leaked :
    {A : Type 0} (env : McpEnv A) (request : McpRequest) (s : Turns) (l : Lease) (t : Turns)
    (x : Thrown)
    → require_auth env.utf8 env.auth_token (authorization_of request) ≡ ok tt
    → is_tool_call (inspect_mcp_request env.parse request) ≡ true
    → lease_for env.lease_id
        (given (get_header thread_header request.headers))
        (given (get_header turn_header request.headers))
        s
      ≡ (ok l, t)
    → env.construct
        (forward env request (inspect_mcp_request env.parse request) (leased_headers env request l))
      ≡ err x
    → (mcp env request s ≡ (ok (error_response x), t))
      × (any (is_lease env.lease_id) (mcp env request s).1.active_leases ≡ true)
unfolding mcp call_tool fetch_leased
mcp-Leaked env request s l t x auth call got thrown =
    let thread_id = given (get_header thread_header request.headers) in
    let turn_id = given (get_header turn_header request.headers) in
    let (own, _, _, _, active) = rw got at (lease_for-Leased env.lease_id thread_id turn_id s) in
    let held : any (is_lease env.lease_id) t.active_leases ≡ true =
      rw (active, own) (rw (eq_refl env.lease_id) refl) in
    rw (auth, call, got, thrown) (refl, held)
