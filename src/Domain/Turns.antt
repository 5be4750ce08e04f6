-- ===== src/Domain/Turns.antt =====
-- src/domain/turn-service.ts: the state of the turn service, its leases and their waiters.

pub mod Start
pub mod Leases
pub mod Finish
pub mod Fork
pub mod Closing
use electrosphere.Base.{
  ℕ, ◌+◌, ◌-◌, String, Bool, true, false, not, ◌&&◌, Option, none, some, List, [], ◌∷◌, any,
  select_first, delete_where, get_or, ltb, ◌||◌, ◌==◌, str_eq, if◌then◌else◌,
}
use electrosphere.Base.Exec.{
  Result, ok, err, Exec, Await, pure, throw, gets, modify, guard, lift, ◌>>=◌, ◌>>◌,
}
use electrosphere.Domain.Errors.{ErrorCode, ServiceError, Thrown, service_error, throws}
use electrosphere.Domain.Types.{
  SandboxKind, TurnMode, TurnState, TurnRecord, Backend, StoredResult, is_identifier, kind_eq,
  turn_state_eq,
}
use electrosphere.Storage.Database.{Db}
use electrosphere.Storage.Repository.Turns.{get_turn}

pub record TurnView : Type 0 where
  pub thread_id : String
  pub turn_id : String
  pub mode : TurnMode
  pub state : TurnState
  pub instance_id : Option String
  pub workspace_id : Option String
  pub head_commit : Option String

pub record BoundTurn : Type 0 where
  pub thread_id : String
  pub turn_id : String
  pub mode : TurnMode
  pub instance_id : String
  pub workspace_id : Option String
  pub expected_head : Option String

-- `turnKey` joins the two identifiers by U+0000, which no identifier holds: a pair of texts.
pub record TurnKey : Type 0 where
  pub thread_id : String
  pub turn_id : String

abbrev pub key_eq : TurnKey → TurnKey → Bool
key_eq a b = str_eq a.thread_id b.thread_id && str_eq a.turn_id b.turn_id

abbrev pub turn_key : BoundTurn → TurnKey
turn_key t = record { thread_id = t.thread_id; turn_id = t.turn_id }

-- An entry of `activeLeases`.
pub record Lease : Type 0 where
  pub id : String
  pub turn : BoundTurn

pub record Turns : Type 0 where
  pub db : Db
  pub active_leases : List Lease
  pub lease_counts : List (TurnKey × ℕ)
  pub lease_waiters : List TurnKey
  pub start_promises : List TurnKey
  pub finish_promises : List TurnKey
  pub closing : Bool

abbrev pub on_db {ℓ} : {A : Type ℓ} → (Db → Result A × Db) → Turns → Result A × Turns
on_db m s = ((m s.db).0, record s { db = (m s.db).1 })

abbrev pub validate_identifier : {S : Type 0} → String → String → Exec S (Unit {0})
validate_identifier message value =
    guard (is_identifier value) (throws ErrorCode.invalid_argument message)

head_of : Option StoredResult → Option String → Option String
head_of none h = h
head_of (some r) h = elim r.head_commit [ none ↦ h | some c ↦ some c ]

unfoldable pub view : TurnRecord → TurnView
unfolding head_of
view r = record {
  thread_id = r.thread_id;
  turn_id = r.turn_id;
  mode = r.mode;
  state = r.state;
  instance_id = r.instance_id;
  workspace_id = r.workspace_id;
  head_commit = head_of r.result_json r.expected_head;
}

abbrev pub replay_error {ℓ} : {A : Type ℓ} → TurnRecord → Result A
replay_error r = elim r.error_json [
  | none ↦ err (throws ErrorCode.turn_closed "Turn failed without a stored error")
  | some e ↦ err (service_error e)
]

pub bind_open : TurnRecord → Option String → Result BoundTurn
bind_open r none = err (throws ErrorCode.turn_closed "Turn is not open")
bind_open r (some instance_id) =
    if kind_eq r.mode SandboxKind.durable && not (both r.workspace_id r.expected_head)
    then err (throws ErrorCode.backend_error "Durable turn binding is incomplete")
    else ok (record {
      thread_id = r.thread_id;
      turn_id = r.turn_id;
      mode = r.mode;
      instance_id = instance_id;
      workspace_id = r.workspace_id;
      expected_head = r.expected_head;
    })
  where
    both : Option String → Option String → Bool
    both (some w) (some h) = true
    both _ _ = false

unfoldable pub bound : TurnRecord → Result BoundTurn
unfolding bind_open
bound r =
    if turn_state_eq r.state TurnState.opened
    then bind_open r r.instance_id
    else err (throws ErrorCode.turn_closed "Turn is not open")

abbrev pub bound_found : Option TurnRecord → Result BoundTurn
bound_found none = err (throws ErrorCode.turn_closed "Turn does not exist")
bound_found (some r) = bound r

unfoldable pub resolve : String → String → Exec Turns BoundTurn
unfolding bound
resolve thread_id turn_id s = (bound_found (get_turn s.db thread_id turn_id), s)

-- `Map.get`, `Map.set` and `Map.delete` on `leaseCounts`.
abbrev pub count_of : TurnKey → List (TurnKey × ℕ) → Option ℕ
count_of k [] = none
count_of k ((j, n) ∷ m) = if key_eq j k then some n else count_of k m

abbrev pub set_count : TurnKey → ℕ → List (TurnKey × ℕ) → List (TurnKey × ℕ)
set_count k n [] = (k, n) ∷ []
set_count k n ((j, m) ∷ rest) = if key_eq j k then (j, n) ∷ rest else (j, m) ∷ set_count k n rest

abbrev pub delete_count : TurnKey → List (TurnKey × ℕ) → List (TurnKey × ℕ)
delete_count k = delete_where (λ e. key_eq e.0 k)

abbrev pub is_lease : String → Lease → Bool
is_lease id l = str_eq l.id id

-- `acquire`. `id` is the fresh identifier that `randomUUID()` returns.
unfoldable pub acquire : (id : String) → String → String → Exec Turns Lease
unfolding resolve
acquire id thread_id turn_id = do
  closing ← gets (λ s. s.closing)
  guard (not closing) (throws ErrorCode.turn_closed "Turn service is closing")
  validate_identifier "threadId is invalid" thread_id
  validate_identifier "turnId is invalid" turn_id
  turn ← resolve thread_id turn_id
  modify (λ s.
      let key : TurnKey = record { thread_id = thread_id; turn_id = turn_id } in
      record s {
        active_leases = record { id = id; turn = turn } ∷ s.active_leases;
        lease_counts = set_count key (get_or (count_of key s.lease_counts) 0 + 1) s.lease_counts;
      })
  pure (record { id = id; turn = turn })

-- How many leases of the turn a release leaves.
abbrev pub remaining : TurnKey → Turns → ℕ
remaining k s = get_or (count_of k s.lease_counts) 1 - 1

-- The last lease of a turn wakes the finish that waits for it. The result says whether it did.
pub drop_last : TurnKey → Turns → Bool × Turns
drop_last k s = (
  any (key_eq k) s.lease_waiters,
  record s {
    lease_counts = delete_count k s.lease_counts;
    lease_waiters = delete_where (key_eq k) s.lease_waiters;
  },
)

-- `release` of a lease that was acquired. `released` is the flag of the closure, which a first
-- call sets; a lease that is no longer active is dropped without a trace.
unfoldable pub release : (released : Bool) → Lease → Turns → Bool × Turns
unfolding drop_last
release released l s =
    if released || not (any (is_lease l.id) s.active_leases)
    then (false, s)
    else let key = turn_key l.turn in
      let rest = record s { active_leases = delete_where (is_lease l.id) s.active_leases } in
      if ltb 0 (remaining key s)
      then (false, record rest { lease_counts = set_count key (remaining key s) s.lease_counts })
      else drop_last key rest

abbrev pub resolve_lease : String → Turns → Option Lease
resolve_lease id s = select_first (is_lease id) s.active_leases

-- `waitForLeases` either is settled at once, or registers a waiter and stays pending.
unfoldable pub wait_for_leases : TurnKey → Turns → Bool × Turns
wait_for_leases k s =
    if get_or (count_of k s.lease_counts) 0 == 0
    then (true, s)
    else (false, record s { lease_waiters = k ∷ delete_where (key_eq k) s.lease_waiters })
