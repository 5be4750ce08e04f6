-- ===== src/Domain/Turns/Start.antt =====
-- src/domain/turn-service.ts: `start`, with `existingStart` and `startCreated`.
pub mod Admitting
pub mod Requests
pub mod Unprovisioned
use Prim.Native.String.{◌++◌}
use electrosphere.Base.{
  ℕ, String, Bool, true, false, not, Option, none, some, List, [], ◌∷◌, delete_where, get_or,
  is_some, if◌then◌else◌,
}
use electrosphere.Base.Exec.{
  Result, ok, err, Exec, pure, throw, gets, modify, guard, lift, catch, attempt, ◌>>=◌, ◌>>◌,
}
use electrosphere.Domain.Errors.{ErrorCode, Thrown, throws, to_service_error}
use electrosphere.Domain.Types.{
  Backend, SandboxKind, TurnMode, TurnState, TurnRecord, NetworkProfile, ResourceProfile, Request,
  request_eq, turn_state_name, default_resource_profile,
}
use electrosphere.Domain.World.{World}
use electrosphere.Domain.Sandbox.{
  Service, require, get_canonical_empty_commit, ensure_thread_workspace, create_turn_runtime,
  delete_turn_runtime,
}
use electrosphere.Domain.Turns.{
  Turns, TurnKey, TurnView, key_eq, on_db, validate_identifier, view, replay_error,
}
use electrosphere.Storage.Database.{Db}
use electrosphere.Storage.Repository.Turns.{
  TurnUpdate, no_update, get_turn, get_open_turn, create_turn, update_turn,
}

pub record StartInput : Type 0 where
  pub thread_id : String
  pub turn_id : String
  pub request : Request

-- What one start finds in its environment: the clock, the service, the awaited calls, and the two
-- identifiers that `randomUUID()` returns.
pub record StartEnv : Type 0 where
  pub now : ℕ
  pub service : Service
  pub world : World
  pub default_backend : Backend
  pub instance_id : String
  pub workspace_id : String

-- The answer to the same request again.
abbrev pub by_state : TurnRecord → TurnState → Result TurnView
by_state r TurnState.opened = ok (view r)
by_state r TurnState.finished = ok (view r)
by_state r TurnState.failed = replay_error r
by_state r s = err (throws ErrorCode.thread_busy ("Turn is " ++ turn_state_name s))

-- A turn that is already recorded: the same request is answered again, another is refused.
unfoldable pub existing_start : TurnRecord → Request → Result TurnView
existing_start r request =
    if not (request_eq r.request_json request)
    then err (throws ErrorCode.invalid_argument "Turn ID was already used with a different request")
    else by_state r r.state

abbrev pub new_turn : ℕ → StartInput → TurnRecord
new_turn now i = record {
  thread_id = i.thread_id;
  turn_id = i.turn_id;
  mode = i.request.mode;
  state = TurnState.starting;
  instance_id = none;
  workspace_id = none;
  expected_head = none;
  request_json = i.request;
  result_json = none;
  error_json = none;
  created_at = now;
  finished_at = none;
}

-- The record is created, or the start is answered without one.
pub data Admission : Type 0 where
  admitted : Admission
  settled : Result TurnView → Admission

abbrev pub thread_busy : TurnRecord → Thrown
thread_busy r = throws ErrorCode.thread_busy ("Thread already has active turn " ++ r.turn_id)

-- The answer from what is recorded, if there is one; `otherwise` if there is none.
pub recorded_or : Db → StartInput → Admission → Admission
unfolding existing_start
recorded_or db i otherwise = elim (get_turn db i.thread_id i.turn_id) [
  | some r ↦ settled (existing_start r i.request)
  | none ↦ elim (get_open_turn db i.thread_id) [
    | some r ↦ settled (err (thread_busy r))
    | none ↦ otherwise
  ]
]

pub insert_turn : ℕ → StartInput → Db → Admission × Db
unfolding recorded_or create_turn
insert_turn now i db = inserted (create_turn (new_turn now i) db).0
  where
    inserted : Result (Unit {0}) → Admission × Db
    inserted (ok _) = (admitted, (create_turn (new_turn now i) db).1)
    inserted (err e) = (recorded_or db i (settled (err e)), db)

-- The part of `start` that runs before the first await.
unfoldable pub admit : ℕ → StartInput → Db → Admission × Db
unfolding recorded_or insert_turn
admit now i db = go (recorded_or db i admitted)
  where
    go : Admission → Admission × Db
    go admitted = insert_turn now i db
    go (settled r) = (settled r, db)

-- The runtime of an instant turn.
start_instant : StartEnv → StartInput → Exec Db TurnUpdate
start_instant e i = do
  base ← get_canonical_empty_commit e.service
  created ← create_turn_runtime e.service e.world (record {
    instance_id = e.instance_id;
    kind = SandboxKind.instant;
    base_commit = base;
    workspace_id = none;
    backend = get_or i.request.backend Backend.firecracker;
    network = get_or i.request.network NetworkProfile.no_network;
    resource_profile = get_or i.request.resource_profile default_resource_profile;
  })
  pure (record no_update { state = some TurnState.opened; instance_id = some (some e.instance_id) })

-- The runtime of a durable turn, from the head of the thread's workspace.
start_durable : StartEnv → StartInput → Exec Db TurnUpdate
start_durable e i = do
  workspace ← ensure_thread_workspace e.service e.workspace_id i.thread_id
  created ← create_turn_runtime e.service e.world (record {
    instance_id = e.instance_id;
    kind = SandboxKind.durable;
    base_commit = workspace.head_commit;
    workspace_id = some workspace.workspace_id;
    backend = get_or i.request.backend e.default_backend;
    network = get_or i.request.network NetworkProfile.no_network;
    resource_profile = get_or i.request.resource_profile default_resource_profile;
  })
  pure (record no_update {
    state = some TurnState.opened;
    instance_id = some (some e.instance_id);
    workspace_id = some (some workspace.workspace_id);
    expected_head = some (some workspace.head_commit);
  })

unfoldable pub start_runtime : StartEnv → StartInput → TurnMode → Exec Db TurnUpdate
unfolding start_instant start_durable
start_runtime e i SandboxKind.instant = start_instant e i
start_runtime e i SandboxKind.durable = start_durable e i

pub open_turn : StartInput → TurnUpdate → Exec Db TurnView
open_turn i u = do
  update_turn i.thread_id i.turn_id u
  found ← gets (λ db. get_turn db i.thread_id i.turn_id)
  opened ← require found (throws ErrorCode.backend_error "Turn record disappeared during start")
  pure (view opened)

abbrev pub failed_start : StartEnv → Thrown → TurnUpdate
failed_start e t = record no_update {
  state = some TurnState.failed;
  instance_id = some (some e.instance_id);
  error_json = some (some (to_service_error t));
  finished_at = some (some e.now);
}

-- The `catch` of `startCreated`; `runtime_created` is its local flag.
pub fail_start : StartEnv → StartInput → (runtime_created : Bool) → Thrown → Exec Db TurnView
fail_start e i runtime_created t = do
  clean runtime_created
  update_turn i.thread_id i.turn_id (failed_start e t)
  throw t
  where
    clean : Bool → Exec Db (Unit {0})
    clean true = catch (delete_turn_runtime e.service e.world e.instance_id) (λ _. pure tt)
    clean false = pure tt

after_runtime : StartEnv → StartInput → Result TurnUpdate → Exec Db TurnView
unfolding open_turn fail_start
after_runtime e i (ok u) = catch (open_turn i u) (fail_start e i true)
after_runtime e i (err t) = fail_start e i false t

unfoldable pub start_created : StartEnv → StartInput → Exec Db TurnView
unfolding start_runtime after_runtime
start_created e i = do
  runtime ← attempt (start_runtime e i i.request.mode)
  after_runtime e i runtime

-- `start`, run until its promise settles. The promise stands in `startPromises` meanwhile.
unfoldable pub start : StartEnv → StartInput → Exec Turns TurnView
unfolding admit start_created
start e i = do
  closing ← gets (λ s. s.closing)
  guard (not closing) (throws ErrorCode.turn_closed "Turn service is closing")
  validate_identifier "threadId is invalid" i.thread_id
  validate_identifier "turnId is invalid" i.turn_id
  admission ← (λ s. (ok (admit e.now i s.db).0, record s { db = (admit e.now i s.db).1 }))
  answer admission
  where
    key : TurnKey
    key = record { thread_id = i.thread_id; turn_id = i.turn_id }

    answer : Admission → Exec Turns TurnView
    answer (settled r) = lift r
    answer admitted = do
      modify (λ s. record s { start_promises = key ∷ s.start_promises })
      settled_view ← attempt (on_db (start_created e i))
      modify (λ s. record s { start_promises = delete_where (key_eq key) s.start_promises })
      lift settled_view
