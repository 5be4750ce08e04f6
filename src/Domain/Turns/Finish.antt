-- ===== src/Domain/Turns/Finish.antt =====
-- src/domain/turn-service.ts: `finish`, with `finishOpen` and `failTurn`.
pub mod Settles
pub mod Total
use Prim.Native.String.{◌++◌}
use electrosphere.Base.{
  ℕ, String, Bool, true, false, not, Option, none, some, List, [], ◌∷◌, any, delete_where, get_or,
  if◌then◌else◌,
}
use electrosphere.Base.Exec.{
  Result, ok, err, Exec, Await, pure, throw, gets, modify, guard, lift, await, catch, attempt,
  ◌>>=◌, ◌>>◌,
}
use electrosphere.Domain.Errors.{ErrorCode, Thrown, throws, to_service_error}
use electrosphere.Domain.Types.{
  SandboxKind, InstanceState, TurnMode, TurnState, TurnRecord, StoredResult, empty_result,
  turn_state_name,
}
use electrosphere.Domain.World.{World, error_message}
use electrosphere.Domain.Sandbox.{Service, require, delete_turn_runtime}
use electrosphere.Domain.Sandbox.Committing.{CommitInput, TurnCommitResult, commit_turn_runtime}
use electrosphere.Domain.Turns.{
  Turns, TurnKey, TurnView, key_eq, on_db, validate_identifier, view, replay_error,
}
use electrosphere.Storage.Database.{Db}
use electrosphere.Storage.Repository.Turns.{TurnUpdate, no_update, get_turn, update_turn}
use electrosphere.Storage.Repository.Instances.{update_instance}

-- What one finish finds in its environment. `drained` is what the other tasks did until the last
-- lease of the turn was released; `close_instance` is `SessionManager.closeInstance`;
-- `request_id` is `harnessRequestId('finish', threadId, turnId)`.
pub record FinishEnv : Type 0 where
  pub now : ℕ
  pub service : Service
  pub world : World
  pub drained : Turns → Turns
  pub close_instance : String → Await Db (Unit {0})
  pub request_id : String → String → String

abbrev pub mark_lost : String → Thrown → Exec Db (Unit {0})
mark_lost id t = update_instance id (record {
  state = some InstanceState.lost;
  backend_handle = none;
  last_error = some (some (error_message t));
})

abbrev failed_turn : FinishEnv → Thrown → TurnUpdate
failed_turn e t = record no_update {
  state = some TurnState.failed;
  error_json = some (some (to_service_error t));
  finished_at = some (some e.now);
}

abbrev record_failure : FinishEnv → TurnRecord → Thrown → Exec Db (Unit {0})
record_failure e r t = update_turn r.thread_id r.turn_id (failed_turn e t)

-- The runtime of a failed turn is destroyed, or marked LOST.
clean_runtime : FinishEnv → Option String → Exec Db (Unit {0})
clean_runtime e none = pure tt
clean_runtime e (some id) = catch (delete_turn_runtime e.service e.world id) (mark_lost id)

pub fail_turn : FinishEnv → TurnRecord → Thrown → Exec Db TurnView
unfolding clean_runtime
fail_turn e r t = do clean_runtime e r.instance_id; record_failure e r t; throw t

-- The runtime of an instant turn that cannot be destroyed fails the turn.
discard_failed : FinishEnv → TurnRecord → String → Thrown → Exec Db (Unit {0})
discard_failed e r id t = do mark_lost id t; record_failure e r t; throw t

abbrev finished_instant : FinishEnv → String → TurnUpdate
finished_instant e id = record no_update {
  state = some TurnState.finished;
  result_json =
      some (some (record empty_result { mode = some SandboxKind.instant; instance_id = some id }));
  error_json = some none;
  finished_at = some (some e.now);
}

-- The end of an instant turn.
pub finish_instant : FinishEnv → TurnRecord → String → Exec Db TurnView
unfolding discard_failed
finish_instant e r id = do
  catch (delete_turn_runtime e.service e.world id) (discard_failed e r id)
  update_turn r.thread_id r.turn_id (finished_instant e id)
  pure (record {
    thread_id = r.thread_id;
    turn_id = r.turn_id;
    mode = SandboxKind.instant;
    state = TurnState.finished;
    instance_id = some id;
    workspace_id = none;
    head_commit = none;
  })

abbrev stored_result : Option TurnRecord → StoredResult
stored_result none = empty_result
stored_result (some r) = get_or r.result_json empty_result

abbrev noted : Thrown → Option TurnRecord → TurnUpdate
noted t stored = record no_update {
  result_json =
      some (some (record (stored_result stored) { cleanup_error = some (error_message t) }));
}

-- A committed turn whose runtime could not be destroyed stays finished; the failure is noted.
note_cleanup : TurnRecord → String → Thrown → Exec Db (Unit {0})
note_cleanup r id t = do
  mark_lost id t
  stored ← gets (λ db. get_turn db r.thread_id r.turn_id)
  update_turn r.thread_id r.turn_id (noted t stored)

conclude : TurnCommitResult → Option TurnRecord → Exec Db TurnView
conclude committed none =
    throw (throws ErrorCode.backend_error "Turn record disappeared after commit")
conclude committed (some finished) =
    let finished_view = view finished in
    pure (record finished_view { head_commit = some committed.head_commit })

after_commit : FinishEnv → TurnRecord → String → TurnCommitResult → Exec Db TurnView
unfolding note_cleanup conclude
after_commit e r id committed = do
  catch (delete_turn_runtime e.service e.world id) (note_cleanup r id)
  stored ← gets (λ db. get_turn db r.thread_id r.turn_id)
  conclude committed stored

committed_or_failed : FinishEnv → TurnRecord → String → Result TurnCommitResult → Exec Db TurnView
unfolding after_commit fail_turn
committed_or_failed e r id (ok committed) = after_commit e r id committed
committed_or_failed e r id (err t) = fail_turn e r t

abbrev incomplete_binding : Thrown
incomplete_binding = throws ErrorCode.backend_error "Durable turn binding is incomplete"

abbrev no_runtime : Thrown
no_runtime = throws ErrorCode.backend_error "Open turn has no runtime"

abbrev commit_input : FinishEnv → TurnRecord → String → String → String → CommitInput
commit_input e r id workspace_id expected_head = record {
  thread_id = r.thread_id;
  turn_id = r.turn_id;
  instance_id = id;
  workspace_id = workspace_id;
  expected_head = expected_head;
  operation_id = e.request_id r.thread_id r.turn_id;
}

-- The end of a durable turn.
pub finish_durable :
    FinishEnv → TurnRecord → String → Option String → Option String → Exec Db TurnView
unfolding committed_or_failed
finish_durable e r id (some workspace_id) (some expected_head) = do
  committed ←
      attempt (
        commit_turn_runtime e.now e.service e.world
          (commit_input e r id workspace_id expected_head))
  committed_or_failed e r id committed
finish_durable e r id _ _ = fail_turn e r incomplete_binding

by_mode : FinishEnv → TurnRecord → String → TurnMode → Exec Db TurnView
unfolding finish_instant finish_durable
by_mode e r id SandboxKind.instant = finish_instant e r id
by_mode e r id SandboxKind.durable = finish_durable e r id r.workspace_id r.expected_head

after_sessions : FinishEnv → TurnRecord → String → Result (Unit {0}) → Exec Db TurnView
unfolding by_mode fail_turn
after_sessions e r id (ok _) = by_mode e r id r.mode
after_sessions e r id (err t) = fail_turn e r t

with_runtime : FinishEnv → TurnRecord → Option String → Exec Db TurnView
unfolding after_sessions
with_runtime e r none = fail_turn e r no_runtime
with_runtime e r (some id) = do
  closed ← attempt (await (e.close_instance id))
  after_sessions e r id closed

-- `finishOpen`: wait for the leases, close the sessions, then end the turn by its mode.
unfoldable pub finish_open : FinishEnv → TurnRecord → Exec Turns TurnView
unfolding with_runtime
finish_open e r = do modify e.drained; on_db (with_runtime e r r.instance_id)

refused : TurnRecord → Result TurnView
refused r = by_state r.state
  where
    by_state : TurnState → Result TurnView
    by_state TurnState.finished = ok (view r)
    by_state TurnState.failed = replay_error r
    by_state s = err (throws ErrorCode.thread_busy ("Turn is " ++ turn_state_name s))

abbrev to_finishing : TurnUpdate
to_finishing = record no_update { state = some TurnState.finishing }

-- An open turn becomes FINISHING at once, so that no second finish starts.
begin_finish : FinishEnv → TurnRecord → Exec Turns TurnView
unfolding finish_open
begin_finish e r = do
  pending ← gets (λ s. any (key_eq key) s.finish_promises)
  guard (not pending) (throws ErrorCode.thread_busy "Turn is already finishing")
  on_db (update_turn r.thread_id r.turn_id to_finishing)
  modify (λ s. record s { finish_promises = key ∷ s.finish_promises })
  finished ← attempt (finish_open e (record r { state = TurnState.finishing }))
  modify (λ s. record s { finish_promises = delete_where (key_eq key) s.finish_promises })
  lift finished
  where
    key : TurnKey
    key = record { thread_id = r.thread_id; turn_id = r.turn_id }

dispatch : FinishEnv → TurnRecord → TurnState → Exec Turns TurnView
unfolding begin_finish refused
dispatch e r TurnState.opened = begin_finish e r
dispatch e r _ = lift (refused r)

finish_found : FinishEnv → Option TurnRecord → Exec Turns TurnView
unfolding dispatch
finish_found e none = throw (throws ErrorCode.turn_closed "Turn does not exist")
finish_found e (some r) = dispatch e r r.state

unfoldable pub finish : FinishEnv → String → String → Exec Turns TurnView
unfolding finish_found
finish e thread_id turn_id = do
  validate_identifier "threadId is invalid" thread_id
  validate_identifier "turnId is invalid" turn_id
  found ← gets (λ s. get_turn s.db thread_id turn_id)
  finish_found e found
