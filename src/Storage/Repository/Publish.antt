-- ===== src/Storage/Repository/Publish.antt =====
-- src/storage/repository.ts: `publishTurnCommit`, the transaction that ends a durable turn.
pub mod Swap
use electrosphere.Base.{
  ℕ, String, Bool, true, false, ◌&&◌, Option, none, some, List, [], ◌∷◌, any, update_where, str_eq,
  option_eq, if◌then◌else◌,
}
use electrosphere.Base.Exec.{
  Result, ok, err, Exec, pure, throw, gets, modify, guard, transaction, catch, ◌>>=◌, ◌>>◌,
}
use electrosphere.Domain.Errors.{ErrorCode, Thrown, plain_error, service_error, throws}
use electrosphere.Domain.Types.{InstanceState, TurnState, TurnRecord, StoredResult, turn_state_eq}
use electrosphere.Storage.Database.{
  Commit, Ref, TreeObject, Operation, OperationStatus, Db, is_turn, is_ref, is_instance, has_commit,
}
use electrosphere.Storage.Repository.{put_commit, put_tree_object, is_operation}
use electrosphere.Storage.Repository.Instances.{update_instance, to_state}

pub record PublishInput : Type 0 where
  pub operation_id : String
  pub thread_id : String
  pub turn_id : String
  pub instance_id : String
  pub workspace_id : String
  pub expected_head : String
  pub tree : TreeObject
  pub commit : Commit
  pub response : StoredResult

-- The ref that the compare-and-swap looks for.
abbrev pub is_expected : PublishInput → Ref → Bool
is_expected i r = is_ref i.workspace_id "main" r && str_eq r.head_commit i.expected_head

abbrev pub advance : PublishInput → Ref → Ref
advance i r = record r { head_commit = i.commit.id }

-- The turn that the transaction finishes.
abbrev pub is_finishing : PublishInput → TurnRecord → Bool
is_finishing i t =
    is_turn i.thread_id i.turn_id t
    && turn_state_eq t.state TurnState.finishing
    && option_eq t.instance_id (some i.instance_id)
    && option_eq t.workspace_id (some i.workspace_id)
    && option_eq t.expected_head (some i.expected_head)

abbrev pub finish_turn : ℕ → PublishInput → TurnRecord → TurnRecord
finish_turn now i t = record t {
  state = TurnState.finished;
  result_json = some i.response;
  error_json = none;
  finished_at = some now;
}

abbrev pub succeed : PublishInput → Operation → Operation
succeed i o = record o {
  status = OperationStatus.succeeded;
  response_json = some i.response;
  lease_expires_at = none;
}

abbrev ref_conflict : String
ref_conflict = "ref conflict"

swap_ref : PublishInput → Exec Db (Unit {0})
swap_ref i db =
    if any (is_expected i) db.refs
    then (ok tt, record db { refs = update_where (is_expected i) (advance i) db.refs })
    else (err (plain_error ref_conflict), db)

close_turn : ℕ → PublishInput → Exec Db (Unit {0})
close_turn now i db =
    if any (is_finishing i) db.turns
    then (ok tt, record db { turns = update_where (is_finishing i) (finish_turn now i) db.turns })
    else (err (throws ErrorCode.turn_closed "Turn is not finishing"), db)

publish_all : ℕ → PublishInput → Exec Db Bool
unfolding swap_ref close_turn put_commit put_tree_object update_instance
publish_all now i = do
  put_tree_object i.tree
  put_commit i.commit
  swap_ref i
  close_turn now i
  update_instance i.instance_id (to_state InstanceState.ready)
  modify (λ db. record db {
    operations = update_where (is_operation i.operation_id) (succeed i) db.operations;
  })
  pure true

-- A ref conflict is the result `false`, any other failure is thrown on.
abbrev conflict_is_false : Thrown → Exec Db Bool
conflict_is_false (plain_error m) =
    if str_eq m ref_conflict then pure false else throw (plain_error m)
conflict_is_false (service_error e) = throw (service_error e)

unfoldable pub publish_turn_commit : (now : ℕ) → PublishInput → Exec Db Bool
unfolding publish_all
publish_turn_commit now i = catch (transaction (publish_all now i)) conflict_is_false
