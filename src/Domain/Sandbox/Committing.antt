-- ===== src/Domain/Sandbox/Committing.antt =====
-- src/domain/sandbox-service.ts: `commitTurnRuntime`.
pub mod EndsTurn
use Prim.Native.String.{◌++◌}
use electrosphere.Base.{
  ℕ, String, Bool, true, false, not, ◌&&◌, ◌||◌, Option, none, some, List, [], ◌∷◌, is_some, str_eq,
  option_eq, if◌then◌else◌,
}
use electrosphere.Base.Exec.{
  Result, ok, err, Exec, Await, pure, throw, gets, modify, guard, await, catch, ◌>>=◌, ◌>>◌,
}
use electrosphere.Domain.Errors.{ErrorCode, Details, Thrown, service_error, throws}
use electrosphere.Domain.Types.{
  Backend, SandboxKind, InstanceState, BackendHandle, StoredResult, empty_contract_digest, kind_eq,
  instance_state_eq, instance_state_name,
}
use electrosphere.Domain.World.{SnapshotResult, CfsObject, World}
use electrosphere.Domain.Sandbox.{Service, require, commit_digest, set_instance_state}
use electrosphere.Storage.Database.{InstanceRecord, Ref, Db}
use electrosphere.Storage.Repository.{get_ref, begin_harness_operation, fail_operation}
use electrosphere.Storage.Repository.Instances.{get_instance, update_instance}
use electrosphere.Storage.Repository.Publish.{PublishInput, publish_turn_commit}

pub record CommitInput : Type 0 where
  pub thread_id : String
  pub turn_id : String
  pub instance_id : String
  pub workspace_id : String
  pub expected_head : String
  pub operation_id : String

pub record TurnCommitResult : Type 0 where
  pub commit_id : String
  pub tree_digest : String
  pub workspace_id : String
  pub head_commit : String

abbrev is_bound : CommitInput → InstanceRecord → Bool
is_bound i r =
    kind_eq r.kind SandboxKind.durable
    && option_eq r.workspace_id (some i.workspace_id)
    && str_eq r.base_commit i.expected_head

-- The checks, the operation record and the state COMMITTING; they run without an await.
begin_commit : (now : ℕ) → CommitInput → Exec Db (Backend × BackendHandle)
begin_commit now i = do
  found ← gets (λ db. get_instance db i.instance_id)
  r ← require found (throws ErrorCode.not_found "Turn runtime not found")
  handle ← require r.backend_handle (throws ErrorCode.not_found "Turn runtime not found")
  guard (is_bound i r)
      (throws ErrorCode.invalid_argument "Turn runtime binding does not match commit request")
  guard (not (instance_state_eq r.state InstanceState.running))
      (throws ErrorCode.instance_busy "Turn runtime has running sessions")
  guard (instance_state_eq r.state InstanceState.ready)
      (throws ErrorCode.instance_busy ("Turn runtime is " ++ instance_state_name r.state))
  head ← gets (λ db. get_ref db i.workspace_id "main")
  guard (is_some head) (throws ErrorCode.not_found "Thread workspace ref not found")
  begin_harness_operation now i.operation_id "commit_turn_runtime" i.operation_id
  set_instance_state i.instance_id InstanceState.committing
  pure (r.backend, handle)

store_tree : World → SnapshotResult → Option String → Exec Db CfsObject
store_tree w s none = await (w.export s.workspace_path)
store_tree w s (some path) = await (w.ingest path s.tree_digest)

-- The runtime's files as a stored tree, while other tasks run.
capture : World → Backend → BackendHandle → Exec Db CfsObject
unfolding store_tree
capture w b h = do snapshot ← await (w.snapshot b h); store_tree w snapshot snapshot.cfs_path

abbrev pub new_commit : Service → CommitInput → CfsObject → String
new_commit s i tree =
    commit_digest s.sha256_hex empty_contract_digest tree.tree_digest (some i.expected_head)

abbrev pub publication : Service → CommitInput → CfsObject → PublishInput
publication s i tree = record {
  operation_id = i.operation_id;
  thread_id = i.thread_id;
  turn_id = i.turn_id;
  instance_id = i.instance_id;
  workspace_id = i.workspace_id;
  expected_head = i.expected_head;
  tree = record { digest = tree.tree_digest; path = tree.path; size_bytes = tree.size_bytes };
  commit = record {
    id = new_commit s i tree;
    tree_digest = tree.tree_digest;
    contract_digest = empty_contract_digest;
    parent_id = some i.expected_head;
  };
  response = record {
    mode = some SandboxKind.durable;
    instance_id = some i.instance_id;
    workspace_id = some i.workspace_id;
    head_commit = some (new_commit s i tree);
    commit_id = some (new_commit s i tree);
    tree_digest = some tree.tree_digest;
    cleanup_error = none;
  };
}

abbrev current_head : Option Ref → Option String
current_head none = none
current_head (some r) = some r.head_commit

abbrev head_conflict : String → Option String → Thrown
head_conflict captured current = service_error (record {
  code = ErrorCode.head_conflict;
  message = "Thread workspace ref changed";
  details = some (Details.ref_changed captured current);
})

pub publish : (now : ℕ) → Service → CommitInput → CfsObject → Exec Db TurnCommitResult
publish now s i tree = do
  updated ← publish_turn_commit now (publication s i tree)
  latest ← gets (λ db. get_ref db i.workspace_id "main")
  guard updated (head_conflict (new_commit s i tree) (current_head latest))
  pure (record {
    commit_id = new_commit s i tree;
    tree_digest = tree.tree_digest;
    workspace_id = i.workspace_id;
    head_commit = new_commit s i tree;
  })

abbrev is_committing : Option InstanceRecord → Bool
is_committing none = false
is_committing (some r) = instance_state_eq r.state InstanceState.committing

-- The operation fails, and an instance still COMMITTING is READY again.
pub abort_commit : CommitInput → Thrown → Exec Db TurnCommitResult
abort_commit i e = do
  fail_operation i.operation_id e
  latest ← gets (λ db. get_instance db i.instance_id)
  if is_committing latest then set_instance_state i.instance_id InstanceState.ready else pure tt
  throw e

unfoldable pub commit_turn_runtime :
    (now : ℕ) → Service → World → CommitInput → Exec Db TurnCommitResult
unfolding begin_commit capture publish abort_commit
commit_turn_runtime now s w i = do
  (b, handle) ← begin_commit now i
  catch (do tree ← capture w b handle; publish now s i tree) (abort_commit i)
