-- ===== src/Domain/Sandbox.antt =====
-- src/domain/sandbox-service.ts: the runtimes of turns and the commit of a durable turn.
pub mod Committing
pub mod KeepsTurns
use Prim.Native.String.{◌++◌}
use electrosphere.Base.{
  ℕ, String, Bool, true, false, not, ◌&&◌, ◌||◌, Option, none, some, List, [], ◌∷◌, any,
  select_first, get_or, is_some, str_eq, option_eq, if◌then◌else◌,
}
use electrosphere.Base.Exec.{
  Result, ok, err, Exec, Await, pure, throw, gets, modify, guard, await, catch, lift, ◌>>=◌, ◌>>◌,
}
use electrosphere.Domain.Errors.{
  ErrorCode, Details, ServiceError, Thrown, service_error, plain_error, throws,
}
use electrosphere.Domain.Types.{
  Backend, SandboxKind, InstanceState, NetworkProfile, ResourceProfile, BackendHandle, StoredResult,
  empty_contract_digest, is_live, instance_state_eq, instance_state_name, kind_eq,
}
use electrosphere.Domain.World.{
  HostProbe, CreateInstanceInput, SnapshotResult, CfsObject, World, error_message,
}
use electrosphere.Storage.Database.{Ref, TreeObject, InstanceRecord, ThreadWorkspace, Db}
use electrosphere.Storage.Repository.{
  put_commit, put_tree_object, get_commit, get_tree_object, load_workspace_refs, get_ref,
  get_thread_workspace, create_thread_workspace, begin_harness_operation, fail_operation,
}
use electrosphere.Storage.Repository.Instances.{
  create_instance, update_instance, get_instance, list_instances, to_state,
}
use electrosphere.Storage.Repository.Publish.{PublishInput, publish_turn_commit}

-- The fields of the service: where instances live, and the canonical empty commit once
-- `initialize` has set it. `sha256_hex` is the hash of node:crypto, printed in hexadecimal.
pub record Service : Type 0 where
  pub instance_root : String
  pub empty_commit : Option String
  pub sha256_hex : String → String

abbrev pub require : {A : Type 0} → Option A → Thrown → Exec Db A
require none e = throw e
require (some a) e = pure a

-- `commitDigest` of src/storage/cfs.ts. `separator` is the character U+0000.
abbrev pub commit_digest : (String → String) → String → String → Option String → String
commit_digest sha256_hex contract tree parent =
    "sha256:"
    ++ sha256_hex (
        "electrosphere-commit\0v1\0"
        ++ (contract ++ ("\0" ++ (tree ++ ("\0" ++ get_or parent "")))))

-- `initialize`, from the export of the empty directory on.
unfoldable pub initialize : Service → Await Db CfsObject → Exec Db Service
initialize s exported = do
  tree ← await exported
  let id = commit_digest s.sha256_hex empty_contract_digest tree.tree_digest none
  put_tree_object
      (record { digest = tree.tree_digest; path = tree.path; size_bytes = tree.size_bytes })
  put_commit (record {
    id = id;
    tree_digest = tree.tree_digest;
    contract_digest = empty_contract_digest;
    parent_id = none;
  })
  pure (record s { empty_commit = some id })

abbrev pub get_canonical_empty_commit : Service → Exec Db String
get_canonical_empty_commit s =
    require s.empty_commit (plain_error "SandboxService is not initialized")

pub record WorkspaceView : Type 0 where
  pub workspace_id : String
  pub head_commit : String

abbrev is_main : Ref → Bool
is_main r = str_eq r.name "main"

unfoldable pub workspace_view : String → Exec Db WorkspaceView
workspace_view id = do
  found ← gets (λ db. load_workspace_refs db id)
  refs ← require found (throws ErrorCode.not_found "Thread workspace not found")
  main ←
      require (select_first is_main refs)
        (throws ErrorCode.not_found "Thread workspace main ref not found")
  pure (record { workspace_id = id; head_commit = main.head_commit })

view_or {ℓ} : {A : Type ℓ} → Option ThreadWorkspace → (String → A) → A → A
view_or none f a = a
view_or (some t) f a = f t.workspace_id

-- `workspace_id` is the fresh identifier that `crypto.randomUUID()` returns.
unfoldable pub ensure_thread_workspace :
    Service → (workspace_id : String) → String → Exec Db WorkspaceView
unfolding view_or workspace_view
ensure_thread_workspace s workspace_id thread_id db =
    view_or (get_thread_workspace db thread_id) workspace_view create db
  where
    again : Thrown → Exec Db WorkspaceView
    again e db' = view_or (get_thread_workspace db' thread_id) workspace_view (throw e) db'

    create : Exec Db WorkspaceView
    create = do
      head_commit ← get_canonical_empty_commit s
      catch
          (do
            create_thread_workspace thread_id workspace_id head_commit
            pure (record { workspace_id = workspace_id; head_commit = head_commit }))
          again

pub record RuntimeInput : Type 0 where
  pub instance_id : String
  pub kind : SandboxKind
  pub base_commit : String
  pub workspace_id : Option String
  pub backend : Backend
  pub network : NetworkProfile
  pub resource_profile : ResourceProfile

abbrev backend_unavailable_message : Backend → String
backend_unavailable_message Backend.docker = "docker backend unavailable"
backend_unavailable_message Backend.firecracker = "firecracker backend unavailable"

-- `join(this.instanceRoot, instanceId)`.
abbrev pub instance_directory : Service → String → String
instance_directory s id = s.instance_root ++ ("/" ++ id)

abbrev pub workspace_path : Service → String → String
workspace_path s id = instance_directory s id ++ "/workspace"

abbrev pub provisioned : Service → RuntimeInput → InstanceRecord
provisioned s i = record {
  id = i.instance_id;
  kind = i.kind;
  backend = i.backend;
  state = InstanceState.provisioning;
  workspace_id = i.workspace_id;
  base_commit = i.base_commit;
  backend_handle = none;
  workspace_path = workspace_path s i.instance_id;
  resource_profile = i.resource_profile;
  network = i.network;
  last_error = none;
}

-- The checks, the preflight and the files, before there is an instance record.
prepare : Service → World → RuntimeInput → Exec Db (Unit {0})
prepare s w i = do
  found ← gets (λ db. get_commit db i.base_commit)
  commit ← require found (throws ErrorCode.not_found "Commit not found")
  object ← gets (λ db. get_tree_object db commit.tree_digest)
  tree ← require object (throws ErrorCode.not_found "Commit tree object not found")
  guard (not (kind_eq i.kind SandboxKind.durable && not (is_some i.workspace_id)))
      (throws ErrorCode.invalid_argument "Durable runtime requires a workspace")
  guard (not (kind_eq i.kind SandboxKind.instant && is_some i.workspace_id))
      (throws ErrorCode.invalid_argument "Instant runtime cannot use a workspace")
  probe ← await (w.preflight i.backend)
  guard probe.available (
      throws ErrorCode.backend_unavailable
        (get_or probe.reason (backend_unavailable_message i.backend)))
  await (w.materialize tree.path (workspace_path s i.instance_id))

-- The backend's part, with the record set to READY or to FAILED.
provision : Service → World → RuntimeInput → Exec Db (Unit {0})
provision s w i =
    catch
      (do
        handle ← await (
            w.create i.backend (record {
              instance_id = i.instance_id;
              workspace_path = workspace_path s i.instance_id;
              resource_profile = i.resource_profile;
              network = i.network;
            }))
        update_instance i.instance_id (record {
          state = some InstanceState.ready;
          backend_handle = some (some handle);
          last_error = none;
        }))
      (λ e. do
        update_instance i.instance_id (record {
          state = some InstanceState.failed;
          backend_handle = none;
          last_error = some (some (error_message e));
        })
        await (w.remove (instance_directory s i.instance_id))
        throw e)

-- `createTurnRuntime`; the view that it returns is the instance's record.
unfoldable pub create_turn_runtime : Service → World → RuntimeInput → Exec Db InstanceRecord
unfolding prepare provision
create_turn_runtime s w i = do
  prepare s w i
  create_instance (provisioned s i)
  provision s w i
  created ← gets (λ db. get_instance db i.instance_id)
  require created (throws ErrorCode.backend_error "Runtime record disappeared after creation")

abbrev is_usable : InstanceState → Bool
is_usable InstanceState.ready = true
is_usable InstanceState.running = true
is_usable _ = false

unfoldable pub get_turn_handle : String → Exec Db (InstanceRecord × BackendHandle)
get_turn_handle id = do
  found ← gets (λ db. get_instance db id)
  instance_record ← require found (throws ErrorCode.not_found "Turn runtime is unavailable")
  handle ←
      require instance_record.backend_handle
        (throws ErrorCode.not_found "Turn runtime is unavailable")
  guard (is_usable instance_record.state) (
      throws ErrorCode.instance_busy
        ("Turn runtime is " ++ instance_state_name instance_record.state))
  pure (instance_record, handle)

abbrev pub set_instance_state : String → InstanceState → Exec Db (Unit {0})
set_instance_state id state = update_instance id (to_state state)

destroy_handle : World → Backend → Option BackendHandle → Exec Db (Unit {0})
destroy_handle w b none = pure tt
destroy_handle w b (some h) = await (w.destroy b h)

delete_live : Service → World → String → InstanceRecord → Exec Db (Unit {0})
unfolding destroy_handle
delete_live s w id r = do
  set_instance_state id InstanceState.terminating
  destroy_handle w r.backend r.backend_handle
  await (w.remove (instance_directory s id))
  update_instance id (record {
    state = some InstanceState.terminated;
    backend_handle = some none;
    last_error = none;
  })

delete_found : Service → World → String → Option InstanceRecord → Exec Db (Unit {0})
unfolding delete_live
delete_found s w id none = pure tt
delete_found s w id (some r) =
    if instance_state_eq r.state InstanceState.terminated then pure tt else delete_live s w id r

-- The runtime is destroyed once: a second call finds it TERMINATED.
unfoldable pub delete_turn_runtime : Service → World → String → Exec Db (Unit {0})
unfolding delete_found
delete_turn_runtime s w id db = delete_found s w id (get_instance db id) db

close_instances : World → List InstanceRecord → Exec Db (Unit {0})
unfolding destroy_handle
close_instances w [] = pure tt
close_instances w (i ∷ is) = do
  catch (destroy_handle w i.backend i.backend_handle) (λ _. pure tt)
  update_instance i.id (record {
    state = some InstanceState.terminated;
    backend_handle = some none;
    last_error = none;
  })
  close_instances w is

-- `close`: every live instance is destroyed, whatever the backend answers.
unfoldable pub close : World → Exec Db (Unit {0})
unfolding close_instances
close w = do live ← gets (λ db. list_instances db is_live); close_instances w live
