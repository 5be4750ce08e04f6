-- ===== src/Domain/Recovery.antt =====
-- src/domain/recovery.ts: `recover`, with `cleanupFinishedTurnRuntimes`. The garbage collection is in
-- a child module.
pub mod Ends
pub mod Gc
use electrosphere.Base.{
  ℕ, String, Bool, true, false, not, ◌||◌, Option, none, some, List, [], ◌∷◌, is_some,
  if◌then◌else◌,
}
use electrosphere.Base.Exec.{
  Result, ok, err, Exec, Await, pure, gets, await, catch, attempt, ◌>>=◌, ◌>>◌,
}
use electrosphere.Domain.Errors.{ErrorCode, Thrown}
use electrosphere.Domain.Types.{
  Backend, BackendHandle, SandboxKind, InstanceState, TurnState, TurnRecord, is_active, is_live,
  instance_state_eq, kind_eq, turn_state_eq,
}
use electrosphere.Domain.World.{error_message}
use electrosphere.Storage.Database.{Db, InstanceRecord}
use electrosphere.Storage.Repository.{delete_running_operations}
use electrosphere.Storage.Repository.Instances.{
  InstanceUpdate, get_instance, list_instances, update_instance,
}
use electrosphere.Storage.Repository.Turns.{TurnUpdate, no_update, list_turns, update_turn}

-- What a recovery awaits: the removal of the staging directory's entries, and the backends.
pub record RecoveryWorld : Type 0 where
  pub clear_staging : Await Db (Unit {0})
  pub destroy : Backend → BackendHandle → Await Db (Unit {0})

-- The destruction of a runtime, and what it leaves on record.
retry_destroy : RecoveryWorld → InstanceRecord → BackendHandle → Exec Db (Unit {0})
retry_destroy w i handle =
    catch
      (do
        await (w.destroy i.backend handle)
        update_instance i.id (record {
          state = some InstanceState.terminated;
          backend_handle = some none;
          last_error = some none;
        }))
      (λ e. update_instance i.id (record {
        state = some InstanceState.lost;
        backend_handle = none;
        last_error = some (some (error_message e));
      }))

cleanup_handle : RecoveryWorld → InstanceRecord → Option BackendHandle → Exec Db (Unit {0})
unfolding retry_destroy
cleanup_handle w i none = pure tt
cleanup_handle w i (some handle) =
    if instance_state_eq i.state InstanceState.terminated then pure tt else retry_destroy w i handle

cleanup_instance : RecoveryWorld → Option InstanceRecord → Exec Db (Unit {0})
unfolding cleanup_handle
cleanup_instance w none = pure tt
cleanup_instance w (some i) = cleanup_handle w i i.backend_handle

cleanup_runtime : RecoveryWorld → TurnRecord → Option String → Exec Db (Unit {0})
unfolding cleanup_instance
cleanup_runtime w t none db = (ok tt, db)
cleanup_runtime w t (some id) db =
    if kind_eq t.mode SandboxKind.durable
    then cleanup_instance w (get_instance db id) db
    else (ok tt, db)

cleanup_turns : RecoveryWorld → List TurnRecord → Exec Db (Unit {0})
unfolding cleanup_runtime
cleanup_turns w [] = pure tt
cleanup_turns w (t ∷ ts) = do cleanup_runtime w t t.instance_id; cleanup_turns w ts

-- `cleanupFinishedTurnRuntimes`.
unfoldable pub cleanup_finished : RecoveryWorld → Exec Db (Unit {0})
unfolding cleanup_turns
cleanup_finished w = do
  finished ← gets (λ db. list_turns db (λ s. turn_state_eq s TurnState.finished))
  cleanup_turns w finished

-- Whether the handle is gone.
destroyed : RecoveryWorld → InstanceRecord → Option BackendHandle → Exec Db Bool
destroyed w i none = pure false
destroyed w i (some handle) =
    catch (do await (w.destroy i.backend handle); pure true) (λ _. pure false)

abbrev lost : (gone : Bool) → InstanceUpdate
lost gone = record {
  state = some InstanceState.lost;
  backend_handle = if gone then some none else none;
  last_error = some (some "Daemon restarted during active instance state");
}

lose_instance : InstanceRecord → Bool → Exec Db (Unit {0})
lose_instance i gone = update_instance i.id (lost gone)

lose_instances : RecoveryWorld → List InstanceRecord → Exec Db (Unit {0})
unfolding destroyed lose_instance
lose_instances w [] = pure tt
lose_instances w (i ∷ is) = do
  gone ← destroyed w i i.backend_handle
  lose_instance i gone
  lose_instances w is

abbrev restarted : ℕ → TurnUpdate
restarted now = record no_update {
  state = some TurnState.failed;
  error_json = some (
      some (record {
        code = ErrorCode.turn_closed;
        message = "Daemon restarted during active turn";
        details = none;
      }));
  finished_at = some (some now);
}

fail_turns : ℕ → List TurnRecord → Exec Db (Unit {0})
fail_turns now [] = pure tt
fail_turns now (t ∷ ts) = do update_turn t.thread_id t.turn_id (restarted now); fail_turns now ts

-- `recover`.
unfoldable pub recover : (now : ℕ) → RecoveryWorld → Exec Db (Unit {0})
unfolding lose_instances fail_turns
recover now w = do
  delete_running_operations
  await w.clear_staging
  cleanup_finished w
  interrupted ← gets (λ db. list_instances db is_live)
  lose_instances w interrupted
  active ← gets (λ db. list_turns db is_active)
  fail_turns now active
