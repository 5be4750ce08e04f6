-- ===== src/Domain/Turns/Fork.antt =====
-- src/domain/turn-service.ts: `fork`.
use Prim.Native.String.{◌++◌}
use electrosphere.Base.{String, Bool, true, not, Option, none, some, get_or, is_some, str_eq}
use electrosphere.Base.Exec.{Exec, pure, throw, gets, guard, ◌>>=◌, ◌>>◌}
use electrosphere.Domain.Errors.{ErrorCode, throws}
use electrosphere.Domain.Types.{TurnRecord}
use electrosphere.Domain.Sandbox.{require}
use electrosphere.Domain.Turns.{Turns, on_db, validate_identifier}
use electrosphere.Storage.Database.{Db}
use electrosphere.Storage.Repository.{get_ref, get_thread_workspace, create_thread_fork}
use electrosphere.Storage.Repository.Turns.{get_open_turn}
use electrosphere.Storage.Repository.History.{commit_belongs_to_history}

pub record ForkResult : Type 0 where
  pub thread_id : String
  pub workspace_id : String
  pub head_commit : String

in_history : Db → String → Option String → Bool
in_history db head none = true
in_history db head (some commit_id) = commit_belongs_to_history db head commit_id

no_turn : Option TurnRecord → Exec Db (Unit {0})
no_turn none = pure tt
no_turn (some r) =
    throw (throws ErrorCode.thread_busy ("Source thread has active turn " ++ r.turn_id))

-- The part of `fork` behind the identifier checks. `workspace_id` is fresh.
fork_thread : (workspace_id : String) → String → String → Option String → Exec Db ForkResult
unfolding in_history no_turn
fork_thread workspace_id source_id destination_id commit_id = do
  guard (not (str_eq source_id destination_id))
      (throws ErrorCode.invalid_argument "Destination thread must differ from source thread")
  active ← gets (λ db. get_open_turn db source_id)
  no_turn active
  found ← gets (λ db. get_thread_workspace db source_id)
  source ← require found (throws ErrorCode.not_found "Source durable thread does not exist")
  destination ← gets (λ db. get_thread_workspace db destination_id)
  guard (not (is_some destination))
      (throws ErrorCode.invalid_argument "Destination thread already exists")
  ref ← gets (λ db. get_ref db source.workspace_id "main")
  current ← require ref (throws ErrorCode.not_found "Source thread main ref not found")
  belongs ← gets (λ db. in_history db current.head_commit commit_id)
  guard belongs
      (throws ErrorCode.invalid_argument "Commit does not belong to source thread history")
  create_thread_fork source.workspace_id destination_id workspace_id
      (get_or commit_id current.head_commit)
  pure (record {
    thread_id = destination_id;
    workspace_id = workspace_id;
    head_commit = get_or commit_id current.head_commit;
  })

unfoldable pub fork :
    (workspace_id : String) → String → String → Option String → Exec Turns ForkResult
unfolding fork_thread
fork workspace_id source_id destination_id commit_id = do
  closing ← gets (λ s. s.closing)
  guard (not closing) (throws ErrorCode.turn_closed "Turn service is closing")
  validate_identifier "sourceThreadId is invalid" source_id
  validate_identifier "destinationThreadId is invalid" destination_id
  on_db (fork_thread workspace_id source_id destination_id commit_id)
