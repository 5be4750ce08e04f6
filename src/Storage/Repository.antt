-- ===== src/Storage/Repository.antt =====
-- src/storage/repository.ts: the statements on workspaces, refs, commits, tree objects and
-- operations. The statements on turns, instances and artifacts are in the child modules.
pub mod Turns
pub mod Instances
pub mod Artifacts
pub mod Publish
pub mod History
use electrosphere.Base.{
  ℕ, ◌+◌, String, Bool, true, false, not, ◌&&◌, ◌||◌, Option, none, some, List, [], ◌∷◌, any,
  select, select_first, update_where, delete_where, length, str_eq, option_eq, if◌then◌else◌,
}
use electrosphere.Base.Exec.{
  Result, ok, err, Exec, pure, throw, gets, modify, guard, transaction, ◌>>=◌, ◌>>◌,
}
use electrosphere.Domain.Errors.{
  ErrorCode, ServiceError, Thrown, service_error, plain_error, throws, to_service_error,
}
use electrosphere.Domain.Types.{StoredResult}
use electrosphere.Storage.Database.{
  foreign_key_failed, unique_failed, ThreadWorkspace, Commit, Ref, TreeObject, Operation,
  OperationStatus, Db, is_commit, is_ref, is_thread, has_workspace, has_commit, refers,
}

abbrev is_request : String → String → Operation → Bool
is_request kind client_request_id o =
    str_eq o.operation_kind kind && str_eq o.client_request_id client_request_id

-- A stored row as `getOperation` reads it: a response, a stored error, or an operation under way.
recorded : Option Operation → Result (Option StoredResult)
recorded none = ok none
recorded (some o) = dispatch o.status o.response_json o.error_json
  where
    busy : Result (Option StoredResult)
    busy = err (throws ErrorCode.instance_busy "Operation is already in progress")

    dispatch :
        OperationStatus → Option StoredResult → Option ServiceError → Result (Option StoredResult)
    dispatch OperationStatus.succeeded (some r) e = ok (some r)
    dispatch OperationStatus.failed r (some e) = err (service_error e)
    dispatch _ r e = busy

unfoldable pub get_operation : String → String → Exec Db (Option StoredResult)
unfolding recorded
get_operation kind client_request_id db =
    (recorded (select_first (is_request kind client_request_id) db.operations), db)

abbrev pub is_operation : String → Operation → Bool
is_operation id o = str_eq o.id id

unfoldable pub fail_operation : String → Thrown → Exec Db (Unit {0})
fail_operation id e = modify λ db. record db {
  operations =
      update_where (is_operation id)
        (λ o. record o {
          status = OperationStatus.failed;
          error_json = some (to_service_error e);
          lease_expires_at = none;
        })
        db.operations;
}

unfoldable pub begin_harness_operation : (now : ℕ) → String → String → String → Exec Db (Unit {0})
begin_harness_operation now id kind client_request_id = do
  taken ←
      gets (λ db. any (λ o. is_operation id o || is_request kind client_request_id o) db.operations)
  guard (not taken) unique_failed
  modify (λ db. record db { operations = operation ∷ db.operations })
  where
    operation : Operation
    operation = record {
      id = id;
      operation_kind = kind;
      client_request_id = client_request_id;
      status = OperationStatus.running;
      response_json = none;
      error_json = none;
      lease_expires_at = some (now + 300_000);
    }

-- `onConflictDoNothing` makes the second insert of a commit a no-op.
unfoldable pub put_commit : Commit → Exec Db (Unit {0})
put_commit c db =
    if has_commit db c.id
    then (ok tt, db)
    else if refers (has_commit db) c.parent_id
    then (ok tt, record db { commits = c ∷ db.commits })
    else (err foreign_key_failed, db)

abbrev pub is_tree : String → TreeObject → Bool
is_tree digest t = str_eq t.digest digest

unfoldable pub put_tree_object : TreeObject → Exec Db (Unit {0})
put_tree_object t = modify λ db. record db {
  tree_objects =
      if any (is_tree t.digest) db.tree_objects then db.tree_objects else t ∷ db.tree_objects;
}

abbrev pub get_commit : Db → String → Option Commit
get_commit db id = select_first (is_commit id) db.commits

abbrev pub get_tree_object : Db → String → Option TreeObject
get_tree_object db digest = select_first (is_tree digest) db.tree_objects

abbrev pub load_workspace_refs : Db → String → Option (List Ref)
load_workspace_refs db id =
    if has_workspace db id
    then some (select (λ (r : Ref). str_eq r.workspace_id id) db.refs)
    else none

abbrev pub get_ref : Db → String → String → Option Ref
get_ref db workspace_id name = select_first (is_ref workspace_id name) db.refs

abbrev pub get_thread_workspace : Db → String → Option ThreadWorkspace
get_thread_workspace db thread_id = select_first (is_thread thread_id) db.thread_workspaces

-- The three inserts that `createThreadWorkspace` and `createThreadFork` share.
insert_workspace : String → Exec Db (Unit {0})
insert_workspace id db =
    if has_workspace db id
    then (err unique_failed, db)
    else (ok tt, record db { workspaces = id ∷ db.workspaces })

insert_ref : Ref → Exec Db (Unit {0})
insert_ref r db =
    if any (is_ref r.workspace_id r.name) db.refs
    then (err unique_failed, db)
    else if has_workspace db r.workspace_id && has_commit db r.head_commit
    then (ok tt, record db { refs = r ∷ db.refs })
    else (err foreign_key_failed, db)

insert_thread_workspace : ThreadWorkspace → Exec Db (Unit {0})
insert_thread_workspace t db =
    if any
      (λ (u : ThreadWorkspace). is_thread t.thread_id u || str_eq u.workspace_id t.workspace_id)
      db.thread_workspaces
    then (err unique_failed, db)
    else if has_workspace db t.workspace_id
    then (ok tt, record db { thread_workspaces = t ∷ db.thread_workspaces })
    else (err foreign_key_failed, db)

insert_thread : String → String → String → Exec Db (Unit {0})
unfolding insert_workspace insert_ref insert_thread_workspace
insert_thread thread_id workspace_id head_commit = do
  insert_workspace workspace_id
  insert_ref (record { workspace_id = workspace_id; name = "main"; head_commit = head_commit })
  insert_thread_workspace (record { thread_id = thread_id; workspace_id = workspace_id })

unfoldable pub create_thread_workspace : String → String → String → Exec Db (Unit {0})
unfolding insert_thread
create_thread_workspace thread_id workspace_id head_commit =
    transaction (insert_thread thread_id workspace_id head_commit)

unfoldable pub create_thread_fork : String → String → String → String → Exec Db (Unit {0})
unfolding insert_thread
create_thread_fork source_workspace_id thread_id workspace_id head_commit = transaction (do
  source ← gets (λ db. has_workspace db source_workspace_id)
  guard source (throws ErrorCode.not_found "Source thread workspace not found")
  insert_thread thread_id workspace_id head_commit)

unfoldable pub delete_tree_object : String → Exec Db (Unit {0})
delete_tree_object digest =
    modify λ db. record db { tree_objects = delete_where (is_tree digest) db.tree_objects }

unfoldable pub delete_running_operations : Exec Db (Unit {0})
delete_running_operations =
    modify λ db. record db { operations = delete_where (λ o. is_running o.status) db.operations }
  where
    is_running : OperationStatus → Bool
    is_running OperationStatus.running = true
    is_running _ = false
