-- ===== src/Storage/Repository/Instances.antt =====
-- src/storage/repository.ts: the statements on `instances`.
use electrosphere.Base.{
  String, Bool, ◌&&◌, Option, none, some, List, ◌∷◌, select, select_first, update_where, get_or,
  if◌then◌else◌,
}
use electrosphere.Base.Exec.{ok, err, Exec, modify}
use electrosphere.Domain.Types.{InstanceState, BackendHandle}
use electrosphere.Storage.Database.{
  foreign_key_failed, unique_failed, InstanceRecord, Db, is_instance, has_workspace, has_commit,
  has_instance, refers,
}

unfoldable pub create_instance : InstanceRecord → Exec Db (Unit {0})
create_instance i db =
    if has_instance db i.id
    then (err unique_failed, db)
    else if refers (has_workspace db) i.workspace_id && has_commit db i.base_commit
    then (ok tt, record db { instances = i ∷ db.instances })
    else (err foreign_key_failed, db)

pub record InstanceUpdate : Type 0 where
  pub state : Option InstanceState
  pub backend_handle : Option (Option BackendHandle)
  pub last_error : Option (Option String)

abbrev pub to_state : InstanceState → InstanceUpdate
to_state s = record { state = some s; backend_handle = none; last_error = none }

abbrev pub apply_instance_update : InstanceUpdate → InstanceRecord → InstanceRecord
apply_instance_update u i = record i {
  state = get_or u.state i.state;
  backend_handle = get_or u.backend_handle i.backend_handle;
  last_error = get_or u.last_error i.last_error;
}

unfoldable pub update_instance : String → InstanceUpdate → Exec Db (Unit {0})
update_instance id u = modify λ db. record db {
  instances = update_where (is_instance id) (apply_instance_update u) db.instances;
}

abbrev pub get_instance : Db → String → Option InstanceRecord
get_instance db id = select_first (is_instance id) db.instances

-- `listInstances(states)`; its callers give the states.
abbrev pub list_instances : Db → (InstanceState → Bool) → List InstanceRecord
list_instances db has_state = select (λ i. has_state i.state) db.instances
