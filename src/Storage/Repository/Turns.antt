-- ===== src/Storage/Repository/Turns.antt =====
-- src/storage/repository.ts: the statements on `turns`.
pub mod Laws
use electrosphere.Base.{
  ℕ, String, Bool, not, ◌&&◌, ◌||◌, Option, none, List, ◌∷◌, any, select, select_first,
  update_where, get_or, if◌then◌else◌,
}
use electrosphere.Base.Exec.{ok, err, Exec}
use electrosphere.Domain.Errors.{ServiceError, Thrown, plain_error}
use electrosphere.Domain.Types.{TurnRecord, TurnState, StoredResult}
use electrosphere.Storage.Database.{
  foreign_key_failed, unique_failed, Db, is_turn, is_active_in, has_workspace, has_commit,
  has_instance, refers, unique_active,
}

abbrev pub get_turn : Db → String → String → Option TurnRecord
get_turn db thread_id turn_id = select_first (is_turn thread_id turn_id) db.turns

abbrev pub get_open_turn : Db → String → Option TurnRecord
get_open_turn db thread_id = select_first (is_active_in thread_id) db.turns

-- The primary key and the index `turns_open_thread_unique` refuse an insert. A new record has no
-- instance, workspace or head, so no foreign key applies.
unfoldable pub create_turn : TurnRecord → Exec Db (Unit {0})
create_turn r db =
    if any (is_turn r.thread_id r.turn_id) db.turns
      || not (unique_active r.thread_id (r ∷ db.turns))
    then (err unique_failed, db)
    else (ok tt, record db { turns = r ∷ db.turns })

-- `listTurns(states)`; its callers give the states. The rows come in no modelled order.
abbrev pub list_turns : Db → (TurnState → Bool) → List TurnRecord
list_turns db has_state = select (λ t. has_state t.state) db.turns

-- `none` is a property left undefined, which keeps the column; `some none` sets null.
pub record TurnUpdate : Type 0 where
  pub state : Option TurnState
  pub instance_id : Option (Option String)
  pub workspace_id : Option (Option String)
  pub expected_head : Option (Option String)
  pub result_json : Option (Option StoredResult)
  pub error_json : Option (Option ServiceError)
  pub finished_at : Option (Option ℕ)

abbrev pub no_update : TurnUpdate
no_update = record {
  state = none;
  instance_id = none;
  workspace_id = none;
  expected_head = none;
  result_json = none;
  error_json = none;
  finished_at = none;
}

abbrev pub apply_update : TurnUpdate → TurnRecord → TurnRecord
apply_update u r = record r {
  state = get_or u.state r.state;
  instance_id = get_or u.instance_id r.instance_id;
  workspace_id = get_or u.workspace_id r.workspace_id;
  expected_head = get_or u.expected_head r.expected_head;
  result_json = get_or u.result_json r.result_json;
  error_json = get_or u.error_json r.error_json;
  finished_at = get_or u.finished_at r.finished_at;
}

abbrev pub keys_exist : Db → TurnUpdate → Bool
keys_exist db u =
    refers (has_instance db) (get_or u.instance_id none)
    && refers (has_workspace db) (get_or u.workspace_id none)
    && refers (has_commit db) (get_or u.expected_head none)

-- SQLite refuses an update that refers to no row, or that gives a thread a second active turn.
unfoldable pub update_turn : String → String → TurnUpdate → Exec Db (Unit {0})
update_turn thread_id turn_id u db =
    let turns = update_where (is_turn thread_id turn_id) (apply_update u) db.turns in
    if not (any (is_turn thread_id turn_id) db.turns)
    then (ok tt, db)
    else if not (keys_exist db u)
    then (err foreign_key_failed, db)
    else if unique_active thread_id turns
    then (ok tt, record db { turns = turns })
    else (err unique_failed, db)
