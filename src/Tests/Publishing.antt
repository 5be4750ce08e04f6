-- ===== src/Tests/Publishing.antt =====
-- The theorems on publications and on histories at one small database.
use electrosphere.Base.{
  String, ◌≡◌, ◌≢◌, refl, true, false, none, some, [], ◌∷◌, ◌↔◌, arith, eq_iff, inl,
}
use electrosphere.Base.Exec.{ok}
use electrosphere.Domain.Types.{
  Backend, SandboxKind, InstanceState, TurnState, NetworkProfile, TurnRecord, empty_result,
  default_resource_profile, BackendHandle,
}
use electrosphere.Storage.Database.{Db, Commit, Ref, InstanceRecord}
use electrosphere.Storage.Repository.{get_ref}
use electrosphere.Storage.Repository.Publish.{PublishInput, publish_turn_commit}
use electrosphere.Storage.Repository.Publish.Swap.{
  publish_atomic, publish_advances, publish_keeps_others,
}
use electrosphere.Storage.Repository.History.{walk, commit_belongs_to_history, Ancestor}
use electrosphere.Storage.Repository.History.Walk.{commit_belongs_to_history_iff}

abbrev commit_0 : Commit
commit_0 = record { id = "c0"; tree_digest = "t0"; contract_digest = "k"; parent_id = none }

abbrev commit_1 : Commit
commit_1 = record { id = "c1"; tree_digest = "t1"; contract_digest = "k"; parent_id = some "c0" }

abbrev main_ref : Ref
main_ref = record { workspace_id = "w"; name = "main"; head_commit = "c0" }

abbrev other_ref : Ref
other_ref = record { workspace_id = "v"; name = "main"; head_commit = "c0" }

abbrev handle : BackendHandle
handle = record {
  backend = Backend.docker;
  instance_id = "i";
  opaque_id = "o";
  workspace_path = "/p";
}

abbrev runtime : InstanceRecord
runtime = record {
  id = "i";
  kind = SandboxKind.durable;
  backend = Backend.docker;
  state = InstanceState.ready;
  workspace_id = some "w";
  base_commit = "c0";
  backend_handle = some handle;
  workspace_path = "/p";
  resource_profile = default_resource_profile;
  network = NetworkProfile.no_network;
  last_error = none;
}

abbrev pub durable_turn : TurnState → TurnRecord
durable_turn state = record {
  thread_id = "thread";
  turn_id = "turn";
  mode = SandboxKind.durable;
  state = state;
  instance_id = some "i";
  workspace_id = some "w";
  expected_head = some "c0";
  request_json = record {
    mode = SandboxKind.durable;
    backend = none;
    network = none;
    resource_profile = none;
  };
  result_json = none;
  error_json = none;
  created_at = 1;
  finished_at = none;
}

abbrev pub store : TurnState → Db
store state = record {
  workspaces = "w" ∷ "v" ∷ [];
  thread_workspaces = record { thread_id = "thread"; workspace_id = "w" } ∷ [];
  commits = commit_0 ∷ [];
  refs = main_ref ∷ other_ref ∷ [];
  tree_objects = record { digest = "t0"; path = "/t0"; size_bytes = 1 } ∷ [];
  instances = runtime ∷ [];
  turns = durable_turn state ∷ [];
  operations = [];
  artifacts = [];
  artifact_grants = [];
}

abbrev publication : String → PublishInput
publication head = record {
  operation_id = "op";
  thread_id = "thread";
  turn_id = "turn";
  instance_id = "i";
  workspace_id = "w";
  expected_head = head;
  tree = record { digest = "t1"; path = "/t1"; size_bytes = 2 };
  commit = commit_1;
  response = empty_result;
}

published : (publish_turn_commit 5 (publication "c0") (store TurnState.finishing)).0 ≡ ok true
unfolding publish_turn_commit
published = refl

conflict : (publish_turn_commit 5 (publication "stale") (store TurnState.finishing)).0 ≡ ok false
unfolding publish_turn_commit
conflict = refl

no_success : (publish_turn_commit 5 (publication "stale") (store TurnState.finishing)).0 ≢ ok true
no_success h = ground (arith, conflict, h)

publish_atomic_example :
    (publish_turn_commit 5 (publication "stale") (store TurnState.finishing)).1
    ≡ store TurnState.finishing
publish_atomic_example =
    publish_atomic 5 (publication "stale") (store TurnState.finishing) no_success

publish_advances_example :
    (r : Ref) × (get_ref (store TurnState.finishing) "w" "main" ≡ some r)
    × (r.head_commit ≡ "c0")
    × (get_ref (publish_turn_commit 5 (publication "c0") (store TurnState.finishing)).1 "w" "main"
        ≡ some (record r { head_commit = "c1" }))
publish_advances_example =
    publish_advances 5 (publication "c0") (store TurnState.finishing) (refl, (refl, tt)) published

w_not_v : ◌≢◌ {A = String} "v" "w"
w_not_v h = ground (arith, eq_iff "v" "w", h)

publish_keeps_others_example :
    get_ref (publish_turn_commit 5 (publication "c0") (store TurnState.finishing)).1 "v" "main"
    ≡ get_ref (store TurnState.finishing) "v" "main"
publish_keeps_others_example =
    publish_keeps_others 5 (publication "c0") (store TurnState.finishing) published "v" "main"
      (inl w_not_v)

abbrev history : Db
history = record (store TurnState.finished) { commits = commit_1 ∷ commit_0 ∷ [] }

commit_belongs_to_history_iff_example :
    (walk 4 history.commits "c0" [] (some "c1") ≢ none)
    × ((commit_belongs_to_history history "c1" "c0" ≡ true) ↔ Ancestor history.commits "c1" "c0")
commit_belongs_to_history_iff_example = commit_belongs_to_history_iff history "c1" "c0"
