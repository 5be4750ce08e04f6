-- ===== src/Tests/Turns.antt =====
-- The theorems on starts and finishes at one small service.
use electrosphere.Base.{
  String, ◌≡◌, refl, true, false, none, some, [], ◌∷◌, str_eq, Bool-cases, inl, inr,
}
use electrosphere.Base.Exec.{Result, ok, err, Await}
use electrosphere.Domain.Errors.{ErrorCode, plain_error, throws}
use electrosphere.Domain.Types.{Backend, SandboxKind, TurnRecord, TurnState, is_identifier}
use electrosphere.Domain.World.{World}
use electrosphere.Domain.Sandbox.{Service, ensure_thread_workspace, create_turn_runtime}
use electrosphere.Domain.Turns.{Turns}
use electrosphere.Domain.Turns.Start.{
  StartEnv, StartInput, admitted, new_turn, admit, start, start_created, start_runtime, thread_busy,
}
use electrosphere.Domain.Turns.Start.Admitting.{
  Occupies, Recorded, first, IsReplay, admit_new, start_busy, start_again,
}
use electrosphere.Domain.Turns.Start.Unprovisioned.{unprovisioned_start_stays}
use electrosphere.Domain.Turns.Finish.{FinishEnv, finish}
use electrosphere.Domain.Turns.Finish.Settles.{Fair, FairWorld, FairFinish}
use electrosphere.Domain.Turns.Finish.Total.{finish-Ended}
use electrosphere.Storage.Database.{Db, has_instance, foreign_key_failed}
use electrosphere.Storage.Repository.Turns.{get_turn}
use electrosphere.Storage.Repository.Turns.Laws.{Held, Ended}
use electrosphere.Tests.Publishing.{durable_turn, store}

-- An awaited call during which nothing else happens.
abbrev answers : {A : Type 0} → Result A → Await Db A
answers r = record { outcome = r; meanwhile = λ db. db }

-- Backends that are unavailable, and a file system that works.
abbrev world : World
world = record {
  preflight = λ b. answers (ok (record { available = false; reason = none }));
  materialize = λ t p. answers (ok tt);
  create = λ b i. answers (err (plain_error "create failed"));
  destroy = λ b h. answers (err (plain_error "destroy failed"));
  snapshot =
      λ b h. answers (ok (record { workspace_path = "/p"; cfs_path = none; tree_digest = none }));
  ingest = λ p d. answers (err (plain_error "ingest failed"));
  export = λ p. answers (ok (record { tree_digest = "t1"; path = "/t1"; size_bytes = 2 }));
  remove = λ p. answers (ok tt);
}

abbrev service : Service
service = record { instance_root = "/instances"; empty_commit = some "c0"; sha256_hex = λ s. s }

abbrev start_env : StartEnv
start_env = record {
  now = 9;
  service = service;
  world = world;
  default_backend = Backend.docker;
  instance_id = "new";
  workspace_id = "new-workspace";
}

abbrev input : String → String → StartInput
input thread turn = record {
  thread_id = thread;
  turn_id = turn;
  request = record {
    mode = SandboxKind.durable;
    backend = none;
    network = none;
    resource_profile = none;
  };
}

abbrev turns : TurnState → Turns
turns state = record {
  db = store state;
  active_leases = [];
  lease_counts = [];
  lease_waiters = [];
  start_promises = [];
  finish_promises = [];
  closing = false;
}

admit_new_example : admit 9 (input "thread" "next") (store TurnState.finished) ≡ (
  admitted,
  record (store TurnState.finished) {
    turns = new_turn 9 (input "thread" "next") ∷ (store TurnState.finished).turns;
  },
)
admit_new_example = admit_new 9 (input "thread" "next") (store TurnState.finished) refl refl

thread_name : is_identifier "thread" ≡ true
unfolding is_identifier
thread_name = refl

turn_name : is_identifier "turn" ≡ true
unfolding is_identifier
turn_name = refl

next_name : is_identifier "next" ≡ true
unfolding is_identifier
next_name = refl

start_busy_example :
    (t : TurnRecord) × (Recorded t (turns TurnState.opened).db.turns
      × Occupies "thread" t
      × (start start_env (input "thread" "next") (turns TurnState.opened)
          ≡ (err (thread_busy t), turns TurnState.opened)))
start_busy_example =
    start_busy start_env (input "thread" "next") (turns TurnState.opened)
      (durable_turn TurnState.opened) refl thread_name next_name refl (first [])
      (refl, inr (inl refl))

start_again_example :
    IsReplay
      (durable_turn TurnState.opened)
      (input "thread" "turn").request
      (start start_env (input "thread" "turn") (turns TurnState.opened)).0
    × ((start start_env (input "thread" "turn") (turns TurnState.opened)).1
        ≡ turns TurnState.opened)
start_again_example =
    start_again start_env (input "thread" "turn") (turns TurnState.opened)
      (durable_turn TurnState.opened) refl thread_name turn_name refl

-- What the runtime of the start throws.
unavailable :
    (start_runtime start_env
      (input "thread" "turn")
      SandboxKind.durable
      (store TurnState.starting)).0
    ≡ err (throws ErrorCode.backend_unavailable "docker backend unavailable")
unfolding start_runtime ensure_thread_workspace create_turn_runtime
unavailable = refl

unchanged :
    (start_runtime start_env
      (input "thread" "turn")
      SandboxKind.durable
      (store TurnState.starting)).1
    ≡ store TurnState.starting
unfolding start_runtime ensure_thread_workspace create_turn_runtime
unchanged = refl

no_instance :
    has_instance
      (start_runtime start_env
        (input "thread" "turn")
        SandboxKind.durable
        (store TurnState.starting)).1
      "new"
    ≡ false
no_instance = rw unchanged refl

still_recorded :
    get_turn
      (start_runtime start_env
        (input "thread" "turn")
        SandboxKind.durable
        (store TurnState.starting)).1
      "thread"
      "turn"
    ≡ some (durable_turn TurnState.starting)
still_recorded = rw unchanged refl

unprovisioned_start_stays_example :
    start_created start_env (input "thread" "turn") (store TurnState.starting) ≡ (
      err foreign_key_failed,
      (start_runtime start_env
          (input "thread" "turn")
          SandboxKind.durable
          (store TurnState.starting)).1,
    )
unprovisioned_start_stays_example =
    unprovisioned_start_stays start_env (input "thread" "turn") (store TurnState.starting)
      (throws ErrorCode.backend_unavailable "docker backend unavailable") unavailable no_instance
      (durable_turn TurnState.starting) still_recorded

abbrev finish_env : FinishEnv
finish_env = record {
  now = 9;
  service = service;
  world = world;
  drained = λ s. s;
  close_instance = λ id. answers (ok tt);
  request_id = λ t u. "harness:finish";
}

quiet : Fair "thread" "turn" (λ db. db)
quiet = record { held = λ db h. h; ended = λ db h. h }

quiet_world : FairWorld "thread" "turn" world
quiet_world = record {
  destroy = λ b h. quiet;
  snapshot = λ b h. quiet;
  ingest = λ p d. quiet;
  export = λ p. quiet;
  remove = λ p. quiet;
}

quiet_finish : FairFinish "thread" "turn" finish_env
quiet_finish = record { world = quiet_world; sessions = λ id. quiet; drained = λ s h. h }

opened_Held : Held "thread" "turn" (store TurnState.opened).turns
opened_Held = record {
  unique = λ t. elim (Bool-cases (str_eq "thread" t)) [ inl e ↦ rw e refl | inr e ↦ rw e refl ];
  distinct = (refl, tt);
  recorded = refl;
}

finish-Ended_example :
    Ended "thread" "turn" (finish finish_env "thread" "turn" (turns TurnState.opened)).1.db.turns
finish-Ended_example =
    finish-Ended finish_env (durable_turn TurnState.opened) (turns TurnState.opened) quiet_finish
      opened_Held thread_name turn_name refl refl refl
