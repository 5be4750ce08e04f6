-- ===== src/Domain/Recovery/Ends.antt =====
-- What a recovery leaves: nothing that was under way.
use electrosphere.Base.{
  ℕ, String, ◌≡◌, refl, ap, ◌∙◌, Bool, true, false, Option, none, some, List, [], ◌∷◌, arith, any,
  select, update_where, eq_refl, Bool-cases, inl, inr,
}
use electrosphere.Base.Covering.{uncovered, uncovered-update_where, uncovered-none, uncovered-start}
use electrosphere.Base.Table.{update_where-none}
use electrosphere.Base.Exec.{Result, ok, Result-cases}
use electrosphere.Domain.Types.{
  Backend, BackendHandle, TurnRecord, TurnState, InstanceState, SandboxKind, is_active, is_live,
  instance_state_eq, kind_eq, turn_state_eq,
}
use electrosphere.Domain.Recovery.{
  RecoveryWorld, retry_destroy, cleanup_instance, cleanup_handle, cleanup_runtime, cleanup_turns,
  cleanup_finished, destroyed, lose_instance, lose_instances, lost, restarted, fail_turns, recover,
}
use electrosphere.Storage.Database.{Db, InstanceRecord, is_turn, is_instance, unique_active}
use electrosphere.Storage.Repository.{delete_running_operations}
use electrosphere.Storage.Repository.Instances.{
  update_instance, apply_instance_update, get_instance,
}
use electrosphere.Storage.Repository.Turns.{apply_update, update_turn}
use electrosphere.Storage.Repository.Turns.Laws.{unique_active-update_where}

abbrev pub active_turn : TurnRecord → Bool
active_turn t = is_active t.state

abbrev same_key : TurnRecord → TurnRecord → Bool
same_key t = is_turn t.thread_id t.turn_id

abbrev pub live : InstanceRecord → Bool
live i = is_live i.state

abbrev same_id : InstanceRecord → InstanceRecord → Bool
same_id i = is_instance i.id

abbrev pub Unique : List TurnRecord → Type 0
Unique turns = (t : String) → unique_active t turns ≡ true

-- The turns of `ts` failed one after the other.
failed_all : ℕ → List TurnRecord → List TurnRecord → List TurnRecord
failed_all now [] turns = turns
failed_all now (t ∷ ts) turns =
    failed_all now ts (update_where (same_key t) (apply_update (restarted now)) turns)

failed-Unique :
    (now : ℕ) (t : TurnRecord) (turns : List TurnRecord)
    → Unique turns
    → Unique (update_where (same_key t) (apply_update (restarted now)) turns)
failed-Unique now t turns u n =
    unique_active-update_where n (same_key t) (apply_update (restarted now))
      (λ r hit a. ground (arith, a)) turns (u n)

update_turn-restarted :
    (now : ℕ) (t : TurnRecord) (db : Db)
    → Unique db.turns
    → update_turn t.thread_id t.turn_id (restarted now) db ≡ (
      ok tt,
      record db { turns = update_where (same_key t) (apply_update (restarted now)) db.turns },
    )
unfolding update_turn
update_turn-restarted now t db u = elim (Bool-cases (any (same_key t) db.turns)) [
  | inl e ↦ rw (e, failed-Unique now t db.turns u t.thread_id)
  | inr e ↦ rw (e, update_where-none (same_key t) (apply_update (restarted now)) db.turns e)
]

fail_turns-failed_all :
    (now : ℕ) (ts : List TurnRecord) (db : Db)
    → Unique db.turns
    → fail_turns now ts db ≡ (ok tt, record db { turns = failed_all now ts db.turns })
unfolding fail_turns failed_all
fail_turns-failed_all now [] db u = refl
fail_turns-failed_all now (t ∷ ts) db u = rw (update_turn-restarted now t db u) (
    fail_turns-failed_all now ts
      (record db { turns = update_where (same_key t) (apply_update (restarted now)) db.turns })
      (failed-Unique now t db.turns u))

failed_all-uncovered :
    (now : ℕ) (ts turns : List TurnRecord)
    → uncovered active_turn same_key ts turns ≡ false
    → any active_turn (failed_all now ts turns) ≡ false
unfolding failed_all
failed_all-uncovered now [] turns h = uncovered-none active_turn same_key turns h
failed_all-uncovered now (t ∷ ts) turns h =
    failed_all-uncovered now ts (update_where (same_key t) (apply_update (restarted now)) turns) (
      uncovered-update_where active_turn same_key t (apply_update (restarted now)) (λ x. refl) ts
        turns h)

own_key : (t : TurnRecord) → same_key t t ≡ true
own_key t = rw (eq_refl t.thread_id, eq_refl t.turn_id)

-- The turns that were active when they were listed are all that were.
fail_turns-ends :
    (now : ℕ) (turns : List TurnRecord)
    → any active_turn (failed_all now (select active_turn turns) turns) ≡ false
fail_turns-ends now turns =
    failed_all-uncovered now (select active_turn turns) turns
      (uncovered-start active_turn same_key own_key (select active_turn turns) turns (λ q h. h))

-- A recovery runs before anything else does: the staging directory is cleared, and no other task
-- writes meanwhile. The backends may answer anything.
pub record Alone (w : RecoveryWorld) : Type 0 where
  pub cleared : w.clear_staging.outcome ≡ ok tt
  pub staging : (db : Db) → w.clear_staging.meanwhile db ≡ db
  pub backends : (b : Backend) (h : BackendHandle) (db : Db) → (w.destroy b h).meanwhile db ≡ db

module _ (w : RecoveryWorld) (alone : Alone w) where
  -- Code that returns and writes to the instances only.
  abbrev OnInstances : Result (Unit {0}) × Db → Db → Type 0
  OnInstances out db = (xs : List InstanceRecord) × (out ≡ (ok tt, record db { instances = xs }))

  retry_destroy-OnInstances :
      (i : InstanceRecord) (h : BackendHandle) (db : Db) → OnInstances (retry_destroy w i h db) db
  unfolding retry_destroy update_instance
  retry_destroy-OnInstances i h db = elim (Result-cases (w.destroy i.backend h).outcome) [
    | inl (_, e) ↦
        ((retry_destroy w i h db).1.instances, rw (e, alone.backends i.backend h db) refl)
    | inr (_, e) ↦
        ((retry_destroy w i h db).1.instances, rw (e, alone.backends i.backend h db) refl)
  ]

  cleanup_handle-OnInstances :
      (i : InstanceRecord) (o : Option BackendHandle) (db : Db)
      → OnInstances (cleanup_handle w i o db) db
  unfolding cleanup_handle
  cleanup_handle-OnInstances i none db = (db.instances, refl)
  cleanup_handle-OnInstances i (some h) db =
      elim (Bool-cases (instance_state_eq i.state InstanceState.terminated)) [
        | inl e ↦ (db.instances, rw e refl)
        | inr e ↦ rw e (retry_destroy-OnInstances i h db)
      ]

  cleanup_instance-OnInstances :
      (o : Option InstanceRecord) (db : Db) → OnInstances (cleanup_instance w o db) db
  unfolding cleanup_instance
  cleanup_instance-OnInstances none db = (db.instances, refl)
  cleanup_instance-OnInstances (some i) db = cleanup_handle-OnInstances i i.backend_handle db

  cleanup_runtime-OnInstances :
      (t : TurnRecord) (o : Option String) (db : Db) → OnInstances (cleanup_runtime w t o db) db
  unfolding cleanup_runtime
  cleanup_runtime-OnInstances t none db = (db.instances, refl)
  cleanup_runtime-OnInstances t (some id) db =
      elim (Bool-cases (kind_eq t.mode SandboxKind.durable)) [
        | inl e ↦ rw e (cleanup_instance-OnInstances (get_instance db id) db)
        | inr e ↦ (db.instances, rw e refl)
      ]

  cleanup_turns-OnInstances :
      (ts : List TurnRecord) (db : Db) → OnInstances (cleanup_turns w ts db) db
  unfolding cleanup_turns
  cleanup_turns-OnInstances [] db = (db.instances, refl)
  cleanup_turns-OnInstances (t ∷ ts) db =
      let (xs, e) = cleanup_runtime-OnInstances t t.instance_id db in
      let (ys, f) = cleanup_turns-OnInstances ts (record db { instances = xs }) in (ys, rw e f)

  destroyed-returns :
      (i : InstanceRecord) (o : Option BackendHandle) (db : Db)
      → (gone : Bool) × (destroyed w i o db ≡ (ok gone, db))
  unfolding destroyed
  destroyed-returns i none db = (false, refl)
  destroyed-returns i (some h) db = elim (Result-cases (w.destroy i.backend h).outcome) [
    | inl (_, e) ↦ (true, rw (e, alone.backends i.backend h db) refl)
    | inr (_, e) ↦ (false, rw (e, alone.backends i.backend h db) refl)
  ]

  lose_instances-OnInstances :
      (is : List InstanceRecord) (db : Db)
      → (xs : List InstanceRecord) × (lose_instances w is db
          ≡ (ok tt, record db { instances = xs }))
        × (uncovered live same_id is db.instances ≡ false → any live xs ≡ false)
  unfolding lose_instances lose_instance update_instance
  lose_instances-OnInstances [] db = (db.instances, refl, uncovered-none live same_id db.instances)
  lose_instances-OnInstances (i ∷ is) db =
      let (gone, e) = destroyed-returns i i.backend_handle db in
      let u = lost gone in
      let (xs, f, g) = lose_instances-OnInstances is (record db {
        instances = update_where (same_id i) (apply_instance_update u) db.instances;
      }) in
      (
        xs,
        rw e f,
        λ h. g (
            uncovered-update_where live same_id i (apply_instance_update u) (λ x. refl) is
              db.instances h),
      )

abbrev after_operations : Db → Db
after_operations db = (delete_running_operations db).1

own_id : (i : InstanceRecord) → same_id i i ≡ true
own_id i = eq_refl i.id

-- The parts of a recovery put together.
recover-parts :
    (now : ℕ) (w : RecoveryWorld) (db : Db)
    → Alone w
    → Unique db.turns
    → (xs : List InstanceRecord) × (recover now w db ≡ (
      ok tt,
      record (after_operations db) {
        instances = xs;
        turns = failed_all now (select active_turn db.turns) db.turns;
      },
    ))
      × (any live xs ≡ false)
unfolding recover delete_running_operations cleanup_finished
recover-parts now w db alone u =
    let db' = after_operations db in
    let (ys, e) =
      cleanup_turns-OnInstances w alone
        (select (λ t. turn_state_eq t.state TurnState.finished) db.turns) db' in
    let (xs, f, g) =
      lose_instances-OnInstances w alone (select live ys) (record db' { instances = ys }) in
    (
      xs,
      rw (alone.cleared, alone.staging db', e, f)
          (fail_turns-failed_all now (select active_turn db.turns) (record db' { instances = xs })
            u),
      g (uncovered-start live same_id own_id (select live ys) ys (λ q h. h)),
    )

-- A recovery returns, whatever the backends answer, and leaves no turn active, no instance live,
-- and the refs and the commits as they were, if it clears the staging directory, runs before any
-- other task writes, and no thread had two active turns.
pub recover_ends :
    (now : ℕ) (w : RecoveryWorld) (db : Db)
    → Alone w
    → Unique db.turns
    → ((recover now w db).0 ≡ ok tt)
      × (any active_turn (recover now w db).1.turns ≡ false)
      × (any live (recover now w db).1.instances ≡ false)
      × ((recover now w db).1.refs ≡ db.refs)
      × ((recover now w db).1.commits ≡ db.commits)
unfolding delete_running_operations
recover_ends now w db alone u =
    let (xs, e, g) = recover-parts now w db alone u in
    (
      ap (λ o. o.0) e,
      ap (λ o. any active_turn o.1.turns) e ∙ fail_turns-ends now db.turns,
      ap (λ o. any live o.1.instances) e ∙ g,
      ap (λ o. o.1.refs) e,
      ap (λ o. o.1.commits) e,
    )
