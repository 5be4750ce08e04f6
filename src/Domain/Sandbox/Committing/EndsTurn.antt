-- ===== src/Domain/Sandbox/Committing/EndsTurn.antt =====
-- A commit of a durable turn ends the turn, or leaves the table of turns to the other tasks.
use electrosphere.Base.{ℕ, String, ◌≡◌, refl, true, false, Option, none, some, arith, inl, inr}
use electrosphere.Base.Exec.{Result-cases, ok, err, ◌>>=◌}
use electrosphere.Base.Exec.Triple.{
  After, Triple, Triple-bind, Triple-catch, Keeps, Keeps-bind, Keeps-await,
}
use electrosphere.Domain.Errors.{Thrown}
use electrosphere.Domain.Types.{Backend, BackendHandle}
use electrosphere.Domain.World.{World, SnapshotResult, CfsObject}
use electrosphere.Domain.Sandbox.{Service}
use electrosphere.Domain.Sandbox.KeepsTurns.{Keeps-turns}
use electrosphere.Domain.Sandbox.Committing.{
  CommitInput, begin_commit, store_tree, capture, publication, publish, abort_commit,
  commit_turn_runtime,
}
use electrosphere.Storage.Database.{Db}
use electrosphere.Storage.Repository.{begin_harness_operation, fail_operation}
use electrosphere.Storage.Repository.Instances.{update_instance}
use electrosphere.Storage.Repository.Publish.{
  PublishInput, publish_turn_commit, finish_turn, is_finishing,
}
use electrosphere.Storage.Repository.Publish.Swap.{publish_atomic, publish_refs}
use electrosphere.Storage.Repository.Turns.Laws.{Held, Ended, Ended-update_where}

begin_commit-turns :
    (now : ℕ) (i : CommitInput) (db : Db) → (begin_commit now i db).1.turns ≡ db.turns
unfolding begin_commit begin_harness_operation update_instance
begin_commit-turns now i db = ground arith

abort_commit-turns :
    (i : CommitInput) (e : Thrown) (db : Db) → (abort_commit i e db).1.turns ≡ db.turns
unfolding abort_commit fail_operation update_instance
abort_commit-turns i e db = ground arith

abort_commit_throws : (i : CommitInput) (e : Thrown) (db : Db) → (abort_commit i e db).0 ≡ err e
unfolding abort_commit fail_operation update_instance
abort_commit_throws i e db = ground arith

-- A publication that reports success has finished the turn.
published-Ended :
    (now : ℕ) (p : PublishInput) (db : Db)
    → Held p.thread_id p.turn_id db.turns
    → (publish_turn_commit now p db).0 ≡ ok true
    → Ended p.thread_id p.turn_id (publish_turn_commit now p db).1.turns
published-Ended now p db h done =
    let (_, _, found, turns') = publish_refs now p db done in
    rw turns' (
      Ended-update_where p.thread_id p.turn_id (is_finishing p) (finish_turn now p)
        (λ r hit. ground (arith, hit)) (λ r. refl) (λ r. refl) (λ r. refl) db.turns h found)

publish-After :
    (now : ℕ) (s : Service) (i : CommitInput) (tree : CfsObject) (db : Db)
    → Held i.thread_id i.turn_id db.turns
    → After
        (λ _ (d : Db). Ended i.thread_id i.turn_id d.turns)
        (λ _ (d : Db). Held i.thread_id i.turn_id d.turns)
        (publish now s i tree db).0
        (publish now s i tree db).1
unfolding publish
publish-After now s i tree db h =
    elim (Result-cases (publish_turn_commit now (publication s i tree) db).0) [
      | inl (true, e) ↦ rw e (published-Ended now (publication s i tree) db h e)
      | inl (false, e) ↦ rw e (rw (publish_atomic now (publication s i tree) db (λ x. cc)) h)
      | inr (t, e) ↦ rw e (rw (publish_atomic now (publication s i tree) db (λ x. cc)) h)
    ]

module _ (i : CommitInput) where
  abbrev HeldDb : Db → Type 0
  HeldDb db = Held i.thread_id i.turn_id db.turns

  abbrev EndedDb : Db → Type 0
  EndedDb db = Ended i.thread_id i.turn_id db.turns

  module _ (w : World)
      (snapshot : (b : Backend) (h : BackendHandle) (db : Db)
        → HeldDb db
        → HeldDb ((w.snapshot b h).meanwhile db))
      (ingest : (p : String) (d : Option String) (db : Db)
        → HeldDb db
        → HeldDb ((w.ingest p d).meanwhile db))
      (export : (p : String) (db : Db) → HeldDb db → HeldDb ((w.export p).meanwhile db)) where
    Keeps-store_tree :
        (r : SnapshotResult) (path : Option String) → Keeps HeldDb (store_tree w r path)
    unfolding store_tree
    Keeps-store_tree r none = Keeps-await (w.export r.workspace_path) (export r.workspace_path)
    Keeps-store_tree r (some path) =
        Keeps-await (w.ingest path r.tree_digest) (ingest path r.tree_digest)

    Keeps-capture : (b : Backend) (h : BackendHandle) → Keeps HeldDb (capture w b h)
    unfolding capture
    Keeps-capture b h =
        Keeps-bind _ _ (Keeps-await (w.snapshot b h) (snapshot b h))
          λ r. Keeps-store_tree r r.cfs_path

    -- A commit that succeeds ends its turn; one that fails leaves the turn on record.
    pub commit_turn_runtime-Triple :
        (now : ℕ) (s : Service)
        → Triple HeldDb (commit_turn_runtime now s w i) (λ _. EndedDb) (λ _. HeldDb)
    unfolding commit_turn_runtime
    commit_turn_runtime-Triple now s =
        Triple-bind {R = λ _. HeldDb} (begin_commit now i) _ begun
          λ x. Triple-catch {Q' = λ _. HeldDb} _ (abort_commit i) (published x) aborted
      where
        begun : Triple HeldDb (begin_commit now i) (λ _. HeldDb) (λ _. HeldDb)
        begun =
            Keeps-turns (Held i.thread_id i.turn_id) (begin_commit now i) (begin_commit-turns now i)

        published :
            (x : Backend × BackendHandle)
            → Triple HeldDb (capture w x.0 x.1 >>= publish now s i) (λ _. EndedDb) (λ _. HeldDb)
        published x =
            Triple-bind {R = λ _. HeldDb} (capture w x.0 x.1) (publish now s i)
              (Keeps-capture x.0 x.1) λ tree. record { at = publish-After now s i tree }

        aborted : (e : Thrown) → Triple HeldDb (abort_commit i e) (λ _. EndedDb) (λ _. HeldDb)
        aborted e = record {
          at = λ db h. rw (abort_commit_throws i e db, abort_commit-turns i e db) h;
        }
