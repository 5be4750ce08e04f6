-- ===== src/Domain/Turns/Finish/Settles.antt =====
-- However a finish goes, the turn does not stay active.
use electrosphere.Base.{String, ◌≡◌, refl, false, Option, none, some}
use electrosphere.Base.Exec.{Result, ok, err, gets, await, catch, attempt}
use electrosphere.Base.Exec.Triple.{
  After, After-always, Triple, Triple-pure, Triple-throw, Triple-bind, Triple-catch, Triple-attempt,
  Triple-state, Keeps, Keeps-bind, Keeps-catch, Keeps-pure, Keeps-throw, Keeps-gets,
}
use electrosphere.Domain.Errors.{Thrown}
use electrosphere.Domain.Types.{
  SandboxKind, TurnMode, TurnRecord, TurnState, Backend, BackendHandle, is_active,
}
use electrosphere.Domain.World.{World}
use electrosphere.Domain.Sandbox.{delete_turn_runtime}
use electrosphere.Domain.Sandbox.KeepsTurns.{Keeps-delete_turn_runtime}
use electrosphere.Domain.Sandbox.Committing.{TurnCommitResult}
use electrosphere.Domain.Sandbox.Committing.EndsTurn.{commit_turn_runtime-Triple}
use electrosphere.Domain.Turns.{Turns}
use electrosphere.Domain.Turns.Finish.{
  FinishEnv, mark_lost, record_failure, failed_turn, clean_runtime, fail_turn, finish_instant,
  finish_durable, note_cleanup, discard_failed, finished_instant, noted, conclude, commit_input,
  incomplete_binding, no_runtime, after_commit, committed_or_failed, by_mode, after_sessions,
  with_runtime, finish_open,
}
use electrosphere.Storage.Database.{Db}
use electrosphere.Storage.Repository.Turns.{TurnUpdate, get_turn, update_turn}
use electrosphere.Storage.Repository.Instances.{update_instance}
use electrosphere.Storage.Repository.Turns.Laws.{
  Held, Ended, update_turn-Ended, update_turn-keeps_Ended,
}

module _ (thread_id turn_id : String) where
  abbrev HeldDb : Db → Type 0
  HeldDb db = Held thread_id turn_id db.turns

  abbrev EndedDb : Db → Type 0
  EndedDb db = Ended thread_id turn_id db.turns

  -- Other tasks neither delete the turn nor break the keys, and they revive no ended turn.
  pub record Fair (m : Db → Db) : Type 0 where
    pub held : (db : Db) → HeldDb db → HeldDb (m db)
    pub ended : (db : Db) → EndedDb db → EndedDb (m db)

  pub record FairWorld (w : World) : Type 0 where
    pub destroy : (b : Backend) (h : BackendHandle) → Fair (w.destroy b h).meanwhile
    pub snapshot : (b : Backend) (h : BackendHandle) → Fair (w.snapshot b h).meanwhile
    pub ingest : (p : String) (d : Option String) → Fair (w.ingest p d).meanwhile
    pub export : (p : String) → Fair (w.export p).meanwhile
    pub remove : (p : String) → Fair (w.remove p).meanwhile

  pub record FairFinish (e : FinishEnv) : Type 0 where
    pub world : FairWorld e.world
    pub sessions : (id : String) → Fair (e.close_instance id).meanwhile
    pub drained : (s : Turns) → HeldDb s.db → HeldDb (e.drained s).db

module _ (e : FinishEnv) (r : TurnRecord) (fair : FairFinish r.thread_id r.turn_id e) where
  abbrev HeldR : Db → Type 0
  HeldR = HeldDb r.thread_id r.turn_id

  abbrev EndedR : Db → Type 0
  EndedR = EndedDb r.thread_id r.turn_id

  delete-HeldR : (id : String) → Keeps HeldR (delete_turn_runtime e.service e.world id)
  delete-HeldR =
      Keeps-delete_turn_runtime (Held r.thread_id r.turn_id) e.service e.world
        (λ b h. (fair.world.destroy b h).held) (λ p. (fair.world.remove p).held)

  delete-EndedR : (id : String) → Keeps EndedR (delete_turn_runtime e.service e.world id)
  delete-EndedR =
      Keeps-delete_turn_runtime (Ended r.thread_id r.turn_id) e.service e.world
        (λ b h. (fair.world.destroy b h).ended) (λ p. (fair.world.remove p).ended)

  -- Marking an instance throws nothing.
  mark_lost-HeldR :
      (id : String) (t : Thrown) → Triple HeldR (mark_lost id t) (λ _. HeldR) (λ _. EndedR)
  unfolding update_instance
  mark_lost-HeldR id t = record { at = λ db h. h }

  mark_lost-EndedR : (id : String) (t : Thrown) → Keeps EndedR (mark_lost id t)
  unfolding update_instance
  mark_lost-EndedR id t = record { at = λ db h. h }

  -- An update to a final state that refers to no other row ends the turn.
  ends :
      (u : TurnUpdate) (s : TurnState)
      → u.state ≡ some s
      → is_active s ≡ false
      → u.instance_id ≡ none
      → u.workspace_id ≡ none
      → u.expected_head ≡ none
      → Triple HeldR (update_turn r.thread_id r.turn_id u) (λ _. EndedR) (λ _. EndedR)
  ends u s to final i w h = record {
    at = λ db held.
        let (_, ended) =
          update_turn-Ended r.thread_id r.turn_id u (λ x. rw to final) db (rw (i, w, h)) held in
        After-always EndedR (update_turn r.thread_id r.turn_id u db).0
          (update_turn r.thread_id r.turn_id u db).1 ended;
  }

  record_failure-Triple :
      (t : Thrown) → Triple HeldR (record_failure e r t) (λ _. EndedR) (λ _. EndedR)
  record_failure-Triple t = ends (failed_turn e t) TurnState.failed refl refl refl refl refl

  clean_runtime-HeldR :
      (id : Option String) → Triple HeldR (clean_runtime e id) (λ _. HeldR) (λ _. EndedR)
  unfolding clean_runtime
  clean_runtime-HeldR none = Triple-pure tt (λ db h. h)
  clean_runtime-HeldR (some id) =
      Triple-catch {Q' = λ _. HeldR} (delete_turn_runtime e.service e.world id) (mark_lost id)
        (delete-HeldR id) (mark_lost-HeldR id)

  fail_turn-Triple : (t : Thrown) → Triple HeldR (fail_turn e r t) (λ _. EndedR) (λ _. EndedR)
  unfolding fail_turn
  fail_turn-Triple t =
      Triple-bind {R = λ _. HeldR} (clean_runtime e r.instance_id) _
        (clean_runtime-HeldR r.instance_id)
        λ _.
          Triple-bind {R = λ _. EndedR} (record_failure e r t) _ (record_failure-Triple t)
            λ _. Triple-throw t (λ db h. h)

  discard_failed-Triple :
      (id : String) (t : Thrown) → Triple HeldR (discard_failed e r id t) (λ _. HeldR) (λ _. EndedR)
  unfolding discard_failed
  discard_failed-Triple id t =
      Triple-bind {R = λ _. HeldR} (mark_lost id t) _ (mark_lost-HeldR id t) λ _.
        Triple-bind {R = λ _. EndedR} (record_failure e r t) _ (record_failure-Triple t)
          λ _. Triple-throw t (λ db h. h)

  finish_instant-Triple :
      (id : String) → Triple HeldR (finish_instant e r id) (λ _. EndedR) (λ _. EndedR)
  unfolding finish_instant
  finish_instant-Triple id =
      Triple-bind {R = λ _. HeldR}
        (catch (delete_turn_runtime e.service e.world id) (discard_failed e r id)) _
        (Triple-catch {Q' = λ _. HeldR} (delete_turn_runtime e.service e.world id)
          (discard_failed e r id) (delete-HeldR id) (discard_failed-Triple id))
        λ _.
          Triple-bind {R = λ _. EndedR} (update_turn r.thread_id r.turn_id (finished_instant e id))
            _ (ends (finished_instant e id) TurnState.finished refl refl refl refl refl)
            λ _. Triple-pure _ (λ db h. h)

  note-EndedR :
      (t : Thrown) (stored : Option TurnRecord)
      → Keeps EndedR (update_turn r.thread_id r.turn_id (noted t stored))
  note-EndedR t stored = record {
    at = λ db h.
        After-always EndedR (update_turn r.thread_id r.turn_id (noted t stored) db).0
          (update_turn r.thread_id r.turn_id (noted t stored) db).1
          (update_turn-keeps_Ended r.thread_id r.turn_id (noted t stored) refl db h);
  }

  note_cleanup-EndedR : (id : String) (t : Thrown) → Keeps EndedR (note_cleanup r id t)
  unfolding note_cleanup
  note_cleanup-EndedR id t = Keeps-bind (mark_lost id t) _ (mark_lost-EndedR id t) λ _.
      Keeps-bind (gets (λ db. get_turn db r.thread_id r.turn_id)) _ (Keeps-gets _) (note-EndedR t)

  conclude-EndedR :
      (c : TurnCommitResult) (stored : Option TurnRecord) → Keeps EndedR (conclude c stored)
  unfolding conclude
  conclude-EndedR c none = Keeps-throw _
  conclude-EndedR c (some finished) = Keeps-pure _

  after_commit-EndedR : (id : String) (c : TurnCommitResult) → Keeps EndedR (after_commit e r id c)
  unfolding after_commit
  after_commit-EndedR id c =
      Keeps-bind (catch (delete_turn_runtime e.service e.world id) (note_cleanup r id)) _
        (Keeps-catch _ (note_cleanup r id) (delete-EndedR id) (note_cleanup-EndedR id))
        λ _.
          Keeps-bind (gets (λ db. get_turn db r.thread_id r.turn_id)) _ (Keeps-gets _)
            (conclude-EndedR c)

  committed_or_failed-Triple :
      (id : String) (c : Result TurnCommitResult)
      → Triple
          (After (λ _. EndedR) (λ _. HeldR) c)
          (committed_or_failed e r id c)
          (λ _. EndedR)
          (λ _. EndedR)
  unfolding committed_or_failed
  committed_or_failed-Triple id (ok c) = after_commit-EndedR id c
  committed_or_failed-Triple id (err t) = fail_turn-Triple t

  finish_durable-Triple :
      (id : String) (workspace_id expected_head : Option String)
      → Triple HeldR (finish_durable e r id workspace_id expected_head) (λ _. EndedR) (λ _. EndedR)
  unfolding finish_durable
  finish_durable-Triple id (some w) (some h) =
      Triple-bind {R = After (λ _. EndedR) (λ _. HeldR)} _ (committed_or_failed e r id)
        (Triple-attempt _ (
          commit_turn_runtime-Triple (commit_input e r id w h) e.world
            (λ b x. (fair.world.snapshot b x).held) (λ p d. (fair.world.ingest p d).held)
            (λ p. (fair.world.export p).held) e.now e.service))
        (committed_or_failed-Triple id)
  finish_durable-Triple id none h = fail_turn-Triple incomplete_binding
  finish_durable-Triple id (some w) none = fail_turn-Triple incomplete_binding

  by_mode-Triple :
      (id : String) (m : TurnMode) → Triple HeldR (by_mode e r id m) (λ _. EndedR) (λ _. EndedR)
  unfolding by_mode
  by_mode-Triple id SandboxKind.instant = finish_instant-Triple id
  by_mode-Triple id SandboxKind.durable = finish_durable-Triple id r.workspace_id r.expected_head

  after_sessions-Triple :
      (id : String) (c : Result (Unit {0}))
      → Triple HeldR (after_sessions e r id c) (λ _. EndedR) (λ _. EndedR)
  unfolding after_sessions
  after_sessions-Triple id (ok _) = by_mode-Triple id r.mode
  after_sessions-Triple id (err t) = fail_turn-Triple t

  with_runtime-Triple :
      (id : Option String) → Triple HeldR (with_runtime e r id) (λ _. EndedR) (λ _. EndedR)
  unfolding with_runtime
  with_runtime-Triple none = fail_turn-Triple no_runtime
  with_runtime-Triple (some id) =
      Triple-bind {R = λ _. HeldR} (attempt (await (e.close_instance id))) (after_sessions e r id)
        (record { at = λ db h. (fair.sessions id).held db h }) (after_sessions-Triple id)

-- Once a finish has marked a turn FINISHING, it does not settle before the turn is FINISHED or
-- FAILED: whatever the backend, the sessions, the snapshot and the file system answer, and
-- whatever the other tasks do that neither delete the turn nor revive it.
pub finish_open-Ended :
    (e : FinishEnv) (r : TurnRecord) (s : Turns)
    → FairFinish r.thread_id r.turn_id e
    → Held r.thread_id r.turn_id s.db.turns
    → Ended r.thread_id r.turn_id (finish_open e r s).1.db.turns
unfolding finish_open
finish_open-Ended e r s fair h =
    Triple-state (with_runtime e r r.instance_id) (with_runtime-Triple e r fair r.instance_id)
      (e.drained s).db (fair.drained s h)
