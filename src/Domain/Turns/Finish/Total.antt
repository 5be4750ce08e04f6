-- ===== src/Domain/Turns/Finish/Total.antt =====
-- The whole of `finish`, on an open turn.
use electrosphere.Base.{◌≡◌, refl, true, false, some, any}
use electrosphere.Domain.Types.{TurnRecord, TurnState, is_identifier}
use electrosphere.Domain.Turns.{Turns, TurnKey, key_eq}
use electrosphere.Domain.Turns.Finish.{
  FinishEnv, finish, finish_found, dispatch, begin_finish, to_finishing,
}
use electrosphere.Domain.Turns.Finish.Settles.{FairFinish, finish_open-Ended}
use electrosphere.Storage.Repository.Turns.{get_turn}
use electrosphere.Storage.Repository.Turns.Laws.{Held, Ended, update_turn-Held, update_turn-active}

abbrev key_of : TurnRecord → TurnKey
key_of r = record { thread_id = r.thread_id; turn_id = r.turn_id }

begin_finish-Ended :
    (e : FinishEnv) (r : TurnRecord) (s : Turns)
    → FairFinish r.thread_id r.turn_id e
    → Held r.thread_id r.turn_id s.db.turns
    → get_turn s.db r.thread_id r.turn_id ≡ some r
    → r.state ≡ TurnState.opened
    → any (key_eq (key_of r)) s.finish_promises ≡ false
    → Ended r.thread_id r.turn_id (begin_finish e r s).1.db.turns
unfolding begin_finish
begin_finish-Ended e r s fair h found opened free =
    rw (free, update_turn-active r.thread_id r.turn_id to_finishing s.db r h found (rw opened) refl)
      (finish_open-Ended e (record r { state = TurnState.finishing }) _ fair
        (update_turn-Held r.thread_id r.turn_id to_finishing s.db h))

-- A finish, with valid identifiers, of an open turn that no other finish is ending settles with the turn recorded as
-- FINISHED or FAILED, whatever the awaited calls answer, if the other tasks neither delete the
-- turn nor revive it and the table of turns had its keys.
pub finish-Ended :
    (e : FinishEnv) (r : TurnRecord) (s : Turns)
    → FairFinish r.thread_id r.turn_id e
    → Held r.thread_id r.turn_id s.db.turns
    → is_identifier r.thread_id ≡ true
    → is_identifier r.turn_id ≡ true
    → get_turn s.db r.thread_id r.turn_id ≡ some r
    → r.state ≡ TurnState.opened
    → any (key_eq (key_of r)) s.finish_promises ≡ false
    → Ended r.thread_id r.turn_id (finish e r.thread_id r.turn_id s).1.db.turns
unfolding finish finish_found dispatch
finish-Ended e r s fair h thread turn found opened free =
    rw (thread, turn, found, opened) (begin_finish-Ended e r s fair h found opened free)
