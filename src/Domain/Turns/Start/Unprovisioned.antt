-- ===== src/Domain/Turns/Start/Unprovisioned.antt =====
-- A start whose runtime fails before its instance is recorded.
use electrosphere.Base.{◌≡◌, false, some}
use electrosphere.Base.Table.{any-select_first}
use electrosphere.Base.Exec.{err}
use electrosphere.Domain.Errors.{Thrown}
use electrosphere.Domain.Types.{TurnRecord}
use electrosphere.Domain.Turns.Start.{
  StartEnv, StartInput, fail_start, start_runtime, start_created,
}
use electrosphere.Storage.Database.{foreign_key_failed, Db, is_turn, has_instance}
use electrosphere.Storage.Repository.Turns.{get_turn, update_turn}

-- If the runtime of a start throws and leaves the turn recorded, but no instance with the start's
-- identifier, then
-- the update that would record the failure violates the foreign key of the turn's instance. So the
-- start throws that violation in place of the error of the runtime, and the turn's row is as the
-- runtime left it.
pub unprovisioned_start_stays :
    (e : StartEnv) (i : StartInput) (db : Db) (t : Thrown)
    → (start_runtime e i i.request.mode db).0 ≡ err t
    → has_instance (start_runtime e i i.request.mode db).1 e.instance_id ≡ false
    → (r : TurnRecord)
    → get_turn (start_runtime e i i.request.mode db).1 i.thread_id i.turn_id ≡ some r
    → start_created e i db ≡ (err foreign_key_failed, (start_runtime e i i.request.mode db).1)
unfolding start_created fail_start update_turn
unprovisioned_start_stays e i db t failed absent r found = rw (
  failed,
  absent,
  any-select_first (is_turn i.thread_id i.turn_id) (start_runtime e i i.request.mode db).1.turns
      found,
)
