-- ===== src/Domain/Turns/Closing.antt =====
-- src/domain/turn-service.ts: `close` and `closeAll`.
use electrosphere.Base.{String, Bool, true, false, Option, none, some, List, [], ◌∷◌, ◌++◌}
use electrosphere.Base.Exec.{
  Result, ok, err, Exec, pure, throw, gets, modify, catch, attempt, ◌>>=◌, ◌>>◌,
}
use electrosphere.Domain.Errors.{ErrorCode, Thrown, plain_error, throws, to_service_error}
use electrosphere.Domain.Types.{TurnState, TurnRecord}
use electrosphere.Domain.Sandbox.{delete_turn_runtime}
use electrosphere.Domain.Turns.{Turns, on_db}
use electrosphere.Domain.Turns.Finish.{FinishEnv, mark_lost, finish}
use electrosphere.Storage.Database.{Db}
use electrosphere.Storage.Repository.Turns.{TurnUpdate, no_update, list_turns, update_turn}

abbrev failure {ℓ} : {A : Type ℓ} → Result A → List Thrown
failure (ok a) = []
failure (err e) = e ∷ []

finish_each : FinishEnv → List TurnRecord → Exec Turns (List Thrown)
finish_each e [] = pure []
finish_each e (r ∷ rs) = do
  finished ← attempt (finish e r.thread_id r.turn_id)
  rest ← finish_each e rs
  pure (failure finished ++ rest)

abbrev closed_update : FinishEnv → TurnUpdate
closed_update e = record no_update {
  state = some TurnState.failed;
  error_json = some (
      some
        (to_service_error (throws ErrorCode.turn_closed "Turn service closed during active turn")));
  finished_at = some (some e.now);
}

-- The runtime of a turn that could not finish; a failure is reported and marks the instance LOST.
destroy_runtime : FinishEnv → Option String → Exec Db (List Thrown)
destroy_runtime e none = pure []
destroy_runtime e (some id) =
    catch (do delete_turn_runtime e.service e.world id; pure [])
      (λ t. do mark_lost id t; pure (t ∷ []))

fail_each : FinishEnv → List TurnRecord → Exec Db (List Thrown)
unfolding destroy_runtime
fail_each e [] = pure []
fail_each e (r ∷ rs) = do
  destroyed ← destroy_runtime e r.instance_id
  update_turn r.thread_id r.turn_id (closed_update e)
  rest ← fail_each e rs
  pure (destroyed ++ rest)

abbrev is_opened : TurnState → Bool
is_opened TurnState.opened = true
is_opened _ = false

abbrev is_stuck : TurnState → Bool
is_stuck TurnState.starting = true
is_stuck TurnState.finishing = true
is_stuck _ = false

report : List Thrown → Exec Turns (Unit {0})
report [] = pure tt
report (t ∷ ts) = throw (plain_error "Failed to close all turns")

-- What `closeAll` waits for: the starts under way, and then the finishes under way with their
-- failures.
pub record Settling : Type 0 where
  pub starts : Turns → Turns
  pub finishes : Turns → Turns
  pub finish_failures : List Thrown

-- `close`, at its first call; a later call returns the same promise.
unfoldable pub close : FinishEnv → Settling → Exec Turns (Unit {0})
unfolding finish_each fail_each report
close e w = do
  modify (λ s. record s { closing = true })
  modify w.starts
  opened ← gets (λ s. list_turns s.db is_opened)
  failures ← finish_each e opened
  modify w.finishes
  stuck ← gets (λ s. list_turns s.db is_stuck)
  more ← on_db (fail_each e stuck)
  report (failures ++ (w.finish_failures ++ more))
