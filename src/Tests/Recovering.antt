-- ===== src/Tests/Recovering.antt =====
-- The theorem on recovery after a daemon that stopped during a turn.
use electrosphere.Base.{◌≡◌, refl, false, any, str_eq, Bool-cases, inl, inr}
use electrosphere.Base.Exec.{ok, err}
use electrosphere.Domain.Errors.{plain_error}
use electrosphere.Domain.Types.{TurnState}
use electrosphere.Domain.Recovery.{RecoveryWorld, recover}
use electrosphere.Domain.Recovery.Ends.{Alone, Unique, active_turn, live, recover_ends}
use electrosphere.Tests.Publishing.{store}

abbrev world : RecoveryWorld
world = record {
  clear_staging = record { outcome = ok tt; meanwhile = λ db. db };
  destroy = λ b h. record { outcome = err (plain_error "destroy failed"); meanwhile = λ db. db };
}

world-Alone : Alone world
world-Alone = record { cleared = refl; staging = λ db. refl; backends = λ b h db. refl }

one_active-Unique : Unique (store TurnState.finishing).turns
one_active-Unique t = elim (Bool-cases (str_eq "thread" t)) [
  | inl e ↦ rw e refl
  | inr e ↦ rw e refl
]

recover_ends_example :
    ((recover 9 world (store TurnState.finishing)).0 ≡ ok tt)
    × (any active_turn (recover 9 world (store TurnState.finishing)).1.turns ≡ false)
    × (any live (recover 9 world (store TurnState.finishing)).1.instances ≡ false)
    × ((recover 9 world (store TurnState.finishing)).1.refs ≡ (store TurnState.finishing).refs)
    × ((recover 9 world (store TurnState.finishing)).1.commits
        ≡ (store TurnState.finishing).commits)
recover_ends_example =
    recover_ends 9 world (store TurnState.finishing) world-Alone one_active-Unique
