-- ===== src/Tests/Leasing.antt =====
-- The theorems on leases at one leased turn.
use electrosphere.Base.{
  ◌≡◌, refl, false, ◌&&◌, ◌==◌, some, [], ◌∷◌, any, delete_where, Bool-cases, inl, inr,
}
use electrosphere.Domain.Types.{SandboxKind, TurnState}
use electrosphere.Domain.Turns.{
  BoundTurn, TurnKey, Lease, Turns, key_eq, is_lease, acquire, release, wait_for_leases,
}
use electrosphere.Domain.Turns.Leases.{
  Counted, leases_of, release-Counted, release_wakes, wait_for_leases_iff,
}
use electrosphere.Domain.Turns.Leases.Acquire.{acquire-Counted}
use electrosphere.Tests.Publishing.{store}

abbrev pub bound_turn : BoundTurn
bound_turn = record {
  thread_id = "thread";
  turn_id = "turn";
  mode = SandboxKind.durable;
  instance_id = "i";
  workspace_id = some "w";
  expected_head = some "c0";
}

abbrev turn_key : TurnKey
turn_key = record { thread_id = "thread"; turn_id = "turn" }

abbrev lease : Lease
lease = record { id = "lease"; turn = bound_turn }

-- One lease, for which a finish waits.
abbrev pub leased : Turns
leased = record {
  db = store TurnState.opened;
  active_leases = lease ∷ [];
  lease_counts = (turn_key, 1) ∷ [];
  lease_waiters = turn_key ∷ [];
  start_promises = [];
  finish_promises = [];
  closing = false;
}

leased-Counted : Counted leased
leased-Counted = record {
  counts = λ k. elim (Bool-cases (key_eq turn_key k)) [ inl e ↦ rw e refl | inr e ↦ rw e refl ];
  distinct = (refl, tt);
}

acquire-Counted_example : Counted (acquire "second" "thread" "turn" leased).1
acquire-Counted_example = acquire-Counted "second" "thread" "turn" leased leased-Counted refl

release-Counted_example : Counted (release false lease leased).1
release-Counted_example = release-Counted lease leased leased-Counted refl

release_wakes_example : (release false lease leased).0 ≡ (
    (leases_of turn_key (delete_where (is_lease "lease") leased.active_leases) == 0)
    && any (key_eq turn_key) leased.lease_waiters)
release_wakes_example = release_wakes lease leased leased-Counted refl

wait_for_leases_iff_example :
    (wait_for_leases turn_key leased).0 ≡ (leases_of turn_key leased.active_leases == 0)
wait_for_leases_iff_example = wait_for_leases_iff turn_key leased leased-Counted
