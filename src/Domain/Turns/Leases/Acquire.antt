-- ===== src/Domain/Turns/Leases/Acquire.antt =====
-- What an acquire and a release leave, and that an acquire keeps the counts of leases right.
use electrosphere.Base.{
  ◌+◌, String, ◌≡◌, refl, ap, sym, ◌∙◌, Bool, true, false, List, [], ◌∷◌, arith, any, delete_where,
  get_or, ltb, eq_iff, Bool-cases, Option-cases, ◌⊎◌, inl, inr,
}
use electrosphere.Base.Exec.{ok, err, Result-cases}
use electrosphere.Base.Table.{select_first-some}
use electrosphere.Domain.Types.{TurnRecord, is_identifier}
use electrosphere.Storage.Database.{is_turn}
use electrosphere.Storage.Repository.Turns.{get_turn}
use electrosphere.Domain.Turns.{
  bind_open, bound_found, BoundTurn, TurnKey, key_eq, turn_key, Lease, Turns, count_of, set_count,
  is_lease, acquire, remaining, drop_last, release, resolve, bound,
}
use electrosphere.Domain.Errors.{ErrorCode, Thrown, throws}
use electrosphere.Domain.Turns.Leases.{holds, leases_of, Counted, key_eq_refl, count_of-set_leases}

module _ {A : Type 0} where
  any-delete_where : (p : A → Bool) (xs : List A) → any p (delete_where p xs) ≡ false
  any-delete_where p [] = refl
  any-delete_where p (x ∷ xs) = ground (arith, any-delete_where p xs)

-- No active lease has the identifier.
abbrev pub Unleased : String → Turns → Type 0
Unleased id s = any (is_lease id) s.active_leases ≡ false

pub release-Unleased : (l : Lease) (s : Turns) → Unleased l.id (release false l s).1
unfolding release drop_last
release-Unleased l s = elim (Bool-cases (any (is_lease l.id) s.active_leases)) [
  | inr gone ↦ rw gone gone
  | inl active ↦
      let gone = any-delete_where (is_lease l.id) s.active_leases in
      rw active (elim (Bool-cases (ltb 0 (remaining (turn_key l.turn) s))) [
        | inl more ↦ rw more gone
        | inr last ↦ rw last gone
      ])
]

-- A turn that is bound has the identifiers of its record.
bound-key :
    (r : TurnRecord) (b : BoundTurn)
    → bound r ≡ ok b
    → (b.thread_id ≡ r.thread_id) × (b.turn_id ≡ r.turn_id)
unfolding bound bind_open
bound-key r b h = elim (Option-cases r.instance_id) [
  | inl e ↦ ground (arith, e, h)
  | inr (i, e) ↦ (ground (arith, e, h), ground (arith, e, h))
]

resolve-key :
    (thread_id turn_id : String) (s : Turns) (b : BoundTurn)
    → (resolve thread_id turn_id s).0 ≡ ok b
    → (b.thread_id ≡ thread_id) × (b.turn_id ≡ turn_id)
unfolding resolve
resolve-key thread_id turn_id s b h = elim (Option-cases (get_turn s.db thread_id turn_id)) [
  | inl e ↦ ground (arith, ap (bound_found) e, h)
  | inr (r, e) ↦
      let found = select_first-some (is_turn thread_id turn_id) s.db.turns e in
      let (t, u) = bound-key r b (sym (ap (bound_found) e) ∙ h) in
      (
        t ∙ (eq_iff r.thread_id thread_id).0 (ground (arith, found)),
        u ∙ (eq_iff r.turn_id turn_id).0 (ground (arith, found)),
      )
]

module _ (id thread_id turn_id : String) (s : Turns) where
  abbrev key : TurnKey
  key = record { thread_id = thread_id; turn_id = turn_id }

  abbrev pub leased : BoundTurn → Turns
  leased b = record s {
    active_leases = record { id = id; turn = b } ∷ s.active_leases;
    lease_counts = set_count key (get_or (count_of key s.lease_counts) 0 + 1) s.lease_counts;
  }

  -- An acquire is refused and leaves the state as it was, or it adds a lease of the turn.
  pub acquire-cases :
      ((e : Thrown) × (acquire id thread_id turn_id s ≡ (err e, s)))
      ⊎ ((b : BoundTurn) × (b.thread_id ≡ thread_id)
          × (b.turn_id ≡ turn_id)
          × ((resolve thread_id turn_id s).0 ≡ ok b)
          × (acquire id thread_id turn_id s ≡ (ok (record { id = id; turn = b }), leased b)))
  unfolding acquire resolve
  acquire-cases = elim (Bool-cases s.closing) [
    | inl closing ↦ inl (throws ErrorCode.turn_closed "Turn service is closing", rw closing refl)
    | inr going ↦ elim (Bool-cases (is_identifier thread_id)) [
      | inr bad ↦
          inl (throws ErrorCode.invalid_argument "threadId is invalid", rw (going, bad) refl)
      | inl thread ↦ elim (Bool-cases (is_identifier turn_id)) [
        | inr bad ↦
            inl
              (throws ErrorCode.invalid_argument "turnId is invalid", rw (going, thread, bad) refl)
        | inl turn ↦ elim (Result-cases (bound_found (get_turn s.db thread_id turn_id))) [
          | inr (e, failed) ↦ inl (e, rw (going, thread, turn, failed) refl)
          | inl (b, found) ↦
              let (t, u) = resolve-key thread_id turn_id s b found in
              inr (b, t, u, found, rw (going, thread, turn, found) refl)
        ]
      ]
    ]
  ]

-- The counts after a lease of the turn `j` was added.
count_of-leased :
    (j k : TurnKey) (l : Lease) (s : Turns)
    → Counted s
    → turn_key l.turn ≡ j
    → get_or (count_of k (set_count j (get_or (count_of j s.lease_counts) 0 + 1) s.lease_counts)) 0
      ≡ leases_of k (l ∷ s.active_leases)
count_of-leased j k l s c own =
    let hit : holds j l ≡ true = ap (λ i. key_eq i j) own ∙ key_eq_refl j in
    let more : get_or (count_of j s.lease_counts) 0 + 1 ≡ leases_of j (l ∷ s.active_leases) =
      ground (arith, c.counts j, hit) in
    rw more (
      count_of-set_leases j k (l ∷ s.active_leases) s.lease_counts
        λ away. ground (arith, c.counts k, ap (λ i. key_eq i k) own ∙ away))

-- An acquire, which may be refused, leaves the counts right, if they were right and the new
-- lease's identifier is that of no active lease.
pub acquire-Counted :
    (id thread_id turn_id : String) (s : Turns)
    → Counted s
    → any (is_lease id) s.active_leases ≡ false
    → Counted (acquire id thread_id turn_id s).1
acquire-Counted id thread_id turn_id s c fresh = elim (acquire-cases id thread_id turn_id s) [
  | inl (e, refused) ↦ rw refused c
  | inr (b, t, u, _, more) ↦ rw more (record {
    counts = λ k.
        count_of-leased (record { thread_id = thread_id; turn_id = turn_id }) k
          (record { id = id; turn = b }) s c (λ i. record { thread_id = t i; turn_id = u i });
    distinct = (fresh, c.distinct);
  })
]
