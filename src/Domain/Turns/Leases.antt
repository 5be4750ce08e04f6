-- ===== src/Domain/Turns/Leases.antt =====
-- The counts of leases, which decide when a finish may go on.
pub mod Acquire
use electrosphere.Base.{
  ℕ, ◌+◌, String, ◌≡◌, refl, ap, subst, sym, ◌∙◌, Bool, true, false, ◌&&◌, none, some, List, [],
  ◌∷◌, arith, any, select, select_first, delete_where, length, get_or, ltb, ◌==◌, eq_iff, eq_refl,
  Bool-cases, Option-cases, ◌⊎◌, inl, inr, if◌then◌else◌,
}
use electrosphere.Base.Exec.{ok, Result-cases}
use electrosphere.Base.Table.{Distinct, any-select_first, select_first-some}
use electrosphere.Domain.Types.{TurnRecord, is_identifier}
use electrosphere.Storage.Database.{is_turn}
use electrosphere.Storage.Repository.Turns.{get_turn}
use electrosphere.Domain.Turns.{
  bind_open, bound_found, BoundTurn, TurnKey, key_eq, turn_key, Lease, Turns, count_of, set_count,
  delete_count, is_lease, acquire, remaining, drop_last, release, resolve, bound, wait_for_leases,
}

abbrev pub holds : TurnKey → Lease → Bool
holds k l = key_eq (turn_key l.turn) k

-- How many active leases a turn has.
abbrev pub leases_of : TurnKey → List Lease → ℕ
leases_of k ls = length (select (holds k) ls)

abbrev pub same_lease : Lease → Lease → Bool
same_lease a b = is_lease a.id b

-- The counts count the active leases, and no two leases have the same identifier.
pub record Counted (s : Turns) : Type 0 where
  pub counts : (k : TurnKey) → get_or (count_of k s.lease_counts) 0 ≡ leases_of k s.active_leases
  pub distinct : Distinct same_lease s.active_leases

key_eq_trans : (a b c : TurnKey) → key_eq a b ≡ true → key_eq a c ≡ key_eq b c
key_eq_trans a b c h = rw (
  (eq_iff a.thread_id b.thread_id).0 (ground (arith, h)),
  (eq_iff a.turn_id b.turn_id).0 (ground (arith, h)),
)

key_eq_join : (a b c : TurnKey) → key_eq a c ≡ true → key_eq b c ≡ true → key_eq a b ≡ true
key_eq_join a b c h k = ground (
  arith,
  h,
  k,
  eq_iff a.thread_id c.thread_id,
  eq_iff a.turn_id c.turn_id,
  eq_iff b.thread_id c.thread_id,
  eq_iff b.turn_id c.turn_id,
  eq_iff a.thread_id b.thread_id,
  eq_iff a.turn_id b.turn_id,
)

count_of-set_count :
    (k j : TurnKey) (n : ℕ) (m : List (TurnKey × ℕ))
    → count_of k (set_count j n m) ≡ (if key_eq j k then some n else count_of k m)
count_of-set_count k j n [] = refl
count_of-set_count k j n ((i, x) ∷ m) = elim (Bool-cases (key_eq i j)) [
  | inl e ↦ rw (e, key_eq_trans i j k e) (ground arith)
  | inr e ↦ rw e (ground (arith, count_of-set_count k j n m, key_eq_join i j k, e))
]

count_of-delete_count :
    (k j : TurnKey) (m : List (TurnKey × ℕ))
    → count_of k (delete_count j m) ≡ (if key_eq j k then none else count_of k m)
count_of-delete_count k j [] = ground arith
count_of-delete_count k j ((i, x) ∷ m) = elim (Bool-cases (key_eq i j)) [
  | inl e ↦ rw (e, key_eq_trans i j k e) (ground (arith, count_of-delete_count k j m))
  | inr e ↦ rw e (ground (arith, count_of-delete_count k j m, key_eq_join i j k, e))
]

delete_where-none :
    (id : String) (ls : List Lease)
    → any (is_lease id) ls ≡ false
    → delete_where (is_lease id) ls ≡ ls
delete_where-none id [] h = refl
delete_where-none id (l ∷ ls) h = ground (arith, h, delete_where-none id ls)

-- A lease that is dropped was one of its turn's, and of no other turn's.
leases_of-delete :
    (k : TurnKey) (l : Lease) (ls : List Lease)
    → Distinct same_lease ls
    → select_first (is_lease l.id) ls ≡ some l
    → leases_of k ls ≡ leases_of k (delete_where (is_lease l.id) ls) + (if holds k l then 1 else 0)
leases_of-delete k l [] d h = ground arith
leases_of-delete k l (x ∷ ls) d h = elim (Bool-cases (is_lease l.id x)) [
  | inl hit ↦
      let same : x ≡ l = ground (arith, hit, h) in
      let others : any (is_lease l.id) ls ≡ false =
        subst (λ y. any (is_lease y.id) ls ≡ false) same d.0 in
      rw (hit, delete_where-none l.id ls others, same) (ground arith)
  | inr miss ↦ rw miss (ground (arith, leases_of-delete k l ls d.1, h, miss))
]

-- Where the counts are right, `waitForLeases` settles at once exactly if the turn has no active lease.
pub wait_for_leases_iff :
    (k : TurnKey) (s : Turns)
    → Counted s
    → (wait_for_leases k s).0 ≡ (leases_of k s.active_leases == 0)
unfolding wait_for_leases
wait_for_leases_iff k s c = ground (arith, c.counts k)

any-delete_where :
    (p q : Lease → Bool) (ls : List Lease) → any p ls ≡ false → any p (delete_where q ls) ≡ false
any-delete_where p q [] h = refl
any-delete_where p q (l ∷ ls) h = ground (arith, h, any-delete_where p q ls)

Distinct-delete_where :
    (q : Lease → Bool) (ls : List Lease)
    → Distinct same_lease ls
    → Distinct same_lease (delete_where q ls)
Distinct-delete_where q [] d = tt
Distinct-delete_where q (l ∷ ls) d = elim (Bool-cases (q l)) [
  | inl e ↦ rw e (Distinct-delete_where q ls d.1)
  | inr e ↦ rw e (any-delete_where (same_lease l) q ls d.0, Distinct-delete_where q ls d.1)
]

key_eq_eq : (a b : TurnKey) → key_eq a b ≡ true → a ≡ b
key_eq_eq a b h =
    ap (λ (t : String × String). record { thread_id = t.0; turn_id = t.1 })
      (ground (arith, h, eq_iff a.thread_id b.thread_id, eq_iff a.turn_id b.turn_id))

pub key_eq_refl : (k : TurnKey) → key_eq k k ≡ true
key_eq_refl k = rw (eq_refl k.thread_id, eq_refl k.turn_id)

-- The table of counts with the count of `j` set to that of the leases `ls`.
pub count_of-set_leases :
    (j k : TurnKey) (ls : List Lease) (m : List (TurnKey × ℕ))
    → (key_eq j k ≡ false → get_or (count_of k m) 0 ≡ leases_of k ls)
    → get_or (count_of k (set_count j (leases_of j ls) m)) 0 ≡ leases_of k ls
count_of-set_leases j k ls m others = elim (Bool-cases (key_eq j k)) [
  | inl e ↦
      rw (count_of-set_count k j (leases_of j ls) m, e) (ap (λ i. leases_of i ls) (key_eq_eq j k e))
  | inr e ↦ rw (count_of-set_count k j (leases_of j ls) m, e) (others e)
]

count_of-delete_leases :
    (j k : TurnKey) (ls : List Lease) (m : List (TurnKey × ℕ))
    → leases_of j ls ≡ 0
    → (key_eq j k ≡ false → get_or (count_of k m) 0 ≡ leases_of k ls)
    → get_or (count_of k (delete_count j m)) 0 ≡ leases_of k ls
count_of-delete_leases j k ls m gone others = elim (Bool-cases (key_eq j k)) [
  | inl e ↦
      rw (count_of-delete_count k j m, e)
        (sym (subst (λ i. leases_of i ls ≡ 0) (key_eq_eq j k e) gone))
  | inr e ↦ rw (count_of-delete_count k j m, e) (others e)
]

module _ (l : Lease) (s : Turns) (c : Counted s)
    (held : select_first (is_lease l.id) s.active_leases ≡ some l) where
  abbrev left : List Lease
  left = delete_where (is_lease l.id) s.active_leases

  remaining-leases_of : remaining (turn_key l.turn) s ≡ leases_of (turn_key l.turn) left
  remaining-leases_of =
      let own = key_eq_refl (turn_key l.turn) in
      ground (
        arith,
        own,
        c.counts (turn_key l.turn),
        leases_of-delete (turn_key l.turn) l s.active_leases c.distinct held,
      )

  -- The other turns keep their leases.
  others :
      (k : TurnKey)
      → key_eq (turn_key l.turn) k ≡ false
      → get_or (count_of k s.lease_counts) 0 ≡ leases_of k left
  others k away =
      ground (arith, away, c.counts k, leases_of-delete k l s.active_leases c.distinct held)

  active : any (is_lease l.id) s.active_leases ≡ true
  active = any-select_first (is_lease l.id) s.active_leases held

  release-more :
      (leases_of (turn_key l.turn) left == 0) ≡ false
      → release false l s ≡ (
        false,
        record s {
          active_leases = left;
          lease_counts =
              set_count (turn_key l.turn) (leases_of (turn_key l.turn) left) s.lease_counts;
        },
      )
  unfolding release drop_last
  release-more more = rw (active, remaining-leases_of, pos)
    where
      pos : ltb 0 (leases_of (turn_key l.turn) left) ≡ true
      pos = ground (arith, more)

  release-last :
      (leases_of (turn_key l.turn) left == 0) ≡ true
      → release false l s ≡ (
        any (key_eq (turn_key l.turn)) s.lease_waiters,
        record s {
          active_leases = left;
          lease_counts = delete_count (turn_key l.turn) s.lease_counts;
          lease_waiters = delete_where (key_eq (turn_key l.turn)) s.lease_waiters;
        },
      )
  unfolding release drop_last
  release-last last = rw (active, remaining-leases_of, pos)
    where
      pos : ltb 0 (leases_of (turn_key l.turn) left) ≡ false
      pos = ground (arith, last)

  left-Distinct : Distinct same_lease left
  left-Distinct = Distinct-delete_where (is_lease l.id) s.active_leases c.distinct

  -- A release of an active lease leaves the counts right, if they were right.
  pub release-Counted : Counted (release false l s).1
  release-Counted = elim (Bool-cases (leases_of (turn_key l.turn) left == 0)) [
    | inl last ↦ rw (release-last last) (record {
      counts = λ k.
          count_of-delete_leases (turn_key l.turn) k left s.lease_counts (ground (arith, last))
            (others k);
      distinct = left-Distinct;
    })
    | inr more ↦ rw (release-more more) (record {
      counts = λ k. count_of-set_leases (turn_key l.turn) k left s.lease_counts (others k);
      distinct = left-Distinct;
    })
  ]

  -- Where the counts are right, a release of an active lease wakes a finish exactly if one waits
  -- for the turn and no other lease of the turn is active.
  pub release_wakes :
      (release false l s).0
      ≡ ((leases_of (turn_key l.turn) left == 0) && any (key_eq (turn_key l.turn)) s.lease_waiters)
  release_wakes = elim (Bool-cases (leases_of (turn_key l.turn) left == 0)) [
    | inl last ↦ ap (λ r. r.0) (release-last last) ∙ rw last
    | inr more ↦ ap (λ r. r.0) (release-more more) ∙ rw more
  ]
