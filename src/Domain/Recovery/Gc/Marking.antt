-- ===== src/Domain/Recovery/Gc/Marking.antt =====
-- The marking of `gc` of src/domain/recovery.ts reaches what the roots lead to.
use electrosphere.Base.{
  ℕ, zero, suc, ◌+◌, ◌≤◌, ◌<◌, ◌≡◌, refl, sym, ap, subst, String, Bool, true, false, not, ◌||◌,
  Option, none, some, List, [], ◌∷◌, arith, any, select, select_first, length, reverse, str_eq,
  eq_iff, Bool-cases, Option-cases, inl, inr,
}
use mathlib.Core.List.{reverse_aux}
use electrosphere.Base.Table.{any-select_first}
use electrosphere.Storage.Database.{Commit, Db, is_commit}
use electrosphere.Storage.Repository.History.{parent_of, contains, Ancestor, itself, parent}
use electrosphere.Domain.Recovery.Gc.{
  mark, push_parent, reachable_commits, list_gc_roots, unreachable_commits, is_unreachable,
}

none-some : {A : Type 0} (p : A) → none ≡ some p → ⊥
none-some p e = ground (arith, e)

some_inj : {A : Type 0} (q p : A) → some q ≡ some p → q ≡ p
some_inj q p e = ground (arith, e)

module _ (commits : List Commit) where
  -- The commits that are not reached yet.
  abbrev fresh : List String → List Commit → ℕ
  fresh reached cs = length (select (λ c. not (contains reached c.id)) cs)

  fresh-le :
      (reached : List String) (id : String) (cs : List Commit)
      → fresh (id ∷ reached) cs ≤ fresh reached cs
  fresh-le reached id [] = omega arith
  fresh-le reached id (c ∷ cs) = ground (arith, fresh-le reached id cs)

  fresh-lt :
      (reached : List String) (id : String) (cs : List Commit)
      → contains reached id ≡ false
      → any (is_commit id) cs ≡ true
      → fresh (id ∷ reached) cs < fresh reached cs
  fresh-lt reached id [] new known = absurd (ground (arith, known))
  fresh-lt reached id (c ∷ cs) new known = elim (Bool-cases (str_eq c.id id)) [
    | inl here ↦
        let same : c.id ≡ id = (eq_iff c.id id).0 here in
        let new_c : contains reached c.id ≡ false =
          subst (λ x. contains reached x ≡ false) (sym same) new in
        rw (here, new_c) (omega (arith, fresh-le reached id cs))
    | inr other ↦ elim (Bool-cases (contains reached c.id)) [
      | inl old ↦ rw (other, old) (fresh-lt reached id cs new (rw other at known))
      | inr unseen ↦
          rw (other, unseen) (omega (arith, fresh-lt reached id cs new (rw other at known)))
    ]
  ]

  -- What is reached or waits to be.
  abbrev held : List String → List String → String → Bool
  held reached pending x = contains reached x || contains pending x

  -- The parent of what is reached is reached or waits to be.
  record Closed (reached pending : List String) : Type 0 where
    parents :
        (id p : String)
        → contains reached id ≡ true
        → parent_of commits id ≡ some p
        → held reached pending p ≡ true

  record Marked (reached pending marked : List String) : Type 0 where
    all : (x : String) → held reached pending x ≡ true → contains marked x ≡ true
    closed : Closed marked []

  known_parent : (id p : String) → parent_of commits id ≡ some p → any (is_commit id) commits ≡ true
  known_parent id p e = elim (Option-cases (select_first (is_commit id) commits)) [
    | inl missing ↦ absurd (none-some p (rw missing at e))
    | inr (c, found) ↦ any-select_first (is_commit id) commits found
  ]

  module _ (id : String) (reached pending : List String) where
    held-skip :
        contains reached id ≡ true
        → (x : String) → held reached (id ∷ pending) x ≡ true
        → held reached pending x ≡ true
    held-skip old x h = elim (Bool-cases (str_eq x id)) [
      | inl same ↦
          let known : contains reached x ≡ true =
            subst (λ y. contains reached y ≡ true) (sym ((eq_iff x id).0 same)) old in
          rw known refl
      | inr other ↦ rw other at h
    ]

    held-move :
        (x : String) → held reached (id ∷ pending) x ≡ true → held (id ∷ reached) pending x ≡ true
    held-move x h = elim (Bool-cases (str_eq x id)) [
      | inl same ↦ rw same refl
      | inr other ↦ rw other (rw other at h)
    ]

    held-push :
        (o : Option String) (x : String)
        → held reached pending x ≡ true
        → held reached (push_parent o pending) x ≡ true
    held-push none x h = h
    held-push (some p) x h = elim (Bool-cases (contains reached x)) [
      | inl old ↦ rw old refl
      | inr new ↦ rw new (ground (arith, rw new at h))
    ]

    held-parent :
        (o : Option String) (p : String)
        → o ≡ some p
        → held reached (push_parent o pending) p ≡ true
    held-parent none p e = absurd (none-some p e)
    held-parent (some q) p e =
        let same : str_eq p q ≡ true = (eq_iff p q).1 (sym (some_inj q p e)) in ground (arith, same)

    Closed-skip :
        contains reached id ≡ true → Closed reached (id ∷ pending) → Closed reached pending
    Closed-skip old closed = record {
      parents = λ k p known e. held-skip old p (closed.parents k p known e);
    }

  Closed-add :
      (id : String) (reached pending : List String)
      → Closed reached (id ∷ pending)
      → Closed (id ∷ reached) (push_parent (parent_of commits id) pending)
  Closed-add id reached pending closed = record {
    parents = λ k p known e. elim (Bool-cases (str_eq k id)) [
      | inl same ↦
          held-parent id (id ∷ reached) pending (parent_of commits id) p
            (subst (λ x. parent_of commits x ≡ some p) ((eq_iff k id).0 same) e)
      | inr other ↦
          held-push id (id ∷ reached) pending (parent_of commits id) p
            (held-move id reached pending p (closed.parents k p (rw other at known) e))
    ];
  }

  Marked-skip :
      (id : String) (reached pending marked : List String)
      → contains reached id ≡ true
      → Marked reached pending marked
      → Marked reached (id ∷ pending) marked
  Marked-skip id reached pending marked old m = record {
    all = λ x h. m.all x (held-skip id reached pending old x h);
    closed = m.closed;
  }

  Marked-add :
      (id : String) (reached pending marked : List String)
      → Marked (id ∷ reached) (push_parent (parent_of commits id) pending) marked
      → Marked reached (id ∷ pending) marked
  Marked-add id reached pending marked m = record {
    all = λ x h. m.all x (
        held-push id (id ∷ reached) pending (parent_of commits id) x
          (held-move id reached pending x h));
    closed = m.closed;
  }

  held-nil :
      (reached : List String) (x : String) → held reached [] x ≡ true → contains reached x ≡ true
  held-nil reached x h = elim (Bool-cases (contains reached x)) [
    | inl old ↦ old
    | inr new ↦ absurd (ground (arith, rw new at h))
  ]

  Marked-done : (reached : List String) → Closed reached [] → Marked reached [] reached
  Marked-done reached closed = record { all = λ x h. held-nil reached x h; closed = closed }

  -- The work that is left.
  abbrev left : List String → List String → ℕ
  left reached pending = length pending + fresh reached commits

  left-add :
      (id : String) (reached pending : List String) (o : Option String)
      → parent_of commits id ≡ o
      → contains reached id ≡ false
      → left (id ∷ reached) (push_parent o pending) < left reached (id ∷ pending)
  left-add id reached pending none e new = omega (arith, fresh-le reached id commits)
  left-add id reached pending (some p) e new =
      omega (arith, fresh-lt reached id commits new (known_parent id p e))

  mark-Marked :
      (fuel : ℕ) (reached pending : List String)
      → left reached pending ≤ fuel
      → Closed reached pending
      → Marked reached pending (mark fuel commits reached pending)
  unfolding mark
  mark-Marked zero reached [] enough closed = Marked-done reached closed
  mark-Marked zero reached (id ∷ pending) enough closed = absurd (omega (arith, enough))
  mark-Marked (suc fuel) reached [] enough closed = Marked-done reached closed
  mark-Marked (suc fuel) reached (id ∷ pending) enough closed =
      elim (Bool-cases (contains reached id)) [
        | inl old ↦ rw old (
            Marked-skip id reached pending _ old (
              mark-Marked fuel reached pending (omega (arith, enough))
                (Closed-skip id reached pending old closed)))
        | inr new ↦ rw new (
            Marked-add id reached pending _ (
              mark-Marked fuel (id ∷ reached) (push_parent (parent_of commits id) pending)
                (omega (arith, enough, left-add id reached pending _ refl new))
                (Closed-add id reached pending closed)))
      ]

  marked_ancestors :
      (marked : List String) (id candidate : String)
      → Closed marked []
      → Ancestor commits id candidate
      → contains marked id ≡ true
      → contains marked candidate ≡ true
  marked_ancestors marked id candidate closed (itself _) h = h
  marked_ancestors marked id candidate closed (parent {p = p} e rest) h =
      let reached : contains marked _ ≡ true = held-nil marked _ (closed.parents id _ h e) in
      marked_ancestors marked _ candidate closed rest reached

any-reverse_aux :
    (p : String → Bool) (xs ys : List String)
    → (any p xs || any p ys) ≡ true
    → any p (reverse_aux xs ys) ≡ true
any-reverse_aux p [] ys h = h
any-reverse_aux p (x ∷ xs) ys h = any-reverse_aux p xs (x ∷ ys) (ground (arith, h))

length-reverse_aux : (xs ys : List String) → length (reverse_aux xs ys) ≡ length xs + length ys
length-reverse_aux [] ys = omega arith
length-reverse_aux (x ∷ xs) ys = omega (arith, length-reverse_aux xs (x ∷ ys))

fresh-all : (commits cs : List Commit) → fresh commits [] cs ≡ length cs
fresh-all commits [] = refl
fresh-all commits (c ∷ cs) = ap suc (fresh-all commits cs)

reachable-Marked :
    (roots : List String) (commits : List Commit)
    → Marked commits [] (reverse roots) (reachable_commits roots commits)
unfolding reachable_commits
reachable-Marked roots commits =
    mark-Marked commits (length roots + length commits) [] (reverse roots)
      (omega (arith, length-reverse_aux roots [], fresh-all commits commits))
      (record { parents = λ id p known e. absurd (ground (arith, known)) })

any_all_select :
    (p q : Commit → Bool) (cs : List Commit)
    → ((c : Commit) → p c ≡ true → q c ≡ false)
    → any p (select q cs) ≡ false
any_all_select p q [] out = refl
any_all_select p q (c ∷ cs) out = elim (Bool-cases (p c)) [
  | inl hit ↦ rw (out c hit) (any_all_select p q cs out)
  | inr miss ↦ elim (Bool-cases (q c)) [
    | inl e ↦ rw (e, miss) (any_all_select p q cs out)
    | inr e ↦ rw e (any_all_select p q cs out)
  ]
]

-- A commit to which a root of the collection leads by parents is not among the unreachable commits,
-- whatever the table of commits is.
pub unreachable_commits-Ancestor :
    (db : Db) (root candidate : String)
    → contains (list_gc_roots db) root ≡ true
    → Ancestor db.commits root candidate
    → any (is_commit candidate) (unreachable_commits db) ≡ false
unfolding unreachable_commits
unreachable_commits-Ancestor db root candidate is_root history =
    let reached = reachable_commits (list_gc_roots db) db.commits in
    let marked = reachable-Marked (list_gc_roots db) db.commits in
    let root_pending : contains (reverse (list_gc_roots db)) root ≡ true =
      any-reverse_aux (str_eq root) (list_gc_roots db) [] (ground (arith, is_root)) in
    let found =
      marked_ancestors db.commits reached root candidate marked.closed history
        (marked.all root root_pending) in
    any_all_select (is_commit candidate) (is_unreachable reached) db.commits
      (λ c here. rw ((eq_iff c.id candidate).0 here, found) refl)
