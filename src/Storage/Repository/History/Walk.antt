-- ===== src/Storage/Repository/History/Walk.antt =====
-- The walk along the parents decides `Ancestor`.
use electrosphere.Base.{
  ℕ, zero, suc, ◌+◌, ◌≤◌, ◌<◌, String, ◌≡◌, ◌≢◌, ◌↔◌, ◌⊎◌, refl, true, false, not, Option, none,
  some, List, [], ◌∷◌, arith, select, length, get_or, str_eq, eq_iff, eq_refl, Bool-cases,
  Option-cases, inl, inr,
}
use electrosphere.Storage.Database.{Commit, Db}
use electrosphere.Storage.Repository.History.{
  parent_of, contains, walk, commit_belongs_to_history, Ancestor, itself, parent,
}

-- The commits that are not visited yet.
abbrev fresh : List String → List Commit → ℕ
fresh visited commits = length (select (λ (c : Commit). not (contains visited c.id)) commits)

fresh_le :
    (visited : List String) (x : String) (commits : List Commit)
    → fresh (x ∷ visited) commits ≤ fresh visited commits
fresh_le visited x [] = omega arith
fresh_le visited x (c ∷ cs) = ground (arith, fresh_le visited x cs)

fresh-le-length :
    (visited : List String) (commits : List Commit) → fresh visited commits ≤ length commits
fresh-le-length visited [] = omega arith
fresh-le-length visited (c ∷ cs) = ground (arith, fresh-le-length visited cs)

-- A visit of a commit that has a parent leaves fewer commits to visit.
fresh_lt :
    (visited : List String) (x p : String) (commits : List Commit)
    → contains visited x ≡ false
    → parent_of commits x ≡ some p
    → fresh (x ∷ visited) commits < fresh visited commits
fresh_lt visited x p [] n e = cc
fresh_lt visited x p (c ∷ cs) n e = elim (Bool-cases (str_eq c.id x)) [
  | inl hit ↦ rw ((eq_iff c.id x).0 hit, eq_refl x, n) (omega (arith, fresh_le visited x cs))
  | inr miss ↦ ground (arith, miss, fresh_lt visited x p cs n)
]

module _ (commits : List Commit) (candidate : String) where
  -- A walk that has run off the end of the history finds nothing.
  walk-none : (f : ℕ) (visited : List String) → walk f commits candidate visited none ≢ some true
  unfolding walk
  walk-none zero visited e = cc
  walk-none (suc f) visited e = cc

  walk-Ancestor :
      (f : ℕ) (visited : List String) (current : String)
      → walk f commits candidate visited (some current) ≡ some true
      → Ancestor commits current candidate
  unfolding walk
  walk-Ancestor zero visited current h = cc
  walk-Ancestor (suc f) visited current h = elim (Bool-cases (contains visited current)) [
    | inl old ↦ ground (arith, old)
    | inr new ↦ elim (Bool-cases (str_eq current candidate)) [
      | inl e ↦ rw ((eq_iff current candidate).0 e) (itself candidate)
      | inr e ↦ elim (Option-cases (parent_of commits current)) [
        | inl last ↦ absurd (walk-none f (current ∷ visited) (rw (← last) (ground (arith, new, e))))
        | inr (p, up) ↦
            parent up (walk-Ancestor f (current ∷ visited) p (rw (← up) (ground (arith, new, e))))
      ]
    ]
  ]

  walk_total_none :
      (f : ℕ) (visited : List String) → 0 < f → walk f commits candidate visited none ≢ none
  unfolding walk
  walk_total_none zero visited h = absurd (omega arith)
  walk_total_none (suc f) visited h = λ e. cc

  -- One round at a commit that has not been visited.
  walk_step :
      (f : ℕ) (visited : List String) (x : String)
      → contains visited x ≡ false
      → str_eq x candidate ≡ false
      → walk (suc f) commits candidate visited (some x)
        ≡ walk f commits candidate (x ∷ visited) (parent_of commits x)
  unfolding walk
  walk_step f visited x new e = rw (new, e)

  walk_total :
      (f : ℕ) (visited : List String) (x : String)
      → fresh visited commits + 1 < f
      → walk f commits candidate visited (some x) ≢ none
  unfolding walk
  walk_total zero visited x h = absurd (omega arith)
  walk_total (suc f) visited x h = elim (Bool-cases (contains visited x)) [
    | inl old ↦ λ e. ground (arith, old)
    | inr new ↦ elim (Bool-cases (str_eq x candidate)) [
      | inl found ↦ λ e. ground (arith, new, found)
      | inr other ↦ elim (Option-cases (parent_of commits x)) [
        | inl last ↦ rw (new, other, last) (walk_total_none f (x ∷ visited) (omega arith))
        | inr (p, up) ↦
            rw (new, other, up)
              (walk_total f (x ∷ visited) p (omega (arith, fresh_lt visited x p commits new up)))
      ]
    ]
  ]

  -- Visited commits are not the candidate, and their parents are visited or current.
  abbrev Explored : List String → Option String → Type 0
  Explored visited current =
      (v : String)
      → contains visited v ≡ true
      → (str_eq v candidate ≡ false)
        × ((p : String)
            → parent_of commits v ≡ some p
            → (contains visited p ≡ true) ⊎ (current ≡ some p))

  -- The current commit is visited too, or there is none: nothing visited leads to the candidate.
  not-Ancestor-Explored :
      (visited : List String) (current : Option String)
      → ((p : String) → current ≡ some p → contains visited p ≡ true)
      → Explored visited current
      → {x c : String} → Ancestor commits x c
      → c ≡ candidate
      → contains visited x ≡ true
      → ⊥
  not-Ancestor-Explored visited current closed explored (itself id) e inside =
      ground (arith, (explored id inside).0, eq_iff id candidate)
  not-Ancestor-Explored visited current closed explored (parent {id = x} {p = p} up rest) e inside =
      elim ((explored x inside).1 p up) [
        | inl at ↦ not-Ancestor-Explored visited current closed explored rest e at
        | inr next ↦ not-Ancestor-Explored visited current closed explored rest e (closed p next)
      ]

  Explored-step :
      (visited : List String) (x : String)
      → str_eq x candidate ≡ false
      → Explored visited (some x)
      → Explored (x ∷ visited) (parent_of commits x)
  Explored-step visited x e explored v inside = elim (Bool-cases (str_eq v x)) [
    | inl same ↦ rw ((eq_iff v x).0 same) (e, λ p up. inr up)
    | inr other ↦
        let (differs, onward) = explored v (ground (arith, other)) in
        (
          differs,
          λ p up. elim (onward p up) [
            | inl at ↦ inl (ground (arith, at))
            | inr next ↦ inl (ground (arith, next, eq_iff p x))
          ],
        )
  ]

  walk-not-Ancestor :
      (f : ℕ) (visited : List String) (current : Option String)
      → walk f commits candidate visited current ≡ some false
      → Explored visited current
      → (x : String) → (contains visited x ≡ true) ⊎ (current ≡ some x)
      → ¬ Ancestor commits x candidate
  unfolding walk
  walk-not-Ancestor zero visited current h explored x at a = cc
  walk-not-Ancestor (suc f) visited none h explored x at a =
      not-Ancestor-Explored visited none (λ p e. cc) explored a refl (ground (arith, at))
  walk-not-Ancestor (suc f) visited (some y) h explored x at a =
      elim (Bool-cases (contains visited y)) [
        | inl old ↦
            not-Ancestor-Explored visited (some y) (λ p e. ground (arith, old, e)) explored a refl
              (ground (arith, at, old))
        | inr new ↦ elim (Bool-cases (str_eq y candidate)) [
          | inl found ↦ ground (arith, new, found)
          | inr other ↦
              walk-not-Ancestor f (y ∷ visited) (parent_of commits y) (ground (arith, new, other))
                (Explored-step visited y other explored) x (inl (ground (arith, at, eq_iff x y))) a
        ]
      ]

-- `commitBelongsToHistory` answers true exactly if the candidate is the head or one of the commits
-- that the parents of the head lead to. The fuel of the model never runs out, also where the
-- parents run in a circle.
pub commit_belongs_to_history_iff :
    (db : Db) (head candidate : String)
    → (walk (length db.commits + 2) db.commits candidate [] (some head) ≢ none)
      × ((commit_belongs_to_history db head candidate ≡ true) ↔ Ancestor db.commits head candidate)
unfolding commit_belongs_to_history
commit_belongs_to_history_iff db head candidate = (total, (sound, complete))
  where
    total : walk (length db.commits + 2) db.commits candidate [] (some head) ≢ none
    total =
        walk_total db.commits candidate (length db.commits + 2) [] head
          (omega (arith, fresh-le-length [] db.commits))

    sound :
        get_or (walk (length db.commits + 2) db.commits candidate [] (some head)) false ≡ true
        → Ancestor db.commits head candidate
    sound e = walk-Ancestor db.commits candidate (length db.commits + 2) [] head (ground (arith, e))

    complete :
        Ancestor db.commits head candidate
        → get_or (walk (length db.commits + 2) db.commits candidate [] (some head)) false ≡ true
    complete a =
        elim (Option-cases (walk (length db.commits + 2) db.commits candidate [] (some head))) [
          | inl out ↦ absurd (total out)
          | inr (true, e) ↦ rw e
          | inr (false, e) ↦ absurd (
              walk-not-Ancestor db.commits candidate (length db.commits + 2) [] (some head) e
                (λ v at. cc) head (inr refl) a)
        ]
