-- ===== src/Storage/Export/Order.antt =====
-- src/storage/cfs.ts: the order of names, and that `collectEntries` does not depend on the order in
-- which `readdir` lists them.
use electrosphere.Base.{
  ◌≡◌, ◌≢◌, ◌⊎◌, refl, ap, ◌∙◌, true, false, [], ◌∷◌, arith, Bool-cases, inl, inr,
}
use electrosphere.Base.Bytes.{Bytes}
use electrosphere.Base.Exec.{Result}
use electrosphere.Domain.Errors.{Thrown}
use electrosphere.Storage.Export.Tree.{
  Stats, Directory, unreadable, readable, Names, nothing, name_of, bytes_leb, insert_name,
  sort_directory, sort_names, walk, sorted_entries, collect,
}

bytes_leb_total : (a b : Bytes) → bytes_leb a b ≡ false → bytes_leb b a ≡ true
unfolding bytes_leb
bytes_leb_total [] b h = ground (arith, h)
bytes_leb_total (x ∷ a) [] h = refl
bytes_leb_total (x ∷ a) (y ∷ b) h = ground (arith, h, bytes_leb_total a b)

bytes_leb_antisym : (a b : Bytes) → bytes_leb a b ≡ true → bytes_leb b a ≡ true → a ≡ b
unfolding bytes_leb
bytes_leb_antisym [] [] h k = refl
bytes_leb_antisym [] (y ∷ b) h k = ground (arith, k)
bytes_leb_antisym (x ∷ a) [] h k = ground (arith, h)
bytes_leb_antisym (x ∷ a) (y ∷ b) h k = ground (arith, h, k, bytes_leb_antisym a b)

bytes_leb_trans :
    (a b c : Bytes) → bytes_leb a b ≡ true → bytes_leb b c ≡ true → bytes_leb a c ≡ true
unfolding bytes_leb
bytes_leb_trans [] b c h k = refl
bytes_leb_trans (x ∷ a) [] c h k = ground (arith, h)
bytes_leb_trans (x ∷ a) (y ∷ b) [] h k = ground (arith, k)
bytes_leb_trans (x ∷ a) (y ∷ b) (z ∷ c) h k = ground (arith, h, k, bytes_leb_trans a b c)

-- The same tree, with the names of its directories in another order. Two names of a directory
-- differ.
mutual
  pub data SameDirectory : Directory → Directory → Type 0 where
    unread : (e : Thrown) → SameDirectory (unreadable e) (unreadable e)
    read : (ns ms : Names) → SameNames ns ms → SameDirectory (readable ns) (readable ms)

  pub data SameNames : Names → Names → Type 0 where
    same : (ns : Names) → SameNames ns ns
    keep :
        (name : Bytes) (stats : Result Stats) (d e : Directory) (ns ms : Names)
        → SameDirectory d e
        → SameNames ns ms
        → SameNames (name_of name stats d ns) (name_of name stats e ms)
    swap :
        (a b : Bytes) (s t : Result Stats) (d e : Directory) (ns : Names)
        → a ≢ b
        → SameNames (name_of a s d (name_of b t e ns)) (name_of b t e (name_of a s d ns))
    chain : (ns ms ls : Names) → SameNames ns ms → SameNames ms ls → SameNames ns ls

passed :
    (a b next : Bytes) → bytes_leb a next ≡ true → bytes_leb b next ≡ false → bytes_leb b a ≡ false
passed a b next p q = elim (Bool-cases (bytes_leb b a)) [
  | inl h ↦ absurd (ground (arith, bytes_leb_trans b a next h p, q))
  | inr h ↦ h
]

module _ (a b : Bytes) (s t : Result Stats) (d e : Directory) (differ : a ≢ b) where
  first_or_last :
      ((bytes_leb a b ≡ true) × (bytes_leb b a ≡ false))
      ⊎ ((bytes_leb a b ≡ false) × (bytes_leb b a ≡ true))
  first_or_last = elim (Bool-cases (bytes_leb a b)) [
    | inl h ↦ elim (Bool-cases (bytes_leb b a)) [
      | inl k ↦ absurd (differ (bytes_leb_antisym a b h k))
      | inr k ↦ inl (h, k)
    ]
    | inr h ↦ inr (h, bytes_leb_total a b h)
  ]

  insert_name-swap :
      (ns : Names)
      → insert_name a s d (insert_name b t e ns) ≡ insert_name b t e (insert_name a s d ns)
  unfolding insert_name
  insert_name-swap nothing = elim first_or_last [
    | inl (h, k) ↦ rw (h, k) refl
    | inr (h, k) ↦ rw (h, k) refl
  ]
  insert_name-swap (name_of next u below ns) = elim (Bool-cases (bytes_leb a next)) [
    | inl p ↦ elim (Bool-cases (bytes_leb b next)) [
      | inl q ↦ elim first_or_last [
        | inl (h, k) ↦ rw (p, q, h, k) refl
        | inr (h, k) ↦ rw (p, q, h, k, p) refl
      ]
      | inr q ↦ let k = passed a b next p q in rw (p, q, k, p) refl
    ]
    | inr p ↦ elim (Bool-cases (bytes_leb b next)) [
      | inl q ↦ let h = passed b a next q p in rw (p, q, h, p) refl
      | inr q ↦ rw (p, q, p) (ap (name_of next u below) (insert_name-swap ns))
    ]
  ]

mutual
  unfolding sort_directory

  sort_directory-same : (d e : Directory) → SameDirectory d e → sort_directory d ≡ sort_directory e
  sort_directory-same d e (unread x) = refl
  sort_directory-same d e (read ns ms h) = ap readable (sort_names-same ns ms h)

  sort_names-same : (ns ms : Names) → SameNames ns ms → sort_names ns ≡ sort_names ms
  sort_names-same ns ms (same ls) = refl
  sort_names-same _ _ (keep name stats d e ns ms h k) =
      rw (sort_directory-same d e h, sort_names-same ns ms k) refl
  sort_names-same _ _ (swap a b s t d e ns differ) =
      insert_name-swap a b s t (sort_directory d) (sort_directory e) differ (sort_names ns)
  sort_names-same ns ls (chain _ ms _ h k) = sort_names-same ns ms h ∙ sort_names-same ms ls k

-- What an export or an archive collects, or the error that it meets, does not depend on the order in
-- which the directories list their names.
pub collect-same :
    (check : Bytes → Result (Unit {0})) (d e : Directory)
    → SameDirectory d e
    → collect check d ≡ collect check e
unfolding collect
collect-same check d e h = ap (λ x. sorted_entries (walk check [] x)) (sort_directory-same d e h)
