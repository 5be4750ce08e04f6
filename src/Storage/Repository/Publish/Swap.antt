-- ===== src/Storage/Repository/Publish/Swap.antt =====
-- The compare-and-swap of `publishTurnCommit`, and its roll-back.
use mathlib.Core.Option
use electrosphere.Base.{
  ℕ, String, ◌≡◌, ◌≢◌, refl, Bool, true, Option, none, some, List, arith, any, update_where,
  select_first, eq_iff, if◌then◌else◌, ◌⊎◌,
}
use electrosphere.Base.Exec.{ok}
use electrosphere.Base.Table.{
  Distinct, select_first-update_where, select_first-Distinct, select_first-some,
}
use electrosphere.Storage.Database.{Ref, Db, is_ref}
use electrosphere.Storage.Repository.{get_ref}
use electrosphere.Storage.Repository.Publish.{
  PublishInput, is_expected, is_finishing, advance, finish_turn, publish_turn_commit,
}

-- A publication that does not report success leaves the database as it was.
pub publish_atomic :
    (now : ℕ) (i : PublishInput) (db : Db)
    → (publish_turn_commit now i db).0 ≢ ok true
    → (publish_turn_commit now i db).1 ≡ db
unfolding publish_turn_commit
publish_atomic now i db h = ground arith

pub publish_refs :
    (now : ℕ) (i : PublishInput) (db : Db)
    → (publish_turn_commit now i db).0 ≡ ok true
    → (any (is_expected i) db.refs ≡ true)
      × ((publish_turn_commit now i db).1.refs ≡ update_where (is_expected i) (advance i) db.refs)
      × (any (is_finishing i) db.turns ≡ true)
      × ((publish_turn_commit now i db).1.turns
          ≡ update_where (is_finishing i) (finish_turn now i) db.turns)
unfolding publish_turn_commit
publish_refs now i db h = ground arith

abbrev pub same_ref : Ref → Ref → Bool
same_ref a b = is_ref a.workspace_id a.name b

same_ref_key :
    (w n : String) (a b : Ref) → is_ref w n a ≡ true → is_ref w n b ≡ true → same_ref a b ≡ true
same_ref_key w n a b ha hb = ground (
  arith,
  eq_iff a.workspace_id w,
  eq_iff a.name n,
  eq_iff b.workspace_id w,
  eq_iff b.name n,
  eq_iff b.workspace_id a.workspace_id,
  eq_iff b.name a.name,
)

-- The ref that a successful publication saw, and its image.
expected_head_found :
    (i : PublishInput) (refs : List Ref)
    → Distinct same_ref refs
    → any (is_expected i) refs ≡ true
    → (r : Ref) × (select_first (is_ref i.workspace_id "main") refs ≡ some r)
      × (is_expected i r ≡ true)
expected_head_found i refs d h =
    select_first-Distinct same_ref (is_ref i.workspace_id "main") (is_expected i)
      (λ r e. ground arith) (same_ref_key i.workspace_id "main") refs d h

module _ (i : PublishInput) (refs : List Ref) where
  swapped_main :
      (r : Ref)
      → select_first (is_ref i.workspace_id "main") refs ≡ some r
      → is_expected i r ≡ true
      → select_first (is_ref i.workspace_id "main") (update_where (is_expected i) (advance i) refs)
        ≡ some (record r { head_commit = i.commit.id })
  swapped_main r e x = rw (
    select_first-update_where (is_ref i.workspace_id "main") (is_expected i) (advance i) (λ _. refl)
        refs,
    e,
    x,
  )

  -- A ref under another key is not the one that is swapped.
  keeps_other :
      (w n : String)
      → (w ≢ i.workspace_id) ⊎ (n ≢ "main")
      → (o : Option Ref) → select_first (is_ref w n) refs ≡ o
      → Option.map (λ r. if is_expected i r then advance i r else r) o ≡ o
  keeps_other w n other none e = refl
  keeps_other w n other (some r) e = ground (
    arith,
    select_first-some (is_ref w n) refs e,
    eq_iff r.workspace_id w,
    eq_iff r.workspace_id i.workspace_id,
    eq_iff r.name n,
    eq_iff r.name "main",
  )

  swapped_other :
      (w n : String)
      → (w ≢ i.workspace_id) ⊎ (n ≢ "main")
      → select_first (is_ref w n) (update_where (is_expected i) (advance i) refs)
        ≡ select_first (is_ref w n) refs
  swapped_other w n other =
      rw (select_first-update_where (is_ref w n) (is_expected i) (advance i) (λ _. refl) refs)
        (keeps_other w n other _ refl)

-- A publication that reports success found `main` of the workspace at the expected head and moved
-- it to the new commit, where no two refs have the same key.
pub publish_advances :
    (now : ℕ) (i : PublishInput) (db : Db)
    → Distinct same_ref db.refs
    → (publish_turn_commit now i db).0 ≡ ok true
    → (r : Ref) × (get_ref db i.workspace_id "main" ≡ some r)
      × (r.head_commit ≡ i.expected_head)
      × (get_ref (publish_turn_commit now i db).1 i.workspace_id "main"
          ≡ some (record r { head_commit = i.commit.id }))
publish_advances now i db d h =
    let (found, refs', _, _) = publish_refs now i db h in
    let (r, e, x) = expected_head_found i db.refs d found in
    (
      r,
      e,
      ground (arith, eq_iff r.head_commit i.expected_head),
      rw refs' (swapped_main i db.refs r e x),
    )

-- A publication that reports success moves no ref but `main` of its workspace.
pub publish_keeps_others :
    (now : ℕ) (i : PublishInput) (db : Db)
    → (publish_turn_commit now i db).0 ≡ ok true
    → (w n : String) → (w ≢ i.workspace_id) ⊎ (n ≢ "main")
    → get_ref (publish_turn_commit now i db).1 w n ≡ get_ref db w n
publish_keeps_others now i db h w n other =
    let (_, refs', _, _) = publish_refs now i db h in rw refs' (swapped_other i db.refs w n other)
