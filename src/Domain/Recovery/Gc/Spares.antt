-- ===== src/Domain/Recovery/Gc/Spares.antt =====
-- `gc` of src/domain/recovery.ts as a whole, on the commits that it must keep.
use electrosphere.Base.{
  ℕ, ◌+◌, ◌≡◌, refl, sym, subst, ap, ◌∙◌, String, Bool, true, false, not, ◌&&◌, List, [], ◌∷◌,
  arith, any, map, select, delete_where, str_eq, eq_iff, ltb, Bool-cases, inl, inr,
}
use electrosphere.Base.Exec.{Exec, attempt, await, gets, pure, ◌>>=◌, ◌>>◌}
use electrosphere.Base.Exec.Triple.{
  Keeps, After, After-both, Triple-bind, Triple-state, Keeps-bind, Keeps-pure, Keeps-gets,
  Keeps-await, Keeps-attempt,
}
use electrosphere.Domain.Recovery.{cleanup_finished}
use electrosphere.Domain.Types.{is_live}
use electrosphere.Storage.Repository.Instances.{list_instances}
use electrosphere.Domain.Recovery.Gc.{
  GcWorld, list_gc_roots, unreachable_commits, reachable_commits, depth, insert_deep, sort_deep,
  entries_of, tree_of, delete_tree_object, delete_commit, delete_commits, remove_untracked,
  remove_trees, remove_ended, is_referred, gc,
}
use electrosphere.Domain.Recovery.Gc.Marking.{unreachable_commits-Ancestor}
use electrosphere.Storage.Database.{Commit, Db, InstanceRecord, TreeObject, is_commit}
use electrosphere.Storage.Repository.History.{Ancestor, contains}

any-delete_where :
    (p q : Commit → Bool)
    → ((c : Commit) → p c ≡ true → q c ≡ false)
    → (cs : List Commit) → any p cs ≡ true
    → any p (delete_where q cs) ≡ true
any-delete_where p q apart [] h = h
any-delete_where p q apart (c ∷ cs) h = ground (arith, apart c, any-delete_where p q apart cs)

any-insert_deep :
    (p : Commit → Bool) (all : List Commit) (c : Commit) (cs : List Commit)
    → p c ≡ false
    → any p cs ≡ false
    → any p (insert_deep all c cs) ≡ false
any-insert_deep p all c [] miss none_of = rw miss refl
any-insert_deep p all c (d ∷ ds) miss none_of =
    elim (Bool-cases (ltb (depth all d) (depth all c))) [
      | inl e ↦ rw (e, miss) none_of
      | inr e ↦
          rw e (ground (arith, none_of, any-insert_deep p all c ds miss (ground (arith, none_of))))
    ]

any-sort_deep :
    (p : Commit → Bool) (all sorted cs : List Commit)
    → any p sorted ≡ false
    → any p cs ≡ false
    → any p (sort_deep all sorted cs) ≡ false
any-sort_deep p all sorted [] h none_of = h
any-sort_deep p all sorted (c ∷ cs) h none_of =
    any-sort_deep p all (insert_deep all c sorted) cs
      (any-insert_deep p all c sorted (ground (arith, none_of)) h) (ground (arith, none_of))

other_commit :
    (id candidate : String) (c : Commit)
    → str_eq id candidate ≡ false
    → is_commit candidate c ≡ true
    → is_commit id c ≡ false
other_commit id candidate c other here = elim (Bool-cases (is_commit id c)) [
  | inl e ↦
      let same : id ≡ candidate = sym ((eq_iff c.id id).0 e) ∙ (eq_iff c.id candidate).0 here in
      absurd (ground (arith, other, (eq_iff id candidate).1 same))
  | inr e ↦ e
]

module _ (candidate : String) where
  -- The commit is stored.
  abbrev pub Stored : Db → Type 0
  Stored db = any (is_commit candidate) db.commits ≡ true

  delete_commit-Stored :
      (id : String) → str_eq id candidate ≡ false → Keeps Stored (delete_commit id)
  unfolding delete_commit
  delete_commit-Stored id other = record {
    at = λ db stored. elim (Bool-cases (any (is_commit id) db.commits && is_referred db id)) [
      | inl e ↦ rw e stored
      | inr e ↦ rw e (
          any-delete_where (is_commit candidate) (is_commit id)
            (λ c here. other_commit id candidate c other here) db.commits stored)
    ];
  }

  delete_commits-Stored :
      (cs : List Commit) → any (is_commit candidate) cs ≡ false → Keeps Stored (delete_commits cs)
  unfolding delete_commits
  delete_commits-Stored [] none_of = Keeps-pure _
  delete_commits-Stored (c ∷ cs) none_of =
      Keeps-bind _ _ (delete_commit-Stored c.id (ground (arith, none_of)))
        λ _. Keeps-bind _ _ (delete_commits-Stored cs (ground (arith, none_of))) λ n. Keeps-pure _

  module _ (w : GcWorld)
      (removing : (p : String) (db : Db) → Stored db → Stored ((w.remove p).meanwhile db)) where
    remove_untracked-Stored :
        (tracked paths : List String) → Keeps Stored (remove_untracked w tracked paths)
    unfolding remove_untracked
    remove_untracked-Stored tracked [] = Keeps-pure _
    remove_untracked-Stored tracked (p ∷ paths) = elim (Bool-cases (contains tracked p)) [
      | inl e ↦ rw e (remove_untracked-Stored tracked paths)
      | inr e ↦ rw e (
          Keeps-bind _ _ (Keeps-await (w.remove p) (removing p))
            λ _. Keeps-bind _ _ (remove_untracked-Stored tracked paths) λ n. Keeps-pure _)
    ]

    delete_tree-Stored : (digest : String) → Keeps Stored (delete_tree_object digest)
    unfolding delete_tree_object
    delete_tree-Stored digest = record { at = λ db stored. stored }

    remove_trees-Stored :
        (reachable : List String) (trees : List TreeObject)
        → Keeps Stored (remove_trees w reachable trees)
    unfolding remove_trees
    remove_trees-Stored reachable [] = Keeps-pure _
    remove_trees-Stored reachable (t ∷ ts) = elim (Bool-cases (contains reachable t.digest)) [
      | inl e ↦ rw e (remove_trees-Stored reachable ts)
      | inr e ↦ rw e (
          Keeps-bind _ _ (Keeps-await (w.remove t.path) (removing t.path)) λ _.
            Keeps-bind _ _ (delete_tree-Stored t.digest)
              λ _. Keeps-bind _ _ (remove_trees-Stored reachable ts) λ n. Keeps-pure _)
    ]

    remove_ended-Stored : (is : List InstanceRecord) → Keeps Stored (remove_ended w is)
    unfolding remove_ended
    remove_ended-Stored [] = Keeps-pure _
    remove_ended-Stored (i ∷ is) =
        Keeps-bind _ _ (Keeps-await (w.remove (w.directory_of i.workspace_path)) (removing _))
          λ _. remove_ended-Stored is

abbrev behind_cleanup : GcWorld → Db → Exec Db (ℕ × ℕ)
behind_cleanup w t = do
  entries ← attempt (await w.read_trees)
  untracked ← remove_untracked w (map (λ o. o.path) t.tree_objects) (entries_of entries)
  trees ← gets (λ db. db.tree_objects)
  let reached = reachable_commits (list_gc_roots t) t.commits
  removed ← remove_trees w (map tree_of (select (λ c. contains reached c.id) t.commits)) trees
  deleted ← delete_commits (sort_deep t.commits [] (unreachable_commits t))
  ended ← gets (λ db. list_instances db (λ s. not (is_live s)))
  remove_ended w ended
  pure (untracked + removed, deleted)

-- What stands behind the cleanup, at the state that it left.
behind_cleanup-Stored :
    (w : GcWorld) (t : Db) (candidate : String)
    → any (is_commit candidate) (unreachable_commits t) ≡ false
    → ((db : Db) → Stored candidate db → Stored candidate (w.read_trees.meanwhile db))
    → ((p : String) (db : Db) → Stored candidate db → Stored candidate ((w.remove p).meanwhile db))
    → Keeps (Stored candidate) (behind_cleanup w t)
behind_cleanup-Stored w t candidate spared reading removing =
    let tracked = map (λ o. o.path) t.tree_objects in
    let reached = reachable_commits (list_gc_roots t) t.commits in
    let reachable = map tree_of (select (λ c. contains reached c.id) t.commits) in
    let unreachable = sort_deep t.commits [] (unreachable_commits t) in
    let apart =
      any-sort_deep (is_commit candidate) t.commits [] (unreachable_commits t) refl spared in
    Keeps-bind _ _ (Keeps-attempt _ (Keeps-await w.read_trees reading)) λ entries.
      Keeps-bind _ _ (remove_untracked-Stored candidate w removing tracked (entries_of entries))
        λ untracked. Keeps-bind _ _ (Keeps-gets (λ db. db.tree_objects)) λ trees.
          Keeps-bind _ _ (remove_trees-Stored candidate w removing reachable trees) λ removed.
            Keeps-bind _ _ (delete_commits-Stored candidate unreachable apart) λ deleted.
              Keeps-bind _ _ (Keeps-gets (λ db. list_instances db (λ s. not (is_live s)))) λ ended.
                Keeps-bind _ _ (remove_ended-Stored candidate w removing ended)
                  λ _. Keeps-pure (untracked + removed, deleted)

-- The collection spares history. Take the state behind the cleanup with which it starts: a stored
-- commit to which the head of a ref, or the base of an instance that still runs, leads there by
-- parents is still stored when the collection has returned or thrown, provided that no other task
-- deletes it while the collection awaits the directory of trees or a removal.
pub gc-Stored :
    (w : GcWorld) (s : Db) (root candidate : String)
    → contains (list_gc_roots (cleanup_finished w.recovery s).1) root ≡ true
    → Ancestor (cleanup_finished w.recovery s).1.commits root candidate
    → any (is_commit candidate) (cleanup_finished w.recovery s).1.commits ≡ true
    → ((db : Db)
        → any (is_commit candidate) db.commits ≡ true
        → any (is_commit candidate) (w.read_trees.meanwhile db).commits ≡ true)
    → ((p : String) (db : Db)
        → any (is_commit candidate) db.commits ≡ true
        → any (is_commit candidate) ((w.remove p).meanwhile db).commits ≡ true)
    → any (is_commit candidate) (gc w s).1.commits ≡ true
unfolding gc
gc-Stored w s root candidate is_root history stored reading removing =
    let t = (cleanup_finished w.recovery s).1 in
    let spared = unreachable_commits-Ancestor t root candidate is_root history in
    let behind = behind_cleanup-Stored w t candidate spared reading removing in
    Triple-state _
      (Triple-bind {R = λ _ u. u ≡ t} {Q = λ _. Stored candidate} (cleanup_finished w.recovery) _
        (record {
          at = λ u same.
              After-both (λ _ v. v ≡ t) (λ _. Stored candidate) _ _
                (λ _. ap (λ v. (cleanup_finished w.recovery v).1) same)
                (λ _.
                  subst (λ v. Stored candidate (cleanup_finished w.recovery v).1) (sym same)
                    stored);
        })
        λ _. record {
          at = λ u same.
              subst
                (λ v.
                  After (λ _. Stored candidate) (λ _. Stored candidate) (behind_cleanup w v v).0
                    (behind_cleanup w v v).1)
                (sym same) (behind.at t stored);
        })
      s refl
