-- ===== src/Domain/Recovery/Gc.antt =====
-- src/domain/recovery.ts: `gc`, and the statements of src/storage/repository.ts that it alone uses.
-- The marking takes fuel; `Marking` proves that the fuel given is enough.
pub mod Marking
pub mod Spares
use electrosphere.Base.{
  ℕ, zero, suc, ◌+◌, String, ◌≡◌, Bool, true, false, not, ◌&&◌, ◌||◌, Option, none, some, List, [],
  ◌∷◌, ◌++◌, any, map, select, delete_where, reverse, length, ltb, str_eq, option_eq, if◌then◌else◌,
}
use electrosphere.Base.Exec.{
  Result, ok, err, Exec, Await, pure, throw, gets, await, modify, guard, attempt, ◌>>=◌, ◌>>◌,
}
use electrosphere.Domain.Types.{TurnRecord, is_live}
use electrosphere.Domain.Recovery.{RecoveryWorld, cleanup_finished}
use electrosphere.Storage.Database.{
  Commit, Ref, TreeObject, InstanceRecord, Db, is_commit, foreign_key_failed,
}
use electrosphere.Storage.Repository.History.{parent_of, contains}
use electrosphere.Storage.Repository.Instances.{list_instances}

abbrev head_of : Ref → String
head_of r = r.head_commit

abbrev base_of : InstanceRecord → String
base_of i = i.base_commit

-- `listGcRoots`; a set as a list, the first added first.
unfoldable pub list_gc_roots : Db → List String
list_gc_roots db = map head_of db.refs ++ map base_of (list_instances db is_live)

unfoldable pub delete_tree_object : String → Exec Db (Unit {0})
delete_tree_object digest =
    modify (λ db. record db {
      tree_objects = delete_where (λ t. str_eq t.digest digest) db.tree_objects;
    })

-- The rows whose foreign keys refer to the commit.
abbrev pub is_referred : Db → String → Bool
is_referred db id =
    any (λ r. str_eq r.head_commit id) db.refs
    || any (λ i. str_eq i.base_commit id) db.instances
    || any (λ t. option_eq t.expected_head (some id)) db.turns
    || any (λ c. option_eq c.parent_id (some id) && not (str_eq c.id id)) db.commits

unfoldable pub delete_commit : String → Exec Db (Unit {0})
delete_commit id db =
    if any (is_commit id) db.commits && is_referred db id
    then (err foreign_key_failed, db)
    else (ok tt, record db { commits = delete_where (is_commit id) db.commits })

abbrev push_parent : Option String → List String → List String
push_parent none pending = pending
push_parent (some p) pending = p ∷ pending

-- The loop that marks commits. The end of `pending`, where it is popped, stands first.
unfoldable pub mark :
    (fuel : ℕ) → List Commit → (reached : List String) → (pending : List String) → List String
mark zero commits reached pending = reached
mark (suc fuel) commits reached [] = reached
mark (suc fuel) commits reached (id ∷ pending) =
    let again = mark fuel commits reached pending in
    let more = mark fuel commits (id ∷ reached) (push_parent (parent_of commits id) pending) in
    if contains reached id then again else more

-- `reachableCommits`.
unfoldable pub reachable_commits : (roots : List String) → List Commit → List String
reachable_commits roots commits = mark (length roots + length commits) commits [] (reverse roots)

abbrev is_unreachable : List String → Commit → Bool
is_unreachable reached c = not (contains reached c.id)

-- The commits that no root leads to.
unfoldable pub unreachable_commits : Db → List Commit
unreachable_commits db =
    select (is_unreachable (reachable_commits (list_gc_roots db) db.commits)) db.commits

-- `depthOf`: the number of ancestors, or of commits on a cycle.
unfoldable pub depth_of : (fuel : ℕ) → List Commit → (seen : List String) → Option String → ℕ
depth_of zero commits seen current = 0
depth_of (suc fuel) commits seen none = 0
depth_of (suc fuel) commits seen (some current) =
    let rest = depth_of fuel commits (current ∷ seen) (parent_of commits current) in
    if contains seen current then 0 else rest + 1

abbrev pub depth : List Commit → Commit → ℕ
depth commits c = depth_of (length commits + 2) commits [] (parent_of commits c.id)

abbrev pub insert_deep : List Commit → Commit → List Commit → List Commit
insert_deep all c [] = c ∷ []
insert_deep all c (d ∷ ds) =
    if ltb (depth all d) (depth all c) then c ∷ d ∷ ds else d ∷ insert_deep all c ds

-- `sort` by the depth, the deepest first, which keeps the order of equal depths.
abbrev pub sort_deep : (all sorted : List Commit) → List Commit → List Commit
sort_deep all sorted [] = sorted
sort_deep all sorted (c ∷ cs) = sort_deep all (insert_deep all c sorted) cs

-- What the collection awaits: the directory of trees and removals.
pub record GcWorld : Type 0 where
  pub recovery : RecoveryWorld
  pub read_trees : Await Db (List String)
  pub remove : String → Await Db (Unit {0})
  pub directory_of : (workspace_path : String) → String

abbrev pub entries_of : Result (List String) → List String
entries_of (ok entries) = entries
entries_of (err e) = []

-- The entries of the directory that no row tracks.
unfoldable pub remove_untracked : GcWorld → (tracked : List String) → List String → Exec Db ℕ
remove_untracked w tracked [] = pure 0
remove_untracked w tracked (path ∷ paths) =
    if contains tracked path
    then remove_untracked w tracked paths
    else (do await (w.remove path); n ← remove_untracked w tracked paths; pure (n + 1))

unfoldable pub remove_trees : GcWorld → (reachable : List String) → List TreeObject → Exec Db ℕ
remove_trees w reachable [] = pure 0
remove_trees w reachable (t ∷ ts) =
    if contains reachable t.digest then remove_trees w reachable ts else (do
      await (w.remove t.path)
      delete_tree_object t.digest
      n ← remove_trees w reachable ts
      pure (n + 1))

unfoldable pub delete_commits : List Commit → Exec Db ℕ
delete_commits [] = pure 0
delete_commits (c ∷ cs) = do delete_commit c.id; n ← delete_commits cs; pure (n + 1)

unfoldable pub remove_ended : GcWorld → List InstanceRecord → Exec Db (Unit {0})
remove_ended w [] = pure tt
remove_ended w (i ∷ is) = do await (w.remove (w.directory_of i.workspace_path)); remove_ended w is

abbrev pub tree_of : Commit → String
tree_of c = c.tree_digest

-- `gc`, which reads the commits and the roots at once: how many trees and commits it deleted.
unfoldable pub gc : GcWorld → Exec Db (ℕ × ℕ)
gc w = do
  cleanup_finished w.recovery
  commits ← gets (λ db. db.commits)
  roots ← gets list_gc_roots
  unreachable ← gets unreachable_commits
  let reached = reachable_commits roots commits
  tracked ← gets (λ db. map (λ t. t.path) db.tree_objects)
  entries ← attempt (await w.read_trees)
  untracked ← remove_untracked w tracked (entries_of entries)
  trees ← gets (λ db. db.tree_objects)
  removed ← remove_trees w (map tree_of (select (λ c. contains reached c.id) commits)) trees
  deleted ← delete_commits (sort_deep commits [] unreachable)
  ended ← gets (λ db. list_instances db (λ s. not (is_live s)))
  remove_ended w ended
  pure (untracked + removed, deleted)
