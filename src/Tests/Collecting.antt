-- ===== src/Tests/Collecting.antt =====
-- The theorem on the garbage collection at one small database.
use electrosphere.Base.{String, ◌≡◌, refl, Bool, true, false, none, some, [], ◌∷◌, any}
use electrosphere.Domain.Types.{TurnState}
use electrosphere.Base.Exec.{Await, ok}
use electrosphere.Domain.Recovery.{cleanup_finished}
use electrosphere.Domain.Recovery.Gc.{GcWorld, list_gc_roots, gc}
use electrosphere.Domain.Recovery.Gc.Spares.{gc-Stored}
use electrosphere.Storage.Database.{Db, Commit, is_commit}
use electrosphere.Storage.Repository.History.{itself, parent}
use electrosphere.Tests.Publishing.{store}

abbrev commit : String → Bool → Commit
commit id has_parent = record {
  id = id;
  tree_digest = "t";
  contract_digest = "k";
  parent_id = elim has_parent [ true ↦ some "c0" | false ↦ none ];
}

-- The ref of the workspace leads to c1, whose parent is c0; nothing leads to c2.
abbrev collected : Db
collected = record (store TurnState.opened) {
  commits = commit "c0" false ∷ commit "c1" true ∷ commit "c2" true ∷ [];
  refs = record { workspace_id = "w"; name = "main"; head_commit = "c1" } ∷ [];
}

abbrev untouched : {A : Type 0} → A → Await Db A
untouched a = record { outcome = ok a; meanwhile = λ db. db }

-- Nothing waits to be cleaned up, and the directory of trees is empty.
abbrev world : GcWorld
world = record {
  recovery = record { destroy = λ backend handle. untouched tt; clear_staging = untouched tt };
  read_trees = untouched [];
  remove = λ path. untouched tt;
  directory_of = λ path. path;
}

gc-Stored_example : any (is_commit "c0") (gc world collected).1.commits ≡ true
unfolding list_gc_roots cleanup_finished
gc-Stored_example =
    gc-Stored world collected "c1" "c0" refl (parent refl (itself "c0")) refl (λ db stored. stored)
      (λ p db stored. stored)
