-- ===== src/Storage/Repository/History.antt =====
-- src/storage/repository.ts: `commitBelongsToHistory`. The walk takes fuel; `Walk` proves that the
-- fuel given is enough for any table, cyclic ones included.
pub mod Walk
use electrosphere.Base.{
  ℕ, zero, suc, ◌+◌, String, ◌≡◌, Bool, true, false, Option, none, some, List, [], ◌∷◌, any, length,
  select_first, get_or, str_eq, if◌then◌else◌,
}
use electrosphere.Storage.Database.{Commit, Db, is_commit}

abbrev parent_found : Option Commit → Option String
parent_found none = none
parent_found (some c) = c.parent_id

abbrev pub parent_of : List Commit → String → Option String
parent_of commits id = parent_found (select_first (is_commit id) commits)

abbrev pub contains : List String → String → Bool
contains visited id = any (str_eq id) visited

-- `while (current && !visited.has(current))`; `none` means that the fuel ran out.
pub walk :
    ℕ
    → List Commit
    → (candidate : String) → (visited : List String) → (current : Option String) → Option Bool
walk zero commits candidate visited current = none
walk (suc fuel) commits candidate visited none = some false
walk (suc fuel) commits candidate visited (some current) =
    let rest = walk fuel commits candidate (current ∷ visited) (parent_of commits current) in
    if contains visited current
    then some false
    else if str_eq current candidate
    then some true
    else rest

unfoldable pub commit_belongs_to_history : Db → (head : String) → (candidate : String) → Bool
unfolding walk
commit_belongs_to_history db head candidate =
    get_or (walk (length db.commits + 2) db.commits candidate [] (some head)) false

-- A commit, its parent, the parent of that one, and so on.
pub data Ancestor (commits : List Commit) : String → String → Type 0 where
  itself : (id : String) → Ancestor commits id id
  parent :
      {id p candidate : String}
      → parent_of commits id ≡ some p
      → Ancestor commits p candidate
      → Ancestor commits id candidate
