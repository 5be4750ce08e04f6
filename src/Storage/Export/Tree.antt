-- ===== src/Storage/Export/Tree.antt =====
-- src/storage/cfs.ts: `collectEntries`. A directory is what `readdir` and `lstat` answer on it: an
-- error, or its names with what is found behind them. A name is one part of a path, as `readdir`
-- gives it, so that the path relative to the root is the names with `/` between them.
use electrosphere.Base.{ℕ, Bool, true, false, List, [], ◌∷◌, ◌++◌, length, ltb, ◌==◌, if◌then◌else◌}
use electrosphere.Base.Bytes.{Bytes}
use electrosphere.Base.Exec.{Result, ok, err}
use electrosphere.Base.Paths.{slash}
use electrosphere.Domain.Errors.{Thrown}
use electrosphere.Storage.Archive.{validate_relative_path}

pub data FileKind : Type 0 where
  directory file symbolic_link other : FileKind

-- The fields of `BigIntStats` that the code reads, with the three tests of its kind as one field.
pub record Stats : Type 0 where
  pub kind : FileKind
  pub mode : ℕ
  pub mtime_ns : ℕ
  pub size : ℕ
  pub nlink : ℕ
  pub dev : ℕ
  pub ino : ℕ

mutual
  pub data Directory : Type 0 where
    unreadable : Thrown → Directory
    readable : Names → Directory

  pub data Names : Type 0 where
    nothing : Names
    name_of : (name : Bytes) → (stats : Result Stats) → (below : Directory) → Names → Names

pub record Collected : Type 0 where
  pub path : Bytes
  pub stats : Stats

-- `Buffer.compare(a, b) <= 0`.
unfoldable pub bytes_leb : Bytes → Bytes → Bool
bytes_leb [] ys = true
bytes_leb (x ∷ xs) [] = false
bytes_leb (x ∷ xs) (y ∷ ys) = if ltb x y then true else if x == y then bytes_leb xs ys else false

unfoldable pub insert_name : Bytes → Result Stats → Directory → Names → Names
insert_name name stats below nothing = name_of name stats below nothing
insert_name name stats below (name_of next stats' below' names) =
    let rest = insert_name name stats below names in
    if bytes_leb name next
    then name_of name stats below (name_of next stats' below' names)
    else name_of next stats' below' rest

-- Every directory with its names in order, as `names.sort` has them.
unfoldable mutual
  pub sort_directory : Directory → Directory
  sort_directory (unreadable e) = unreadable e
  sort_directory (readable names) = readable (sort_names names)

  pub sort_names : Names → Names
  sort_names nothing = nothing
  sort_names (name_of name stats below names) =
      insert_name name stats (sort_directory below) (sort_names names)

unfoldable pub relative_path : (at : Bytes) → (name : Bytes) → Bytes
relative_path at name = if length at == 0 then name else at ++ (slash ∷ name)

abbrev pub with_entries : List Collected → Result (List Collected) → Result (List Collected)
with_entries before (ok after) = ok (before ++ after)
with_entries before (err e) = err e

abbrev pub then_entries :
    Result (List Collected) → Result (List Collected) → Result (List Collected)
then_entries (ok before) after = with_entries before after
then_entries (err e) after = err e

abbrev pub entry_found :
    (path : Bytes) → Stats → FileKind → (below : Result (List Collected)) → Result (List Collected)
entry_found path found FileKind.directory below =
    with_entries (record { path = path; stats = found } ∷ []) below
entry_found path found _ below = ok (record { path = path; stats = found } ∷ [])

abbrev pub entry_at :
    Result (Unit {0})
    → (path : Bytes) → Result Stats
    → (below : Result (List Collected)) → Result (List Collected)
entry_at (err e) path stats below = err e
entry_at (ok _) path (err e) below = err e
entry_at (ok _) path (ok found) below = entry_found path found found.kind below

-- `check` is what a path must pass.
module _ (check : Bytes → Result (Unit {0})) where
  -- The entry of one name and what `walk` finds below it.
  unfoldable pub walk_name :
      (path : Bytes) → Result Stats → (below : Result (List Collected)) → Result (List Collected)
  walk_name path stats below = entry_at (check path) path stats below

  -- `walk`, on the directory at the path.
  unfoldable mutual
    pub walk : (at : Bytes) → Directory → Result (List Collected)
    walk at (unreadable e) = err e
    walk at (readable names) = walk_names at names

    pub walk_names : (at : Bytes) → Names → Result (List Collected)
    walk_names at nothing = ok []
    walk_names at (name_of name stats below names) =
        then_entries (walk_name (relative_path at name) stats (walk (relative_path at name) below))
          (walk_names at names)

unfoldable pub insert_entry : Collected → List Collected → List Collected
insert_entry e [] = e ∷ []
insert_entry e (f ∷ es) =
    let rest = insert_entry e es in if bytes_leb e.path f.path then e ∷ f ∷ es else f ∷ rest

-- `entries.sort` by the bytes of the paths.
unfoldable pub sort_entries : List Collected → List Collected
sort_entries [] = []
sort_entries (e ∷ es) = insert_entry e (sort_entries es)

abbrev pub sorted_entries : Result (List Collected) → Result (List Collected)
sorted_entries (ok es) = ok (sort_entries es)
sorted_entries (err e) = err e

unfoldable pub collect :
    (check : Bytes → Result (Unit {0})) → (root : Directory) → Result (List Collected)
collect check root = sorted_entries (walk check [] (sort_directory root))

abbrev pub collect_entries : (root : Directory) → Result (List Collected)
collect_entries root = collect validate_relative_path root
