-- ===== src/Base/Paths.antt =====
-- Relative paths as texts, and absolute paths as their components: a resolved path's text is `/`
-- before each component, so that one text starts with another and `/` where one list of components
-- starts with the other.
use electrosphere.Base.{
  ℕ, ◌≡◌, refl, sym, ◌∙◌, ap, Bool, true, false, ◌&&◌, ◌||◌, List, [], ◌∷◌, ◌++◌, arith, any,
  length, ◌==◌, if◌then◌else◌, append_assoc, append-nil, Bool-cases, inl, inr,
}
use electrosphere.Base.Bytes.{Bytes, bytes_eq, bytes_eq_refl, starts_with, split}

abbrev pub slash : ℕ
slash = 47

abbrev pub dot : Bytes
dot = 46 ∷ []

abbrev pub dot_dot : Bytes
dot_dot = 46 ∷ 46 ∷ []

-- A part that is empty, `.` or `..`.
unfoldable pub is_unsafe_part : Bytes → Bool
is_unsafe_part p = bytes_eq p dot || bytes_eq p dot_dot || length p == 0

abbrev pub AbsolutePath : Type 0
AbsolutePath = List Bytes

abbrev pub drop_last : AbsolutePath → AbsolutePath
drop_last [] = []
drop_last (a ∷ []) = []
drop_last (a ∷ b ∷ path) = a ∷ drop_last (b ∷ path)

-- `dirname` of a resolved path.
abbrev pub dirname : AbsolutePath → AbsolutePath
dirname path = drop_last path

unfoldable pub enter : AbsolutePath → Bytes → AbsolutePath
enter path part =
    if length part == 0 || bytes_eq part dot
    then path
    else if bytes_eq part dot_dot
    then drop_last path
    else path ++ (part ∷ [])

abbrev pub walk : AbsolutePath → List Bytes → AbsolutePath
walk path [] = path
walk path (part ∷ parts) = walk (enter path part) parts

-- `resolve` of a resolved path and a text.
unfoldable pub resolve : AbsolutePath → Bytes → AbsolutePath
resolve base path = walk (if starts_with (slash ∷ []) path then [] else base) (split slash path)

-- `path === root || path.startsWith(root + sep)`.
abbrev pub is_within : (root : AbsolutePath) → (path : AbsolutePath) → Bool
is_within [] path = true
is_within (a ∷ root) [] = false
is_within (a ∷ root) (b ∷ path) = bytes_eq a b && is_within root path

pub is_within-append : (root path : AbsolutePath) → is_within root (root ++ path) ≡ true
is_within-append [] path = refl
is_within-append (a ∷ root) path = rw (bytes_eq_refl a) (is_within-append root path)

enter_safe :
    (path : AbsolutePath) (part : Bytes)
    → is_unsafe_part part ≡ false
    → enter path part ≡ path ++ (part ∷ [])
unfolding is_unsafe_part enter
enter_safe path part h = ground (arith, h)

walk_safe :
    (path : AbsolutePath) (parts : List Bytes)
    → any is_unsafe_part parts ≡ false
    → walk path parts ≡ path ++ parts
walk_safe path [] h = sym (append-nil path)
walk_safe path (part ∷ parts) h = rw (enter_safe path part (ground (arith, h))) (
    walk_safe (path ++ (part ∷ [])) parts (ground (arith, h)) ∙ append_assoc path (part ∷ []) parts)

-- A path without unsafe parts resolves to its parts below the base.
pub resolve_safe :
    (base : AbsolutePath) (path : Bytes)
    → starts_with (slash ∷ []) path ≡ false
    → any is_unsafe_part (split slash path) ≡ false
    → resolve base path ≡ base ++ split slash path
unfolding resolve
resolve_safe base path relative safe = rw relative (walk_safe base (split slash path) safe)

pub drop_last-append :
    (base : AbsolutePath) (part : Bytes) (parts : List Bytes)
    → drop_last (base ++ (part ∷ parts)) ≡ base ++ drop_last (part ∷ parts)
drop_last-append [] part parts = refl
drop_last-append (a ∷ []) part parts = refl
drop_last-append (a ∷ b ∷ base) part parts = ap (◌∷◌ a) (drop_last-append (b ∷ base) part parts)

-- The directory of a proper path below the root is within the root.
pub is_within-dirname :
    (root : AbsolutePath) (part : Bytes) (parts : List Bytes)
    → is_within root (dirname (root ++ (part ∷ parts))) ≡ true
is_within-dirname root part parts =
    rw (drop_last-append root part parts) (is_within-append root (drop_last (part ∷ parts)))

pub split_cons : (path : Bytes) → (p : Bytes) × ((ps : List Bytes) × (split slash path ≡ p ∷ ps))
split_cons [] = ([], ([], refl))
split_cons (c ∷ path) = elim (Bool-cases (c == slash)) [
  | inl e ↦ ([], (split slash path, rw e refl))
  | inr e ↦ let (p, (ps, h)) = split_cons path in (c ∷ p, (ps, rw (e, h) refl))
]

pub is_within_refl : (path : AbsolutePath) → is_within path path ≡ true
is_within_refl [] = refl
is_within_refl (a ∷ path) = rw (bytes_eq_refl a) (is_within_refl path)

-- The empty path resolves to the base.
pub resolve_nil : (root : AbsolutePath) → is_within root (resolve root []) ≡ true
unfolding resolve enter
resolve_nil root = is_within_refl root

pub resolve_within :
    (root : AbsolutePath) (path : Bytes)
    → starts_with (slash ∷ []) path ≡ false
    → any is_unsafe_part (split slash path) ≡ false
    → is_within root (resolve root path) ≡ true
resolve_within root path relative safe =
    rw (resolve_safe root path relative safe) (is_within-append root (split slash path))
