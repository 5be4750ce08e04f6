-- ===== src/Mcp/Paths/Safe.antt =====
-- What `normalizeWorkspacePath` of src/mcp/server.ts returns.
use electrosphere.Base.{
  ℕ, ◌≡◌, ◌⊎◌, refl, subst, codes, or_false, false_or, Bool, true, false, not, ◌||◌, none, some, [],
  ◌∷◌, length, arith, ◌==◌, Option-cases, Bool-cases, inl, inr, if◌then◌else◌,
}
use electrosphere.Base.Bytes.{
  Bytes, bytes_eq, bytes_eq_iff, includes, includes_text, starts_with, strip,
}
use electrosphere.Base.Exec.{Result-cases, ok}
use electrosphere.Base.Paths.{
  AbsolutePath, slash, dot, resolve_within, resolve_nil, is_unsafe_part, resolve, is_within,
}
use electrosphere.Mcp.Paths.{
  workspace, workspace_prefix, is_root, has_mark, relative_to_workspace, has_unsafe_part,
  check_parts, check_pattern, normalize_workspace_path, normalize_workspace_pattern,
}

includes-strip :
    (c : ℕ) (p s r : Bytes) → strip p s ≡ some r → includes c s ≡ false → includes c r ≡ false
includes-strip c [] s r e h = ground (arith, e, h)
includes-strip c (a ∷ p) [] r e h = ground (arith, e)
includes-strip c (a ∷ p) (b ∷ s) r e h = elim (Bool-cases (a == b)) [
  | inl same ↦ includes-strip c p s r (ground (arith, e, same)) (ground (arith, h))
  | inr other ↦ absurd (ground (arith, e, other))
]

includes_text-strip :
    (t p s r : Bytes) → strip p s ≡ some r → includes_text t s ≡ false → includes_text t r ≡ false
includes_text-strip t [] s r e h = ground (arith, e, h)
includes_text-strip t (a ∷ p) [] r e h = ground (arith, e)
includes_text-strip t (a ∷ p) (b ∷ s) r e h = elim (Bool-cases (a == b)) [
  | inl same ↦ includes_text-strip t p s r (ground (arith, e, same)) (ground (arith, h))
  | inr other ↦ absurd (ground (arith, e, other))
]

-- The empty path, where the root is allowed, or a path without a zero, the mark of a URI, and an
-- unsafe part.
unfoldable pub is_clean : (allow_root : Bool) → Bytes → Bool
is_clean allow_root path =
    if length path == 0 then allow_root else not (has_mark path || has_unsafe_part path)

relative-cases :
    (path rest : Bytes)
    → relative_to_workspace path ≡ ok rest
    → (strip workspace_prefix path ≡ some rest) ⊎ (path ≡ rest)
unfolding relative_to_workspace
relative-cases path rest e = elim (Option-cases (strip workspace_prefix path)) [
  | inl missing ↦ inr (ground (arith, e, missing))
  | inr (r, stripped) ↦ inl (ground (arith, e, stripped))
]

has_mark-strip :
    (path rest : Bytes)
    → strip workspace_prefix path ≡ some rest
    → has_mark path ≡ false
    → has_mark rest ≡ false
unfolding has_mark
has_mark-strip path rest stripped h =
    let (zero_free, mark_free) = or_false (includes 0 path) (includes_text (codes "://") path) h in
    false_or (includes 0 rest) (includes_text (codes "://") rest)
      (includes-strip 0 workspace_prefix path rest stripped zero_free)
      (includes_text-strip (codes "://") workspace_prefix path rest stripped mark_free)

has_mark-relative :
    (path rest : Bytes)
    → relative_to_workspace path ≡ ok rest
    → has_mark path ≡ false
    → has_mark rest ≡ false
has_mark-relative path rest e h = elim (relative-cases path rest e) [
  | inl stripped ↦ has_mark-strip path rest stripped h
  | inr same ↦ subst (λ q. has_mark q ≡ false) same h
]

empty_plain : has_mark [] ≡ false
unfolding has_mark
empty_plain = refl

check_parts-clean :
    (allow_root : Bool) (path q : Bytes)
    → has_mark path ≡ false
    → check_parts allow_root path ≡ ok q
    → is_clean allow_root q ≡ true
unfolding check_parts is_clean
check_parts-clean allow_root path q h e = ground (arith, h, e)

pub normalize-clean :
    (allow_root : Bool) (path q : Bytes)
    → normalize_workspace_path allow_root path ≡ ok q
    → is_clean allow_root q ≡ true
unfolding normalize_workspace_path
normalize-clean allow_root path q e = elim (Bool-cases (has_mark path)) [
  | inl marked ↦ absurd (ground (arith, e, marked))
  | inr plain ↦ elim (Bool-cases (is_root path)) [
    | inl root ↦ check_parts-clean allow_root [] q empty_plain (ground (arith, e, plain, root))
    | inr inner ↦ elim (Result-cases (relative_to_workspace path)) [
      | inl (rest, relative) ↦
          check_parts-clean allow_root rest q (has_mark-relative path rest relative plain)
            (ground (arith, e, plain, inner, relative))
      | inr (x, refused) ↦ absurd (ground (arith, e, plain, inner, refused))
    ]
  ]
]

absolute_unsafe : (q : Bytes) → starts_with (slash ∷ []) q ≡ true → has_unsafe_part q ≡ true
unfolding has_unsafe_part is_unsafe_part
absolute_unsafe [] h = absurd (ground (arith, h))
absolute_unsafe (c ∷ q) h = let first : (c == slash) ≡ true = ground (arith, h) in rw first refl

clean_relative : (q : Bytes) → has_unsafe_part q ≡ false → starts_with (slash ∷ []) q ≡ false
clean_relative q h = elim (Bool-cases (starts_with (slash ∷ []) q)) [
  | inl e ↦ absurd (ground (arith, h, absolute_unsafe q e))
  | inr e ↦ e
]

strip_relative : (q : Bytes) → starts_with (slash ∷ []) q ≡ false → strip workspace_prefix q ≡ none
strip_relative [] h = refl
strip_relative (c ∷ q) h = elim (Bool-cases (slash == c)) [
  | inl e ↦ absurd (ground (arith, h, e))
  | inr e ↦ rw e refl
]

dot_unsafe : has_unsafe_part dot ≡ true
unfolding has_unsafe_part is_unsafe_part
dot_unsafe = refl

root_unsafe : (q : Bytes) → is_root q ≡ true → has_unsafe_part q ≡ true
root_unsafe q e = elim (Bool-cases (bytes_eq q dot)) [
  | inl same ↦ rw ((bytes_eq_iff q dot).0 same) dot_unsafe
  | inr other ↦
      let whole : q ≡ workspace = (bytes_eq_iff q workspace).0 (ground (arith, e, other)) in
      absolute_unsafe q (rw whole refl)
]

clean_root : (q : Bytes) → has_unsafe_part q ≡ false → is_root q ≡ false
clean_root q h = elim (Bool-cases (is_root q)) [
  | inl e ↦ absurd (ground (arith, h, root_unsafe q e))
  | inr e ↦ e
]

relative_same : (q : Bytes) → has_unsafe_part q ≡ false → relative_to_workspace q ≡ ok q
unfolding relative_to_workspace
relative_same q h =
    let relative = clean_relative q h in rw (strip_relative q relative, relative) refl

check_parts_same :
    (allow_root : Bool) (q : Bytes)
    → has_unsafe_part q ≡ false
    → (length q == 0) ≡ false
    → check_parts allow_root q ≡ ok q
unfolding check_parts
check_parts_same allow_root q h proper = rw (proper, h) refl

normalize-proper :
    (allow_root : Bool) (q : Bytes)
    → has_mark q ≡ false
    → has_unsafe_part q ≡ false
    → (length q == 0) ≡ false
    → normalize_workspace_path allow_root q ≡ ok q
unfolding normalize_workspace_path
normalize-proper allow_root q plain safe proper =
    rw (plain, clean_root q safe, relative_same q safe) (check_parts_same allow_root q safe proper)

normalize-nil : normalize_workspace_path true [] ≡ ok []
unfolding normalize_workspace_path has_mark relative_to_workspace check_parts
normalize-nil = refl

clean-proper :
    (allow_root : Bool) (q : Bytes)
    → is_clean allow_root q ≡ true
    → (length q == 0) ≡ false
    → (has_mark q ≡ false) × (has_unsafe_part q ≡ false)
unfolding is_clean
clean-proper allow_root q clean proper = ground (arith, clean, proper)

clean-nil :
    (allow_root : Bool) (q : Bytes)
    → is_clean allow_root q ≡ true
    → (length q == 0) ≡ true
    → (allow_root ≡ true) × (q ≡ [])
unfolding is_clean
clean-nil allow_root [] clean proper = (clean, refl)
clean-nil allow_root (c ∷ q) clean proper = ground (arith, proper)

-- A path that `normalizeWorkspacePath` returns is returned as it is when it is normalized again,
-- and resolves, against any workspace directory, to a path within that directory.
pub normalize-normalize :
    (allow_root : Bool) (path q : Bytes) (root : AbsolutePath)
    → normalize_workspace_path allow_root path ≡ ok q
    → (normalize_workspace_path allow_root q ≡ ok q) × (is_within root (resolve root q) ≡ true)
unfolding has_unsafe_part
normalize-normalize allow_root path q root e =
    let clean = normalize-clean allow_root path q e in
    elim (Bool-cases (length q == 0)) [
      | inl nothing ↦
          let (allowed, none_left) = clean-nil allow_root q clean nothing in
          rw (allowed, none_left) (normalize-nil, resolve_nil root)
      | inr proper ↦
          let (plain, safe) = clean-proper allow_root q clean proper in
          (
            normalize-proper allow_root q plain safe proper,
            resolve_within root q (clean_relative q safe) safe,
          )
    ]

check_pattern-clean :
    (pattern q : Bytes)
    → has_mark pattern ≡ false
    → check_pattern pattern ≡ ok q
    → is_clean false q ≡ true
unfolding check_pattern is_clean
check_pattern-clean pattern q h e = ground (arith, h, e)

all_clean : is_clean false (codes "**/*") ≡ true
unfolding is_clean has_mark has_unsafe_part is_unsafe_part
all_clean = refl

pub pattern-clean :
    (pattern q : Bytes) → normalize_workspace_pattern pattern ≡ ok q → is_clean false q ≡ true
unfolding normalize_workspace_pattern
pattern-clean pattern q e = elim (Bool-cases (has_mark pattern)) [
  | inl marked ↦ absurd (ground (arith, e, marked))
  | inr plain ↦ elim (Bool-cases (is_root pattern)) [
    | inl root ↦
        let all : codes "**/*" ≡ q = ground (arith, e, plain, root) in
        subst (λ p. is_clean false p ≡ true) all all_clean
    | inr inner ↦ elim (Result-cases (relative_to_workspace pattern)) [
      | inl (rest, relative) ↦
          check_pattern-clean rest q (has_mark-relative pattern rest relative plain)
            (ground (arith, e, plain, inner, relative))
      | inr (x, refused) ↦ absurd (ground (arith, e, plain, inner, refused))
    ]
  ]
]

pub clean-true : (q : Bytes) → is_clean false q ≡ true → is_clean true q ≡ true
unfolding is_clean
clean-true q h = elim (Bool-cases (length q == 0)) [ inl e ↦ rw e refl | inr e ↦ rw e (rw e at h) ]
