-- ===== src/Daemon/Admission.antt =====
-- What `requireAuth` of src/daemon/http.ts admits.
use electrosphere.Base.{
  ℕ, ◌<◌, ◌≤◌, ◌≡◌, ◌↔◌, refl, sym, subst, ap, ◌∙◌, false, ◌||◌, Option, none, some, [], ◌∷◌, ◌++◌,
  arith, length, ltb, ◌==◌, Bool-cases, Option-cases, inl, inr,
}
use electrosphere.Base.Bytes.{Bytes, bytes_eq_iff, bytes_eq_refl, strip}
use electrosphere.Base.Exec.{ok}
use electrosphere.Daemon.Auth.{bearer, check_token, check_header, require_auth}

strip-some : (p s rest : Bytes) → strip p s ≡ some rest → s ≡ p ++ rest
strip-some [] s rest e = ground (arith, e)
strip-some (c ∷ p) [] rest e = ground (arith, e)
strip-some (c ∷ p) (d ∷ s) rest e = ground (arith, e, strip-some p s rest)

module _ (utf8 : Bytes → Bytes) where
  -- The header has the scheme and a token with the bytes of the daemon's, both not empty.
  abbrev pub HasToken : (expected authorization : Option Bytes) → Type 0
  HasToken expected authorization =
      (token : Bytes) × ((provided : Bytes) × ((expected ≡ some token)
          × (0 < length token)
          × (authorization ≡ some (bearer ++ provided))
          × (length (bearer ++ provided) ≤ 8192)
          × (0 < length provided)
          × (utf8 token ≡ utf8 provided)))

  check_token-ok :
      (token provided : Bytes)
      → check_token utf8 token provided ≡ ok tt
      → (0 < length provided) × (utf8 token ≡ utf8 provided)
  unfolding check_token
  check_token-ok token provided e = ground (arith, e, bytes_eq_iff (utf8 token) (utf8 provided))

  check_token-same :
      (token provided : Bytes)
      → 0 < length provided
      → utf8 token ≡ utf8 provided
      → check_token utf8 token provided ≡ ok tt
  unfolding check_token
  check_token-same token provided some_token same =
      let long : (length provided == 0) ≡ false = ground (arith, some_token) in
      rw (long, same, bytes_eq_refl (utf8 provided)) (ground arith)

  check_header-HasToken :
      (c : ℕ) (token : Bytes) (authorization : Option Bytes)
      → check_header utf8 (c ∷ token) authorization ≡ ok tt
      → HasToken (some (c ∷ token)) authorization
  check_header-HasToken c token none e = absurd (ground (arith, e))
  check_header-HasToken c token (some value) e =
      elim (Bool-cases (length value == 0 || ltb 8192 (length value))) [
        | inl bad ↦ absurd (ground (arith, e, bad))
        | inr good ↦ elim (Option-cases (strip bearer value)) [
          | inl other ↦ absurd (ground (arith, e, good, other))
          | inr (provided, found) ↦
              let checked : check_token utf8 (c ∷ token) provided ≡ ok tt =
                sym (rw (good, found) refl) ∙ e in
              let (some_token, same) = check_token-ok (c ∷ token) provided checked in
              let whole = strip-some bearer value provided found in
              let short : length value ≤ 8192 = ground (arith, good) in
              (
                c ∷ token,
                (
                  provided,
                  (
                    refl,
                    omega arith,
                    ap some whole,
                    subst (λ x. length x ≤ 8192) whole short,
                    some_token,
                    same,
                  ),
                ),
              )
        ]
      ]

  require_auth-HasToken :
      (expected authorization : Option Bytes)
      → require_auth utf8 expected authorization ≡ ok tt
      → HasToken expected authorization
  unfolding require_auth
  require_auth-HasToken none authorization e = absurd (ground (arith, e))
  require_auth-HasToken (some []) authorization e = absurd (ground (arith, e))
  require_auth-HasToken (some (c ∷ token)) authorization e =
      check_header-HasToken c token authorization e

  require_auth-ok :
      (token provided : Bytes)
      → 0 < length token
      → length (bearer ++ provided) ≤ 8192
      → 0 < length provided
      → utf8 token ≡ utf8 provided
      → require_auth utf8 (some token) (some (bearer ++ provided)) ≡ ok tt
  unfolding require_auth
  require_auth-ok [] provided has short some_token same = absurd (omega (arith, has))
  require_auth-ok (c ∷ token) provided has short some_token same =
      let size : (length (bearer ++ provided) == 0 || ltb 8192 (length (bearer ++ provided)))
          ≡ false =
        ground (arith, short) in
      rw size (check_token-same (c ∷ token) provided some_token same)

-- A request is admitted exactly if the daemon has a token that is not empty and the header is
-- `Bearer ` and a token that is not empty and has the same UTF-8 bytes, at most 8192 long in all.
pub require_auth_iff :
    (utf8 : Bytes → Bytes) (expected authorization : Option Bytes)
    → (require_auth utf8 expected authorization ≡ ok tt) ↔ HasToken utf8 expected authorization
require_auth_iff utf8 expected authorization = (
  require_auth-HasToken utf8 expected authorization,
  λ (token, (provided, (e, has, f, short, some_token, same))).
      rw (e, f) (require_auth-ok utf8 token provided has short some_token same),
)
