-- ===== src/Daemon/Auth.antt =====
-- src/daemon/http.ts: `requireAuth` and `decodedIdentifier`. A header's text is Latin-1, so that its
-- length is its number of code points; `utf8` is `Buffer.from` of a text, and `timingSafeEqual`
-- compares buffers of one length.
use electrosphere.Base.{
  String, not, ◌||◌, Option, none, some, [], ◌∷◌, length, ltb, ◌==◌, codes, if◌then◌else◌,
}
use electrosphere.Base.Bytes.{Bytes, bytes_eq, strip}
use electrosphere.Base.Exec.{Result, ok, err}
use electrosphere.Domain.Errors.{ErrorCode, Thrown, throws}
use electrosphere.Domain.Types.{is_identifier}

abbrev pub bearer : Bytes
bearer = codes "Bearer "

abbrev pub auth_required : Thrown
auth_required = throws ErrorCode.auth_required "Bearer authentication is required"

abbrev pub invalid_token : Thrown
invalid_token = throws ErrorCode.forbidden "Bearer token is invalid"

module _ (utf8 : Bytes → Bytes) where
  unfoldable pub check_token : (expected provided : Bytes) → Result (Unit {0})
  check_token expected provided =
      if length provided == 0
      then err auth_required
      else if not (length (utf8 expected) == length (utf8 provided))
      then err invalid_token
      else if not (bytes_eq (utf8 expected) (utf8 provided))
      then err invalid_token
      else ok tt

  -- `slice` behind the prefix, if the header starts with it.
  abbrev pub check_rest : (expected : Bytes) → (provided : Option Bytes) → Result (Unit {0})
  check_rest expected none = err auth_required
  check_rest expected (some provided) = check_token expected provided

  abbrev pub check_header : (expected : Bytes) → (authorization : Option Bytes) → Result (Unit {0})
  check_header expected none = err auth_required
  check_header expected (some authorization) =
      if length authorization == 0 || ltb 8192 (length authorization)
      then err auth_required
      else check_rest expected (strip bearer authorization)

  -- A token that is empty counts as none.
  unfoldable pub require_auth :
      (expected : Option Bytes) → (authorization : Option Bytes) → Result (Unit {0})
  require_auth none authorization =
      err (throws ErrorCode.auth_required "Harness authentication is not configured")
  require_auth (some []) authorization =
      err (throws ErrorCode.auth_required "Harness authentication is not configured")
  require_auth (some (c ∷ expected)) authorization = check_header (c ∷ expected) authorization

-- `decoded` is what `decodeURIComponent` makes of the parameter, none where it throws.
unfoldable pub decoded_identifier : (decoded : Option String) → Result String
decoded_identifier none = err (throws ErrorCode.invalid_argument "Not valid URL encoding")
decoded_identifier (some value) =
    if is_identifier value
    then ok value
    else err (throws ErrorCode.invalid_argument "Identifier is invalid")
