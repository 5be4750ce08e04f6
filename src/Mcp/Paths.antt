-- ===== src/Mcp/Paths.antt =====
-- src/mcp/server.ts: the paths and patterns that a tool call may name, and the media types. A text
-- is its list of code units.
pub mod Safe
use electrosphere.Base.{
  ℕ, Bool, true, false, not, ◌&&◌, ◌||◌, Option, none, some, List, [], ◌∷◌, ◌++◌, ◌+◌, map, any,
  length, leb, ◌==◌, if◌then◌else◌, codes,
}
use electrosphere.Base.Bytes.{
  Bytes, bytes_eq, includes, includes_text, strip, starts_with, ends_with, split,
}
use electrosphere.Base.Exec.{Result, ok, err}
use electrosphere.Base.Paths.{slash, dot, is_unsafe_part}
use electrosphere.Domain.Errors.{ErrorCode, Thrown, throws}

abbrev pub workspace : Bytes
workspace = codes "/workspace"

abbrev pub workspace_prefix : Bytes
workspace_prefix = codes "/workspace/"

abbrev pub invalid : Thrown
invalid = throws ErrorCode.invalid_argument "Path is invalid"

-- The first test of both: a zero, or the mark of a URI.
unfoldable pub has_mark : Bytes → Bool
has_mark path = includes 0 path || includes_text (codes "://") path

-- The text behind `/workspace/`; any other absolute text is refused.
unfoldable pub relative_to_workspace : Bytes → Result Bytes
relative_to_workspace path = elim (strip workspace_prefix path) [
  | some rest ↦ ok rest
  | none ↦
      if starts_with (slash ∷ []) path
      then err (throws ErrorCode.invalid_argument "Absolute paths must be inside /workspace")
      else ok path
]

unfoldable pub has_unsafe_part : Bytes → Bool
has_unsafe_part path = any is_unsafe_part (split slash path)

-- The test of the parts, behind the test for the root.
unfoldable pub check_parts : (allow_root : Bool) → Bytes → Result Bytes
check_parts allow_root path =
    if length path == 0
    then (if allow_root
        then ok []
        else err
            (throws ErrorCode.invalid_argument "Workspace root is not valid for this operation"))
    else if has_unsafe_part path
    then err (throws ErrorCode.invalid_argument "Path contains an unsafe component")
    else ok path

abbrev is_root : Bytes → Bool
is_root path = bytes_eq path dot || bytes_eq path workspace

unfoldable pub normalize_workspace_path : (allow_root : Bool) → Bytes → Result Bytes
normalize_workspace_path allow_root path =
    if has_mark path
    then err invalid
    else if is_root path
    then check_parts allow_root []
    else elim (relative_to_workspace path) [ ok rest ↦ check_parts allow_root rest | err e ↦ err e ]

unfoldable pub check_pattern : Bytes → Result Bytes
check_pattern pattern =
    if length pattern == 0 || has_unsafe_part pattern
    then err (throws ErrorCode.invalid_argument "Pattern contains an unsafe component")
    else ok pattern

-- `normalizeWorkspacePattern`, whose messages say `pattern`.
unfoldable pub normalize_workspace_pattern : Bytes → Result Bytes
normalize_workspace_pattern pattern =
    if has_mark pattern
    then err (throws ErrorCode.invalid_argument "Pattern is invalid")
    else if is_root pattern
    then ok (codes "**/*")
    else elim (relative_to_workspace pattern) [
      | ok rest ↦ check_pattern rest
      | err e ↦
          err (throws ErrorCode.invalid_argument "Absolute patterns must be inside /workspace")
    ]

abbrev is_hex_char : ℕ → Bool
is_hex_char c = leb 48 c && leb c 57 || leb 97 c && leb c 102

abbrev is_hex_digest : Bytes → Bool
is_hex_digest s = length s == 64 && not (any (λ c. not (is_hex_char c)) s)

-- `ARTIFACT_URI_PATTERN`: the digest of `artifact://sha256:…`.
unfoldable pub parse_artifact_uri : Bytes → Option Bytes
parse_artifact_uri path = elim (strip (codes "artifact://sha256:") path) [
  | none ↦ none
  | some hex ↦ if is_hex_digest hex then some (codes "sha256:" ++ hex) else none
]

abbrev lower : ℕ → ℕ
lower c = if leb 65 c && leb c 90 then c + 32 else c

-- `/\.(?:bin|…)$/i`.
abbrev binary_suffixes : List Bytes
binary_suffixes =
    codes ".bin"
    ∷ codes ".png"
    ∷ codes ".jpg"
    ∷ codes ".jpeg"
    ∷ codes ".gif"
    ∷ codes ".webp"
    ∷ codes ".pdf"
    ∷ codes ".zip"
    ∷ codes ".gz"
    ∷ codes ".tgz"
    ∷ codes ".wasm"
    ∷ codes ".sqlite"
    ∷ codes ".db"
    ∷ []

abbrev has_suffix : Bytes → List Bytes → Bool
has_suffix path suffixes = any (λ s. ends_with s path) suffixes

unfoldable pub media_type_for_path : Bytes → (binary : Bool) → Bytes
media_type_for_path path binary =
    if binary || has_suffix (map lower path) binary_suffixes
    then codes "application/octet-stream"
    else if ends_with (codes ".json") path
    then codes "application/json"
    else if ends_with (codes ".html") path
    then codes "text/html"
    else if ends_with (codes ".css") path
    then codes "text/css"
    else if has_suffix path (codes ".js" ∷ codes ".mjs" ∷ codes ".cjs" ∷ [])
    then codes "text/javascript"
    else if has_suffix path (codes ".ts" ∷ codes ".tsx" ∷ [])
    then codes "text/typescript"
    else codes "text/plain"

unfoldable pub is_text_media_type : Bytes → Bool
is_text_media_type media_type =
    starts_with (codes "text/") media_type
    || bytes_eq media_type (codes "application/json")
    || bytes_eq media_type (codes "application/javascript")
    || bytes_eq media_type (codes "application/xml")

-- `looksBinary`; `is_utf8` is whether a fatal decoder accepts the bytes.
unfoldable pub looks_binary : (is_utf8 : Bytes → Bool) → Bytes → Bool
looks_binary is_utf8 bytes = includes 0 bytes || not (is_utf8 bytes)
