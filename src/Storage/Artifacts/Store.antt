-- ===== src/Storage/Artifacts/Store.antt =====
-- src/storage/artifacts.ts: `LocalArtifactStore`. The root directory is a store of files by path:
-- the temporary file of a call, and the files that were linked to their final names. `fails` says
-- which calls of the file system throw, after the calls before them; a link to a name that is taken
-- is `EEXIST`. JSON is a parameter, and `sha256` is the hash of bytes in hexadecimal digits. The
-- files do not change while one is read.
use Prim.Native.String.{◌++◌ as append_text}
use electrosphere.Base.{
  ℕ, zero, suc, ◌+◌, ◌-◌, String, min, Bool, false, ◌&&◌, Option, none, some, List, [], ◌∷◌, ◌++◌,
  length, take, drop, leb, ◌==◌, str_eq, get_or, is_some, if◌then◌else◌,
}
use electrosphere.Base.Bytes.{Bytes}
use electrosphere.Base.Exec.{
  Result, ok, err, Exec, pure, throw, lift, gets, modify, attempt, catch, guard, ◌>>=◌, ◌>>◌,
}
use electrosphere.Domain.Errors.{ErrorCode, Thrown, plain_error, throws}
use electrosphere.Mcp.Files.{Source}
use electrosphere.Agent.Files.Responses.{non_empty_text}
use electrosphere.Storage.Archive.{max_safe_integer}
use electrosphere.Storage.Database.{Artifact, Db}
use electrosphere.Storage.Repository.Artifacts.{put_artifact_and_grant, get_granted_artifact}

abbrev pub stream_chunk_bytes : ℕ
stream_chunk_bytes = 393_216

pub data ArtifactCall : Type 0 where
  make_root create_temporary sync_temporary close_temporary remove_temporary : ArtifactCall
  write_temporary : Bytes → ArtifactCall
  link_to protect remove_file : (path : String) → ArtifactCall

-- `temporary` is what the temporary file holds; `files` are the linked files; `installed` is the
-- name that the call itself has linked, as its variables of those names say.
pub record Store : Type 0 where
  pub db : Db
  pub temporary : Bytes
  pub files : List (String × Bytes)
  pub calls : List ArtifactCall
  pub installed : Option String

pub record StoreEnv : Type 0 where
  pub root : String
  pub fails : List ArtifactCall → ArtifactCall → Option Thrown
  pub sha256 : Bytes → String
  pub encode_metadata : (media_type : String) → (filename : Option String) → String
  pub media_type_of : (metadata_json : String) → Result (Option String)

pub record StoredRef : Type 0 where
  pub digest : String
  pub path : String
  pub size_bytes : ℕ
  pub media_type : String

abbrev pub is_file : (path : String) → String × Bytes → Bool
is_file path file = str_eq file.0 path

abbrev pub find_file : (path : String) → List (String × Bytes) → Option Bytes
find_file path [] = none
find_file path (file ∷ files) = if is_file path file then some file.1 else find_file path files

abbrev pub delete_file : (path : String) → List (String × Bytes) → List (String × Bytes)
delete_file path [] = []
delete_file path (file ∷ files) =
    let rest = delete_file path files in if is_file path file then rest else file ∷ rest

abbrev pub outcome : Option Thrown → Result (Unit {0})
outcome none = ok tt
outcome (some e) = err e

-- The stream of an open file: a pull reads at most a chunk, and nothing where the file ends.
unfoldable pub pull_chunks : (fuel : ℕ) → (content : Bytes) → (position remaining : ℕ) → Source
pull_chunks zero content position remaining = record { chunks = []; failure = none }
pull_chunks (suc fuel) content position remaining =
    let chunk = take (min stream_chunk_bytes remaining) (drop position content) in
    let rest = pull_chunks fuel content (position + length chunk) (remaining - length chunk) in
    if remaining == 0
    then record { chunks = []; failure = none }
    else if length chunk == 0
    then record {
      chunks = [];
      failure = some (throws ErrorCode.backend_error "Artifact ended before its recorded size");
    }
    else record { chunks = chunk ∷ rest.chunks; failure = rest.failure }

abbrev pub stream_of : Option Bytes → (offset remaining : ℕ) → Exec Store Source
stream_of none offset remaining = throw (plain_error "ENOENT")
stream_of (some content) offset remaining = pure (pull_chunks remaining content offset remaining)

-- `stat`: the file is there, with the recorded size.
abbrev pub is_consistent : Option Bytes → Artifact → Bool
is_consistent none row = false
is_consistent (some content) row = length content == row.size_bytes

abbrev octet_stream : String
octet_stream = "application/octet-stream"

-- The test of a range of natural numbers.
abbrev pub is_range : StoredRef → (start size : ℕ) → Bool
is_range artifact start size =
    leb start max_safe_integer && leb start artifact.size_bytes && leb size max_safe_integer

abbrev pub read_open : (path : String) → (start remaining : ℕ) → Exec Store Source
read_open path start remaining s = stream_of (find_file path s.files) start remaining s

-- A range is an offset and a limit; without one, the stream is of the whole file.
unfoldable pub open_range : StoredRef → (offset limit : Option ℕ) → Exec Store (Source × StoredRef)
open_range artifact offset limit = do
  let start = get_or offset 0
  let size = get_or limit (artifact.size_bytes - start)
  guard (is_range artifact start size)
      (throws ErrorCode.invalid_argument "Artifact byte range is invalid")
  source ← read_open artifact.path start (min size (artifact.size_bytes - start))
  pure (source, artifact)

module _ (env : StoreEnv) where
  unfoldable pub call_files : ArtifactCall → Exec Store (Unit {0})
  call_files call s = (outcome (env.fails s.calls call), record s { calls = call ∷ s.calls })

  abbrev pub path_of : (hash : String) → String
  path_of hash = append_text env.root (append_text "/" hash)

  unfoldable pub install_file : (path : String) → Exec Store (Unit {0})
  install_file path = do
    modify (λ s. record s { files = (path, s.temporary) ∷ s.files; installed = some path })
    call_files (protect path)

  unfoldable pub write_chunk : (chunk : Bytes) → Exec Store (Unit {0})
  write_chunk chunk = do
    call_files (write_temporary chunk)
    modify (λ s. record s { temporary = s.temporary ++ chunk })

  -- The loop over the source; the bytes that the hasher was given come back.
  unfoldable pub write_chunks :
      (chunks : List Bytes) → (failure : Option Thrown) → (hashed : Bytes) → Exec Store Bytes
  write_chunks [] none hashed = pure hashed
  write_chunks [] (some e) hashed = throw e
  write_chunks (chunk ∷ chunks) failure hashed =
      if length chunk == 0
      then write_chunks chunks failure hashed
      else write_chunk chunk >> write_chunks chunks failure (hashed ++ chunk)

  -- `link` and `chmod`. A name that is taken stays as it is.
  unfoldable pub link_temporary : (path : String) → Exec Store (Unit {0})
  link_temporary path = do
    call_files (link_to path)
    taken ← gets (λ s. is_some (find_file path s.files))
    if taken then pure tt else install_file path

  unfoldable pub resolve_row : Artifact → Exec Store StoredRef
  resolve_row row = do
    media_type ← lift (env.media_type_of row.metadata_json)
    file ← gets (λ s. find_file row.path s.files)
    guard (is_consistent file row)
        (throws ErrorCode.backend_error "Artifact storage is inconsistent")
    pure (record {
      digest = row.digest;
      path = row.path;
      size_bytes = row.size_bytes;
      media_type = get_or media_type octet_stream;
    })

  abbrev pub resolve_found : Option Artifact → Exec Store StoredRef
  resolve_found none = throw (throws ErrorCode.not_found "Artifact not found")
  resolve_found (some row) = resolve_row row

  unfoldable pub resolve_artifact : (thread_id digest : String) → Exec Store StoredRef
  resolve_artifact thread_id digest = do
    found ← gets (λ s. get_granted_artifact s.db thread_id digest)
    resolve_found found

  unfoldable pub open_artifact :
      (thread_id digest : String) → (offset limit : Option ℕ) → Exec Store (Source × StoredRef)
  open_artifact thread_id digest offset limit = do
    artifact ← resolve_artifact thread_id digest
    open_range artifact offset limit

  abbrev on_db : {A : Type 0} → Exec Db A → Exec Store A
  on_db m s = ((m s.db).0, record s { db = (m s.db).1 })

  -- The body of `try`, up to the digest. An empty filename is left out.
  unfoldable pub put_chunks :
      (thread_id : String) → Source → (media_type filename : Option String) → Exec Store String
  put_chunks thread_id source media_type filename = do
    hashed ← write_chunks source.chunks source.failure []
    call_files sync_temporary
    call_files close_temporary
    link_temporary (path_of (env.sha256 hashed))
    call_files remove_temporary
    on_db (
        put_artifact_and_grant thread_id (record {
          digest = append_text "sha256:" (env.sha256 hashed);
          kind = "tool";
          path = path_of (env.sha256 hashed);
          size_bytes = length hashed;
          metadata_json =
              env.encode_metadata (get_or media_type octet_stream) (non_empty_text filename);
        }))
    pure (append_text "sha256:" (env.sha256 hashed))

  abbrev uninstall : Option String → Exec Store (Unit {0})
  uninstall none = pure tt
  uninstall (some path) = do
    call_files (remove_file path)
    modify (λ s. record s { files = delete_file path s.files })

  -- What is undone when the body throws.
  unfoldable pub undo_put : Thrown → Exec Store String
  undo_put e = do
    attempt (call_files close_temporary)
    call_files remove_temporary
    path ← gets (λ s. s.installed)
    uninstall path
    throw e

  -- The promise of `resolve` is returned as it is: what it throws undoes nothing.
  unfoldable pub put_stream :
      (thread_id : String) → Source → (media_type filename : Option String) → Exec Store StoredRef
  put_stream thread_id source media_type filename = do
    call_files make_root
    call_files create_temporary
    modify (λ s. record s { temporary = []; installed = none })
    digest ← catch (put_chunks thread_id source media_type filename) undo_put
    resolve_artifact thread_id digest
