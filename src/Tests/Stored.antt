-- ===== src/Tests/Stored.antt =====
-- The theorem on artifact files at a concrete input.
use electrosphere.Base.{◌≡◌, refl, none, some, [], ◌∷◌}
use electrosphere.Base.Exec.{ok}
use electrosphere.Domain.Types.{TurnState}
use electrosphere.Mcp.Files.{Source}
use electrosphere.Storage.Database.{Artifact, Db}
use electrosphere.Storage.Repository.Artifacts.{get_granted_artifact}
use electrosphere.Storage.Artifacts.Store.{
  Store, StoreEnv, StoredRef, resolve_row, resolve_artifact, open_range, pull_chunks, open_artifact,
}
use electrosphere.Storage.Artifacts.Sliced.{Opened, open_artifact-Opened}
use electrosphere.Tests.Publishing.{store as database}

abbrev env : StoreEnv
env = record {
  root = "artifacts";
  fails = λ earlier call. none;
  sha256 = λ bytes. "00";
  encode_metadata = λ media_type filename. media_type;
  media_type_of = λ json. ok (some json);
}

abbrev row : Artifact
row = record {
  digest = "sha256:00";
  kind = "tool";
  path = "artifacts/00";
  size_bytes = 4;
  metadata_json = "text/plain";
}

abbrev db : Db
db = record (database TurnState.opened) {
  artifacts = row ∷ [];
  artifact_grants = record { thread_id = "thread"; digest = "sha256:00" } ∷ [];
}

abbrev filled : Store
filled = record {
  db = db;
  temporary = [];
  files = ("artifacts/00", 1 ∷ 2 ∷ 3 ∷ 4 ∷ []) ∷ [];
  calls = [];
  installed = none;
}

abbrev ref : StoredRef
ref = record {
  digest = "sha256:00";
  path = "artifacts/00";
  size_bytes = 4;
  media_type = "text/plain";
}

abbrev source : Source
source = record { chunks = (2 ∷ 3 ∷ []) ∷ []; failure = none }

opened :
    open_artifact env "thread" "sha256:00" (some 1) (some 2) filled ≡ (ok (source, ref), filled)
unfolding open_artifact resolve_artifact resolve_row get_granted_artifact open_range pull_chunks
opened = refl

open_artifact-Opened_example : Opened env filled (some 1) (some 2) (source, ref)
open_artifact-Opened_example =
    open_artifact-Opened env filled "thread" "sha256:00" (some 1) (some 2) source ref filled opened
