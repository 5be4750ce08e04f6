-- ===== src/Storage/Repository/Artifacts.antt =====
-- src/storage/repository.ts: the statements on `artifacts` and `artifact_grants`.
use electrosphere.Base.{
  String, Bool, ◌&&◌, Option, none, ◌∷◌, any, select_first, str_eq, if◌then◌else◌,
}
use electrosphere.Base.Exec.{Exec, modify}
use electrosphere.Storage.Database.{Artifact, ArtifactGrant, Db}

abbrev pub is_artifact : String → Artifact → Bool
is_artifact digest a = str_eq a.digest digest

abbrev pub is_grant : String → String → ArtifactGrant → Bool
is_grant thread_id digest g = str_eq g.thread_id thread_id && str_eq g.digest digest

-- Both inserts do nothing on a conflict, and the grant's foreign key is met by the first of them.
unfoldable pub put_artifact_and_grant : String → Artifact → Exec Db (Unit {0})
put_artifact_and_grant thread_id a = modify λ db. record db {
  artifacts = if any (is_artifact a.digest) db.artifacts then db.artifacts else a ∷ db.artifacts;
  artifact_grants =
      if any (is_grant thread_id a.digest) db.artifact_grants
      then db.artifact_grants
      else record { thread_id = thread_id; digest = a.digest } ∷ db.artifact_grants;
}

-- The join of a grant with its artifact: `artifacts.digest` is a primary key.
unfoldable pub get_granted_artifact : Db → String → String → Option Artifact
get_granted_artifact db thread_id digest =
    if any (is_grant thread_id digest) db.artifact_grants
    then select_first (λ a. is_artifact digest a && str_eq a.kind "tool") db.artifacts
    else none
