-- ===== src/Domain/World.antt =====
-- What the domain awaits from code outside it: the backends behind `InstantBackend`
-- (src/backends/types.ts), the file system, and src/storage/cfs.ts as the sandbox service calls
-- it. Each call is a parameter: its outcome, and what the other tasks of the event loop did to
-- the database while it was awaited.
use electrosphere.Base.{ℕ, String, Bool, Option}
use electrosphere.Base.Exec.{Await}
use electrosphere.Domain.Errors.{Thrown, service_error, plain_error}
use electrosphere.Domain.Types.{Backend, BackendHandle, NetworkProfile, ResourceProfile}
use electrosphere.Storage.Database.{Db}

pub record HostProbe : Type 0 where
  pub available : Bool
  pub reason : Option String

pub record CreateInstanceInput : Type 0 where
  pub instance_id : String
  pub workspace_path : String
  pub resource_profile : ResourceProfile
  pub network : NetworkProfile

pub record SnapshotResult : Type 0 where
  pub workspace_path : String
  pub cfs_path : Option String
  pub tree_digest : Option String

pub record CfsObject : Type 0 where
  pub tree_digest : String
  pub path : String
  pub size_bytes : ℕ

pub record World : Type 0 where
  pub preflight : Backend → Await Db HostProbe
  -- `mkdir` of the instance's directory and `materializeCfs(tree, workspace)`.
  pub materialize : String → String → Await Db (Unit {0})
  pub create : Backend → CreateInstanceInput → Await Db BackendHandle
  pub destroy : Backend → BackendHandle → Await Db (Unit {0})
  pub snapshot : Backend → BackendHandle → Await Db SnapshotResult
  -- `ingestCfs` with the removal of its source, and `exportCfs`.
  pub ingest : String → Option String → Await Db CfsObject
  pub export : String → Await Db CfsObject
  -- `rm(path, { recursive: true, force: true })`.
  pub remove : String → Await Db (Unit {0})

-- `error instanceof Error ? error.message : String(error)`.
abbrev pub error_message : Thrown → String
error_message (service_error e) = e.message
error_message (plain_error m) = m
