-- ===== src/Storage/Database.antt =====
-- The tables of src/storage/schema.ts as lists of rows, and the constraints that SQLite enforces
-- on them (`PRAGMA foreign_keys=ON`, src/storage/sqlite.ts). Columns that nothing reads
-- (`created_at`, `updated_at`, `name`, `message`, `node_id`) and the tables that nothing writes
-- (`sessions`, `executions`, `execution_chunks`) are left out.
use electrosphere.Base.{
  ℕ, String, Bool, true, ◌&&◌, Option, none, some, List, any, select, length, leb, str_eq,
}
use electrosphere.Domain.Errors.{ServiceError, Thrown, plain_error}
use electrosphere.Domain.Types.{
  Backend, SandboxKind, InstanceState, NetworkProfile, ResourceProfile, BackendHandle, TurnRecord,
  StoredResult, is_active,
}

pub record ThreadWorkspace : Type 0 where
  pub thread_id : String
  pub workspace_id : String

pub record Commit : Type 0 where
  pub id : String
  pub tree_digest : String
  pub contract_digest : String
  pub parent_id : Option String

pub record Ref : Type 0 where
  pub workspace_id : String
  pub name : String
  pub head_commit : String

pub record TreeObject : Type 0 where
  pub digest : String
  pub path : String
  pub size_bytes : ℕ

pub record InstanceRecord : Type 0 where
  pub id : String
  pub kind : SandboxKind
  pub backend : Backend
  pub state : InstanceState
  pub workspace_id : Option String
  pub base_commit : String
  pub backend_handle : Option BackendHandle
  pub workspace_path : String
  pub resource_profile : ResourceProfile
  pub network : NetworkProfile
  pub last_error : Option String

pub data OperationStatus : Type 0 where
  running succeeded failed : OperationStatus

pub record Operation : Type 0 where
  pub id : String
  pub operation_kind : String
  pub client_request_id : String
  pub status : OperationStatus
  pub response_json : Option StoredResult
  pub error_json : Option ServiceError
  pub lease_expires_at : Option ℕ

pub record Artifact : Type 0 where
  pub digest : String
  pub kind : String
  pub path : String
  pub size_bytes : ℕ
  pub metadata_json : String

pub record ArtifactGrant : Type 0 where
  pub thread_id : String
  pub digest : String

pub record Db : Type 0 where
  pub workspaces : List String
  pub thread_workspaces : List ThreadWorkspace
  pub commits : List Commit
  pub refs : List Ref
  pub tree_objects : List TreeObject
  pub instances : List InstanceRecord
  pub turns : List TurnRecord
  pub operations : List Operation
  pub artifacts : List Artifact
  pub artifact_grants : List ArtifactGrant

abbrev pub is_commit : String → Commit → Bool
is_commit id c = str_eq c.id id

abbrev pub is_ref : String → String → Ref → Bool
is_ref workspace_id name r = str_eq r.workspace_id workspace_id && str_eq r.name name

abbrev pub is_instance : String → InstanceRecord → Bool
is_instance id i = str_eq i.id id

abbrev pub is_turn : String → String → TurnRecord → Bool
is_turn thread_id turn_id t = str_eq t.thread_id thread_id && str_eq t.turn_id turn_id

abbrev pub is_active_in : String → TurnRecord → Bool
is_active_in thread_id t = str_eq t.thread_id thread_id && is_active t.state

abbrev pub is_thread : String → ThreadWorkspace → Bool
is_thread thread_id t = str_eq t.thread_id thread_id

abbrev pub has_workspace : Db → String → Bool
has_workspace db id = any (λ w. str_eq w id) db.workspaces

abbrev pub has_commit : Db → String → Bool
has_commit db id = any (is_commit id) db.commits

abbrev pub has_instance : Db → String → Bool
has_instance db id = any (is_instance id) db.instances

-- A foreign key of a nullable column: null refers to nothing.
abbrev pub refers : (String → Bool) → Option String → Bool
refers has none = true
refers has (some id) = has id

-- The index `turns_open_thread_unique`, at one thread.
abbrev pub unique_active : String → List TurnRecord → Bool
unique_active thread_id turns = leb (length (select (is_active_in thread_id) turns)) 1

-- What SQLite throws for a second row with a unique key, and for a foreign key without its row.
abbrev pub unique_failed : Thrown
unique_failed = plain_error "UNIQUE constraint failed"

abbrev pub foreign_key_failed : Thrown
foreign_key_failed = plain_error "FOREIGN KEY constraint failed"
