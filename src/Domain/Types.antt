-- ===== src/Domain/Types.antt =====
-- src/domain/types.ts: the vocabulary of the domain, and the records of src/domain/turn-service.ts
-- that the repository stores. A column that holds JSON text holds here the value which that text
-- encodes; a nullable id or digest is an `Option`, since it is never the empty text.
use electrosphere.Base.{
  ℕ, String, Bool, true, false, ◌&&◌, ◌||◌, Option, none, some, List, [], ◌∷◌, leb, ◌==◌, codes,
  length, if◌then◌else◌,
}
use electrosphere.Domain.Errors.{ServiceError}

pub data Backend : Type 0 where
  docker firecracker : Backend

pub data SandboxKind : Type 0 where
  instant durable : SandboxKind

pub data InstanceState : Type 0 where
  provisioning ready running committing terminating terminated failed lost : InstanceState

pub data ExecutionState : Type 0 where
  running completed failed timed_out canceled lost : ExecutionState

pub data NetworkProfile : Type 0 where
  no_network egress : NetworkProfile

pub record ResourceProfile : Type 0 where
  pub memory_mib : ℕ
  pub vcpus : ℕ
  pub disk_mib : ℕ
  pub pids_max : ℕ
  pub timeout_ms : ℕ

abbrev pub default_resource_profile : ResourceProfile
default_resource_profile = record {
  memory_mib = 512;
  vcpus = 1;
  disk_mib = 1024;
  pids_max = 128;
  timeout_ms = 0;
}

abbrev pub empty_contract_digest : String
empty_contract_digest = "sha256:51f89ad00a9aa7d89091a52d3b49a5da84067536a9532cd883115d19d15ecbf6"

-- A `TurnMode` is spelled like a `SandboxKind`.
abbrev pub TurnMode : Type 0
TurnMode = SandboxKind

pub data TurnState : Type 0 where
  starting opened finishing finished failed : TurnState

abbrev pub backend_eq : Backend → Backend → Bool
backend_eq Backend.docker Backend.docker = true
backend_eq Backend.firecracker Backend.firecracker = true
backend_eq _ _ = false

abbrev pub kind_eq : SandboxKind → SandboxKind → Bool
kind_eq SandboxKind.instant SandboxKind.instant = true
kind_eq SandboxKind.durable SandboxKind.durable = true
kind_eq _ _ = false

abbrev pub network_eq : NetworkProfile → NetworkProfile → Bool
network_eq NetworkProfile.no_network NetworkProfile.no_network = true
network_eq NetworkProfile.egress NetworkProfile.egress = true
network_eq _ _ = false

abbrev pub profile_eq : ResourceProfile → ResourceProfile → Bool
profile_eq a b =
    (a.memory_mib == b.memory_mib)
    && (a.vcpus == b.vcpus)
    && (a.disk_mib == b.disk_mib)
    && (a.pids_max == b.pids_max)
    && (a.timeout_ms == b.timeout_ms)

-- `inArray(state, ['STARTING', 'OPEN', 'FINISHING'])`.
abbrev pub is_active : TurnState → Bool
is_active TurnState.starting = true
is_active TurnState.opened = true
is_active TurnState.finishing = true
is_active _ = false

abbrev pub turn_state_eq : TurnState → TurnState → Bool
turn_state_eq TurnState.starting TurnState.starting = true
turn_state_eq TurnState.opened TurnState.opened = true
turn_state_eq TurnState.finishing TurnState.finishing = true
turn_state_eq TurnState.finished TurnState.finished = true
turn_state_eq TurnState.failed TurnState.failed = true
turn_state_eq _ _ = false

abbrev pub instance_state_eq : InstanceState → InstanceState → Bool
instance_state_eq InstanceState.provisioning InstanceState.provisioning = true
instance_state_eq InstanceState.ready InstanceState.ready = true
instance_state_eq InstanceState.running InstanceState.running = true
instance_state_eq InstanceState.committing InstanceState.committing = true
instance_state_eq InstanceState.terminating InstanceState.terminating = true
instance_state_eq InstanceState.terminated InstanceState.terminated = true
instance_state_eq InstanceState.failed InstanceState.failed = true
instance_state_eq InstanceState.lost InstanceState.lost = true
instance_state_eq _ _ = false

abbrev pub instance_state_name : InstanceState → String
instance_state_name InstanceState.provisioning = "PROVISIONING"
instance_state_name InstanceState.ready = "READY"
instance_state_name InstanceState.running = "RUNNING"
instance_state_name InstanceState.committing = "COMMITTING"
instance_state_name InstanceState.terminating = "TERMINATING"
instance_state_name InstanceState.terminated = "TERMINATED"
instance_state_name InstanceState.failed = "FAILED"
instance_state_name InstanceState.lost = "LOST"

abbrev pub turn_state_name : TurnState → String
turn_state_name TurnState.starting = "STARTING"
turn_state_name TurnState.opened = "OPEN"
turn_state_name TurnState.finishing = "FINISHING"
turn_state_name TurnState.finished = "FINISHED"
turn_state_name TurnState.failed = "FAILED"

-- The states of an instance that a daemon still runs: neither 'TERMINATED', 'FAILED' nor 'LOST'.
abbrev pub is_live : InstanceState → Bool
is_live InstanceState.terminated = false
is_live InstanceState.failed = false
is_live InstanceState.lost = false
is_live _ = true

-- `BackendHandle` of src/backends/types.ts.
pub record BackendHandle : Type 0 where
  pub backend : Backend
  pub instance_id : String
  pub opaque_id : String
  pub workspace_path : String

-- What `normalizedRequest` keeps of a start request.
pub record Request : Type 0 where
  pub mode : TurnMode
  pub backend : Option Backend
  pub network : Option NetworkProfile
  pub resource_profile : Option ResourceProfile

abbrev pub option_same {ℓ} : {A : Type ℓ} → (A → A → Bool) → Option A → Option A → Bool
option_same same none none = true
option_same same (some a) (some b) = same a b
option_same same _ _ = false

-- Equality of the texts that two requests are normalized to.
unfoldable pub request_eq : Request → Request → Bool
request_eq a b =
    kind_eq a.mode b.mode
    && option_same backend_eq a.backend b.backend
    && option_same network_eq a.network b.network
    && option_same profile_eq a.resource_profile b.resource_profile

-- The object that a finished turn stores as its result.
pub record StoredResult : Type 0 where
  pub mode : Option TurnMode
  pub instance_id : Option String
  pub workspace_id : Option String
  pub head_commit : Option String
  pub commit_id : Option String
  pub tree_digest : Option String
  pub cleanup_error : Option String

abbrev pub empty_result : StoredResult
empty_result = record {
  mode = none;
  instance_id = none;
  workspace_id = none;
  head_commit = none;
  commit_id = none;
  tree_digest = none;
  cleanup_error = none;
}

pub record TurnRecord : Type 0 where
  pub thread_id : String
  pub turn_id : String
  pub mode : TurnMode
  pub state : TurnState
  pub instance_id : Option String
  pub workspace_id : Option String
  pub expected_head : Option String
  pub request_json : Request
  pub result_json : Option StoredResult
  pub error_json : Option ServiceError
  pub created_at : ℕ
  pub finished_at : Option ℕ

is_alphanumeric : ℕ → Bool
is_alphanumeric c =
    (leb b'A' c && leb c b'Z') || (leb b'a' c && leb c b'z') || (leb b'0' c && leb c b'9')

is_identifier_char : ℕ → Bool
unfolding is_alphanumeric
is_identifier_char c = is_alphanumeric c || (c == b'.') || (c == b'_') || (c == b':') || (c == b'-')

abbrev all_chars : (ℕ → Bool) → List ℕ → Bool
all_chars p [] = true
all_chars p (c ∷ cs) = p c && all_chars p cs

-- TURN_IDENTIFIER_PATTERN: /^[A-Za-z0-9][A-Za-z0-9._:-]{0,255}$/.
matches_identifier : List ℕ → Bool
unfolding is_alphanumeric is_identifier_char
matches_identifier [] = false
matches_identifier (c ∷ cs) =
    is_alphanumeric c && all_chars is_identifier_char cs && leb (length cs) 255

unfoldable pub is_identifier : String → Bool
unfolding matches_identifier
is_identifier s = matches_identifier (codes s)

is_hex_char : ℕ → Bool
is_hex_char c = (leb b'0' c && leb c b'9') || (leb b'a' c && leb c b'f')

abbrev strip_prefix : List ℕ → List ℕ → Option (List ℕ)
strip_prefix [] cs = some cs
strip_prefix (p ∷ ps) [] = none
strip_prefix (p ∷ ps) (c ∷ cs) = if p == c then strip_prefix ps cs else none

abbrev is_hex_tail : Option (List ℕ) → Bool
is_hex_tail none = false
is_hex_tail (some cs) = all_chars is_hex_char cs && (length cs == 64)

-- DIGEST_PATTERN: /^sha256:[0-9a-f]{64}$/.
unfoldable pub is_digest : String → Bool
unfolding is_hex_char
is_digest s = is_hex_tail (strip_prefix (codes "sha256:") (codes s))
