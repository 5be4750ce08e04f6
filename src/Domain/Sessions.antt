-- ===== src/Domain/Sessions.antt =====
-- src/domain/session-manager.ts: the state of the session manager, its bounds and its answers.
pub mod Shaping
pub mod Calls
pub mod Room
use electrosphere.Base.{
  ℕ, ◌+◌, ◌-◌, ◌*◌, ◌/◌, String, Bool, true, false, not, ◌&&◌, ◌||◌, Option, none, some, List, [],
  ◌∷◌, select, select_first, update_where, length, drop, take, max, min, ltb, leb, get_or, str_eq,
  if◌then◌else◌,
}
use electrosphere.Base.Exec.{Result, ok, err, Exec}
use electrosphere.Domain.Errors.{ErrorCode, throws}
use electrosphere.Domain.Types.{Backend, ExecutionState}
use electrosphere.Storage.Database.{Db}

pub record ExecutionHandle : Type 0 where
  pub backend : Backend
  pub instance_id : String
  pub execution_id : String
  pub opaque_id : String
  pub tty : Bool

pub record ExecutionResult : Type 0 where
  pub state : ExecutionState
  pub exit_code : Option ℕ
  pub output : List ℕ
  pub original_bytes : Option ℕ
  pub output_omitted_bytes : Option ℕ
  pub started_at : ℕ
  pub finished_at : Option ℕ

-- A session object. `listed` says whether the map `sessions` holds it; the calls under way keep an
-- object that the map no longer holds.
pub record Session : Type 0 where
  pub id : String
  pub instance_id : String
  pub execution : ExecutionHandle
  pub cwd : String
  pub tty : Bool
  pub cursor : ℕ
  pub last_used_at : ℕ
  pub expires_at : ℕ
  pub active : Bool
  pub listed : Bool

pub record Sessions : Type 0 where
  pub db : Db
  pub sessions : List Session
  pub closing_instances : List String
  pub max_output_bytes : ℕ

abbrev pub ttl_ms : ℕ
ttl_ms = 1_800_000

abbrev pub is_session : String → Session → Bool
is_session id s = str_eq s.id id

abbrev pub unlist : Session → Session
unlist s = record s { listed = false }

abbrev is_listed : Session → Bool
is_listed s = s.listed

-- `sessions.size`.
abbrev pub size : List Session → ℕ
size ss = length (select is_listed ss)

abbrev pub is_removable : Session → Bool
is_removable s = s.listed && not s.active

-- The stable sort by `lastUsedAt`.
insert_by_use : Session → List Session → List Session
insert_by_use s [] = s ∷ []
insert_by_use s (t ∷ ts) =
    if leb s.last_used_at t.last_used_at then s ∷ t ∷ ts else t ∷ insert_by_use s ts

sort_by_use : List Session → List Session
unfolding insert_by_use
sort_by_use [] = []
sort_by_use (s ∷ ss) = insert_by_use s (sort_by_use ss)

-- Sessions leave the map, the one least recently used first, until there is room.
pub make_room : List Session → List Session → List Session
make_room [] ss = ss
make_room (r ∷ removable) ss =
    let rest = make_room removable (update_where (is_session r.id) unlist ss) in
    if ltb (size ss) 64 then ss else rest

pub shrink : List Session → List Session
unfolding make_room sort_by_use
shrink alive =
    if ltb (size alive) 64 then alive else make_room (sort_by_use (select is_removable alive)) alive

-- `reap`.
unfoldable pub reap : (now : ℕ) → List Session → List Session
unfolding shrink
reap now ss = shrink (update_where (λ s. not s.active && leb s.expires_at now) unlist ss)

-- `requireSession`.
unfoldable pub require_session : (now : ℕ) → String → String → Exec Sessions Session
require_session now id instance_id s =
    (checked (select_first (λ x. is_session id x && x.listed) s.sessions), s)
  where
    unavailable : Result Session
    unavailable = err (throws ErrorCode.not_found "Session is unavailable")

    checked : Option Session → Result Session
    checked none = unavailable
    checked (some x) =
        if not (str_eq x.instance_id instance_id) || leb x.expires_at now then unavailable else ok x
