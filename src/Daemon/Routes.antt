-- ===== src/Daemon/Routes.antt =====
-- src/daemon/http.ts: the routes of the harness. Reading a body is awaited; `json` is what
-- `context.req.json()` comes to, and a schema is a function from the parsed value. A request's
-- parameters are what `decodeURIComponent` makes of them.
use electrosphere.Base.{ℕ, String, Option, none, some, ◌==◌}
use electrosphere.Base.Bytes.{Bytes}
use electrosphere.Base.Exec.{
  Result, ok, err, Exec, Await, pure, throw, lift, await, catch, guard, ◌>>=◌, ◌>>◌,
}
use electrosphere.Domain.Errors.{ErrorCode, throws}
use electrosphere.Domain.Types.{Request}
use electrosphere.Domain.Turns.{Turns, TurnView}
use electrosphere.Domain.Turns.Start.{StartEnv, start}
use electrosphere.Domain.Turns.Finish.{FinishEnv, finish}
use electrosphere.Domain.Turns.Fork.{ForkResult, fork}
use electrosphere.Daemon.Auth.{require_auth, decoded_identifier}
use electrosphere.Daemon.Envelope.{Response, answered, error_response}

abbrev validated : {T : Type 0} → Option T → Result T
validated none = err (throws ErrorCode.invalid_argument "Request validation failed")
validated (some value) = ok value

unfoldable pub body :
    {V T : Type 0} → (json : Await Turns V) → (schema : V → Option T) → Exec Turns T
body json schema = do
  value ←
      catch (await json)
        (λ e. throw (throws ErrorCode.invalid_argument "Request body must be valid JSON"))
  lift (validated (schema value))

-- `text` comes to the length of the body's text.
unfoldable pub no_body : (text : Await Turns ℕ) → Exec Turns (Unit {0})
no_body text = do
  size ← await text
  guard (size == 0) (throws ErrorCode.invalid_argument "Request body must be empty")

-- The parts of a request that every route reads: the authentication and two identifiers.
pub record Caller : Type 0 where
  pub utf8 : Bytes → Bytes
  pub auth_token : Option Bytes
  pub authorization : Option Bytes
  pub first_parameter : Option String
  pub second_parameter : Option String

unfoldable pub authenticate : Caller → Exec Turns (String × String)
authenticate caller = do
  lift (require_auth caller.utf8 caller.auth_token caller.authorization)
  first ← lift (decoded_identifier caller.first_parameter)
  second ← lift (decoded_identifier caller.second_parameter)
  pure (first, second)

-- `try` with `errorResponse`.
abbrev respond : {A : Type 0} → (status : ℕ) → Exec Turns A → Exec Turns (Response A)
respond status m = catch (do value ← m; pure (answered status value)) (λ e. pure (error_response e))

unfoldable pub start_route :
    {V : Type 0}
    → StartEnv
    → Caller
    → (json : Await Turns V) → (schema : V → Option Request) → Exec Turns (Response TurnView)
start_route env caller json schema = respond 201 (do
  ids ← authenticate caller
  request ← body json schema
  start env (record { thread_id = ids.0; turn_id = ids.1; request = request }))

unfoldable pub finish_route :
    FinishEnv → Caller → (text : Await Turns ℕ) → Exec Turns (Response TurnView)
finish_route env caller text =
    respond 200 (do ids ← authenticate caller; no_body text; finish env ids.0 ids.1)

-- `workspace_id` is the fresh identifier that a fork takes.
unfoldable pub fork_route :
    {V : Type 0}
    → (workspace_id : String) → Caller
    → (json : Await Turns V) → (schema : V → Option (Option String))
    → Exec Turns (Response ForkResult)
fork_route workspace_id caller json schema = respond 201 (do
  ids ← authenticate caller
  commit_id ← body json schema
  fork workspace_id ids.0 ids.1 commit_id)
