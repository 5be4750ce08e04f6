-- ===== src/Domain/Sessions/Calls.antt =====
-- src/domain/session-manager.ts: `exec`, `poll`, `write`, `kill`, `closeInstance` and `close`.
use electrosphere.Base.{
  ℕ, ◌+◌, String, Bool, true, false, not, ◌&&◌, ◌||◌, Option, none, some, List, [], ◌∷◌, ◌++◌, any,
  select, select_first, update_where, codes, get_or, ltb, leb, ◌==◌, str_eq, if◌then◌else◌,
}
use Prim.Native.String.{◌++◌ as ◌++ₛ◌}
use electrosphere.Base.Exec.{
  Exec, Await, pure, throw, gets, modify, guard, await, catch, ◌>>=◌, ◌>>◌,
}
use electrosphere.Domain.Errors.{ErrorCode, Thrown, service_error, plain_error, throws}
use electrosphere.Domain.Types.{Backend, BackendHandle, InstanceState, instance_state_eq}
use electrosphere.Domain.Sandbox.{get_turn_handle, set_instance_state}
use electrosphere.Domain.Sessions.{
  ExecutionHandle, ExecutionResult, Session, Sessions, ttl_ms, is_session, unlist, size, reap,
  require_session,
}
use electrosphere.Domain.Sessions.Shaping.{ShellResult, response, is_running}
use electrosphere.Storage.Database.{Db, InstanceRecord}
use electrosphere.Storage.Repository.Instances.{get_instance}

pub record ExecInput : Type 0 where
  pub execution_id : String
  pub command : String
  pub cwd : String
  pub tty : Bool
  pub timeout_ms : ℕ

-- The awaited calls of the backends, and the clock. `turn` is the wait for the earlier calls on a
-- session; `byte_length` is `Buffer.byteLength`.
pub record SessionEnv : Type 0 where
  pub now : ℕ
  pub run : Backend → BackendHandle → ExecInput → Await Sessions ExecutionHandle
  pub ask : Backend → ExecutionHandle → ℕ → Await Sessions ExecutionResult
  pub send : Backend → ExecutionHandle → String → Await Sessions (Unit {0})
  pub stop : Backend → ExecutionHandle → Await Sessions (Unit {0})
  pub turn : String → Await Sessions (Unit {0})
  pub byte_length : String → ℕ

abbrev on_sessions : {A : Type 0} → Exec Db A → Exec Sessions A
on_sessions m s = ((m s.db).0, record s { db = (m s.db).1 })

abbrev change : String → (Session → Session) → Exec Sessions (Unit {0})
change id f = modify λ s. record s { sessions = update_where (is_session id) f s.sessions }

abbrev find : String → Exec Sessions (Option Session)
find id = gets λ s. select_first (is_session id) s.sessions

abbrev missing_session : Thrown
missing_session = plain_error "Session object is missing"

-- The object of a call under way; objects stay in the store, so it is there.
abbrev required : Option Session → Exec Sessions Session
required none = throw missing_session
required (some x) = pure x

abbrev object : String → Exec Sessions Session
object id = find id >>= required

abbrev deactivate : Session → Session
deactivate x = record x { active = false }

-- `pollBackend`.
abbrev poll_backend : SessionEnv → Session → ℕ → Exec Sessions ExecutionResult
poll_backend e x yield_time_ms = do
  runtime ← on_sessions (get_turn_handle x.instance_id)
  await (e.ask runtime.0.backend x.execution yield_time_ms)

-- `abandon`.
unfoldable pub abandon : SessionEnv → Session → Exec Sessions (Unit {0})
abandon e x = do
  catch (await (e.stop x.execution.backend x.execution)) (λ _. pure tt)
  change x.id deactivate
  on_sessions (set_instance_state x.instance_id InstanceState.ready)

-- The answer of `response`, which also changes the session, and READY once the session ended.
answer : SessionEnv → String → ExecutionResult → Option ℕ → Exec Sessions ShellResult
answer e id r tokens = do
  x ← object id
  limit ← gets (λ s. s.max_output_bytes)
  change id (λ _. (response e.now limit x r tokens false).1)
  ready (response e.now limit x r tokens false).1
  pure (response e.now limit x r tokens false).0
  where
    ready : Session → Exec Sessions (Unit {0})
    ready x =
        if x.active
        then pure tt
        else on_sessions (set_instance_state x.instance_id InstanceState.ready)

-- A poll of the backend with its answer; a failure abandons the session.
poll_session : SessionEnv → Session → ℕ → Option ℕ → Exec Sessions ShellResult
unfolding answer
poll_session e x yield_time_ms tokens = do
  r ← poll_backend e x yield_time_ms
  answer e x.id r tokens

abandoning : {A : Type 0} → SessionEnv → Session → Exec Sessions A → Exec Sessions A
unfolding abandon
abandoning e x m = catch m (λ t. do abandon e x; throw t)

-- `serial`: behind the earlier calls on the session, with its lifetime renewed.
serial : {A : Type 0} → SessionEnv → Session → Exec Sessions A → Exec Sessions A
serial e x m = do
  await (e.turn x.id)
  change x.id (λ y. record y { last_used_at = e.now; expires_at = e.now + ttl_ms })
  m

pub record ExecRequest : Type 0 where
  pub instance_id : String
  pub command : String
  pub workdir : Option String
  pub tty : Option Bool
  pub yield_time_ms : ℕ
  pub timeout_ms : ℕ
  pub max_output_tokens : Option ℕ

-- `startsWith`.
starts_with : List ℕ → List ℕ → Bool
starts_with [] text = true
starts_with (c ∷ prefix) [] = false
starts_with (c ∷ prefix) (d ∷ text) = (c == d) && starts_with prefix text

abbrev pub inside_workspace : String → Bool
unfolding starts_with
inside_workspace path = str_eq path "/workspace" || starts_with (codes "/workspace/") (codes path)

-- The checks of `exec`, before its first await.
unfoldable pub admit_exec :
    SessionEnv → ExecRequest → Exec Sessions (InstanceRecord × BackendHandle)
admit_exec e i = do
  modify (λ s. record s { sessions = reap e.now s.sessions })
  closing ← gets (λ s. any (λ id. str_eq id i.instance_id) s.closing_instances)
  guard (not closing) (throws ErrorCode.turn_closed "Turn runtime is closing")
  room ← gets (λ s. ltb (size s.sessions) 64)
  guard room (throws ErrorCode.session_capacity "No session capacity is available")
  guard (not (str_eq i.command "") && leb (e.byte_length i.command) 131_072)
      (throws ErrorCode.invalid_argument "Command is empty or too large")
  guard (inside_workspace (get_or i.workdir "/workspace"))
      (throws ErrorCode.invalid_argument "workdir must be inside /workspace")
  on_sessions (get_turn_handle i.instance_id)

-- `exec`; the two identifiers are what `randomUUID()` returns.
unfoldable pub exec :
    SessionEnv → (execution_id session_id : String) → ExecRequest → Exec Sessions ShellResult
unfolding admit_exec abandoning poll_session
exec e execution_id session_id i = do
  runtime ← admit_exec e i
  execution ← await (
      e.run runtime.0.backend runtime.1 (record {
        execution_id = execution_id;
        command = i.command;
        cwd = get_or i.workdir "/workspace";
        tty = get_or i.tty false;
        timeout_ms = i.timeout_ms;
      }))
  modify (λ s. record s { sessions = s.sessions ++ (session execution ∷ []) })
  on_sessions (set_instance_state i.instance_id InstanceState.running)
  abandoning e (session execution)
      (poll_session e (session execution) i.yield_time_ms i.max_output_tokens)
  where
    session : ExecutionHandle → Session
    session execution = record {
      id = session_id;
      instance_id = i.instance_id;
      execution = execution;
      cwd = get_or i.workdir "/workspace";
      tty = get_or i.tty false;
      cursor = 0;
      last_used_at = e.now;
      expires_at = e.now + ttl_ms;
      active = true;
      listed = true;
    }

-- `poll`.
unfoldable pub poll : SessionEnv → String → String → ℕ → Option ℕ → Exec Sessions ShellResult
unfolding serial abandoning poll_session
poll e instance_id session_id yield_time_ms tokens = do
  x ← require_session e.now session_id instance_id
  serial e x (abandoning e x (poll_session e x yield_time_ms tokens))

-- The interrupt character, U+0003.
abbrev is_interrupt : List ℕ → Bool
is_interrupt (c ∷ []) = c == 3
is_interrupt _ = false

-- What `write` does to the execution. A session without a terminal takes the interrupt only.
send_chars : SessionEnv → Session → String → Exec Sessions (Unit {0})
send_chars e x chars =
    if x.tty
    then await (e.send x.execution.backend x.execution chars)
    else if is_interrupt (codes chars)
    then await (e.stop x.execution.backend x.execution)
    else throw (throws ErrorCode.session_stdin_closed "Non-TTY session stdin is closed")

abbrev is_stdin_closed : Thrown → Bool
is_stdin_closed (service_error e) = error_code_eq e.code
  where
    error_code_eq : ErrorCode → Bool
    error_code_eq ErrorCode.session_stdin_closed = true
    error_code_eq _ = false
is_stdin_closed (plain_error m) = false

-- The `catch` of `write`.
failed_write : SessionEnv → Session → Thrown → Exec Sessions ShellResult
unfolding abandon
failed_write e x t = if is_stdin_closed t then throw t else (do abandon e x; throw t)

-- `write`.
unfoldable pub write :
    SessionEnv → String → String → String → ℕ → Option ℕ → Exec Sessions ShellResult
unfolding serial send_chars poll_session failed_write
write e instance_id session_id chars yield_time_ms tokens = do
  x ← require_session e.now session_id instance_id
  closing ← gets (λ s. any (λ id. str_eq id x.instance_id) s.closing_instances)
  guard (not closing) (throws ErrorCode.turn_closed "Turn runtime is closing")
  serial e x
      (catch (do send_chars e x chars; poll_session e x yield_time_ms tokens) (failed_write e x))

-- The body of `kill`.
kill_session : SessionEnv → Session → Exec Sessions ShellResult
kill_session e x = do
  await (e.stop x.execution.backend x.execution)
  r ← poll_backend e x 0
  change x.id deactivate
  on_sessions (set_instance_state x.instance_id InstanceState.ready)
  y ← object x.id
  limit ← gets (λ s. s.max_output_bytes)
  change x.id (λ _. (response e.now limit y r none true).1)
  pure (response e.now limit y r none true).0

-- `kill`.
unfoldable pub kill : SessionEnv → String → String → Exec Sessions ShellResult
unfolding serial kill_session
kill e instance_id session_id = do
  x ← require_session e.now session_id instance_id
  serial e x (kill_session e x)

abbrev stop_and_poll : SessionEnv → Session → Exec Sessions ExecutionResult
stop_and_poll e x = do await (e.stop x.execution.backend x.execution); poll_backend e x 1_000

again_if_running : SessionEnv → Session → ExecutionResult → Exec Sessions ExecutionResult
again_if_running e x r = if is_running r.state then stop_and_poll e x else pure r

-- A session is stopped, a second time if it still runs.
stop_session : SessionEnv → Session → Exec Sessions (Unit {0})
unfolding again_if_running
stop_session e x = do
  first ← stop_and_poll e x
  r ← again_if_running e x first
  guard (not (is_running r.state))
      (throws ErrorCode.backend_error "Session did not reach a terminal state")
  change x.id deactivate

-- The result counts the sessions that failed to stop.
stop_sessions : SessionEnv → List Session → Exec Sessions ℕ
unfolding serial stop_session
stop_sessions e [] = pure 0
stop_sessions e (x ∷ xs) = do
  failed ← catch (do serial e x (stop_session e x); pure 0) (λ _. pure 1)
  rest ← stop_sessions e xs
  pure (failed + rest)

ready_if_running : String → Option InstanceRecord → Exec Sessions (Unit {0})
ready_if_running id none = pure tt
ready_if_running id (some r) =
    if instance_state_eq r.state InstanceState.running
    then on_sessions (set_instance_state id InstanceState.ready)
    else pure tt

abbrev is_active_of : String → Session → Bool
is_active_of instance_id x = x.listed && str_eq x.instance_id instance_id && x.active

-- `closeInstance`.
unfoldable pub close_instance : SessionEnv → String → Exec Sessions (Unit {0})
unfolding stop_sessions ready_if_running
close_instance e id = do
  modify (λ s. record s { closing_instances = id ∷ s.closing_instances })
  active ← gets (λ s. select (is_active_of id) s.sessions)
  failures ← stop_sessions e active
  guard (leb failures 0) (plain_error ("Failed to close sessions for instance " ++ₛ id))
  found ← gets (λ s. get_instance s.db id)
  ready_if_running id found

-- A session that still runs is killed, whatever the backend answers.
stop_if_active : SessionEnv → Session → Exec Sessions (Unit {0})
stop_if_active e x =
    if x.active
    then catch (await (e.stop x.execution.backend x.execution)) (λ _. pure tt)
    else pure tt

-- The loops over the map read each session again when they come to it. A session that is added
-- meanwhile is not visited here.
close_sessions : SessionEnv → List Session → Exec Sessions (Unit {0})
unfolding stop_if_active
close_sessions e [] = pure tt
close_sessions e (x ∷ xs) = do
  y ← object x.id
  stop_if_active e y
  change x.id deactivate
  close_sessions e xs

-- `close`.
unfoldable pub close : SessionEnv → Exec Sessions (Unit {0})
unfolding close_sessions
close e = do
  listed ← gets (λ s. select (λ x. x.listed) s.sessions)
  close_sessions e listed
  modify (λ s. record s {
    sessions = update_where (λ _. true) unlist s.sessions;
    closing_instances = [];
  })

expire : SessionEnv → Session → Exec Sessions (Unit {0})
unfolding stop_if_active
expire e y =
    if y.listed && leb y.expires_at e.now
    then (do stop_if_active e y; change y.id (λ z. record z { active = false; listed = false }))
    else pure tt

expire_sessions : SessionEnv → List Session → Exec Sessions (Unit {0})
unfolding expire
expire_sessions e [] = pure tt
expire_sessions e (x ∷ xs) = do y ← object x.id; expire e y; expire_sessions e xs

-- `reapExpired`, of the timer.
unfoldable pub reap_expired : SessionEnv → Exec Sessions (Unit {0})
unfolding expire_sessions
reap_expired e = do listed ← gets (λ s. select (λ x. x.listed) s.sessions); expire_sessions e listed
