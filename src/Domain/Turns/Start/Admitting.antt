-- ===== src/Domain/Turns/Start/Admitting.antt =====
-- Which starts create a turn.
use Prim.Native.String.{◌++◌ as append_text}
use electrosphere.Base.{
  ℕ, String, ◌≡◌, ◌≢◌, ◌⊎◌, refl, sym, subst, ap, Bool, true, false, none, some, List, [], ◌∷◌,
  arith, any, select, select_first, length, eq_iff, eq_refl, Bool-cases, Option-cases, inl, inr,
}
use electrosphere.Base.Exec.{Result, ok, err}
use electrosphere.Base.Table.{any-none, length-select-none, select_first-none, select_first-some}
use electrosphere.Domain.Errors.{ErrorCode, ServiceError, service_error, throws}
use electrosphere.Domain.Types.{
  TurnRecord, TurnState, Request, is_active, is_identifier, request_eq,
}
use electrosphere.Domain.Turns.{Turns, TurnView, view, replay_error}
use electrosphere.Domain.Turns.Start.Requests.{request_eq_iff}
use electrosphere.Domain.Turns.Start.{
  StartEnv, StartInput, admitted, new_turn, thread_busy, by_state, existing_start, recorded_or,
  insert_turn, admit, start,
}
use electrosphere.Storage.Database.{Db, is_turn, is_active_in}
use electrosphere.Storage.Repository.Turns.{get_turn, get_open_turn, create_turn}

-- The insert of a new turn in a thread that has no active turn succeeds.
create_turn-free :
    (now : ℕ) (i : StartInput) (db : Db)
    → any (is_turn i.thread_id i.turn_id) db.turns ≡ false
    → length (select (is_active_in i.thread_id) db.turns) ≡ 0
    → create_turn (new_turn now i) db ≡ (ok tt, record db { turns = new_turn now i ∷ db.turns })
unfolding create_turn
create_turn-free now i db missing free = ground (arith, missing, free, eq_refl i.thread_id)

-- A start of a turn that is not recorded, in a thread without an active turn, inserts the turn in
-- the state STARTING and changes nothing else before its first await.
pub admit_new :
    (now : ℕ) (i : StartInput) (db : Db)
    → get_turn db i.thread_id i.turn_id ≡ none
    → get_open_turn db i.thread_id ≡ none
    → admit now i db ≡ (admitted, record db { turns = new_turn now i ∷ db.turns })
unfolding admit recorded_or insert_turn
admit_new now i db missing free =
    let created =
      create_turn-free now i db (any-none (is_turn i.thread_id i.turn_id) db.turns missing)
        (length-select-none (is_active_in i.thread_id) db.turns free) in
    rw (missing, free, recorded_or, created) (ap (λ c. (admitted, c.1)) created)

-- The states of a turn that keeps its thread.
abbrev pub IsActive : TurnState → Type 0
IsActive state =
    (state ≡ TurnState.starting) ⊎ (state ≡ TurnState.opened) ⊎ (state ≡ TurnState.finishing)

-- The turn of a record is an active one of the thread.
abbrev pub Occupies : (thread_id : String) → TurnRecord → Type 0
Occupies thread_id t = (t.thread_id ≡ thread_id) × IsActive t.state

IsActive-is_active : (state : TurnState) → IsActive state → is_active state ≡ true
IsActive-is_active state (inl e) = ap is_active e
IsActive-is_active state (inr (inl e)) = ap is_active e
IsActive-is_active state (inr (inr e)) = ap is_active e

is_active-IsActive : (state : TurnState) → is_active state ≡ true → IsActive state
is_active-IsActive TurnState.starting h = inl refl
is_active-IsActive TurnState.opened h = inr (inl refl)
is_active-IsActive TurnState.finishing h = inr (inr refl)
is_active-IsActive TurnState.finished h = absurd (ground (arith, h))
is_active-IsActive TurnState.failed h = absurd (ground (arith, h))

-- A record of the table.
pub data Recorded (t : TurnRecord) : List TurnRecord → Type 0 where
  first : (ts : List TurnRecord) → Recorded t (t ∷ ts)
  later : (u : TurnRecord) (ts : List TurnRecord) → Recorded t ts → Recorded t (u ∷ ts)

found_active :
    (thread_id : String) (t : TurnRecord) (ts : List TurnRecord)
    → Recorded t ts
    → is_active_in thread_id t ≡ true
    → (u : TurnRecord) × (select_first (is_active_in thread_id) ts ≡ some u)
found_active thread_id t _ (first ts) h = (t, rw h refl)
found_active thread_id t _ (later u ts r) h = elim (Bool-cases (is_active_in thread_id u)) [
  | inl e ↦ (u, rw e refl)
  | inr e ↦ rw e (found_active thread_id t ts r h)
]

select_first-Recorded :
    (p : TurnRecord → Bool) (u : TurnRecord) (ts : List TurnRecord)
    → select_first p ts ≡ some u
    → Recorded u ts
select_first-Recorded p u [] e = absurd (ground (arith, e))
select_first-Recorded p u (t ∷ ts) e = elim (Bool-cases (p t)) [
  | inl hit ↦
      let same : t ≡ u = ground (arith, hit, e) in subst (λ x. Recorded x (t ∷ ts)) same (first ts)
  | inr miss ↦ later t ts (select_first-Recorded p u ts (ground (arith, miss, e)))
]

-- While the table has a record of a thread whose turn is STARTING, OPEN or FINISHING, a start of a
-- turn that is not recorded is refused with THREAD_BUSY, which names such a turn of the thread, and
-- changes nothing in the service, where the service is not closing and the identifiers are valid.
pub start_busy :
    (e : StartEnv) (i : StartInput) (s : Turns) (r : TurnRecord)
    → s.closing ≡ false
    → is_identifier i.thread_id ≡ true
    → is_identifier i.turn_id ≡ true
    → any (is_turn i.thread_id i.turn_id) s.db.turns ≡ false
    → Recorded r s.db.turns
    → Occupies i.thread_id r
    → (t : TurnRecord) × (Recorded t s.db.turns
        × Occupies i.thread_id t
        × (start e i s ≡ (err (thread_busy t), s)))
unfolding start admit recorded_or
start_busy e i s r going thread turn missing recorded (same, active) =
    let hit : is_active_in i.thread_id r ≡ true =
      ground (arith, IsActive-is_active r.state active, (eq_iff r.thread_id i.thread_id).1 same) in
    let (t, found) = found_active i.thread_id r s.db.turns recorded hit in
    let known = select_first-some (is_active_in i.thread_id) s.db.turns found in
    let absent = select_first-none (is_turn i.thread_id i.turn_id) s.db.turns missing in
    (
      t,
      (
        select_first-Recorded (is_active_in i.thread_id) t s.db.turns found,
        (
          (eq_iff t.thread_id i.thread_id).0 (ground (arith, known)),
          is_active-IsActive t.state (ground (arith, known)),
        ),
        rw (going, thread, turn, absent, found, recorded_or),
      ),
    )

-- The answers to a repeated start, by the request, the state and the stored error of the record.
pub data IsReplay (r : TurnRecord) (request : Request) : Result TurnView → Type 0 where
  other_request :
      request ≢ r.request_json
      → IsReplay r request (
          err
            (throws ErrorCode.invalid_argument "Turn ID was already used with a different request"))
  shown :
      request ≡ r.request_json
      → (r.state ≡ TurnState.opened) ⊎ (r.state ≡ TurnState.finished)
      → IsReplay r request (ok (view r))
  stored_error :
      (x : ServiceError)
      → request ≡ r.request_json
      → r.state ≡ TurnState.failed
      → r.error_json ≡ some x
      → IsReplay r request (err (service_error x))
  no_error :
      request ≡ r.request_json
      → r.state ≡ TurnState.failed
      → r.error_json ≡ none
      → IsReplay r request (err (throws ErrorCode.turn_closed "Turn failed without a stored error"))
  under_way :
      (name : String)
      → request ≡ r.request_json
      → ((r.state ≡ TurnState.starting) × (name ≡ "STARTING"))
        ⊎ ((r.state ≡ TurnState.finishing) × (name ≡ "FINISHING"))
      → IsReplay r request (err (throws ErrorCode.thread_busy (append_text "Turn is " name)))

by_state-IsReplay :
    (r : TurnRecord) (request : Request) (state : TurnState)
    → r.state ≡ state
    → request ≡ r.request_json
    → IsReplay r request (by_state r state)
by_state-IsReplay r request TurnState.opened e same = shown same (inl e)
by_state-IsReplay r request TurnState.finished e same = shown same (inr e)
by_state-IsReplay r request TurnState.starting e same = under_way "STARTING" same (inl (e, refl))
by_state-IsReplay r request TurnState.finishing e same = under_way "FINISHING" same (inr (e, refl))
by_state-IsReplay r request TurnState.failed e same = elim (Option-cases r.error_json) [
  | inl none_stored ↦
      let answer : replay_error {A = TurnView} r
          ≡ err (throws ErrorCode.turn_closed "Turn failed without a stored error") =
        rw none_stored refl in
      subst (λ a. IsReplay r request a) (sym answer) (no_error same e none_stored)
  | inr (x, stored) ↦
      let answer : replay_error {A = TurnView} r ≡ err (service_error x) = rw stored refl in
      subst (λ a. IsReplay r request a) (sym answer) (stored_error x same e stored)
]

existing_start-IsReplay :
    (r : TurnRecord) (request : Request) → IsReplay r request (existing_start r request)
unfolding existing_start
existing_start-IsReplay r request = elim (Bool-cases (request_eq r.request_json request)) [
  | inl e ↦
      rw e (
        by_state-IsReplay r request r.state refl
          (sym ((request_eq_iff r.request_json request).0 e)))
  | inr e ↦ rw e (
      other_request
        (λ same. ground (arith, e, (request_eq_iff r.request_json request).1 (sym same))))
]

-- Where the service is not closing and the identifiers are valid, a start of a recorded turn changes
-- nothing in the service. Another request than the recorded one is refused with INVALID_ARGUMENT;
-- the same is answered with the view of an open or finished turn, with the stored error of a failed
-- one, or TURN_CLOSED if none is stored, and with THREAD_BUSY while the turn starts or finishes.
pub start_again :
    (e : StartEnv) (i : StartInput) (s : Turns) (r : TurnRecord)
    → s.closing ≡ false
    → is_identifier i.thread_id ≡ true
    → is_identifier i.turn_id ≡ true
    → get_turn s.db i.thread_id i.turn_id ≡ some r
    → IsReplay r i.request (start e i s).0 × ((start e i s).1 ≡ s)
unfolding start admit recorded_or
start_again e i s r going thread turn found =
    rw (going, thread, turn, found, recorded_or) (existing_start-IsReplay r i.request, refl)
