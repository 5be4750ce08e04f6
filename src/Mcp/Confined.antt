-- ===== src/Mcp/Confined.antt =====
-- What the tool handlers of src/mcp/server.ts ask of the backends.
pub mod Reads
pub mod Tools
use electrosphere.Base.{
  ℕ, zero, suc, ◌+◌, ◌≡◌, refl, sym, subst, Bool, true, false, not, ◌||◌, Option, none, some, List,
  [], ◌∷◌, All, arith, length, leb, ◌==◌, if◌then◌else◌, Bool-cases, inl, inr, Option-cases,
}
use electrosphere.Base.Bytes.{Bytes}
use electrosphere.Base.Exec.{
  Result, Result-cases, ok, err, Exec, pure, throw, lift, guard, continue, ◌>>=◌, ◌>>◌,
}
use electrosphere.Base.Exec.Triple.{
  Triple, Keeps, After-always, Keeps-bind, Keeps-continue, Keeps-pure, Keeps-throw, Triple-state,
}
use electrosphere.Domain.Errors.{Thrown}
use electrosphere.Domain.Turns.{BoundTurn}
use electrosphere.Domain.Sandbox.{get_turn_handle}
use electrosphere.Mcp.Paths.{normalize_workspace_path, normalize_workspace_pattern}
use electrosphere.Mcp.Paths.Safe.{is_clean, normalize-clean, pattern-clean}
use electrosphere.Mcp.Files.{
  Edit, GlobOptions, GrepOptions, FileReadInput, Source, FileCall, file_stat, file_read,
  file_read_bytes, file_write, file_edit, file_glob, file_grep, file_move, file_remove, Place,
  Calls, Backends, ServerState, FileContext, context_of, require_turn, file_context, ask, on_server,
}
use electrosphere.Mcp.Tools.{
  each, both, given, each_path, glob_parts, single, write_in, edit_in, glob_in, grep_in, move_in,
  remove_in, handle_write, handle_edit, handle_glob, handle_grep, handle_move, handle_remove,
}
use electrosphere.Storage.Database.{Db, InstanceRecord}

abbrev PathsClean : Option (List Bytes) → Type 0
PathsClean none = Unit
PathsClean (some paths) = All (λ p. is_clean true p ≡ true) paths

-- Every path of a call is relative and has no unsafe part; what is written, edited, moved or
-- removed is not the workspace itself.
unfoldable pub IsCleanCall : FileCall → Type 0
IsCleanCall (file_stat p) = is_clean true p ≡ true
IsCleanCall (file_read input) = is_clean true input.path ≡ true
IsCleanCall (file_read_bytes p _ _) = is_clean true p ≡ true
IsCleanCall (file_write p _ _) = is_clean false p ≡ true
IsCleanCall (file_edit p _ _) = is_clean false p ≡ true
IsCleanCall (file_glob patterns _) = All (λ p. is_clean false p ≡ true) patterns
IsCleanCall (file_grep _ paths _) = PathsClean paths
IsCleanCall (file_move s d) = (is_clean false s ≡ true) × (is_clean false d ≡ true)
IsCleanCall (file_remove p) = is_clean false p ≡ true

-- The place is the runtime that the database has for the turn, in a state that takes calls.
abbrev pub IsRuntime : Db → BoundTurn → Place → Type 0
IsRuntime db turn place =
    (i : InstanceRecord) × (((get_turn_handle turn.instance_id db).0 ≡ ok (i, place.handle))
      × (i.backend ≡ place.backend))

abbrev pub IsTurnCall : Db → BoundTurn → Place × FileCall → Type 0
IsTurnCall db turn (place, call) = IsRuntime db turn place × IsCleanCall call

module _ (db : Db) (turn : BoundTurn) where
  -- Every call so far is of the turn's runtime and clean.
  abbrev pub Confined : ServerState → Type 0
  Confined s = All (IsTurnCall db turn) s.calls

  Keeps-ask :
      {A : Type 0} (place : Place) (call : FileCall) (answer : Calls → Result A)
      → IsRuntime db turn place
      → IsCleanCall call
      → Keeps Confined (ask place call answer)
  unfolding ask
  Keeps-ask place call answer runtime clean = record {
    at = λ s h.
        After-always Confined (answer s.calls) (record s { calls = (place, call) ∷ s.calls })
          ((runtime, clean), h);
  }

  Keeps-on_server : {A : Type 0} (m : Exec Db A) → Keeps Confined (on_server m)
  Keeps-on_server m = record {
    at = λ s h. After-always Confined (m s.db).0 (record s { db = (m s.db).1 }) h;
  }

  -- Code behind the file context: it starts with the runtime of the turn.
  with_context :
      {A : Type 0} (f : FileContext → Exec ServerState A) (s : ServerState)
      → s.db ≡ db
      → Confined s
      → ((c : FileContext) → IsRuntime db turn c.place → Keeps Confined (f c))
      → Confined ((file_context (some turn) >>= f) s).1
  unfolding file_context require_turn
  with_context f s same h keeps = elim (Result-cases (get_turn_handle turn.instance_id s.db).0) [
    | inl ((i, handle), e) ↦ rw e (
        Triple-state (f (context_of turn (i, handle)))
          (keeps (context_of turn (i, handle)) (
            i,
            (subst (λ d. (get_turn_handle turn.instance_id d).0 ≡ ok (i, handle)) same e, refl),
          ))
          (record s { db = (get_turn_handle turn.instance_id s.db).1 }) h)
    | inr (x, e) ↦ rw e h
  ]

ok_inj : {A : Type 0} (x y : A) → ok x ≡ ok y → x ≡ y
ok_inj x y e = ground (arith, e)

ok_err : {A : Type 0} (x : A) (t : Thrown) → err t ≡ ok x → ⊥
ok_err x t e = ground (arith, e)

both_ok :
    (r : Result Bytes) (rs : Result (List Bytes)) (qs : List Bytes)
    → both r rs ≡ ok qs
    → (y : Bytes) × (ys : List Bytes) × (r ≡ ok y) × (rs ≡ ok ys) × (y ∷ ys ≡ qs)
both_ok (err t) rs qs e = absurd (ok_err qs t e)
both_ok (ok y) (err t) qs e = absurd (ok_err qs t e)
both_ok (ok y) (ok ys) qs e = (y, ys, refl, refl, ok_inj (y ∷ ys) qs e)

given_ok :
    (rs : Result (List Bytes)) (ps : Option (List Bytes))
    → given rs ≡ ok ps
    → (qs : List Bytes) × (rs ≡ ok qs) × (some qs ≡ ps)
given_ok (err t) ps e = absurd (ok_err ps t e)
given_ok (ok qs) ps e = (qs, refl, ok_inj (some qs) ps e)

each-clean :
    (allow_root : Bool) (f : Bytes → Result Bytes)
    → ((p q : Bytes) → f p ≡ ok q → is_clean allow_root q ≡ true)
    → (ps qs : List Bytes) → each f ps ≡ ok qs
    → All (λ q. is_clean allow_root q ≡ true) qs
unfolding each
each-clean allow_root f clean [] qs e =
    subst (All (λ q. is_clean allow_root q ≡ true)) (ok_inj [] qs e) tt
each-clean allow_root f clean (p ∷ ps) qs e =
    let (q, rest, first, others, same) = both_ok (f p) (each f ps) qs e in
    subst (All (λ q. is_clean allow_root q ≡ true)) same
      (clean p q first, each-clean allow_root f clean ps rest others)

paths-PathsClean : (paths ps : Option (List Bytes)) → each_path paths ≡ ok ps → PathsClean ps
unfolding each_path
paths-PathsClean none ps e = subst PathsClean (ok_inj none ps e) tt
paths-PathsClean (some paths) ps e =
    let (qs, found, same) = given_ok (each (normalize_workspace_path true) paths) ps e in
    subst PathsClean same
      (each-clean true (normalize_workspace_path true) (normalize-clean true) paths qs found)

module _ (db : Db) (turn : BoundTurn) (b : Backends) (c : FileContext)
    (runtime : IsRuntime db turn c.place) where
  write_in-Confined :
      (path bytes : Bytes) (create_parents : Bool)
      → Keeps (Confined db turn) (write_in b path bytes create_parents c)
  unfolding write_in IsCleanCall
  write_in-Confined path bytes create_parents =
      Keeps-continue (normalize_workspace_path false path) _ λ p e.
        Keeps-bind _ _
          (Keeps-ask db turn c.place (file_write p (single bytes) create_parents) _ runtime
            (normalize-clean false path p e))
          λ written. Keeps-pure (p, written)

  edit_in-Confined :
      (path digest : Bytes) (edits : List Edit)
      → Keeps (Confined db turn) (edit_in b path digest edits c)
  unfolding edit_in IsCleanCall
  edit_in-Confined path digest edits = Keeps-continue (normalize_workspace_path false path) _ λ p e.
      Keeps-bind _ _
        (Keeps-ask db turn c.place (file_edit p digest edits) _ runtime
          (normalize-clean false path p e))
        λ edited. Keeps-pure (p, edited)

  glob_in-Confined :
      (pattern : Bytes) (options : GlobOptions)
      → Keeps (Confined db turn) (glob_in b pattern options c)
  unfolding glob_in IsCleanCall
  glob_in-Confined pattern options =
      Keeps-continue (each normalize_workspace_pattern (glob_parts pattern)) _ λ patterns e.
        elim (Bool-cases (not (length patterns == 0))) [
          | inl some_left ↦ rw some_left (
              Keeps-ask db turn c.place (file_glob patterns options) _ runtime (
                each-clean false normalize_workspace_pattern pattern-clean (glob_parts pattern)
                  patterns e))
          | inr none_left ↦ rw none_left (Keeps-throw _)
        ]

  grep_in-Confined :
      (pattern : Bytes) (paths : Option (List Bytes)) (options : GrepOptions)
      → Keeps (Confined db turn) (grep_in b pattern paths options c)
  unfolding grep_in IsCleanCall
  grep_in-Confined pattern paths options = Keeps-continue (each_path paths) _ λ ps e.
      Keeps-ask db turn c.place (file_grep pattern ps options) _ runtime
        (paths-PathsClean paths ps e)

  move_in-Confined :
      (source destination : Bytes) → Keeps (Confined db turn) (move_in b source destination c)
  unfolding move_in IsCleanCall
  move_in-Confined source destination =
      Keeps-continue (normalize_workspace_path false source) _ λ s e.
        Keeps-continue (normalize_workspace_path false destination) _ λ d f.
          Keeps-bind _ _
            (Keeps-ask db turn c.place (file_move s d) _ runtime
              (normalize-clean false source s e, normalize-clean false destination d f))
            λ _. Keeps-pure (s, d)

  remove_in-Confined : (path : Bytes) → Keeps (Confined db turn) (remove_in b path c)
  unfolding remove_in IsCleanCall
  remove_in-Confined path = Keeps-continue (normalize_workspace_path false path) _ λ p e.
      Keeps-bind _ _
        (Keeps-ask db turn c.place (file_remove p) _ runtime (normalize-clean false path p e))
        λ _. Keeps-pure p
