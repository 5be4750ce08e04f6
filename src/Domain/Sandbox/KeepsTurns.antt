-- ===== src/Domain/Sandbox/KeepsTurns.antt =====
-- The calls of the sandbox service that touch no turn.
use electrosphere.Base.{String, ◌≡◌, Option, none, some, List, Bool-cases, inl, inr}
use electrosphere.Base.Exec.{Exec}
use electrosphere.Base.Exec.Triple.{After-always, Keeps, Keeps-bind, Keeps-pure, Keeps-await}
use electrosphere.Domain.Types.{
  TurnRecord, InstanceState, Backend, BackendHandle, instance_state_eq,
}
use electrosphere.Domain.World.{World}
use electrosphere.Domain.Sandbox.{
  Service, destroy_handle, delete_live, delete_found, delete_turn_runtime, instance_directory,
}
use electrosphere.Storage.Database.{Db, InstanceRecord}
use electrosphere.Storage.Repository.Instances.{InstanceUpdate, update_instance, get_instance}

module _ (P : List TurnRecord → Type 0) where
  abbrev pub OnTurns : Db → Type 0
  OnTurns db = P db.turns

  -- Code that leaves the table of turns alone keeps what holds of it.
  pub Keeps-turns :
      {A : Type 0} (m : Exec Db A) → ((db : Db) → (m db).1.turns ≡ db.turns) → Keeps OnTurns m
  Keeps-turns m same = record {
    at = λ db h. After-always OnTurns (m db).0 (m db).1 (rw (same db) h);
  }

  pub Keeps-update_instance :
      (id : String) (u : InstanceUpdate) → Keeps OnTurns (update_instance id u)
  unfolding update_instance
  Keeps-update_instance id u = record { at = λ db h. h }

  module _ (s : Service) (w : World)
      (destroyed : (b : Backend) (h : BackendHandle) (db : Db)
        → P db.turns
        → P ((w.destroy b h).meanwhile db).turns)
      (removed : (p : String) (db : Db) → P db.turns → P ((w.remove p).meanwhile db).turns) where
    Keeps-destroy_handle :
        (b : Backend) (h : Option BackendHandle) → Keeps OnTurns (destroy_handle w b h)
    unfolding destroy_handle
    Keeps-destroy_handle b none = Keeps-pure tt
    Keeps-destroy_handle b (some h) = Keeps-await (w.destroy b h) (destroyed b h)

    Keeps-delete_live : (id : String) (r : InstanceRecord) → Keeps OnTurns (delete_live s w id r)
    unfolding delete_live
    Keeps-delete_live id r = Keeps-bind _ _ (Keeps-update_instance id _) λ _.
        Keeps-bind _ _ (Keeps-destroy_handle r.backend r.backend_handle) λ _.
          Keeps-bind _ _
            (Keeps-await (w.remove (instance_directory s id)) (removed (instance_directory s id)))
            λ _. Keeps-update_instance id _

    Keeps-delete_found :
        (id : String) (r : Option InstanceRecord) → Keeps OnTurns (delete_found s w id r)
    unfolding delete_found
    Keeps-delete_found id none = Keeps-pure tt
    Keeps-delete_found id (some r) =
        elim (Bool-cases (instance_state_eq r.state InstanceState.terminated)) [
          | inl e ↦ rw e (Keeps-pure tt)
          | inr e ↦ rw e (Keeps-delete_live id r)
        ]

    pub Keeps-delete_turn_runtime : (id : String) → Keeps OnTurns (delete_turn_runtime s w id)
    unfolding delete_turn_runtime
    Keeps-delete_turn_runtime id = record {
      at = λ db h. (Keeps-delete_found id (get_instance db id)).at db h;
    }
