-- ===== src/Storage/Repository/Turns/Laws.antt =====
-- What an update of one turn does to the table of turns.
use electrosphere.Base.{
  String, ◌≡◌, refl, ◌∙◌, Bool, true, false, ◌&&◌, none, some, List, arith, any, update_where,
  select_first, get_or, str_eq, eq_iff, Bool-cases, inl, inr,
}
use electrosphere.Base.Exec.{ok}
use electrosphere.Base.Table.{
  Distinct, Distinct-update_where, any-update_where, any-update_where-Distinct,
  any-update_where-false, length-select-update_where, any-Distinct, update_where-narrow,
}
use electrosphere.Domain.Types.{TurnRecord, TurnState, is_active}
use electrosphere.Storage.Database.{Db, is_turn, is_active_in, unique_active}
use electrosphere.Storage.Repository.Turns.{TurnUpdate, apply_update, keys_exist, update_turn}

abbrev pub same_turn : TurnRecord → TurnRecord → Bool
same_turn a b = is_turn a.thread_id a.turn_id b

-- The keys of the table of turns, and the row of one turn.
pub record Held (thread_id turn_id : String) (turns : List TurnRecord) : Type 0 where
  pub unique : (t : String) → unique_active t turns ≡ true
  pub distinct : Distinct same_turn turns
  pub recorded : any (is_turn thread_id turn_id) turns ≡ true

-- The turn is recorded, and it is neither STARTING, OPEN nor FINISHING.
pub record Ended (thread_id turn_id : String) (turns : List TurnRecord) : Type 0 where
  pub held : Held thread_id turn_id turns
  pub ended : any (λ t. is_turn thread_id turn_id t && is_active t.state) turns ≡ false

same_turn_key :
    (w n : String) (a b : TurnRecord)
    → is_turn w n a ≡ true
    → is_turn w n b ≡ true
    → same_turn a b ≡ true
same_turn_key w n a b ha hb = ground (
  arith,
  eq_iff a.thread_id w,
  eq_iff a.turn_id n,
  eq_iff b.thread_id w,
  eq_iff b.turn_id n,
  eq_iff b.thread_id a.thread_id,
  eq_iff b.turn_id a.turn_id,
)

-- A row that an update of another thread's turn matches is not active in this thread.
other_thread :
    (t thread_id turn_id : String) (r : TurnRecord)
    → str_eq t thread_id ≡ false
    → is_turn thread_id turn_id r ≡ true
    → str_eq r.thread_id t ≡ false
other_thread t thread_id turn_id r other hit =
    ground
      (arith, other, hit, eq_iff r.thread_id t, eq_iff r.thread_id thread_id, eq_iff t thread_id)

-- Rows that change so that none becomes active keep the index.
pub unique_active-update_where :
    (t : String) (q : TurnRecord → Bool) (f : TurnRecord → TurnRecord)
    → ((r : TurnRecord) → q r ≡ true → is_active_in t (f r) ≡ true → is_active_in t r ≡ true)
    → (turns : List TurnRecord) → unique_active t turns ≡ true
    → unique_active t (update_where q f turns) ≡ true
unique_active-update_where t q f shrinks turns h =
    ground (arith, h, length-select-update_where (is_active_in t) q f shrinks turns)

module _ (thread_id turn_id : String) (u : TurnUpdate) where
  updated : List TurnRecord → List TurnRecord
  updated turns = update_where (is_turn thread_id turn_id) (apply_update u) turns

  updated-Held :
      (turns : List TurnRecord)
      → Held thread_id turn_id turns
      → unique_active thread_id (updated turns) ≡ true
      → Held thread_id turn_id (updated turns)
  unfolding updated
  updated-Held turns h checked = record {
    unique = λ t. elim (Bool-cases (str_eq t thread_id)) [
      | inl e ↦ rw ((eq_iff t thread_id).0 e) checked
      | inr e ↦
          unique_active-update_where t (is_turn thread_id turn_id) (apply_update u)
            (λ r hit a. ground (arith, a, other_thread t thread_id turn_id r e hit)) turns
            (h.unique t)
    ];
    distinct =
        Distinct-update_where same_turn (is_turn thread_id turn_id) (apply_update u) (λ x y. refl)
          (λ x y. refl) turns h.distinct;
    recorded =
        any-update_where (is_turn thread_id turn_id) (is_turn thread_id turn_id) (apply_update u)
          (λ x. refl) turns
        ∙ h.recorded;
  }

  -- Whatever an update comes to, the table keeps its keys.
  pub update_turn-Held :
      (db : Db)
      → Held thread_id turn_id db.turns
      → Held thread_id turn_id (update_turn thread_id turn_id u db).1.turns
  unfolding update_turn updated
  update_turn-Held db h = elim (Bool-cases (keys_exist db u)) [
    | inr missing ↦ rw (h.recorded, missing) h
    | inl keys ↦ elim (Bool-cases (unique_active thread_id (updated db.turns))) [
      | inl checked ↦ rw (h.recorded, keys, checked) (updated-Held db.turns h checked)
      | inr refused ↦ rw (h.recorded, keys, refused) h
    ]
  ]

  module _ (inactive : (s : TurnState) → is_active (get_or u.state s) ≡ false) where
    updated-Ended :
        (turns : List TurnRecord)
        → Held thread_id turn_id turns
        → (unique_active thread_id (updated turns) ≡ true) × Ended thread_id turn_id (updated turns)
    unfolding updated
    updated-Ended turns h =
        let checked : unique_active thread_id (updated turns) ≡ true =
          unique_active-update_where thread_id (is_turn thread_id turn_id) (apply_update u)
            (λ r hit a. ground (arith, a, inactive r.state)) turns (h.unique thread_id) in
        (
          checked,
          record {
            held = updated-Held turns h checked;
            ended =
                any-update_where-false (λ t. is_turn thread_id turn_id t && is_active t.state)
                  (is_turn thread_id turn_id) (apply_update u)
                  (λ r hit. ground (arith, inactive r.state)) (λ r miss. ground (arith, miss))
                  turns;
          },
        )

    -- An update to a final state is accepted, if the rows that it refers to exist.
    pub update_turn-Ended :
        (db : Db)
        → keys_exist db u ≡ true
        → Held thread_id turn_id db.turns
        → ((update_turn thread_id turn_id u db).0 ≡ ok tt)
          × Ended thread_id turn_id (update_turn thread_id turn_id u db).1.turns
    unfolding update_turn updated
    update_turn-Ended db keys h =
        let (checked, ended) = updated-Ended db.turns h in
        (rw (h.recorded, keys, checked), rw (h.recorded, keys, checked) ended)

  -- An update that leaves the state alone keeps an ended turn ended.
  pub update_turn-keeps_Ended :
      u.state ≡ none
      → (db : Db) → Ended thread_id turn_id db.turns
      → Ended thread_id turn_id (update_turn thread_id turn_id u db).1.turns
  unfolding update_turn updated
  update_turn-keeps_Ended same db h = record {
    held = update_turn-Held db h.held;
    ended =
        let kept =
          any-update_where (λ t. is_turn thread_id turn_id t && is_active t.state)
            (is_turn thread_id turn_id) (apply_update u) (λ r. rw same) db.turns in
        ground (arith, kept, h.ended);
  }

-- A change that ends one row of the turn leaves the turn ended.
pub Ended-update_where :
    (thread_id turn_id : String) (q : TurnRecord → Bool) (f : TurnRecord → TurnRecord)
    → ((r : TurnRecord) → q r ≡ true → is_turn thread_id turn_id r ≡ true)
    → ((r : TurnRecord) → (f r).thread_id ≡ r.thread_id)
    → ((r : TurnRecord) → (f r).turn_id ≡ r.turn_id)
    → ((r : TurnRecord) → is_active (f r).state ≡ false)
    → (turns : List TurnRecord) → Held thread_id turn_id turns
    → any q turns ≡ true
    → Ended thread_id turn_id (update_where q f turns)
Ended-update_where thread_id turn_id q f sub thread turn final turns h found = record {
  held = record {
    unique = λ t.
        unique_active-update_where t q f (λ r hit a. ground (arith, a, final r)) turns (h.unique t);
    distinct =
        Distinct-update_where same_turn q f (λ x y. rw (thread x, turn x))
          (λ x y. rw (thread y, turn y)) turns h.distinct;
    recorded =
        any-update_where (is_turn thread_id turn_id) q f (λ r. rw (thread r, turn r)) turns
        ∙ h.recorded;
  };
  ended =
      any-update_where-Distinct same_turn (is_turn thread_id turn_id) q (λ t. is_active t.state) f
        sub (same_turn_key thread_id turn_id) (λ r hit. ground (arith, final r)) turns h.distinct
        found;
}

-- An update of an active turn to another active state is accepted.
pub update_turn-active :
    (thread_id turn_id : String) (u : TurnUpdate) (db : Db) (r : TurnRecord)
    → Held thread_id turn_id db.turns
    → select_first (is_turn thread_id turn_id) db.turns ≡ some r
    → is_active r.state ≡ true
    → keys_exist db u ≡ true
    → (update_turn thread_id turn_id u db).0 ≡ ok tt
unfolding update_turn
update_turn-active thread_id turn_id u db r h found active keys =
    let narrow =
      update_where-narrow (is_turn thread_id turn_id) (λ t. is_active t.state) (apply_update u)
        db.turns
        (any-Distinct same_turn (is_turn thread_id turn_id) (λ t. is_active t.state)
          (same_turn_key thread_id turn_id) db.turns r h.distinct found active) in
    let checked =
      unique_active-update_where thread_id (λ t. is_turn thread_id turn_id t && is_active t.state)
        (apply_update u) (λ t hit a. ground (arith, hit, a)) db.turns (h.unique thread_id) in
    rw (h.recorded, keys, narrow, checked)
