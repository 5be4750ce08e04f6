-- ===== src/Domain/Sessions/Room.antt =====
-- There is room for another session unless every session is active.
use electrosphere.Base.{
  ℕ, ◌≡◌, refl, ap, ◌∙◌, Bool, true, false, not, ◌&&◌, ◌||◌, List, [], ◌∷◌, arith, any, select,
  update_where, leb, ltb, eq_refl, Bool-cases, ◌⊎◌, inl, inr,
}
use electrosphere.Domain.Sessions.{
  Session, is_session, unlist, size, is_removable, insert_by_use, sort_by_use, make_room, shrink,
  reap,
}

abbrev covers : List Session → Session → Bool
covers rs s = any (λ r. is_session r.id s) rs

-- The sessions that could leave the map and are not among `rs`.
abbrev uncovered : List Session → List Session → Bool
uncovered rs ss = any (λ s. is_removable s && not (covers rs s)) ss

any-insert_by_use :
    (p : Session → Bool) (s : Session) (ss : List Session)
    → any p (insert_by_use s ss) ≡ (p s || any p ss)
unfolding insert_by_use
any-insert_by_use p s [] = refl
any-insert_by_use p s (t ∷ ts) = ground (arith, any-insert_by_use p s ts)

any-sort_by_use : (p : Session → Bool) (ss : List Session) → any p (sort_by_use ss) ≡ any p ss
unfolding sort_by_use
any-sort_by_use p [] = refl
any-sort_by_use p (s ∷ ss) =
    any-insert_by_use p s (sort_by_use ss) ∙ ap (λ b. p s || b) (any-sort_by_use p ss)

uncovered_step :
    (r : Session) (rs ss : List Session)
    → uncovered (r ∷ rs) ss ≡ false
    → uncovered rs (update_where (is_session r.id) unlist ss) ≡ false
uncovered_step r rs [] h = refl
uncovered_step r rs (s ∷ ss) h = ground (arith, h, uncovered_step r rs ss)

uncovered-none : (ss : List Session) → uncovered [] ss ≡ false → any is_removable ss ≡ false
uncovered-none [] h = refl
uncovered-none (s ∷ ss) h = ground (arith, h, uncovered-none ss)

make_room-size :
    (rs ss : List Session)
    → uncovered rs ss ≡ false
    → (ltb (size (make_room rs ss)) 64 ≡ true) ⊎ (any is_removable (make_room rs ss) ≡ false)
unfolding make_room
make_room-size [] ss h = inr (uncovered-none ss h)
make_room-size (r ∷ rs) ss h = elim (Bool-cases (ltb (size ss) 64)) [
  | inl room ↦ rw room (inl room)
  | inr full ↦
      rw full
        (make_room-size rs (update_where (is_session r.id) unlist ss) (uncovered_step r rs ss h))
]

covers_self : (s : Session) → is_session s.id s ≡ true
covers_self s = eq_refl s.id

uncovered-start :
    (rs ss : List Session)
    → ((p : Session → Bool) → any p (select is_removable ss) ≡ true → any p rs ≡ true)
    → uncovered rs ss ≡ false
uncovered-start rs [] all = refl
uncovered-start rs (s ∷ ss) all = elim (Bool-cases (is_removable s)) [
  | inl yes_s ↦
      let own : covers rs s ≡ true = all (λ r. is_session r.id s) (rw (yes_s, covers_self s)) in
      let rest = uncovered-start rs ss (λ p h. all p (rw yes_s (ground (arith, h)))) in
      rw (own, yes_s) rest
  | inr no_s ↦ rw no_s (uncovered-start rs ss (λ p h. all p (rw no_s h)))
]

shrink-size :
    (alive : List Session)
    → (ltb (size (shrink alive)) 64 ≡ true) ⊎ (any is_removable (shrink alive) ≡ false)
unfolding shrink
shrink-size alive = elim (Bool-cases (ltb (size alive) 64)) [
  | inl few ↦ rw few (inl few)
  | inr many ↦ rw many (
      make_room-size (sort_by_use (select is_removable alive)) alive (
        uncovered-start (sort_by_use (select is_removable alive)) alive
          (λ p h. any-sort_by_use p (select is_removable alive) ∙ h)))
]

-- A reap leaves room for another session, fewer than 64, unless every session in the map is active.
pub reap_room :
    (now : ℕ) (ss : List Session)
    → (ltb (size (reap now ss)) 64 ≡ true) ⊎ (any is_removable (reap now ss) ≡ false)
unfolding reap
reap_room now ss = shrink-size (update_where (λ s. not s.active && leb s.expires_at now) unlist ss)
