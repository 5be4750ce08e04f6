-- ===== src/Base/Covering.antt =====
-- Rows that are changed one after the other, each found by its key.
use electrosphere.Base.{
  ◌≡◌, refl, Bool, true, false, not, ◌&&◌, List, [], ◌∷◌, arith, any, select, update_where,
  Bool-cases, inl, inr,
}

module _ {A : Type 0} (p : A → Bool) (k : A → A → Bool) where
  -- Whether a row satisfies `p` and has the key of no row of `rs`.
  abbrev pub uncovered : List A → List A → Bool
  uncovered rs xs = any (λ x. p x && not (any (λ r. k r x) rs)) xs

  pub uncovered-update_where :
      (r : A) (f : A → A)
      → ((x : A) → p (f x) ≡ false)
      → (rs xs : List A) → uncovered (r ∷ rs) xs ≡ false
      → uncovered rs (update_where (k r) f xs) ≡ false
  uncovered-update_where r f gone rs [] h = refl
  uncovered-update_where r f gone rs (x ∷ xs) h =
      ground (arith, h, gone x, uncovered-update_where r f gone rs xs)

  pub uncovered-none : (xs : List A) → uncovered [] xs ≡ false → any p xs ≡ false
  uncovered-none [] h = refl
  uncovered-none (x ∷ xs) h = ground (arith, h, uncovered-none xs)

  pub uncovered-start :
      ((x : A) → k x x ≡ true)
      → (rs xs : List A) → ((q : A → Bool) → any q (select p xs) ≡ true → any q rs ≡ true)
      → uncovered rs xs ≡ false
  uncovered-start own rs [] all = refl
  uncovered-start own rs (x ∷ xs) all = elim (Bool-cases (p x)) [
    | inl yes_x ↦
        let hit : any (λ r. k r x) rs ≡ true = all (λ r. k r x) (rw (yes_x, own x)) in
        rw (hit, yes_x) (uncovered-start own rs xs (λ q h. all q (rw yes_x (ground (arith, h)))))
    | inr no_x ↦ rw no_x (uncovered-start own rs xs (λ q h. all q (rw no_x h)))
  ]
