-- ===== src/Base/Table.antt =====
-- Laws of the queries of `Base/Lists`, for rows of any type.
use mathlib.Core.Option
use mathlib.Core.Path.{fun_ext}
use electrosphere.Base.{
  ◌≤◌, ◌≡◌, refl, ◌∙◌, Bool, true, false, not, ◌&&◌, none, some, List, [], ◌∷◌, arith, length,
  select, select_first, update_where, any, if◌then◌else◌, Bool-cases, inl, inr,
}

module _ {ℓ} {A : Type ℓ} where
  -- Each row is the only one with its key.
  abbrev pub Distinct : (A → A → Bool) → List A → Type 0
  Distinct same [] = Unit
  Distinct same (x ∷ xs) = (any (same x) xs ≡ false) × Distinct same xs

  pub select_first-update_where :
      (p q : A → Bool) (f : A → A)
      → ((x : A) → p (f x) ≡ p x)
      → (xs : List A)
      → select_first p (update_where q f xs)
        ≡ Option.map (λ x. if q x then f x else x) (select_first p xs)
  select_first-update_where p q f keeps [] = refl
  select_first-update_where p q f keeps (x ∷ xs) =
      ground (arith, keeps x, select_first-update_where p q f keeps xs)

  pub any-update_where :
      (p q : A → Bool) (f : A → A)
      → ((x : A) → p (f x) ≡ p x)
      → (xs : List A) → any p (update_where q f xs) ≡ any p xs
  any-update_where p q f keeps [] = refl
  any-update_where p q f keeps (x ∷ xs) = ground (arith, keeps x, any-update_where p q f keeps xs)

  pub update_where-none :
      (q : A → Bool) (f : A → A) (xs : List A) → any q xs ≡ false → update_where q f xs ≡ xs
  update_where-none q f [] h = refl
  update_where-none q f (x ∷ xs) h = ground (arith, update_where-none q f xs)

  pub select_first-none : (p : A → Bool) (xs : List A) → any p xs ≡ false → select_first p xs ≡ none
  select_first-none p [] h = refl
  select_first-none p (x ∷ xs) h = ground (arith, select_first-none p xs)

  pub select_first-some :
      (p : A → Bool) (xs : List A) {x : A} → select_first p xs ≡ some x → p x ≡ true
  select_first-some p [] h = ground arith
  select_first-some p (y ∷ xs) {x} h = elim (Bool-cases (p y)) [
    | inl yes_p ↦ ground arith
    | inr no_p ↦ select_first-some p xs (ground arith)
  ]

  pub any-select_first :
      (p : A → Bool) (xs : List A) {x : A} → select_first p xs ≡ some x → any p xs ≡ true
  any-select_first p [] h = ground arith
  any-select_first p (y ∷ xs) {x} h = ground (arith, any-select_first p xs {x = x})

  -- The rows that satisfy `p` do not become more when no row comes to satisfy it.
  pub length-select-update_where :
      (p q : A → Bool) (f : A → A)
      → ((x : A) → q x ≡ true → p (f x) ≡ true → p x ≡ true)
      → (xs : List A) → length (select p (update_where q f xs)) ≤ length (select p xs)
  length-select-update_where p q f shrinks [] = omega arith
  length-select-update_where p q f shrinks (x ∷ xs) =
      ground (arith, shrinks x, length-select-update_where p q f shrinks xs)

module _ {ℓ} {A : Type ℓ} where
  pub any_mono :
      (p q : A → Bool)
      → ((x : A) → p x ≡ true → q x ≡ true)
      → (xs : List A) → any p xs ≡ true
      → any q xs ≡ true
  any_mono p q implies [] h = h
  any_mono p q implies (x ∷ xs) h = ground (arith, implies x, any_mono p q implies xs)

  -- Where a key is unique, a row that satisfies `q` is the first with that key.
  pub select_first-Distinct :
      (same : A → A → Bool) (p q : A → Bool)
      → ((x : A) → q x ≡ true → p x ≡ true)
      → ((x y : A) → p x ≡ true → p y ≡ true → same x y ≡ true)
      → (xs : List A) → Distinct same xs
      → any q xs ≡ true
      → (x : A) × (select_first p xs ≡ some x) × (q x ≡ true)
  select_first-Distinct same p q sub key [] d h = cc
  select_first-Distinct same p q sub key (x ∷ xs) d h = elim (Bool-cases (p x)) [
    | inl hit ↦ (
      x,
      rw hit,
      elim (Bool-cases (q x)) [
        | inl e ↦ e
        | inr e ↦
            absurd (
              ground
                (arith, any_mono q (same x) (λ y hy. key x y hit (sub y hy)) xs (ground arith)))
      ],
    )
    | inr miss ↦ rw miss (select_first-Distinct same p q sub key xs d.1 (ground (arith, sub x)))
  ]

  pub any-update_where-false :
      (p q : A → Bool) (f : A → A)
      → ((x : A) → q x ≡ true → p (f x) ≡ false)
      → ((x : A) → q x ≡ false → p x ≡ false)
      → (xs : List A) → any p (update_where q f xs) ≡ false
  any-update_where-false p q f hit miss [] = refl
  any-update_where-false p q f hit miss (x ∷ xs) = elim (Bool-cases (q x)) [
    | inl e ↦ rw (e, hit x e) (any-update_where-false p q f hit miss xs)
    | inr e ↦ rw (e, miss x e) (any-update_where-false p q f hit miss xs)
  ]

  pub Distinct-update_where :
      (same : A → A → Bool) (q : A → Bool) (f : A → A)
      → ((x y : A) → same (f x) y ≡ same x y)
      → ((x y : A) → same x (f y) ≡ same x y)
      → (xs : List A) → Distinct same xs
      → Distinct same (update_where q f xs)
  Distinct-update_where same q f left right [] d = tt
  Distinct-update_where same q f left right (x ∷ xs) d = elim (Bool-cases (q x)) [
    | inl e ↦ rw e (
      rw (fun_ext (left x)) (any-update_where (same x) q f (right x) xs ∙ d.0),
      Distinct-update_where same q f left right xs d.1,
    )
    | inr e ↦ rw e (
      any-update_where (same x) q f (right x) xs ∙ d.0,
      Distinct-update_where same q f left right xs d.1,
    )
  ]

  pub any_anti :
      (p q : A → Bool)
      → ((x : A) → p x ≡ true → q x ≡ true)
      → (xs : List A) → any q xs ≡ false
      → any p xs ≡ false
  any_anti p q implies xs h = elim (Bool-cases (any p xs)) [
    | inl e ↦ absurd (ground (arith, any_mono p q implies xs e, h))
    | inr e ↦ e
  ]

  -- Where a key is unique, a change of the row that satisfies `q` leaves no other with the key.
  pub any-update_where-Distinct :
      (same : A → A → Bool) (p q r : A → Bool) (f : A → A)
      → ((x : A) → q x ≡ true → p x ≡ true)
      → ((x y : A) → p x ≡ true → p y ≡ true → same x y ≡ true)
      → ((x : A) → q x ≡ true → (p (f x) && r (f x)) ≡ false)
      → (xs : List A) → Distinct same xs
      → any q xs ≡ true
      → any (λ x. p x && r x) (update_where q f xs) ≡ false
  any-update_where-Distinct same p q r f sub key gone [] d h = cc
  any-update_where-Distinct same p q r f sub key gone (x ∷ xs) d h = elim (Bool-cases (q x)) [
    | inl hit ↦
        let others : any p xs ≡ false =
          any_anti p (same x) (λ y hy. key x y (sub x hit) hy) xs d.0 in
        let rest : any q xs ≡ false = any_anti q p sub xs others in
        rw (hit, gone x hit, update_where-none q f xs rest)
          (any_anti (λ y. p y && r y) p (λ y hy. ground (arith, hy)) xs others)
    | inr miss ↦ elim (Bool-cases (p x)) [
      | inl at ↦
          absurd (ground (arith, miss, any_anti q (same x) (λ y hy. key x y at (sub y hy)) xs d.0))
      | inr away ↦
          rw (miss, away)
            (any-update_where-Distinct same p q r f sub key gone xs d.1 (ground (arith, miss)))
    ]
  ]

  -- Where a key is unique, what holds of the first row with the key holds of each.
  pub any-Distinct :
      (same : A → A → Bool) (p a : A → Bool)
      → ((x y : A) → p x ≡ true → p y ≡ true → same x y ≡ true)
      → (xs : List A) (r : A) → Distinct same xs
      → select_first p xs ≡ some r
      → a r ≡ true
      → any (λ x. p x && not (a x)) xs ≡ false
  any-Distinct same p a key [] r d e h = refl
  any-Distinct same p a key (x ∷ xs) r d e h = elim (Bool-cases (p x)) [
    | inl hit ↦
        let others : any p xs ≡ false = any_anti p (same x) (λ y hy. key x y hit hy) xs d.0 in
        let first : x ≡ r = ground (arith, e, hit) in
        rw (hit, first, h)
          (any_anti (λ y. p y && not (a y)) p (λ y hy. ground (arith, hy)) xs others)
    | inr miss ↦ rw miss (any-Distinct same p a key xs r d.1 (ground (arith, e, miss)) h)
  ]

  pub update_where-narrow :
      (p a : A → Bool) (f : A → A) (xs : List A)
      → any (λ x. p x && not (a x)) xs ≡ false
      → update_where p f xs ≡ update_where (λ x. p x && a x) f xs
  update_where-narrow p a f [] h = refl
  update_where-narrow p a f (x ∷ xs) h = ground (arith, h, update_where-narrow p a f xs)

  pub any-none : (p : A → Bool) (xs : List A) → select_first p xs ≡ none → any p xs ≡ false
  any-none p [] h = refl
  any-none p (x ∷ xs) h = ground (arith, h, any-none p xs)

  pub length-select-none :
      (p : A → Bool) (xs : List A) → select_first p xs ≡ none → length (select p xs) ≡ 0
  length-select-none p [] h = refl
  length-select-none p (x ∷ xs) h = ground (arith, h, length-select-none p xs)
