-- ===== src/Base/Exec.antt =====
-- Code that reads and writes a state and may throw. What was written before a throw stays
-- written, so the state comes back beside the error.
pub mod Triple
pub mod Leads
use mathlib.Core.Path.{◌≡◌, refl}
use mathlib.Core.Logic.{◌⊎◌, inl, inr}
use mathlib.Core.Bool.{Bool, true, false}
use electrosphere.Domain.Errors.{Thrown}

pub data Result {ℓ} (A : Type ℓ) : Type ℓ where
  ok : A → Result A
  err : Thrown → Result A

pub Result-cases {ℓ} :
    {A : Type ℓ} (r : Result A) → ((a : A) × (r ≡ ok a)) ⊎ ((e : Thrown) × (r ≡ err e))
Result-cases (ok a) = inl (a, refl)
Result-cases (err e) = inr (e, refl)

abbrev pub Exec {ℓ} : Type ℓ → Type ℓ → Type ℓ
Exec S A = S → Result A × S

-- What an awaited call of code outside the component came to, and what the other tasks of the
-- event loop did to the state while it was awaited.
pub record Await {ℓ} (S A : Type ℓ) : Type ℓ where
  pub outcome : Result A
  pub meanwhile : S → S

module _ {ℓ} {S A : Type ℓ} where
  abbrev pub pure : A → Exec S A
  pure a s = (ok a, s)

  abbrev pub throw : Thrown → Exec S A
  throw e s = (err e, s)

  abbrev pub gets : (S → A) → Exec S A
  gets f s = (ok (f s), s)

  abbrev pub lift : Result A → Exec S A
  lift r s = (r, s)

  abbrev pub await : Await S A → Exec S A
  await a s = (a.outcome, a.meanwhile s)

abbrev pub modify : {S : Type 0} → (S → S) → Exec S (Unit {0})
modify f s = (ok tt, f s)

abbrev pub guard : {S : Type 0} → Bool → Thrown → Exec S (Unit {0})
guard true e s = (ok tt, s)
guard false e s = (err e, s)

module _ {ℓ} {S A B : Type ℓ} where
  abbrev pub continue : (A → Exec S B) → Result A → S → Result B × S
  continue f (ok a) s = f a s
  continue f (err e) s = (err e, s)

  infixl 10 ◌>>=◌ ◌>>◌
  abbrev pub ◌>>=◌ : Exec S A → (A → Exec S B) → Exec S B
  ◌>>=◌ m f s = continue f (m s).0 (m s).1

  abbrev pub ◌>>◌ : Exec S A → Exec S B → Exec S B
  m >> n = m >>= λ _. n

module _ {ℓ} {S A : Type ℓ} where
  abbrev pub handle : (Thrown → Exec S A) → Result A → S → Result A × S
  handle h (ok a) s = (ok a, s)
  handle h (err e) s = h e s

  -- `try { m } catch (e) { h(e) }`.
  abbrev pub catch : Exec S A → (Thrown → Exec S A) → Exec S A
  catch m h s = handle h (m s).0 (m s).1

  -- `try` with the outcome kept.
  abbrev pub attempt : Exec S A → Exec S (Result A)
  attempt m s = (ok (m s).0, (m s).1)

  -- A transaction that throws is rolled back.
  abbrev pub roll_back : S → Result A → S → Result A × S
  roll_back before (ok a) s = (ok a, s)
  roll_back before (err e) s = (err e, before)

  abbrev pub transaction : Exec S A → Exec S A
  transaction m s = roll_back s (m s).0 (m s).1
