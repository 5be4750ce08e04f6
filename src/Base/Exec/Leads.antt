-- ===== src/Base/Exec/Leads.antt =====
-- What holds where code returns; nothing is said of what it leaves when it throws.
use electrosphere.Base.Exec.{Result, ok, err, Exec, guard, lift, ◌>>◌}
use electrosphere.Base.Exec.Triple.{Triple, After-both}
use electrosphere.Domain.Errors.{Thrown}
use mathlib.Core.Path.{◌≡◌, refl}
use mathlib.Core.Bool.{Bool, true, false}

abbrev pub Anything : {S : Type 0} → Thrown → S → Type 0
Anything e s = Unit {0}

abbrev pub Leads : {S A : Type 0} → (S → Type 0) → Exec S A → (A → S → Type 0) → Type 0
Leads P m R = Triple P m R Anything

module _ {S : Type 0} {P : S → Type 0} where
  pub Leads-lift : {A : Type 0} (r : Result A) → Leads P (lift r) (λ a s. (r ≡ ok a) × P s)
  Leads-lift (ok a) = record { at = λ s p. (refl, p) }
  Leads-lift (err e) = record { at = λ s p. tt }

  pub Leads-anywhere : {A : Type 0} (m : Exec S A) → Leads P m (λ _ _. Unit {0})
  Leads-anywhere m = record {
    at = λ s _. After-both (λ _ _. Unit {0}) Anything (m s).0 (m s).1 (λ _. tt) (λ _. tt);
  }

module _ {S A : Type 0} {R : A → S → Type 0} where
  pub Leads-exists :
      {X : Type 0} {P : X → S → Type 0} (m : Exec S A)
      → ((x : X) → Leads (P x) m R)
      → Leads (λ s. (x : X) × P x s) m R
  Leads-exists m h = record { at = λ s p. (h p.0).at s p.1 }

  pub Leads-guard :
      {P : S → Type 0} (c : Bool) (x : Thrown) (m : Exec S A)
      → (c ≡ true → Leads P m R)
      → Leads P (guard c x >> m) R
  Leads-guard true x m h = h refl
  Leads-guard false x m h = record { at = λ s p. tt }
