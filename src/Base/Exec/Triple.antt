-- ===== src/Base/Exec/Triple.antt =====
-- Conditions before and after code that may throw, one rule for each way to build it.
use electrosphere.Base.Exec.{
  Result, ok, err, Exec, Await, pure, throw, gets, await, catch, attempt, modify, guard, roll_back,
  continue, handle, ◌>>=◌,
}
use electrosphere.Base.Tests.{if◌then◌else◌}
use electrosphere.Domain.Errors.{Thrown}
use mathlib.Core.Path.{◌≡◌, refl}
use mathlib.Core.Bool.{Bool, true, false}

-- `R` of the value that is returned, `Q` of the error that is thrown, and of the state then.
abbrev pub After : {S A : Type 0} → (A → S → Type 0) → (Thrown → S → Type 0) → Result A → S → Type 0
After R Q (ok a) s = R a s
After R Q (err e) s = Q e s

pub record Triple {S A : Type 0} (P : S → Type 0) (m : Exec S A) (R : A → S → Type 0)
    (Q : Thrown → S → Type 0) : Type 0 where
  pub at : (s : S) → P s → After R Q (m s).0 (m s).1

module _ {S A : Type 0} (R : A → S → Type 0) (Q : Thrown → S → Type 0) where
  pub After-both :
      (r : Result A) (s : S) → ((a : A) → R a s) → ((e : Thrown) → Q e s) → After R Q r s
  After-both (ok a) s h k = h a
  After-both (err e) s h k = k e

  After-bind :
      {B : Type 0} (R' : B → S → Type 0) (f : A → Exec S B) (r : Result A) (s : S)
      → After R Q r s
      → ((a : A) → Triple (R a) (f a) R' Q)
      → After R' Q (continue f r s).0 (continue f r s).1
  After-bind R' f (ok a) s h k = (k a).at s h
  After-bind R' f (err e) s h k = h

  After-catch :
      (Q' : Thrown → S → Type 0) (h : Thrown → Exec S A) (r : Result A) (s : S)
      → After R Q' r s
      → ((e : Thrown) → Triple (Q' e) (h e) R Q)
      → After R Q (handle h r s).0 (handle h r s).1
  After-catch Q' h (ok a) s x k = x
  After-catch Q' h (err e) s x k = (k e).at s x

  pub After-weaken :
      (R' : A → S → Type 0) (Q' : Thrown → S → Type 0) (r : Result A) (s : S)
      → ((a : A) → R' a s → R a s)
      → ((e : Thrown) → Q' e s → Q e s)
      → After R' Q' r s
      → After R Q r s
  After-weaken R' Q' (ok a) s h k x = h a x
  After-weaken R' Q' (err e) s h k x = k e x

  After-roll_back :
      (before : S) (r : Result A) (s : S)
      → After R (λ e _. Q e before) r s
      → After R Q (roll_back before r s).0 (roll_back before r s).1
  After-roll_back before (ok a) s h = h
  After-roll_back before (err e) s h = h

After-state :
    {S A : Type 0} (I : S → Type 0) (r : Result A) (s : S)
    → After (λ _ t. I t) (λ _ t. I t) r s
    → I s
After-state I (ok a) s h = h
After-state I (err e) s h = h

module _ {S A : Type 0} {P : S → Type 0} {R : A → S → Type 0} {Q : Thrown → S → Type 0} where
  pub Triple-pure : (a : A) → ((s : S) → P s → R a s) → Triple P (pure a) R Q
  Triple-pure a h = record { at = h }

  pub Triple-throw : (e : Thrown) → ((s : S) → P s → Q e s) → Triple P (throw {A = A} e) R Q
  Triple-throw e h = record { at = h }

  pub Triple-gets : (f : S → A) → ((s : S) → P s → R (f s) s) → Triple P (gets f) R Q
  Triple-gets f h = record { at = h }

  pub Triple-await :
      (a : Await S A)
      → ((s : S) → P s → (x : A) → R x (a.meanwhile s))
      → ((s : S) → P s → (e : Thrown) → Q e (a.meanwhile s))
      → Triple P (await a) R Q
  Triple-await a h k = record {
    at = λ s p. After-both R Q a.outcome (a.meanwhile s) (h s p) (k s p);
  }

  pub Triple-bind :
      {B : Type 0} {R' : B → S → Type 0} (m : Exec S A) (f : A → Exec S B)
      → Triple P m R Q
      → ((a : A) → Triple (R a) (f a) R' Q)
      → Triple P (m >>= f) R' Q
  Triple-bind {R' = R'} m f h k = record {
    at = λ s p. After-bind R Q R' f (m s).0 (m s).1 (h.at s p) k;
  }

  pub Triple-catch :
      {Q' : Thrown → S → Type 0} (m : Exec S A) (h : Thrown → Exec S A)
      → Triple P m R Q'
      → ((e : Thrown) → Triple (Q' e) (h e) R Q)
      → Triple P (catch m h) R Q
  Triple-catch {Q' = Q'} m h x k = record {
    at = λ s p. After-catch R Q Q' h (m s).0 (m s).1 (x.at s p) k;
  }

  pub Triple-weaken :
      {P' : S → Type 0} {R' : A → S → Type 0} {Q' : Thrown → S → Type 0} (m : Exec S A)
      → Triple P' m R' Q'
      → ((s : S) → P s → P' s)
      → ((a : A) (s : S) → R' a s → R a s)
      → ((e : Thrown) (s : S) → Q' e s → Q e s)
      → Triple P m R Q
  Triple-weaken {R' = R'} {Q' = Q'} m t p r q = record {
    at = λ s x.
        After-weaken R Q R' Q' (m s).0 (m s).1 (λ a. r a (m s).1) (λ e. q e (m s).1)
          (t.at s (p s x));
  }

module _ {S A : Type 0} {P : S → Type 0} {R : A → S → Type 0} {Q Q' : Thrown → S → Type 0} where
  -- The outcome as a value carries the condition that goes with it.
  pub Triple-attempt : (m : Exec S A) → Triple P m R Q → Triple P (attempt m) (After R Q) Q'
  Triple-attempt m h = record { at = h.at }

module _ {S : Type 0} {P : S → Type 0} {Q : Thrown → S → Type 0} where
  pub Triple-modify :
      {R : S → Type 0} (f : S → S) → ((s : S) → P s → R (f s)) → Triple P (modify f) (λ _ s. R s) Q
  Triple-modify f h = record { at = h }

  pub Triple-guard :
      (b : Bool) (e : Thrown)
      → ((s : S) → P s → Q e s)
      → Triple P (guard b e) (λ _ s. (b ≡ true) × P s) Q
  Triple-guard true e h = record { at = λ s p. (refl, p) }
  Triple-guard false e h = record { at = h }

module _ {S A : Type 0} {P I : S → Type 0} where
  -- Where only the state matters.
  pub Triple-state :
      (m : Exec S A) → Triple P m (λ _ t. I t) (λ _ t. I t) → (s : S) → P s → I (m s).1
  Triple-state m h s p = After-state I (m s).0 (m s).1 (h.at s p)

pub After-always :
    {S A : Type 0} (I : S → Type 0) (r : Result A) (s : S)
    → I s
    → After (λ _ t. I t) (λ _ t. I t) r s
After-always I (ok a) s h = h
After-always I (err e) s h = h

-- Code that keeps a condition, whether it returns or throws.
abbrev pub Keeps : {S A : Type 0} → (S → Type 0) → Exec S A → Type 0
Keeps P m = Triple P m (λ _. P) (λ _. P)

module _ {S A B : Type 0} {P : S → Type 0} where
  pub Keeps-bind :
      (m : Exec S A) (f : A → Exec S B) → Keeps P m → ((a : A) → Keeps P (f a)) → Keeps P (m >>= f)
  Keeps-bind m f h k = Triple-bind m f h k

module _ {S A B : Type 0} {P : S → Type 0} where
  -- Code behind a result, where the result is known.
  pub Keeps-continue :
      (r : Result A) (f : A → Exec S B)
      → ((a : A) → r ≡ ok a → Keeps P (f a))
      → Keeps P (continue f r)
  Keeps-continue (ok a) f h = h a refl
  Keeps-continue (err e) f h = record { at = λ s p. p }

module _ {S A : Type 0} {P : S → Type 0} where
  pub Keeps-pure : (a : A) → Keeps P (pure a)
  Keeps-pure a = record { at = λ s h. h }

  pub Keeps-if : (b : Bool) (m n : Exec S A) → Keeps P m → Keeps P n → Keeps P (if b then m else n)
  Keeps-if true m n h k = h
  Keeps-if false m n h k = k

  pub Keeps-throw : (e : Thrown) → Keeps P (throw {A = A} e)
  Keeps-throw e = record { at = λ s h. h }

  pub Keeps-gets : (f : S → A) → Keeps P (gets f)
  Keeps-gets f = record { at = λ s h. h }

  pub Keeps-await : (a : Await S A) → ((s : S) → P s → P (a.meanwhile s)) → Keeps P (await a)
  Keeps-await a h = Triple-await a (λ s p _. h s p) (λ s p _. h s p)

  pub Keeps-catch :
      (m : Exec S A) (h : Thrown → Exec S A)
      → Keeps P m
      → ((e : Thrown) → Keeps P (h e))
      → Keeps P (catch m h)
  Keeps-catch m h x k = Triple-catch m h x k

  pub Keeps-attempt : (m : Exec S A) → Keeps P m → Keeps P (attempt m)
  Keeps-attempt m h = record { at = Triple-state m h }

module _ {S : Type 0} {P : S → Type 0} where
  pub Keeps-guard : (b : Bool) (e : Thrown) → Keeps P (guard b e)
  Keeps-guard true e = record { at = λ s h. h }
  Keeps-guard false e = record { at = λ s h. h }

pub ruleset keeps_rules = (
  Keeps-bind, Keeps-pure, Keeps-throw, Keeps-gets, Keeps-await, Keeps-catch, Keeps-attempt,
  Keeps-guard,
)
