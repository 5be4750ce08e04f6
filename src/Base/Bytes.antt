-- ===== src/Base/Bytes.antt =====
-- Texts xs lists of code units, with the methods of `String.prototype` that the code calls.
use electrosphere.Base.{
  ℕ, ◌≡◌, ◌↔◌, refl, Bool, true, false, ◌&&◌, ◌||◌, Option, none, some, List, [], ◌∷◌, ◌++◌, arith,
  any, ◌==◌, if◌then◌else◌,
}

abbrev pub Bytes : Type 0
Bytes = List ℕ

abbrev pub bytes_eq : Bytes → Bytes → Bool
bytes_eq [] [] = true
bytes_eq (a ∷ xs) (b ∷ ys) = (a == b) && bytes_eq xs ys
bytes_eq _ _ = false

-- `includes` of one character.
abbrev pub includes : ℕ → Bytes → Bool
includes c s = any (λ d. d == c) s

-- The rest of a text behind a prefix.
abbrev pub strip : Bytes → Bytes → Option Bytes
strip [] s = some s
strip (p ∷ ps) [] = none
strip (p ∷ ps) (c ∷ s) = if p == c then strip ps s else none

abbrev pub starts_with : Bytes → Bytes → Bool
starts_with [] s = true
starts_with (p ∷ ps) [] = false
starts_with (p ∷ ps) (c ∷ s) = (p == c) && starts_with ps s

abbrev pub ends_with : Bytes → Bytes → Bool
ends_with t [] = bytes_eq t []
ends_with t (c ∷ s) = bytes_eq t (c ∷ s) || ends_with t s

-- `includes` of a text.
abbrev pub includes_text : Bytes → Bytes → Bool
includes_text t [] = starts_with t []
includes_text t (c ∷ s) = starts_with t (c ∷ s) || includes_text t s

abbrev prepend : ℕ → List Bytes → List Bytes
prepend c [] = (c ∷ []) ∷ []
prepend c (p ∷ ps) = (c ∷ p) ∷ ps

-- `split` at one character: a text without it is one part.
abbrev pub split : ℕ → Bytes → List Bytes
split d [] = [] ∷ []
split d (c ∷ s) = if c == d then [] ∷ split d s else prepend c (split d s)

-- `join`.
abbrev pub join : ℕ → List Bytes → Bytes
join d [] = []
join d (p ∷ []) = p
join d (p ∷ q ∷ ps) = p ++ (d ∷ join d (q ∷ ps))

pub bytes_eq_iff : (xs ys : Bytes) → (bytes_eq xs ys ≡ true) ↔ (xs ≡ ys)
bytes_eq_iff [] [] = (λ _. refl, λ _. refl)
bytes_eq_iff [] (b ∷ ys) = ground arith
bytes_eq_iff (a ∷ xs) [] = ground arith
bytes_eq_iff (a ∷ xs) (b ∷ ys) = ground (arith, bytes_eq_iff xs ys)

pub bytes_eq_refl : (xs : Bytes) → bytes_eq xs xs ≡ true
bytes_eq_refl xs = (bytes_eq_iff xs xs).1 refl
