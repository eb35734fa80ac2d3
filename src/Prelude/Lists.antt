-- ===== src/Prelude/Lists.antt =====
-- Lists measured by native numbers, and predicates on lists that compute.
use Prim.Native.Nat.{ℕ, suc, ◌+◌, ◌≤◌}
use Prim.Native.String.{String}
use mathlib.Core.Path.{◌≡◌, refl, sym, subst}
use mathlib.Core.Logic.{◌⊎◌, ◌↔◌, inl, inr}
use mathlib.Core.Bool.{Bool, true, false}
use mathlib.Core.List.{List, [], ◌∷◌, ◌++◌}
use native.Mathlib.Omega.{arith}
use text.Mathlib.Text.{◌==◌}
use mercury_relay.Prelude.Tests.{if◌then◌else◌}

module _ {ℓ} {A : Type ℓ} where
  abbrev pub length : List A → ℕ
  length [] = 0
  length (x ∷ xs) = suc (length xs)

  -- The elements that pass a test, in order.
  abbrev pub filter : (A → Bool) → List A → List A
  filter p [] = []
  filter p (x ∷ xs) = let rest = filter p xs in if p x then x ∷ rest else rest

  abbrev pub any : (A → Bool) → List A → Bool
  any p [] = false
  any p (x ∷ xs) = if p x then true else any p xs

  pub length-append : (xs ys : List A) → length (xs ++ ys) ≡ length xs + length ys
  length-append [] ys = omega arith
  length-append (x ∷ xs) ys = omega (arith, length-append xs ys)

  pub length-filter-le : (p : A → Bool) (xs : List A) → length (filter p xs) ≤ length xs
  length-filter-le p [] = omega arith
  length-filter-le p (x ∷ xs) = ground (arith, length-filter-le p xs)

-- Every element satisfies the predicate.
abbrev pub All {ℓ p} : {A : Type ℓ} → (A → Type p) → List A → Type p
All Q [] = Unit
All Q (a ∷ rest) = Q a × All Q rest

-- Some element of a list.
abbrev pub Any {ℓ} : {A : Type ℓ} → (A → Type 0) → List A → Type 0
Any P [] = ⊥
Any P (x ∷ xs) = P x ⊎ Any P xs

-- Whether a text is an element of a list.
abbrev pub elem : String → List String → Bool
elem s [] = false
elem s (t ∷ ts) = if s == t then true else elem s ts

pub Any-append :
    {A : Type 0} (P : A → Type 0) (xs ys : List A) → Any P (xs ++ ys) ↔ (Any P xs ⊎ Any P ys)
Any-append P [] ys = (λ h. inr h, λ h. elim h [ inl e ↦ absurd e | inr y ↦ y ])
Any-append P (x ∷ xs) ys = ground (arith, Any-append P xs ys)

-- An element of a list.
abbrev pub IsIn : {A : Type 0} → A → List A → Type 0
IsIn a xs = Any (λ x. x ≡ a) xs

pub Any-found : {A : Type 0} (P : A → Type 0) (xs : List A) → Any P xs → (x : A) × (IsIn x xs × P x)
Any-found P [] h = absurd h
Any-found P (x ∷ xs) (inl p) = (x, (inl refl, p))
Any-found P (x ∷ xs) (inr h) = let (y, (i, p)) = Any-found P xs h in (y, (inr i, p))

pub Any-put : {A : Type 0} (P : A → Type 0) (y : A) (xs : List A) → IsIn y xs → P y → Any P xs
Any-put P y [] h p = absurd h
Any-put P y (x ∷ xs) (inl e) p = inl (subst P (sym e) p)
Any-put P y (x ∷ xs) (inr i) p = inr (Any-put P y xs i p)
