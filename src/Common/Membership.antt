-- ===== src/Common/Membership.antt =====
-- Membership under `map`, filters and indices.
use Prim.Native.Nat.{ℕ, zero, suc, ◌<◌}
use mathlib.Core.Path.{◌≡◌, refl, sym, ap, ◌∙◌}
use mathlib.Core.Bool.{Bool, true, false}
use mathlib.Core.Option.{some}
use mathlib.Core.Logic.{◌⊎◌, inl, inr}
use mathlib.Core.List.{List, [], ◌∷◌, ◌++◌, map}
use native.Mathlib.Omega.{arith}
use lzd.Common.Tests.{Bool-cases}
use lzd.Common.Lists.{In, All, length, get_elem?, keep_if, all_of, any_of}

module _ {A B : Type 0} (f : A → B) where
  pub In-map : (a : A) (xs : List A) → In a xs → In (f a) (map f xs)
  In-map a [] i = elim i [ ]
  In-map a (x ∷ xs) (inl e) = inl (ap f e)
  In-map a (x ∷ xs) (inr i) = inr (In-map a xs i)

  pub map-In : (y : B) (xs : List A) → In y (map f xs) → (a : A) × In a xs × (f a ≡ y)
  map-In y [] i = elim i [ ]
  map-In y (x ∷ xs) (inl e) = (x, inl refl, sym e)
  map-In y (x ∷ xs) (inr i) = let (a, j, e) = map-In y xs i in (a, inr j, e)

module _ {A : Type 0} (p : A → Bool) where
  pub In-keep_if : (a : A) (xs : List A) → In a xs → p a ≡ true → In a (keep_if p xs)
  In-keep_if a [] i h = elim i [ ]
  In-keep_if a (x ∷ xs) (inl e) h = rw (sym (ap p e) ∙ h) (inl e)
  In-keep_if a (x ∷ xs) (inr i) h = elim (Bool-cases (p x)) [
    | inl e ↦ rw e (inr (In-keep_if a xs i h))
    | inr e ↦ rw e (In-keep_if a xs i h)
  ]

  pub keep_if-In : (a : A) (xs : List A) → In a (keep_if p xs) → In a xs × (p a ≡ true)
  keep_if-In a [] i = elim i [ ]
  keep_if-In a (x ∷ xs) i = elim (Bool-cases (p x)) [
    | inl e ↦ kept a x xs e (keep_if-In a xs) (rw e at i)
    | inr e ↦ let r = keep_if-In a xs (rw e at i) in (inr r.0, r.1)
  ]
    where
      kept :
          (a x : A) (xs : List A)
          → p x ≡ true
          → (In a (keep_if p xs) → In a xs × (p a ≡ true))
          → In a (x ∷ keep_if p xs)
          → In a (x ∷ xs) × (p a ≡ true)
      kept a x xs h ih (inl e) = (inl e, ap p e ∙ h)
      kept a x xs h ih (inr i) = let r = ih i in (inr r.0, r.1)

pub get_elem?-lt :
    {A : Type 0} (xs : List A) (i : ℕ)
    → i < length xs
    → (a : A) × (get_elem? xs i ≡ some a) × In a xs
get_elem?-lt [] i h = absurd (omega arith)
get_elem?-lt (x ∷ xs) zero h = (x, refl, inl refl)
get_elem?-lt (x ∷ xs) (suc i) h = let (a, e, j) = get_elem?-lt xs i (omega arith) in (a, e, inr j)

pub In-append : {A : Type 0} (a : A) (xs ys : List A) → In a (xs ++ ys) → In a xs ⊎ In a ys
In-append a [] ys i = inr i
In-append a (x ∷ xs) ys (inl e) = inl (inl e)
In-append a (x ∷ xs) ys (inr i) = elim (In-append a xs ys i) [ inl j ↦ inl (inr j) | inr j ↦ inr j ]

-- A predicate of all members holds of each.
pub All-In {κ} : {A : Type 0} (P : A → Type κ) (a : A) (xs : List A) → All P xs → In a xs → P a
All-In P a [] h i = elim i [ ]
All-In P a (x ∷ xs) h (inl e) = rw e h.0
All-In P a (x ∷ xs) h (inr i) = All-In P a xs h.1 i

pub all_In {κ} : {A : Type 0} (P : A → Type κ) (xs : List A) → ((a : A) → In a xs → P a) → All P xs
all_In P [] f = tt
all_In P (x ∷ xs) f = (f x (inl refl), all_In P xs (λ a i. f a (inr i)))

module _ {A : Type 0} (p : A → Bool) where
  pub all_of-In : (a : A) (xs : List A) → all_of p xs ≡ true → In a xs → p a ≡ true
  all_of-In a [] h i = elim i [ ]
  all_of-In a (x ∷ xs) h (inl e) = ap p e ∙ ground arith
  all_of-In a (x ∷ xs) h (inr i) = all_of-In a xs (ground arith) i

  pub In-all_of : (xs : List A) → ((a : A) → In a xs → p a ≡ true) → all_of p xs ≡ true
  In-all_of [] f = refl
  In-all_of (x ∷ xs) f = rw (f x (inl refl), In-all_of xs (λ a i. f a (inr i)))

  pub In-any_of : (a : A) (xs : List A) → In a xs → p a ≡ true → any_of p xs ≡ true
  In-any_of a [] i h = elim i [ ]
  In-any_of a (x ∷ xs) (inl e) h = rw (sym (ap p e) ∙ h)
  In-any_of a (x ∷ xs) (inr i) h = ground (arith, In-any_of a xs i h)

  pub any_of-false : (a : A) (xs : List A) → any_of p xs ≡ false → In a xs → p a ≡ false
  any_of-false a [] h i = elim i [ ]
  any_of-false a (x ∷ xs) h (inl e) = ap p e ∙ ground arith
  any_of-false a (x ∷ xs) h (inr i) = any_of-false a xs (ground arith) i

  pub false-any_of : (xs : List A) → ((a : A) → In a xs → p a ≡ false) → any_of p xs ≡ false
  false-any_of [] f = refl
  false-any_of (x ∷ xs) f = rw (f x (inl refl), false-any_of xs (λ a i. f a (inr i)))

pub All-map {κ} :
    {A : Type 0} (P Q : A → Type κ) → ((a : A) → P a → Q a) → (xs : List A) → All P xs → All Q xs
All-map P Q f [] a = tt
All-map P Q f (x ∷ xs) (p, a) = (f x p, All-map P Q f xs a)
