-- ===== src/Common/Lists.antt =====
-- Lists over the native numbers: lengths, sums, membership tests and predicates by recursion.
use Prim.Native.Nat.{ℕ, zero, suc, ◌+◌, ◌≤◌}
use mathlib.Core.Path.{◌≡◌, refl, ap, ◌∙◌}
use mathlib.Core.Bool.{Bool, true, false, not, ◌||◌, ◌&&◌}
use mathlib.Core.Option.{Option, none, some}
use mathlib.Core.Logic.{◌⊎◌, inl, inr}
use mathlib.Core.List.{List, [], ◌∷◌, ◌++◌, map}
use native.Mathlib.Omega.{arith}
use lzd.Common.Tests.{◌==◌, Bool-cases, if◌then◌else◌}

module _ {ℓ} {A : Type ℓ} where
  abbrev pub length : List A → ℕ
  length [] = 0
  length (x ∷ xs) = suc (length xs)

  abbrev pub get_elem? : List A → ℕ → Option A
  get_elem? [] i = none
  get_elem? (x ∷ xs) zero = some x
  get_elem? (x ∷ xs) (suc i) = get_elem? xs i

  abbrev pub keep_if : (A → Bool) → List A → List A
  keep_if p [] = []
  keep_if p (x ∷ xs) = if p x then x ∷ keep_if p xs else keep_if p xs

  -- `all(p(x) for x in xs)` and `any(p(x) for x in xs)`
  abbrev pub all_of : (A → Bool) → List A → Bool
  all_of p [] = true
  all_of p (x ∷ xs) = p x && all_of p xs

  abbrev pub any_of : (A → Bool) → List A → Bool
  any_of p [] = false
  any_of p (x ∷ xs) = p x || any_of p xs

  -- `sum(f(x) for x in xs)`
  abbrev pub sum_of : (A → ℕ) → List A → ℕ
  sum_of f [] = 0
  sum_of f (x ∷ xs) = f x + sum_of f xs

  -- Every member has the property.
  abbrev pub All {κ} : (A → Type κ) → List A → Type κ
  All P [] = Unit
  All P (x ∷ xs) = P x × All P xs

-- `a` stands in the list.
abbrev pub In : {A : Type 0} → A → List A → Type 0
In a [] = ⊥
In a (x ∷ xs) = (a ≡ x) ⊎ In a xs

module _ {ℓ κ} {A : Type ℓ} (P : A → Type κ) where
  pub All-append : (xs ys : List A) → All P xs → All P ys → All P (xs ++ ys)
  All-append [] ys hx hy = hy
  All-append (x ∷ xs) ys hx hy = (hx.0, All-append xs ys hx.1 hy)

-- `x in xs`, for numbers
abbrev pub elem : ℕ → List ℕ → Bool
elem a [] = false
elem a (x ∷ xs) = (a == x) || elem a xs

-- `set(xs)` as a list with no number twice.
abbrev pub distinct : List ℕ → List ℕ
distinct [] = []
distinct (x ∷ xs) = if elem x xs then distinct xs else x ∷ distinct xs

-- `range(n)`, from 0
abbrev pub range_from : ℕ → ℕ → List ℕ
range_from i zero = []
range_from i (suc n) = i ∷ range_from (i + 1) n

-- One list of results for each member, joined in order.
abbrev pub flat_map {ℓ κ} : {A : Type ℓ} {B : Type κ} → (A → List B) → List A → List B
flat_map f [] = []
flat_map f (x ∷ xs) = f x ++ flat_map f xs

-- `itertools.combinations(xs, r)`
unfoldable pub combinations {ℓ} : {A : Type ℓ} → List A → ℕ → List (List A)
combinations xs zero = [] ∷ []
combinations [] (suc r) = []
combinations (x ∷ xs) (suc r) = map (λ c. x ∷ c) (combinations xs r) ++ combinations xs (suc r)

-- `itertools.product(*xss)`
unfoldable pub product {ℓ} : {A : Type ℓ} → List (List A) → List (List A)
product [] = [] ∷ []
product (xs ∷ xss) = let rest = product xss in flat_map (λ x. map (λ r. x ∷ r) rest) xs

abbrev remove : ℕ → List ℕ → List ℕ
remove x = keep_if (λ y. not (x == y))

elem-remove : (x z : ℕ) (ys : List ℕ) → (x == z) ≡ false → elem z (remove x ys) ≡ elem z ys
elem-remove x z [] h = refl
elem-remove x z (y ∷ ys) h = ground (arith, elem-remove x z ys h)

elem-remove_self : (x : ℕ) (ys : List ℕ) → elem x (remove x ys) ≡ false
elem-remove_self x [] = refl
elem-remove_self x (y ∷ ys) = ground (arith, elem-remove_self x ys)

length-distinct-remove :
    (x : ℕ) (ys : List ℕ)
    → length (distinct ys) ≡ length (distinct (remove x ys)) + (if elem x ys then 1 else 0)
length-distinct-remove x [] = refl
length-distinct-remove x (y ∷ ys) =
    ground (arith, length-distinct-remove x ys, elem-remove x y ys, elem-remove_self x ys)

-- A list whose members all stand in another has no more distinct members.
pub length-distinct-le :
    (xs ys : List ℕ)
    → ((z : ℕ) → elem z xs ≡ true → elem z ys ≡ true)
    → length (distinct xs) ≤ length (distinct ys)
length-distinct-le [] ys sub = omega arith
length-distinct-le (x ∷ xs) ys sub = elim (Bool-cases (elem x xs)) [
  | inl old ↦ rw old (length-distinct-le xs ys (λ z h. sub z (ground arith)))
  | inr new ↦ rw new (
      ground (
        arith,
        length-distinct-remove x ys,
        sub x,
        length-distinct-le xs (remove x ys)
            (λ z h. elem-remove x z ys (apart x z xs new h) ∙ sub z (ground arith)),
      ))
]
  where
    apart : (x z : ℕ) (xs : List ℕ) → elem x xs ≡ false → elem z xs ≡ true → (x == z) ≡ false
    apart x z xs h k = elim (Bool-cases (x == z)) [
      | inl e ↦ absurd (absurd_of x z xs e h k)
      | inr e ↦ e
    ]
      where
        absurd_of :
            (x z : ℕ) (xs : List ℕ) → (x == z) ≡ true → elem x xs ≡ false → elem z xs ≡ true → ⊥
        absurd_of x z xs e h k = let p : x ≡ z = ground arith in cc (ap (λ (y : ℕ). elem y xs) p)

-- How many members pass a test.
abbrev pub count_if {ℓ} : {A : Type ℓ} → (A → Bool) → List A → ℕ
count_if p [] = 0
count_if p (x ∷ xs) = (if p x then 1 else 0) + count_if p xs

pub count_if-append {ℓ} :
    {A : Type ℓ} (p : A → Bool) (xs ys : List A)
    → count_if p (xs ++ ys) ≡ count_if p xs + count_if p ys
count_if-append p [] ys = omega arith
count_if-append p (x ∷ xs) ys = omega (arith, count_if-append p xs ys)

pub length-eq-count_if {ℓ} : {A : Type ℓ} (xs : List A) → length xs ≡ count_if (λ _. true) xs
length-eq-count_if [] = refl
length-eq-count_if (x ∷ xs) = omega (arith, length-eq-count_if xs)
