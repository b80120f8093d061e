-- ===== src/Common/Counting.antt =====
-- How often a number stands in a list.
use Prim.Native.Nat.{ℕ, zero, suc, ◌+◌, ◌≤◌}
use mathlib.Core.Path.{◌≡◌, refl, sym, ap, ◌∙◌}
use mathlib.Core.Bool.{Bool, true, false, not, ◌&&◌}
use mathlib.Core.Logic.{inl, inr}
use mathlib.Core.List.{List, [], ◌∷◌, ◌++◌}
use native.Mathlib.Omega.{arith}
use lzd.Common.Tests.{◌==◌, ltb, leb, Bool-cases, if◌then◌else◌}
use lzd.Common.Lists.{
  length, count_if, length-eq-count_if, keep_if, elem, distinct, range_from, sum_of,
}
use lzd.Common.Sorting.{sort_by, count_if-sort_by}

abbrev pub times_in : ℕ → List ℕ → ℕ
times_in x = count_if (λ y. y == x)

pub times_in-elem : (x : ℕ) (xs : List ℕ) → (if elem x xs then 1 else 0) ≤ times_in x xs
times_in-elem x [] = omega arith
times_in-elem x (y ∷ xs) = ground (arith, times_in-elem x xs)

pub elem-times_in : (x : ℕ) (xs : List ℕ) → elem x xs ≡ false → times_in x xs ≡ 0
elem-times_in x [] h = refl
elem-times_in x (y ∷ xs) h = ground (arith, elem-times_in x xs)

-- In a list where no number stands twice, a number stands once or not at all.
pub times_in_once :
    (x : ℕ) (xs : List ℕ) → times_in x xs ≤ 1 → times_in x xs ≡ (if elem x xs then 1 else 0)
times_in_once x xs h = ground (arith, times_in-elem x xs, elem-times_in x xs)

pub times_in-keep_if :
    (x : ℕ) (p : ℕ → Bool) (xs : List ℕ)
    → times_in x (keep_if p xs) ≡ (if p x then times_in x xs else 0)
times_in-keep_if x p [] = ground arith
times_in-keep_if x p (y ∷ xs) = elim (Bool-cases (y == x)) [
  | inl e ↦ rw (e, ap p (same e)) (ground (arith, times_in-keep_if x p xs))
  | inr n ↦ ground (arith, times_in-keep_if x p xs)
]
  where
    same : (y == x) ≡ true → y ≡ x
    same e = ground arith

pub times_in-range_from :
    (x i n : ℕ) → times_in x (range_from i n) ≡ (if leb i x && ltb x (i + n) then 1 else 0)
times_in-range_from x i zero = ground arith
times_in-range_from x i (suc n) = ground (arith, times_in-range_from x (i + 1) n)

module _ {A : Type 0} where
  pub length-sort_by : (le : A → A → Bool) (xs : List A) → length (sort_by le xs) ≡ length xs
  length-sort_by le xs =
      length-eq-count_if (sort_by le xs)
      ∙ count_if-sort_by le (λ _. true) xs
      ∙ sym (length-eq-count_if xs)

  pub length-keep_if :
      (p : A → Bool) (xs : List A)
      → length (keep_if p xs) + length (keep_if (λ x. not (p x)) xs) ≡ length xs
  length-keep_if p [] = omega arith
  length-keep_if p (x ∷ xs) = ground (arith, length-keep_if p xs)

  pub length-append : (xs ys : List A) → length (xs ++ ys) ≡ length xs + length ys
  length-append [] ys = omega arith
  length-append (x ∷ xs) ys = omega (arith, length-append xs ys)

pub length-range_from : (i n : ℕ) → length (range_from i n) ≡ n
length-range_from i zero = refl
length-range_from i (suc n) = ap suc (length-range_from (i + 1) n)

-- The members of a list that stand in another.
pub shared_length :
    (xs ys : List ℕ)
    → length (keep_if (λ x. elem x ys) xs) ≡ sum_of (λ x. if elem x ys then 1 else 0) xs
shared_length [] ys = refl
shared_length (x ∷ xs) ys = ground (arith, shared_length xs ys)

shared_insert :
    (y : ℕ) (xs ys : List ℕ)
    → elem y ys ≡ false
    → sum_of (λ x. if elem x (y ∷ ys) then 1 else 0) xs
      ≡ times_in y xs + sum_of (λ x. if elem x ys then 1 else 0) xs
shared_insert y [] ys h = omega arith
shared_insert y (x ∷ xs) ys h = elim (Bool-cases (x == y)) [
  | inl e ↦ rw (e, ap (λ z. elem z ys) (same e) ∙ h) (omega (arith, shared_insert y xs ys h))
  | inr n ↦ rw n (omega (arith, shared_insert y xs ys h))
]
  where
    same : (x == y) ≡ true → x ≡ y
    same e = ground arith

-- Numbers that stand once in a list, and twice nowhere, are as many as the members of the list that are among them.
pub shared_count :
    (xs ys : List ℕ)
    → ((y : ℕ) → times_in y ys ≤ 1)
    → ((y : ℕ) → elem y ys ≡ true → times_in y xs ≡ 1)
    → sum_of (λ x. if elem x ys then 1 else 0) xs ≡ length ys
shared_count xs [] once h = zeros xs
  where
    zeros : (xs : List ℕ) → sum_of (λ x. if elem x [] then 1 else 0) xs ≡ 0
    zeros [] = refl
    zeros (x ∷ xs) = omega (arith, zeros xs)
shared_count xs (y ∷ ys) once h =
    shared_insert y xs ys (fresh (once y))
    ∙ omega (
      arith,
      h y (ground arith),
      shared_count xs ys (λ z. less z (once z)) (λ z e. h z (ground arith)),
    )
  where
    fresh : times_in y (y ∷ ys) ≤ 1 → elem y ys ≡ false
    fresh o = ground (arith, times_in-elem y ys)

    less : (z : ℕ) → times_in z (y ∷ ys) ≤ 1 → times_in z ys ≤ 1
    less z o = ground arith

-- A list where no number stands twice is its own set.
pub length-distinct :
    (xs : List ℕ) → ((x : ℕ) → times_in x xs ≤ 1) → length (distinct xs) ≡ length xs
length-distinct [] h = refl
length-distinct (x ∷ xs) h = rw (fresh (h x)) (ap suc (length-distinct xs (λ z. less z (h z))))
  where
    fresh : times_in x (x ∷ xs) ≤ 1 → elem x xs ≡ false
    fresh o = ground (arith, times_in-elem x xs)

    less : (z : ℕ) → times_in z (x ∷ xs) ≤ 1 → times_in z xs ≤ 1
    less z o = ground arith

pub elem-distinct : (x : ℕ) (xs : List ℕ) → elem x (distinct xs) ≡ elem x xs
elem-distinct x [] = refl
elem-distinct x (y ∷ xs) = ground (arith, elem-distinct x xs)

pub times_in-distinct : (x : ℕ) (xs : List ℕ) → times_in x (distinct xs) ≤ 1
times_in-distinct x [] = omega arith
times_in-distinct x (y ∷ xs) = elim (Bool-cases (elem y xs)) [
  | inl e ↦ rw e (times_in-distinct x xs)
  | inr n ↦
      rw n
        (ground (arith, times_in-distinct x xs, elem-times_in x (distinct xs), elem-distinct x xs))
]

pub elem-sort_by : (le : ℕ → ℕ → Bool) (x : ℕ) (xs : List ℕ) → elem x (sort_by le xs) ≡ elem x xs
elem-sort_by le x xs = ground (
  arith,
  count_if-sort_by le (λ y. y == x) xs,
  times_in-elem x xs,
  elem-times_in x xs,
  times_in-elem x (sort_by le xs),
  elem-times_in x (sort_by le xs),
)
