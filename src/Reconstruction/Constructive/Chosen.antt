-- ===== src/Reconstruction/Constructive/Chosen.antt =====
-- constructive.py: the days that `solve_h1` chooses.
use lzd.Common.{
  ℕ, zero, suc, ◌+◌, ◌-◌, ◌≤◌, ◌≡◌, refl, ap, ◌∙◌, Bool, true, not, List, [], ◌∷◌, ◌++◌, ltb, leb,
  ◌==◌, if◌then◌else◌, length, elem, keep_if, count_if-append, range_from, arith,
}
use lzd.Common.Sorting.{sort_by, count_if-sort_by}
use lzd.Common.Counting.{
  times_in, times_in-elem, elem-times_in, times_in_once, times_in-keep_if, times_in-range_from,
  length-sort_by, length-keep_if, length-append, length-range_from, shared_length, shared_count,
  times_in-distinct, elem-distinct,
}
use lzd.Reconstruction.Hashing.{Hashing}
use lzd.Reconstruction.Semantics.{DecodedTarget, forced_days}
use lzd.Reconstruction.Constructive.Solve.{
  Seeding, day_digest, bytes_le, take, seeded_days, chosen_days, wanted_days,
}

length-take : {A : Type 0} (n : ℕ) (xs : List A) → n ≤ length xs → length (take n xs) ≡ n
length-take zero xs h = refl
length-take (suc n) [] h = absurd (omega arith)
length-take (suc n) (x ∷ xs) h = ap suc (length-take n xs (omega arith))

times_in-take : (x n : ℕ) (xs : List ℕ) → times_in x (take n xs) ≤ times_in x xs
times_in-take x zero xs = omega arith
times_in-take x (suc n) [] = omega arith
times_in-take x (suc n) (y ∷ xs) = omega (arith, times_in-take x n xs)

times_in-sort_by :
    (le : ℕ → ℕ → Bool) (x : ℕ) (xs : List ℕ) → times_in x (sort_by le xs) ≡ times_in x xs
times_in-sort_by le x xs = count_if-sort_by le (λ y. y == x) xs

-- Seeded days are distinct days of a pool of distinct days, as many as are needed.
times_in-seeded_days :
    (h : Hashing) (s : Seeding) (pool : List ℕ) (need x : ℕ)
    → times_in x (seeded_days h s pool need) ≤ times_in x pool
unfolding seeded_days
times_in-seeded_days h s pool need x =
    let le = λ (a b : ℕ). bytes_le (day_digest h s a) (day_digest h s b) in
    omega (
      arith,
      times_in-sort_by leb x (take need (sort_by le pool)),
      times_in-take x need (sort_by le pool),
      times_in-sort_by le x pool,
    )

length-seeded_days :
    (h : Hashing) (s : Seeding) (pool : List ℕ) (need : ℕ)
    → need ≤ length pool
    → length (seeded_days h s pool need) ≡ need
unfolding seeded_days
length-seeded_days h s pool need l =
    let le = λ (a b : ℕ). bytes_le (day_digest h s a) (day_digest h s b) in
    length-sort_by leb (take need (sort_by le pool))
    ∙ length-take need (sort_by le pool) (omega (arith, l, length-sort_by le pool))

pub times_in-forced : (d : DecodedTarget) (x : ℕ) → times_in x (sort_by leb (forced_days d)) ≤ 1
times_in-forced d x = omega (
  arith,
  times_in-sort_by leb x (forced_days d),
  times_in-distinct x (keep_if (λ y. ltb y d.window_days) (d.d1 ∷ d.d2 ∷ [])),
)

pub forced_inside :
    (d : DecodedTarget) (x : ℕ) → elem x (forced_days d) ≡ true → ltb x d.window_days ≡ true
forced_inside d x h =
    ground (arith, elem-distinct x (keep_if (λ y. ltb y d.window_days) (d.d1 ∷ d.d2 ∷ [])))

module _ (d : DecodedTarget) where
  abbrev forced : List ℕ
  forced = sort_by leb (forced_days d)

  abbrev window : List ℕ
  window = range_from 0 d.window_days

  abbrev pool : List ℕ
  pool = keep_if (λ x. not (elem x (forced_days d))) window

  times_in-window : (x : ℕ) → times_in x window ≡ (if ltb x d.window_days then 1 else 0)
  times_in-window x = times_in-range_from x 0 d.window_days ∙ ground arith

  times_in-pool :
      (x : ℕ) → times_in x pool ≡ (if not (elem x (forced_days d)) then times_in x window else 0)
  times_in-pool x = times_in-keep_if x (λ x. not (elem x (forced_days d))) window

  times_in-forced_days :
      (x : ℕ) → times_in x (forced_days d) ≡ (if elem x (forced_days d) then 1 else 0)
  times_in-forced_days x =
      times_in_once x (forced_days d)
        (times_in-distinct x (keep_if (λ y. ltb y d.window_days) (d.d1 ∷ d.d2 ∷ [])))

  pub length-pool : length pool + length (forced_days d) ≡ d.window_days
  length-pool = omega (
    arith,
    length-keep_if (λ x. elem x (forced_days d)) window,
    length-range_from 0 d.window_days,
    shared_length window (forced_days d),
    shared_count window (forced_days d)
        (λ y. times_in-distinct y (keep_if (λ y. ltb y d.window_days) (d.d1 ∷ d.d2 ∷ [])))
        (λ y e. times_in-window y ∙ rw (forced_inside d y e) refl),
  )

  -- The chosen days: as many as are wanted, none twice, all in the window, the forced ones among them.
  pub record AreChosen (days : List ℕ) : Type 0 where
    pub number : length days ≡ wanted_days d
    pub once : (x : ℕ) → times_in x days ≤ 1
    pub inside : (x : ℕ) → elem x days ≡ true → ltb x d.window_days ≡ true
    pub forced_in : (x : ℕ) → elem x (forced_days d) ≡ true → elem x days ≡ true

  module _ (h : Hashing) (s : Seeding) where
    abbrev drawn : List ℕ
    drawn = seeded_days h s pool (wanted_days d - length (forced_days d))

    times_in-chosen :
        (x : ℕ) → times_in x (chosen_days h s d) ≡ times_in x (forced_days d) + times_in x drawn
    unfolding chosen_days
    times_in-chosen x =
        times_in-sort_by leb x (forced ++ drawn)
        ∙ count_if-append (λ y. y == x) forced drawn
        ∙ omega (arith, times_in-sort_by leb x (forced_days d))

    times_in-drawn :
        (x : ℕ)
        → times_in x drawn
          ≤ (if not (elem x (forced_days d)) then (if ltb x d.window_days then 1 else 0) else 0)
    times_in-drawn x = omega (
      arith,
      times_in-seeded_days h s pool (wanted_days d - length (forced_days d)) x,
      times_in-pool x,
      ap (λ n. if not (elem x (forced_days d)) then n else 0) (times_in-window x),
    )

    pub chosen_days-AreChosen :
        length (forced_days d) ≤ wanted_days d
        → wanted_days d ≤ d.window_days
        → AreChosen (chosen_days h s d)
    unfolding chosen_days
    chosen_days-AreChosen l m = record {
      number =
          length-sort_by leb (forced ++ drawn)
          ∙ length-append forced drawn
          ∙ omega (
            arith,
            length-sort_by leb (forced_days d),
            length-seeded_days h s pool (wanted_days d - length (forced_days d))
                (omega (arith, l, m, length-pool)),
          );
      once = λ x. ground (arith, times_in-chosen x, times_in-forced_days x, times_in-drawn x);
      inside = λ x e. ground (
        arith,
        times_in-chosen x,
        times_in-forced_days x,
        times_in-drawn x,
        times_in-elem x (chosen_days h s d),
        forced_inside d x,
      );
      forced_in = λ x e.
          ground
            (arith, times_in-chosen x, times_in-forced_days x, elem-times_in x (chosen_days h s d));
    }
