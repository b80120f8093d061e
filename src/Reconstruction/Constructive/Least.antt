-- ===== src/Reconstruction/Constructive/Least.antt =====
-- constructive.py: `solve_h1` from its bound to its result.
use lzd.Common.{
  ℕ, ◌+◌, ◌≤◌, ◌≡◌, refl, sym, ap, ◌∙◌, Bool, true, false, not, List, ◌++◌, ltb, leb, some, length,
  arith,
}
use lzd.Common.Outcome.{
  Outcome, ok, infeasible, assertion_error, ◌>>=◌, ◌>>◌, raise_if, >>=-eq-ok, ok-injective,
  raise_if-ok,
}
use lzd.Common.Sorting.{sort_by}
use lzd.Reconstruction.Hashing.{Hashing}
use lzd.Reconstruction.Candidate.{Candidate, of, sessions, unexplained_events, IsWellFormed}
use lzd.Reconstruction.Semantics.{
  DecodedTarget, counter_capacity, forced_days, recency_slots, h1_feasible, h1_objective,
}
use lzd.Reconstruction.Constructive.{h1_objective_bound, free_min, sessions_min, IsPlaced}
use lzd.Reconstruction.Constructive.Bound.{h1_objective_bound_le}
use lzd.Reconstruction.Constructive.Solve.{
  Placed, Seeding, chosen_days, day_budget, place_days, full_demand, leftover, certify, same_pair,
  solve_h1,
}
use lzd.Reconstruction.Constructive.Passes.{IsSane, pair, has_bound, passes}

pair_eq : (p : ℕ × ℕ) (a b : ℕ) → a ≡ p.0 → b ≡ p.1 → same_pair (pair a b) p ≡ true
pair_eq p a b e f = ground arith

-- A target with events and days, for which h1_objective_bound returns a bound, is solved: `solve_h1` returns a candidate, which
-- the strategy H1 accepts, with the objective that is the bound. So no assertion inside of it ever fails.
pub solve_h1_solves :
    (h : Hashing) (s : Seeding) (d : DecodedTarget) (bound : ℕ × ℕ)
    → IsSane d
    → h1_objective_bound d ≡ ok bound
    → (c : Candidate) × (solve_h1 h s d ≡ ok c)
      × (h1_feasible c d ≡ true)
      × (unexplained_events c ≡ bound.0)
      × (sessions c ≡ bound.1)
unfolding solve_h1 certify
solve_h1_solves h s d bound sane e =
    let (c, f, feasible, u, v) = passes h s d bound.0 bound.1 (has_bound d bound sane e) in
    (
      c,
      rw e (
          stepwise bound c
            (day_budget (sort_by leb (forced_days d)) (chosen_days h s d)
              (counter_capacity d + length (sort_by leb (forced_days d)) + bound.0))
            (λ budget. place_days (sort_by leb (forced_days d)) budget (full_demand d bound.0)) f
          ∙ rw (feasible, pair_eq bound (unexplained_events c) (sessions c) u v) refl),
      feasible,
      u,
      v,
    )
  where
    -- The checks follow the steps.
    stepwise :
        (bound : ℕ × ℕ) (c : Candidate) (a : Outcome (List (ℕ × ℕ)))
        (g : List (ℕ × ℕ) → Outcome Placed)
        → (a >>= λ budget. g budget >>= λ placed.
            raise_if (leftover placed.1) assertion_error >> ok (of (recency_slots d ++ placed.0)))
          ≡ ok c
        → (a >>= λ budget. g budget >>= λ placed.
            raise_if (leftover placed.1) assertion_error
            >> certify d bound (of (recency_slots d ++ placed.0)))
          ≡ certify d bound c
    stepwise bound c a g h =
        let (b, e, h1) = >>=-eq-ok a _ h in
        let (p, f, h2) = >>=-eq-ok (g b) _ h1 in
        let (l, h3) = raise_if-ok (leftover p.1) assertion_error _ c h2 in
        rw (e, f, l) (ap (certify d bound) (ok-injective (of (recency_slots d ++ p.0)) c h3))

-- What `solve_h1` returns is the best: for a target with `n30` that it solves, it has no more unexplained events, and no more
-- sessions, than any candidate that H1 accepts, whose recency events are pinned and whose other events are in the window.
pub solve_h1_least :
    (h : Hashing) (s : Seeding) (d : DecodedTarget) (k : ℕ) (c other : Candidate)
    → solve_h1 h s d ≡ ok c
    → d.n30 ≡ some k
    → IsWellFormed other.slots
    → IsPlaced other d
    → h1_feasible other d ≡ true
    → (h1_feasible c d ≡ true)
      × (unexplained_events c ≤ unexplained_events other)
      × (sessions c ≤ sessions other)
unfolding solve_h1 certify h1_objective_bound
solve_h1_least h s d k c other e n wf placed feasible =
    let (bound, f, e1) = >>=-eq-ok (h1_objective_bound d) _ e in
    let (budget, _, e2) =
      >>=-eq-ok
        (day_budget (sort_by leb (forced_days d)) (chosen_days h s d)
          (counter_capacity d + length (sort_by leb (forced_days d)) + bound.0))
        _ e1 in
    let (p, _, e3) =
      >>=-eq-ok (place_days (sort_by leb (forced_days d)) budget (full_demand d bound.0)) _ e2 in
    let (_, e4) = raise_if-ok (leftover p.1) assertion_error _ c e3 in
    let made = of (recency_slots d ++ p.0) in
    let (a, e5) = raise_if-ok (not (h1_feasible made d)) assertion_error _ c e4 in
    let (b, e6) = raise_if-ok (not (same_pair (h1_objective made) bound)) assertion_error _ c e5 in
    let same = ok-injective made c e6 in
    let least = h1_objective_bound_le other d k n wf placed feasible in
    let q = bound_is d k bound n f in
    (
      ap (λ x. h1_feasible x d) (sym same) ∙ not_not (h1_feasible made d) a,
      omega
          (arith, least.0, ap unexplained_events same, equal_parts (h1_objective made) bound b, q),
      omega (arith, least.1, ap sessions same, equal_parts (h1_objective made) bound b, q),
    )
  where
    not_not : (b : Bool) → not b ≡ false → b ≡ true
    not_not b h = ground arith

    equal_parts : (p q : ℕ × ℕ) → not (same_pair p q) ≡ false → (p.0 ≡ q.0) × (p.1 ≡ q.1)
    equal_parts p q h = ground arith

    bound_is :
        (d : DecodedTarget) (k : ℕ) (bound : ℕ × ℕ)
        → d.n30 ≡ some k
        → h1_objective_bound d ≡ ok bound
        → (bound.0 ≡ free_min d k) × (bound.1 ≡ sessions_min d k)
    bound_is d k bound n f =
        let (_, f1) = raise_if-ok (ltb k (length (forced_days d))) infeasible _ bound (rw n at f) in
        let (_, f2) = raise_if-ok (ltb d.window_days k) infeasible _ bound f1 in
        let e = ok-injective (pair (free_min d k) (sessions_min d k)) bound f2 in
        (ap (λ (p : ℕ × ℕ). p.0) (sym e), ap (λ (p : ℕ × ℕ). p.1) (sym e))
