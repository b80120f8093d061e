-- ===== src/Reconstruction/BoundTests.antt =====
-- Tests of the H1 solver, and its results at concrete inputs.
use lzd.Common.{◌≤◌, ◌≡◌, refl, true, none, some, ℕ, arith}
use lzd.Common.Outcome.{ok}
use lzd.Reconstruction.Candidate.{Candidate, sessions, unexplained_events}
use lzd.Reconstruction.Semantics.{DecodedTarget, h1_feasible}
use lzd.Reconstruction.Constructive.{h1_objective_bound}
use lzd.Reconstruction.Constructive.Solve.{Seeding, solve_h1}
use lzd.Reconstruction.Constructive.Passes.{IsSane}
use lzd.Reconstruction.Constructive.Least.{solve_h1_solves, solve_h1_least}
use lzd.Reconstruction.Tests.{hashing, target, candidate, placed, is_feasible}

abbrev seeding : Seeding
seeding = record { target_id = "t1"; seed = 5; track = "A" }

-- Three days of a week, one event of f5, one order yesterday and one before the window.
abbrev scattered : DecodedTarget
scattered = record {
  n5 = 1;
  n11 = none;
  n18 = none;
  n30 = some 3;
  d1 = 40;
  d2 = 1;
  window_days = 7;
  n19 = none;
}

abbrev pair : ℕ × ℕ
pair = (1, 4)

abbrev first_pair : ℕ × ℕ
first_pair = (0, 1)

scattered_bound : h1_objective_bound scattered ≡ ok pair
unfolding h1_objective_bound
scattered_bound = refl

target_bound : h1_objective_bound target ≡ ok first_pair
unfolding h1_objective_bound
target_bound = refl

positive : (n k : ℕ) → 1 ≤ n → some n ≡ some k → 1 ≤ k
positive n k h e = omega (arith, h, same e)
  where
    same : some n ≡ some k → n ≡ k
    same e = cc

scattered-IsSane : IsSane scattered
scattered-IsSane = record {
  events = omega arith;
  days = λ k e. positive 3 k (omega arith) e;
  window = omega arith;
}

target-IsSane : IsSane target
target-IsSane = record {
  events = omega arith;
  days = λ k e. positive 1 k (omega arith) e;
  window = omega arith;
}

solve_h1_solves_example :
    (c : Candidate) × (solve_h1 hashing seeding scattered ≡ ok c)
    × (h1_feasible c scattered ≡ true)
    × (unexplained_events c ≡ 1)
    × (sessions c ≡ 4)
solve_h1_solves_example =
    solve_h1_solves hashing seeding scattered pair scattered-IsSane scattered_bound

target_solved :
    (c : Candidate) × (solve_h1 hashing seeding target ≡ ok c)
    × (h1_feasible c target ≡ true)
    × (unexplained_events c ≡ 0)
    × (sessions c ≡ 1)
target_solved = solve_h1_solves hashing seeding target first_pair target-IsSane target_bound

solve_h1_least_example :
    (h1_feasible target_solved.0 target ≡ true)
    × (unexplained_events target_solved.0 ≤ unexplained_events candidate)
    × (sessions target_solved.0 ≤ sessions candidate)
solve_h1_least_example =
    solve_h1_least hashing seeding target 1 target_solved.0 candidate target_solved.1 refl
      (omega arith, (omega arith, tt)) placed is_feasible
