-- ===== src/Reconstruction/Tests.antt =====
-- Tests of the reconstruction, and the results at concrete inputs.
use lzd.Common.{
  ℕ, ◌<◌, ◌≤◌, ◌≡◌, refl, sym, inl, inr, true, List, [], ◌∷◌, none, some, In, count_if, arith,
}
use mathlib.Core.Path.{subst}
use lzd.Common.Outcome.{ok}
use lzd.Reconstruction.Candidate.{
  rank, Reason, free, f5, recency, Slot, Candidate, of, sessions, unexplained_events,
}
use lzd.Reconstruction.Candidate.Metrics.{events_where}
use lzd.Reconstruction.Candidate.Canonical.{at_key, of_canonical}
use lzd.Reconstruction.Semantics.{
  DecodedTarget, SemanticBranch, h1_objective, h1_feasible, recency_slots,
}
use lzd.Reconstruction.Constructive.{IsPlaced, free_min, sessions_min}
use lzd.Reconstruction.Constructive.Bound.{h1_objective_bound_le}
use lzd.Reconstruction.Hashing.{Hashing}
use lzd.Reconstruction.Engine.{
  solved, feasible_candidates, optimal_pool, select_from_pool, intra_day_ts, materialize, solve,
  SolveOutcome, Event,
}
use lzd.Reconstruction.Engine.Pool.{
  IsMinimal, optimal_pool-IsMinimal, In-optimal_pool, select_from_pool-In,
}
use lzd.Reconstruction.Engine.Materialize.{intra_day_ts-lt, intra_day_ts-total}
use lzd.Reconstruction.Engine.Groups.{count_if-materialize}
use lzd.Reconstruction.Engine.Solve.{Solves, solve-Solves}
use lzd.Reconstruction.Engine.Total.{InCalendar, solve-total, materialize-total}

abbrev slot : Reason → ℕ → ℕ → Slot
slot r d c = record { gen_reason = r; day_offset = d; count = c }

abbrev pub hashing : Hashing
hashing = record { sha256 = λ parts. 7 ∷ 1 ∷ 200 ∷ 9 ∷ 3 ∷ 4 ∷ 5 ∷ 6 ∷ []; uuid5 = λ n parts. "id" }

-- An order yesterday is the last of five weeks, with two purchases of the counter f5.
abbrev pub target : DecodedTarget
target = record {
  n5 = 2;
  n11 = none;
  n18 = none;
  n30 = some 1;
  d1 = 1;
  d2 = 1;
  window_days = 30;
  n19 = none;
}

abbrev pub candidate : Candidate
candidate = record { slots = slot f5 1 2 ∷ slot recency 1 1 ∷ [] }

-- The strategy H1 on two candidates, one of which has a superfluous event.
abbrev pub two_branch : SemanticBranch
two_branch = record {
  objective = h1_objective;
  is_feasible = λ c d. true;
  candidates =
      λ d. candidate ∷ record { slots = slot free 2 1 ∷ slot f5 1 2 ∷ slot recency 1 1 ∷ [] } ∷ [];
}

abbrev pub now : ℕ
now = 864_000_000_000

merged :
    of (slot f5 3 1 ∷ slot free 0 2 ∷ slot f5 3 4 ∷ [])
    ≡ record { slots = slot free 0 2 ∷ slot f5 3 5 ∷ [] }
unfolding of
merged = refl

pub is_feasible : h1_feasible candidate target ≡ true
unfolding h1_feasible rank
is_feasible = refl

one_minimal : optimal_pool (two_branch.candidates target) two_branch ≡ candidate ∷ []
unfolding optimal_pool rank sessions
one_minimal = refl

both_feasible : feasible_candidates target two_branch ≡ two_branch.candidates target
unfolding feasible_candidates
both_feasible = refl

ten_days : (c : Candidate) → In c (feasible_candidates target two_branch) → InCalendar now c.slots
ten_days c i s j = within c (subst (λ cs. In c cs) both_feasible i) s j
  where
    within : (c : Candidate) → In c (two_branch.candidates target) → InCalendar now c.slots
    within c i s j = elim i [
      | inl e ↦ first s (subst (λ (x : Candidate). In s x.slots) e j)
      | inr (inl e) ↦ second s (subst (λ (x : Candidate). In s x.slots) e j)
      | inr (inr k) ↦ elim k [ ]
    ]
      where
        first : (s : Slot) → In s candidate.slots → s.day_offset < 10
        first s (inl e) = rw e (omega arith)
        first s (inr (inl e)) = rw e (omega arith)
        first s (inr (inr i)) = elim i [ ]

        second :
            (s : Slot)
            → In s (slot free 2 1 ∷ slot f5 1 2 ∷ slot recency 1 1 ∷ [])
            → s.day_offset < 10
        second s (inl e) = rw e (omega arith)
        second s (inr (inl e)) = rw e (omega arith)
        second s (inr (inr (inl e))) = rw e (omega arith)
        second s (inr (inr (inr i))) = elim i [ ]

solve-total_example : (o : SolveOutcome) × (solve hashing target two_branch "t1" 5 now ≡ ok o)
solve-total_example = solve-total hashing target two_branch "t1" 5 now ten_days

pub solved_target : (o : SolveOutcome) × (solve hashing target two_branch "t1" 5 now ≡ ok o)
solved_target = solve-total hashing target two_branch "t1" 5 now ten_days

pub solved_status : solved_target.0.status ≡ solved
solved_status =
    elim (solve-Solves hashing target two_branch "t1" 5 now solved_target.0 solved_target.1) [
      | inl q ↦ absurd (cc (q.none_feasible, both_feasible))
      | inr (c, s) ↦ s.status
    ]

solve-Solves_example : Solves two_branch (feasible_candidates target two_branch) now solved_target.0
solve-Solves_example =
    solve-Solves hashing target two_branch "t1" 5 now solved_target.0 solved_target.1

In-pool : In candidate (optimal_pool (two_branch.candidates target) two_branch)
In-pool = subst (λ cs. In candidate cs) (sym one_minimal) (inl refl)

optimal_pool-IsMinimal_example :
    In candidate (two_branch.candidates target)
    × IsMinimal two_branch (two_branch.candidates target) candidate
optimal_pool-IsMinimal_example =
    optimal_pool-IsMinimal two_branch (two_branch.candidates target) candidate In-pool

In-optimal_pool_example : In candidate (optimal_pool (two_branch.candidates target) two_branch)
In-optimal_pool_example =
    In-optimal_pool two_branch (two_branch.candidates target) candidate (inl refl)
      (optimal_pool-IsMinimal two_branch (two_branch.candidates target) candidate In-pool).1

select_from_pool-In_example :
    (c : Candidate) × (select_from_pool hashing (candidate ∷ []) "t1" 5 "A" ≡ ok c)
    × In c (candidate ∷ [])
select_from_pool-In_example = select_from_pool-In hashing (candidate ∷ []) "t1" 5 "A" (λ e. cc e)

drawn_time : (ts : ℕ) × (intra_day_ts hashing 5 now f5 0 0 ≡ ok ts)
drawn_time = intra_day_ts-total hashing 5 now f5 0 0 (omega arith)

intra_day_ts-lt_example : drawn_time.0 < now
intra_day_ts-lt_example = intra_day_ts-lt hashing 5 now f5 0 0 drawn_time.0 drawn_time.1

intra_day_ts-total_example : (ts : ℕ) × (intra_day_ts hashing 5 now f5 3 0 ≡ ok ts)
intra_day_ts-total_example = intra_day_ts-total hashing 5 now f5 3 0 (omega arith)

candidate_days : InCalendar now candidate.slots
candidate_days s (inl e) = rw e (omega arith)
candidate_days s (inr (inl e)) = rw e (omega arith)
candidate_days s (inr (inr i)) = elim i [ ]

materialized : (es : List Event) × (materialize hashing 5 now "t1" "A" candidate ≡ ok es)
materialized = materialize-total hashing 5 now "t1" "A" candidate candidate_days

count_if-materialize_example :
    count_if (λ e. at_key f5 1 e.gen_reason e.day_offset) materialized.0
    ≡ events_where (at_key f5 1) candidate.slots
count_if-materialize_example =
    count_if-materialize (at_key f5 1) hashing 5 now "t1" "A" candidate materialized.0
      materialized.1

pub placed : IsPlaced candidate target
unfolding recency_slots rank
placed = record { pinned = refl; inside = (refl, tt) }

h1_objective_bound_le_example :
    (free_min target 1 ≤ unexplained_events candidate)
    × (sessions_min target 1 ≤ sessions candidate)
h1_objective_bound_le_example =
    h1_objective_bound_le candidate target 1 refl (omega arith, (omega arith, tt)) placed
      is_feasible

same_events :
    (r : Reason) (d : ℕ)
    → events_where (at_key r d) (slot f5 1 1 ∷ slot f5 1 2 ∷ [])
      ≡ events_where (at_key r d) (slot f5 1 3 ∷ [])
same_events r d = ground arith

of_canonical_example : of (slot f5 1 1 ∷ slot f5 1 2 ∷ []) ≡ of (slot f5 1 3 ∷ [])
of_canonical_example =
    of_canonical (slot f5 1 1 ∷ slot f5 1 2 ∷ []) (slot f5 1 3 ∷ [])
      (omega arith, (omega arith, tt)) (omega arith, tt) same_events
