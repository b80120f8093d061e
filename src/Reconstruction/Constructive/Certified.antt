-- ===== src/Reconstruction/Constructive/Certified.antt =====
-- constructive.py: what the final checks of `solve_h1` count.
use lzd.Common.{
  ℕ, ◌+◌, ◌≡◌, refl, sym, ap, ◌∙◌, true, List, [], ◌∷◌, ◌++◌, leb, if◌then◌else◌, length, sum_of,
  elem, arith,
}
use lzd.Common.Counting.{times_in, times_in_once, shared_count, elem-sort_by}
use lzd.Common.Sorting.{sort_by}
use lzd.Reconstruction.Candidate.{
  Reason, free, f5, f11, f18, f19, f30, recency, rank, is_reason, Slot, Candidate, of, count_of,
  unexplained_events,
}
use lzd.Reconstruction.Candidate.Metrics.{events_where, events_where-of}
use lzd.Reconstruction.Semantics.{
  DecodedTarget, counter_capacity, forced_days, recency_days, recency_slots, counters_match,
  recency_match,
}
use lzd.Reconstruction.Constructive.Solve.{full_demand}
use lzd.Reconstruction.Constructive.Budget.{days_in, IsBusy}
use lzd.Reconstruction.Constructive.Placement.{
  demand_sum, demand_of, of_reason, room_sum, events_where-append,
}
use lzd.Reconstruction.Constructive.Solve.{budget_sum}
use lzd.Reconstruction.Constructive.Chosen.{AreChosen, times_in-forced}

-- The room of the days is their budget, less one for each forced day.
room_sum_lem :
    (forced : List ℕ) (b : List (ℕ × ℕ))
    → IsBusy b
    → room_sum forced b + sum_of (λ x. if elem x forced then 1 else 0) (days_in b) ≡ budget_sum b
room_sum_lem forced [] h = refl
room_sum_lem forced (e ∷ b) h = ground (arith, room_sum_lem forced b h.1)

demand_sum_lem :
    (d : DecodedTarget) (fm : ℕ) → demand_sum (full_demand d fm) ≡ counter_capacity d + fm
demand_sum_lem d fm = ground arith

-- The days have room for just the demand.
pub room_for_demand :
    (d : DecodedTarget) (days : List ℕ) (b : List (ℕ × ℕ)) (fm : ℕ)
    → AreChosen d days
    → days_in b ≡ days
    → IsBusy b
    → budget_sum b ≡ counter_capacity d + length (sort_by leb (forced_days d)) + fm
    → room_sum (sort_by leb (forced_days d)) b ≡ demand_sum (full_demand d fm)
room_for_demand d days b fm ch on_days busy s =
    let forced = sort_by leb (forced_days d) in
    omega (
      arith,
      s,
      demand_sum_lem d fm,
      room_sum_lem forced b busy,
      ap (sum_of (λ x. if elem x forced then 1 else 0)) on_days,
      shared_count days forced (times_in-forced d) chosen_once,
    )
  where
    chosen_once : (y : ℕ) → elem y (sort_by leb (forced_days d)) ≡ true → times_in y days ≡ 1
    chosen_once y h =
        times_in_once y days (ch.once y)
        ∙ rw (ch.forced_in y (sym (elem-sort_by leb y (forced_days d)) ∙ h)) refl

recency_of_reason :
    (d : DecodedTarget) (r : Reason)
    → events_where (of_reason r) (recency_slots d)
      ≡ (if is_reason recency r then length (recency_days d) else 0)
unfolding recency_slots sort_by
recency_of_reason d r = ground arith

-- Where every other reason has what the demand asks of it, the counters match.
counts_match :
    (c : Candidate) (d : DecodedTarget) (fm : ℕ)
    → count_of c f5 ≡ demand_of f5 (full_demand d fm)
    → count_of c f11 ≡ demand_of f11 (full_demand d fm)
    → count_of c f18 ≡ demand_of f18 (full_demand d fm)
    → count_of c f19 ≡ demand_of f19 (full_demand d fm)
    → counters_match c d ≡ true
unfolding rank
counts_match c d fm h5 h11 h18 h19 = ground arith

demand_of_free : (d : DecodedTarget) (fm : ℕ) → demand_of free (full_demand d fm) ≡ fm
unfolding rank
demand_of_free d fm = ground arith

demand_of_f30 : (d : DecodedTarget) (fm : ℕ) → demand_of f30 (full_demand d fm) ≡ 0
unfolding rank
demand_of_f30 d fm = ground arith

demand_of_recency : (d : DecodedTarget) (fm : ℕ) → demand_of recency (full_demand d fm) ≡ 0
unfolding rank
demand_of_recency d fm = ground arith

-- The candidate has the events of the demand and the recency events, and no other.
module _ (d : DecodedTarget) (fm : ℕ) (slots : List Slot)
    (reasons : (r : Reason)
      → events_where (of_reason r) slots ≡ demand_of r (full_demand d fm)) where
  count_of-built :
      (r : Reason)
      → count_of (of (recency_slots d ++ slots)) r
        ≡ (if is_reason recency r then length (recency_days d) else 0)
          + demand_of r (full_demand d fm)
  count_of-built r =
      events_where-of (of_reason r) (recency_slots d ++ slots)
      ∙ events_where-append (of_reason r) (recency_slots d) slots
      ∙ omega (arith, recency_of_reason d r, reasons r)

  pub built_counters : counters_match (of (recency_slots d ++ slots)) d ≡ true
  unfolding rank
  built_counters =
      counts_match (of (recency_slots d ++ slots)) d fm (omega (arith, count_of-built f5))
        (omega (arith, count_of-built f11)) (omega (arith, count_of-built f18))
        (omega (arith, count_of-built f19))

  pub built_f30 : count_of (of (recency_slots d ++ slots)) f30 ≡ 0
  unfolding rank
  built_f30 = omega (arith, count_of-built f30, demand_of_f30 d fm)

  pub built_recency : recency_match (of (recency_slots d ++ slots)) d ≡ true
  unfolding rank
  built_recency = let e = count_of-built recency in let z = demand_of_recency d fm in ground arith

  pub built_unexplained : unexplained_events (of (recency_slots d ++ slots)) ≡ fm
  unfolding rank
  built_unexplained = omega (arith, count_of-built free, demand_of_free d fm)
