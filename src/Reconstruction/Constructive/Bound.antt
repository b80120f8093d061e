-- ===== src/Reconstruction/Constructive/Bound.antt =====
-- constructive.py: why `h1_objective_bound` is a lower bound, component by component.
use lzd.Common.{
  ℕ, ◌+◌, ◌≤◌, ◌≡◌, refl, ap, Bool, true, false, not, List, [], ◌∷◌, ltb, ◌==◌, ==→≡, if◌then◌else◌,
  length, sum_of, keep_if, distinct, elem, length-distinct-le, All, arith, ◌∙◌, some,
}
use lzd.Reconstruction.Candidate.{
  Reason, free, f5, f11, f18, f19, f30, recency, rank, is_reason, Slot, Candidate, sessions,
  per_day, IsWellFormed, count_of, unexplained_events, active_days_in_window,
}
use lzd.Reconstruction.Semantics.{
  DecodedTarget, counter_capacity, forced_days, recency_slots, h1_feasible, counters_match,
  recency_match, active_days_match, covers_forced,
}
use lzd.Reconstruction.Constructive.{IsPlaced, not_recency, outside, free_min, sessions_min}
use lzd.Reconstruction.Constructive.Days.{
  days_of, num_days, select, num_days-per_day, sum_days-per_day, session_days_bounds,
  session_days_split, per_day-IsBusy,
}

abbrev pub events_of : List Slot → ℕ
events_of = sum_of (λ s. s.count)

abbrev is_recency : Slot → Bool
is_recency s = is_reason s.gen_reason recency

module _ (p : ℕ → Bool) where
  -- A day of the recency slots is a day of all slots.
  elem-keep_recency :
      (x : ℕ) (ss : List Slot)
      → elem x (days_of (select p (keep_if is_recency ss))) ≡ true
      → elem x (days_of (select p ss)) ≡ true
  elem-keep_recency x [] h = h
  elem-keep_recency x (s ∷ ss) h = ground (arith, elem-keep_recency x ss)

  -- A slot without a recency event adds a day at most, and an event at least.
  days_le_recency_days :
      (ss : List Slot)
      → IsWellFormed ss
      → length (distinct (days_of (select p ss)))
        ≤ length (distinct (days_of (select p (keep_if is_recency ss))))
          + events_of (keep_if not_recency ss)
  days_le_recency_days [] h = omega arith
  days_le_recency_days (s ∷ ss) h =
      ground (arith, days_le_recency_days ss h.1, elem-keep_recency s.day_offset ss)

  recency_days_le_days :
      (ss : List Slot)
      → length (distinct (days_of (select p (keep_if is_recency ss))))
        ≤ length (distinct (days_of (select p ss)))
  recency_days_le_days ss = length-distinct-le _ _ (λ x. elem-keep_recency x ss)

  events_split :
      (ss : List Slot)
      → events_of (select p ss)
        ≡ events_of (select p (keep_if is_recency ss))
          + events_of (select p (keep_if not_recency ss))
  events_split [] = refl
  events_split (s ∷ ss) = ground (arith, events_split ss)

  events_all_inside :
      (ss : List Slot)
      → All (λ s. p s.day_offset ≡ true) ss
      → events_of (select p ss) ≡ events_of ss
  events_all_inside [] h = refl
  events_all_inside (s ∷ ss) h = ground (arith, events_all_inside ss h.1)

abbrev with_reason : Reason → List Slot → ℕ
with_reason r ss = events_of (keep_if (λ s. is_reason s.gen_reason r) ss)

-- The events that are no recency events are those of the six other reasons.
events_by_reason :
    (ss : List Slot)
    → events_of (keep_if not_recency ss)
      ≡ with_reason free ss
        + with_reason f5 ss
        + with_reason f11 ss
        + with_reason f18 ss
        + with_reason f19 ss
        + with_reason f30 ss
unfolding rank
events_by_reason [] = refl
events_by_reason (s ∷ ss) = ground (arith, events_by_reason ss)

-- The counters of a candidate that matches the demand hold the counters' events together.
pub counters_match-capacity :
    (c : Candidate) (d : DecodedTarget)
    → counters_match c d ≡ true
    → count_of c f5 + count_of c f11 + count_of c f18 + count_of c f19 ≡ counter_capacity d
unfolding rank
counters_match-capacity c d h = ground arith

abbrev in_window : DecodedTarget → ℕ → Bool
in_window d x = ltb x d.window_days

pub recency_slots_inside :
    (d : DecodedTarget)
    → (length (distinct (days_of (select (in_window d) (recency_slots d))))
        ≡ length (forced_days d))
      × (events_of (select (in_window d) (recency_slots d)) ≡ length (forced_days d))
      × (length (distinct (days_of (select (λ x. not (in_window d x)) (recency_slots d))))
          ≡ outside d)
unfolding recency_slots
recency_slots_inside d = ground arith

-- A chain of guards that all pass.
all_guards :
    (a b c d e : Bool)
    → (if not a
        then false
        else if not b
        then false
        else if not c
        then false
        else if not d
        then false
        else e)
      ≡ true
    → (a ≡ true) × (b ≡ true) × (d ≡ true)
all_guards a b c d e h = ground arith

days_of_match :
    (c : Candidate) (d : DecodedTarget) (k : ℕ)
    → d.n30 ≡ some k
    → active_days_match c d ≡ true
    → active_days_in_window c d.window_days ≡ k
days_of_match c d k e h = ground arith

-- What the H1 strategy has checked of a target with `n30`.
pub h1_feasible_parts :
    (c : Candidate) (d : DecodedTarget) (k : ℕ)
    → d.n30 ≡ some k
    → h1_feasible c d ≡ true
    → (counters_match c d ≡ true)
      × (count_of c f30 ≡ 0)
      × (active_days_in_window c d.window_days ≡ k)
unfolding h1_feasible
h1_feasible_parts c d k e h =
    let g =
      all_guards (counters_match c d) (count_of c f30 == 0) (recency_match c d)
        (active_days_match c d) (covers_forced c d) h in
    (g.0, ==→≡ (count_of c f30) 0 g.1, days_of_match c d k e g.2)

module _ (c : Candidate) (d : DecodedTarget) (wf : IsWellFormed c.slots)
    (placed : IsPlaced c d) where
  window_events :
      events_of (select (in_window d) c.slots)
      ≡ length (forced_days d) + events_of (keep_if not_recency c.slots)
  window_events =
      events_split (in_window d) c.slots
      ∙ rw placed.pinned (
          omega (
            arith,
            (recency_slots_inside d).1,
            events_all_inside (in_window d) (keep_if not_recency c.slots) placed.inside,
          ))

  window_days_le :
      active_days_in_window c d.window_days
      ≤ length (forced_days d) + events_of (keep_if not_recency c.slots)
  window_days_le = omega (
    arith,
    days_le_recency_days (in_window d) c.slots wf,
    ap (λ l. length (distinct (days_of (select (in_window d) l)))) placed.pinned,
    (recency_slots_inside d).0,
  )

  outside_days_le : outside d ≤ num_days (λ x. not (in_window d x)) (per_day c.slots)
  outside_days_le = omega (
    arith,
    num_days-per_day (λ x. not (in_window d x)) c.slots,
    recency_days_le_days (λ x. not (in_window d x)) c.slots,
    ap (λ l. length (distinct (days_of (select (λ x. not (in_window d x)) l)))) placed.pinned,
    (recency_slots_inside d).2,
  )

-- Under H1, a feasible candidate whose recency events are pinned and whose other events are in the
-- window has at least `free_min` unexplained events and at least `sessions_min` sessions. So no
-- such candidate is better than the bound in either component.
pub h1_objective_bound_le :
    (c : Candidate) (d : DecodedTarget) (k : ℕ)
    → d.n30 ≡ some k
    → IsWellFormed c.slots
    → IsPlaced c d
    → h1_feasible c d ≡ true
    → (free_min d k ≤ unexplained_events c) × (sessions_min d k ≤ sessions c)
unfolding sessions
h1_objective_bound_le c d k e wf placed h =
    let f = h1_feasible_parts c d k e h in
    let busy = per_day-IsBusy c.slots wf in
    let inner = session_days_bounds (in_window d) (per_day c.slots) busy in
    let outer = session_days_bounds (λ x. not (in_window d x)) (per_day c.slots) busy in
    let capacity = counters_match-capacity c d f.0 in
    let reasons = events_by_reason c.slots in
    let days = window_days_le c d wf placed in
    let events = window_events c d wf placed in
    let beyond = outside_days_le c d wf placed in
    let split = session_days_split (in_window d) (per_day c.slots) in
    let counted = num_days-per_day (in_window d) c.slots in
    let summed = sum_days-per_day (in_window d) c.slots in
    omega (arith, f.1, f.2, inner.0, inner.1, outer.0)
