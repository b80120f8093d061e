-- ===== src/Reconstruction/Engine/Total.antt =====
-- engine.py: `solve` raises nothing on targets whose days lie in the calendar.
use lzd.Common.{
  ℕ, ◌+◌, ◌/◌, ◌<◌, ◌≡◌, refl, List, [], ◌∷◌, ◌++◌, map, String, In, inl, inr, ◌⊎◌, range_from,
  flat_map,
}
use lzd.Common.Outcome.{ok, Outcome-cases}
use lzd.Common.Membership.{keep_if-In, In-append, map-In}
use lzd.Common.Sorting.{sort_by, sort_by-In}
use lzd.Reconstruction.Hashing.{Hashing}
use lzd.Reconstruction.Candidate.{Reason, is_reason, Slot, slot_le, Candidate}
use lzd.Reconstruction.Semantics.{DecodedTarget, SemanticBranch}
use lzd.Reconstruction.Engine.{
  Event, SlotId, day, SolveOutcome, feasible_candidates, optimal_pool, materialize, new_event,
  number_events, events_by_reason, id_le, ids_of, solve, solve_feasible, track_a, slot_ids,
  first_reasons,
}
use lzd.Reconstruction.Engine.Pool.{
  optimal_pool-IsMinimal, select_from_pool-In, optimal_pool-ne-nil,
}
use lzd.Reconstruction.Engine.Materialize.{intra_day_ts-total}

-- Every slot lies on a day of the calendar before the reference's day count runs out.
abbrev pub InCalendar : ℕ → List Slot → Type 0
InCalendar reference_ts ss = (s : Slot) → In s ss → s.day_offset < reference_ts / day

slot_ids_days :
    (n : ℕ) (ss : List Slot)
    → ((s : Slot) → In s ss → s.day_offset < n)
    → (i : SlotId)
    → In i (flat_map (λ s. map (λ k. (s.gen_reason, s.day_offset, k)) (range_from 0 s.count)) ss)
    → i.1 < n
slot_ids_days n [] h i j = elim j [ ]
slot_ids_days n (s ∷ ss) h i j =
    split
      (In-append i (map (λ k. (s.gen_reason, s.day_offset, k)) (range_from 0 s.count))
        (flat_map (λ s. map (λ k. (s.gen_reason, s.day_offset, k)) (range_from 0 s.count)) ss) j)
      (slot_ids_days n ss (λ t m. h t (inr m)) i)
  where
    split :
        {P : Type 0}
        → In i (map (λ k. (s.gen_reason, s.day_offset, k)) (range_from 0 s.count)) ⊎ P
        → (P → i.1 < n)
        → i.1 < n
    split (inl m) f =
        let (k, _, e) =
          map-In (λ (k : ℕ). (s.gen_reason, s.day_offset, k)) i (range_from 0 s.count) m in
        let lt : s.day_offset < n = h s (inl refl) in rw (← e) lt
    split (inr m) f = f m

module _ (h : Hashing) (seed reference_ts : ℕ) (target_id track : String) where
  new_event-total :
      (r : Reason) (occ : ℕ) (s : SlotId)
      → s.1 < reference_ts / day
      → (e : Event) × (new_event h seed reference_ts target_id track r occ s ≡ ok e)
  unfolding new_event
  new_event-total r occ (q, d, i) p =
      let (ts, e) = intra_day_ts-total h seed reference_ts q d i p in
      elim (Outcome-cases (new_event h seed reference_ts target_id track r occ (q, d, i))) [
        | inl found ↦ found
        | inr (x, f) ↦ absurd (cc (e, f))
      ]

  number_events-total :
      (r : Reason) (occ : ℕ) (ss : List SlotId)
      → ((s : SlotId) → In s ss → s.1 < reference_ts / day)
      → (es : List Event) × (number_events h seed reference_ts target_id track r occ ss ≡ ok es)
  unfolding number_events
  number_events-total r occ [] p = ([], refl)
  number_events-total r occ (s ∷ ss) p =
      let (e, k) = new_event-total r occ s (p s (inl refl)) in
      let (es, f) = number_events-total r (occ + 1) ss (λ t m. p t (inr m)) in
      (e ∷ es, rw (k, number_events) (rw (f, number_events)))

  events_by_reason-total :
      (ids : List SlotId) (rs : List Reason)
      → ((s : SlotId) → In s ids → s.1 < reference_ts / day)
      → (es : List Event) × (events_by_reason h seed reference_ts target_id track ids rs ≡ ok es)
  unfolding events_by_reason
  events_by_reason-total ids [] p = ([], refl)
  events_by_reason-total ids (r ∷ rs) p =
      let group = sort_by id_le (ids_of r ids) in
      let (es, e) = number_events-total r 0 group (λ s m.
        p s (keep_if-In (λ t. is_reason t.0 r) s ids (sort_by-In id_le s (ids_of r ids) m)).0) in
      let (fs, f) = events_by_reason-total ids rs p in (es ++ fs, rw e (rw f))

  pub materialize-total :
      (c : Candidate)
      → InCalendar reference_ts c.slots
      → (es : List Event) × (materialize h seed reference_ts target_id track c ≡ ok es)
  unfolding materialize slot_ids
  materialize-total c p = events_by_reason-total (slot_ids c) (first_reasons (slot_ids c)) (
      slot_ids_days (reference_ts / day) (sort_by slot_le c.slots)
        (λ s m. p s (sort_by-In slot_le s c.slots m)))

solve_feasible-total :
    (h : Hashing) (b : SemanticBranch) (target_id : String) (seed reference_ts : ℕ)
    (fs : List Candidate)
    → ((c : Candidate) → In c fs → InCalendar reference_ts c.slots)
    → (o : SolveOutcome) × (solve_feasible h b target_id seed reference_ts fs ≡ ok o)
unfolding solve_feasible
solve_feasible-total h b target_id seed reference_ts [] p = (_, refl)
solve_feasible-total h b target_id seed reference_ts (f ∷ fs) p =
    let (c, s, i) =
      select_from_pool-In h (optimal_pool (f ∷ fs) b) target_id seed track_a
        (optimal_pool-ne-nil b f fs) in
    let (es, m) =
      materialize-total h seed reference_ts target_id track_a c
        (p c (optimal_pool-IsMinimal b (f ∷ fs) c i).0) in
    elim (Outcome-cases (solve_feasible h b target_id seed reference_ts (f ∷ fs))) [
      | inl found ↦ found
      | inr (x, q) ↦ absurd (cc (s, m, q))
    ]

-- `solve` returns an outcome, and raises nothing, for every target whose feasible candidates lie in
-- the calendar.
pub solve-total :
    (h : Hashing) (d : DecodedTarget) (b : SemanticBranch) (target_id : String)
    (seed reference_ts : ℕ)
    → ((c : Candidate) → In c (feasible_candidates d b) → InCalendar reference_ts c.slots)
    → (o : SolveOutcome) × (solve h d b target_id seed reference_ts ≡ ok o)
unfolding solve
solve-total h d b target_id seed reference_ts p =
    solve_feasible-total h b target_id seed reference_ts (feasible_candidates d b) p
