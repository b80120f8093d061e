-- ===== src/Reconstruction/Semantics.antt =====
-- semantics.py: the decoded target, and the strategies H1 and H2 of the solver.
use lzd.Common.{
  ℕ, ◌+◌, ◌-◌, Bool, true, false, ◌&&◌, ◌||◌, not, List, [], ◌∷◌, ◌++◌, map, ltb, leb, ◌==◌,
  if◌then◌else◌, Option, none, some, length, sum_of, keep_if, distinct, elem, all_of, any_of,
  range_from, flat_map, combinations, product,
}
use Prim.Native.Nat.{max}
use mathlib.Core.List.{zip}
use lzd.Common.Outcome.{Outcome, ok, err, value_error, ◌>>◌, raise_if}
use lzd.Common.Sorting.{sort_by}
use lzd.Reconstruction.Candidate.{
  Reason, free, f5, f11, f18, f19, f30, recency, is_reason, Slot, Candidate, of, count_of,
  active_days, active_days_in_window, day_offsets, unexplained_events, sessions,
}

pub record DecodedTarget : Type 0 where
  pub n5 : ℕ
  pub n11 : Option ℕ
  pub n18 : Option ℕ
  pub n30 : Option ℕ
  pub d1 : ℕ
  pub d2 : ℕ
  pub window_days : ℕ
  pub n19 : Option ℕ

-- `value is not None and value < 1`
abbrev below_one : Option ℕ → Bool
below_one none = false
below_one (some n) = ltb n 1

-- `__post_init__`
unfoldable pub check_target : DecodedTarget → Outcome DecodedTarget
check_target d = do
  raise_if (ltb d.d1 d.d2) value_error
  raise_if (ltb d.n5 1 || below_one d.n11 || below_one d.n18 || below_one d.n30) value_error
  raise_if (below_one d.n19) value_error
  ok d

-- `(reason, n)` if the counter is in scope
abbrev asked : Reason → Option ℕ → List (Reason × ℕ)
asked r none = []
asked r (some n) = (r, n) ∷ []

abbrev pub counter_demand : DecodedTarget → List (Reason × ℕ)
counter_demand d = (f5, d.n5) ∷ asked f18 d.n18 ++ (asked f11 d.n11 ++ asked f19 d.n19)

abbrev pub counter_capacity : DecodedTarget → ℕ
counter_capacity d = sum_of (λ e. e.1) (counter_demand d)

-- `{d1, d2}`
abbrev pub recency_days : DecodedTarget → List ℕ
recency_days d = distinct (d.d1 ∷ d.d2 ∷ [])

abbrev pub forced_days : DecodedTarget → List ℕ
forced_days d = distinct (keep_if (λ x. ltb x d.window_days) (d.d1 ∷ d.d2 ∷ []))

-- `_recency_slots`
unfoldable pub recency_slots : DecodedTarget → List Slot
unfolding sort_by
recency_slots d =
    map (λ day. record { gen_reason = recency; day_offset = day; count = 1 })
      (sort_by leb (recency_days d))

abbrev pub counter_reasons : List Reason
counter_reasons = f5 ∷ f11 ∷ f18 ∷ f19 ∷ []

-- `reason in {r for r, _ in counter_demand}`
abbrev in_scope : Reason → List (Reason × ℕ) → Bool
in_scope r = any_of (λ e. is_reason r e.0)

-- The counters that both strategies check alike: those in scope exactly, the others absent.
abbrev pub counters_match : Candidate → DecodedTarget → Bool
counters_match c d =
    all_of (λ e. count_of c e.0 == e.1) (counter_demand d)
    && all_of (λ r. in_scope r (counter_demand d) || (count_of c r == 0)) counter_reasons

-- `c.count_of(REASON_RECENCY) == len({d1, d2})`
abbrev pub recency_match : Candidate → DecodedTarget → Bool
recency_match c d = count_of c recency == length (recency_days d)

-- `forced_days <= day_offsets`
abbrev pub covers_forced : Candidate → DecodedTarget → Bool
covers_forced c d = all_of (λ x. elem x (day_offsets c)) (forced_days d)

-- `n30 is not None and active_days_in_window != n30` fails
abbrev pub active_days_match : Candidate → DecodedTarget → Bool
active_days_match c d = elim d.n30 [
  | none ↦ true
  | some n ↦ active_days_in_window c d.window_days == n
]

-- `H1Branch.objective`
abbrev pub h1_objective : Candidate → ℕ × ℕ
h1_objective c = (unexplained_events c, sessions c)

-- `H1Branch.is_feasible`
unfoldable pub h1_feasible : Candidate → DecodedTarget → Bool
h1_feasible c d =
    if not (counters_match c d)
    then false
    else if not (count_of c f30 == 0)
    then false
    else if not (recency_match c d)
    then false
    else if not (active_days_match c d)
    then false
    else covers_forced c d

-- `H2Branch.objective`
abbrev pub h2_objective : Candidate → ℕ × ℕ
h2_objective c = (active_days c, sessions c)

-- `count_of(REASON_F30)` is 0 without `n30`, and `n30` with it
abbrev f30_match : Candidate → DecodedTarget → Bool
f30_match c d = elim d.n30 [ none ↦ count_of c f30 == 0 | some n ↦ count_of c f30 == n ]

-- `H2Branch.is_feasible`
unfoldable pub h2_feasible : Candidate → DecodedTarget → Bool
h2_feasible c d =
    if not (unexplained_events c == 0)
    then false
    else if not (counters_match c d)
    then false
    else if not (f30_match c d)
    then false
    else if not (recency_match c d)
    then false
    else covers_forced c d

-- One way to split `total` over the days, as slots without the empty days.
abbrev slots_of : Reason → List (ℕ × ℕ) → List Slot
slots_of r [] = []
slots_of r ((day, n) ∷ p) =
    if n == 0
    then slots_of r p
    else record { gen_reason = r; day_offset = day; count = n } ∷ slots_of r p

repeat_list : {A : Type 0} → A → List ℕ → List A
repeat_list x [] = []
repeat_list x (_ ∷ ks) = x ∷ repeat_list x ks

-- The options of one reason in `_place_counters`.
unfoldable pub placements : List ℕ → Reason × ℕ → List (List Slot)
unfolding product repeat_list zip
placements days (r, total) =
    map (λ combo. slots_of r (zip days combo))
      (keep_if (λ combo. sum_of (λ n. n) combo == total)
        (product (repeat_list (range_from 0 (total + 1)) days)))

abbrev concat : List (List Slot) → List Slot
concat = flat_map (λ g. g)

-- `_place_counters`
unfoldable pub place_counters : List ℕ → List (Reason × ℕ) → List (List Slot)
unfolding placements product
place_counters days counts = map concat (product (map (placements days) counts))

-- Days of the window that are not forced.
abbrev free_pool : DecodedTarget → List ℕ
free_pool d = keep_if (λ x. not (elem x (forced_days d))) (range_from 0 d.window_days)

abbrev fill_gap : List ℕ → List Slot
fill_gap = map (λ g. record { gen_reason = free; day_offset = g; count = 1 })

-- One candidate of H1: the counters placed, the recency slots, and FREE events on the empty days.
abbrev pub h1_candidate : DecodedTarget → List ℕ → List Slot → Candidate
h1_candidate d days base =
    let slots = base ++ recency_slots d in
    let gap = keep_if (λ x. not (elem x (day_offsets (of slots)))) (distinct days) in
    elim gap [ [] ↦ of slots | g ∷ gs ↦ of (slots ++ fill_gap (g ∷ gs)) ]

-- `tuple(sorted(d.forced_days)) or (0,)`
abbrev default_days : DecodedTarget → List ℕ
default_days d = elim (sort_by leb (forced_days d)) [ [] ↦ 0 ∷ [] | x ∷ xs ↦ x ∷ xs ]

-- The branch of both strategies for a target without `n30`.
unfoldable pub unconstrained_candidates : DecodedTarget → List Candidate
unfolding place_counters recency_slots of sort_by
unconstrained_candidates d =
    map (λ base. of (base ++ recency_slots d)) (place_counters (default_days d) (counter_demand d))

h1_constrained : DecodedTarget → ℕ → List Candidate
unfolding place_counters recency_slots of sort_by combinations
h1_constrained d n30 =
    let forced = sort_by leb (forced_days d) in
    if ltb n30 (length forced)
    then []
    else flat_map
        (λ extra.
          let days = sort_by leb (forced ++ extra) in
          map (h1_candidate d days) (place_counters days (counter_demand d)))
        (combinations (free_pool d) (n30 - length forced))

-- `H1Branch.candidates`
unfoldable pub h1_candidates : DecodedTarget → List Candidate
unfolding unconstrained_candidates h1_constrained
h1_candidates d = elim d.n30 [ none ↦ unconstrained_candidates d | some n ↦ h1_constrained d n ]

-- `set(xs) == set(ys)`
abbrev same_days : List ℕ → List ℕ → Bool
same_days xs ys = all_of (λ x. elem x ys) xs && all_of (λ y. elem y xs) ys

h2_constrained : DecodedTarget → ℕ → List Candidate
unfolding place_counters recency_slots of sort_by combinations
h2_constrained d n30 =
    let forced = sort_by leb (forced_days d) in
    let least = max (length forced) 1 in
    flat_map
      (λ k.
        flat_map
          (λ extra.
            let days = sort_by leb (forced ++ extra) in
            keep_if (λ c. same_days (day_offsets c) days)
              (map (λ base. of (base ++ recency_slots d))
                (place_counters days (counter_demand d ++ (f30, n30) ∷ []))))
          (combinations (free_pool d) (k - length forced)))
      (range_from least (d.window_days + 1 - least))

-- `H2Branch.candidates`
unfoldable pub h2_candidates : DecodedTarget → List Candidate
unfolding unconstrained_candidates h2_constrained
h2_candidates d = elim d.n30 [ none ↦ unconstrained_candidates d | some n ↦ h2_constrained d n ]

-- The interface of a strategy, `SemanticBranch`.
pub record SemanticBranch : Type 0 where
  pub objective : Candidate → ℕ × ℕ
  pub is_feasible : Candidate → DecodedTarget → Bool
  pub candidates : DecodedTarget → List Candidate

abbrev pub h1_branch : SemanticBranch
h1_branch = record {
  objective = h1_objective;
  is_feasible = h1_feasible;
  candidates = h1_candidates;
}

abbrev pub h2_branch : SemanticBranch
h2_branch = record {
  objective = h2_objective;
  is_feasible = h2_feasible;
  candidates = h2_candidates;
}

-- The names that `build_branch` is given; `other` is any other text, or None.
pub data BranchName : Type 0 where
  h1 h2 other : BranchName

-- `build_branch`
unfoldable pub build_branch : BranchName → Outcome SemanticBranch
build_branch h1 = ok h1_branch
build_branch h2 = ok h2_branch
build_branch other = err value_error
