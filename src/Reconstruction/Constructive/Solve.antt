-- ===== src/Reconstruction/Constructive/Solve.antt =====
-- constructive.py: `solve_h1`, which builds a candidate and checks it against the bound. A dict from days to budgets is the
-- list of its entries, in the order of the days, which are distinct.
use lzd.Common.{
  ℕ, zero, suc, ◌+◌, ◌-◌, Bool, true, false, ◌&&◌, ◌||◌, not, List, [], ◌∷◌, ◌++◌, map, ltb, leb,
  ◌==◌, if◌then◌else◌, none, some, String, length, sum_of, keep_if, elem, any_of, range_from,
}
use Prim.Native.Nat.{max, min}
use lzd.Common.Outcome.{Outcome, ok, err, assertion_error, index_error, ◌>>=◌, ◌>>◌, raise_if}
use lzd.Common.Sorting.{sort_by}
use lzd.Reconstruction.Candidate.{Reason, free, Slot, Candidate, of, bump_day, session_capacity}
use lzd.Reconstruction.Hashing.{Hashing, text, number}
use lzd.Reconstruction.Semantics.{
  DecodedTarget, counter_demand, counter_capacity, forced_days, recency_slots, h1_feasible,
  h1_objective,
}
use lzd.Reconstruction.Constructive.{h1_objective_bound}

-- The order of `bytes`.
abbrev pub bytes_le : List ℕ → List ℕ → Bool
bytes_le [] ys = true
bytes_le (_ ∷ _) [] = false
bytes_le (x ∷ xs) (y ∷ ys) = ltb x y || ((x == y) && bytes_le xs ys)

abbrev pub take : {A : Type 0} → ℕ → List A → List A
take zero xs = []
take (suc n) [] = []
take (suc n) (x ∷ xs) = x ∷ take n xs

-- The keyword arguments of `solve_h1`.
pub record Seeding : Type 0 where
  pub target_id : String
  pub seed : ℕ
  pub track : String

-- The digest that a day is ranked by.
abbrev pub day_digest : Hashing → Seeding → ℕ → List ℕ
day_digest h s day =
    h.sha256 (text s.target_id ∷ number s.seed ∷ text s.track ∷ text "day" ∷ number day ∷ [])

-- `_seeded_days`
unfoldable pub seeded_days : Hashing → Seeding → List ℕ → ℕ → List ℕ
unfolding sort_by
seeded_days h s pool need =
    sort_by leb (take need (sort_by (λ a b. bytes_le (day_digest h s a) (day_digest h s b)) pool))

-- `for day in forced: budget[day] += 1`
abbrev pub count_forced : List ℕ → List (ℕ × ℕ) → List (ℕ × ℕ)
count_forced [] b = b
count_forced (day ∷ forced) b = count_forced forced (bump_day day 1 b)

-- `{day: 0 for day in days}`, one for each forced day, and one where there is none yet
abbrev pub first_budget : List ℕ → List ℕ → List (ℕ × ℕ)
first_budget forced days =
    map (λ (e : ℕ × ℕ). (e.0, if e.1 == 0 then 1 else e.1))
      (count_forced forced (map (λ day. (day, 0)) days))

-- The loop that fills the days up to the capacity, in order; what remains is its second part.
unfoldable pub fill : ℕ → List (ℕ × ℕ) → List (ℕ × ℕ) × ℕ
fill remaining [] = ([], remaining)
fill remaining ((day, n) ∷ b) =
    let amount = min (session_capacity - n) remaining in
    let rest = fill (remaining - amount) b in ((day, n + amount) ∷ rest.0, rest.1)

-- `if remaining > 0: budget[days[0]] += remaining`
abbrev pub overflow : ℕ → List (ℕ × ℕ) → Outcome (List (ℕ × ℕ))
overflow zero b = ok b
overflow (suc n) [] = err index_error
overflow (suc n) ((day, m) ∷ b) = ok ((day, m + suc n) ∷ b)

abbrev pub budget_sum : List (ℕ × ℕ) → ℕ
budget_sum = sum_of (λ (e : ℕ × ℕ). e.1)

-- The budget of the days for `total` events.
unfoldable pub day_budget : List ℕ → List ℕ → ℕ → Outcome (List (ℕ × ℕ))
unfolding fill
day_budget forced days total =
    let b = first_budget forced days in
    let filled = fill (total - budget_sum b) b in overflow filled.1 filled.0

-- `room = budget[day] - (1 if day in d.forced_days else 0)`
abbrev pub room_of : List ℕ → ℕ × ℕ → ℕ
room_of forced (day, n) = n - (if elem day forced then 1 else 0)

-- What a day takes from the demand: its slots, and the demand from the cursor on.
abbrev pub Placed : Type 0
Placed = List Slot × List (Reason × ℕ)

abbrev pub with_slot : Slot → Placed → Placed
with_slot s p = (s ∷ p.0, p.1)

-- The inner loop `while room > 0`.
unfoldable pub place_day : ℕ → ℕ → List (Reason × ℕ) → Outcome Placed
place_day day zero demand = ok ([], demand)
place_day day (suc room) [] = err assertion_error
place_day day (suc room) ((r, c) ∷ demand) =
    let skip = place_day day (suc room) demand in
    let rest = place_day day (suc room - c) demand in
    if c == 0
    then skip
    else if ltb (suc room) c
    then ok (
      record { gen_reason = r; day_offset = day; count = suc room } ∷ [],
      (r, c - suc room) ∷ demand,
    )
    else rest >>= λ p. ok (with_slot (record { gen_reason = r; day_offset = day; count = c }) p)

-- The loop over the days.
unfoldable pub place_days : List ℕ → List (ℕ × ℕ) → List (Reason × ℕ) → Outcome Placed
unfolding place_day
place_days forced [] demand = ok ([], demand)
place_days forced (e ∷ b) demand = place_day e.0 (room_of forced e) demand >>= λ p.
    place_days forced b p.1 >>= λ q. ok (p.0 ++ q.0, q.1)

-- `[(r, c) for r, c in demand if c]`
abbrev pub leftover : List (Reason × ℕ) → Bool
leftover = any_of (λ (e : Reason × ℕ). not (e.1 == 0))

-- The counters' demand, and the free events if there are any.
abbrev pub full_demand : DecodedTarget → ℕ → List (Reason × ℕ)
full_demand d free_events =
    counter_demand d ++ (if free_events == 0 then [] else (free, free_events) ∷ [])

abbrev pub wanted_days : DecodedTarget → ℕ
wanted_days d = elim d.n30 [ none ↦ max (length (forced_days d)) 1 | some k ↦ k ]

-- `sorted([*forced, *_seeded_days(pool, k - len(forced))])`
unfoldable pub chosen_days : Hashing → Seeding → DecodedTarget → List ℕ
unfolding seeded_days sort_by
chosen_days h s d =
    let pool = keep_if (λ x. not (elem x (forced_days d))) (range_from 0 d.window_days) in
    sort_by leb
      (sort_by leb (forced_days d) ++ seeded_days h s pool (wanted_days d - length (forced_days d)))

abbrev pub same_pair : ℕ × ℕ → ℕ × ℕ → Bool
same_pair p q = (p.0 == q.0) && (p.1 == q.1)

-- The checks at the end of `solve_h1`.
unfoldable pub certify : DecodedTarget → ℕ × ℕ → Candidate → Outcome Candidate
unfolding h1_feasible
certify d bound c = do
  raise_if (not (h1_feasible c d)) assertion_error
  raise_if (not (same_pair (h1_objective c) bound)) assertion_error
  ok c

-- `solve_h1`
unfoldable pub solve_h1 : Hashing → Seeding → DecodedTarget → Outcome Candidate
unfolding h1_objective_bound day_budget place_days of recency_slots sort_by chosen_days certify
solve_h1 h s d = do
  bound ← h1_objective_bound d
  let forced = sort_by leb (forced_days d)
  let days = chosen_days h s d
  budget ← day_budget forced days (counter_capacity d + length forced + bound.0)
  placed ← place_days forced budget (full_demand d bound.0)
  raise_if (leftover placed.1) assertion_error
  certify d bound (of (recency_slots d ++ placed.0))
