-- ===== src/Reconstruction/Constructive/Placement.antt =====
-- constructive.py: the placement of the demand on the budget, counted by day and by reason.
use lzd.Common.{
  ℕ, zero, suc, ◌+◌, ◌-◌, ◌≤◌, ◌≡◌, refl, ◌∙◌, Bool, false, List, [], ◌∷◌, ◌++◌, ltb, ◌==◌, ==→≡,
  if◌then◌else◌, inl, inr, sum_of, keep_if, All-append, arith, Bool-cases,
}
use lzd.Common.Outcome.{Outcome, ok}
use lzd.Reconstruction.Candidate.{Reason, is_reason, Slot, IsWellFormed}
use lzd.Reconstruction.Candidate.Metrics.{events_where}
use lzd.Reconstruction.Constructive.Solve.{Placed, place_day, place_days, room_of, leftover}

abbrev Demand : Type 0
Demand = List (Reason × ℕ)

abbrev pub demand_sum : Demand → ℕ
demand_sum = sum_of (λ (e : Reason × ℕ). e.1)

-- What is asked of one reason.
abbrev pub demand_of : Reason → Demand → ℕ
demand_of r = λ demand.
    sum_of (λ (e : Reason × ℕ). e.1) (keep_if (λ (e : Reason × ℕ). is_reason e.0 r) demand)

abbrev pub of_reason : Reason → Reason → ℕ → Bool
of_reason r q d = is_reason q r

abbrev pub on_day : ℕ → Reason → ℕ → Bool
on_day x q d = x == d

-- The room of the entries of one day.
abbrev pub room_on : List ℕ → ℕ → List (ℕ × ℕ) → ℕ
room_on forced x = sum_of (λ (e : ℕ × ℕ). if x == e.0 then room_of forced e else 0)

abbrev pub room_sum : List ℕ → List (ℕ × ℕ) → ℕ
room_sum forced = sum_of (room_of forced)

pub events_where-append :
    (p : Reason → ℕ → Bool) (ss ts : List Slot)
    → events_where p (ss ++ ts) ≡ events_where p ss + events_where p ts
events_where-append p [] ts = omega arith
events_where-append p (s ∷ ss) ts = ground (arith, events_where-append p ss ts)

-- A day took `room` events from the demand, and all of them stand on that day.
record Took (day room : ℕ) (demand : Demand) (out : Outcome Placed) : Type 0 where
  slots : List Slot
  rest : Demand
  fits : out ≡ ok (slots, rest)
  busy : IsWellFormed slots
  there : (x : ℕ) → events_where (on_day x) slots ≡ (if x == day then room else 0)
  reasons : (r : Reason) → events_where (of_reason r) slots + demand_of r rest ≡ demand_of r demand
  total : demand_sum rest + room ≡ demand_sum demand

place_day-Took :
    (day room : ℕ) (demand : Demand)
    → room ≤ demand_sum demand
    → Took day room demand (place_day day room demand)
unfolding place_day
place_day-Took day zero demand h = record {
  slots = [];
  rest = demand;
  fits = refl;
  busy = tt;
  there = λ x. ground arith;
  reasons = λ r. omega arith;
  total = omega arith;
}
place_day-Took day (suc room) [] h = absurd (omega arith)
place_day-Took day (suc room) ((r, c) ∷ demand) h = elim (Bool-cases (c == 0)) [
  | inl none ↦
      let t = place_day-Took day (suc room) demand (ground arith) in
      record {
        slots = t.slots;
        rest = t.rest;
        fits = rw none t.fits;
        busy = t.busy;
        there = t.there;
        reasons = λ q. t.reasons q ∙ skipped q (==→≡ c 0 none);
        total = omega (arith, t.total, ==→≡ c 0 none);
      }
  | inr some_left ↦ elim (Bool-cases (ltb (suc room) c)) [
    | inl more ↦ record {
      slots = record { gen_reason = r; day_offset = day; count = suc room } ∷ [];
      rest = (r, c - suc room) ∷ demand;
      fits = rw (some_left, more) refl;
      busy = (omega arith, tt);
      there = λ x. ground arith;
      reasons = λ q. ground arith;
      total = ground arith;
    }
    | inr all_of_it ↦
        let t = place_day-Took day (suc room - c) demand (ground arith) in
        record {
          slots = record { gen_reason = r; day_offset = day; count = c } ∷ t.slots;
          rest = t.rest;
          fits = rw (some_left, all_of_it, t.fits) refl;
          busy = (ground arith, t.busy);
          there = λ x. ground (arith, t.there x);
          reasons = λ q. ground (arith, t.reasons q);
          total = ground (arith, t.total);
        }
  ]
]
  where
    skipped : (q : Reason) → c ≡ 0 → demand_of q demand ≡ demand_of q ((r, c) ∷ demand)
    skipped q z = elim (Bool-cases (is_reason r q)) [
      | inl e ↦ rw e (omega (arith, z))
      | inr n ↦ rw n refl
    ]

-- The days took their room from the demand: every day has its room, every reason its events.
pub record Served (forced : List ℕ) (b : List (ℕ × ℕ)) (demand : Demand) (out : Outcome Placed)
    : Type 0 where
  pub slots : List Slot
  pub rest : Demand
  pub fits : out ≡ ok (slots, rest)
  pub busy : IsWellFormed slots
  pub there : (x : ℕ) → events_where (on_day x) slots ≡ room_on forced x b
  pub reasons :
      (r : Reason) → events_where (of_reason r) slots + demand_of r rest ≡ demand_of r demand
  pub total : demand_sum rest + room_sum forced b ≡ demand_sum demand

pub place_days-Served :
    (forced : List ℕ) (b : List (ℕ × ℕ)) (demand : Demand)
    → room_sum forced b ≤ demand_sum demand
    → Served forced b demand (place_days forced b demand)
unfolding place_days
place_days-Served forced [] demand h = record {
  slots = [];
  rest = demand;
  fits = refl;
  busy = tt;
  there = λ x. refl;
  reasons = λ r. omega arith;
  total = omega arith;
}
place_days-Served forced (e ∷ b) demand h =
    let t = place_day-Took e.0 (room_of forced e) demand (omega (arith, h)) in
    let s = place_days-Served forced b t.rest (omega (arith, h, t.total)) in
    record {
      slots = t.slots ++ s.slots;
      rest = s.rest;
      fits = rw (t.fits, s.fits) refl;
      busy = All-append (λ s. 1 ≤ s.count) t.slots s.slots t.busy s.busy;
      there =
          λ x. events_where-append (on_day x) t.slots s.slots ∙ omega (arith, t.there x, s.there x);
      reasons = λ r.
          omega
            (arith, events_where-append (of_reason r) t.slots s.slots, t.reasons r, s.reasons r);
      total = omega (arith, t.total, s.total);
    }

leftover_none : (demand : Demand) → demand_sum demand ≡ 0 → leftover demand ≡ false
leftover_none [] h = refl
leftover_none (e ∷ demand) h = ground (arith, leftover_none demand)

demand_of_none : (r : Reason) (demand : Demand) → demand_sum demand ≡ 0 → demand_of r demand ≡ 0
demand_of_none r [] h = refl
demand_of_none r (e ∷ demand) h = ground (arith, demand_of_none r demand)

-- Where the days have room for just the demand, the placement raises nothing, leaves nothing over, fills every day's room,
-- and gives every reason the events that are asked of it.
pub place_days_exact :
    (forced : List ℕ) (b : List (ℕ × ℕ)) (demand : List (Reason × ℕ))
    → room_sum forced b ≡ demand_sum demand
    → (p : Placed) × (place_days forced b demand ≡ ok p)
      × (leftover p.1 ≡ false)
      × IsWellFormed p.0
      × ((x : ℕ) → events_where (on_day x) p.0 ≡ room_on forced x b)
      × ((r : Reason) → events_where (of_reason r) p.0 ≡ demand_of r demand)
place_days_exact forced b demand h =
    let s = place_days-Served forced b demand (omega (arith, h)) in
    let z : demand_sum s.rest ≡ 0 = omega (arith, h, s.total) in
    (
      (s.slots, s.rest),
      s.fits,
      leftover_none s.rest z,
      s.busy,
      s.there,
      λ r. omega (arith, s.reasons r, demand_of_none r s.rest z),
    )
