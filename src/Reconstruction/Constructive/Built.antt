-- ===== src/Reconstruction/Constructive/Built.antt =====
-- constructive.py: the budget of a day, and the events of the candidate on it.
use lzd.Common.{
  ℕ, ◌+◌, ◌≤◌, ◌≡◌, refl, ap, inl, inr, true, false, ◌&&◌, not, List, [], ◌∷◌, map, ltb, leb, ◌==◌,
  if◌then◌else◌, sum_of, elem, All, arith, Bool-cases,
}
use lzd.Common.Counting.{times_in, times_in-elem}
use lzd.Common.Sorting.{sort_by}
use lzd.Reconstruction.Candidate.{recency, Slot, sessions_of, IsWellFormed}
use lzd.Reconstruction.Candidate.Metrics.{events_where}
use lzd.Reconstruction.Semantics.{DecodedTarget, forced_days, recency_days, recency_slots}
use lzd.Reconstruction.Constructive.{outside}
use lzd.Reconstruction.Constructive.Budget.{days_in, IsBusy, budget_sessions}
use lzd.Reconstruction.Constructive.Placement.{on_day, room_on}

-- The events that the budget has for a day.
abbrev pub value_on : ℕ → List (ℕ × ℕ) → ℕ
value_on x = sum_of (λ (e : ℕ × ℕ). if x == e.0 then e.1 else 0)

pub room_on_missing :
    (forced : List ℕ) (x : ℕ) (b : List (ℕ × ℕ))
    → elem x (days_in b) ≡ false
    → room_on forced x b ≡ 0
room_on_missing forced x [] h = refl
room_on_missing forced x (e ∷ b) h = ground (arith, room_on_missing forced x b)

value_on_missing : (x : ℕ) (b : List (ℕ × ℕ)) → elem x (days_in b) ≡ false → value_on x b ≡ 0
value_on_missing x [] h = refl
value_on_missing x (e ∷ b) h = ground (arith, value_on_missing x b)

-- The room of a day is its budget, less its recency event.
pub room_on-value_on :
    (forced : List ℕ) (x : ℕ) (b : List (ℕ × ℕ))
    → IsBusy b
    → times_in x (days_in b) ≤ 1
    → elem x (days_in b) ≡ true
    → room_on forced x b + (if elem x forced then 1 else 0) ≡ value_on x b
room_on-value_on forced x [] y o h = cc
room_on-value_on forced x ((z, n) ∷ b) y o h = elim (Bool-cases (x == z)) [
  | inl e ↦ here (same e)
  | inr other ↦
      rw other (omega (arith, room_on-value_on forced x b y.1 (omega (arith, o)) (later other)))
]
  where
    same : (x == z) ≡ true → z ≡ x
    same e = ground arith

    later : (x == z) ≡ false → elem x (days_in b) ≡ true
    later other = ground arith

    gone : z ≡ x → elem x (days_in b) ≡ false
    gone e = ground (arith, times_in-elem x (days_in b))

    here :
        z ≡ x
        → room_on forced x ((z, n) ∷ b) + (if elem x forced then 1 else 0) ≡ value_on x ((z, n) ∷ b)
    here e =
        let r = room_on_missing forced x b (gone e) in
        let v = value_on_missing x b (gone e) in
        let f = ap (λ w. elem w forced) e in ground (arith, y.0)

pub value_on_busy :
    (x : ℕ) (b : List (ℕ × ℕ)) → IsBusy b → elem x (days_in b) ≡ true → 1 ≤ value_on x b
value_on_busy x [] y h = cc
value_on_busy x (e ∷ b) y h = ground (arith, value_on_busy x b y.1)

-- The sessions of the budget, day by day.
pub budget_sessions_by_day :
    (b : List (ℕ × ℕ))
    → ((x : ℕ) → times_in x (days_in b) ≤ 1)
    → sum_of (λ x. sessions_of (value_on x b)) (days_in b) ≡ budget_sessions b
budget_sessions_by_day [] o = refl
budget_sessions_by_day ((z, n) ∷ b) o =
    let gone = fresh (o z) in
    omega (
      arith,
      skip (days_in b) gone,
      budget_sessions_by_day b (λ x. less x (o x)),
      head (value_on_missing z b gone),
    )
  where
    fresh : times_in z (z ∷ days_in b) ≤ 1 → elem z (days_in b) ≡ false
    fresh h = ground (arith, times_in-elem z (days_in b))

    less : (x : ℕ) → times_in x (z ∷ days_in b) ≤ 1 → times_in x (days_in b) ≤ 1
    less x h = ground arith

    head : value_on z b ≡ 0 → sessions_of (value_on z ((z, n) ∷ b)) ≡ sessions_of n
    head h = ap sessions_of (ground arith)

    skip :
        (xs : List ℕ)
        → elem z xs ≡ false
        → sum_of (λ x. sessions_of (value_on x ((z, n) ∷ b))) xs
          ≡ sum_of (λ x. sessions_of (value_on x b)) xs
    skip [] h = refl
    skip (x ∷ xs) h = omega (arith, skip xs (ground arith), ap sessions_of (other x (ground arith)))
      where
        other : (x : ℕ) → (z == x) ≡ false → value_on x ((z, n) ∷ b) ≡ value_on x b
        other x h = ground arith

pub recency_on_day :
    (d : DecodedTarget) (x : ℕ)
    → events_where (on_day x) (recency_slots d) ≡ (if elem x (recency_days d) then 1 else 0)
unfolding recency_slots sort_by
recency_on_day d x = ground arith

pub forced_or_outside :
    (d : DecodedTarget) (x : ℕ)
    → elem x (forced_days d) ≡ (elem x (recency_days d) && ltb x d.window_days)
forced_or_outside d x = ground arith

pub recency_slots-IsWellFormed : (d : DecodedTarget) → IsWellFormed (recency_slots d)
unfolding recency_slots
recency_slots-IsWellFormed d = busy (sort_by leb (recency_days d))
  where
    busy :
        (days : List ℕ)
        → IsWellFormed
            (map (λ day. record { gen_reason = recency; day_offset = day; count = 1 }) days)
    busy [] = tt
    busy (x ∷ days) = (omega arith, busy days)

-- The recency events outside the window, and none of the slots inside it.
pub recency_outside :
    (d : DecodedTarget)
    → events_where (λ r x. not (ltb x d.window_days)) (recency_slots d) ≡ outside d
unfolding recency_slots sort_by
recency_outside d = ground arith

pub none_outside :
    (d : DecodedTarget) (ss : List Slot)
    → All (λ s. ltb s.day_offset d.window_days ≡ true) ss
    → events_where (λ r x. not (ltb x d.window_days)) ss ≡ 0
none_outside d [] h = refl
none_outside d (s ∷ ss) h = rw (h.0) (none_outside d ss h.1)
