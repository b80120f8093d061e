-- ===== src/Reconstruction/Constructive/Sessions.antt =====
-- constructive.py: the days, the events and the sessions of the candidate that `solve_h1` builds.
use lzd.Common.{
  ℕ, ◌+◌, ◌*◌, ◌≤◌, ◌≡◌, refl, sym, ap, ◌∙◌, inl, inr, Bool, true, false, ◌&&◌, List, [], ◌∷◌, leb,
  ◌==◌, if◌then◌else◌, sum_of, elem, length-distinct-le, In, All, arith, Bool-cases,
}
use lzd.Common.Counting.{times_in}
use lzd.Reconstruction.Candidate.{Slot, sessions_of, per_day, has_day, bump_day, IsWellFormed}
use lzd.Reconstruction.Candidate.Metrics.{events_where}
use lzd.Reconstruction.Constructive.Days.{
  days_of, num_days, sum_days, session_days, select, num_days-per_day, sum_days-per_day,
}
use lzd.Reconstruction.Constructive.Placement.{on_day}

-- A day has a slot just where it has an event.
pub elem-days_of :
    (x : ℕ) (ss : List Slot)
    → IsWellFormed ss
    → elem x (days_of ss) ≡ leb 1 (events_where (on_day x) ss)
elem-days_of x [] w = ground arith
elem-days_of x (s ∷ ss) w = ground (arith, elem-days_of x ss w.1)

pub elem-days_of-select :
    (p : ℕ → Bool) (x : ℕ) (ss : List Slot)
    → elem x (days_of (select p ss)) ≡ (p x && elem x (days_of ss))
elem-days_of-select p x [] = ground arith
elem-days_of-select p x (s ∷ ss) = elim (Bool-cases (x == s.day_offset)) [
  | inl e ↦ rw (e, ← ap p (same e)) (ground (arith, elem-days_of-select p x ss))
  | inr n ↦ rw n (ground (arith, elem-days_of-select p x ss))
]
  where
    same : (x == s.day_offset) ≡ true → x ≡ s.day_offset
    same e = ground arith

pub slot_day_busy :
    (s : Slot) (ss : List Slot)
    → IsWellFormed ss
    → In s ss
    → 1 ≤ events_where (on_day s.day_offset) ss
slot_day_busy s [] w i = elim i [ ]
slot_day_busy s (t ∷ ss) w (inl e) =
    let f : s.day_offset ≡ t.day_offset = ap (λ (u : Slot). u.day_offset) e in ground (arith, w.0)
slot_day_busy s (t ∷ ss) w (inr i) = ground (arith, slot_day_busy s ss w.1 i)

-- The events of one day are one entry of the dict.
single_day :
    (x : ℕ) (q : List (ℕ × ℕ))
    → num_days (λ y. x == y) q ≤ 1
    → session_days (λ y. x == y) q ≡ sessions_of (sum_days (λ y. x == y) q)
single_day x [] h = omega arith
single_day x ((y, n) ∷ q) h = elim (Bool-cases (x == y)) [
  | inl e ↦ rw e (let z = none_left q (omega (arith, rw e at h)) in omega (arith, z.0, z.1))
  | inr other ↦ rw other (omega (arith, single_day x q (omega (arith, rw other at h))))
]
  where
    none_left :
        (q : List (ℕ × ℕ))
        → num_days (λ y. x == y) q ≡ 0
        → (session_days (λ y. x == y) q ≡ 0) × (sum_days (λ y. x == y) q ≡ 0)
    none_left [] h = (refl, refl)
    none_left ((y, n) ∷ q) h = ground (arith, none_left q)

one_entry : (x : ℕ) (ss : List Slot) → num_days (λ y. x == y) (per_day ss) ≤ 1
one_entry x ss = omega (
  arith,
  num_days-per_day (λ y. x == y) ss,
  length-distinct-le (days_of (select (λ y. x == y) ss)) (x ∷ [])
      (λ z h. ground (arith, elem-days_of-select (λ y. x == y) z ss)),
)

pub sessions_on_day :
    (x : ℕ) (ss : List Slot)
    → session_days (λ y. x == y) (per_day ss) ≡ sessions_of (events_where (on_day x) ss)
sessions_on_day x ss =
    single_day x (per_day ss) (one_entry x ss) ∙ ap sessions_of (sum_days-per_day (λ y. x == y) ss)

-- A property of the days of the slots is one of the days of the dict.
pub per_day_all :
    (P : ℕ → Type 0) (ss : List Slot)
    → All (λ s. P s.day_offset) ss
    → All (λ (e : ℕ × ℕ). P e.0) (per_day ss)
unfolding per_day
per_day_all P [] h = tt
per_day_all P (s ∷ ss) h = elim (Bool-cases (has_day s.day_offset (per_day ss))) [
  | inl e ↦ rw e (bumped (per_day ss) (per_day_all P ss h.1))
  | inr n ↦ rw n (h.0, per_day_all P ss h.1)
]
  where
    bumped :
        (q : List (ℕ × ℕ))
        → All (λ (e : ℕ × ℕ). P e.0) q
        → All (λ (e : ℕ × ℕ). P e.0) (bump_day s.day_offset s.count q)
    bumped [] h = tt
    bumped ((y, n) ∷ q) h = elim (Bool-cases (s.day_offset == y)) [
      | inl e ↦ rw e h
      | inr other ↦ rw other (h.0, bumped q h.1)
    ]

sum_of_pick :
    (y m : ℕ) (f : ℕ → ℕ) (xs : List ℕ)
    → sum_of (λ x. (if x == y then m else 0) + f x) xs ≡ times_in y xs * m + sum_of f xs
sum_of_pick y m f [] = omega arith
sum_of_pick y m f (x ∷ xs) = elim (Bool-cases (x == y)) [
  | inl e ↦ rw e (let ih = sum_of_pick y m f xs in distribute (times_in y xs) m _ _ _ ih)
  | inr n ↦ rw n (omega (arith, sum_of_pick y m f xs))
]
  where
    distribute : (t m a b c : ℕ) → a ≡ t * m + b → m + c + a ≡ (1 + t) * m + (c + b)
    distribute t m a b c h = grind arith

-- The sessions of the days that pass a test, day by day.
pub sessions_by_day :
    (p : ℕ → Bool) (days : List ℕ) (q : List (ℕ × ℕ))
    → All (λ (e : ℕ × ℕ). times_in e.0 days ≡ (if p e.0 then 1 else 0)) q
    → session_days p q ≡ sum_of (λ x. session_days (λ y. x == y) q) days
sessions_by_day p days [] h = sym (zeros days)
  where
    zeros : (xs : List ℕ) → sum_of (λ x. 0) xs ≡ 0
    zeros [] = refl
    zeros (x ∷ xs) = omega (arith, zeros xs)
sessions_by_day p days ((y, n) ∷ q) h = omega (
  arith,
  sum_of_pick y (sessions_of n) (λ x. session_days (λ z. x == z) q) days,
  sessions_by_day p days q h.1,
  once (p y) (times_in y days) (sessions_of n) h.0,
)
  where
    once : (b : Bool) (t m : ℕ) → t ≡ (if b then 1 else 0) → t * m ≡ (if b then m else 0)
    once true t m e = rw e (omega arith)
    once false t m e = rw e (omega arith)
