-- ===== src/Reconstruction/Constructive/Days.antt =====
-- candidate.py: counting the days, the events and the sessions of a list of slots, day by day.
use lzd.Common.{
  ℕ, ◌+◌, ◌*◌, ◌≤◌, ◌≡◌, refl, ap, Bool, true, not, List, [], ◌∷◌, map, ◌==◌, if◌then◌else◌, length,
  sum_of, keep_if, distinct, elem, All, arith, Bool-cases, inl, inr,
}
use lzd.Reconstruction.Candidate.{Slot, sessions_of, per_day, has_day, bump_day, IsWellFormed}

abbrev pub days_of : List Slot → List ℕ
days_of = map (λ s. s.day_offset)

has_day-bump_day : (x d c : ℕ) (p : List (ℕ × ℕ)) → has_day x (bump_day d c p) ≡ has_day x p
has_day-bump_day x d c [] = refl
has_day-bump_day x d c ((e, n) ∷ p) = ground (arith, has_day-bump_day x d c p)

has_day-per_day : (x : ℕ) (ss : List Slot) → has_day x (per_day ss) ≡ elem x (days_of ss)
unfolding per_day
has_day-per_day x [] = refl
has_day-per_day x (s ∷ ss) = ground (
  arith,
  has_day-per_day x ss,
  has_day-per_day s.day_offset ss,
  has_day-bump_day x s.day_offset s.count (per_day ss),
)

-- Every day of the dict holds an event.
abbrev IsBusy : List (ℕ × ℕ) → Type 0
IsBusy = All (λ e. 1 ≤ e.1)

bump_day-IsBusy : (d c : ℕ) (p : List (ℕ × ℕ)) → IsBusy p → IsBusy (bump_day d c p)
bump_day-IsBusy d c [] h = h
bump_day-IsBusy d c ((e, n) ∷ p) h = ground (arith, bump_day-IsBusy d c p h.1)

pub per_day-IsBusy : (ss : List Slot) → IsWellFormed ss → All (λ e. 1 ≤ e.1) (per_day ss)
unfolding per_day
per_day-IsBusy [] h = h
per_day-IsBusy (s ∷ ss) h =
    ground (arith, per_day-IsBusy ss h.1, bump_day-IsBusy s.day_offset s.count (per_day ss))

-- The entries whose day passes a test: how many, with how many events, in how many sessions.
module _ (p : ℕ → Bool) where
  abbrev pub num_days : List (ℕ × ℕ) → ℕ
  num_days [] = 0
  num_days ((e, n) ∷ q) = (if p e then 1 else 0) + num_days q

  abbrev pub sum_days : List (ℕ × ℕ) → ℕ
  sum_days [] = 0
  sum_days ((e, n) ∷ q) = (if p e then n else 0) + sum_days q

  abbrev pub session_days : List (ℕ × ℕ) → ℕ
  session_days [] = 0
  session_days ((e, n) ∷ q) = (if p e then sessions_of n else 0) + session_days q

  abbrev pub select : List Slot → List Slot
  select = keep_if (λ s. p s.day_offset)

  num_days-bump_day : (d c : ℕ) (q : List (ℕ × ℕ)) → num_days (bump_day d c q) ≡ num_days q
  num_days-bump_day d c [] = refl
  num_days-bump_day d c ((e, n) ∷ q) = ground (arith, num_days-bump_day d c q)

  sum_days-bump_day :
      (d c : ℕ) (q : List (ℕ × ℕ))
      → has_day d q ≡ true
      → sum_days (bump_day d c q) ≡ sum_days q + (if p d then c else 0)
  sum_days-bump_day d c [] h = cc
  sum_days-bump_day d c ((e, n) ∷ q) h = elim (Bool-cases (d == e)) [
    | inl same ↦ rw same (ground (arith, ap p (d_is_e d e same)))
    | inr other ↦ rw other (ground (arith, sum_days-bump_day d c q))
  ]
    where
      d_is_e : (d e : ℕ) → (d == e) ≡ true → d ≡ e
      d_is_e d e h = ground arith

  elem-select :
      (x : ℕ) (ss : List Slot) → p x ≡ true → elem x (days_of (select ss)) ≡ elem x (days_of ss)
  elem-select x [] h = refl
  elem-select x (s ∷ ss) h = elim (Bool-cases (x == s.day_offset)) [
    | inl same ↦ rw (same, ← ap p (x_is_y x s.day_offset same), h) (rw same)
    | inr other ↦ rw other (ground (arith, elem-select x ss h))
  ]
    where
      x_is_y : (x y : ℕ) → (x == y) ≡ true → x ≡ y
      x_is_y x y e = ground arith

  -- As many entries as there are distinct days among the slots that pass.
  pub num_days-per_day :
      (ss : List Slot) → num_days (per_day ss) ≡ length (distinct (days_of (select ss)))
  unfolding per_day
  num_days-per_day [] = refl
  num_days-per_day (s ∷ ss) = ground (
    arith,
    num_days-per_day ss,
    has_day-per_day s.day_offset ss,
    elem-select s.day_offset ss,
    num_days-bump_day s.day_offset s.count (per_day ss),
  )

  pub sum_days-per_day :
      (ss : List Slot) → sum_days (per_day ss) ≡ sum_of (λ s. s.count) (select ss)
  unfolding per_day
  sum_days-per_day [] = refl
  sum_days-per_day (s ∷ ss) =
      ground (arith, sum_days-per_day ss, sum_days-bump_day s.day_offset s.count (per_day ss))

  -- A busy day has a session, and a session holds five events at most.
  pub session_days_bounds :
      (q : List (ℕ × ℕ))
      → All (λ e. 1 ≤ e.1) q
      → (num_days q ≤ session_days q) × (sum_days q ≤ 5 * session_days q)
  session_days_bounds [] h = omega arith
  session_days_bounds ((e, n) ∷ q) h = let ih = session_days_bounds q h.1 in ground (arith, ih)

-- The sessions are those of the days that pass a test and those of the other days.
pub session_days_split :
    (p : ℕ → Bool) (q : List (ℕ × ℕ))
    → sum_of (λ e. sessions_of e.1) q ≡ session_days p q + session_days (λ d. not (p d)) q
session_days_split p [] = refl
session_days_split p ((e, n) ∷ q) = ground (arith, session_days_split p q)
