-- ===== src/Reconstruction/Candidate.antt =====
-- candidate.py: slots, candidates and their metrics. Days and counts are natural numbers. A dict or
-- a set that the code only sums, counts or sorts is a list here, since its order is not observed.
pub mod Metrics
pub mod Canonical
use lzd.Common.{
  ℕ, ◌+◌, ◌/◌, ◌≤◌, ◌≡◌, Bool, true, false, ◌&&◌, ◌||◌, List, [], ◌∷◌, map, ltb, leb, ◌==◌,
  if◌then◌else◌, length, sum_of, keep_if, distinct, elem, All,
}
use lzd.Common.Outcome.{Outcome, ok, err, value_error}
use lzd.Common.Sorting.{sort_by}

-- The values of `gen_reason` that the program uses.
pub data Reason : Type 0 where
  free f11 f18 f19 f30 f5 recency : Reason

-- The place of a reason in the order of its text: "FREE", "f11", "f18", "f19", "f30", "f5", "recency".
unfoldable pub rank : Reason → ℕ
rank free = 0
rank f11 = 1
rank f18 = 2
rank f19 = 3
rank f30 = 4
rank f5 = 5
rank recency = 6

abbrev pub is_reason : Reason → Reason → Bool
is_reason r q = rank r == rank q

pub record Slot : Type 0 where
  pub gen_reason : Reason
  pub day_offset : ℕ
  pub count : ℕ

-- `Slot(r, d, c)` with the checks of `__post_init__`; a day is not negative by its type.
unfoldable pub new_slot : Reason → ℕ → ℕ → Outcome Slot
new_slot r d c =
    if ltb c 1 then err value_error else ok (record { gen_reason = r; day_offset = d; count = c })

-- The order of `@dataclass(order=True)`.
abbrev pub slot_le : Slot → Slot → Bool
slot_le s t =
    ltb (rank s.gen_reason) (rank t.gen_reason)
    || (is_reason s.gen_reason t.gen_reason
        && (ltb s.day_offset t.day_offset || (s.day_offset == t.day_offset && leb s.count t.count)))

abbrev pub same_key : Slot → Slot → Bool
same_key s t = is_reason s.gen_reason t.gen_reason && (s.day_offset == t.day_offset)

-- `merged[(r, d)] = merged.get((r, d), 0) + count`
unfoldable pub add_count : Slot → List Slot → List Slot
add_count s [] = s ∷ []
add_count s (t ∷ ts) =
    if same_key s t then record t { count = t.count + s.count } ∷ ts else t ∷ add_count s ts

unfoldable pub merge_slots : List Slot → List Slot
merge_slots [] = []
merge_slots (s ∷ ss) = add_count s (merge_slots ss)

pub record Candidate : Type 0 where
  pub slots : List Slot

-- `Candidate.of`; that no count of a merged slot is below 1 is `of-IsWellFormed`.
unfoldable pub of : List Slot → Candidate
unfolding rank add_count merge_slots sort_by
of ss = record { slots = sort_by slot_le (merge_slots ss) }

abbrev pub day_offsets : Candidate → List ℕ
day_offsets c = distinct (map (λ s. s.day_offset) c.slots)

abbrev pub active_days : Candidate → ℕ
active_days c = length (day_offsets c)

abbrev pub active_days_in_window : Candidate → ℕ → ℕ
active_days_in_window c w =
    length (distinct (map (λ s. s.day_offset) (keep_if (λ s. ltb s.day_offset w) c.slots)))

abbrev pub total_events : Candidate → ℕ
total_events c = sum_of (λ s. s.count) c.slots

abbrev pub count_of : Candidate → Reason → ℕ
count_of c r = sum_of (λ s. s.count) (keep_if (λ s. is_reason s.gen_reason r) c.slots)

abbrev pub unexplained_events : Candidate → ℕ
unexplained_events c = sum_of (λ s. s.count) (keep_if (λ s. is_reason s.gen_reason free) c.slots)

-- `SESSION_CAPACITY`
abbrev pub session_capacity : ℕ
session_capacity = 5

-- `math.ceil(n / SESSION_CAPACITY)`
abbrev pub sessions_of : ℕ → ℕ
sessions_of n = (n + 4) / 5

abbrev pub has_day : ℕ → List (ℕ × ℕ) → Bool
has_day d [] = false
has_day d ((e, n) ∷ p) = (d == e) || has_day d p

abbrev pub bump_day : ℕ → ℕ → List (ℕ × ℕ) → List (ℕ × ℕ)
bump_day d c [] = []
bump_day d c ((e, n) ∷ p) = if d == e then (e, n + c) ∷ p else (e, n) ∷ bump_day d c p

-- `per_day[d] = per_day.get(d, 0) + c`
abbrev pub add_day : ℕ → ℕ → List (ℕ × ℕ) → List (ℕ × ℕ)
add_day d c p = if has_day d p then bump_day d c p else (d, c) ∷ p

unfoldable pub per_day : List Slot → List (ℕ × ℕ)
per_day [] = []
per_day (s ∷ ss) = add_day s.day_offset s.count (per_day ss)

unfoldable pub sessions : Candidate → ℕ
unfolding per_day
sessions c = sum_of (λ e. sessions_of e.1) (per_day c.slots)

-- `key()`
abbrev pub key : Candidate → List (Reason × ℕ × ℕ)
key c = map (λ s. (s.gen_reason, s.day_offset, s.count)) c.slots

-- Every slot holds an event, as `__post_init__` demands.
abbrev pub IsWellFormed : List Slot → Type 0
IsWellFormed = All (λ s. 1 ≤ s.count)
