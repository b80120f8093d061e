-- ===== src/Reconstruction/Constructive.antt =====
-- constructive.py: the bound that the H1 solver certifies its result with.
pub mod Days
pub mod Bound
pub mod Solve
pub mod Budget
pub mod Placement
pub mod Chosen
pub mod Sessions
pub mod Built
pub mod Reached
pub mod Certified
pub mod Passes
pub mod Least
use lzd.Common.{
  ℕ, ◌+◌, ◌-◌, ◌≤◌, ◌≡◌, Bool, true, false, ◌&&◌, not, List, [], ◌∷◌, map, ltb, ◌==◌, if◌then◌else◌,
  Option, none, some, length, keep_if, All,
}
use Prim.Native.Nat.{max}
use lzd.Common.Outcome.{Outcome, ok, err, infeasible, ◌>>=◌, ◌>>◌, raise_if}
use lzd.Reconstruction.Candidate.{Reason, recency, is_reason, Slot, Candidate, sessions_of}
use lzd.Reconstruction.Semantics.{
  DecodedTarget, counter_capacity, forced_days, recency_days, recency_slots,
}

-- `len({d1, d2}) - len(forced)`, the recency days outside the window
abbrev pub outside : DecodedTarget → ℕ
outside d = length (recency_days d) - length (forced_days d)

abbrev pub free_min : DecodedTarget → ℕ → ℕ
free_min d k = k - length (forced_days d) - counter_capacity d

abbrev pub sessions_min : DecodedTarget → ℕ → ℕ
sessions_min d k =
    outside d + max k (sessions_of (counter_capacity d + length (forced_days d) + free_min d k))

-- `h1_objective_bound`; `max(0, k - |F| - C)` is the subtraction that stops at 0.
unfoldable pub h1_objective_bound : DecodedTarget → Outcome (ℕ × ℕ)
h1_objective_bound d = elim d.n30 [
  | none ↦ ok (
    0,
    outside d
        + max (max (length (forced_days d)) 1)
            (sessions_of (counter_capacity d + length (forced_days d))),
  )
  | some k ↦ do
    raise_if (ltb k (length (forced_days d))) infeasible
    raise_if (ltb d.window_days k) infeasible
    ok (free_min d k, sessions_min d k)
]

abbrev pub not_recency : Slot → Bool
not_recency s = not (is_reason s.gen_reason recency)

-- The recency events of a candidate are the slots that `_recency_slots` builds, and its other
-- events are in the window.
pub record IsPlaced (c : Candidate) (d : DecodedTarget) : Type 0 where
  pub pinned : keep_if (λ s. is_reason s.gen_reason recency) c.slots ≡ recency_slots d
  pub inside : All (λ s. ltb s.day_offset d.window_days ≡ true) (keep_if not_recency c.slots)
