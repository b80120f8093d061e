-- ===== src/Ingestion/Consumer/Batch.antt =====
-- stream_consumer.py: what becomes of a batch of validated events.
use lzd.Common.{ℕ, suc, ◌+◌, ◌≡◌, Bool, true, false, ◌&&◌, ◌||◌, not, Option, none, some, ltb}
use lzd.Common.Outcome.{Outcome, ok}
use lzd.Common.Dict.{Dict}
use lzd.Features.Window.{rt_bucket_start, rt_cutoff}
use lzd.Features.Overlay.{Redis}
use lzd.Ingestion.Consumer.{unreadable, not_a_number, at, Payload, Tally, Lateness, Db, is_order}

-- A row that was applied, or left out for one reason; a row accepted late is among the others.
abbrev pub handled : Tally → ℕ
handled t = t.applied + t.deduplicated + (t.late_dropped + t.future_dropped)

-- `float` or `int` raises on what the field holds.
abbrev is_unreadable : Option (Option ℕ) → Bool
is_unreadable (some none) = true
is_unreadable _ = false

abbrev pub is_unreadable_order : Payload → Bool
is_unreadable_order p = is_order p && (is_unreadable p.price || is_unreadable p.quantity)

-- The time is neither in the future nor before the window.
abbrev pub in_window : Lateness → ℕ → ℕ → Bool
in_window cfg now ts =
    not (ltb (now + cfg.realtime_future_skew_seconds) ts)
    && not (ltb (rt_bucket_start ts) (rt_cutoff now))

-- A row that passes the validation and cannot be applied: its time is NaN, or it is an order in the
-- window whose price or quantity is not a number.
abbrev pub is_poison : Lateness → ℕ → Payload → Bool
is_poison cfg now p = elim p.event_ts [
  | none ↦ false
  | some unreadable ↦ false
  | some not_a_number ↦ true
  | some (at ts) ↦ in_window cfg now ts && is_unreadable_order p
]

module _ (r : Redis) where
  -- A step that succeeds and counts one row.
  abbrev CountsOne : Tally → Outcome (Db r × Tally) → Type 0
  CountsOne t o = (s : Db r × Tally) × (o ≡ ok s) × (handled s.1 ≡ suc (handled t))
