-- ===== src/Ingestion/Consumer.antt =====
-- schemas.py and stream_consumer.py: an event is validated, and a batch is applied to the overlays.
pub mod Batch
pub mod Flush
use lzd.Common.{
  ℕ, zero, suc, ◌+◌, ◌-◌, ◌*◌, ◌≡◌, Bool, true, false, not, List, [], ◌∷◌, Option, none, some,
  String, ◌==ₛ◌, ◌==◌, ltb, if◌then◌else◌, length, any_of,
}
use lzd.Common.Outcome.{Outcome, ok, err, key_error, value_error, ◌>>=◌}
use lzd.Common.Dict.{Dict, get, set}
use lzd.Features.Window.{rt_bucket_start, rt_cutoff}
use lzd.Features.Overlay.{Redis, Ttls, apply_realtime_event}

-- What `float` makes of a time: it raises, or it gives NaN, or a number of seconds. Infinity is a
-- number past every clock.
pub data Time : Type 0 where
  unreadable not_a_number : Time
  at : ℕ → Time

-- The fields of an event that the consumer reads; `none` is a missing or null field (or an
-- empty `event_ts`). A price is `some none` where `float` raises on it, and a quantity where `int`
-- does; those that are read are natural numbers here.
pub record Payload : Type 0 where
  pub event_id : Option String
  pub user_id : Option String
  pub event_type : Option String
  pub event_ts : Option Time
  pub session_id : Option String
  pub price : Option (Option ℕ)
  pub quantity : Option (Option ℕ)

pub data Verdict : Type 0 where
  valid : Verdict
  missing_field : String → Verdict
  unknown_event_type bad_event_ts bad_user_id : Verdict

-- `payload.get(f) in (None, "")`
abbrev pub is_missing : Option String → Bool
is_missing none = true
is_missing (some s) = s ==ₛ ""

abbrev is_absent {ℓ} : {A : Type ℓ} → Option A → Bool
is_absent none = true
is_absent (some _) = false

-- `EVENT_TYPES`
abbrev pub event_types : List String
event_types =
    "app_open" ∷ "page_view" ∷ "search" ∷ "add_to_cart" ∷ "checkout" ∷ "order" ∷ "voucher_view"
    ∷ "voucher_claim" ∷ []

abbrev pub or_blank : Option String → String
or_blank none = ""
or_blank (some s) = s

abbrev pub is_event_type : Option String → Bool
is_event_type t = any_of (λ e. e ==ₛ or_blank t) event_types

-- `float(payload["event_ts"])` fails, or `ts <= 0`, which NaN does not meet.
abbrev pub is_bad_ts : Option Time → Bool
is_bad_ts none = true
is_bad_ts (some unreadable) = true
is_bad_ts (some not_a_number) = false
is_bad_ts (some (at ts)) = ts == 0

-- `validate_event`; `starts_with_u` is `str(user_id).startswith("U")`.
unfoldable pub validate_event : (String → Bool) → Payload → Verdict
validate_event starts_with_u p =
    if is_missing p.event_id
    then missing_field "event_id"
    else if is_missing p.user_id
    then missing_field "user_id"
    else if is_missing p.event_type
    then missing_field "event_type"
    else if is_absent p.event_ts
    then missing_field "event_ts"
    else if not (is_event_type p.event_type)
    then unknown_event_type
    else if is_bad_ts p.event_ts
    then bad_event_ts
    else if not (starts_with_u (or_blank p.user_id))
    then bad_user_id
    else valid

abbrev pub or_zero : Option ℕ → ℕ
or_zero none = 0
or_zero (some n) = n

-- `float(row["event_ts"])`; on NaN the two tests of `_update_realtime` are passed, and the `int` of
-- `rt_bucket_start` raises.
abbrev pub time_of : Payload → Outcome ℕ
time_of p = elim p.event_ts [
  | none ↦ err key_error
  | some unreadable ↦ err value_error
  | some not_a_number ↦ err value_error
  | some (at ts) ↦ ok ts
]

-- `float(row.get("price") or 0)` and `int(row.get("quantity") or 0)`
abbrev pub amount_of : Option (Option ℕ) → Outcome ℕ
amount_of none = ok 0
amount_of (some none) = err value_error
amount_of (some (some n)) = ok n

-- `EVENT_TO_COUNTER`
abbrev pub event_to_counter : String → Option String
event_to_counter t =
    if t ==ₛ "page_view"
    then some "rt_page_view_1h"
    else if t ==ₛ "add_to_cart"
    then some "rt_add_to_cart_1h"
    else if t ==ₛ "order"
    then some "rt_order_1h"
    else if t ==ₛ "search"
    then some "rt_search_cnt_1h"
    else none

-- `counters[field] = counters.get(field, 0.0) + 1.0`
abbrev pub count_one : Option String → Dict ℕ → Dict ℕ
count_one none d = d
count_one (some f) d = set f (or_zero (get f d) + 1) d

abbrev pub is_order : Payload → Bool
is_order p = or_blank p.event_type ==ₛ "order"

-- The amount of an order, `float(price) * int(quantity)`.
abbrev pub add_amount : Bool → Option (Option ℕ) → Option (Option ℕ) → Dict ℕ → Outcome (Dict ℕ)
add_amount false price quantity counted = ok counted
add_amount true price quantity counted = do
  a ← amount_of price
  n ← amount_of quantity
  ok (set "rt_gmv_1h" (a * n) counted)

-- The counters that a row adds to.
unfoldable pub counters_of : Payload → Outcome (Dict ℕ)
counters_of p =
    add_amount (is_order p) p.price p.quantity
      (count_one (event_to_counter (or_blank p.event_type)) (("rt_events_1h", 1) ∷ []))

-- The `result` of `_update_realtime`.
pub record Tally : Type 0 where
  pub applied : ℕ
  pub deduplicated : ℕ
  pub late_accepted : ℕ
  pub late_dropped : ℕ
  pub future_dropped : ℕ

abbrev pub count_applied : Bool → Tally → Tally
count_applied true t = record t { applied = t.applied + 1 }
count_applied false t = record t { deduplicated = t.deduplicated + 1 }

abbrev pub count_late : Bool → Tally → Tally
count_late true t = record t { late_accepted = t.late_accepted + 1 }
count_late false t = t

abbrev pub future_drop : Tally → Tally
future_drop t = record t { future_dropped = t.future_dropped + 1 }

abbrev pub late_drop : Tally → Tally
late_drop t = record t { late_dropped = t.late_dropped + 1 }

-- The settings of the feature store that the update reads.
pub record Lateness : Type 0 where
  pub realtime_future_skew_seconds : ℕ
  pub realtime_allowed_lateness_seconds : ℕ
  pub ttls : Ttls

module _ (r : Redis) where
  -- The markers, and the overlay of each user.
  abbrev pub Db : Type 0
  Db = r.Keys × (String → r.Hash)

  abbrev pub set_overlay : String → r.Hash → (String → r.Hash) → String → r.Hash
  set_overlay user h overlays other = if user ==ₛ other then h else overlays other

  -- A row in the window: its counters, the call of `apply_realtime_event`, and the counting of its
  -- result.
  unfoldable pub apply_row : Ttls → Payload → ℕ → ℕ → Db × Tally → Outcome (Db × Tally)
  unfolding apply_realtime_event counters_of
  apply_row ttls p ts now ((keys, overlays), t) = do
    counters ← counters_of p
    (applied, keys', h) ←
        apply_realtime_event r ttls (or_blank p.event_id) ts counters (or_blank p.session_id) now
          (keys, overlays (or_blank p.user_id))
    ok ((keys', set_overlay (or_blank p.user_id) h overlays), count_applied applied t)

  -- The body of the loop of `_update_realtime`, once the time is read.
  unfoldable pub update_at : Lateness → ℕ → Payload → Db × Tally → ℕ → Outcome (Db × Tally)
  unfolding rt_bucket_start rt_cutoff apply_row
  update_at cfg now p (db, t) ts =
      if ltb (now + cfg.realtime_future_skew_seconds) ts
      then ok (db, future_drop t)
      else if ltb (rt_bucket_start ts) (rt_cutoff now)
      then ok (db, late_drop t)
      else apply_row cfg.ttls p ts now
          (db, count_late (ltb cfg.realtime_allowed_lateness_seconds (now - ts)) t)

  -- The body of the loop of `_update_realtime`.
  unfoldable pub update_row : Lateness → ℕ → Payload → Db × Tally → Outcome (Db × Tally)
  unfolding update_at
  update_row cfg now p s = time_of p >>= update_at cfg now p s

  -- `_update_realtime`
  unfoldable pub update_realtime : Lateness → ℕ → List Payload → Db × Tally → Outcome (Db × Tally)
  unfolding update_row
  update_realtime cfg now [] s = ok s
  update_realtime cfg now (p ∷ rows) s = update_row cfg now p s >>= update_realtime cfg now rows
