-- ===== src/Features/Window.antt =====
-- online_store.py: counters of the last hour in buckets of five minutes, and how they are read.
pub mod Sums
pub mod Read
use lzd.Common.{
  ℕ, zero, suc, ◌+◌, ◌-◌, ◌*◌, ◌/◌, ◌≡◌, Bool, true, false, ◌&&◌, ◌||◌, not, List, [], ◌∷◌, Option,
  none, some, String, ◌==ₛ◌, ◌==◌, ltb, if◌then◌else◌,
}
use lzd.Common.Dict.{Dict, get, set}

abbrev pub rt_window_seconds : ℕ
rt_window_seconds = 3600

abbrev pub rt_bucket_seconds : ℕ
rt_bucket_seconds = 300

-- `RT_BUCKETS`
abbrev pub rt_buckets : ℕ
rt_buckets = 12

unfoldable pub rt_bucket_start : ℕ → ℕ
rt_bucket_start now = (now / rt_bucket_seconds) * rt_bucket_seconds

-- In the first hour of the epoch this is 0, where Python has a negative number; no bucket lies
-- before either.
unfoldable pub rt_cutoff : ℕ → ℕ
unfolding rt_bucket_start
rt_cutoff now = rt_bucket_start now - (rt_buckets - 1) * rt_bucket_seconds

-- A field of the overlay hash: `name|bucket_start`, or a name alone.
pub data Field : Type 0 where
  windowed : String → ℕ → Field
  plain : String → Field

-- A value of the hash: a text that `float` reads, or another.
pub data Value : Type 0 where
  num : ℕ → Value
  text : String → Value

-- `float(out.get(name, 0.0))`; none where `float` raises.
abbrev pub number_of : Option Value → Option ℕ
number_of none = some 0
number_of (some (num n)) = some n
number_of (some (text _)) = none

-- `mapping_5m`
abbrev pub mapping_5m : String → Option String
mapping_5m name =
    if name ==ₛ "rt_page_view_1h"
    then some "rt_page_view_5m"
    else if name ==ₛ "rt_add_to_cart_1h"
    then some "rt_add_to_cart_5m"
    else if name ==ₛ "rt_gmv_1h"
    then some "rt_cart_gmv_5m"
    else if name ==ₛ "rt_search_cnt_1h"
    then some "rt_search_cnt_5m"
    else none

abbrev pub put_sum : String → ℕ → Option ℕ → Dict Value → Option (Dict Value)
put_sum name v none out = none
put_sum name v (some n) out = some (set name (num (n + v)) out)

-- `out[name] = float(out.get(name, 0.0)) + float(value)`; none where `float` raises.
abbrev pub add_value : String → Value → Dict Value → Option (Dict Value)
add_value name (text _) out = none
add_value name (num v) out = put_sum name v (number_of (get name out)) out

-- An exception in the `try` skips what is left of it.
abbrev pub or_else : Option (Dict Value) → Dict Value → Dict Value
or_else none out = out
or_else (some out) _ = out

abbrev pub add_5m : Option String → Value → Dict Value → Dict Value
add_5m none v out = out
add_5m (some name_5m) v out = or_else (add_value name_5m v out) out

abbrev pub finish_bucket : Bool → String → Value → Option (Dict Value) → Dict Value → Dict Value
finish_bucket current name v none out = out
finish_bucket current name v (some out') out =
    if current then add_5m (mapping_5m name) v out' else out'

-- The body of the loop for a field with a bucket.
abbrev pub add_bucket : ℕ → String → ℕ → Value → Dict Value → Dict Value
unfolding rt_bucket_start rt_cutoff
add_bucket now name b v out =
    let done = finish_bucket (b == rt_bucket_start now) name v (add_value name v out) out in
    if ltb b (rt_cutoff now) then out else done

abbrev pub add_item : ℕ → Field × Value → Dict Value → Dict Value
add_item now (plain f, v) out = set f v out
add_item now (windowed name b, v) out = add_bucket now name b v out

unfoldable pub aggregate : ℕ → List (Field × Value) → Dict Value → Dict Value
aggregate now [] out = out
aggregate now (i ∷ items) out = aggregate now items (add_item now i out)

-- `aggregate_realtime`, with the time given
unfoldable pub aggregate_realtime : List (Field × Value) → ℕ → Dict Value
unfolding aggregate
aggregate_realtime rt_raw now = aggregate now rt_raw []

-- The one field of the overlay whose value is no number.
abbrev pub session_id_field : String
session_id_field = "_rt_session_id"

-- A field as the writers leave it: a text stands under the session id alone.
abbrev pub is_overlay_item : Field × Value → Bool
is_overlay_item (plain f, num _) = true
is_overlay_item (plain f, text _) = f ==ₛ session_id_field
is_overlay_item (windowed name _, num _) = not (name ==ₛ session_id_field)
is_overlay_item (windowed _ _, text _) = false
