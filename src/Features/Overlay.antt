-- ===== src/Features/Overlay.antt =====
-- online_store.py: an event is applied to the overlay of a user, once.
pub mod Keeps
pub mod Counts
pub mod Replay
use lzd.Common.{
  ℕ, ◌+◌, ◌-◌, ◌<◌, ◌≡◌, ◌⊎◌, Bool, true, false, ◌||◌, not, List, [], ◌∷◌, Option, none, some,
  String, ◌==ₛ◌, ◌==◌, ltb, if◌then◌else◌, In,
}
use lzd.Common.Outcome.{Outcome, ok, err, value_error}
use lzd.Features.Window.{
  Field, windowed, plain, Value, num, text, rt_bucket_start, rt_cutoff, session_id_field,
}
use lzd.Features.Window.Sums.{total}

-- The commands of Redis on the hash of a user and on the markers of the events. The markers hold
-- the clock of the server: `wait` is its progress, and `ttl` the time that a marker has left, which
-- is 0 where there is none.
pub record Redis : Type 1 where
  pub Hash : Type 0
  pub Keys : Type 0
  pub hgetall : Hash → List (Field × Value)
  pub hget : Field → Hash → Option Value
  pub hset : Field → Value → Hash → Hash
  pub hincrbyfloat : Field → ℕ → Hash → Hash
  pub hdel : Field → Hash → Hash
  pub expire : ℕ → Hash → Hash
  pub exists : String → Keys → Bool
  pub set : String → ℕ → Keys → Keys
  pub ttl : String → Keys → ℕ
  pub wait : ℕ → Keys → Keys

-- What Redis documents of them: a command changes its own field, and HGETALL lists each field once.
pub record RedisLaws (r : Redis) : Type 0 where
  pub hset-items :
      (i : Field × Value) (f : Field) (v : Value) (h : r.Hash)
      → In i (r.hgetall (r.hset f v h))
      → (i ≡ (f, v)) ⊎ In i (r.hgetall h)
  pub hincrbyfloat-items :
      (i : Field × Value) (f : Field) (d : ℕ) (h : r.Hash)
      → In i (r.hgetall (r.hincrbyfloat f d h))
      → ((n : ℕ) × (i ≡ (f, num n))) ⊎ In i (r.hgetall h)
  pub hdel-items :
      (i : Field × Value) (f : Field) (h : r.Hash)
      → In i (r.hgetall (r.hdel f h))
      → In i (r.hgetall h)
  pub total-hset :
      (p : Field → Bool) (f : Field) (v : Value) (h : r.Hash)
      → p f ≡ false
      → total p (r.hgetall (r.hset f v h)) ≡ total p (r.hgetall h)
  pub total-hincrbyfloat :
      (p : Field → Bool) (f : Field) (d : ℕ) (h : r.Hash)
      → ((s : String) → In (f, text s) (r.hgetall h) → ⊥)
      → total p (r.hgetall (r.hincrbyfloat f d h)) ≡ total p (r.hgetall h) + (if p f then d else 0)
  pub total-hdel :
      (p : Field → Bool) (f : Field) (h : r.Hash)
      → p f ≡ false
      → total p (r.hgetall (r.hdel f h)) ≡ total p (r.hgetall h)
  pub hgetall-expire : (n : ℕ) (h : r.Hash) → 0 < n → r.hgetall (r.expire n h) ≡ r.hgetall h
  pub exists-ttl : (id : String) (k : r.Keys) → r.exists id k ≡ ltb 0 (r.ttl id k)
  pub ttl-set : (id : String) (n : ℕ) (k : r.Keys) → r.ttl id (r.set id n k) ≡ n
  pub ttl-set_other :
      (id other : String) (n : ℕ) (k : r.Keys)
      → (id ==ₛ other) ≡ false
      → r.ttl other (r.set id n k) ≡ r.ttl other k
  pub ttl-wait : (id : String) (n : ℕ) (k : r.Keys) → r.ttl id (r.wait n k) ≡ r.ttl id k - n

-- `realtime_ttl_seconds` and `realtime_dedup_ttl_seconds`, or the arguments that replace them.
pub record Ttls : Type 0 where
  pub overlay_ttl : ℕ
  pub marker_ttl : ℕ

-- `tonumber(v or '0')`, for the fields that hold numbers
abbrev number_or_0 : Option Value → ℕ
number_or_0 (some (num n)) = n
number_or_0 (some (text _)) = 0
number_or_0 none = 0

-- `current_session == session_id`
abbrev is_session : String → Option Value → Bool
is_session id (some (text s)) = s ==ₛ id
is_session id (some (num _)) = false
is_session id none = false

abbrev pub last_event_field : Field
last_event_field = plain "rt_last_event_ts"

abbrev pub start_field : Field
start_field = plain "_rt_session_start_ts"

abbrev pub end_field : Field
end_field = plain "_rt_session_end_ts"

abbrev pub length_field : Field
length_field = plain "rt_session_len_sec"

-- `b < cutoff`, for a field with a bucket
abbrev pub is_expired : ℕ → Field → Bool
is_expired cutoff (windowed _ b) = ltb b cutoff
is_expired cutoff (plain _) = false

module _ (r : Redis) where
  -- The loop over the pairs of `_LUA_APPLY_EVENT`.
  abbrev pub incr_all : ℕ → List (String × ℕ) → r.Hash → r.Hash
  incr_all bucket [] h = h
  incr_all bucket ((f, d) ∷ pairs) h =
      incr_all bucket pairs (r.hincrbyfloat (windowed f bucket) d h)

  abbrev pub touch_last_event : ℕ → r.Hash → r.Hash
  touch_last_event ts h =
      if ltb (number_or_0 (r.hget last_event_field h)) ts
      then r.hset last_event_field (num ts) h
      else h

  abbrev pub begin_session : String → ℕ → r.Hash → r.Hash
  begin_session id ts h = r.hset length_field (num 0) (
      r.hset end_field (num ts)
        (r.hset start_field (num ts) (r.hset (plain session_id_field) (text id) h)))

  abbrev pub session_bounds : ℕ → ℕ → r.Hash → r.Hash
  session_bounds start stop h =
      r.hset length_field (num (stop - start))
        (r.hset end_field (num stop) (r.hset start_field (num start) h))

  abbrev pub extend_session : ℕ → ℕ → ℕ → r.Hash → r.Hash
  extend_session ts start stop h =
      session_bounds (if (start == 0) || ltb ts start then ts else start)
        (if ltb stop ts then ts else stop) h

  -- The part of `_LUA_APPLY_EVENT` on the session.
  abbrev pub track_session : String → ℕ → r.Hash → r.Hash
  track_session id ts h =
      let start = number_or_0 (r.hget start_field h) in
      let stop = number_or_0 (r.hget end_field h) in
      if id ==ₛ ""
      then h
      else if is_session id (r.hget (plain session_id_field) h)
      then extend_session ts start stop h
      else if ltb ts stop
      then h
      else begin_session id ts h

  abbrev pub delete_expired : ℕ → List (Field × Value) → r.Hash → r.Hash
  delete_expired cutoff [] h = h
  delete_expired cutoff ((f, _) ∷ items) h =
      delete_expired cutoff items (if is_expired cutoff f then r.hdel f h else h)

  -- The loop over HKEYS of the scripts.
  abbrev pub prune : ℕ → r.Hash → r.Hash
  prune cutoff h = delete_expired cutoff (r.hgetall h) h

  -- `_LUA_APPLY_EVENT` between the test for the marker and the two expiries
  unfoldable pub apply_event : ℕ → ℕ → ℕ → String → List (String × ℕ) → r.Hash → r.Hash
  apply_event bucket cutoff ts session pairs h =
      prune cutoff (track_session session ts (touch_last_event ts (incr_all bucket pairs h)))

  -- `apply_realtime_event`, for the overlay of the user
  unfoldable pub apply_realtime_event :
      Ttls
      → String
      → ℕ
      → List (String × ℕ)
      → String
      → ℕ
      → r.Keys × r.Hash
      → Outcome (Bool × r.Keys × r.Hash)
  unfolding rt_bucket_start rt_cutoff apply_event
  apply_realtime_event ttls id ts counters session now (keys, h) =
      if id ==ₛ ""
      then err value_error
      else if ltb (rt_bucket_start ts) (rt_cutoff now)
      then err value_error
      else if r.exists id keys
      then ok (false, keys, h)
      else ok (
        true,
        r.set id ttls.marker_ttl keys,
        r.expire ttls.overlay_ttl
            (apply_event (rt_bucket_start ts) (rt_cutoff now) ts session counters h),
      )

  -- `incr_realtime_counters`
  unfoldable pub incr_realtime_counters : Ttls → List (String × ℕ) → ℕ → r.Hash → r.Hash
  unfolding rt_bucket_start rt_cutoff
  incr_realtime_counters ttls counters now h =
      r.expire ttls.overlay_ttl (prune (rt_cutoff now) (incr_all (rt_bucket_start now) counters h))
