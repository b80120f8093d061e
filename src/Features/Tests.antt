-- ===== src/Features/Tests.antt =====
-- Tests of the feature store, and the results at concrete inputs.
use lzd.Common.{
  ℕ, ◌+◌, ◌-◌, ◌≡◌, refl, sym, ap, ◌∙◌, inl, inr, Bool, true, false, ◌&&◌, not, List, [], ◌∷◌,
  Option, none, some, String, ◌==ₛ◌, ◌==◌, ltb, if◌then◌else◌, all_of, keep_if, In, arith,
  Bool-cases, text_eq_iff,
}
use lzd.Common.Outcome.{ok}
use lzd.Common.Dict.{get}
use lzd.Common.Membership.{all_of-In}
use lzd.Features.Window.{
  Field, windowed, plain, Value, num, rt_bucket_start, rt_cutoff, aggregate_realtime, number_of,
  is_overlay_item,
}
use lzd.Features.Window.Sums.{total, in_hour, in_5m, not_plain}
use lzd.Features.Window.Read.{aggregate_realtime-total}
use lzd.Features.Overlay.{Redis, RedisLaws, Ttls, apply_realtime_event, apply_event}
use lzd.Features.Overlay.Keeps.{Fits}
use lzd.Features.Overlay.Counts.{added, IsOverlay, apply_realtime_event-counts}
use lzd.Features.Overlay.Replay.{Step, passes, arrives, keys_after, apply_realtime_event-replay}

-- A bucket of 12:00:00 on the first day, and the moment a minute later.
abbrev noon : ℕ
noon = 43_200

abbrev a_minute_later : ℕ
a_minute_later = 43_260

abbrev two_views : List (Field × Value)
two_views =
    (windowed "rt_page_view_1h" 43_200, num 2)
    ∷ (windowed "rt_page_view_1h" 3_600, num 7)
    ∷ (plain "rt_last_event_ts", num 43_201)
    ∷ []

bucket_of_noon : rt_bucket_start 43_260 ≡ 43_200
unfolding rt_bucket_start
bucket_of_noon = refl

cutoff_of_noon : rt_cutoff 43_260 ≡ 39_900
unfolding rt_cutoff
cutoff_of_noon = refl

aggregate_realtime-total_example :
    number_of (get "rt_page_view_1h" (aggregate_realtime two_views a_minute_later))
    ≡ some (
        total (in_hour a_minute_later "rt_page_view_1h") two_views
        + total (in_5m a_minute_later "rt_page_view_1h") two_views)
aggregate_realtime-total_example =
    aggregate_realtime-total two_views a_minute_later "rt_page_view_1h" refl refl

-- A hash that is kept as a log: an increment is a further entry of its field.
abbrev same_field : Field → Field → Bool
same_field (windowed n b) (windowed m c) = (n ==ₛ m) && (b == c)
same_field (plain n) (plain m) = n ==ₛ m
same_field (windowed _ _) (plain _) = false
same_field (plain _) (windowed _ _) = false

same_field-≡ : (f g : Field) → same_field f g ≡ true → f ≡ g
same_field-≡ (windowed n b) (windowed m c) h =
    let s = both (n ==ₛ m) (b == c) h in
    let e : b ≡ c = ground arith in cc ((text_eq_iff n m).0 s.0, e)
  where
    both : (x y : Bool) → (x && y) ≡ true → (x ≡ true) × (y ≡ true)
    both x y h = ground arith
same_field-≡ (plain n) (plain m) h = ap plain ((text_eq_iff n m).0 h)
same_field-≡ (windowed _ _) (plain _) h = cc
same_field-≡ (plain _) (windowed _ _) h = cc

abbrev without : Field → List (Field × Value) → List (Field × Value)
without f = keep_if (λ i. not (same_field f i.0))

total-without :
    (p : Field → Bool) (f : Field) (h : List (Field × Value))
    → p f ≡ false
    → total p (without f h) ≡ total p h
total-without p f [] e = refl
total-without p f ((g, v) ∷ h) e = elim (Bool-cases (same_field f g)) [
  | inl s ↦ rw s (total-without p f h e ∙ rw (sym (ap p (same_field-≡ f g s)) ∙ e) (omega arith))
  | inr n ↦ rw n (omega (arith, total-without p f h e))
]

In-without :
    (i : Field × Value) (f : Field) (h : List (Field × Value)) → In i (without f h) → In i h
In-without i f [] j = j
In-without i f (x ∷ h) j = elim (Bool-cases (same_field f x.0)) [
  | inl s ↦ inr (In-without i f h (rw s at j))
  | inr n ↦ elim (rw n at j) [ inl e ↦ inl e | inr k ↦ inr (In-without i f h k) ]
]

abbrev find : Field → List (Field × Value) → Option Value
find f [] = none
find f ((g, v) ∷ h) = if same_field f g then some v else find f h

-- The time that a marker has left, and the progress of the clock.
abbrev ttl_of : String → List (String × ℕ) → ℕ
ttl_of id [] = 0
ttl_of id ((k, n) ∷ keys) = if k ==ₛ id then n else ttl_of id keys

abbrev wait_all : ℕ → List (String × ℕ) → List (String × ℕ)
wait_all n [] = []
wait_all n ((k, m) ∷ keys) = (k, m - n) ∷ wait_all n keys

ttl_of-wait_all :
    (id : String) (n : ℕ) (keys : List (String × ℕ))
    → ttl_of id (wait_all n keys) ≡ ttl_of id keys - n
ttl_of-wait_all id n [] = omega arith
ttl_of-wait_all id n ((k, m) ∷ keys) = ground (arith, ttl_of-wait_all id n keys)

abbrev pub log_redis : Redis
log_redis = record {
  Hash = List (Field × Value);
  Keys = List (String × ℕ);
  hgetall = λ h. h;
  hget = find;
  hset = λ f v h. (f, v) ∷ without f h;
  hincrbyfloat = λ f d h. (f, num d) ∷ h;
  hdel = without;
  expire = λ n h. h;
  exists = λ id keys. ltb 0 (ttl_of id keys);
  set = λ id n keys. (id, n) ∷ keys;
  ttl = ttl_of;
  wait = wait_all;
}

pub log_redis_laws : RedisLaws log_redis
log_redis_laws = record {
  hset-items = λ i f v h j. elim j [ inl e ↦ inl e | inr k ↦ inr (In-without i f h k) ];
  hincrbyfloat-items = λ i f d h j. elim j [ inl e ↦ inl (d, e) | inr k ↦ inr k ];
  hdel-items = In-without;
  total-hset = λ p f v h e. rw e (omega (arith, total-without p f h e));
  total-hincrbyfloat = λ p f d h t. omega arith;
  total-hdel = total-without;
  hgetall-expire = λ n h live. refl;
  exists-ttl = λ id k. refl;
  ttl-set = λ id n k. rw ((text_eq_iff id id).1 refl) refl;
  ttl-set_other = λ id other n k e. rw e refl;
  ttl-wait = ttl_of-wait_all;
}

abbrev views : List (String × ℕ)
views = ("rt_events_1h", 1) ∷ ("rt_page_view_1h", 1) ∷ []

abbrev overlay : List (Field × Value)
overlay = (windowed "rt_page_view_1h" 43_200, num 2) ∷ (plain "rt_last_event_ts", num 43_201) ∷ []

overlay-Fits :
    (q : Field × Value → Bool) → all_of q overlay ≡ true → Fits log_redis log_redis_laws q overlay
overlay-Fits q h i j = all_of-In q i overlay h j

not_late : ltb (rt_bucket_start 43_230) (rt_cutoff 43_260) ≡ false
unfolding rt_cutoff
not_late = refl

abbrev pub ttls : Ttls
ttls = record { overlay_ttl = 7_200; marker_ttl = 86_400 }

-- An event of the running bucket is added to the two views that are there.
apply_realtime_event-counts_example :
    (h' : List (Field × Value)) × (apply_realtime_event log_redis ttls "e1" 43_230 views "s1" 43_260
        ([], overlay)
      ≡ ok (true, ("e1", 86_400) ∷ [], h'))
    × (number_of (get "rt_page_view_1h" (aggregate_realtime overlay 43_260))
        ≡ some (
            total (in_hour 43_260 "rt_page_view_1h") overlay
            + total (in_5m 43_260 "rt_page_view_1h") overlay))
    × (number_of (get "rt_page_view_1h" (aggregate_realtime h' 43_260))
        ≡ some (
            total (in_hour 43_260 "rt_page_view_1h") overlay
            + total (in_5m 43_260 "rt_page_view_1h") overlay
            + (added (in_hour 43_260 "rt_page_view_1h") (rt_bucket_start 43_230) views
                + added (in_5m 43_260 "rt_page_view_1h") (rt_bucket_start 43_230) views)))
    × IsOverlay log_redis log_redis_laws h'
apply_realtime_event-counts_example =
    apply_realtime_event-counts log_redis log_redis_laws ttls "e1" 43_230 views "s1" 43_260 []
      overlay "rt_page_view_1h" (omega arith) refl not_late refl refl
      (overlay-Fits is_overlay_item refl) (overlay-Fits (λ i. not_plain "rt_page_view_1h" i.0) refl)
      refl

abbrev after_event : List (Field × Value)
after_event =
    apply_event log_redis (rt_bucket_start 43_230) (rt_cutoff 43_260) 43_230 "s1" views overlay

applied_once :
    apply_realtime_event log_redis ttls "e1" 43_230 views "s1" 43_260 ([], overlay)
    ≡ ok (true, ("e1", 86_400) ∷ [], after_event)
unfolding apply_realtime_event
applied_once = refl

-- Another event arrives, for another user, and a minute goes by.
abbrev meanwhile : List (Step log_redis log_redis_laws)
meanwhile =
    arrives (record {
      ttls = ttls;
      id = "e2";
      ts = 43_240;
      counters = views;
      session = "";
      now = 43_260;
      overlay = [];
    })
    ∷ passes 60
    ∷ []

apply_realtime_event-replay_example :
    apply_realtime_event log_redis ttls "e1" 43_230 [] "s2" 43_260
      (keys_after log_redis log_redis_laws meanwhile (("e1", 86_400) ∷ []), [])
    ≡ ok (false, keys_after log_redis log_redis_laws meanwhile (("e1", 86_400) ∷ []), [])
apply_realtime_event-replay_example =
    apply_realtime_event-replay log_redis log_redis_laws ttls ttls "e1" 43_230 43_230 43_260 43_260
      views [] "s1" "s2" [] (("e1", 86_400) ∷ []) overlay after_event [] meanwhile applied_once
      (omega arith) not_late
