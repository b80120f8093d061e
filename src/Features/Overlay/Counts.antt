-- ===== src/Features/Overlay/Counts.antt =====
-- online_store.py: an event counts for what it says.
use lzd.Common.{
  ℕ, ◌+◌, ◌<◌, ◌≡◌, refl, ap, ◌∙◌, inl, inr, Bool, true, false, ◌||◌, not, List, [], ◌∷◌, some,
  String, ◌==ₛ◌, ltb, if◌then◌else◌, In, all_of, arith, Bool-cases,
}
use mathlib.Core.Path.{subst}
use lzd.Common.Outcome.{ok}
use lzd.Common.Dict.{get}
use lzd.Common.Membership.{In-all_of}
use lzd.Features.Window.{
  Field, windowed, plain, Value, text, is_overlay_item, session_id_field, rt_bucket_start,
  rt_cutoff, number_of, aggregate_realtime,
}
use lzd.Features.Window.Sums.{
  total, in_hour, in_5m, in_hour-plain, in_5m-plain, in_hour-old, in_5m-old, not_plain,
}
use lzd.Features.Window.Read.{aggregate_realtime-total}
use lzd.Features.Overlay.{
  Redis, RedisLaws, Ttls, incr_all, touch_last_event, track_session, delete_expired, prune,
  apply_event, is_expired, apply_realtime_event,
}
use lzd.Features.Overlay.Keeps.{Passes, Fits, Counted, Fits-incr_all, Fits-apply_event}

-- What the counters of an event add under a test.
abbrev pub added : (Field → Bool) → ℕ → List (String × ℕ) → ℕ
added p bucket [] = 0
added p bucket ((f, d) ∷ pairs) = (if p (windowed f bucket) then d else 0) + added p bucket pairs

module _ (r : Redis) (laws : RedisLaws r) where
  -- Texts stand under the session's id alone.
  abbrev pub IsOverlay : r.Hash → Type 0
  IsOverlay h = Fits r laws is_overlay_item h

  no_text :
      (f : String) (b : ℕ) (h : r.Hash)
      → IsOverlay h
      → (s : String) → In (windowed f b, text s) (r.hgetall h)
      → ⊥
  no_text f b h o s i = cc (o (windowed f b, text s) i)

  module _ (p : Field → Bool) (plain_out : (f : String) → p (plain f) ≡ false) where
    -- The two hashes have the same sum.
    abbrev Same : r.Hash → r.Hash → Type 0
    Same g h = total p (r.hgetall h) ≡ total p (r.hgetall g)

    Same-if : (b : Bool) (g h i : r.Hash) → Same g h → Same g i → Same g (if b then h else i)
    Same-if true g h i k l = k
    Same-if false g h i k l = l

    Same-hset : (f : String) (v : Value) (g h : r.Hash) → Same g h → Same g (r.hset (plain f) v h)
    Same-hset f v g h k = laws.total-hset p (plain f) v h (plain_out f) ∙ k

    Same-track_session : (id : String) (ts : ℕ) (h : r.Hash) → Same h (track_session r id ts h)
    Same-track_session id ts h = Same-if _ _ _ _ refl (
        Same-if _ _ _ _ (Same-hset _ _ _ _ (Same-hset _ _ _ _ (Same-hset _ _ _ _ refl))) (
          Same-if _ _ _ _ refl
            (Same-hset _ _ _ _ (Same-hset _ _ _ _ (Same-hset _ _ _ _ (Same-hset _ _ _ _ refl))))))

    Same-touch_last_event : (ts : ℕ) (h : r.Hash) → Same h (touch_last_event r ts h)
    Same-touch_last_event ts h = Same-if _ _ _ _ (Same-hset _ _ _ _ refl) refl

    Same-delete_expired :
        (cutoff : ℕ) (items : List (Field × Value)) (h : r.Hash)
        → ((f : Field) → is_expired cutoff f ≡ true → p f ≡ false)
        → Same h (delete_expired r cutoff items h)
    Same-delete_expired cutoff [] h out = refl
    Same-delete_expired cutoff ((f, v) ∷ items) h out = elim (Bool-cases (is_expired cutoff f)) [
      | inl e ↦
          rw e (Same-delete_expired cutoff items (r.hdel f h) out ∙ laws.total-hdel p f h (out f e))
      | inr e ↦ rw e (Same-delete_expired cutoff items h out)
    ]

    Same-prune :
        (cutoff : ℕ) (h : r.Hash)
        → ((f : Field) → is_expired cutoff f ≡ true → p f ≡ false)
        → Same h (prune r cutoff h)
    Same-prune cutoff h out = Same-delete_expired cutoff (r.hgetall h) h out

    total-incr_all :
        (bucket : ℕ) (pairs : List (String × ℕ)) (h : r.Hash)
        → Counted r laws is_overlay_item bucket pairs
        → IsOverlay h
        → total p (r.hgetall (incr_all r bucket pairs h))
          ≡ total p (r.hgetall h) + added p bucket pairs
    total-incr_all bucket [] h c o = omega arith
    total-incr_all bucket ((f, d) ∷ pairs) h c o =
        total-incr_all bucket pairs (r.hincrbyfloat (windowed f bucket) d h) c.1
          (Fits-incr_all r laws is_overlay_item bucket ((f, d) ∷ []) h (c.0, tt) o)
        ∙ omega (arith, laws.total-hincrbyfloat p (windowed f bucket) d h (no_text f bucket h o))

    total-apply_event :
        (bucket cutoff ts : ℕ) (session : String) (pairs : List (String × ℕ)) (h : r.Hash)
        → ((f : Field) → is_expired cutoff f ≡ true → p f ≡ false)
        → Counted r laws is_overlay_item bucket pairs
        → IsOverlay h
        → total p (r.hgetall (apply_event r bucket cutoff ts session pairs h))
          ≡ total p (r.hgetall h) + added p bucket pairs
    unfolding apply_event
    total-apply_event bucket cutoff ts session pairs h out c o =
        Same-prune cutoff _ out
        ∙ Same-track_session session ts _
        ∙ Same-touch_last_event ts _
        ∙ total-incr_all bucket pairs h c o

  old_out_of_hour :
      (now : ℕ) (j : String) (f : Field)
      → is_expired (rt_cutoff now) f ≡ true
      → in_hour now j f ≡ false
  old_out_of_hour now j (plain f) e = absurd (cc e)
  old_out_of_hour now j (windowed f b) e = in_hour-old now j f b e

  old_out_of_5m :
      (now : ℕ) (j : String) (f : Field)
      → is_expired (rt_cutoff now) f ≡ true
      → in_5m now j f ≡ false
  old_out_of_5m now j (plain f) e = absurd (cc e)
  old_out_of_5m now j (windowed f b) e = in_5m-old now j f b e

  overlay_Passes : Passes is_overlay_item
  overlay_Passes = record {
    last = λ n. refl;
    start = λ n. refl;
    stop = λ n. refl;
    length = λ n. refl;
    session = λ s. refl;
  }

  Counted-all :
      (bucket : ℕ) (pairs : List (String × ℕ))
      → all_of (λ c. not (c.0 ==ₛ session_id_field)) pairs ≡ true
      → Counted r laws is_overlay_item bucket pairs
  Counted-all bucket [] h = tt
  Counted-all bucket ((f, d) ∷ pairs) h =
      (λ n. ground arith, Counted-all bucket pairs (ground arith))

  Counted-not_plain :
      (j : String) (bucket : ℕ) (pairs : List (String × ℕ))
      → Counted r laws (λ i. not_plain j i.0) bucket pairs
  Counted-not_plain j bucket [] = tt
  Counted-not_plain j bucket ((f, d) ∷ pairs) = (λ n. refl, Counted-not_plain j bucket pairs)

  -- The name is none of the fields that the script writes beside the counters.
  abbrev pub is_script_field : String → Bool
  is_script_field j =
      ("rt_last_event_ts" ==ₛ j)
      || (("_rt_session_start_ts" ==ₛ j)
          || (("_rt_session_end_ts" ==ₛ j)
              || (("rt_session_len_sec" ==ₛ j) || (session_id_field ==ₛ j))))

  not_plain-Passes : (j : String) → is_script_field j ≡ false → Passes (λ i. not_plain j i.0)
  not_plain-Passes j h = record {
    last = λ n. ground arith;
    start = λ n. ground arith;
    stop = λ n. ground arith;
    length = λ n. ground arith;
    session = λ s. ground arith;
  }

  -- A new event of the active window is applied: what a name reads as, at the moment of the
  -- event's arrival, grows by the counters of the event that the hour and the five minutes count,
  -- and by nothing else; pruning takes nothing away, and the overlay keeps its form. The overlay
  -- has the form that the writers give it and gets a positive time to live, and the name is one of
  -- a counter.
  pub apply_realtime_event-counts :
      (ttls : Ttls) (id : String) (ts : ℕ) (counters : List (String × ℕ)) (session : String)
      (now : ℕ) (keys : r.Keys) (h : r.Hash) (j : String)
      → 0 < ttls.overlay_ttl
      → (id ==ₛ "") ≡ false
      → ltb (rt_bucket_start ts) (rt_cutoff now) ≡ false
      → r.exists id keys ≡ false
      → all_of (λ c. not (c.0 ==ₛ session_id_field)) counters ≡ true
      → IsOverlay h
      → Fits r laws (λ i. not_plain j i.0) h
      → is_script_field j ≡ false
      → (h' : r.Hash) × (apply_realtime_event r ttls id ts counters session now (keys, h)
          ≡ ok (true, r.set id ttls.marker_ttl keys, h'))
        × (number_of (get j (aggregate_realtime (r.hgetall h) now))
            ≡ some (total (in_hour now j) (r.hgetall h) + total (in_5m now j) (r.hgetall h)))
        × (number_of (get j (aggregate_realtime (r.hgetall h') now))
            ≡ some (
                total (in_hour now j) (r.hgetall h)
                + total (in_5m now j) (r.hgetall h)
                + (added (in_hour now j) (rt_bucket_start ts) counters
                    + added (in_5m now j) (rt_bucket_start ts) counters)))
        × IsOverlay h'
  unfolding apply_realtime_event
  apply_realtime_event-counts ttls id ts counters session now keys h j live a w x c o n s =
      let bucket = rt_bucket_start ts in
      let counted = Counted-all bucket counters c in
      let g = apply_event r bucket (rt_cutoff now) ts session counters h in
      let h' = r.expire ttls.overlay_ttl g in
      let same = laws.hgetall-expire ttls.overlay_ttl g live in
      let form =
        Fits-apply_event r laws is_overlay_item overlay_Passes bucket (rt_cutoff now) ts session
          counters h counted o in
      (
        h',
        rw (a, w, x) refl,
        aggregate_realtime-total (r.hgetall h) now j (In-all_of is_overlay_item (r.hgetall h) o)
            (In-all_of (λ i. not_plain j i.0) (r.hgetall h) n),
        ap (λ items. number_of (get j (aggregate_realtime items now))) same
            ∙ aggregate_realtime-total (r.hgetall g) now j
                (In-all_of is_overlay_item (r.hgetall g) form)
                (In-all_of (λ i. not_plain j i.0) (r.hgetall g)
                  (Fits-apply_event r laws (λ i. not_plain j i.0) (not_plain-Passes j s) bucket
                    (rt_cutoff now) ts session counters h (Counted-not_plain j bucket counters) n))
            ∙ ap some (
                omega (
                  arith,
                  total-apply_event (in_hour now j) (in_hour-plain now j) bucket (rt_cutoff now) ts
                      session counters h (old_out_of_hour now j) counted o,
                  total-apply_event (in_5m now j) (in_5m-plain now j) bucket (rt_cutoff now) ts
                      session counters h (old_out_of_5m now j) counted o,
                )),
        λ i k. form i (subst (λ items. In i items) same k),
      )
