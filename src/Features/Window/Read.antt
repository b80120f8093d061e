-- ===== src/Features/Window/Read.antt =====
-- online_store.py: `aggregate_realtime` reads the sums of the last hour and of the last five minutes.
use lzd.Common.{
  ℕ, ◌+◌, ◌≡◌, refl, ap, ◌∙◌, Bool, true, false, ◌&&◌, not, List, [], ◌∷◌, some, String, ◌==ₛ◌,
  if◌then◌else◌, arith, text_eq_iff, Bool-cases, all_of, inl, inr,
}
use lzd.Common.Dict.{Dict, get, set, get-set}
use lzd.Features.Window.{
  Field, windowed, plain, Value, num, text, number_of, add_item, aggregate, aggregate_realtime,
  session_id_field, is_overlay_item,
}
use lzd.Features.Window.Sums.{
  amount, total, in_hour, in_5m, in_hour-plain, in_5m-plain, not_plain, number_of-add_bucket,
}

-- `float` reads every value but the session's id.
abbrev Readable : Dict Value → Type 0
Readable out =
    (x : String) → (x ==ₛ session_id_field) ≡ false → (n : ℕ) × (number_of (get x out) ≡ some n)

Readable-set_num :
    (f : String) (m : ℕ) (out : Dict Value) → Readable out → Readable (set f (num m) out)
Readable-set_num f m out r x d = elim (Bool-cases (f ==ₛ x)) [
  | inl s ↦ (m, rw (get-set f x (num m) out, s) refl)
  | inr n ↦ rw (get-set f x (num m) out, n) (r x d)
]

Readable-set_session :
    (f s : String) (out : Dict Value)
    → (f ==ₛ session_id_field) ≡ true
    → Readable out
    → Readable (set f (text s) out)
Readable-set_session f s out e r x d = elim (Bool-cases (f ==ₛ x)) [
  | inl q ↦ absurd (cc (ap (λ (y : String). y ==ₛ session_id_field) ((text_eq_iff f x).0 q), e, d))
  | inr n ↦ rw (get-set f x (text s) out, n) (r x d)
]

not-true : (b : Bool) → not b ≡ true → b ≡ false
not-true b h = ground arith

Readable-add_item :
    (now : ℕ) (i : Field × Value) (out : Dict Value)
    → is_overlay_item i ≡ true
    → Readable out
    → Readable (add_item now i out)
Readable-add_item now (plain f, num m) out h r = Readable-set_num f m out r
Readable-add_item now (plain f, text s) out h r = Readable-set_session f s out h r
Readable-add_item now (windowed name b, text s) out h r = absurd (cc h)
Readable-add_item now (windowed name b, num v) out h r = λ x d.
    let (k, e) = r name (not-true (name ==ₛ session_id_field) h) in
    let (n, g) = r x d in (_, number_of-add_bucket now x name b (num v) out n k e g)

-- One item adds to the sum of a name what it counts for it.
number_of-add_item :
    (now : ℕ) (j : String) (i : Field × Value) (out : Dict Value) (n : ℕ)
    → is_overlay_item i ≡ true
    → not_plain j i.0 ≡ true
    → Readable out
    → number_of (get j out) ≡ some n
    → number_of (get j (add_item now i out))
      ≡ some (
          n
          + (if in_hour now j i.0 then amount i.1 else 0)
          + (if in_5m now j i.0 then amount i.1 else 0))
number_of-add_item now j (plain f, v) out n h p r e =
    ap number_of (get-set f j v out ∙ rw (not-true (f ==ₛ j) p) refl)
    ∙ e
    ∙ ap some (rw (in_hour-plain now j f, in_5m-plain now j f) (omega arith))
number_of-add_item now j (windowed name b, text s) out n h p r e = absurd (cc h)
number_of-add_item now j (windowed name b, num v) out n h p r e =
    let (k, q) = r name (not-true (name ==ₛ session_id_field) h) in
    number_of-add_bucket now j name b (num v) out n k q e

and_true : (a b : Bool) → (a && b) ≡ true → (a ≡ true) × (b ≡ true)
and_true a b h = ground arith

number_of-aggregate :
    (now : ℕ) (j : String) (items : List (Field × Value)) (out : Dict Value) (n : ℕ)
    → all_of is_overlay_item items ≡ true
    → all_of (λ i. not_plain j i.0) items ≡ true
    → Readable out
    → number_of (get j out) ≡ some n
    → number_of (get j (aggregate now items out))
      ≡ some (n + total (in_hour now j) items + total (in_5m now j) items)
unfolding aggregate
number_of-aggregate now j [] out n h p r e = e ∙ ap some (omega arith)
number_of-aggregate now j (i ∷ items) out n h p r e =
    let (h0, h1) = and_true (is_overlay_item i) (all_of is_overlay_item items) h in
    let (p0, p1) = and_true (not_plain j i.0) (all_of (λ i. not_plain j i.0) items) p in
    number_of-aggregate now j items (add_item now i out)
      (n
        + (if in_hour now j i.0 then amount i.1 else 0)
        + (if in_5m now j i.0 then amount i.1 else 0))
      h1 p1 (Readable-add_item now i out h0 r) (number_of-add_item now j i out n h0 p0 r e)
    ∙ ap some (omega arith)

-- In an overlay where texts stand under the session's id alone, a name that is no field by itself
-- reads as the sum of its buckets of the last hour, and of the buckets of the moment of the
-- counter whose five minutes it names.
pub aggregate_realtime-total :
    (items : List (Field × Value)) (now : ℕ) (j : String)
    → all_of is_overlay_item items ≡ true
    → all_of (λ i. not_plain j i.0) items ≡ true
    → number_of (get j (aggregate_realtime items now))
      ≡ some (total (in_hour now j) items + total (in_5m now j) items)
unfolding aggregate_realtime
aggregate_realtime-total items now j h p =
    number_of-aggregate now j items [] 0 h p (λ x d. (0, refl)) refl ∙ ap some (omega arith)
