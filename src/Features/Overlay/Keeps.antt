-- ===== src/Features/Overlay/Keeps.antt =====
-- online_store.py: what an event writes to the overlay keeps its form.
use lzd.Common.{
  ℕ, ◌≡◌, sym, inl, inr, Bool, true, false, List, [], ◌∷◌, String, if◌then◌else◌, In, Bool-cases,
}
use mathlib.Core.Path.{subst}
use lzd.Features.Window.{Field, windowed, plain, Value, num, text, session_id_field}
use lzd.Features.Overlay.{
  Redis, RedisLaws, incr_all, touch_last_event, begin_session, session_bounds, track_session,
  delete_expired, prune, apply_event, is_expired, last_event_field, start_field, end_field,
  length_field,
}

-- A test that passes whatever an event writes, but for the names of its counters.
pub record Passes (q : Field × Value → Bool) : Type 0 where
  pub last : (n : ℕ) → q (last_event_field, num n) ≡ true
  pub start : (n : ℕ) → q (start_field, num n) ≡ true
  pub stop : (n : ℕ) → q (end_field, num n) ≡ true
  pub length : (n : ℕ) → q (length_field, num n) ≡ true
  pub session : (s : String) → q (plain session_id_field, text s) ≡ true

module _ (r : Redis) (laws : RedisLaws r) (q : Field × Value → Bool) where
  -- Every field of the hash passes the test.
  abbrev pub Fits : r.Hash → Type 0
  Fits h = (i : Field × Value) → In i (r.hgetall h) → q i ≡ true

  Fits-hset : (f : Field) (v : Value) (h : r.Hash) → q (f, v) ≡ true → Fits h → Fits (r.hset f v h)
  Fits-hset f v h e k i j = elim (laws.hset-items i f v h j) [
    | inl s ↦ subst (λ x. q x ≡ true) (sym s) e
    | inr m ↦ k i m
  ]

  Fits-hincrbyfloat :
      (f : Field) (d : ℕ) (h : r.Hash)
      → ((n : ℕ) → q (f, num n) ≡ true)
      → Fits h
      → Fits (r.hincrbyfloat f d h)
  Fits-hincrbyfloat f d h e k i j = elim (laws.hincrbyfloat-items i f d h j) [
    | inl (n, s) ↦ subst (λ x. q x ≡ true) (sym s) (e n)
    | inr m ↦ k i m
  ]

  Fits-if : (b : Bool) (g h : r.Hash) → Fits g → Fits h → Fits (if b then g else h)
  Fits-if true g h k l = k
  Fits-if false g h k l = l

  Fits-delete_expired :
      (cutoff : ℕ) (items : List (Field × Value)) (h : r.Hash)
      → Fits h
      → Fits (delete_expired r cutoff items h)
  Fits-delete_expired cutoff [] h k = k
  Fits-delete_expired cutoff ((f, v) ∷ items) h k = elim (Bool-cases (is_expired cutoff f)) [
    | inl e ↦
        rw e (Fits-delete_expired cutoff items (r.hdel f h) (λ i j. k i (laws.hdel-items i f h j)))
    | inr e ↦ rw e (Fits-delete_expired cutoff items h k)
  ]

  Fits-prune : (cutoff : ℕ) (h : r.Hash) → Fits h → Fits (prune r cutoff h)
  Fits-prune cutoff h k = Fits-delete_expired cutoff (r.hgetall h) h k

  -- Every counter may be written.
  abbrev pub Counted : ℕ → List (String × ℕ) → Type 0
  Counted bucket [] = Unit
  Counted bucket ((f, _) ∷ pairs) =
      ((n : ℕ) → q (windowed f bucket, num n) ≡ true) × Counted bucket pairs

  pub Fits-incr_all :
      (bucket : ℕ) (pairs : List (String × ℕ)) (h : r.Hash)
      → Counted bucket pairs
      → Fits h
      → Fits (incr_all r bucket pairs h)
  Fits-incr_all bucket [] h c k = k
  Fits-incr_all bucket ((f, d) ∷ pairs) h c k =
      Fits-incr_all bucket pairs (r.hincrbyfloat (windowed f bucket) d h) c.1
        (Fits-hincrbyfloat (windowed f bucket) d h c.0 k)

  module _ (p : Passes q) where
    Fits-touch_last_event : (ts : ℕ) (h : r.Hash) → Fits h → Fits (touch_last_event r ts h)
    Fits-touch_last_event ts h k =
        Fits-if _ (r.hset last_event_field (num ts) h) h (Fits-hset _ _ _ (p.last ts) k) k

    Fits-session_bounds : (a b : ℕ) (h : r.Hash) → Fits h → Fits (session_bounds r a b h)
    Fits-session_bounds a b h k =
        Fits-hset _ _ _ (p.length _) (Fits-hset _ _ _ (p.stop _) (Fits-hset _ _ _ (p.start _) k))

    Fits-begin_session :
        (id : String) (ts : ℕ) (h : r.Hash) → Fits h → Fits (begin_session r id ts h)
    Fits-begin_session id ts h k =
        Fits-hset _ _ _ (p.length _) (
          Fits-hset _ _ _ (p.stop _)
            (Fits-hset _ _ _ (p.start _) (Fits-hset _ _ _ (p.session _) k)))

    Fits-track_session :
        (id : String) (ts : ℕ) (h : r.Hash) → Fits h → Fits (track_session r id ts h)
    Fits-track_session id ts h k = Fits-if _ _ _ k (
        Fits-if _ _ _ (Fits-session_bounds _ _ h k)
          (Fits-if _ _ _ k (Fits-begin_session id ts h k)))

    pub Fits-apply_event :
        (bucket cutoff ts : ℕ) (session : String) (pairs : List (String × ℕ)) (h : r.Hash)
        → Counted bucket pairs
        → Fits h
        → Fits (apply_event r bucket cutoff ts session pairs h)
    unfolding apply_event
    Fits-apply_event bucket cutoff ts session pairs h c k = Fits-prune cutoff _ (
        Fits-track_session session ts _
          (Fits-touch_last_event ts _ (Fits-incr_all bucket pairs h c k)))
