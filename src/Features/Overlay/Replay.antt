-- ===== src/Features/Overlay/Replay.antt =====
-- online_store.py: an event counts once, as long as its marker lives.
use lzd.Common.{
  ℕ, ◌+◌, ◌<◌, ◌≡◌, refl, sym, ap, ◌∙◌, inl, inr, Bool, true, false, List, [], ◌∷◌, String, ◌==ₛ◌,
  ltb, arith, Bool-cases, text_eq_iff,
}
use lzd.Common.Outcome.{Outcome, ok, err, value_error}
use lzd.Features.Window.{rt_bucket_start, rt_cutoff}
use lzd.Features.Overlay.{Redis, RedisLaws, Ttls, apply_realtime_event}

module _ (r : Redis) (laws : RedisLaws r) where
  -- A call of `apply_realtime_event`, on the overlay of any user.
  pub record Call : Type 0 where
    pub ttls : Ttls
    pub id : String
    pub ts : ℕ
    pub counters : List (String × ℕ)
    pub session : String
    pub now : ℕ
    pub overlay : r.Hash

  -- What happens between two calls: time goes by, or an event arrives.
  pub data Step : Type 0 where
    passes : ℕ → Step
    arrives : Call → Step

  abbrev pub keys_of : Outcome (Bool × r.Keys × r.Hash) → r.Keys → r.Keys
  keys_of (ok (_, keys, _)) old = keys
  keys_of (err _) old = old

  unfoldable pub keys_after : List Step → r.Keys → r.Keys
  unfolding apply_realtime_event
  keys_after [] keys = keys
  keys_after (passes n ∷ steps) keys = keys_after steps (r.wait n keys)
  keys_after (arrives c ∷ steps) keys = keys_after steps (
      keys_of (apply_realtime_event r c.ttls c.id c.ts c.counters c.session c.now (keys, c.overlay))
        keys)

  abbrev pub waited : List Step → ℕ
  waited [] = 0
  waited (passes n ∷ steps) = n + waited steps
  waited (arrives _ ∷ steps) = waited steps

  -- An event leaves a marker that lives as it is: one that is there is not written again.
  ttl-arrives :
      (c : Call) (id : String) (keys : r.Keys)
      → 0 < r.ttl id keys
      → r.ttl id (
          keys_of
            (apply_realtime_event r c.ttls c.id c.ts c.counters c.session c.now (keys, c.overlay))
            keys)
        ≡ r.ttl id keys
  unfolding apply_realtime_event
  ttl-arrives c id keys live = elim (Bool-cases (c.id ==ₛ "")) [
    | inl a ↦ rw a refl
    | inr a ↦ elim (Bool-cases (ltb (rt_bucket_start c.ts) (rt_cutoff c.now))) [
      | inl b ↦ rw (a, b) refl
      | inr b ↦ elim (Bool-cases (r.exists c.id keys)) [
        | inl x ↦ rw (a, b, x) refl
        | inr x ↦ rw (a, b, x) (laws.ttl-set_other c.id id c.ttls.marker_ttl keys (other x))
      ]
    ]
  ]
    where
      other : r.exists c.id keys ≡ false → (c.id ==ₛ id) ≡ false
      other x = elim (Bool-cases (c.id ==ₛ id)) [
        | inl e ↦
            let there =
              ap (λ i. r.exists i keys) ((text_eq_iff c.id id).0 e) ∙ laws.exists-ttl id keys in
            absurd (ground (arith, there, x, live))
        | inr e ↦ e
      ]

  marker_lives :
      (steps : List Step) (id : String) (keys : r.Keys)
      → waited steps < r.ttl id keys
      → 0 < r.ttl id (keys_after steps keys)
  unfolding keys_after
  marker_lives [] id keys h = h
  marker_lives (passes n ∷ steps) id keys h =
      marker_lives steps id (r.wait n keys) (omega (arith, laws.ttl-wait id n keys))
  marker_lives (arrives c ∷ steps) id keys h =
      let same = ttl-arrives c id keys (omega arith) in
      marker_lives steps id _ (omega (arith, same))

  abbrev result : Bool → r.Keys → r.Hash → Outcome (Bool × r.Keys × r.Hash)
  result b k h = ok (b, k, h)

  -- After an event was applied, and for as long as the time that has gone by since is less than
  -- the time to live of its marker, whatever events of whatever users arrived meanwhile: a replay
  -- of it, whatever it says and on the overlay of any user, is reported as a replay if it lies in
  -- the window, and changes nothing.
  pub apply_realtime_event-replay :
      (ttls ttls' : Ttls) (id : String) (ts ts' now now' : ℕ)
      (counters counters' : List (String × ℕ)) (session session' : String) (keys keys' : r.Keys)
      (h h' g : r.Hash) (steps : List Step)
      → apply_realtime_event r ttls id ts counters session now (keys, h) ≡ ok (true, keys', h')
      → waited steps < ttls.marker_ttl
      → ltb (rt_bucket_start ts') (rt_cutoff now') ≡ false
      → apply_realtime_event r ttls' id ts' counters' session' now' (keys_after steps keys', g)
        ≡ ok (false, keys_after steps keys', g)
  unfolding apply_realtime_event
  apply_realtime_event-replay ttls ttls' id ts ts' now now' counters counters' session session' keys
        keys' h h' g steps e early w =
      elim (Bool-cases (id ==ₛ "")) [
        | inl a ↦ absurd (raised (rw a at e))
        | inr a ↦ elim (Bool-cases (ltb (rt_bucket_start ts) (rt_cutoff now))) [
          | inl b ↦ absurd (raised (rw (a, b) at e))
          | inr b ↦ elim (Bool-cases (r.exists id keys)) [
            | inl x ↦ absurd (refused (rw (a, b, x) at e))
            | inr x ↦ rw (a, w, marked (applied (rw (a, b, x) at e))) refl
          ]
        ]
      ]
    where
      raised : err value_error ≡ result true keys' h' → ⊥
      raised q = cc q

      refused : result false keys h ≡ result true keys' h' → ⊥
      refused q = cc q

      applied :
          {f : r.Hash}
          → result true (r.set id ttls.marker_ttl keys) f ≡ result true keys' h'
          → r.set id ttls.marker_ttl keys ≡ keys'
      applied q = cc q

      marked : r.set id ttls.marker_ttl keys ≡ keys' → r.exists id (keys_after steps keys') ≡ true
      marked q =
          let full = sym (ap (r.ttl id) q) ∙ laws.ttl-set id ttls.marker_ttl keys in
          let live = marker_lives steps id keys' (omega (arith, full)) in
          laws.exists-ttl id (keys_after steps keys') ∙ ground arith
