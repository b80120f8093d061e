-- ===== src/Reconstruction/Engine/Materialize.antt =====
-- engine.py: what the materialised events are, and that they lie before the reference.
use lzd.Common.{
  ℕ, ◌+◌, ◌-◌, ◌*◌, ◌/◌, ◌%◌, ◌≤◌, ◌<◌, ◌≡◌, refl, ◌∙◌, List, [], ◌∷◌, ◌++◌, map, String, length,
  All, All-append, range_from, arith, inl, inr,
}
use lzd.Common.Outcome.{ok, >>=-eq-ok, Outcome-cases, ok-injective}
use lzd.Common.Sorting.{sort_by}
use mathlib.Core.List.{map-append}
use native.Mathlib.Nat.{mod-lt}
use lzd.Reconstruction.Hashing.{number, reason, Hashing, from_bytes}
use lzd.Reconstruction.Candidate.{Reason}
use lzd.Reconstruction.Engine.{
  Event, SlotId, day, second, intra_day_ts, new_event, number_events, events_by_reason, ids_of,
  event_type_of, id_le,
}

pick_second_lt : (n upper : ℕ) → 0 < upper → n % upper * second ≤ upper * second - second
pick_second_lt n upper h = omega (arith, mod-lt n h)

abbrev pub slot_id : Event → SlotId
slot_id e = (e.gen_reason, e.day_offset, e.sub_index)

-- The groups of identifiers in the order in which the events are made.
abbrev pub grouped : List SlotId → List Reason → List SlotId
grouped ids [] = []
grouped ids (r ∷ rs) = sort_by id_le (ids_of r ids) ++ grouped ids rs

module _ (h : Hashing) (seed reference_ts : ℕ) where
  -- The time of an event lies strictly before the reference, also on the day of the reference
  -- itself, whatever the digest.
  pub intra_day_ts-lt :
      (r : Reason) (day_offset sub_index ts : ℕ)
      → intra_day_ts h seed reference_ts r day_offset sub_index ≡ ok ts
      → ts < reference_ts
  unfolding intra_day_ts
  intra_day_ts-lt r day_offset sub_index ts e =
      let digest = h.sha256 (number seed ∷ reason r ∷ number day_offset ∷ number sub_index ∷ []) in
      let n = from_bytes 4 0 digest in
      let date = reference_ts / day in
      let upper = (reference_ts - (date - day_offset) * day) / second in
      ground (arith, pick_second_lt n 86_400, pick_second_lt n upper)

  -- An event of a day not before the calendar's second has a time.
  pub intra_day_ts-total :
      (r : Reason) (day_offset sub_index : ℕ)
      → day_offset < reference_ts / day
      → (ts : ℕ) × (intra_day_ts h seed reference_ts r day_offset sub_index ≡ ok ts)
  unfolding intra_day_ts
  intra_day_ts-total r day_offset sub_index p =
      elim (Outcome-cases (intra_day_ts h seed reference_ts r day_offset sub_index)) [
        | inl found ↦ found
        | inr (e, q) ↦ absurd (ground arith)
      ]

  module _ (target_id track : String) where
    pub new_event_facts :
        (r : Reason) (occ : ℕ) (s : SlotId) (e : Event)
        → new_event h seed reference_ts target_id track r occ s ≡ ok e
        → (slot_id e ≡ s)
          × (e.event_ts < reference_ts)
          × (e.event_type ≡ event_type_of e.gen_reason)
          × (e.occurrence ≡ occ)
    unfolding new_event
    new_event_facts r occ (q, d, i) e p =
        let (ts, f, g) = >>=-eq-ok (intra_day_ts h seed reference_ts q d i) _ p in
        let lt = intra_day_ts-lt q d i ts f in
        let same = ok-injective _ e g in (cc (same), rw (← same) lt, rw (← same), cc (same))

    pub number_events_facts :
        (r : Reason) (occ : ℕ) (ss : List SlotId) (es : List Event)
        → number_events h seed reference_ts target_id track r occ ss ≡ ok es
        → (map slot_id es ≡ ss)
          × All (λ e. e.event_ts < reference_ts) es
          × (map (λ e. e.occurrence) es ≡ range_from occ (length ss))
    unfolding number_events
    number_events_facts r occ [] es p = rw (← ok-injective [] es p) (refl, tt, refl)
    number_events_facts r occ (s ∷ ss) es p =
        let (e, f, g) = >>=-eq-ok (new_event h seed reference_ts target_id track r occ s) _ p in
        let (fs, k, l) =
          >>=-eq-ok (number_events h seed reference_ts target_id track r (occ + 1) ss) _ g in
        let head = new_event_facts r occ s e f in
        let rest = number_events_facts r (occ + 1) ss fs k in
        rw (← ok-injective _ es l) ((cc (head.0, rest.0), (head.1, rest.1), cc (head.3, rest.2)))

    pub events_by_reason_facts :
        (ids : List SlotId) (rs : List Reason) (es : List Event)
        → events_by_reason h seed reference_ts target_id track ids rs ≡ ok es
        → (map slot_id es ≡ grouped ids rs) × All (λ e. e.event_ts < reference_ts) es
    unfolding events_by_reason
    events_by_reason_facts ids [] es p = rw (← ok-injective [] es p) (refl, tt)
    events_by_reason_facts ids (r ∷ rs) es p =
        let group = sort_by id_le (ids_of r ids) in
        let (fs, f, g) =
          >>=-eq-ok (number_events h seed reference_ts target_id track r 0 group) _ p in
        let (gs, k, l) =
          >>=-eq-ok (events_by_reason h seed reference_ts target_id track ids rs) _ g in
        let first = number_events_facts r 0 group fs f in
        let rest = events_by_reason_facts ids rs gs k in
        rw (← ok-injective _ es l) (
          map-append slot_id fs gs ∙ cc (first.0, rest.0),
          All-append (λ e. e.event_ts < reference_ts) fs gs first.1 rest.1,
        )
