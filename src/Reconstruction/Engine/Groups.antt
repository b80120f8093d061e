-- ===== src/Reconstruction/Engine/Groups.antt =====
-- engine.py: materialising makes each event of the candidate once.
use lzd.Common.{
  ℕ, ◌+◌, ◌≡◌, refl, sym, ap, ◌∙◌, Bool, true, false, List, [], ◌∷◌, map, if◌then◌else◌, String,
  keep_if, In, All, range_from, flat_map, any_of, count_if, count_if-append, arith, inl, inr, suc,
  zero,
}
use lzd.Common.Outcome.{ok}
use lzd.Common.Membership.{all_In}
use lzd.Common.Sorting.{sort_by, count_if-sort_by}
use lzd.Reconstruction.Hashing.{Hashing}
use lzd.Reconstruction.Candidate.{Reason, is_reason, Slot, slot_le, Candidate}
use lzd.Reconstruction.Candidate.Metrics.{events_where, events_where-sort_by}
use lzd.Reconstruction.Engine.{Event, SlotId, materialize, slot_ids, ids_of, first_reasons, id_le}
use lzd.Reconstruction.Engine.Materialize.{grouped, slot_id, events_by_reason_facts}

-- How often a reason stands in a list of reasons.
abbrev times : Reason → List Reason → ℕ
times r = count_if (λ q. is_reason q r)

times_others :
    (q r : Reason) (rs : List Reason)
    → times r (keep_if (λ x. if is_reason q x then false else true) rs)
      ≡ (if is_reason q r then 0 else times r rs)
times_others q r [] = ground arith
times_others q r (x ∷ rs) = ground (arith, times_others q r rs)

times-first_reasons :
    (r : Reason) (ids : List SlotId)
    → times r (first_reasons ids) ≡ (if any_of (λ s. is_reason s.0 r) ids then 1 else 0)
times-first_reasons r [] = refl
times-first_reasons r ((q, d, i) ∷ ids) =
    ground (arith, times-first_reasons r ids, times_others q r (first_reasons ids))

any_of-In : (s : SlotId) (ids : List SlotId) → In s ids → any_of (λ t. is_reason t.0 s.0) ids ≡ true
any_of-In s [] i = elim i [ ]
any_of-In s (t ∷ ids) (inl e) = rw e (ground arith)
any_of-In s (t ∷ ids) (inr i) = ground (arith, any_of-In s ids i)

module _ (p : SlotId → Bool) where
  -- The members that pass, group by group.
  abbrev weigh : List SlotId → List Reason → ℕ
  weigh ids [] = 0
  weigh ids (r ∷ rs) = count_if p (ids_of r ids) + weigh ids rs

  count_if-grouped :
      (ids : List SlotId) (rs : List Reason) → count_if p (grouped ids rs) ≡ weigh ids rs
  count_if-grouped ids [] = refl
  count_if-grouped ids (r ∷ rs) = omega (
    arith,
    count_if-append p (sort_by id_le (ids_of r ids)) (grouped ids rs),
    count_if-sort_by id_le p (ids_of r ids),
    count_if-grouped ids rs,
  )

  weigh-nil : (rs : List Reason) → weigh [] rs ≡ 0
  weigh-nil [] = refl
  weigh-nil (r ∷ rs) = omega (arith, weigh-nil rs)

  weigh-cons :
      (s : SlotId) (ids : List SlotId) (rs : List Reason)
      → weigh (s ∷ ids) rs ≡ weigh ids rs + (if p s then times s.0 rs else 0)
  weigh-cons s ids [] = ground arith
  weigh-cons s ids (r ∷ rs) = ground (arith, weigh-cons s ids rs)

  weigh-all :
      (ids : List SlotId) (rs : List Reason)
      → All (λ s. times s.0 rs ≡ 1) ids
      → weigh ids rs ≡ count_if p ids
  weigh-all [] rs h = weigh-nil rs
  weigh-all (s ∷ ids) rs h = ground (arith, weigh-cons s ids rs, weigh-all ids rs h.1)

  -- Grouping by reason and sorting each group loses no identifier and repeats none.
  pub count_if-regrouped :
      (ids : List SlotId) → count_if p (grouped ids (first_reasons ids)) ≡ count_if p ids
  count_if-regrouped ids =
      count_if-grouped ids (first_reasons ids)
      ∙ weigh-all ids (first_reasons ids) (
          all_In (λ s. times s.0 (first_reasons ids) ≡ 1) ids
            (λ s i. times-first_reasons s.0 ids ∙ rw (any_of-In s ids i)))

abbrev on_slot : (Reason → ℕ → Bool) → SlotId → Bool
on_slot p (r, d, i) = p r d

module _ (p : Reason → ℕ → Bool) where
  count_if-expanded :
      (r : Reason) (d k n : ℕ)
      → count_if (on_slot p) (map (λ i. (r, d, i)) (range_from k n)) ≡ (if p r d then n else 0)
  count_if-expanded r d k zero = ground arith
  count_if-expanded r d k (suc n) = ground (arith, count_if-expanded r d (k + 1) n)

  count_if-slots :
      (ss : List Slot)
      → count_if
          (on_slot p)
          (flat_map (λ s. map (λ i. (s.gen_reason, s.day_offset, i)) (range_from 0 s.count)) ss)
        ≡ events_where p ss
  count_if-slots [] = refl
  count_if-slots (s ∷ ss) =
      count_if-append (on_slot p)
        (map (λ i. (s.gen_reason, s.day_offset, i)) (range_from 0 s.count))
        (flat_map (λ s. map (λ i. (s.gen_reason, s.day_offset, i)) (range_from 0 s.count)) ss)
      ∙ ground (arith, count_if-expanded s.gen_reason s.day_offset 0 s.count, count_if-slots ss)

  count_if-map :
      (es : List Event)
      → count_if (on_slot p) (map slot_id es) ≡ count_if (λ e. p e.gen_reason e.day_offset) es
  count_if-map [] = refl
  count_if-map (e ∷ es) = omega (arith, count_if-map es)

  -- Under any test of reason and day, materialising gives as many events as the candidate's slots
  -- hold.
  pub count_if-materialize :
      (h : Hashing) (seed reference_ts : ℕ) (target_id track : String) (c : Candidate)
      (es : List Event)
      → materialize h seed reference_ts target_id track c ≡ ok es
      → count_if (λ e. p e.gen_reason e.day_offset) es ≡ events_where p c.slots
  unfolding materialize slot_ids
  count_if-materialize h seed reference_ts target_id track c es e =
      let ids = slot_ids c in
      let facts =
        events_by_reason_facts h seed reference_ts target_id track ids (first_reasons ids) es e in
      sym (count_if-map es)
      ∙ ap (count_if (on_slot p)) facts.0
      ∙ count_if-regrouped (on_slot p) ids
      ∙ count_if-slots (sort_by slot_le c.slots)
      ∙ events_where-sort_by p c.slots
