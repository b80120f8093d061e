-- ===== src/Reconstruction/Candidate/Metrics.antt =====
-- candidate.py: what `Candidate.of` keeps.
use lzd.Common.{
  ℕ, ◌≤◌, ◌≡◌, refl, Bool, true, ◌&&◌, List, [], ◌∷◌, ◌==◌, sum_of, keep_if, arith, ◌∙◌, Bool-cases,
  inl, inr,
}
use lzd.Common.Sorting.{sort_by, insert_by}
use lzd.Reconstruction.Candidate.{
  Reason, rank, is_reason, Slot, slot_le, same_key, add_count, merge_slots, of, IsWellFormed,
}

abbrev events_at : Reason → ℕ → List Slot → ℕ
events_at r d =
    λ ss. sum_of (λ s. s.count) (keep_if (λ s. is_reason s.gen_reason r && (s.day_offset == d)) ss)

insert_by-IsWellFormed :
    (s : Slot) (ss : List Slot)
    → 1 ≤ s.count
    → IsWellFormed ss
    → IsWellFormed (insert_by slot_le s ss)
unfolding insert_by
insert_by-IsWellFormed s [] p h = (p, h)
insert_by-IsWellFormed s (t ∷ ts) p h = ground (arith, insert_by-IsWellFormed s ts p h.1)

sort_by-IsWellFormed : (ss : List Slot) → IsWellFormed ss → IsWellFormed (sort_by slot_le ss)
unfolding sort_by
sort_by-IsWellFormed [] h = h
sort_by-IsWellFormed (s ∷ ss) h =
    insert_by-IsWellFormed s (sort_by slot_le ss) h.0 (sort_by-IsWellFormed ss h.1)

add_count-IsWellFormed :
    (s : Slot) (ss : List Slot) → 1 ≤ s.count → IsWellFormed ss → IsWellFormed (add_count s ss)
unfolding add_count
add_count-IsWellFormed s [] p h = (p, h)
add_count-IsWellFormed s (t ∷ ts) p h = ground (arith, add_count-IsWellFormed s ts p h.1)

merge_slots-IsWellFormed : (ss : List Slot) → IsWellFormed ss → IsWellFormed (merge_slots ss)
unfolding merge_slots
merge_slots-IsWellFormed [] h = h
merge_slots-IsWellFormed (s ∷ ss) h =
    add_count-IsWellFormed s (merge_slots ss) h.0 (merge_slots-IsWellFormed ss h.1)

-- Merging and sorting slots that hold events gives slots that hold events, so the checks of the
-- slots that `Candidate.of` builds never fail.
pub of-IsWellFormed : (ss : List Slot) → IsWellFormed ss → IsWellFormed (of ss).slots
unfolding of
of-IsWellFormed ss h = sort_by-IsWellFormed (merge_slots ss) (merge_slots-IsWellFormed ss h)

pub rank_injective : (r q : Reason) → is_reason r q ≡ true → r ≡ q
unfolding rank
rank_injective r q h = ground arith

same_key→≡ :
    (s t : Slot)
    → same_key s t ≡ true
    → (s.gen_reason ≡ t.gen_reason) × (s.day_offset ≡ t.day_offset)
same_key→≡ s t h = (rank_injective s.gen_reason t.gen_reason (ground arith), ground arith)

-- Any test that depends on the reason and the day alone selects as many events after merging.
module _ (p : Reason → ℕ → Bool) where
  abbrev pub events_where : List Slot → ℕ
  events_where ss = sum_of (λ s. s.count) (keep_if (λ s. p s.gen_reason s.day_offset) ss)

  events_where-insert_by :
      (s : Slot) (ss : List Slot) → events_where (insert_by slot_le s ss) ≡ events_where (s ∷ ss)
  unfolding insert_by
  events_where-insert_by s [] = refl
  events_where-insert_by s (t ∷ ts) = ground (arith, events_where-insert_by s ts)

  pub events_where-sort_by : (ss : List Slot) → events_where (sort_by slot_le ss) ≡ events_where ss
  unfolding sort_by
  events_where-sort_by [] = refl
  events_where-sort_by (s ∷ ss) =
      ground (arith, events_where-insert_by s (sort_by slot_le ss), events_where-sort_by ss)

  same_key-events :
      (s t : Slot) → same_key s t ≡ true → p s.gen_reason s.day_offset ≡ p t.gen_reason t.day_offset
  same_key-events s t h = let e = same_key→≡ s t h in cc (e.0, e.1)

  events_where-add_count :
      (s : Slot) (ss : List Slot) → events_where (add_count s ss) ≡ events_where (s ∷ ss)
  unfolding add_count
  events_where-add_count s [] = refl
  events_where-add_count s (t ∷ ts) = elim (Bool-cases (same_key s t)) [
    | inl e ↦ rw (e, same_key-events s t e) (ground arith)
    | inr e ↦ rw e (ground (arith, events_where-add_count s ts))
  ]

  pub events_where-merge_slots : (ss : List Slot) → events_where (merge_slots ss) ≡ events_where ss
  unfolding merge_slots
  events_where-merge_slots [] = refl
  events_where-merge_slots (s ∷ ss) =
      ground (arith, events_where-add_count s (merge_slots ss), events_where-merge_slots ss)

  -- `Candidate.of` moves no event to another reason or day: under any test of the two, as many
  -- events pass after the merge and the sort as before.
  pub events_where-of : (ss : List Slot) → events_where (of ss).slots ≡ events_where ss
  unfolding of
  events_where-of ss = events_where-sort_by (merge_slots ss) ∙ events_where-merge_slots ss
