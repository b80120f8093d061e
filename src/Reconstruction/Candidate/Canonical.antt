-- ===== src/Reconstruction/Candidate/Canonical.antt =====
-- candidate.py: `Candidate.of` is a canonical form.
use lzd.Common.{
  ℕ, ◌≤◌, ◌≡◌, refl, ap, Bool, true, false, ◌&&◌, ◌||◌, List, [], ◌∷◌, ltb, ◌==◌, sum_of, keep_if,
  All, arith, ◌∙◌, sym, Bool-cases, inl, inr,
}
use mathlib.Core.Path.{fun_ext}
use lzd.Common.Sorting.{sort_by, insert_by}
use lzd.Reconstruction.Candidate.{
  Reason, rank, is_reason, Slot, slot_le, same_key, add_count, merge_slots, of, IsWellFormed,
}
use lzd.Reconstruction.Candidate.Metrics.{
  events_where, events_where-of, of-IsWellFormed, rank_injective,
}

abbrev key_lt : Slot → Slot → Bool
key_lt s t =
    ltb (rank s.gen_reason) (rank t.gen_reason)
    || (is_reason s.gen_reason t.gen_reason && ltb s.day_offset t.day_offset)

abbrev Differs : Slot → List Slot → Type 0
Differs s = All (λ t. same_key s t ≡ false)

abbrev IsDistinct : List Slot → Type 0
IsDistinct [] = Unit
IsDistinct (s ∷ ss) = Differs s ss × IsDistinct ss

-- The slots rise strictly in reason and day, so no reason has two slots on one day.
abbrev pub IsCanonical : List Slot → Type 0
IsCanonical [] = Unit
IsCanonical (s ∷ ss) = All (λ t. key_lt s t ≡ true) ss × IsCanonical ss

Differs-add_count :
    (s t : Slot) (ts : List Slot) → same_key s t ≡ false → Differs s ts → Differs s (add_count t ts)
unfolding add_count
Differs-add_count s t [] h k = (h, tt)
Differs-add_count s t (u ∷ ts) h k = ground (arith, Differs-add_count s t ts h k.1)

add_count-IsDistinct : (s : Slot) (ss : List Slot) → IsDistinct ss → IsDistinct (add_count s ss)
unfolding add_count
add_count-IsDistinct s [] h = (tt, tt)
add_count-IsDistinct s (t ∷ ts) h =
    ground (arith, add_count-IsDistinct s ts h.1, Differs-add_count t s ts)

merge_slots-IsDistinct : (ss : List Slot) → IsDistinct (merge_slots ss)
unfolding merge_slots
merge_slots-IsDistinct [] = tt
merge_slots-IsDistinct (s ∷ ss) =
    add_count-IsDistinct s (merge_slots ss) (merge_slots-IsDistinct ss)

Differs-insert_by :
    (s t : Slot) (ts : List Slot)
    → same_key s t ≡ false
    → Differs s ts
    → Differs s (insert_by slot_le t ts)
unfolding insert_by
Differs-insert_by s t [] h k = (h, tt)
Differs-insert_by s t (u ∷ ts) h k = ground (arith, Differs-insert_by s t ts h k.1)

Differs-sort_by : (s : Slot) (ts : List Slot) → Differs s ts → Differs s (sort_by slot_le ts)
unfolding sort_by
Differs-sort_by s [] h = h
Differs-sort_by s (t ∷ ts) h =
    Differs-insert_by s t (sort_by slot_le ts) h.0 (Differs-sort_by s ts h.1)

key_lt_trans : (s t u : Slot) → key_lt s t ≡ true → key_lt t u ≡ true → key_lt s u ≡ true
key_lt_trans s t u h k = ground arith

Below_trans :
    (s t : Slot) (us : List Slot)
    → key_lt s t ≡ true
    → All (λ u. key_lt t u ≡ true) us
    → All (λ u. key_lt s u ≡ true) us
Below_trans s t [] h k = tt
Below_trans s t (u ∷ us) h k = (key_lt_trans s t u h k.0, Below_trans s t us h k.1)

Below-insert_by :
    (s t : Slot) (us : List Slot)
    → key_lt s t ≡ true
    → All (λ u. key_lt s u ≡ true) us
    → All (λ u. key_lt s u ≡ true) (insert_by slot_le t us)
unfolding insert_by
Below-insert_by s t [] h k = (h, tt)
Below-insert_by s t (u ∷ us) h k = ground (arith, Below-insert_by s t us h k.1)

-- Two slots with different keys are in the strict order one way or the other.
key_lt_of_le : (s t : Slot) → same_key s t ≡ false → slot_le s t ≡ true → key_lt s t ≡ true
key_lt_of_le s t h k = ground arith

key_lt_of_not_le : (s t : Slot) → same_key s t ≡ false → slot_le s t ≡ false → key_lt t s ≡ true
key_lt_of_not_le s t h k = ground arith

insert_by-IsCanonical :
    (s : Slot) (ss : List Slot)
    → Differs s ss
    → IsCanonical ss
    → IsCanonical (insert_by slot_le s ss)
unfolding insert_by
insert_by-IsCanonical s [] d h = (tt, tt)
insert_by-IsCanonical s (t ∷ ts) d h = elim (Bool-cases (slot_le s t)) [
  | inl e ↦ rw e (let lt = key_lt_of_le s t d.0 e in ((lt, Below_trans s t ts lt h.0), h))
  | inr e ↦
      rw e (
        Below-insert_by t s ts (key_lt_of_not_le s t d.0 e) h.0,
        insert_by-IsCanonical s ts d.1 h.1,
      )
]

sort_by-IsCanonical : (ss : List Slot) → IsDistinct ss → IsCanonical (sort_by slot_le ss)
unfolding sort_by
sort_by-IsCanonical [] h = tt
sort_by-IsCanonical (s ∷ ss) h =
    insert_by-IsCanonical s (sort_by slot_le ss) (Differs-sort_by s ss h.0)
      (sort_by-IsCanonical ss h.1)

-- The slots of `Candidate.of` rise strictly in reason and day.
pub of-IsCanonical : (ss : List Slot) → IsCanonical (of ss).slots
unfolding of
of-IsCanonical ss = sort_by-IsCanonical (merge_slots ss) (merge_slots-IsDistinct ss)

-- The events of one reason on one day.
abbrev pub at_key : Reason → ℕ → Reason → ℕ → Bool
at_key r d q e = is_reason r q && (d == e)

abbrev Agree : List Slot → List Slot → Type 0
Agree xs ys = (r : Reason) (d : ℕ) → events_where (at_key r d) xs ≡ events_where (at_key r d) ys

-- Nothing stands at a key below every slot.
events_where_below :
    (s : Slot) (ts : List Slot)
    → All (λ t. key_lt s t ≡ true) ts
    → events_where (at_key s.gen_reason s.day_offset) ts ≡ 0
events_where_below s [] h = refl
events_where_below s (t ∷ ts) h = ground (arith, events_where_below s ts h.1)

-- The head of a canonical list has events at its key, and the tail has none.
events_where_head :
    (s : Slot) (ss : List Slot)
    → IsCanonical (s ∷ ss)
    → events_where (at_key s.gen_reason s.day_offset) (s ∷ ss) ≡ s.count
events_where_head s ss h = ground (arith, events_where_below s ss h.0)

slot_eq : (s t : Slot) → same_key s t ≡ true → s.count ≡ t.count → s ≡ t
slot_eq s t h c = ground (arith, rank_injective s.gen_reason t.gen_reason)

not_below :
    (s t : Slot) (ss ts : List Slot)
    → 1 ≤ s.count
    → IsCanonical (s ∷ ss)
    → IsCanonical (t ∷ ts)
    → Agree (s ∷ ss) (t ∷ ts)
    → key_lt s t ≡ true
    → ⊥
not_below s t ss ts p hs ht agree lt = omega (
  arith,
  agree s.gen_reason s.day_offset,
  events_where_head s ss hs,
  events_where_below s (t ∷ ts) (lt, Below_trans s t ts lt ht.0),
)

key_lt_total : (s t : Slot) → key_lt s t ≡ false → key_lt t s ≡ false → same_key s t ≡ true
key_lt_total s t h k = ground arith

at_key-same_key :
    (s t : Slot) (q : Reason) (e : ℕ)
    → same_key s t ≡ true
    → at_key s.gen_reason s.day_offset q e ≡ at_key t.gen_reason t.day_offset q e
at_key-same_key s t q e h = ground arith

abbrev key_test : Slot → Slot → Bool
key_test s u = at_key s.gen_reason s.day_offset u.gen_reason u.day_offset

key_test_eq : (s t : Slot) → same_key s t ≡ true → key_test s ≡ key_test t
key_test_eq s t h = fun_ext λ u. at_key-same_key s t u.gen_reason u.day_offset h

heads-Agree :
    (s t : Slot) (ss ts : List Slot)
    → IsCanonical (s ∷ ss)
    → IsCanonical (t ∷ ts)
    → Agree (s ∷ ss) (t ∷ ts)
    → same_key s t ≡ true
    → s ≡ t
heads-Agree s t ss ts hs ht agree e = slot_eq s t e (
    sym (events_where_head s ss hs)
    ∙ agree s.gen_reason s.day_offset
    ∙ ap (λ f. sum_of (λ u. u.count) (keep_if f (t ∷ ts))) (key_test_eq s t e)
    ∙ events_where_head t ts ht)

canonical_unique :
    (xs ys : List Slot)
    → IsCanonical xs
    → IsCanonical ys
    → IsWellFormed xs
    → IsWellFormed ys
    → Agree xs ys
    → xs ≡ ys
canonical_unique [] [] hx hy wx wy agree = refl
canonical_unique [] (t ∷ ts) hx hy wx wy agree =
    absurd (omega (arith, agree t.gen_reason t.day_offset, events_where_head t ts hy, wy.0))
canonical_unique (s ∷ ss) [] hx hy wx wy agree =
    absurd (omega (arith, agree s.gen_reason s.day_offset, events_where_head s ss hx, wx.0))
canonical_unique (s ∷ ss) (t ∷ ts) hx hy wx wy agree = elim (Bool-cases (key_lt s t)) [
  | inl lt ↦ absurd (not_below s t ss ts wx.0 hx hy agree lt)
  | inr nlt ↦ elim (Bool-cases (key_lt t s)) [
    | inl gt ↦ absurd (not_below t s ts ss wy.0 hy hx (λ r d. sym (agree r d)) gt)
    | inr ngt ↦
        let e = heads-Agree s t ss ts hx hy agree (key_lt_total s t nlt ngt) in
        let rest : Agree ss ts = λ r d. tails s t ss ts e r d (agree r d) in
        cc (e, canonical_unique ss ts hx.1 hy.1 wx.1 wy.1 rest)
  ]
]
  where
    tails :
        (s t : Slot) (ss ts : List Slot)
        → s ≡ t
        → (r : Reason) (d : ℕ)
        → events_where (at_key r d) (s ∷ ss) ≡ events_where (at_key r d) (t ∷ ts)
        → events_where (at_key r d) ss ≡ events_where (at_key r d) ts
    tails s t ss ts e r d h = ground arith

-- `Candidate.of` is a canonical form: two lists of slots that hold events give the same candidate
-- as soon as they hold as many events of each reason on each day, in whatever order and however
-- split into slots.
pub of_canonical :
    (xs ys : List Slot)
    → IsWellFormed xs
    → IsWellFormed ys
    → ((r : Reason) (d : ℕ) → events_where (at_key r d) xs ≡ events_where (at_key r d) ys)
    → of xs ≡ of ys
of_canonical xs ys wx wy agree =
    ap (λ (l : List Slot). record { slots = l })
      (canonical_unique (of xs).slots (of ys).slots (of-IsCanonical xs) (of-IsCanonical ys)
        (of-IsWellFormed xs wx) (of-IsWellFormed ys wy)
        (λ r d.
          events_where-of (at_key r d) xs ∙ agree r d ∙ sym (events_where-of (at_key r d) ys)))
