-- ===== src/Reconstruction/Lineage/Eligible.antt =====
-- persistence.py: rows and provenance, and which rows may train a production model.
use lzd.Common.{
  ◌≡◌, refl, ap, ◌↔◌, Bool, true, false, ◌&&◌, not, ◌==ₛ◌, all_of, any_of, In, arith, text_eq_iff,
}
use lzd.Common.Outcome.{ok, lineage_violation, raise_if}
use lzd.Common.Membership.{
  all_of-In, In-all_of, In-any_of, any_of-false, false-any_of, In-keep_if, keep_if-In,
}
use lzd.Reconstruction.State.{Provenance, new_provenance, is_empty}
use lzd.Reconstruction.Lineage.{
  Rows, is_real, group_of, in_real_roots, assert_production_train_eligible, provenance_to_row,
  provenance_from_row,
}

-- Reading a written row back gives the provenance again, or fails its checks exactly when the
-- provenance itself fails them.
pub provenance_from_row-to_row :
    (p : Provenance) → provenance_from_row (provenance_to_row p) ≡ new_provenance p
unfolding provenance_from_row provenance_to_row
provenance_from_row-to_row p = refl

-- A row that may train: real, with no model among its ancestors.
abbrev pub IsTrainable : Provenance → Type 0
IsTrainable r = (is_real r ≡ true) × (is_empty r.ancestor_model_ids ≡ true)

same_root : (r : Provenance) → (r.root_generation_id ==ₛ r.root_generation_id) ≡ true
same_root r = (text_eq_iff r.root_generation_id r.root_generation_id).1 refl

own_group : (r : Provenance) (rows : Rows) → In r rows → In r (group_of r.root_generation_id rows)
own_group r rows i =
    In-keep_if (λ q. q.root_generation_id ==ₛ r.root_generation_id) r rows i (same_root r)

and_parts : (a b c : Bool) → (a && (b && c)) ≡ true → (b ≡ true) × (c ≡ true)
and_parts a b c h = ground arith

real_root-IsTrainable :
    (rows : Rows) (r : Provenance)
    → In r rows
    → in_real_roots rows r.root_generation_id ≡ true
    → IsTrainable r
unfolding in_real_roots
real_root-IsTrainable rows r i h =
    let root = r.root_generation_id in
    let both =
      and_parts (any_of (λ q. q.root_generation_id ==ₛ root) rows)
        (all_of is_real (group_of root rows))
        (all_of (λ q. is_empty q.ancestor_model_ids) (group_of root rows)) h in
    let own = own_group r rows i in
    (
      all_of-In is_real r (group_of root rows) both.0 own,
      all_of-In (λ q. is_empty q.ancestor_model_ids) r (group_of root rows) both.1 own,
    )

IsTrainable-real_root :
    (rows : Rows) (r : Provenance)
    → In r rows
    → ((q : Provenance) → In q rows → IsTrainable q)
    → in_real_roots rows r.root_generation_id ≡ true
unfolding in_real_roots
IsTrainable-real_root rows r i h =
    let root = r.root_generation_id in
    let same = λ (q : Provenance). q.root_generation_id ==ₛ root in
    rw (
      In-any_of same r rows i (same_root r),
      In-all_of is_real (group_of root rows) (λ q j. (h q (keep_if-In same q rows j).0).0),
      In-all_of (λ q. is_empty q.ancestor_model_ids) (group_of root rows)
          (λ q j. (h q (keep_if-In same q rows j).0).1),
    )

-- The gate for production training lets a set of rows pass exactly when every one of them is real
-- and has no model among its ancestors: one bad row anywhere refuses the set.
pub eligible_iff :
    (rows : Rows)
    → (assert_production_train_eligible rows ≡ ok tt)
      ↔ ((r : Provenance) → In r rows → IsTrainable r)
unfolding assert_production_train_eligible
eligible_iff rows = (
  λ h r i. real_root-IsTrainable rows r i (
      not_false (in_real_roots rows r.root_generation_id) (
        any_of-false (λ q. not (in_real_roots rows q.root_generation_id)) r rows
          (passed (any_of (λ q. not (in_real_roots rows q.root_generation_id)) rows) h) i)),
  λ h. rw (
      false-any_of (λ q. not (in_real_roots rows q.root_generation_id)) rows
        (λ r i. ap not (IsTrainable-real_root rows r i h))),
)
  where
    not_false : (b : Bool) → not b ≡ false → b ≡ true
    not_false b h = ground arith

    passed : (b : Bool) → raise_if b lineage_violation ≡ ok tt → b ≡ false
    passed b h = ground arith
