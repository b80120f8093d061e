-- ===== src/Reconstruction/FeatureSet/Contract.antt =====
-- feature_set.py: what the checks of a loaded feature set give its users.
use lzd.Common.{
  ◌≡◌, refl, sym, ap, ◌∙◌, inl, inr, Bool, true, false, ◌&&◌, ◌||◌, not, List, [], ◌∷◌, ◌++◌, ==→≡,
  Option, none, some, String, ◌==ₛ◌, length, In, arith, Bool-cases, text_eq_iff,
}
use lzd.Common.Outcome.{Outcome, ok, err, value_error, key_error, >>=-eq-ok, raise_if-ok}
use lzd.Common.Dict.{Dict, get}
use lzd.Common.Membership.{all_of-In, In-any_of, any_of-false}
use lzd.Reconstruction.FeatureSet.{
  SourceAttribute, FeatureSet, has, is_subset, overlaps, all_columns, columns, owner_of, tier_of,
  regime_of, check_tiers, check_each, columns_of, validate_set,
}

has-In : (c : String) (xs : List String) → has c xs ≡ true → In c xs
has-In c [] h = cc
has-In c (x ∷ xs) h = elim (Bool-cases (x ==ₛ c)) [
  | inl e ↦ inl (sym ((text_eq_iff x c).0 e))
  | inr n ↦ inr (has-In c xs (rw n at h))
]

In-has : (c : String) (xs : List String) → In c xs → has c xs ≡ true
In-has c xs i = In-any_of (λ e. e ==ₛ c) c xs i ((text_eq_iff c c).1 refl)

has-append : (c : String) (xs ys : List String) → has c (xs ++ ys) ≡ (has c xs || has c ys)
has-append c [] ys = refl
has-append c (x ∷ xs) ys = ground (arith, has-append c xs ys)

subset_has :
    (c : String) (xs ys : List String) → is_subset xs ys ≡ true → has c xs ≡ true → has c ys ≡ true
subset_has c xs ys s h = all_of-In (λ x. has x ys) c xs s (has-In c xs h)

no_overlap :
    (c : String) (xs ys : List String) → overlaps xs ys ≡ false → has c xs ≡ true → has c ys ≡ false
no_overlap c xs ys o h = any_of-false (λ x. has x ys) c xs o (has-In c xs h)

-- A column of some entry has an owner.
owner_of_some :
    (c : String) (d : Dict (List String))
    → has c (all_columns d) ≡ true
    → (name : String) × (owner_of c d ≡ ok name)
owner_of_some c [] h = cc
owner_of_some c ((name, cols) ∷ d) h = elim (Bool-cases (has c cols)) [
  | inl e ↦ (name, rw e refl)
  | inr n ↦
      let (m, e) = owner_of_some c d (rest n (has-append c cols (all_columns d))) in (m, rw n e)
]
  where
    rest :
        has c cols ≡ false
        → has c (cols ++ all_columns d) ≡ (has c cols || has c (all_columns d))
        → has c (all_columns d) ≡ true
    rest n e = ground arith

-- Where the tiers were checked, a column of a tier has no other tier, and was not seen before.
check_tiers-unseen :
    (c : String) (d : Dict (List String)) (seen : List String)
    → check_tiers d seen ≡ ok tt
    → has c seen ≡ true
    → has c (all_columns d) ≡ false
check_tiers-unseen c [] seen h s = refl
check_tiers-unseen c ((tier, cols) ∷ d) seen h s =
    let (o, k) = raise_if-ok (overlaps cols seen) value_error _ tt h in
    let later =
      check_tiers-unseen c d (cols ++ seen) k (has-append c cols seen ∙ rw s (ground arith)) in
    has-append c cols (all_columns d) ∙ rw (later, excluded o) refl
  where
    excluded : overlaps cols seen ≡ false → has c cols ≡ false
    excluded o = elim (Bool-cases (has c cols)) [
      | inl e ↦ cc (no_overlap c cols seen o e, s)
      | inr n ↦ n
    ]

get-all_columns :
    (c tier : String) (cols : List String) (d : Dict (List String))
    → get tier d ≡ some cols
    → has c cols ≡ true
    → has c (all_columns d) ≡ true
get-all_columns c tier cols [] g i = cc
get-all_columns c tier cols ((t, cs) ∷ d) g i = elim (Bool-cases (t ==ₛ tier)) [
  | inl e ↦ has-append c cs (all_columns d) ∙ here (rw e at g)
  | inr n ↦
      has-append c cs (all_columns d)
      ∙ rw (get-all_columns c tier cols d (rw n at g) i) (ground arith)
]
  where
    here : some cs ≡ some cols → (has c cs || has c (all_columns d)) ≡ true
    here e = rw (same e, i) refl
      where
        same : some cs ≡ some cols → cs ≡ cols
        same e = cc

check_tiers-owner :
    (c tier : String) (cols : List String) (d : Dict (List String)) (seen : List String)
    → check_tiers d seen ≡ ok tt
    → get tier d ≡ some cols
    → has c cols ≡ true
    → owner_of c d ≡ ok tier
check_tiers-owner c tier cols [] seen h g i = cc
check_tiers-owner c tier cols ((t, cs) ∷ d) seen h g i =
    let (o, k) = raise_if-ok (overlaps cs seen) value_error _ tt h in
    elim (Bool-cases (t ==ₛ tier)) [
      | inl e ↦ rw (ap (has c) (same (rw e at g)) ∙ i) (ap ok ((text_eq_iff t tier).0 e))
      | inr n ↦
          rw (not_here k (rw n at g)) (check_tiers-owner c tier cols d (cs ++ seen) k (rw n at g) i)
    ]
  where
    same : some cs ≡ some cols → cs ≡ cols
    same e = cc

    not_here : check_tiers d (cs ++ seen) ≡ ok tt → get tier d ≡ some cols → has c cs ≡ false
    not_here k g = elim (Bool-cases (has c cs)) [
      | inl e ↦ cc (
        check_tiers-unseen c d (cs ++ seen) k (has-append c cs seen ∙ rw e refl),
        get-all_columns c tier cols d g i,
      )
      | inr n ↦ n
    ]

check_each-In :
    (bad : SourceAttribute → Bool) (d : Dict SourceAttribute) (name : String) (a : SourceAttribute)
    → check_each bad d ≡ ok tt
    → In (name, a) d
    → bad a ≡ false
check_each-In bad [] name a h i = elim i [ ]
check_each-In bad ((n, b) ∷ d) name a h (inl e) =
    ap (λ (p : String × SourceAttribute). bad p.1) e ∙ (raise_if-ok (bad b) value_error _ tt h).0
check_each-In bad ((n, b) ∷ d) name a h (inr i) =
    check_each-In bad d name a (raise_if-ok (bad b) value_error _ tt h).1 i

-- What a validated set promises.
pub record IsContract (fs : FeatureSet) : Type 0 where
  pub one_tier :
      (c tier : String) (cols : List String)
      → get tier fs.tiers ≡ some cols
      → has c cols ≡ true
      → tier_of fs c ≡ ok tier
  pub a_regime :
      (c : String) → has c (columns fs) ≡ true → (name : String) × (regime_of fs c ≡ ok name)
  pub selected_in_t2 :
      (name c : String) (a : SourceAttribute)
      → In (name, a) fs.source_attributes
      → has c a.selected ≡ true
      → tier_of fs c ≡ ok "T2"
  pub accounted :
      (name c : String) (a : SourceAttribute)
      → In (name, a) fs.source_attributes
      → has c a.outputs ≡ true
      → (has c (columns fs) || has c fs.intermediate_only) ≡ true
  pub apart : (c : String) → has c fs.intermediate_only ≡ true → has c (columns fs) ≡ false
  pub counted : length (columns fs) ≡ fs.expected_column_count

passed_not : (b : Bool) → not b ≡ false → b ≡ true
passed_not b h = ground arith

found_columns :
    (o : Option (List String)) (cols : List String)
    → (elim o [ none ↦ err key_error | some xs ↦ ok xs ]) ≡ ok cols
    → o ≡ some cols
found_columns none cols h = cc
found_columns (some xs) cols h = cc

-- A feature set that `_validate` accepts keeps its contract: `tier_of` gives the only tier of a column, every column has a
-- regime, the selected columns of an attribute are in T2, all columns of its group are declared, no column that is only
-- intermediate is a target column, and there are as many columns as the artifact says.
pub validate_set-IsContract : (fs : FeatureSet) → validate_set fs ≡ ok tt → IsContract fs
unfolding validate_set columns
validate_set-IsContract fs h =
    let (_, tiers, h1) = >>=-eq-ok (check_tiers fs.tiers []) _ h in
    let (regimes, h2) = raise_if-ok _ value_error _ tt h1 in
    let (t2, f, h3) = >>=-eq-ok (columns_of "T2" fs) _ h2 in
    let (_, inside, h4) =
      >>=-eq-ok (check_each (λ a. not (is_subset a.selected t2)) fs.source_attributes) _ h3 in
    let (no_leak, h5) = raise_if-ok _ value_error _ tt h4 in
    let (_, all_there, h6) = >>=-eq-ok (check_each _ fs.source_attributes) _ h5 in
    let (number, _) = raise_if-ok _ value_error _ tt h6 in
    let both =
      split (is_subset (all_columns fs.regimes) (columns fs))
        (is_subset (columns fs) (all_columns fs.regimes)) regimes in
    record {
      one_tier = λ c tier cols g i. check_tiers-owner c tier cols fs.tiers [] (unit tiers) g i;
      a_regime = λ c i.
          owner_of_some c fs.regimes (subset_has c (columns fs) (all_columns fs.regimes) both i);
      selected_in_t2 = λ name c a i m.
          check_tiers-owner c "T2" t2 fs.tiers [] (unit tiers)
            (found_columns (get "T2" fs.tiers) t2 f)
            (subset_has c a.selected t2
              (passed_not _ (check_each-In _ fs.source_attributes name a (unit inside) i)) m);
      accounted = λ name c a i m.
          all_of-In (λ c. has c (columns fs) || has c fs.intermediate_only) c a.outputs
            (passed_not _ (check_each-In _ fs.source_attributes name a (unit all_there) i))
            (has-In c a.outputs m);
      apart = λ c i. no_overlap c fs.intermediate_only (columns fs) no_leak i;
      counted = ==→≡ (length (columns fs)) fs.expected_column_count (passed_not _ number);
    }
  where
    split : (a b : Bool) → not (a && b) ≡ false → b ≡ true
    split a b h = ground arith

    unit : {u : Unit {0}} {o : Outcome (Unit {0})} → o ≡ ok u → o ≡ ok tt
    unit h = h
