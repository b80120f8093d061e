-- ===== src/Features/Spec/Merge.antt =====
-- spec.py: a merged row has each feature of the contract, from its own source.
use lzd.Common.{
  ℕ, ◌+◌, ◌≡◌, refl, sym, ap, ◌∙◌, inl, inr, Bool, true, false, ◌||◌, List, [], ◌∷◌, ◌++◌, some,
  String, ◌==ₛ◌, sum_of, In, arith, text_eq_iff,
}
use mathlib.Core.Path.{subst}
use lzd.Common.Outcome.{ok, raise_if-ok, value_error, ok-injective}
use lzd.Common.Dict.{Dict, get, set, get-set}
use lzd.Features.Spec.{
  Values, Feature, FeatureSpec, cast, absent, merge_from, merge, is_named, has_duplicates,
  load_feature_spec,
}

module _ {V : Type 0} where
  pub In-is_named : (f : Feature V) (fs : List (Feature V)) → In f fs → is_named f.name fs ≡ true
  In-is_named f [] i = elim i [ ]
  In-is_named f (g ∷ fs) (inl e) =
      rw ((text_eq_iff g.name f.name).1 (ap (λ (x : Feature V). x.name) (sym e))) refl
  In-is_named f (g ∷ fs) (inr i) = let k = In-is_named f fs i in ground arith

  -- The names of two lists are unique together.
  pub has_duplicates-append :
      (fs gs : List (Feature V))
      → has_duplicates (fs ++ gs) ≡ false
      → (has_duplicates fs ≡ false)
        × (has_duplicates gs ≡ false)
        × ((f : Feature V) → In f fs → is_named f.name gs ≡ false)
  has_duplicates-append [] gs h = (refl, h, λ f i. elim i [ ])
  has_duplicates-append (g ∷ fs) gs h =
      let (a, b) = or_false (is_named g.name (fs ++ gs)) (has_duplicates (fs ++ gs)) h in
      let (c, d, k) = has_duplicates-append fs gs b in
      let (p, q) = is_named-append g.name fs gs a in
      (rw (p, c) refl, d, λ f i. elim i [ inl e ↦ rw e q | inr j ↦ k f j ])
    where
      or_false : (a b : Bool) → (a || b) ≡ false → (a ≡ false) × (b ≡ false)
      or_false a b h = ground arith

      is_named-append :
          (n : String) (fs gs : List (Feature V))
          → is_named n (fs ++ gs) ≡ false
          → (is_named n fs ≡ false) × (is_named n gs ≡ false)
      is_named-append n [] gs h = (refl, h)
      is_named-append n (f ∷ fs) gs h =
          let (a, b) = or_false (f.name ==ₛ n) (is_named n (fs ++ gs)) h in
          let (p, q) = is_named-append n fs gs b in (rw (a, p) refl, q)

module _ {V : Type 0} (values : Values V) where
  get-merge_from_other :
      (name : String) (fs : List (Feature V)) (source out : Dict V) (m : ℕ)
      → is_named name fs ≡ false
      → get name (merge_from values fs source (out, m)).0 ≡ get name out
  unfolding merge_from
  get-merge_from_other name [] source out m h = refl
  get-merge_from_other name (f ∷ fs) source out m h =
      let (a, b) = or_false (f.name ==ₛ name) (is_named name fs) h in
      get-merge_from_other name fs source (set f.name (cast values f (get f.name source)) out)
        (m + absent values (get f.name source)) b
      ∙ get-set f.name name (cast values f (get f.name source)) out
      ∙ rw a refl
    where
      or_false : (a b : Bool) → (a || b) ≡ false → (a ≡ false) × (b ≡ false)
      or_false a b h = ground arith

  get-merge_from :
      (f : Feature V) (fs : List (Feature V)) (source out : Dict V) (m : ℕ)
      → has_duplicates fs ≡ false
      → In f fs
      → get f.name (merge_from values fs source (out, m)).0
        ≡ some (cast values f (get f.name source))
  unfolding merge_from
  get-merge_from f [] source out m h i = elim i [ ]
  get-merge_from f (g ∷ fs) source out m h i =
      let (a, b) = or_false (is_named g.name fs) (has_duplicates fs) h in
      elim i [
        | inl e ↦ rw e (
            get-merge_from_other g.name fs source
              (set g.name (cast values g (get g.name source)) out)
              (m + absent values (get g.name source)) a
            ∙ get-set g.name g.name (cast values g (get g.name source)) out
            ∙ rw ((text_eq_iff g.name g.name).1 refl) refl)
        | inr j ↦
            get-merge_from f fs source (set g.name (cast values g (get g.name source)) out)
              (m + absent values (get g.name source)) b j
      ]
    where
      or_false : (a b : Bool) → (a || b) ≡ false → (a ≡ false) × (b ≡ false)
      or_false a b h = ground arith

  missing-merge_from :
      (fs : List (Feature V)) (source out : Dict V) (m : ℕ)
      → (merge_from values fs source (out, m)).1
        ≡ m + sum_of (λ f. absent values (get f.name source)) fs
  unfolding merge_from
  missing-merge_from [] source out m = omega arith
  missing-merge_from (f ∷ fs) source out m =
      missing-merge_from fs source (set f.name (cast values f (get f.name source)) out)
        (m + absent values (get f.name source))
      ∙ omega arith

  -- In a contract that was loaded, a merged row holds under each batch feature the cast of the
  -- batch value, and under each realtime feature the cast of the realtime value, whatever the
  -- other source says; and the count of missing features is the number of those that their own
  -- source lacks.
  pub merge-by_source :
      (bs rs : List (Feature V)) (spec : FeatureSpec V) (batch realtime : Dict V)
      → load_feature_spec bs rs ≡ ok spec
      → ((f : Feature V)
          → In f spec.batch_features
          → get f.name (merge values spec batch realtime).0
            ≡ some (cast values f (get f.name batch)))
        × ((f : Feature V)
            → In f spec.realtime_features
            → get f.name (merge values spec batch realtime).0
              ≡ some (cast values f (get f.name realtime)))
        × ((merge values spec batch realtime).1
            ≡ sum_of (λ f. absent values (get f.name batch)) spec.batch_features
              + sum_of (λ f. absent values (get f.name realtime)) spec.realtime_features)
  unfolding load_feature_spec merge
  merge-by_source bs rs spec batch realtime h =
      let (u, v) = raise_if-ok (has_duplicates (bs ++ rs)) value_error _ spec h in
      let e = ok-injective (record { batch_features = bs; realtime_features = rs }) spec v in
      let (db, dr, apart) = has_duplicates-append spec.batch_features spec.realtime_features (
        subst
          (λ (s : FeatureSpec V). has_duplicates (s.batch_features ++ s.realtime_features) ≡ false)
          e u) in
      let first = merge_from values spec.batch_features batch ([], 0) in
      (
        λ f i.
            get-merge_from_other f.name spec.realtime_features realtime first.0 first.1 (apart f i)
            ∙ get-merge_from f spec.batch_features batch [] 0 db i,
        λ f i. get-merge_from f spec.realtime_features realtime first.0 first.1 dr i,
        missing-merge_from spec.realtime_features realtime first.0 first.1
            ∙ omega (arith, missing-merge_from spec.batch_features batch [] 0),
      )
