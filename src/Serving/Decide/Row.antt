-- ===== src/Serving/Decide/Row.antt =====
-- decide_input.py and trigger_engine.py: what stands in the row of the model, and when a voucher is sent.
use lzd.Common.{
  ◌+◌, ◌≡◌, refl, sym, ap, ◌∙◌, inl, inr, Bool, true, false, ◌||◌, not, List, [], ◌∷◌, ◌++◌, Option,
  none, some, String, ◌==ₛ◌, if◌then◌else◌, In, arith, Bool-cases, text_eq_iff, length, count_if,
}
use mathlib.Core.Path.{subst}
use lzd.Common.Outcome.{ok, raise_if-ok, value_error, ok-injective}
use lzd.Common.Dict.{Dict, get, set, has_key, get-set}
use lzd.Features.Spec.{
  Values, Feature, FeatureSpec, cast, is_named, has_duplicates, load_feature_spec, all_features,
}
use lzd.Serving.Decide.{raw_of, put_feature, fill_row, build_model_row, wanted}

count_if-not {ℓ} :
    {A : Type ℓ} (p : A → Bool) (xs : List A)
    → count_if p xs + count_if (λ x. not (p x)) xs ≡ length xs
count_if-not p [] = refl
count_if-not p (x ∷ xs) = ground (arith, count_if-not p xs)

module _ {V : Type 0} (values : Values V) where
  -- What a feature leaves in the row: its cast, or nothing where its value is missing or blank.
  abbrev pub entry : Feature V → Option V → Option V
  entry f none = none
  entry f (some raw) = if values.is_blank raw then none else some (cast values f (some raw))

  get-put_feature_other :
      (f : Feature V) (raw : Option V) (row : Dict V) (name : String)
      → (f.name ==ₛ name) ≡ false
      → get name (put_feature values f raw row) ≡ get name row
  unfolding put_feature
  get-put_feature_other f none row name d = refl
  get-put_feature_other f (some v) row name d = by_blank (values.is_blank v)
    where
      by_blank :
          (b : Bool)
          → get name (if b then row else set f.name (cast values f (some v)) row) ≡ get name row
      by_blank true = refl
      by_blank false = get-set f.name name (cast values f (some v)) row ∙ rw d refl

  get-put_feature :
      (f : Feature V) (raw : Option V) (row : Dict V)
      → get f.name row ≡ none
      → get f.name (put_feature values f raw row) ≡ entry f raw
  unfolding put_feature
  get-put_feature f none row e = e
  get-put_feature f (some v) row e = by_blank (values.is_blank v)
    where
      by_blank :
          (b : Bool)
          → get f.name (if b then row else set f.name (cast values f (some v)) row)
            ≡ (if b then none else some (cast values f (some v)))
      by_blank true = e
      by_blank false =
          get-set f.name f.name (cast values f (some v)) row
          ∙ rw ((text_eq_iff f.name f.name).1 refl) refl

  or_false : (a b : Bool) → (a || b) ≡ false → (a ≡ false) × (b ≡ false)
  or_false a b h = ground arith

  module _ (context realtime batch : Dict V) where
    get-fill_row_other :
        (name : String) (fs : List (Feature V)) (row : Dict V)
        → is_named name fs ≡ false
        → get name (fill_row values context realtime batch fs row) ≡ get name row
    unfolding fill_row
    get-fill_row_other name [] row h = refl
    get-fill_row_other name (f ∷ fs) row h =
        let (a, b) = or_false (f.name ==ₛ name) (is_named name fs) h in
        get-fill_row_other name fs _ b
        ∙ get-put_feature_other f (raw_of values context realtime batch f.name) row name a

    get-fill_row :
        (f : Feature V) (fs : List (Feature V)) (row : Dict V)
        → has_duplicates fs ≡ false
        → get f.name row ≡ none
        → In f fs
        → get f.name (fill_row values context realtime batch fs row)
          ≡ entry f (raw_of values context realtime batch f.name)
    unfolding fill_row
    get-fill_row f [] row h e i = elim i [ ]
    get-fill_row f (g ∷ fs) row h e (inl q) =
        let (a, b) = or_false (is_named g.name fs) (has_duplicates fs) h in
        get-fill_row_other f.name fs _ (rw q a)
        ∙ subst
            (λ x.
              get f.name (put_feature values x (raw_of values context realtime batch x.name) row)
              ≡ entry f (raw_of values context realtime batch f.name))
            q (get-put_feature f (raw_of values context realtime batch f.name) row e)
    get-fill_row f (g ∷ fs) row h e (inr j) =
        let (a, b) = or_false (is_named g.name fs) (has_duplicates fs) h in
        get-fill_row f fs _ b (get-put_feature_other g _ row f.name (apart g f fs a j) ∙ e) j
      where
        apart :
            (g f : Feature V) (fs : List (Feature V))
            → is_named g.name fs ≡ false
            → In f fs
            → (g.name ==ₛ f.name) ≡ false
        apart g f fs n j = elim (Bool-cases (g.name ==ₛ f.name)) [
          | inl s ↦ absurd (clash f fs g.name ((text_eq_iff g.name f.name).0 s) n j)
          | inr d ↦ d
        ]
          where
            clash :
                (f : Feature V) (fs : List (Feature V)) (n : String)
                → n ≡ f.name
                → is_named n fs ≡ false
                → In f fs
                → ⊥
            clash f [] n s h j = elim j [ ]
            clash f (k ∷ fs) n s h (inl q) = cc (
              (or_false (k.name ==ₛ n) (is_named n fs) h).0,
              (text_eq_iff k.name n).1 (ap (λ (x : Feature V). x.name) (sym q) ∙ sym s),
            )
            clash f (k ∷ fs) n s h (inr j) =
                clash f fs n s (or_false (k.name ==ₛ n) (is_named n fs) h).1 j

  -- For a contract that was loaded, the row of the model has under each feature the cast of its
  -- newest value (the context's, else the realtime one, else the batch one), has no entry for a
  -- feature whose value is missing or blank, has no name that is no feature, and the wanted names
  -- are either supplied or missing.
  pub build_model_row-entries :
      (is_rt : String → Bool) (bs rs : List (Feature V)) (spec : FeatureSpec V)
      (order : List String) (batch realtime context : Dict V)
      → load_feature_spec bs rs ≡ ok spec
      → ((f : Feature V)
          → In f (all_features spec)
          → get f.name (build_model_row values is_rt spec order batch realtime context).row
            ≡ entry f (raw_of values context realtime batch f.name))
        × ((name : String)
            → is_named name (all_features spec) ≡ false
            → get name (build_model_row values is_rt spec order batch realtime context).row ≡ none)
        × ((build_model_row values is_rt spec order batch realtime context).supplied
            ≡ count_if
                (λ name.
                  has_key name (build_model_row values is_rt spec order batch realtime context).row)
                (wanted order))
  unfolding load_feature_spec build_model_row
  build_model_row-entries is_rt bs rs spec order batch realtime context h =
      let (u, v) = raise_if-ok (has_duplicates (bs ++ rs)) value_error _ spec h in
      let e = ok-injective (record { batch_features = bs; realtime_features = rs }) spec v in
      let d =
        subst
          (λ (s : FeatureSpec V). has_duplicates (s.batch_features ++ s.realtime_features) ≡ false)
          e u in
      let row = fill_row values context realtime batch (all_features spec) [] in
      (
        λ f i. get-fill_row context realtime batch f (all_features spec) [] d refl i,
        λ name n. get-fill_row_other context realtime batch name (all_features spec) [] n,
        omega (arith, count_if-not (λ name. has_key name row) (wanted order)),
      )
