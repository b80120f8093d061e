-- ===== src/Features/Spec.antt =====
-- spec.py: the features of the contract, their casts, and the merge of the two sources.
pub mod Merge
use lzd.Common.{
  ℕ, zero, suc, ◌+◌, ◌≡◌, Bool, true, false, ◌&&◌, ◌||◌, not, List, [], ◌∷◌, ◌++◌, map, Option,
  none, some, String, ◌==ₛ◌, if◌then◌else◌, any_of, keep_if,
}
use lzd.Common.Outcome.{Outcome, ok, err, value_error, raise_if, ◌>>◌}
use lzd.Common.Dict.{Dict, get, set}

pub data DType : Type 0 where
  float int str : DType

-- The conversions of Python on the values of Redis and of YAML; `none` where one raises TypeError
-- or ValueError. Floats are finite here: on infinity `int` raises an OverflowError, which `cast` does
-- not catch. `is_blank` is `raw == ""`.
pub record Values (V : Type 0) : Type 0 where
  pub to_float : V → Option V
  pub to_int : V → Option V
  pub to_str : V → Option V
  pub is_blank : V → Bool

pub record Feature (V : Type 0) : Type 0 where
  pub name : String
  pub dtype : DType
  pub default : V

pub record FeatureSpec (V : Type 0) : Type 0 where
  pub batch_features : List (Feature V)
  pub realtime_features : List (Feature V)

abbrev or_default {ℓ} : {V : Type ℓ} → V → Option V → V
or_default d none = d
or_default d (some v) = v

module _ {V : Type 0} (values : Values V) where
  abbrev convert : DType → V → Option V
  convert float v = values.to_float v
  convert int v = elim (values.to_float v) [ none ↦ none | some f ↦ values.to_int f ]
  convert str v = values.to_str v

  -- `Feature.cast`
  unfoldable pub cast : Feature V → Option V → V
  cast f none = f.default
  cast f (some raw) =
      if values.is_blank raw then f.default else or_default f.default (convert f.dtype raw)

  abbrev pub absent {ℓ} : {A : Type ℓ} → Option A → ℕ
  absent none = 1
  absent (some _) = 0

  -- One of the two loops of `merge`.
  unfoldable pub merge_from : List (Feature V) → Dict V → Dict V × ℕ → Dict V × ℕ
  unfolding cast
  merge_from [] source s = s
  merge_from (f ∷ fs) source (out, missing) =
      merge_from fs source
        (set f.name (cast f (get f.name source)) out, missing + absent (get f.name source))

  -- `merge`
  unfoldable pub merge : FeatureSpec V → Dict V → Dict V → Dict V × ℕ
  unfolding merge_from
  merge spec batch realtime =
      merge_from spec.realtime_features realtime (merge_from spec.batch_features batch ([], 0))

module _ {V : Type 0} where
  abbrev pub all_features : FeatureSpec V → List (Feature V)
  all_features spec = spec.batch_features ++ spec.realtime_features

  -- `by_name`
  abbrev pub find_feature : String → List (Feature V) → Option (Feature V)
  find_feature name [] = none
  find_feature name (f ∷ fs) = if f.name ==ₛ name then some f else find_feature name fs

  abbrev pub by_name : FeatureSpec V → String → Option (Feature V)
  by_name spec name = find_feature name (all_features spec)

  abbrev pub is_named : String → List (Feature V) → Bool
  is_named name = any_of (λ f. f.name ==ₛ name)

  -- Whether `names.count(n) > 1` for some name.
  abbrev pub has_duplicates : List (Feature V) → Bool
  has_duplicates [] = false
  has_duplicates (f ∷ fs) = is_named f.name fs || has_duplicates fs

  -- `load_feature_spec`, from the entries that were read and expanded
  unfoldable pub load_feature_spec : List (Feature V) → List (Feature V) → Outcome (FeatureSpec V)
  load_feature_spec batch realtime =
      raise_if (has_duplicates (batch ++ realtime)) value_error
      >> ok (record { batch_features = batch; realtime_features = realtime })

  -- `validate_columns` of the batch features
  abbrev pub validate_columns : FeatureSpec V → List String → List String
  validate_columns spec columns =
      keep_if (λ name. not (any_of (λ c. c ==ₛ name) columns))
        (map (λ (f : Feature V). f.name) spec.batch_features)
