-- ===== src/Reconstruction/FeatureSet.antt =====
-- feature_set.py: the selected feature set, and what is checked of it when it is loaded. A set of columns is a list, of which
-- only the membership is used.
pub mod Contract
use lzd.Common.{
  ℕ, Bool, true, false, ◌&&◌, ◌||◌, not, List, [], ◌∷◌, ◌++◌, ltb, ◌==◌, if◌then◌else◌, Option,
  none, some, String, ◌==ₛ◌, length, any_of, all_of, flat_map,
}
use Prim.Native.Nat.{Ordering}
use Prim.Native.String.{compare}
use lzd.Common.Outcome.{Outcome, ok, err, value_error, key_error, raise_if, ◌>>=◌, ◌>>◌}
use lzd.Common.Dict.{Dict, get}
use lzd.Common.Sorting.{sort_by}

pub record SourceAttribute : Type 0 where
  pub levels : ℕ
  pub is_one_hot : Bool
  pub outputs : List String
  pub selected : List String

pub record FeatureSet : Type 0 where
  pub id : String
  pub split_allowed : String
  pub expected_column_count : ℕ
  pub tiers : Dict (List String)
  pub regimes : Dict (List String)
  pub source_attributes : Dict SourceAttribute
  pub intermediate_only : List String

-- `c in columns`
abbrev pub has : String → List String → Bool
has c = any_of (λ e. e ==ₛ c)

-- `set(xs) <= set(ys)` and `set(xs) & set(ys)`
abbrev pub is_subset : List String → List String → Bool
is_subset xs ys = all_of (λ x. has x ys) xs

abbrev pub overlaps : List String → List String → Bool
overlaps xs ys = any_of (λ x. has x ys) xs

-- `SourceAttribute.__post_init__`
unfoldable pub check_attribute : SourceAttribute → Outcome (Unit {0})
check_attribute a = do
  raise_if (not (is_subset a.selected a.outputs)) value_error
  raise_if (ltb a.levels (length a.outputs) && a.is_one_hot) value_error
  ok tt

abbrev pub text_le : String → String → Bool
text_le s t = elim (compare s t) [ Ordering.gt ↦ false | _ ↦ true ]

-- All columns of a dict of columns.
abbrev pub all_columns : Dict (List String) → List String
all_columns = flat_map (λ (e : String × List String). e.1)

-- `columns`
unfoldable pub columns : FeatureSet → List String
unfolding sort_by
columns fs = sort_by text_le (all_columns fs.tiers)

-- The first name whose columns have the column; both `tier_of` and `regime_of` are this loop.
abbrev pub owner_of : String → Dict (List String) → Outcome String
owner_of c [] = err key_error
owner_of c ((name, cols) ∷ d) = if has c cols then ok name else owner_of c d

abbrev pub tier_of : FeatureSet → String → Outcome String
tier_of fs c = owner_of c fs.tiers

abbrev pub regime_of : FeatureSet → String → Outcome String
regime_of fs c = owner_of c fs.regimes

-- The loop over the tiers in `_validate`.
abbrev pub check_tiers : Dict (List String) → List String → Outcome (Unit {0})
check_tiers [] seen = ok tt
check_tiers ((tier, cols) ∷ d) seen =
    raise_if (overlaps cols seen) value_error >> check_tiers d (cols ++ seen)

-- `for attr in fs.source_attributes.values()`
abbrev pub check_each : (SourceAttribute → Bool) → Dict SourceAttribute → Outcome (Unit {0})
check_each bad [] = ok tt
check_each bad ((name, a) ∷ d) = raise_if (bad a) value_error >> check_each bad d

abbrev pub columns_of : String → FeatureSet → Outcome (List String)
columns_of tier fs = elim (get tier fs.tiers) [ none ↦ err key_error | some cols ↦ ok cols ]

-- `_validate`
unfoldable pub validate_set : FeatureSet → Outcome (Unit {0})
unfolding columns
validate_set fs = do
  check_tiers fs.tiers []
  raise_if
      (not (
        is_subset (all_columns fs.regimes) (columns fs)
        && is_subset (columns fs) (all_columns fs.regimes)))
      value_error
  t2 ← columns_of "T2" fs
  check_each (λ a. not (is_subset a.selected t2)) fs.source_attributes
  raise_if (overlaps fs.intermediate_only (columns fs)) value_error
  check_each (λ a. not (all_of (λ c. has c (columns fs) || has c fs.intermediate_only) a.outputs))
      fs.source_attributes
  raise_if (not (length (columns fs) == fs.expected_column_count)) value_error
  ok tt
