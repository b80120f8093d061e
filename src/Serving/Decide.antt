-- ===== src/Serving/Decide.antt =====
-- decide_input.py, trigger_engine.py and compatibility.py: a user's row for the model, and the
-- decision on its score.
pub mod Row
pub mod Voucher
use lzd.Common.{
  ℕ, zero, suc, ◌+◌, ◌-◌, ◌≡◌, Bool, true, false, ◌&&◌, ◌||◌, not, List, [], ◌∷◌, ◌++◌, map, Option,
  none, some, String, ◌==ₛ◌, if◌then◌else◌, any_of, keep_if, count_if, length,
}
use lzd.Common.Outcome.{Outcome, ok, err, context_error, raise_if}
use lzd.Common.Dict.{Dict, get, set, has_key}
use lzd.Features.Spec.{Values, Feature, FeatureSpec, cast, all_features, is_named}

-- `check_context`
unfoldable pub check_context : {V : Type 0} → FeatureSpec V → Dict V → Outcome (Unit {0})
check_context spec context =
    raise_if (any_of (λ c. not (is_named c.0 (all_features spec))) context) context_error

abbrev pub first_of {ℓ} : {V : Type ℓ} → Option V → Option V → Option V
first_of none w = w
first_of (some v) w = some v

-- `set(model_feature_order)` as a list
abbrev distinct_names : List String → List String
distinct_names [] = []
distinct_names (n ∷ ns) =
    if any_of (λ m. m ==ₛ n) ns then distinct_names ns else n ∷ distinct_names ns

abbrev pub wanted : List String → List String
wanted = distinct_names

pub record ModelRow (V : Type 0) : Type 0 where
  pub row : Dict V
  pub missing : ℕ
  pub supplied : ℕ
  pub realtime_applied : ℕ

module _ {V : Type 0} (values : Values V) where
  -- The raw value of a feature: the context's, else the realtime one, else the batch one.
  abbrev pub raw_of : Dict V → Dict V → Dict V → String → Option V
  raw_of context realtime batch name =
      first_of (get name context) (first_of (get name realtime) (get name batch))

  abbrev pub put_feature : Feature V → Option V → Dict V → Dict V
  unfolding cast
  put_feature f none row = row
  put_feature f (some raw) row =
      if values.is_blank raw then row else set f.name (cast values f (some raw)) row

  -- The loop of `build_model_row`.
  unfoldable pub fill_row : Dict V → Dict V → Dict V → List (Feature V) → Dict V → Dict V
  unfolding put_feature
  fill_row context realtime batch [] row = row
  fill_row context realtime batch (f ∷ fs) row =
      fill_row context realtime batch fs (put_feature f (raw_of context realtime batch f.name) row)

  -- `build_model_row`; `is_rt` is `name.startswith("rt_")`.
  unfoldable pub build_model_row :
      (String → Bool) → FeatureSpec V → List String → Dict V → Dict V → Dict V → ModelRow V
  unfolding fill_row
  build_model_row is_rt spec model_feature_order batch realtime context =
      let row = fill_row context realtime batch (all_features spec) [] in
      let names = wanted model_feature_order in
      let missing = count_if (λ name. not (has_key name row)) names in
      record {
        row = row;
        missing = missing;
        supplied = length names - missing;
        realtime_applied = count_if (λ e. is_rt e.0 && any_of (λ n. n ==ₛ e.0) names) row;
      }

pub data VoucherDecision : Type 0 where
  no_decision send_voucher no_voucher : VoucherDecision

-- `determine_voucher_code`; `at_least s t` is `s >= t`, and the code of the voucher goes with the
-- decision.
unfoldable pub determine_voucher_code :
    {Score : Type 0} → (Score → Score → Bool) → Option Score → Score → VoucherDecision × String
determine_voucher_code at_least none threshold = (no_decision, "no_voucher")
determine_voucher_code at_least (some s) threshold =
    if at_least s threshold then (send_voucher, "voucher_30") else (no_voucher, "no_voucher")

-- What the trigger engine asks of the model; `none` is a prediction that raised.
pub record Model (V : Type 0) (Score : Type 0) : Type 0 where
  pub is_configured : Bool
  pub feature_order : List String
  pub predict_uplift : Dict V → Option Score

-- `TriggerEngine.evaluate_user`, from what the store gave
unfoldable pub evaluate_user :
    {V : Type 0} {Score : Type 0}
    → Values V
    → (String → Bool)
    → FeatureSpec V
    → Model V Score
    → (Score → Score → Bool)
    → Score
    → Dict V
    → Dict V
    → Dict V
    → VoucherDecision × String
unfolding build_model_row determine_voucher_code
evaluate_user values is_rt spec model at_least threshold batch realtime context =
    let built = build_model_row values is_rt spec model.feature_order batch realtime context in
    determine_voucher_code at_least
      (if not model.is_configured then none else model.predict_uplift built.row) threshold
