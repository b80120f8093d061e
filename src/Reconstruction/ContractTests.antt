-- ===== src/Reconstruction/ContractTests.antt =====
-- Tests of encodings, feature sets and targets, and their results at concrete inputs.
use lzd.Common.{
  ℕ, ◌≡◌, ◌≢◌, refl, ◌↔◌, inl, inr, Bool, true, false, List, [], ◌∷◌, none, some, String, ◌==ₛ◌,
  if◌then◌else◌, any_of, text_eq_iff,
}
use lzd.Common.Outcome.{ok, err, tamper_detected}
use lzd.Common.Dict.{Dict, set}
use lzd.Common.Sorting.{sort_by}
use lzd.Reconstruction.Hashing.{Hashing, Part, text}
use lzd.Reconstruction.Encoding.{
  Bits, ValueEncoding, by_value, one_hot, fit_value_encoding, assert_bijective, assert_round_trip,
}
use lzd.Reconstruction.Encoding.Fitted.{fit_value_encoding-passes}
use lzd.Reconstruction.Encoding.OneHot.{one_hot-passes}
use lzd.Reconstruction.FeatureSet.{FeatureSet, SourceAttribute, columns, validate_set}
use lzd.Reconstruction.FeatureSet.Contract.{IsContract, validate_set-IsContract}
use lzd.Reconstruction.Semantics.{h1}
use lzd.Reconstruction.Target.{
  Moment, Target, validate_scope, canonical_feature_payload, hash_target, new_target, expected_hash,
  verify_target, build_target,
}
use lzd.Reconstruction.Target.Tamper.{IsBuilt, build_target-IsBuilt, verify_target-tamper}
use lzd.Reconstruction.Target.Config.{
  pos, SolverConfig, unidentified, IsAllowed, check_config, check_config-IsAllowed,
}

-- Numbers are their texts.
abbrev same_text : String → String
same_text s = s

abbrev bits : Bits String
bits = record { one = "1"; zero = "0"; is_one = λ s. s ==ₛ "1" }

abbrev rows : List (Dict String)
rows = (("f37", "2") ∷ []) ∷ (("f37", "1") ∷ []) ∷ (("f37", "2") ∷ []) ∷ []

fit_value_encoding-passes_example :
    (enc : ValueEncoding String) × (fit_value_encoding same_text ("f37" ∷ []) rows ≡ ok enc)
    × (assert_bijective same_text bits (set "f37" (by_value enc) []) "f37" ≡ ok tt)
    × (assert_round_trip same_text bits (set "f37" (by_value enc) []) "f37" rows ≡ ok tt)
fit_value_encoding-passes_example =
    fit_value_encoding-passes same_text bits ("f37" ∷ []) (refl, tt) rows [] "f37"
      (("2" ∷ [], refl), (("1" ∷ [], refl), (("2" ∷ [], refl), tt)))

abbrev group : List String
group = "f43" ∷ "f44" ∷ "f45" ∷ []

one_hot-passes_example :
    assert_bijective same_text bits (("group", one_hot group) ∷ []) "group" ≡ ok tt
one_hot-passes_example =
    one_hot-passes bits refl refl same_text group (refl, (refl, (refl, tt)))
      (("group", one_hot group) ∷ []) "group" refl

abbrev segment : SourceAttribute
segment = record {
  levels = 2;
  is_one_hot = true;
  outputs = "f37" ∷ "f38" ∷ [];
  selected = "f37" ∷ [];
}

abbrev small_set : FeatureSet
small_set = record {
  id = "fs";
  split_allowed = "train";
  expected_column_count = 2;
  tiers = ("T1", "f5" ∷ []) ∷ ("T2", "f37" ∷ []) ∷ ("T3", []) ∷ [];
  regimes = ("LOG10", "f5" ∷ []) ∷ ("CAT", "f37" ∷ []) ∷ [];
  source_attributes = ("segment", segment) ∷ [];
  intermediate_only = "f38" ∷ [];
}

validate_set-IsContract_example : IsContract small_set
unfolding validate_set sort_by columns
validate_set-IsContract_example = validate_set-IsContract small_set refl

-- A hash that tells a record with the text 4 from the others.
abbrev is_four : Part → Bool
is_four (text s) = s ==ₛ "4"
is_four _ = false

abbrev hashing : Hashing
hashing = record {
  sha256 = λ parts. if any_of is_four parts then 1 ∷ [] else 0 ∷ [];
  uuid5 = λ n parts. "id";
}

abbrev moment : Moment
moment = record { isoformat = "2026-08-05T00:00:00+07:00"; has_timezone = true }

abbrev values : Dict String
values = ("f5", "3") ∷ ("f37", "1") ∷ []

abbrev made : Target String
made = record {
  target_id = "t1";
  selected_feature_set_id = "fs";
  feature_version = "v1";
  reference_ts = moment;
  split = "train";
  values = values;
  target_hash = 0 ∷ [];
}

made_built : build_target same_text hashing small_set none "t1" values moment "v1" "train" ≡ ok made
unfolding build_target columns sort_by validate_scope hash_target canonical_feature_payload
    new_target
made_built = refl

build_target-IsBuilt_example : IsBuilt same_text hashing small_set values made
build_target-IsBuilt_example =
    build_target-IsBuilt same_text hashing small_set "t1" values moment "v1" "train" made made_built

abbrev payload : List Part
payload = text "f37" ∷ text "1" ∷ text "f5" ∷ text "3" ∷ []

abbrev changed_payload : List Part
changed_payload = text "f37" ∷ text "1" ∷ text "f5" ∷ text "4" ∷ []

abbrev changed : Dict String
changed = ("f5", "4") ∷ ("f37", "1") ∷ []

abbrev three : String
three = "3"

abbrev four : String
four = "4"

differ : three ≢ four
differ e = refute ((text_eq_iff three four).1 e)
  where
    refute : false ≡ true → ⊥
    refute h = cc

no_collision : (xs ys : List Part) → Path (List ℕ) (0 ∷ []) (1 ∷ []) → xs ≡ ys
no_collision xs ys e = cc

verify_target-tamper_example :
    verify_target same_text hashing small_set (record made { values = changed })
    ≡ err tamper_detected
unfolding columns sort_by verify_target expected_hash hash_target canonical_feature_payload
verify_target-tamper_example =
    verify_target-tamper same_text hashing small_set made changed payload changed_payload "f5" "3"
      "4" refl refl refl (inr (inl refl)) refl refl differ (no_collision _ _)

abbrev scenario : SolverConfig
scenario = record {
  semantic_branch = some h1;
  semantic_status = unidentified;
  constraint_model_version = "c1";
  encoding_version = "e1";
  objective_version = "o1";
  selection_policy_version = "p1";
  solver_version = "s1";
  generation_seed = pos 5;
  max_repair_rounds = pos 8;
}

check_config-IsAllowed_example : (check_config scenario ≡ ok tt) ↔ IsAllowed scenario
check_config-IsAllowed_example = check_config-IsAllowed scenario
