-- ===== src/Serving/Tests.antt =====
-- Tests of the serving path and of the feature contract, and the results at concrete inputs.
use lzd.Common.{
  ℕ, suc, ◌+◌, ◌≡◌, refl, ap, ◌↔◌, ◌⊎◌, inl, inr, Bool, true, false, ◌&&◌, not, List, [], ◌∷◌,
  Option, none, some, String, ◌==ₛ◌, leb, In, keep_if, any_of, sum_of, count_if, arith, Bool-cases,
  text_eq_iff,
}
use lzd.Common.Outcome.{ok}
use lzd.Common.Dict.{Dict, get, has_key}
use lzd.Features.Spec.{
  Values, Feature, FeatureSpec, float, cast, absent, merge, load_feature_spec, all_features,
  is_named,
}
use lzd.Features.Spec.Merge.{merge-by_source}
use lzd.Features.Compatibility.{
  Contract, ModelContract, Compatible, check_model_feature_compatibility,
  check_model_feature_compatibility_iff,
}
use lzd.Features.Versions.{
  Redis, Keyspace, RedisLaws, member, in_keep_set, keep_or, gc_old_versions,
}
use lzd.Features.Versions.Collected.{goes_with, gc_old_versions-removes}
use lzd.Serving.Decide.{build_model_row, raw_of, wanted, Model, evaluate_user, send_voucher}
use lzd.Serving.Decide.Row.{entry, build_model_row-entries}
use lzd.Serving.Decide.Voucher.{evaluate_user-sends}
use lzd.Serving.Deployment.{
  Outside, Disk, Ends, deploy_production_alias, deploy_production_alias-safe,
}

abbrev numbers : Values ℕ
numbers = record {
  to_float = λ v. some v;
  to_int = λ v. some v;
  to_str = λ v. some v;
  is_blank = λ v. false;
}

abbrev orders : Feature ℕ
orders = record { name = "f1"; dtype = float; default = 0 }

abbrev views : Feature ℕ
views = record { name = "rt_views"; dtype = float; default = 0 }

abbrev contract : FeatureSpec ℕ
contract = record { batch_features = orders ∷ []; realtime_features = views ∷ [] }

contract_loaded : load_feature_spec (orders ∷ []) (views ∷ []) ≡ ok contract
unfolding load_feature_spec
contract_loaded = refl

abbrev batch : Dict ℕ
batch = ("f1", 172) ∷ []

abbrev realtime : Dict ℕ
realtime = ("rt_views", 3) ∷ []

merged : merge numbers contract batch [] ≡ (("f1", 172) ∷ ("rt_views", 0) ∷ [], 1)
unfolding merge
merged = refl

merge-by_source_example :
    ((f : Feature ℕ)
      → In f contract.batch_features
      → get f.name (merge numbers contract batch realtime).0
        ≡ some (cast numbers f (get f.name batch)))
    × ((f : Feature ℕ)
        → In f contract.realtime_features
        → get f.name (merge numbers contract batch realtime).0
          ≡ some (cast numbers f (get f.name realtime)))
    × ((merge numbers contract batch realtime).1
        ≡ sum_of (λ f. absent numbers (get f.name batch)) contract.batch_features
          + sum_of (λ f. absent numbers (get f.name realtime)) contract.realtime_features)
merge-by_source_example =
    merge-by_source numbers (orders ∷ []) (views ∷ []) contract batch realtime contract_loaded

abbrev is_rt : String → Bool
is_rt name = name ==ₛ "rt_views"

abbrev order : List String
order = "f1" ∷ "f2" ∷ []

build_model_row-entries_example :
    ((f : Feature ℕ)
      → In f (all_features contract)
      → get f.name (build_model_row numbers is_rt contract order batch realtime []).row
        ≡ entry numbers f (raw_of numbers [] realtime batch f.name))
    × ((name : String)
        → is_named name (all_features contract) ≡ false
        → get name (build_model_row numbers is_rt contract order batch realtime []).row ≡ none)
    × ((build_model_row numbers is_rt contract order batch realtime []).supplied
        ≡ count_if
            (λ name.
              has_key name (build_model_row numbers is_rt contract order batch realtime []).row)
            (wanted order))
build_model_row-entries_example =
    build_model_row-entries numbers is_rt (orders ∷ []) (views ∷ []) contract order batch realtime
      [] contract_loaded

abbrev model : Model ℕ ℕ
model = record { is_configured = true; feature_order = order; predict_uplift = λ row. get "f1" row }

abbrev at_least : ℕ → ℕ → Bool
at_least s t = leb t s

evaluate_user-sends_example :
    ((evaluate_user numbers is_rt contract model at_least 100 batch realtime []).0 ≡ send_voucher)
    ↔ ((model.is_configured ≡ true)
        × ((s : ℕ) × (model.predict_uplift
                (build_model_row numbers is_rt contract model.feature_order batch realtime []).row
              ≡ some s)
            × (at_least s 100 ≡ true)))
evaluate_user-sends_example =
    evaluate_user-sends at_least 100 numbers is_rt contract model batch realtime []

abbrev served : Contract ℕ
served = record { spec = contract; spec_version = "fs1"; schema_hash = "abc" }

abbrev declared : ModelContract
declared = record {
  model_features = "f1" ∷ [];
  feature_spec_version = "fs1";
  realtime_semantics_version = "";
  requires_realtime = false;
}

abbrev status : Dict String
status = ("feature_spec_version", "fs1") ∷ ("schema_hash", "abc") ∷ []

no_mismatch : check_model_feature_compatibility served declared status ≡ []
unfolding check_model_feature_compatibility
no_mismatch = refl

check_model_feature_compatibility_iff_example :
    (check_model_feature_compatibility served declared status ≡ [])
    ↔ Compatible served declared status
check_model_feature_compatibility_iff_example =
    check_model_feature_compatibility_iff served declared status

abbrev outside : Outside ℕ
outside = record {
  download = ok (record { version = "m2"; contract = declared });
  reload_existing = λ v. ok tt;
  active_feature_version = some "v1";
  served = served;
  active_status = status;
  has_reload_url = true;
  has_token = true;
  notify_reload = ok (some "m1");
}

abbrev disk : Disk
disk = record { versions = "m1" ∷ []; active = some "m1" }

-- The API reports the old model, so the link is put back.
deploy_production_alias-safe_example : Ends outside disk (deploy_production_alias outside disk)
deploy_production_alias-safe_example = deploy_production_alias-safe outside disk

-- The versions, and the keys that are there; the pattern of a version matches its own name.
record Keys : Type 0 where
  active : Option String
  versions : List String
  live : List String

abbrev without : List String → List String → List String
without keys live = keep_if (λ key. not (member key keys)) live

abbrev key_redis : Redis
key_redis = record {
  Db = Keys;
  get_active = λ d. d.active;
  set_active = λ v d. record d { active = some v };
  zrevrange = λ d. d.versions;
  zadd = λ v d. record d { versions = v ∷ keep_if (λ w. not (w ==ₛ v)) d.versions };
  zrem = λ v d. record d { versions = keep_if (λ w. not (w ==ₛ v)) d.versions };
  set_status = λ v s d. d;
  batch_pattern = λ v. v;
  scan = λ pattern d. keep_if (λ key. key ==ₛ pattern) d.live ∷ [];
  unlink = λ keys d. record d { live = without keys d.live };
  unlink_meta = λ v d. d;
}

abbrev keyspace : Keyspace ℕ key_redis
keyspace = record {
  exists = λ key d. member key d.live;
  value = λ key d. 7;
  matches = λ pattern key. key ==ₛ pattern;
  is_meta = λ v key. false;
}

member-without :
    (key : String) (keys live : List String)
    → member key (without keys live) ≡ (member key live && not (member key keys))
member-without key keys [] = refl
member-without key keys (x ∷ live) = elim (Bool-cases (x ==ₛ key)) [
  | inl e ↦
      let same = ap (λ y. member y keys) ((text_eq_iff x key).0 e) in
      ground (arith, member-without key keys live, same, e)
  | inr e ↦ ground (arith, member-without key keys live, e)
]

member-page :
    (key pattern : String) (live : List String)
    → member key (keep_if (λ k. k ==ₛ pattern) live) ≡ (member key live && (key ==ₛ pattern))
member-page key pattern [] = refl
member-page key pattern (x ∷ live) = elim (Bool-cases (x ==ₛ key)) [
  | inl e ↦
      let same = ap (λ y. y ==ₛ pattern) ((text_eq_iff x key).0 e) in
      ground (arith, member-page key pattern live, same, e)
  | inr e ↦ ground (arith, member-page key pattern live, e)
]

key_redis_laws : RedisLaws key_redis keyspace
key_redis_laws = record {
  active-zrem = λ v d. refl;
  active-unlink = λ keys d. refl;
  active-unlink_meta = λ v d. refl;
  versions-unlink = λ keys d. refl;
  versions-unlink_meta = λ v d. refl;
  versions-zrem = λ v d. refl;
  exists-zrem = λ v key d. refl;
  exists-unlink = λ keys key d. member-without key keys d.live;
  exists-unlink_meta = λ v key d. ground arith;
  value-zrem = λ v key d. refl;
  value-unlink = λ keys key d h. refl;
  value-unlink_meta = λ v key d h. refl;
  scan-matches = λ pattern key d h. ground (arith, member-page key pattern d.live, h);
  scan-complete = λ pattern key d e m. ground (arith, member-page key pattern d.live, e, m);
}

abbrev three_versions : Keys
three_versions = record {
  active = some "v1";
  versions = "v3" ∷ "v2" ∷ "v1" ∷ [];
  live = "v1" ∷ "v2" ∷ "v3" ∷ [];
}

second_removed : (gc_old_versions key_redis 3 (some 1) three_versions).0 ≡ "v2" ∷ []
unfolding gc_old_versions
second_removed = refl

-- To keep 0 versions is to keep the number of the settings.
none_removed : (gc_old_versions key_redis 3 (some 0) three_versions).0 ≡ []
unfolding gc_old_versions
none_removed = refl

abbrev keep_one : Option ℕ
keep_one = some 1

gc_old_versions-removes_example :
    ((n : ℕ) → keep_one ≡ some (suc n) → keep_or keep_one 3 ≡ suc n)
    × ((keep_one ≡ none) ⊎ (keep_one ≡ some 0) → keep_or keep_one 3 ≡ 3)
    × ((gc_old_versions key_redis 3 (some 1) three_versions).0
        ≡ keep_if
            (λ v. not (in_keep_set 1 three_versions.versions three_versions.active v))
            three_versions.versions)
    × ((v : String)
        → member v (gc_old_versions key_redis 3 (some 1) three_versions).1.versions ≡ (
            member v three_versions.versions
            && in_keep_set 1 three_versions.versions three_versions.active v))
    × ((gc_old_versions key_redis 3 (some 1) three_versions).1.active ≡ three_versions.active)
    × ((key : String)
        → keyspace.exists key (gc_old_versions key_redis 3 (some 1) three_versions).1 ≡ (
            keyspace.exists key three_versions
            && not (
                any_of
                  (goes_with keyspace key)
                  (gc_old_versions key_redis 3 (some 1) three_versions).0)))
    × ((key : String)
        → any_of (goes_with keyspace key) (gc_old_versions key_redis 3 (some 1) three_versions).0
          ≡ false
        → keyspace.value key (gc_old_versions key_redis 3 (some 1) three_versions).1
          ≡ keyspace.value key three_versions)
gc_old_versions-removes_example =
    gc_old_versions-removes key_redis keyspace key_redis_laws 3 (some 1) three_versions
