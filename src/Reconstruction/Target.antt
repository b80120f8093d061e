-- ===== src/Reconstruction/Target.antt =====
-- target.py and canonical.py: targets, their canonical form and hash, and the configuration of the solver.
pub mod Tamper
pub mod Config
use lzd.Common.{
  ℕ, Bool, true, false, ◌&&◌, ◌||◌, not, List, [], ◌∷◌, ◌++◌, map, ◌==◌, ltb, if◌then◌else◌, Option,
  none, some, String, ◌==ₛ◌, all_of, any_of,
}
use lzd.Common.Outcome.{
  Outcome, ok, err, value_error, leakage_violation, scope_violation, tamper_detected, raise_if,
  ◌>>=◌, ◌>>◌,
}
use lzd.Common.Dict.{Dict, get}
use lzd.Reconstruction.Hashing.{Hashing, Part, text, number}
use lzd.Reconstruction.Encoding.{or_key_error}
use lzd.Reconstruction.FeatureSet.{FeatureSet, has, is_subset, overlaps, columns}

-- A datetime: its ISO text, and whether it has a timezone.
pub record Moment : Type 0 where
  pub isoformat : String
  pub has_timezone : Bool

pub record Target (N : Type 0) : Type 0 where
  pub target_id : String
  pub selected_feature_set_id : String
  pub feature_version : String
  pub reference_ts : Moment
  pub split : String
  pub values : Dict N
  pub target_hash : List ℕ

-- `FORBIDDEN_KEYS`
abbrev pub forbidden_keys : List String
forbidden_keys = "label" ∷ "is_treat" ∷ []

abbrev pub keys : {N : Type 0} → Dict N → List String
keys = map (λ e. e.0)

-- `validate_scope`
unfoldable pub validate_scope : {N : Type 0} → Dict N → FeatureSet → Outcome (Unit {0})
unfolding columns
validate_scope values fs = do
  raise_if (overlaps forbidden_keys (keys values)) leakage_violation
  raise_if (not (is_subset (keys values) (columns fs) && is_subset (columns fs) (keys values)))
      scope_violation
  ok tt

abbrev pub same_digest : List ℕ → List ℕ → Bool
same_digest [] [] = true
same_digest [] (_ ∷ _) = false
same_digest (_ ∷ _) [] = false
same_digest (a ∷ xs) (b ∷ ys) = (a == b) && same_digest xs ys

module _ {N : Type 0} (float_repr : N → String) (h : Hashing) where
  -- The pairs `{c}={float_repr(values[c])}`.
  abbrev pub pairs : List String → Dict N → Outcome (List Part)
  pairs [] values = ok []
  pairs (c ∷ cs) values = or_key_error (get c values) >>= λ v.
      pairs cs values >>= λ ps. ok (text c ∷ text (float_repr v) ∷ ps)

  -- `canonical_feature_payload`
  unfoldable pub canonical_feature_payload : Dict N → List String → Outcome (List Part)
  canonical_feature_payload values cs =
      raise_if (not (is_subset cs (keys values))) value_error >> pairs cs values

  -- `canonical_target_record`
  abbrev pub canonical_target_record : String → String → Moment → List Part → List Part
  canonical_target_record set_id version ts payload =
      text set_id ∷ text version ∷ text ts.isoformat ∷ payload

  -- `feature_payload_hash`
  unfoldable pub feature_payload_hash : Dict N → List String → Outcome (List ℕ)
  unfolding canonical_feature_payload
  feature_payload_hash values cs =
      canonical_feature_payload values cs >>= λ payload. ok (h.sha256 payload)

  -- `target_hash`
  unfoldable pub hash_target : Dict N → List String → String → String → Moment → Outcome (List ℕ)
  unfolding canonical_feature_payload
  hash_target values cs set_id version ts = canonical_feature_payload values cs >>= λ payload.
      ok (h.sha256 (canonical_target_record set_id version ts payload))

  -- `ReconstructionTarget(...)` with the checks of `__post_init__`, against the feature set that is loaded.
  unfoldable pub new_target : FeatureSet → Target N → Outcome (Target N)
  unfolding validate_scope
  new_target loaded t = do
    raise_if (not (t.selected_feature_set_id ==ₛ loaded.id)) scope_violation
    validate_scope t.values loaded
    raise_if (not (t.split ==ₛ loaded.split_allowed)) value_error
    raise_if (not t.reference_ts.has_timezone) value_error
    ok t

  -- `expected_hash`
  unfoldable pub expected_hash : FeatureSet → Target N → Outcome (List ℕ)
  unfolding hash_target columns
  expected_hash fs t =
      hash_target t.values (columns fs) t.selected_feature_set_id t.feature_version t.reference_ts

  -- `verify`
  unfoldable pub verify_target : FeatureSet → Target N → Outcome (Unit {0})
  unfolding expected_hash
  verify_target fs t = do
    actual ← expected_hash fs t
    raise_if (not (same_digest actual t.target_hash)) tamper_detected
    ok tt

  abbrev pub or_loaded : Option FeatureSet → FeatureSet → FeatureSet
  or_loaded none loaded = loaded
  or_loaded (some fs) loaded = fs

  -- `build_target`
  unfoldable pub build_target :
      FeatureSet
      → Option FeatureSet
      → String
      → Dict N
      → Moment
      → String
      → String
      → Outcome (Target N)
  unfolding validate_scope hash_target new_target columns
  build_target loaded given target_id values ts version split = do
    let fs = or_loaded given loaded
    validate_scope values fs
    digest ← hash_target values (columns fs) fs.id version ts
    new_target loaded (record {
      target_id = target_id;
      selected_feature_set_id = fs.id;
      feature_version = version;
      reference_ts = ts;
      split = split;
      values = values;
      target_hash = digest;
    })
