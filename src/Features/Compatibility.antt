-- ===== src/Features/Compatibility.antt =====
-- compatibility.py: whether a model fits the features that are served.
use lzd.Common.{
  ◌≡◌, refl, sym, ap, ◌∙◌, ◌↔◌, inl, inr, Bool, true, false, List, [], ◌∷◌, ◌++◌, Option, none,
  some, String, ◌==ₛ◌, any_of, all_of, In, Bool-cases, text_eq_iff,
}
use lzd.Common.Membership.{In-any_of, all_of-In, In-all_of}
use lzd.Common.Dict.{Dict, get}
use lzd.Features.Spec.{Feature, FeatureSpec, all_features, is_named}

-- `REALTIME_SEMANTICS_VERSION`
abbrev pub realtime_semantics : String
realtime_semantics = "event_time_5m_1h_dedup_v1"

pub data Mismatch : Type 0 where
  features_missing spec_version_differs status_spec_version status_schema_hash : Mismatch
  model_semantics status_semantics no_realtime_feature : Mismatch

-- What a model declares.
pub record ModelContract : Type 0 where
  pub model_features : List String
  pub feature_spec_version : String
  pub realtime_semantics_version : String
  pub requires_realtime : Bool

-- The name of the contract that is served, with its hash (`feature_schema_hash`, by SHA-256).
pub record Contract (V : Type 0) : Type 0 where
  pub spec : FeatureSpec V
  pub spec_version : String
  pub schema_hash : String

-- `status.get(key) == value`
abbrev pub status_is : Dict String → String → String → Bool
status_is status key value = elim (get key status) [ none ↦ false | some v ↦ v ==ₛ value ]

-- `if not test: reasons.append(reason)`
abbrev pub unless : Bool → Mismatch → List Mismatch
unless true m = []
unless false m = m ∷ []

module _ {V : Type 0} where
  abbrev pub has_all : Contract V → ModelContract → Bool
  has_all c m = all_of (λ name. is_named name (all_features c.spec)) m.model_features

  abbrev pub has_realtime : Contract V → ModelContract → Bool
  has_realtime c m = any_of (λ name. is_named name c.spec.realtime_features) m.model_features

  abbrev pub realtime_reasons : Bool → Contract V → ModelContract → Dict String → List Mismatch
  realtime_reasons false c m status = []
  realtime_reasons true c m status =
      unless (m.realtime_semantics_version ==ₛ realtime_semantics) model_semantics
      ++ (unless (status_is status "realtime_semantics_version" realtime_semantics) status_semantics
          ++ unless (has_realtime c m) no_realtime_feature)

  -- The reasons of `check_model_feature_compatibility`; the report is compatible if there is none.
  unfoldable pub check_model_feature_compatibility :
      Contract V → ModelContract → Dict String → List Mismatch
  check_model_feature_compatibility c m status =
      unless (has_all c m) features_missing
      ++ (unless (m.feature_spec_version ==ₛ c.spec_version) spec_version_differs
          ++ (unless (status_is status "feature_spec_version" c.spec_version) status_spec_version
              ++ (unless (status_is status "schema_hash" c.schema_hash) status_schema_hash
                  ++ realtime_reasons m.requires_realtime c m status)))

  -- The name of some feature of the list.
  abbrev pub Names : String → List (Feature V) → Type 0
  Names name fs = (f : Feature V) × In f fs × (f.name ≡ name)

  -- The meaning of realtime features that the model and the active version agree on, and one that
  -- the model uses.
  abbrev pub RealtimeCompatible : Contract V → ModelContract → Dict String → Type 0
  RealtimeCompatible c m status =
      (m.realtime_semantics_version ≡ realtime_semantics)
      × (get "realtime_semantics_version" status ≡ some realtime_semantics)
      × ((name : String) × In name m.model_features × Names name c.spec.realtime_features)

  -- What a compatible model has.
  abbrev pub Compatible : Contract V → ModelContract → Dict String → Type 0
  Compatible c m status =
      ((name : String) → In name m.model_features → Names name (all_features c.spec))
      × (m.feature_spec_version ≡ c.spec_version)
      × (get "feature_spec_version" status ≡ some c.spec_version)
      × (get "schema_hash" status ≡ some c.schema_hash)
      × (m.requires_realtime ≡ true → RealtimeCompatible c m status)

unless-append :
    (b : Bool) (m : Mismatch) (ms : List Mismatch)
    → (unless b m ++ ms) ≡ []
    → (b ≡ true) × (ms ≡ [])
unless-append true m ms h = (refl, h)
unless-append false m ms h = cc

unless-nil : (b : Bool) (m : Mismatch) → unless b m ≡ [] → b ≡ true
unless-nil true m h = refl
unless-nil false m h = cc

status_is_iff :
    (status : Dict String) (key value : String)
    → (status_is status key value ≡ true) ↔ (get key status ≡ some value)
status_is_iff status key value = by_entry (get key status)
  where
    by_entry :
        (o : Option String)
        → (elim o [ none ↦ false | some v ↦ v ==ₛ value ] ≡ true) ↔ (o ≡ some value)
    by_entry none = (λ h. cc, λ h. cc)
    by_entry (some v) =
        (λ h. ap some ((text_eq_iff v value).0 h), λ h. (text_eq_iff v value).1 (inner h))
      where
        inner : some v ≡ some value → v ≡ value
        inner h = cc h

any_of-witness :
    {A : Type 0} (p : A → Bool) (xs : List A)
    → any_of p xs ≡ true
    → (a : A) × In a xs × (p a ≡ true)
any_of-witness p [] h = cc
any_of-witness p (x ∷ xs) h = elim (Bool-cases (p x)) [
  | inl e ↦ (x, inl refl, e)
  | inr e ↦ let (a, i, q) = any_of-witness p xs (rw e at h) in (a, inr i, q)
]

module _ {V : Type 0} where
  is_named-Names : (name : String) (fs : List (Feature V)) → is_named name fs ≡ true → Names name fs
  is_named-Names name fs h =
      let (f, i, e) = any_of-witness (λ (f : Feature V). f.name ==ₛ name) fs h in
      (f, i, (text_eq_iff f.name name).0 e)

  Names-is_named : (name : String) (fs : List (Feature V)) → Names name fs → is_named name fs ≡ true
  Names-is_named name fs (f, i, e) =
      In-any_of (λ (f : Feature V). f.name ==ₛ name) f fs i ((text_eq_iff f.name name).1 e)

  realtime-Compatible :
      (c : Contract V) (m : ModelContract) (status : Dict String)
      → realtime_reasons true c m status ≡ []
      → RealtimeCompatible c m status
  realtime-Compatible c m status k =
      let (a, k1) =
        unless-append (m.realtime_semantics_version ==ₛ realtime_semantics) model_semantics _ k in
      let (b, k2) =
        unless-append (status_is status "realtime_semantics_version" realtime_semantics)
          status_semantics _ k1 in
      let (name, i, e) =
        any_of-witness (λ name. is_named name c.spec.realtime_features) m.model_features
          (unless-nil (has_realtime c m) no_realtime_feature k2) in
      (
        (text_eq_iff _ _).0 a,
        (status_is_iff status "realtime_semantics_version" realtime_semantics).0 b,
        (name, i, is_named-Names name c.spec.realtime_features e),
      )

  Compatible-realtime :
      (c : Contract V) (m : ModelContract) (status : Dict String)
      → RealtimeCompatible c m status
      → realtime_reasons true c m status ≡ []
  Compatible-realtime c m status (a, b, (name, i, n)) =
      rw
        (
          (text_eq_iff m.realtime_semantics_version realtime_semantics).1 a,
          (status_is_iff status "realtime_semantics_version" realtime_semantics).1 b,
          In-any_of (λ name. is_named name c.spec.realtime_features) name m.model_features i
              (Names-is_named name c.spec.realtime_features n),
        )
        refl

  -- A report has no reason exactly when every feature of the model is the name of a feature of the
  -- contract, the model's contract is the one that is served, the active version has its name and
  -- the hash of its schema, and, if the model needs realtime features, both agree with the code on
  -- their meaning and the model uses one.
  pub check_model_feature_compatibility_iff :
      (c : Contract V) (m : ModelContract) (status : Dict String)
      → (check_model_feature_compatibility c m status ≡ []) ↔ Compatible c m status
  unfolding check_model_feature_compatibility
  check_model_feature_compatibility_iff c m status = (sound, complete)
    where
      sound : check_model_feature_compatibility c m status ≡ [] → Compatible c m status
      sound h =
          let (a, h1) = unless-append (has_all c m) features_missing _ h in
          let (b, h2) =
            unless-append (m.feature_spec_version ==ₛ c.spec_version) spec_version_differs _ h1 in
          let (d, h3) =
            unless-append (status_is status "feature_spec_version" c.spec_version)
              status_spec_version _ h2 in
          let (e, h4) =
            unless-append (status_is status "schema_hash" c.schema_hash) status_schema_hash _ h3 in
          (
            λ name i.
                is_named-Names name (all_features c.spec) (
                  all_of-In (λ name. is_named name (all_features c.spec)) name m.model_features a
                    i),
            (text_eq_iff _ _).0 b,
            (status_is_iff status "feature_spec_version" c.spec_version).0 d,
            (status_is_iff status "schema_hash" c.schema_hash).0 e,
            λ r.
                realtime-Compatible c m status
                  (ap (λ x. realtime_reasons x c m status) (sym r) ∙ h4),
          )

      by_need :
          (b : Bool)
          → (b ≡ true → RealtimeCompatible c m status)
          → realtime_reasons b c m status ≡ []
      by_need false f = refl
      by_need true f = Compatible-realtime c m status (f refl)

      complete : Compatible c m status → check_model_feature_compatibility c m status ≡ []
      complete (names, b, d, e, r) =
          rw
            (
              In-all_of (λ name. is_named name (all_features c.spec)) m.model_features
                  (λ name i. Names-is_named name (all_features c.spec) (names name i)),
              (text_eq_iff m.feature_spec_version c.spec_version).1 b,
              (status_is_iff status "feature_spec_version" c.spec_version).1 d,
              (status_is_iff status "schema_hash" c.schema_hash).1 e,
            )
            (by_need m.requires_realtime r)
