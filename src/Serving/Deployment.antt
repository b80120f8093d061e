-- ===== src/Serving/Deployment.antt =====
-- deployment.py: a model package is staged, verified and activated, or the old one is put back.
use lzd.Common.{
  ◌≡◌, refl, ap, ◌∙◌, ◌⊎◌, inl, inr, Bool, true, false, not, List, [], ◌∷◌, Option, none, some,
  String, ◌==ₛ◌, if◌then◌else◌, any_of, Bool-cases,
}
use lzd.Common.Outcome.{
  Outcome, ok, err, Error, runtime_error, raise_if, ◌>>=◌, ◌>>◌, >>=-eq-ok, raise_if-ok,
  ok-injective,
}
use mathlib.Core.Path.{subst}
use lzd.Common.Dict.{Dict}
use lzd.Features.Compatibility.{
  Contract, ModelContract, Mismatch, Compatible, check_model_feature_compatibility,
  check_model_feature_compatibility_iff,
}

pub record Package : Type 0 where
  pub version : String
  pub contract : ModelContract

-- What the deployment asks of the registry, the files, Redis and the serving API.
pub record Outside (V : Type 0) : Type 0 where
  pub download : Outcome Package
  pub reload_existing : String → Outcome (Unit {0})
  pub active_feature_version : Option String
  pub served : Contract V
  pub active_status : Dict String
  pub has_reload_url : Bool
  pub has_token : Bool
  pub notify_reload : Outcome (Option String)

-- The directory of the versions, and where the link `active` points to.
pub record Disk : Type 0 where
  pub versions : List String
  pub active : Option String

abbrev is_blank_list : List Mismatch → Bool
is_blank_list [] = true
is_blank_list (_ ∷ _) = false

abbrev pub is_version : Option String → String → Bool
is_version none v = false
is_version (some w) v = w ==ₛ v

-- `not version`
abbrev is_absent : Option String → Bool
is_absent none = true
is_absent (some v) = v ==ₛ ""

module _ {V : Type 0} (out : Outside V) where
  -- The checks before the versions are touched.
  unfoldable pub verify : Outcome Package
  unfolding check_model_feature_compatibility
  verify = do
    model ← out.download
    raise_if (is_absent out.active_feature_version) runtime_error
    raise_if
        (not (
          is_blank_list
            (check_model_feature_compatibility out.served model.contract out.active_status)))
        runtime_error
    ok model

  -- The directory of the version is there already, and is loaded, or it is moved there.
  abbrev pub install : String → Disk → Outcome Disk
  install v disk =
      if any_of (λ w. w ==ₛ v) disk.versions
      then out.reload_existing v >> ok disk
      else ok (record disk { versions = v ∷ disk.versions })

  -- The reload of the API, and what it answers.
  abbrev pub reload : String → Outcome (Unit {0})
  reload v =
      if not out.has_reload_url
      then ok tt
      else if not out.has_token
      then err runtime_error
      else out.notify_reload >>= λ answer. raise_if (not (is_version answer v)) runtime_error

  -- After the swap: an exception puts the previous link back, or takes the new one away.
  abbrev pub after_swap :
      Outcome (Unit {0}) → Option String → Package → Disk → Outcome String × Disk
  after_swap (ok _) previous model disk = (ok model.version, disk)
  after_swap (err e) previous model disk = (err e, record disk { active = previous })

  abbrev pub after_install : Outcome Disk → Option String → Package → Disk → Outcome String × Disk
  after_install (err e) previous model disk = (err e, disk)
  after_install (ok disk') previous model disk =
      after_swap (reload model.version) previous model
        (record disk' { active = some model.version })

  abbrev pub after_verify : Outcome Package → Disk → Outcome String × Disk
  after_verify (err e) disk = (err e, disk)
  after_verify (ok model) disk = after_install (install model.version disk) disk.active model disk

  -- `deploy_production_alias`, under the lock
  unfoldable pub deploy_production_alias : Disk → Outcome String × Disk
  unfolding verify
  deploy_production_alias disk = after_verify verify disk

is_absent-some :
    (o : Option String) → is_absent o ≡ false → (f : String) × (o ≡ some f) × ((f ==ₛ "") ≡ false)
is_absent-some none h = cc
is_absent-some (some f) h = (f, refl, h)

is_blank_list-nil : (ms : List Mismatch) → not (is_blank_list ms) ≡ false → ms ≡ []
is_blank_list-nil [] h = refl
is_blank_list-nil (m ∷ ms) h = cc

raise_if-false : (b : Bool) (e : Error) → raise_if b e ≡ ok tt → b ≡ false
raise_if-false true e h = cc
raise_if-false false e h = refl

module _ {V : Type 0} (out : Outside V) where
  -- What a deployment that succeeded rests on.
  pub record Deployed (v : String) : Type 0 where
    pub model : Package
    pub downloaded : out.download ≡ ok model
    pub named : model.version ≡ v
    pub features : (f : String) × (out.active_feature_version ≡ some f) × ((f ==ₛ "") ≡ false)
    pub compatible : Compatible out.served model.contract out.active_status
    pub reloaded :
        out.has_reload_url ≡ true
        → (w : String) × (out.notify_reload ≡ ok (some w)) × ((w ==ₛ v) ≡ true)

  -- How a deployment ends: with the new version, or with the link as it was.
  abbrev pub Ends : Disk → Outcome String × Disk → Type 0
  Ends disk end =
      ((v : String) × (end.0 ≡ ok v) × (end.1.active ≡ some v) × Deployed v)
      ⊎ ((e : Error) × (end.0 ≡ err e) × (end.1.active ≡ disk.active))

  is_version-some :
      (o : Option String) (v : String)
      → is_version o v ≡ true
      → (w : String) × (o ≡ some w) × ((w ==ₛ v) ≡ true)
  is_version-some none v h = cc
  is_version-some (some w) v h = (w, refl, h)

  reload-ok :
      (v : String)
      → reload out v ≡ ok tt
      → out.has_reload_url ≡ true
      → (w : String) × (out.notify_reload ≡ ok (some w)) × ((w ==ₛ v) ≡ true)
  reload-ok v h u = elim (Bool-cases out.has_token) [
    | inl t ↦ answered (rw (u, t) at h)
    | inr n ↦ absurd (cc (rw (u, n) at h))
  ]
    where
      answered :
          (out.notify_reload >>= λ answer. raise_if (not (is_version answer v)) runtime_error)
            ≡ ok tt
          → (w : String) × (out.notify_reload ≡ ok (some w)) × ((w ==ₛ v) ≡ true)
      answered k =
          let (o, e, q) =
            >>=-eq-ok out.notify_reload
              (λ answer. raise_if (not (is_version answer v)) runtime_error) k in
          let (w, s, t) =
            is_version-some o v (not_false (is_version o v) (raise_if-false _ runtime_error q)) in
          (w, e ∙ ap ok s, t)
        where
          not_false : (b : Bool) → not b ≡ false → b ≡ true
          not_false true h = refl
          not_false false h = cc

  verify-ok :
      (model : Package)
      → verify out ≡ ok model
      → (out.download ≡ ok model)
        × ((f : String) × (out.active_feature_version ≡ some f) × ((f ==ₛ "") ≡ false))
        × Compatible out.served model.contract out.active_status
  unfolding verify
  verify-ok model h =
      let (m, e, k) = >>=-eq-ok out.download _ h in
      let (a, k1) = raise_if-ok (is_absent out.active_feature_version) runtime_error _ model k in
      let (b, k2) =
        raise_if-ok
          (not (
            is_blank_list
              (check_model_feature_compatibility out.served m.contract out.active_status)))
          runtime_error _ model k1 in
      let q = ok-injective m model k2 in
      (
        e ∙ k2,
        is_absent-some out.active_feature_version a,
        subst (λ x. Compatible out.served x.contract out.active_status) q
            ((check_model_feature_compatibility_iff out.served m.contract out.active_status).0
              (is_blank_list-nil _ b)),
      )

  -- A deployment either succeeds, and then the link points to the version of a package that was
  -- downloaded, is compatible with the features of the active version, and that the API reports
  -- where it was told to reload; or it raises, and then the link points where it did before.
  pub deploy_production_alias-safe : (disk : Disk) → Ends disk (deploy_production_alias out disk)
  unfolding deploy_production_alias
  deploy_production_alias-safe disk = by_verify (verify out) refl
    where
      by_reload :
          (model : Package) (disk' : Disk) (o : Outcome (Unit {0}))
          → verify out ≡ ok model
          → reload out model.version ≡ o
          → Ends disk
              (after_swap out o disk.active model (record disk' { active = some model.version }))
      by_reload model disk' (err e) q r = inr (e, refl, refl)
      by_reload model disk' (ok _) q r =
          let (d, f, c) = verify-ok model q in
          inl (
            model.version,
            refl,
            refl,
            record {
              model = model;
              downloaded = d;
              named = refl;
              features = f;
              compatible = c;
              reloaded = reload-ok model.version r;
            },
          )

      by_install :
          (model : Package) (o : Outcome Disk)
          → verify out ≡ ok model
          → Ends disk (after_install out o disk.active model disk)
      by_install model (err e) q = inr (e, refl, refl)
      by_install model (ok disk') q = by_reload model disk' (reload out model.version) q refl

      by_verify : (o : Outcome Package) → verify out ≡ o → Ends disk (after_verify out o disk)
      by_verify (err e) q = inr (e, refl, refl)
      by_verify (ok model) q = by_install model (install out model.version disk) q
