-- ===== src/Reconstruction/Target/Tamper.antt =====
-- target.py: building and verifying targets.
use lzd.Common.{
  ℕ, ◌≡◌, ◌≢◌, refl, sym, ap, ◌∙◌, inl, inr, Bool, true, false, ◌&&◌, not, List, [], ◌∷◌, Option,
  none, some, String, ◌==ₛ◌, ◌==◌, ==→≡, In, arith, Bool-cases,
}
use mathlib.Core.Path.{subst}
use lzd.Common.Outcome.{
  ok, err, value_error, leakage_violation, scope_violation, tamper_detected, raise_if, ◌>>◌,
  >>=-eq-ok, ok-injective, raise_if-ok,
}
use lzd.Common.Dict.{Dict, get}
use lzd.Reconstruction.Hashing.{Hashing, Part, text}
use lzd.Reconstruction.Encoding.{or_key_error}
use lzd.Reconstruction.FeatureSet.{FeatureSet, is_subset, overlaps, columns}
use lzd.Reconstruction.Target.{
  Moment, Target, forbidden_keys, keys, validate_scope, same_digest, pairs,
  canonical_feature_payload, canonical_target_record, hash_target, new_target, expected_hash,
  verify_target, build_target,
}

same_digest_refl : (a : List ℕ) → same_digest a a ≡ true
same_digest_refl [] = refl
same_digest_refl (x ∷ a) = ground (arith, same_digest_refl a)

same_digest-≡ : (a b : List ℕ) → same_digest a b ≡ true → a ≡ b
same_digest-≡ [] [] h = refl
same_digest-≡ [] (_ ∷ _) h = cc
same_digest-≡ (_ ∷ _) [] h = cc
same_digest-≡ (x ∷ a) (y ∷ b) h =
    let (e, f) = both (x == y) (same_digest a b) h in cc (==→≡ x y e, same_digest-≡ a b f)
  where
    both : (s t : Bool) → (s && t) ≡ true → (s ≡ true) × (t ≡ true)
    both s t h = ground arith

module _ {N : Type 0} (float_repr : N → String) (h : Hashing) where
  -- What a target keeps that was built for a feature set.
  pub record IsBuilt (fs : FeatureSet) (values : Dict N) (t : Target N) : Type 0 where
    pub same_values : t.values ≡ values
    pub verified : verify_target float_repr h fs t ≡ ok tt
    pub no_leak : overlaps forbidden_keys (keys t.values) ≡ false
    pub scope :
        (is_subset (keys t.values) (columns fs) && is_subset (columns fs) (keys t.values)) ≡ true
    pub allowed : (t.split ==ₛ fs.split_allowed) ≡ true
    pub zoned : t.reference_ts.has_timezone ≡ true

  passed_not : (b : Bool) → not b ≡ false → b ≡ true
  passed_not b h = ground arith

  scope_parts :
      (values : Dict N) (fs : FeatureSet)
      → validate_scope values fs ≡ ok tt
      → (overlaps forbidden_keys (keys values) ≡ false)
        × ((is_subset (keys values) (columns fs) && is_subset (columns fs) (keys values)) ≡ true)
  unfolding validate_scope
  scope_parts values fs e =
      let (a, e1) = raise_if-ok _ leakage_violation _ tt e in
      let (b, _) = raise_if-ok _ scope_violation _ tt e1 in
      (
        a,
        passed_not (is_subset (keys values) (columns fs) && is_subset (columns fs) (keys values)) b,
      )

  -- A target that build_target returns for the loaded feature set holds the values that it was given, verifies, has neither
  -- label nor is_treat, just the columns of the set, the allowed split and a timezone.
  pub build_target-IsBuilt :
      (loaded : FeatureSet) (target_id : String) (values : Dict N) (ts : Moment)
      (version split : String) (t : Target N)
      → build_target float_repr h loaded none target_id values ts version split ≡ ok t
      → IsBuilt loaded values t
  unfolding build_target new_target verify_target expected_hash
  build_target-IsBuilt loaded target_id values ts version split t e =
      let (_, s, e1) = >>=-eq-ok (validate_scope values loaded) _ e in
      let (digest, f, e2) =
        >>=-eq-ok (hash_target float_repr h values (columns loaded) loaded.id version ts) _ e1 in
      let (_, e3) = raise_if-ok _ scope_violation _ t e2 in
      let (_, _, e4) = >>=-eq-ok (validate_scope values loaded) _ e3 in
      let (a, e5) = raise_if-ok _ value_error _ t e4 in
      let (b, e6) = raise_if-ok _ value_error _ t e5 in
      let made : Target N = record {
        target_id = target_id;
        selected_feature_set_id = loaded.id;
        feature_version = version;
        reference_ts = ts;
        split = split;
        values = values;
        target_hash = digest;
      } in
      let p = scope_parts values loaded s in
      subst (IsBuilt loaded values) (ok-injective made t e6) (record {
        same_values = refl;
        verified = rw (f, same_digest_refl digest) refl;
        no_leak = p.0;
        scope = p.1;
        allowed = passed_not (split ==ₛ loaded.split_allowed) a;
        zoned = passed_not ts.has_timezone b;
      })

  found : {v : N} (o : Option N) → or_key_error o ≡ ok v → o ≡ some v
  found none e = cc
  found (some w) e = cc

  -- The pairs of two targets are the same only where all their columns have the same texts.
  pairs_eq :
      (cs : List String) (a b : Dict N) (ps : List Part) (c : String) (v w : N)
      → pairs float_repr h cs a ≡ ok ps
      → pairs float_repr h cs b ≡ ok ps
      → In c cs
      → get c a ≡ some v
      → get c b ≡ some w
      → float_repr v ≡ float_repr w
  pairs_eq [] a b ps c v w e f i g k = elim i [ ]
  pairs_eq (d ∷ cs) a b ps c v w e f i g k =
      let (v1, e1, e2) = >>=-eq-ok (or_key_error (get d a)) _ e in
      let (ps1, e3, e4) = >>=-eq-ok (pairs float_repr h cs a) _ e2 in
      let (w1, f1, f2) = >>=-eq-ok (or_key_error (get d b)) _ f in
      let (qs1, f3, f4) = >>=-eq-ok (pairs float_repr h cs b) _ f2 in
      let q : (text d ∷ text (float_repr v1) ∷ ps1) ≡ (text d ∷ text (float_repr w1) ∷ qs1) =
        ok-injective (text d ∷ text (float_repr v1) ∷ ps1) ps e4
        ∙ sym (ok-injective (text d ∷ text (float_repr w1) ∷ qs1) ps f4) in
      at i (heads q) (found (get d a) e1) (found (get d b) f1)
        (λ j. pairs_eq cs a b ps1 c v w e3 (f3 ∙ ap ok (sym (tails q))) j g k)
    where
      heads :
          {s t : String} {xs ys : List Part}
          → (text d ∷ text s ∷ xs) ≡ (text d ∷ text t ∷ ys)
          → s ≡ t
      heads q = cc

      tails :
          {s t : String} {xs ys : List Part}
          → (text d ∷ text s ∷ xs) ≡ (text d ∷ text t ∷ ys)
          → xs ≡ ys
      tails q = cc

      injective : {x y : N} → some x ≡ some y → x ≡ y
      injective q = cc

      at :
          {v1 w1 : N}
          → In c (d ∷ cs)
          → float_repr v1 ≡ float_repr w1
          → get d a ≡ some v1
          → get d b ≡ some w1
          → (In c cs → float_repr v ≡ float_repr w)
          → float_repr v ≡ float_repr w
      at (inl same) r x y rest =
          ap float_repr (injective (sym g ∙ ap (λ z. get z a) same ∙ x))
          ∙ r
          ∙ ap float_repr (injective (sym y ∙ ap (λ z. get z b) (sym same) ∙ k))
      at (inr j) r x y rest = rest j

  abbrev with_values : Target N → Dict N → Target N
  with_values t values = record t { values = values }

  -- The parts that the hash of a target is computed from.
  abbrev pub hashed_parts : FeatureSet → Target N → List Part → List Part
  hashed_parts fs t payload =
      canonical_target_record float_repr h t.selected_feature_set_id t.feature_version
        t.reference_ts payload

  verify_eq :
      (fs : FeatureSet) (t : Target N) (payload : List Part)
      → canonical_feature_payload float_repr h t.values (columns fs) ≡ ok payload
      → verify_target float_repr h fs t ≡ (
          raise_if
            (not (same_digest (h.sha256 (hashed_parts fs t payload)) t.target_hash))
            tamper_detected
          >> ok tt)
  unfolding verify_target expected_hash hash_target
  verify_eq fs t payload p = rw p refl

  payload_pairs :
      (values : Dict N) (cs : List String) (payload : List Part)
      → canonical_feature_payload float_repr h values cs ≡ ok payload
      → pairs float_repr h cs values ≡ ok payload
  unfolding canonical_feature_payload
  payload_pairs values cs payload p = (raise_if-ok _ value_error _ payload p).1

  -- A target that verifies no longer does so with other values of the columns, if a column has a value of another text and the
  -- two records that are hashed do not collide: verify raises TamperDetected.
  pub verify_target-tamper :
      (fs : FeatureSet) (t : Target N) (values : Dict N) (payload other : List Part) (c : String)
      (v w : N)
      → verify_target float_repr h fs t ≡ ok tt
      → canonical_feature_payload float_repr h t.values (columns fs) ≡ ok payload
      → canonical_feature_payload float_repr h values (columns fs) ≡ ok other
      → In c (columns fs)
      → get c t.values ≡ some v
      → get c values ≡ some w
      → float_repr v ≢ float_repr w
      → (h.sha256 (hashed_parts fs t payload) ≡ h.sha256 (hashed_parts fs t other)
          → hashed_parts fs t payload ≡ hashed_parts fs t other)
      → verify_target float_repr h fs (with_values t values) ≡ err tamper_detected
  verify_target-tamper fs t values payload other c v w e p q i g k differ no_collision =
      let (s, _) =
        raise_if-ok (not (same_digest (h.sha256 (hashed_parts fs t payload)) t.target_hash))
          tamper_detected (ok tt) tt (sym (verify_eq fs t payload p) ∙ e) in
      let old = same_digest-≡ _ _ (passed_not _ s) in
      verify_eq fs (with_values t values) other q
      ∙ elim (Bool-cases (same_digest (h.sha256 (hashed_parts fs t other)) t.target_hash)) [
        | inr changed ↦ rw changed refl
        | inl same ↦ absurd (
            differ (
              pairs_eq (columns fs) t.values values payload c v w
                (payload_pairs t.values (columns fs) payload p)
                (payload_pairs values (columns fs) other q
                  ∙ ap ok (sym (tails (no_collision (old ∙ sym (same_digest-≡ _ _ same))))))
                i g k))
      ]
    where
      tails :
          {a b d : String} {xs ys : List Part}
          → (text a ∷ text b ∷ text d ∷ xs) ≡ (text a ∷ text b ∷ text d ∷ ys)
          → xs ≡ ys
      tails q = cc
