-- ===== src/Serving/Decide/Voucher.antt =====
-- trigger_engine.py: when a voucher is sent.
use lzd.Common.{◌≡◌, refl, ◌↔◌, Bool, true, false, not, Option, none, some, String, if◌then◌else◌}
use lzd.Common.Dict.{Dict}
use lzd.Features.Spec.{Values, FeatureSpec}
use lzd.Serving.Decide.{
  build_model_row, Model, evaluate_user, determine_voucher_code, send_voucher, no_voucher,
  VoucherDecision,
}

module _ {Score : Type 0} (at_least : Score → Score → Bool) (threshold : Score) where
  by_score :
      (o : Option Score)
      → ((determine_voucher_code at_least o threshold).0 ≡ send_voucher)
        ↔ ((s : Score) × (o ≡ some s) × (at_least s threshold ≡ true))
  unfolding determine_voucher_code
  by_score none = (λ e. cc e, λ (s, e, k). cc e)
  by_score (some s) = by_test (at_least s threshold) refl
    where
      by_test :
          (b : Bool)
          → at_least s threshold ≡ b
          → ((if◌then◌else◌ {A = VoucherDecision × String} b
                (send_voucher, "voucher_30")
                (no_voucher, "no_voucher")).0
              ≡ send_voucher)
            ↔ ((t : Score) × (some s ≡ some t) × (at_least t threshold ≡ true))
      by_test true q = (λ e. (s, refl, q), λ p. refl)
      by_test false q = (λ e. cc e, λ (t, e, k). cc (e, k, q))

  configured :
      (c : Bool) (o : Option Score)
      → ((s : Score) × ((if not c then none else o) ≡ some s) × (at_least s threshold ≡ true))
        ↔ ((c ≡ true) × ((s : Score) × (o ≡ some s) × (at_least s threshold ≡ true)))
  configured true o = (λ p. (refl, p), λ p. p.1)
  configured false o = (λ (s, e, k). cc e, λ p. cc (p.0))

  -- A voucher is sent exactly when the model is configured, its prediction for the user's row gave
  -- a score, and the score reaches the threshold; in particular never when the prediction raised.
  pub evaluate_user-sends :
      {V : Type 0} (values : Values V) (is_rt : String → Bool) (spec : FeatureSpec V)
      (model : Model V Score) (batch realtime context : Dict V)
      → ((evaluate_user values is_rt spec model at_least threshold batch realtime context).0
          ≡ send_voucher)
        ↔ ((model.is_configured ≡ true)
            × ((s : Score) × (model.predict_uplift
                    (build_model_row values is_rt spec model.feature_order batch realtime
                      context).row
                  ≡ some s)
                × (at_least s threshold ≡ true)))
  unfolding evaluate_user
  evaluate_user-sends values is_rt spec model batch realtime context =
      let o =
        model.predict_uplift
          (build_model_row values is_rt spec model.feature_order batch realtime context).row in
      let (a, b) = by_score (if not model.is_configured then none else o) in
      let (c, d) = configured model.is_configured o in (λ e. c (a e), λ p. b (d p))
