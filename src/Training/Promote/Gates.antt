-- ===== src/Training/Promote/Gates.antt =====
-- promote.py: the alias moves exactly when the gates are passed.
use lzd.Common.{
  ◌≡◌, refl, sym, ap, ◌∙◌, ◌⊎◌, ◌↔◌, inl, inr, Bool, true, false, not, List, [], ◌∷◌, Option, none,
  some, String, if◌then◌else◌,
}
use mathlib.Core.Path.{subst}
use lzd.Training.Promote.{
  ModelVersion, Registry, Decision, same_holdout, is_empty_list, reject, promote, compare_with,
  current_of, against, decide, sanity_failed, no_metric, package_refused, holdout_differs,
  current_has_no_metric, better, not_better,
}

module _ {Score : Type 0} (g : Registry Score) where
  -- The candidate beats what has the alias, in a comparison that is allowed.
  abbrev pub Beats : ModelVersion → Score → Option ModelVersion → Type 0
  Beats candidate new none = Unit
  Beats candidate new (some current) =
      (same_holdout (g.holdout_version candidate.run_id) (g.holdout_version current.run_id) ≡ true)
      × ((old : Score) × (g.metric current.run_id ≡ some old) × (g.exceeds new old ≡ true))

  -- All gates are passed, where the candidate is compared with what was found.
  abbrev Passes : ModelVersion → Option ModelVersion → Type 0
  Passes candidate alias =
      (g.failed_sanity candidate.run_id ≡ [])
      × (g.package_ok candidate.run_id ≡ true)
      × ((new : Score) × (g.metric candidate.run_id ≡ some new) × Beats candidate new alias)

  -- The report says whether the alias moved.
  abbrev pub Moved : ModelVersion → Option ModelVersion → Decision → Type 0
  Moved candidate alias d = (d.1.promoted ≡ true) × (d.0 ≡ some candidate)

  abbrev pub Kept : ModelVersion → Option ModelVersion → Decision → Type 0
  Kept candidate alias d = (d.1.promoted ≡ false) × (d.0 ≡ alias)

  abbrev Decided : Type 0 → ModelVersion → Option ModelVersion → Decision → Type 0
  Decided P candidate alias d = (P × Moved candidate alias d) ⊎ ((P → ⊥) × Kept candidate alias d)

  by_exceeds :
      (candidate : ModelVersion) (new : Score) (current : ModelVersion) (old : Score) (b : Bool)
      → same_holdout (g.holdout_version candidate.run_id) (g.holdout_version current.run_id) ≡ true
      → g.metric current.run_id ≡ some old
      → g.exceeds new old ≡ b
      → Decided (Beats candidate new (some current)) candidate (some current) (
          if b
          then promote candidate (some current.version) better
          else reject candidate (some current) (some current.version) not_better)
  by_exceeds candidate new current old true h m x = inl ((h, (old, m, x)), (refl, refl))
  by_exceeds candidate new current old false h m x =
      inr
        (λ (_, (o, n, y)). cc (ap (g.exceeds new) (some_eq o old (sym n ∙ m)), x, y), (refl, refl))
    where
      some_eq : (a b : Score) → some a ≡ some b → a ≡ b
      some_eq a b q = cc q

  by_metric :
      (candidate : ModelVersion) (new : Score) (current : ModelVersion) (o : Option Score)
      → same_holdout (g.holdout_version candidate.run_id) (g.holdout_version current.run_id) ≡ true
      → g.metric current.run_id ≡ o
      → Decided (Beats candidate new (some current)) candidate (some current) (elim o [
        | none ↦ reject candidate (some current) (some current.version) current_has_no_metric
        | some old ↦
            if g.exceeds new old
            then promote candidate (some current.version) better
            else reject candidate (some current) (some current.version) not_better
      ])
  by_metric candidate new current none h m = inr (λ (_, (o, n, y)). cc (m, n), (refl, refl))
  by_metric candidate new current (some old) h m =
      by_exceeds candidate new current old (g.exceeds new old) h m refl

  compare_with-Decided :
      (candidate : ModelVersion) (new : Score) (current : ModelVersion)
      → Decided
          (Beats candidate new (some current))
          candidate
          (some current)
          (compare_with g candidate new current)
  unfolding compare_with
  compare_with-Decided candidate new current =
      by_holdout
        (same_holdout (g.holdout_version candidate.run_id) (g.holdout_version current.run_id)) refl
    where
      by_holdout :
          (b : Bool)
          → same_holdout (g.holdout_version candidate.run_id) (g.holdout_version current.run_id) ≡ b
          → Decided (Beats candidate new (some current)) candidate (some current) (
              if not b
              then reject candidate (some current) (some current.version) holdout_differs
              else elim (g.metric current.run_id) [
                | none ↦
                    reject candidate (some current) (some current.version) current_has_no_metric
                | some old ↦
                    if g.exceeds new old
                    then promote candidate (some current.version) better
                    else reject candidate (some current) (some current.version) not_better
              ])
      by_holdout true h = by_metric candidate new current (g.metric current.run_id) h refl
      by_holdout false h = inr (λ (x, _). cc (x, h), (refl, refl))

  against-Decided :
      (candidate : ModelVersion) (new : Score) (raises : Bool) (alias : Option ModelVersion)
      → Decided
          (Beats candidate new (current_of g raises alias))
          candidate
          alias
          (against g candidate new (current_of g raises alias))
  unfolding against
  against-Decided candidate new true alias = inl (tt, (refl, refl))
  against-Decided candidate new false none = inl (tt, (refl, refl))
  against-Decided candidate new false (some current) = compare_with-Decided candidate new current

  by_package :
      (candidate : ModelVersion) (new : Score) (raises : Bool) (alias : Option ModelVersion)
      (b : Bool)
      → g.failed_sanity candidate.run_id ≡ []
      → g.metric candidate.run_id ≡ some new
      → g.package_ok candidate.run_id ≡ b
      → Decided (Passes candidate (current_of g raises alias)) candidate alias (
          if not b
          then reject candidate alias none package_refused
          else against g candidate new (current_of g raises alias))
  by_package candidate new raises alias true s m p =
      elim (against-Decided candidate new raises alias) [
        | inl (b, k) ↦ inl ((s, p, (new, m, b)), k)
        | inr (f, k) ↦ inr (λ (_, _, (n, e, b)). f (same n e b), k)
      ]
    where
      same :
          (n : Score)
          → g.metric candidate.run_id ≡ some n
          → Beats candidate n (current_of g raises alias)
          → Beats candidate new (current_of g raises alias)
      same n e b =
          subst (λ x. Beats candidate x (current_of g raises alias)) (some_eq n new (sym e ∙ m)) b
        where
          some_eq : (a b : Score) → some a ≡ some b → a ≡ b
          some_eq a b q = cc q
  by_package candidate new raises alias false s m p = inr (λ (_, x, _). cc (x, p), (refl, refl))

  by_score :
      (candidate : ModelVersion) (raises : Bool) (alias : Option ModelVersion) (o : Option Score)
      → g.failed_sanity candidate.run_id ≡ []
      → g.metric candidate.run_id ≡ o
      → Decided (Passes candidate (current_of g raises alias)) candidate alias (elim o [
        | none ↦ reject candidate alias none no_metric
        | some new ↦
            if not (g.package_ok candidate.run_id)
            then reject candidate alias none package_refused
            else against g candidate new (current_of g raises alias)
      ])
  by_score candidate raises alias none s m = inr (λ (_, _, (n, e, _)). cc (e, m), (refl, refl))
  by_score candidate raises alias (some new) s m =
      by_package candidate new raises alias (g.package_ok candidate.run_id) s m refl

  decide-gates :
      (candidate : ModelVersion) (raises : Bool) (alias : Option ModelVersion)
      → (Passes candidate (current_of g raises alias)
          × Moved candidate alias (decide g candidate raises alias))
        ⊎ ((Passes candidate (current_of g raises alias) → ⊥)
            × Kept candidate alias (decide g candidate raises alias))
  unfolding decide
  decide-gates candidate raises alias = by_sanity (g.failed_sanity candidate.run_id) refl
    where
      by_sanity :
          (failed : List String)
          → g.failed_sanity candidate.run_id ≡ failed
          → Decided (Passes candidate (current_of g raises alias)) candidate alias (
              if not (is_empty_list failed)
              then reject candidate alias none sanity_failed
              else elim (g.metric candidate.run_id) [
                | none ↦ reject candidate alias none no_metric
                | some new ↦
                    if not (g.package_ok candidate.run_id)
                    then reject candidate alias none package_refused
                    else against g candidate new (current_of g raises alias)
              ])
      by_sanity [] s = by_score candidate raises alias (g.metric candidate.run_id) s refl
      by_sanity (x ∷ xs) s = inr (λ (e, _, _). cc (e, s), (refl, refl))

  -- All gates are passed, where nothing is compared if the lookup of the alias raises.
  abbrev pub PassesAll : ModelVersion → Bool → Option ModelVersion → Type 0
  PassesAll candidate raises alias =
      (g.failed_sanity candidate.run_id ≡ [])
      × (g.package_ok candidate.run_id ≡ true)
      × ((new : Score) × (g.metric candidate.run_id ≡ some new)
          × ((raises ≡ true) ⊎ Beats candidate new alias))

  Passes-current_of :
      (candidate : ModelVersion) (raises : Bool) (alias : Option ModelVersion)
      → Passes candidate (current_of g raises alias) ↔ PassesAll candidate raises alias
  Passes-current_of candidate true alias = (
    λ (s, p, (new, m, b)). (s, p, (new, m, inl refl)),
    λ (s, p, (new, m, b)). (s, p, (new, m, tt)),
  )
  Passes-current_of candidate false alias = (
    λ (s, p, (new, m, b)). (s, p, (new, m, inr b)),
    λ (s, p, (new, m, b)). (s, p, (new, m, elim b [ inl e ↦ absurd (cc e) | inr x ↦ x ])),
  )

  -- The alias moves to the candidate, and the report says so, exactly when all gates are passed: no
  -- self-check failed, the package is compatible, the metric is there, and either nothing had the
  -- alias, or its lookup raised, or the candidate beats what has it on the same holdout. Otherwise
  -- the alias stays, and the report says that. So where the lookup raises, a candidate that passes
  -- the other gates takes the alias from any version, with no comparison.
  pub decide-Decided :
      (candidate : ModelVersion) (raises : Bool) (alias : Option ModelVersion)
      → (PassesAll candidate raises alias × Moved candidate alias (decide g candidate raises alias))
        ⊎ ((PassesAll candidate raises alias → ⊥)
            × Kept candidate alias (decide g candidate raises alias))
  decide-Decided candidate raises alias =
      let (there, back) = Passes-current_of candidate raises alias in
      elim (decide-gates candidate raises alias) [
        | inl (p, k) ↦ inl (there p, k)
        | inr (f, k) ↦ inr (λ p. f (back p), k)
      ]
