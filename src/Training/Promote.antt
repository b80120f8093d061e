-- ===== src/Training/Promote.antt =====
-- promote.py: the gates that a model version passes before it takes the production alias.
pub mod Gates
use lzd.Common.{
  ℕ, ◌≡◌, Bool, true, false, ◌&&◌, not, List, [], ◌∷◌, Option, none, some, String, ◌==ₛ◌, ltb,
  if◌then◌else◌, keep_if,
}
use lzd.Common.Outcome.{Outcome, ok, err, key_error}

-- A registered version of a model, and the run that it comes from.
pub record ModelVersion : Type 0 where
  pub version : ℕ
  pub run_id : String

-- The metrics and parameters of the runs, what the package gate says of a run, and how two values
-- of the metric compare: `exceeds new old` is `new > old + min_gain`.
pub record Registry (Score : Type 0) : Type 0 where
  pub metric : String → Option Score
  pub holdout_version : String → Option String
  pub failed_sanity : String → List String
  pub package_ok : String → Bool
  pub exceeds : Score → Score → Bool

pub data Reason : Type 0 where
  sanity_failed no_metric package_refused first_version holdout_differs current_has_no_metric better
        not_better :
      Reason

pub record PromotionReport : Type 0 where
  pub candidate_version : ℕ
  pub current_version : Option ℕ
  pub promoted : Bool
  pub reason : Reason

abbrev newest : ModelVersion → List ModelVersion → ModelVersion
newest v [] = v
newest v (w ∷ ws) = newest (if ltb v.version w.version then w else v) ws

-- `_version_of_run`: the newest of the versions of the run, or LookupError
abbrev pub version_of_run : List ModelVersion → String → Outcome ModelVersion
version_of_run versions run = elim (keep_if (λ v. v.run_id ==ₛ run) versions) [
  | [] ↦ err key_error
  | v ∷ vs ↦ ok (newest v vs)
]

abbrev pub same_holdout : Option String → Option String → Bool
same_holdout none none = true
same_holdout none (some _) = false
same_holdout (some _) none = false
same_holdout (some a) (some b) = a ==ₛ b

abbrev pub is_empty_list : List String → Bool
is_empty_list [] = true
is_empty_list (_ ∷ _) = false

-- The alias, and the report.
abbrev pub Decision : Type 0
Decision = Option ModelVersion × PromotionReport

abbrev pub reject : ModelVersion → Option ModelVersion → Option ℕ → Reason → Decision
reject candidate alias current why = (
  alias,
  record {
    candidate_version = candidate.version;
    current_version = current;
    promoted = false;
    reason = why;
  },
)

-- `set_registered_model_alias`, and the report of it
abbrev pub promote : ModelVersion → Option ℕ → Reason → Decision
promote candidate current why = (
  some candidate,
  record {
    candidate_version = candidate.version;
    current_version = current;
    promoted = true;
    reason = why;
  },
)

module _ {Score : Type 0} (g : Registry Score) where
  -- The comparison with the version that has the alias.
  unfoldable pub compare_with : ModelVersion → Score → ModelVersion → Decision
  compare_with candidate new current =
      if not (same_holdout (g.holdout_version candidate.run_id) (g.holdout_version current.run_id))
      then reject candidate (some current) (some current.version) holdout_differs
      else elim (g.metric current.run_id) [
        | none ↦ reject candidate (some current) (some current.version) current_has_no_metric
        | some old ↦
            if g.exceeds new old
            then promote candidate (some current.version) better
            else reject candidate (some current) (some current.version) not_better
      ]

  abbrev against : ModelVersion → Score → Option ModelVersion → Decision
  unfolding compare_with
  against candidate new none = promote candidate none first_version
  against candidate new (some current) = compare_with candidate new current

  -- `current`: what has the alias, or None where the lookup of the alias raises
  abbrev pub current_of : Bool → Option ModelVersion → Option ModelVersion
  current_of lookup_raises alias = if lookup_raises then none else alias

  -- `promote_if_better` for the version that was found
  unfoldable pub decide : ModelVersion → Bool → Option ModelVersion → Decision
  unfolding against
  decide candidate lookup_raises alias =
      if not (is_empty_list (g.failed_sanity candidate.run_id))
      then reject candidate alias none sanity_failed
      else elim (g.metric candidate.run_id) [
        | none ↦ reject candidate alias none no_metric
        | some new ↦
            if not (g.package_ok candidate.run_id)
            then reject candidate alias none package_refused
            else against candidate new (current_of lookup_raises alias)
      ]

  -- `promote_if_better`
  unfoldable pub promote_if_better :
      List ModelVersion → String → Bool → Option ModelVersion → Outcome Decision
  unfolding decide
  promote_if_better versions run lookup_raises alias = elim (version_of_run versions run) [
    | err e ↦ err e
    | ok candidate ↦ ok (decide candidate lookup_raises alias)
  ]
