-- ===== src/Reconstruction/State.antt =====
-- state.py: provenance and the customer state that crosses from Track A to Track B, with the checks
-- of their `__post_init__`. Times are microseconds; `aware` says whether a time has a zone.
use lzd.Common.{
  ℕ, Bool, true, false, ◌&&◌, not, List, [], ◌∷◌, Option, none, some, String, leb, ◌==ₛ◌,
  if◌then◌else◌,
}
use lzd.Common.Outcome.{Outcome, ok, err, value_error, ◌>>◌, raise_if}

pub data SourceType : Type 0 where
  real reconstructed synthetic : SourceType

pub data SemanticBranchName : Type 0 where
  h1 h2 : SemanticBranchName

pub data SemanticStatus : Type 0 where
  h1_supported h2_supported unidentified : SemanticStatus

pub record Provenance : Type 0 where
  pub source_type : SourceType
  pub generation_run_id : String
  pub root_generation_id : String
  pub parent_run_id : Option String
  pub parent_target_id : Option String
  pub parent_entity_id : Option String
  pub parent_feature_version : Option String
  pub ancestor_model_ids : List String
  pub behaviour_policy_version : Option String
  pub created_at : Option ℕ

abbrev pub is_none {ℓ} : {A : Type ℓ} → Option A → Bool
is_none none = true
is_none (some _) = false

abbrev pub is_empty {ℓ} : {A : Type ℓ} → List A → Bool
is_empty [] = true
is_empty (_ ∷ _) = false

-- The truth value of an optional text: None and "" are false.
abbrev pub text_given : Option String → Bool
text_given none = false
text_given (some s) = not (s ==ₛ "")

-- P-3 and P-4.
abbrev pub lacks_lineage : Provenance → Bool
lacks_lineage p = elim p.source_type [
  | real ↦ false
  | reconstructed ↦ is_none p.parent_target_id
  | synthetic ↦ is_empty p.ancestor_model_ids && not (text_given p.behaviour_policy_version)
]

-- `Provenance(…)`
unfoldable pub new_provenance : Provenance → Outcome Provenance
new_provenance p = if lacks_lineage p then err value_error else ok p

pub record CustomerState : Type 0 where
  pub customer_id : String
  pub as_of_ts : ℕ
  pub as_of_aware : Bool
  pub source_target_id : String
  pub attributes : List (String × ℕ)
  pub counters : List (String × Option ℕ)
  pub semantic_branch : Option SemanticBranchName
  pub semantic_status : SemanticStatus
  pub provenance : Provenance
  pub last_event_ts : Option ℕ

-- `last_event_ts is not None and last_event_ts >= as_of_ts`
abbrev pub too_late : Option ℕ → ℕ → Bool
too_late none as_of = false
too_late (some t) as_of = leb as_of t

-- `CustomerState(…)`
unfoldable pub new_customer_state : CustomerState → Outcome CustomerState
new_customer_state s = do
  raise_if (not s.as_of_aware) value_error
  raise_if (too_late s.last_event_ts s.as_of_ts) value_error
  ok s
