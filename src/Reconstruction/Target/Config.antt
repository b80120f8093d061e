-- ===== src/Reconstruction/Target/Config.antt =====
-- target.py: the configuration of the solver, where the status of the semantics fixes the branch.
use lzd.Common.{
  ℕ, ◌≡◌, ◌≢◌, refl, ◌⊎◌, inl, inr, Bool, true, false, not, Option, none, some, String, ◌↔◌,
}
use lzd.Common.Outcome.{Outcome, ok, value_error, raise_if, raise_if-ok, ◌>>◌, >>=-eq-ok}
use lzd.Reconstruction.Semantics.{BranchName, h1, h2, other}

-- The texts of `semantic_status`; `unknown` is any other.
pub data SemanticStatus : Type 0 where
  h1_supported h2_supported unidentified unknown : SemanticStatus

-- The integers, as `max_repair_rounds` may be negative: `negsuc n` is `-1 - n`.
pub data ℤ : Type 0 where
  pos : ℕ → ℤ
  negsuc : ℕ → ℤ

-- A branch that is not None is a name.
pub record SolverConfig : Type 0 where
  pub semantic_branch : Option BranchName
  pub semantic_status : SemanticStatus
  pub constraint_model_version : String
  pub encoding_version : String
  pub objective_version : String
  pub selection_policy_version : String
  pub solver_version : String
  pub generation_seed : ℤ
  pub max_repair_rounds : ℤ

-- `self.semantic_branch != want`
abbrev same_branch : BranchName → Option BranchName → Bool
same_branch h1 (some h1) = true
same_branch h2 (some h2) = true
same_branch _ _ = false

abbrev is_known : Option BranchName → Bool
is_known (some other) = false
is_known _ = true

abbrev is_negative : ℤ → Bool
is_negative (pos _) = false
is_negative (negsuc _) = true

-- `required`: the branch of a status that is supported
abbrev required : SemanticStatus → Option BranchName
required h1_supported = some h1
required h2_supported = some h2
required unidentified = none
required unknown = none

abbrev is_unidentified : SemanticStatus → Bool
is_unidentified unidentified = true
is_unidentified _ = false

abbrev check_status : SemanticStatus → Option BranchName → Outcome (Unit {0})
check_status s b = elim (required s) [
  | some want ↦ raise_if (not (same_branch want b)) value_error
  | none ↦ raise_if (not (is_unidentified s)) value_error
]

-- `SolverConfig.__post_init__`
unfoldable pub check_config : SolverConfig → Outcome (Unit {0})
check_config c =
    raise_if (not (is_known c.semantic_branch)) value_error
    >> (check_status c.semantic_status c.semantic_branch
        >> raise_if (is_negative c.max_repair_rounds) value_error)

-- What the specification demands of a configuration: the branch that runs is one of the two or is
-- not decided; what is known of the semantics is one of three; a supported branch is the one that
-- runs; and the rounds of repair are a natural number.
pub record IsAllowed (c : SolverConfig) : Type 0 where
  pub branch : (b : BranchName) → c.semantic_branch ≡ some b → (b ≡ h1) ⊎ (b ≡ h2)
  pub status : c.semantic_status ≢ unknown
  pub supports_h1 : c.semantic_status ≡ h1_supported → c.semantic_branch ≡ some h1
  pub supports_h2 : c.semantic_status ≡ h2_supported → c.semantic_branch ≡ some h2
  pub rounds : (n : ℕ) × (c.max_repair_rounds ≡ pos n)

known_branch :
    (o : Option BranchName)
    → (not (is_known o) ≡ false) ↔ ((b : BranchName) → o ≡ some b → (b ≡ h1) ⊎ (b ≡ h2))
known_branch none = (λ h b e. cc, λ f. refl)
known_branch (some h1) = (λ h b e. inl (cc e), λ f. refl)
known_branch (some h2) = (λ h b e. inr (cc e), λ f. refl)
known_branch (some other) = (λ h. cc, λ f. elim (f other refl) [ inl e ↦ cc | inr e ↦ cc ])

same_branch-eq :
    (want : BranchName) (o : Option BranchName)
    → not (is_known (some want)) ≡ false
    → (raise_if (not (same_branch want o)) value_error ≡ ok tt) ↔ (o ≡ some want)
same_branch-eq h1 (some h1) k = (λ h. refl, λ e. refl)
same_branch-eq h2 (some h2) k = (λ h. refl, λ e. refl)
same_branch-eq h1 (some h2) k = (λ h. cc, λ e. cc)
same_branch-eq h2 (some h1) k = (λ h. cc, λ e. cc)
same_branch-eq h1 (some other) k = (λ h. cc, λ e. cc)
same_branch-eq h2 (some other) k = (λ h. cc, λ e. cc)
same_branch-eq h1 none k = (λ h. cc, λ e. cc)
same_branch-eq h2 none k = (λ h. cc, λ e. cc)
same_branch-eq other _ k = cc

abbrev Supported : SemanticStatus → Option BranchName → Type 0
Supported s o = (s ≢ unknown) × (s ≡ h1_supported → o ≡ some h1) × (s ≡ h2_supported → o ≡ some h2)

status_lem :
    (s : SemanticStatus) (o : Option BranchName) → (check_status s o ≡ ok tt) ↔ Supported s o
status_lem h1_supported o =
    let (there, back) = same_branch-eq h1 o refl in
    (λ h. (λ e. cc, λ e. there h, λ e. cc), λ (_, f, _). back (f refl))
status_lem h2_supported o =
    let (there, back) = same_branch-eq h2 o refl in
    (λ h. (λ e. cc, λ e. cc, λ e. there h), λ (_, _, f). back (f refl))
status_lem unidentified o = (λ h. (λ e. cc, λ e. cc, λ e. cc), λ h. refl)
status_lem unknown o = (λ h. cc, λ (f, _, _). absurd (f refl))

rounds_lem : (z : ℤ) → (raise_if (is_negative z) value_error ≡ ok tt) ↔ ((n : ℕ) × (z ≡ pos n))
rounds_lem (pos n) = (λ h. (n, refl), λ h. refl)
rounds_lem (negsuc n) = (λ h. cc, λ (m, e). cc)

-- A configuration is accepted exactly when it meets what the specification demands.
pub check_config-IsAllowed : (c : SolverConfig) → (check_config c ≡ ok tt) ↔ IsAllowed c
unfolding check_config
check_config-IsAllowed c = (
  λ h.
      let (k, h1') = raise_if-ok (not (is_known c.semantic_branch)) value_error _ tt h in
      let (_, e, r) = >>=-eq-ok (check_status c.semantic_status c.semantic_branch) _ h1' in
      let (a, b, d) = (status_lem c.semantic_status c.semantic_branch).0 e in
      record {
        branch = (known_branch c.semantic_branch).0 k;
        status = a;
        supports_h1 = b;
        supports_h2 = d;
        rounds = (rounds_lem c.max_repair_rounds).0 r;
      },
  λ a.
      rw
        (
          (known_branch c.semantic_branch).1 a.branch,
          (status_lem c.semantic_status c.semantic_branch).1
              (a.status, a.supports_h1, a.supports_h2),
        )
        ((rounds_lem c.max_repair_rounds).1 a.rounds),
)
