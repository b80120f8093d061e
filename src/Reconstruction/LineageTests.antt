-- ===== src/Reconstruction/LineageTests.antt =====
-- Tests of the lineage, the hand-over and the live generator, and the results at concrete inputs.
use lzd.Common.{◌<◌, ◌≤◌, ◌≡◌, refl, ◌↔◌, ◌⊎◌, true, List, [], ◌∷◌, map, none, some, In, All, arith}
use lzd.Common.Outcome.{ok, err, lineage_violation}
use lzd.Reconstruction.State.{
  real, synthetic, Provenance, new_provenance, CustomerState, h1_supported,
}
use lzd.Reconstruction.Lineage.{
  provenance_to_row, provenance_from_row, assert_production_train_eligible, assert_no_cycle,
}
use lzd.Reconstruction.Lineage.Eligible.{IsTrainable, provenance_from_row-to_row, eligible_iff}
use lzd.Reconstruction.Lineage.Cycle.{Decides, assert_no_cycle_lem}
use lzd.Reconstruction.Live.{FutureEvent, rule_based, rule_events, live_generator}
use lzd.Reconstruction.Live.Window.{
  IsTraceable, live_generator-rule_based, live_generator-IsTraceable,
}
use lzd.Reconstruction.Tests.{
  hashing, target, candidate, two_branch, now, solved_target, solved_status,
}
use lzd.Reconstruction.Candidate.{f5}
use lzd.Reconstruction.Engine.{Event, SolveOutcome, solved, repaired}
use lzd.Reconstruction.Handoff.{
  GateReport, Identity, state_of, to_customer_state, to_customer_state_iff,
  to_customer_state-solved,
}

abbrev real_row : Provenance
real_row = record {
  source_type = real;
  generation_run_id = "r0";
  root_generation_id = "r0";
  parent_run_id = none;
  parent_target_id = none;
  parent_entity_id = none;
  parent_feature_version = none;
  ancestor_model_ids = [];
  behaviour_policy_version = none;
  created_at = none;
}

abbrev synthetic_row : Provenance
synthetic_row = record real_row {
  source_type = synthetic;
  generation_run_id = "r1";
  parent_run_id = some "r0";
  behaviour_policy_version = some "p1";
}

two_parents : assert_no_cycle (("r2", some "r1") ∷ ("r1", some "r0") ∷ ("r0", none) ∷ []) ≡ ok tt
unfolding assert_no_cycle
two_parents = refl

own_ancestor : assert_no_cycle (("r1", some "r2") ∷ ("r2", some "r1") ∷ []) ≡ err lineage_violation
unfolding assert_no_cycle
own_ancestor = refl

mixed_root :
    assert_production_train_eligible (real_row ∷ synthetic_row ∷ []) ≡ err lineage_violation
unfolding assert_production_train_eligible
mixed_root = refl

assert_no_cycle_lem_example :
    Decides
      (("r1", some "r2") ∷ ("r2", some "r1") ∷ [])
      (assert_no_cycle (("r1", some "r2") ∷ ("r2", some "r1") ∷ []))
assert_no_cycle_lem_example = assert_no_cycle_lem (("r1", some "r2") ∷ ("r2", some "r1") ∷ [])

eligible_iff_example :
    (assert_production_train_eligible (real_row ∷ synthetic_row ∷ []) ≡ ok tt)
    ↔ ((r : Provenance) → In r (real_row ∷ synthetic_row ∷ []) → IsTrainable r)
eligible_iff_example = eligible_iff (real_row ∷ synthetic_row ∷ [])

provenance_from_row-to_row_example :
    provenance_from_row (provenance_to_row synthetic_row) ≡ new_provenance synthetic_row
provenance_from_row-to_row_example = provenance_from_row-to_row synthetic_row

abbrev state : CustomerState
state = record {
  customer_id = "C1";
  as_of_ts = 86_400_000_000;
  as_of_aware = true;
  source_target_id = "t1";
  attributes = ("age", 3) ∷ [];
  counters = ("f5", some 2) ∷ [];
  semantic_branch = none;
  semantic_status = h1_supported;
  provenance = real_row;
  last_event_ts = none;
}

next_day :
    (es : List FutureEvent) × (live_generator hashing state
        (rule_based hashing)
        86_400_000_000
        172_800_000_000
        5
      ≡ ok es)
    × (map (λ e. (e.event_type, e.event_ts)) es
        ≡ rule_events hashing state 86_400_000_000 172_800_000_000 5)
    × All (λ e. (86_400_000_000 ≤ e.event_ts) × (e.event_ts < 172_800_000_000)) es
next_day =
    live_generator-rule_based hashing state 86_400_000_000 172_800_000_000 5 (omega arith)
      (omega arith)

live_generator-rule_based_example :
    (es : List FutureEvent) × (live_generator hashing state
        (rule_based hashing)
        86_400_000_000
        172_800_000_000
        5
      ≡ ok es)
    × (map (λ e. (e.event_type, e.event_ts)) es
        ≡ rule_events hashing state 86_400_000_000 172_800_000_000 5)
    × All (λ e. (86_400_000_000 ≤ e.event_ts) × (e.event_ts < 172_800_000_000)) es
live_generator-rule_based_example =
    live_generator-rule_based hashing state 86_400_000_000 172_800_000_000 5 (omega arith)
      (omega arith)

live_generator-IsTraceable_example : All (IsTraceable state) next_day.0
live_generator-IsTraceable_example =
    live_generator-IsTraceable hashing state (rule_based hashing) 86_400_000_000 172_800_000_000 5
      next_day.0 next_day.1

abbrev outcome : SolveOutcome
outcome = record {
  status = solved;
  events =
      record {
        event_id = "e";
        gen_reason = f5;
        day_offset = 1;
        sub_index = 0;
        occurrence = 0;
        event_ts = 500;
        event_type = "EVT_F5";
      }
      ∷ [];
  candidate = some candidate;
  pool_size = 1;
  objective_summary = none;
}

abbrev gates : GateReport
gates = record { gate_a = true; gate_a_t3 = true; gate_b = true; gate_c = true }

abbrev identity : Identity
identity = record {
  customer_id = "C1";
  target_id = "t1";
  attributes = [];
  semantic_branch = none;
  semantic_status = h1_supported;
  provenance = real_row;
}

handed_over :
    to_customer_state outcome target gates identity 1_000 true
    ≡ ok (state_of outcome target identity 1_000 true)
unfolding to_customer_state
handed_over = refl

to_customer_state_iff_example :
    (to_customer_state outcome target gates identity 1_000 true
      ≡ ok (state_of outcome target identity 1_000 true))
    ↔ (((outcome.status ≡ solved) ⊎ (outcome.status ≡ repaired))
        × ((gates.gate_a ≡ true)
            × (gates.gate_a_t3 ≡ true)
            × (gates.gate_b ≡ true)
            × (gates.gate_c ≡ true))
        × (true ≡ true)
        × ((e : Event) → In e outcome.events → e.event_ts < 1_000)
        × (state_of outcome target identity 1_000 true
            ≡ state_of outcome target identity 1_000 true))
to_customer_state_iff_example =
    to_customer_state_iff outcome target gates identity 1_000 true
      (state_of outcome target identity 1_000 true)

to_customer_state-solved_example :
    to_customer_state solved_target.0 target gates identity now true
    ≡ ok (state_of solved_target.0 target identity now true)
to_customer_state-solved_example =
    to_customer_state-solved hashing target two_branch 5 now solved_target.0 gates identity
      solved_target.1 solved_status refl
