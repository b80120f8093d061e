-- ===== src/Reconstruction/Live.antt =====
-- live.py: the generator of future events, and the rule-based behaviour. Times are microseconds.
pub mod Window
use lzd.Common.{
  ℕ, zero, suc, ◌+◌, ◌-◌, ◌*◌, ◌/◌, ◌%◌, ◌≡◌, Bool, true, false, ◌&&◌, ◌||◌, not, List, [], ◌∷◌,
  ◌++◌, map, Option, none, some, String, ltb, leb, ◌==◌, ◌==ₛ◌, if◌then◌else◌, get_elem?,
  range_from, flat_map,
}
use Prim.Native.Nat.{max, min, Ordering}
use Prim.Native.String.{compare}
use lzd.Common.Outcome.{Outcome, ok, err, temporal_violation, value_error, ◌>>=◌, ◌>>◌, raise_if}
use lzd.Common.Sorting.{sort_by}
use lzd.Reconstruction.Hashing.{Part, text, number, Hashing, from_bytes}
use lzd.Reconstruction.State.{SourceType, synthetic, Provenance, CustomerState, new_provenance}
use lzd.Reconstruction.Engine.{second, day}

pub record FutureEvent : Type 0 where
  pub event_id : String
  pub customer_id : String
  pub event_type : String
  pub event_ts : ℕ
  pub session_id : String
  pub provenance : Provenance
  pub source_type : SourceType
  pub track : String

-- The protocol `BehaviourModel`; `next_events` takes the state, `t_from`, `t_to` and the seed.
pub record BehaviourModel : Type 0 where
  pub policy_version : String
  pub next_events : CustomerState → ℕ → ℕ → ℕ → List (String × ℕ)

abbrev is_synthetic : SourceType → Bool
is_synthetic synthetic = true
is_synthetic _ = false

-- `FutureEvent(…)`, whose `source_type` is the default "SYNTHETIC"
unfoldable pub new_future_event : FutureEvent → Outcome FutureEvent
new_future_event e = if not (is_synthetic e.provenance.source_type) then err value_error else ok e

abbrev item_le : String × ℕ → String × ℕ → Bool
item_le (s, m) (t, n) = elim (compare s t) [
  | Ordering.lt ↦ true
  | Ordering.eq ↦ leb m n
  | Ordering.gt ↦ false
]

-- The sum of `(index + 1) * (level + 1)` over the sorted attributes.
abbrev signal_from : ℕ → List (String × ℕ) → ℕ
signal_from i [] = 0
signal_from i ((_, level) ∷ items) = (i + 1) * (level + 1) + signal_from (i + 1) items

unfoldable pub attribute_signal : CustomerState → ℕ
unfolding sort_by
attribute_signal s = signal_from 0 (sort_by item_le s.attributes)

-- `state.counters.get("f5", 0)`; the counter of f5 is never None in a state of the hand-over.
abbrev counter : String → List (String × Option ℕ) → ℕ
counter k [] = 0
counter k ((j, v) ∷ cs) = if j ==ₛ k then elim v [ none ↦ 0 | some n ↦ n ] else counter k cs

-- `base_events_per_day` of the default `RuleBasedBehaviour`
abbrev base_events_per_day : ℕ
base_events_per_day = 2

unfoldable pub intensity : CustomerState → ℕ
unfolding attribute_signal
intensity s = base_events_per_day + min (counter "f5" s.counters) 5 + attribute_signal s % 3

-- A byte of a digest, which has 32.
abbrev byte : ℕ → List ℕ → ℕ
byte i bytes = elim (get_elem? bytes i) [ none ↦ 0 | some b ↦ b ]

abbrev kind_of : ℕ → String
kind_of n =
    if n % 3 == 0
    then "PRODUCT_VIEWED"
    else if n % 3 == 1
    then "ITEM_ADDED_TO_CART"
    else "SESSION_STARTED"

abbrev span_days : ℕ → ℕ → ℕ
span_days t_from t_to = max ((t_to - t_from) / day) 1

module _ (h : Hashing) (s : CustomerState) (t_from t_to rng_seed : ℕ) where
  -- The event that the rule makes for one index of one day, unless it falls past the end.
  unfoldable pub rule_event : ℕ → ℕ → List (String × ℕ)
  rule_event d i =
      let digest = h.sha256 (text s.customer_id ∷ number rng_seed ∷ number d ∷ number i ∷ []) in
      let ts = t_from + d * day + from_bytes 4 0 digest % 86_400 * second in
      if leb t_to ts then [] else (kind_of (byte 4 digest + attribute_signal s), ts) ∷ []

  -- `RuleBasedBehaviour.next_events`
  unfoldable pub rule_events : List (String × ℕ)
  unfolding rule_event attribute_signal intensity
  rule_events =
      flat_map (λ d. flat_map (rule_event d) (range_from 0 (intensity s)))
        (range_from 0 (span_days t_from t_to))

unfoldable pub rule_based : Hashing → BehaviourModel
unfolding rule_events
rule_based h = record { policy_version = "rule_v1"; next_events = rule_events h }

abbrev pub run_provenance : String → CustomerState → String → ℕ → Provenance
run_provenance run_id s policy t_from = record {
  source_type = synthetic;
  generation_run_id = run_id;
  root_generation_id = s.provenance.root_generation_id;
  parent_run_id = some s.provenance.generation_run_id;
  parent_target_id = none;
  parent_entity_id = some s.customer_id;
  parent_feature_version = s.provenance.parent_feature_version;
  ancestor_model_ids = [];
  behaviour_policy_version = some policy;
  created_at = some t_from;
}

module _ (h : Hashing) (s : CustomerState) (run_id : String) (p : Provenance) (rng_seed : ℕ) where
  abbrev future_event : String → ℕ → FutureEvent
  future_event kind ts = record {
    event_id = h.uuid5 2 (
        text run_id ∷ text s.customer_id ∷ text "B" ∷ text kind ∷ number ts ∷ number rng_seed ∷ []);
    customer_id = s.customer_id;
    event_type = kind;
    event_ts = ts;
    session_id =
        h.uuid5 2 (text run_id ∷ text s.customer_id ∷ number (ts / day) ∷ number rng_seed ∷ []);
    provenance = p;
    source_type = synthetic;
    track = "B";
  }

  -- The loop over the behaviour's events; the first bad one raises.
  unfoldable pub emit : List (String × ℕ) → Outcome (List FutureEvent)
  unfolding new_future_event
  emit [] = ok []
  emit ((kind, ts) ∷ rest) =
      raise_if (ltb ts s.as_of_ts) temporal_violation
      >> (new_future_event (future_event kind ts) >>= λ e. emit rest >>= λ es. ok (e ∷ es))

-- The identifier of the generator's run.
abbrev pub live_run_id : Hashing → CustomerState → BehaviourModel → ℕ → ℕ → ℕ → String
live_run_id h s m t_from t_to rng_seed = h.uuid5 2 (
    text s.provenance.generation_run_id
    ∷ text s.customer_id
    ∷ text "run"
    ∷ number t_from
    ∷ number t_to
    ∷ text m.policy_version
    ∷ number rng_seed
    ∷ [])

-- `list(live_generator(…))`
unfoldable pub live_generator :
    Hashing → CustomerState → BehaviourModel → ℕ → ℕ → ℕ → Outcome (List FutureEvent)
unfolding emit new_provenance
live_generator h s m t_from t_to rng_seed =
    let run_id = live_run_id h s m t_from t_to rng_seed in
    raise_if (ltb t_from s.as_of_ts) temporal_violation
    >> (raise_if (leb t_to t_from) temporal_violation
        >> (new_provenance (run_provenance run_id s m.policy_version t_from) >>= λ p.
            emit h s run_id p rng_seed (m.next_events s t_from t_to rng_seed)))
