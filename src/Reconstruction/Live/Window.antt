-- ===== src/Reconstruction/Live/Window.antt =====
-- live.py: Gate B. Track B writes nothing before the time of the state that it starts from.
use lzd.Common.{
  ℕ, ◌≤◌, ◌<◌, ◌≡◌, refl, ap, ◌∙◌, false, List, [], ◌∷◌, map, some, String, ltb, leb, All,
  All-append, range_from, flat_map, arith, Bool-cases, inl, inr,
}
use lzd.Common.Outcome.{ok, temporal_violation, raise_if-ok, >>=-eq-ok, ok-injective}
use lzd.Reconstruction.Hashing.{Hashing}
use lzd.Reconstruction.State.{Provenance, CustomerState, synthetic, new_provenance, lacks_lineage}
use lzd.Reconstruction.Live.{
  FutureEvent, BehaviourModel, rule_event, rule_events, rule_based, emit, live_generator,
  run_provenance, live_run_id, intensity, future_event, span_days,
}

-- A time of the window that the generator was asked to fill.
abbrev pub InWindow : ℕ → ℕ → String × ℕ → Type 0
InWindow t_from t_to e = (t_from ≤ e.1) × (e.1 < t_to)

All-flat_map :
    {A : Type 0} (P : String × ℕ → Type 0) (f : A → List (String × ℕ)) (xs : List A)
    → ((x : A) → All P (f x))
    → All P (flat_map f xs)
All-flat_map P f [] h = tt
All-flat_map P f (x ∷ xs) h = All-append P (f x) (flat_map f xs) (h x) (All-flat_map P f xs h)

module _ (h : Hashing) (s : CustomerState) (t_from t_to rng_seed : ℕ) where
  rule_event-InWindow :
      (d i : ℕ) → All (InWindow t_from t_to) (rule_event h s t_from t_to rng_seed d i)
  unfolding rule_event
  rule_event-InWindow d i = ground arith

  -- The rule-based behaviour makes events in the asked window alone.
  pub rule_events-InWindow : All (InWindow t_from t_to) (rule_events h s t_from t_to rng_seed)
  unfolding rule_events
  rule_events-InWindow =
      All-flat_map (InWindow t_from t_to)
        (λ d. flat_map (rule_event h s t_from t_to rng_seed d) (range_from 0 (intensity s)))
        (range_from 0 (span_days t_from t_to))
        (λ d.
          All-flat_map (InWindow t_from t_to) (rule_event h s t_from t_to rng_seed d)
            (range_from 0 (intensity s)) (rule_event-InWindow d))

-- An event is traceable: it is not before the state's time, and its provenance names the state's
-- run as its parent and keeps the state's root.
abbrev pub IsTraceable : CustomerState → FutureEvent → Type 0
IsTraceable s e =
    (s.as_of_ts ≤ e.event_ts)
    × (e.provenance.source_type ≡ synthetic)
    × (e.provenance.root_generation_id ≡ s.provenance.root_generation_id)
    × (e.provenance.parent_run_id ≡ some s.provenance.generation_run_id)

module _ (h : Hashing) (s : CustomerState) (run_id policy : String) (t_from rng_seed : ℕ) where
  abbrev origin : Provenance
  origin = run_provenance run_id s policy t_from

  emit-IsTraceable :
      (ps : List (String × ℕ)) (es : List FutureEvent)
      → emit h s run_id origin rng_seed ps ≡ ok es
      → All (IsTraceable s) es
  unfolding emit
  emit-IsTraceable [] es e = rw (← ok-injective [] es e) tt
  emit-IsTraceable ((kind, ts) ∷ ps) es e =
      let (later, e1) = raise_if-ok (ltb ts s.as_of_ts) temporal_violation _ es e in
      let (fs, e2, e3) = >>=-eq-ok (emit h s run_id origin rng_seed ps) _ e1 in
      rw (← ok-injective _ es e3)
        ((not_before ts s.as_of_ts later, refl, refl, refl), emit-IsTraceable ps fs e2)
    where
      not_before : (t n : ℕ) → ltb t n ≡ false → n ≤ t
      not_before t n h = ground arith

  -- Events that all lie at or after the state's time are all emitted.
  emit-total :
      (ps : List (String × ℕ))
      → All (λ p. s.as_of_ts ≤ p.1) ps
      → (es : List FutureEvent) × (emit h s run_id origin rng_seed ps ≡ ok es)
        × (map (λ e. (e.event_type, e.event_ts)) es ≡ ps)
  unfolding emit
  emit-total [] a = ([], refl, refl)
  emit-total ((kind, ts) ∷ ps) (late, a) =
      let (es, e, m) = emit-total ps a in
      let on_time : ltb ts s.as_of_ts ≡ false = ground arith in
      (future_event h s run_id origin rng_seed kind ts ∷ es, rw on_time (rw e), cc (m))

new_provenance-eq : (q p : Provenance) → new_provenance q ≡ ok p → q ≡ p
unfolding new_provenance
new_provenance-eq q p e = elim (Bool-cases (lacks_lineage q)) [
  | inl bad ↦ absurd (cc (rw bad at e))
  | inr good ↦ ok-injective q p (rw good at e)
]

-- Whatever the behaviour model does, a generator that raises nothing has made traceable events
-- only.
pub live_generator-IsTraceable :
    (h : Hashing) (s : CustomerState) (m : BehaviourModel) (t_from t_to rng_seed : ℕ)
    (es : List FutureEvent)
    → live_generator h s m t_from t_to rng_seed ≡ ok es
    → All (IsTraceable s) es
unfolding live_generator
live_generator-IsTraceable h s m t_from t_to rng_seed es e =
    let run_id = live_run_id h s m t_from t_to rng_seed in
    let start = run_provenance run_id s m.policy_version t_from in
    let (_, e1) = raise_if-ok (ltb t_from s.as_of_ts) temporal_violation _ es e in
    let (_, e2) = raise_if-ok (leb t_to t_from) temporal_violation _ es e1 in
    let (p, e3, e4) = >>=-eq-ok (new_provenance start) _ e2 in
    let ps = m.next_events s t_from t_to rng_seed in
    emit-IsTraceable h s run_id m.policy_version t_from rng_seed ps es
      (ap (λ q. emit h s run_id q rng_seed ps) (new_provenance-eq start p e3) ∙ e4)

late_enough :
    (n t_from t_to : ℕ) (ps : List (String × ℕ))
    → n ≤ t_from
    → All (InWindow t_from t_to) ps
    → All (λ p. n ≤ p.1) ps
late_enough n t_from t_to [] le a = tt
late_enough n t_from t_to (p ∷ ps) le a = (omega arith, late_enough n t_from t_to ps le a.1)

unmapped :
    (t_from t_to : ℕ) (es : List FutureEvent)
    → All (InWindow t_from t_to) (map (λ e. (e.event_type, e.event_ts)) es)
    → All (λ e. (t_from ≤ e.event_ts) × (e.event_ts < t_to)) es
unmapped t_from t_to [] a = tt
unmapped t_from t_to (e ∷ es) a = (a.0, unmapped t_from t_to es a.1)

-- From a window that starts at or after the state's time and is not empty, the generator with the
-- rule-based behaviour raises nothing. It makes the events of the rule in order, each inside the
-- window.
pub live_generator-rule_based :
    (h : Hashing) (s : CustomerState) (t_from t_to rng_seed : ℕ)
    → s.as_of_ts ≤ t_from
    → t_from < t_to
    → (es : List FutureEvent) × (live_generator h s (rule_based h) t_from t_to rng_seed ≡ ok es)
      × (map (λ e. (e.event_type, e.event_ts)) es ≡ rule_events h s t_from t_to rng_seed)
      × All (λ e. (t_from ≤ e.event_ts) × (e.event_ts < t_to)) es
unfolding live_generator rule_based
live_generator-rule_based h s t_from t_to rng_seed le lt =
    let run_id = live_run_id h s (rule_based h) t_from t_to rng_seed in
    let inside = rule_events-InWindow h s t_from t_to rng_seed in
    let (es, e, m) =
      emit-total h s run_id "rule_v1" t_from rng_seed (rule_events h s t_from t_to rng_seed)
        (late_enough s.as_of_ts t_from t_to (rule_events h s t_from t_to rng_seed) le inside) in
    let first : ltb t_from s.as_of_ts ≡ false = ground arith in
    let second : leb t_to t_from ≡ false = ground arith in
    (es, rw (first, second) e, m, unmapped t_from t_to es (rw (← m) at inside))
