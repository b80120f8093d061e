-- ===== src/Reconstruction/Handoff.antt =====
-- handoff.py: the hand-over from Track A to Track B.
use lzd.Common.{
  ℕ, ◌<◌, ◌≡◌, refl, sym, ap, ◌∙◌, ◌↔◌, ◌⊎◌, inl, inr, Bool, true, false, ◌&&◌, not, List, [], ◌∷◌,
  Option, none, some, String, In, arith, Option-cases,
}
use Prim.Native.Nat.{max}
use lzd.Common.Outcome.{
  Outcome, ok, handoff_refused, value_error, ◌>>◌, raise_if, raise_if-ok, ok-injective,
}
use lzd.Reconstruction.Hashing.{Hashing}
use lzd.Reconstruction.Semantics.{DecodedTarget, SemanticBranch}
use lzd.Reconstruction.Engine.{
  Event, SolveOutcome, SolveStatus, solved, quarantined, repaired, solve,
}
use lzd.Reconstruction.Engine.Solve.{solve-Solves}
use lzd.Reconstruction.State.{
  Provenance, CustomerState, SemanticBranchName, SemanticStatus, new_customer_state, too_late,
}

pub record GateReport : Type 0 where
  pub gate_a : Bool
  pub gate_a_t3 : Bool
  pub gate_b : Bool
  pub gate_c : Bool

-- `GateReport.all_passed`
abbrev pub all_passed : GateReport → Bool
all_passed g = g.gate_a && (g.gate_a_t3 && (g.gate_b && g.gate_c))

-- `outcome.status in HANDOFF_ALLOWED`
abbrev pub handoff_allowed : SolveStatus → Bool
handoff_allowed solved = true
handoff_allowed repaired = true
handoff_allowed quarantined = false

-- `max((e.event_ts for e in events), default=None)`
abbrev pub last_event_ts : List Event → Option ℕ
last_event_ts [] = none
last_event_ts (e ∷ es) = elim (last_event_ts es) [
  | none ↦ some e.event_ts
  | some t ↦ some (max e.event_ts t)
]

-- The arguments of the hand-over that it only passes on.
pub record Identity : Type 0 where
  pub customer_id : String
  pub target_id : String
  pub attributes : List (String × ℕ)
  pub semantic_branch : Option SemanticBranchName
  pub semantic_status : SemanticStatus
  pub provenance : Provenance

abbrev pub state_of : SolveOutcome → DecodedTarget → Identity → ℕ → Bool → CustomerState
state_of o d i reference_ts aware = record {
  customer_id = i.customer_id;
  as_of_ts = reference_ts;
  as_of_aware = aware;
  source_target_id = i.target_id;
  attributes = i.attributes;
  counters = ("f5", some d.n5) ∷ ("f11", d.n11) ∷ ("f18", d.n18) ∷ ("f30", d.n30) ∷ [];
  semantic_branch = i.semantic_branch;
  semantic_status = i.semantic_status;
  provenance = i.provenance;
  last_event_ts = last_event_ts o.events;
}

-- `to_customer_state`
unfoldable pub to_customer_state :
    SolveOutcome → DecodedTarget → GateReport → Identity → ℕ → Bool → Outcome CustomerState
unfolding new_customer_state
to_customer_state o d g i reference_ts aware = do
  raise_if (not (handoff_allowed o.status)) handoff_refused
  raise_if (not (all_passed g)) handoff_refused
  new_customer_state (state_of o d i reference_ts aware)

last_event_ts-lt :
    (es : List Event) (n t : ℕ)
    → ((e : Event) → In e es → e.event_ts < n)
    → last_event_ts es ≡ some t
    → t < n
last_event_ts-lt [] n t h p = cc
last_event_ts-lt (e ∷ es) n t h p =
    let first = h e (inl refl) in
    let rest =
      λ (u : ℕ) (q : last_event_ts es ≡ some u). last_event_ts-lt es n u (λ f i. h f (inr i)) q in
    tail e es n t first rest p
  where
    tail :
        (e : Event) (es : List Event) (n t : ℕ)
        → e.event_ts < n
        → ((u : ℕ) → last_event_ts es ≡ some u → u < n)
        → last_event_ts (e ∷ es) ≡ some t
        → t < n
    tail e es n t first rest p = elim (Option-cases (last_event_ts es)) [
      | inl q ↦ ground arith
      | inr (u, q) ↦ let lt = rest u q in ground arith
    ]

allowed_iff : (s : SolveStatus) → (handoff_allowed s ≡ true) ↔ ((s ≡ solved) ⊎ (s ≡ repaired))
allowed_iff solved = (λ h. inl refl, λ h. refl)
allowed_iff repaired = (λ h. inr refl, λ h. refl)
allowed_iff quarantined = (λ h. cc, λ h. elim h [ inl e ↦ cc | inr e ↦ cc ])

all_passed-gates :
    (g : GateReport)
    → (all_passed g ≡ true)
      ↔ ((g.gate_a ≡ true) × (g.gate_a_t3 ≡ true) × (g.gate_b ≡ true) × (g.gate_c ≡ true))
all_passed-gates g = all_four g.gate_a g.gate_a_t3 g.gate_b g.gate_c
  where
    all_four :
        (a t b c : Bool)
        → (a && (t && (b && c)) ≡ true) ↔ ((a ≡ true) × (t ≡ true) × (b ≡ true) × (c ≡ true))
    all_four true true true true = (λ h. (refl, refl, refl, refl), λ h. refl)
    all_four true true true false = (λ h. cc, λ (_, _, _, h). cc)
    all_four true true false c = (λ h. cc, λ (_, _, h, _). cc)
    all_four true false b c = (λ h. cc, λ (_, h, _, _). cc)
    all_four false t b c = (λ h. cc, λ (h, _, _, _). cc)

is_true : (b : Bool) → not b ≡ false → b ≡ true
is_true b h = ground arith

before : (last : Option ℕ) (n t : ℕ) → too_late last n ≡ false → last ≡ some t → t < n
before last n t h p = ground arith

not_too_late :
    (last : Option ℕ) (n : ℕ) → ((t : ℕ) → last ≡ some t → t < n) → too_late last n ≡ false
not_too_late none n h = refl
not_too_late (some t) n h = let lt = h t refl in ground arith

-- The events of a solved outcome lie before the reference.
solved_before :
    (h : Hashing) (d : DecodedTarget) (b : SemanticBranch) (target_id : String)
    (seed reference_ts : ℕ) (o : SolveOutcome)
    → solve h d b target_id seed reference_ts ≡ ok o
    → o.status ≡ solved
    → (e : Event) → In e o.events
    → e.event_ts < reference_ts
solved_before h d b target_id seed reference_ts o p st =
    elim (solve-Solves h d b target_id seed reference_ts o p) [
      | inl q ↦ absurd (unsolved o.status st q.status)
      | inr (c, s) ↦ s.before
    ]
  where
    unsolved : (s : SolveStatus) → s ≡ solved → s ≡ quarantined → ⊥
    unsolved s p q = cc

lt-last_event_ts :
    (es : List Event) (n : ℕ)
    → ((t : ℕ) → last_event_ts es ≡ some t → t < n)
    → (e : Event) → In e es
    → e.event_ts < n
lt-last_event_ts [] n h e i = elim i [ ]
lt-last_event_ts (f ∷ es) n h e i = elim (Option-cases (last_event_ts es)) [
  | inl q ↦ elim i [
    | inl p ↦ rw p (h f.event_ts (rw q refl))
    | inr j ↦ lt-last_event_ts es n (λ t p. absurd (cc (p, q))) e j
  ]
  | inr (u, q) ↦
      let most = h (max f.event_ts u) (rw q refl) in
      elim i [
        | inl p ↦ rw p (let a = most in ground arith)
        | inr j ↦
            lt-last_event_ts es n
              (λ t p. let e = same u t (sym q ∙ p) in let a = most in ground arith) e j
      ]
]
  where
    same : (u t : ℕ) → some u ≡ some t → u ≡ t
    same u t h = cc h

-- A hand-over succeeds exactly when the target was solved or repaired, all four gates passed, the
-- time has a zone and every event lies before it; and what it gives is the state of its arguments.
pub to_customer_state_iff :
    (o : SolveOutcome) (d : DecodedTarget) (g : GateReport) (i : Identity) (reference_ts : ℕ)
    (aware : Bool) (s : CustomerState)
    → (to_customer_state o d g i reference_ts aware ≡ ok s) ↔ (
        ((o.status ≡ solved) ⊎ (o.status ≡ repaired))
        × ((g.gate_a ≡ true) × (g.gate_a_t3 ≡ true) × (g.gate_b ≡ true) × (g.gate_c ≡ true))
        × (aware ≡ true)
        × ((e : Event) → In e o.events → e.event_ts < reference_ts)
        × (s ≡ state_of o d i reference_ts aware))
unfolding to_customer_state
to_customer_state_iff o d g i reference_ts aware s = (
  λ e.
      let (allowed, e1) = raise_if-ok (not (handoff_allowed o.status)) handoff_refused _ s e in
      let (passed, e2) = raise_if-ok (not (all_passed g)) handoff_refused _ s e1 in
      let (zoned, e3) = raise_if-ok (not aware) value_error _ s e2 in
      let (early, e4) =
        raise_if-ok (too_late (last_event_ts o.events) reference_ts) value_error _ s e3 in
      (
        (allowed_iff o.status).0 (is_true (handoff_allowed o.status) allowed),
        (all_passed-gates g).0 (is_true (all_passed g) passed),
        is_true aware zoned,
        lt-last_event_ts o.events reference_ts
            (λ t q. before (last_event_ts o.events) reference_ts t early q),
        sym (ok-injective (state_of o d i reference_ts aware) s e4),
      ),
  λ (allowed, passed, zoned, early, same).
      rw
        (
          (allowed_iff o.status).1 allowed,
          (all_passed-gates g).1 passed,
          zoned,
          not_too_late (last_event_ts o.events) reference_ts
              (λ t q. last_event_ts-lt o.events reference_ts t early q),
        )
        (ap ok (sym (same ∙ rw zoned refl))),
)

-- Every outcome of the solver that is solved is handed over, once its gates have passed and the
-- reference has a zone: the check on the last event never refuses it.
pub to_customer_state-solved :
    (h : Hashing) (d : DecodedTarget) (b : SemanticBranch) (seed reference_ts : ℕ)
    (o : SolveOutcome) (g : GateReport) (i : Identity)
    → solve h d b i.target_id seed reference_ts ≡ ok o
    → o.status ≡ solved
    → all_passed g ≡ true
    → to_customer_state o d g i reference_ts true ≡ ok (state_of o d i reference_ts true)
unfolding to_customer_state
to_customer_state-solved h d b seed reference_ts o g i e st p =
    let early = not_too_late (last_event_ts o.events) reference_ts (λ t q.
      last_event_ts-lt o.events reference_ts t
        (solved_before h d b i.target_id seed reference_ts o e st) q) in
    rw (st, p, early)
