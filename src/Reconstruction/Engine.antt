-- ===== src/Reconstruction/Engine.antt =====
-- engine.py: the phases P1 to P4 and their order. A `datetime` is the number of microseconds since
-- the first midnight of its calendar, in the reference's own time zone.
pub mod Pool
pub mod Materialize
pub mod Groups
pub mod Solve
pub mod Total
use Prim.Native.Nat.{Ordering}
use Prim.Native.String.{compare}
use lzd.Common.{
  ℕ, ◌+◌, ◌-◌, ◌*◌, ◌/◌, ◌%◌, ◌≡◌, Bool, true, false, ◌&&◌, ◌||◌, List, [], ◌∷◌, ◌++◌, map, ltb,
  leb, ◌==◌, if◌then◌else◌, Option, none, some, String, length, keep_if, get_elem?, range_from,
  flat_map,
}
use lzd.Common.Outcome.{Outcome, ok, err, unsolvable, overflow_error, ◌>>=◌, ◌>>◌, raise_if}
use lzd.Common.Sorting.{sort_by}
use lzd.Reconstruction.Hashing.{Part, text, number, reason, Hashing, from_bytes}
use lzd.Reconstruction.Candidate.{
  Reason, free, f5, f11, f18, f19, f30, recency, rank, is_reason, Slot, slot_le, Candidate, key,
  active_days, sessions, total_events, unexplained_events,
}
use lzd.Reconstruction.Semantics.{DecodedTarget, SemanticBranch}

-- P1, `feasible_candidates`
unfoldable pub feasible_candidates : DecodedTarget → SemanticBranch → List Candidate
feasible_candidates d b = keep_if (λ c. b.is_feasible c d) (b.candidates d)

-- The order of tuples of two integers.
abbrev pub lex_lt : ℕ × ℕ → ℕ × ℕ → Bool
lex_lt (a, b) (c, d) = ltb a c || (a == c && ltb b d)

abbrev pub lex_eq : ℕ × ℕ → ℕ × ℕ → Bool
lex_eq (a, b) (c, d) = a == c && b == d

-- `min(xs)`, from a first value
abbrev pub lex_min : ℕ × ℕ → List (ℕ × ℕ) → ℕ × ℕ
lex_min best [] = best
lex_min best (x ∷ xs) = lex_min (if lex_lt x best then x else best) xs

-- The order of `Candidate.key()`.
abbrev key_le : List (Reason × ℕ × ℕ) → List (Reason × ℕ × ℕ) → Bool
key_le [] ys = true
key_le (x ∷ xs) [] = false
key_le ((r, d, c) ∷ xs) ((q, e, n) ∷ ys) =
    ltb (rank r) (rank q)
    || (is_reason r q && (ltb d e || (d == e && (ltb c n || (c == n && key_le xs ys)))))

abbrev pub candidate_le : Candidate → Candidate → Bool
candidate_le c e = key_le (key c) (key e)

-- P2, `optimal_pool`
unfoldable pub optimal_pool : List Candidate → SemanticBranch → List Candidate
unfolding sort_by
optimal_pool [] b = []
optimal_pool (c ∷ cs) b =
    let best = lex_min (b.objective c) (map b.objective cs) in
    sort_by candidate_le (keep_if (λ e. lex_eq (b.objective e) best) (c ∷ cs))

-- The statuses; the solver gives the first two, and the hand-over also knows REPAIRED.
pub data SolveStatus : Type 0 where
  solved quarantined repaired : SolveStatus

pub record Event : Type 0 where
  pub event_id : String
  pub gen_reason : Reason
  pub day_offset : ℕ
  pub sub_index : ℕ
  pub occurrence : ℕ
  pub event_ts : ℕ
  pub event_type : String

-- `EVENT_TYPE_OF`
abbrev pub event_type_of : Reason → String
event_type_of f5 = "EVT_F5"
event_type_of f11 = "EVT_F11"
event_type_of f18 = "EVT_F18"
event_type_of f19 = "EVT_F19"
event_type_of f30 = "EVT_F30"
event_type_of recency = "EVT_ORDER_PAID"
event_type_of free = "EVT_SESSION_STARTED"

abbrev pub second : ℕ
second = 1_000_000

abbrev pub day : ℕ
day = 86_400_000_000

-- The second of the day that a digest picks below `upper`.
abbrev pick_second : List ℕ → ℕ → ℕ
pick_second digest upper = from_bytes 4 0 digest % upper * second

pub record ObjectiveSummary : Type 0 where
  pub unexplained : ℕ
  pub days : ℕ
  pub session_count : ℕ
  pub events : ℕ
  pub objective_value : ℕ × ℕ

pub record SolveOutcome : Type 0 where
  pub status : SolveStatus
  pub events : List Event
  pub candidate : Option Candidate
  pub pool_size : ℕ
  pub objective_summary : Option ObjectiveSummary

-- The order of `canonical_sequence`.
abbrev text_lt : String → String → Bool
text_lt s t = elim (compare s t) [ Ordering.lt ↦ true | _ ↦ false ]

abbrev text_le : String → String → Bool
text_le s t = elim (compare s t) [ Ordering.gt ↦ false | _ ↦ true ]

abbrev pub event_le : Event → Event → Bool
event_le e f =
    ltb e.event_ts f.event_ts
    || (e.event_ts == f.event_ts
        && (text_lt e.event_type f.event_type
            || (text_le e.event_type f.event_type && text_le e.event_id f.event_id)))

-- P4, `canonical_sequence`
unfoldable pub canonical_sequence : List Event → List Event
unfolding sort_by
canonical_sequence = sort_by event_le

-- `candidate_slot_id`
abbrev pub SlotId : Type 0
SlotId = Reason × ℕ × ℕ

-- The identifiers of a candidate's slots, in the order of `sorted(candidate.slots)`.
unfoldable pub slot_ids : Candidate → List SlotId
unfolding sort_by
slot_ids c =
    flat_map (λ s. map (λ i. (s.gen_reason, s.day_offset, i)) (range_from 0 s.count))
      (sort_by slot_le c.slots)

-- The keys of the dict `by_reason`, in the order in which they first come.
abbrev first_reasons : List SlotId → List Reason
first_reasons [] = []
first_reasons ((r, _, _) ∷ ids) =
    r ∷ keep_if (λ q. if is_reason r q then false else true) (first_reasons ids)

abbrev pub ids_of : Reason → List SlotId → List SlotId
ids_of r = keep_if (λ s. is_reason s.0 r)

abbrev id_le : SlotId → SlotId → Bool
id_le (_, d, i) (_, e, j) = ltb d e || (d == e && leb i j)

module _ (h : Hashing) (seed : ℕ) (reference_ts : ℕ) where
  -- `_intra_day_ts`; a day before the calendar's first is Python's `OverflowError`.
  unfoldable pub intra_day_ts : Reason → ℕ → ℕ → Outcome ℕ
  intra_day_ts r day_offset sub_index =
      let date = reference_ts / day in
      let digest = h.sha256 (number seed ∷ reason r ∷ number day_offset ∷ number sub_index ∷ []) in
      let start = (date - day_offset) * day in
      let upper = (reference_ts - start) / second in
      if ltb date day_offset
      then err overflow_error
      else if ltb 0 day_offset
      then ok (start + pick_second digest 86_400)
      else if ltb 0 upper
      then ok (start + pick_second digest upper)
      else if ltb date 1
      then err overflow_error
      else ok ((start - day) + pick_second digest 86_400)

  module _ (target_id : String) (track : String) where
    pub new_event : Reason → ℕ → SlotId → Outcome Event
    unfolding intra_day_ts
    new_event r occ (q, d, i) = intra_day_ts q d i >>= λ ts. ok (record {
      event_id = h.uuid5 1 (text target_id ∷ text track ∷ reason q ∷ number occ ∷ []);
      gen_reason = q;
      day_offset = d;
      sub_index = i;
      occurrence = occ;
      event_ts = ts;
      event_type = event_type_of q;
    })

    -- `for occ, (r, day, sub) in enumerate(...)`
    unfoldable pub number_events : Reason → ℕ → List SlotId → Outcome (List Event)
    unfolding new_event
    number_events r occ [] = ok []
    number_events r occ (s ∷ ss) =
        new_event r occ s >>= λ e. number_events r (occ + 1) ss >>= λ es. ok (e ∷ es)

    unfoldable pub events_by_reason : List SlotId → List Reason → Outcome (List Event)
    unfolding number_events sort_by
    events_by_reason ids [] = ok []
    events_by_reason ids (r ∷ rs) = number_events r 0 (sort_by id_le (ids_of r ids)) >>= λ es.
        events_by_reason ids rs >>= λ fs. ok (es ++ fs)

    -- P3b, `materialize`
    unfoldable pub materialize : Candidate → Outcome (List Event)
    unfolding events_by_reason slot_ids
    materialize c = events_by_reason (slot_ids c) (first_reasons (slot_ids c))

-- P3, `select_from_pool`
unfoldable pub select_from_pool : Hashing → List Candidate → String → ℕ → String → Outcome Candidate
select_from_pool h [] target_id seed track = err unsolvable
select_from_pool h (c ∷ cs) target_id seed track =
    let digest = h.sha256 (text target_id ∷ number seed ∷ text track ∷ []) in
    elim (get_elem? (c ∷ cs) (from_bytes 8 0 digest % length (c ∷ cs))) [
      | none ↦ err unsolvable
      | some e ↦ ok e
    ]

abbrev pub track_a : String
track_a = "A"

abbrev summary_of : SemanticBranch → Candidate → ObjectiveSummary
summary_of b c = record {
  unexplained = unexplained_events c;
  days = active_days c;
  session_count = sessions c;
  events = total_events c;
  objective_value = b.objective c;
}

-- `solve` after P1, on the feasible candidates.
unfoldable pub solve_feasible :
    Hashing → SemanticBranch → String → ℕ → ℕ → List Candidate → Outcome SolveOutcome
unfolding optimal_pool select_from_pool materialize canonical_sequence sessions
solve_feasible h b target_id seed reference_ts [] = ok (record {
  status = quarantined;
  events = [];
  candidate = none;
  pool_size = 0;
  objective_summary = none;
})
solve_feasible h b target_id seed reference_ts (f ∷ fs) =
    select_from_pool h (optimal_pool (f ∷ fs) b) target_id seed track_a >>= λ chosen.
    materialize h seed reference_ts target_id track_a chosen >>= λ events. ok (record {
      status = solved;
      events = canonical_sequence events;
      candidate = some chosen;
      pool_size = length (optimal_pool (f ∷ fs) b);
      objective_summary = some (summary_of b chosen);
    })

-- `solve`
unfoldable pub solve :
    Hashing → DecodedTarget → SemanticBranch → String → ℕ → ℕ → Outcome SolveOutcome
unfolding feasible_candidates solve_feasible
solve h d b target_id seed reference_ts =
    solve_feasible h b target_id seed reference_ts (feasible_candidates d b)
