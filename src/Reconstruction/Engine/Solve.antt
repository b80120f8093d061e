-- ===== src/Reconstruction/Engine/Solve.antt =====
-- engine.py: what `solve` returns, over any strategy.
use lzd.Common.{
  ℕ, ◌<◌, ◌≡◌, refl, sym, ap, ◌∙◌, Bool, List, [], ◌∷◌, some, String, In, All, inl, inr, ◌⊎◌,
  count_if,
}
use lzd.Common.Outcome.{ok, >>=-eq-ok, ok-injective}
use lzd.Common.Membership.{All-In}
use lzd.Common.Sorting.{count_if-sort_by, sort_by-In}
use lzd.Reconstruction.Hashing.{Hashing}
use lzd.Reconstruction.Candidate.{Reason, Candidate}
use lzd.Reconstruction.Candidate.Metrics.{events_where}
use lzd.Reconstruction.Semantics.{DecodedTarget, SemanticBranch}
use lzd.Reconstruction.Engine.{
  Event, SolveOutcome, solved, quarantined, solve_feasible, feasible_candidates, optimal_pool,
  select_from_pool, materialize, canonical_sequence, event_le, solve, track_a, slot_ids,
  first_reasons,
}
use lzd.Reconstruction.Engine.Pool.{
  IsMinimal, optimal_pool-IsMinimal, select_from_pool-In, optimal_pool-ne-nil,
}
use lzd.Reconstruction.Engine.Materialize.{events_by_reason_facts}
use lzd.Reconstruction.Engine.Groups.{count_if-materialize}

-- A solved target: the candidate is one of the feasible ones and none has a smaller objective, and
-- the events are those of the candidate, all before the reference.
pub record IsSolution (b : SemanticBranch) (fs : List Candidate) (reference_ts : ℕ)
    (o : SolveOutcome) (c : Candidate) : Type 0 where
  pub status : o.status ≡ solved
  pub chosen : o.candidate ≡ some c
  pub feasible : In c fs
  pub minimal : IsMinimal b fs c
  pub before : (e : Event) → In e o.events → e.event_ts < reference_ts
  pub counts :
      (p : Reason → ℕ → Bool)
      → count_if (λ e. p e.gen_reason e.day_offset) o.events ≡ events_where p c.slots

-- A target with no feasible candidate is quarantined, with no events.
pub record IsQuarantined (fs : List Candidate) (o : SolveOutcome) : Type 0 where
  pub status : o.status ≡ quarantined
  pub silent : o.events ≡ []
  pub none_feasible : fs ≡ []

abbrev pub Solves : SemanticBranch → List Candidate → ℕ → SolveOutcome → Type 0
Solves b fs reference_ts o =
    IsQuarantined fs o ⊎ ((c : Candidate) × IsSolution b fs reference_ts o c)

module _ (h : Hashing) (b : SemanticBranch) (target_id : String) (seed reference_ts : ℕ) where
  materialize_before :
      (c : Candidate) (es : List Event)
      → materialize h seed reference_ts target_id track_a c ≡ ok es
      → All (λ e. e.event_ts < reference_ts) es
  unfolding materialize
  materialize_before c es e =
      let ids = slot_ids c in
      (events_by_reason_facts h seed reference_ts target_id track_a ids (first_reasons ids) es e).1

  -- The canonical order keeps the events and how many there are.
  IsSolution-of :
      (fs : List Candidate) (o : SolveOutcome) (c : Candidate) (es : List Event)
      → In c (optimal_pool fs b)
      → materialize h seed reference_ts target_id track_a c ≡ ok es
      → o.status ≡ solved
      → o.candidate ≡ some c
      → o.events ≡ canonical_sequence es
      → IsSolution b fs reference_ts o c
  unfolding canonical_sequence
  IsSolution-of fs o c es i m st ch ev =
      let optimal = optimal_pool-IsMinimal b fs c i in
      record {
        status = st;
        chosen = ch;
        feasible = optimal.0;
        minimal = optimal.1;
        before = λ e j.
            All-In (λ e. e.event_ts < reference_ts) e es (materialize_before c es m)
              (sort_by-In event_le e es (rw ev at j));
        counts = λ p.
            ap (count_if (λ e. p e.gen_reason e.day_offset)) ev
            ∙ count_if-sort_by event_le (λ e. p e.gen_reason e.day_offset) es
            ∙ count_if-materialize p h seed reference_ts target_id track_a c es m;
      }

  solve_feasible-Solves :
      (fs : List Candidate) (o : SolveOutcome)
      → solve_feasible h b target_id seed reference_ts fs ≡ ok o
      → Solves b fs reference_ts o
  unfolding solve_feasible
  solve_feasible-Solves [] o e =
      rw (← ok-injective _ o e)
        (inl (record { status = refl; silent = refl; none_feasible = refl }))
  solve_feasible-Solves (f ∷ fs) o e =
      let (c, s, i) =
        select_from_pool-In h (optimal_pool (f ∷ fs) b) target_id seed track_a
          (optimal_pool-ne-nil b f fs) in
      let (c', s', k) =
        >>=-eq-ok (select_from_pool h (optimal_pool (f ∷ fs) b) target_id seed track_a) _ e in
      let same = ok-injective c c' (sym s ∙ s') in
      let (es, m, l) = >>=-eq-ok (materialize h seed reference_ts target_id track_a c') _ k in
      rw (← ok-injective _ o l)
        (inr (c', IsSolution-of (f ∷ fs) _ c' es (rw same at i) m refl refl refl))

-- Whatever `solve` returns is right: a quarantine with no events exactly when P1 finds no
-- candidate, and else a candidate that P1 found and that no other of them beats, with exactly its
-- events, each of them before the reference. The seed and the digests choose only among the
-- optimal candidates.
pub solve-Solves :
    (h : Hashing) (d : DecodedTarget) (b : SemanticBranch) (target_id : String)
    (seed reference_ts : ℕ) (o : SolveOutcome)
    → solve h d b target_id seed reference_ts ≡ ok o
    → Solves b (feasible_candidates d b) reference_ts o
unfolding solve
solve-Solves h d b target_id seed reference_ts o e =
    solve_feasible-Solves h b target_id seed reference_ts (feasible_candidates d b) o e
