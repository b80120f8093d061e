-- ===== src/Reconstruction/Constructive/Passes.antt =====
-- constructive.py: the steps of `solve_h1` on a target that has a bound.
use lzd.Common.{
  ℕ, ◌+◌, ◌≤◌, ◌≡◌, refl, sym, ap, ◌∙◌, inl, inr, true, List, [], ◌∷◌, ◌++◌, ltb, leb, Option, none,
  some, length, elem, arith, In,
}
use Prim.Native.Nat.{max}
use lzd.Common.Membership.{In-all_of}
use lzd.Common.Outcome.{
  ok, infeasible, assertion_error, ◌>>=◌, ◌>>◌, raise_if, ok-injective, raise_if-ok,
}
use lzd.Common.Counting.{length-sort_by, elem-distinct}
use lzd.Common.Sorting.{sort_by}
use lzd.Reconstruction.Hashing.{Hashing}
use lzd.Reconstruction.Candidate.{
  f30, count_of, Candidate, of, day_offsets, sessions, sessions_of, unexplained_events,
  active_days_in_window,
}
use lzd.Reconstruction.Semantics.{
  DecodedTarget, counter_capacity, forced_days, recency_slots, h1_feasible, counters_match,
  recency_match, covers_forced, active_days_match,
}
use lzd.Reconstruction.Constructive.{h1_objective_bound, outside, free_min, sessions_min}
use lzd.Reconstruction.Constructive.Solve.{
  Seeding, wanted_days, chosen_days, day_budget, place_days, full_demand, leftover,
}
use lzd.Reconstruction.Constructive.Budget.{IsSpread, day_budget-IsSpread}
use lzd.Reconstruction.Constructive.Placement.{place_days_exact}
use lzd.Reconstruction.Constructive.Chosen.{
  AreChosen, chosen_days-AreChosen, times_in-forced, length-pool,
}
use lzd.Reconstruction.Constructive.Reached.{built_active_days, built_covers, built_sessions}
use lzd.Reconstruction.Constructive.Certified.{
  room_for_demand, built_counters, built_f30, built_recency, built_unexplained,
}

In-elem : (x : ℕ) (xs : List ℕ) → In x xs → elem x xs ≡ true
In-elem x [] i = elim i [ ]
In-elem x (y ∷ xs) (inl e) = rw e (ground arith)
In-elem x (y ∷ xs) (inr i) = ground (arith, In-elem x xs i)

-- What `h1_objective_bound` returned, and how it bounds the wanted days.
pub record HasBound (d : DecodedTarget) (fm ses : ℕ) : Type 0 where
  pub forced : length (forced_days d) ≤ wanted_days d
  pub inside : wanted_days d ≤ d.window_days
  pub some_day : 1 ≤ wanted_days d
  pub enough : wanted_days d ≤ counter_capacity d + length (forced_days d) + fm
  pub sessions :
      ses
      ≡ outside d
        + max (wanted_days d) (sessions_of (counter_capacity d + length (forced_days d) + fm))

-- The target has events, and its window has days.
pub record IsSane (d : DecodedTarget) : Type 0 where
  pub events : 1 ≤ d.n5
  pub days : (k : ℕ) → d.n30 ≡ some k → 1 ≤ k
  pub window : 1 ≤ d.window_days

capacity_some : (d : DecodedTarget) → d.n5 ≤ counter_capacity d
capacity_some d = omega arith

abbrev pub pair : ℕ → ℕ → ℕ × ℕ
pair a b = (a, b)

-- The events in the window.
abbrev inner : DecodedTarget → ℕ
inner d = counter_capacity d + length (forced_days d)

bound_none :
    (d : DecodedTarget) (bound : ℕ × ℕ)
    → IsSane d
    → wanted_days d ≡ max (length (forced_days d)) 1
    → ok (pair 0 (outside d + max (max (length (forced_days d)) 1) (sessions_of (inner d))))
      ≡ ok bound
    → HasBound d bound.0 bound.1
bound_none d bound sane w h =
    let e =
      ok-injective
        (pair 0 (outside d + max (max (length (forced_days d)) 1) (sessions_of (inner d)))) bound
        h in
    let f : 0 ≡ bound.0 = ap (λ (p : ℕ × ℕ). p.0) e in
    let g : outside d + max (max (length (forced_days d)) 1) (sessions_of (inner d)) ≡ bound.1 =
      ap (λ (p : ℕ × ℕ). p.1) e in
    record {
      forced = omega (arith, w);
      inside = omega (arith, w, length-pool d, sane.window);
      some_day = omega (arith, w);
      enough = omega (arith, w, capacity_some d, sane.events);
      sessions =
          sym g
          ∙ omega (
            arith,
            w,
            ap (λ n. sessions_of (inner d + n)) f,
            ap sessions_of (plus_zero (inner d)),
          );
    }
  where
    plus_zero : (n : ℕ) → n ≡ n + 0
    plus_zero n = omega arith

bound_some :
    (d : DecodedTarget) (k : ℕ) (bound : ℕ × ℕ)
    → 1 ≤ k
    → wanted_days d ≡ k
    → (raise_if (ltb k (length (forced_days d))) infeasible
        >> (raise_if (ltb d.window_days k) infeasible
            >> ok (pair (free_min d k) (sessions_min d k))))
      ≡ ok bound
    → HasBound d bound.0 bound.1
bound_some d k bound pos w h =
    let (a, h1) = raise_if-ok (ltb k (length (forced_days d))) infeasible _ bound h in
    let (b, h2) = raise_if-ok (ltb d.window_days k) infeasible _ bound h1 in
    let e = ok-injective (pair (free_min d k) (sessions_min d k)) bound h2 in
    let f : free_min d k ≡ bound.0 = ap (λ (p : ℕ × ℕ). p.0) e in
    let g : sessions_min d k ≡ bound.1 = ap (λ (p : ℕ × ℕ). p.1) e in
    let l : length (forced_days d) ≤ k = ground arith in
    let m : k ≤ d.window_days = ground arith in
    record {
      forced = omega (arith, w, l);
      inside = omega (arith, w, m);
      some_day = omega (arith, w, pos);
      enough = omega (arith, w, l, f);
      sessions = sym g ∙ omega (arith, w, ap (λ n. sessions_of (inner d + n)) f);
    }

pub has_bound :
    (d : DecodedTarget) (bound : ℕ × ℕ)
    → IsSane d
    → h1_objective_bound d ≡ ok bound
    → HasBound d bound.0 bound.1
unfolding h1_objective_bound
has_bound d bound sane h = go d.n30 refl
  where
    go : (o : Option ℕ) → d.n30 ≡ o → HasBound d bound.0 bound.1
    go none e = bound_none d bound sane (rw e refl) (rw e at h)
    go (some k) e = bound_some d k bound (sane.days k e) (rw e refl) (rw e at h)

-- What a feasible candidate passes, guard by guard.
all_pass :
    (c : Candidate) (d : DecodedTarget)
    → counters_match c d ≡ true
    → count_of c f30 ≡ 0
    → recency_match c d ≡ true
    → active_days_match c d ≡ true
    → covers_forced c d ≡ true
    → h1_feasible c d ≡ true
unfolding h1_feasible
all_pass c d a b e f g = rw (a, b, e, f, g) refl

-- The steps of `solve_h1` before its checks, on a target with a bound.
module _ (h : Hashing) (s : Seeding) (d : DecodedTarget) (fm ses : ℕ)
    (has : HasBound d fm ses) where
  abbrev days : List ℕ
  days = chosen_days h s d

  abbrev sorted_forced : List ℕ
  sorted_forced = sort_by leb (forced_days d)

  abbrev total : ℕ
  total = counter_capacity d + length sorted_forced + fm

  chosen : AreChosen d days
  chosen = chosen_days-AreChosen d h s has.forced has.inside

  spread : IsSpread days total (day_budget sorted_forced days total)
  spread =
      day_budget-IsSpread sorted_forced days total (times_in-forced d)
        (omega (arith, chosen.number, has.some_day))
        (omega (arith, chosen.number, has.enough, length-sort_by leb (forced_days d)))

  days_match :
      (c : Candidate) (o : Option ℕ)
      → d.n30 ≡ o
      → active_days_in_window c d.window_days ≡ wanted_days d
      → active_days_match c d ≡ true
  days_match c none e m = rw e refl
  days_match c (some k) e m =
      let n : active_days_in_window c d.window_days ≡ k = rw e at m in rw e (ground arith)

  pub passes :
      (c : Candidate) × ((day_budget sorted_forced days total >>= λ budget.
      place_days sorted_forced budget (full_demand d fm) >>= λ placed.
      raise_if (leftover placed.1) assertion_error >> ok (of (recency_slots d ++ placed.0)))
        ≡ ok c)
      × (h1_feasible c d ≡ true)
      × (unexplained_events c ≡ fm)
      × (sessions c ≡ ses)
  passes =
      let b = spread.budget in
      let (p, e, none_left, wf, there, reasons) =
        place_days_exact sorted_forced b (full_demand d fm)
          (room_for_demand d days b fm chosen spread.on_days spread.busy spread.sum) in
      let c = of (recency_slots d ++ p.0) in
      let active =
        built_active_days d days chosen b spread.on_days spread.busy p.0 wf there ∙ chosen.number in
      (
        c,
        rw (spread.fits, e, none_left) refl,
        all_pass c d (built_counters d fm p.0 reasons) (built_f30 d fm p.0 reasons)
            (built_recency d fm p.0 reasons) (days_match c d.n30 refl active)
            (In-all_of (λ x. elem x (day_offsets c)) (forced_days d)
              (λ x i.
                elem-distinct x _
                ∙ built_covers d days chosen b spread.on_days spread.busy p.0 wf there x
                    (In-elem x (forced_days d) i))),
        built_unexplained d fm p.0 reasons,
        built_sessions d days chosen b spread.on_days spread.busy p.0 wf there
            ∙ omega (
              arith,
              spread.sessions,
              has.sessions,
              ap (λ n. max n (sessions_of total)) chosen.number,
              ap (λ n. sessions_of (counter_capacity d + n + fm))
                  (length-sort_by leb (forced_days d)),
            ),
      )
