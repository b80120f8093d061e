-- ===== src/Reconstruction/Constructive/Reached.antt =====
-- constructive.py: the days and the sessions of the candidate that `solve_h1` builds.
use lzd.Common.{
  ℕ, ◌+◌, ◌≤◌, ◌≡◌, refl, sym, ap, ◌∙◌, inl, inr, Bool, true, false, ◌&&◌, not, List, [], ◌∷◌, ◌++◌,
  ltb, leb, ◌==◌, if◌then◌else◌, length, sum_of, elem, length-distinct-le, In, All-append, arith,
  Bool-cases,
}
use mathlib.Core.Path.{subst}
use lzd.Common.Membership.{all_In}
use lzd.Common.Counting.{times_in, times_in_once, length-distinct, elem-sort_by}
use lzd.Common.Sorting.{sort_by}
use lzd.Reconstruction.Candidate.{
  Reason, Slot, Candidate, of, sessions, sessions_of, per_day, active_days_in_window, IsWellFormed,
}
use lzd.Reconstruction.Candidate.Metrics.{events_where, events_where-of, of-IsWellFormed}
use lzd.Reconstruction.Semantics.{DecodedTarget, forced_days, recency_days, recency_slots}
use lzd.Reconstruction.Constructive.{outside}
use lzd.Reconstruction.Constructive.Days.{
  days_of, sum_days, session_days, select, num_days-per_day, sum_days-per_day, session_days_bounds,
  session_days_split, per_day-IsBusy,
}
use lzd.Reconstruction.Constructive.Bound.{recency_slots_inside}
use lzd.Reconstruction.Constructive.Budget.{days_in, IsBusy, budget_sessions}
use lzd.Reconstruction.Constructive.Placement.{on_day, room_on, events_where-append}
use lzd.Reconstruction.Constructive.Chosen.{AreChosen}
use lzd.Reconstruction.Constructive.Sessions.{
  elem-days_of, elem-days_of-select, slot_day_busy, sessions_on_day, per_day_all, sessions_by_day,
}
use lzd.Reconstruction.Constructive.Built.{
  value_on, room_on_missing, room_on-value_on, value_on_busy, budget_sessions_by_day,
  recency_on_day, forced_or_outside, recency_slots-IsWellFormed, recency_outside, none_outside,
}

module _ (d : DecodedTarget) (days : List ℕ) (ch : AreChosen d days) (b : List (ℕ × ℕ))
    (on_days : days_in b ≡ days) (busy : IsBusy b) (slots : List Slot) (wf : IsWellFormed slots)
    (there : (x : ℕ)
      → events_where (on_day x) slots ≡ room_on (sort_by leb (forced_days d)) x b) where
  abbrev pub built : Candidate
  built = of (recency_slots d ++ slots)

  abbrev events : ℕ → ℕ
  events x = events_where (on_day x) built.slots

  abbrev in_window : ℕ → Bool
  in_window x = ltb x d.window_days

  pub built-IsWellFormed : IsWellFormed built.slots
  built-IsWellFormed =
      of-IsWellFormed (recency_slots d ++ slots)
        (All-append (λ s. 1 ≤ s.count) (recency_slots d) slots (recency_slots-IsWellFormed d) wf)

  events_eq :
      (x : ℕ)
      → events x
        ≡ (if elem x (recency_days d) then 1 else 0) + room_on (sort_by leb (forced_days d)) x b
  events_eq x =
      events_where-of (on_day x) (recency_slots d ++ slots)
      ∙ events_where-append (on_day x) (recency_slots d) slots
      ∙ omega (arith, recency_on_day d x, there x)

  elem-days_in : (x : ℕ) → elem x (days_in b) ≡ elem x days
  elem-days_in x = ap (elem x) on_days

  events_chosen : (x : ℕ) → elem x days ≡ true → events x ≡ value_on x b
  events_chosen x h =
      let v =
        room_on-value_on (sort_by leb (forced_days d)) x b busy
          (subst (λ ds. times_in x ds ≤ 1) (sym on_days) (ch.once x)) (elem-days_in x ∙ h) in
      ground (
        arith,
        events_eq x,
        elem-sort_by leb x (forced_days d),
        forced_or_outside d x,
        ch.inside x h,
      )

  events_other :
      (x : ℕ) → elem x days ≡ false → events x ≡ (if elem x (recency_days d) then 1 else 0)
  events_other x h =
      omega
        (arith, events_eq x, room_on_missing (sort_by leb (forced_days d)) x b (elem-days_in x ∙ h))

  -- The chosen days are the days of the window that have an event.
  events_leb : (x : ℕ) → elem x days ≡ (in_window x && leb 1 (events x))
  events_leb x = elim (Bool-cases (elem x days)) [
    | inl e ↦
        let v = value_on_busy x b busy (elem-days_in x ∙ e) in
        ground (arith, events_chosen x e, ch.inside x e)
    | inr n ↦ ground (arith, events_other x n, forced_or_outside d x, ch.forced_in x)
  ]

  elem-built_window : (x : ℕ) → elem x (days_of (select in_window built.slots)) ≡ elem x days
  elem-built_window x =
      elem-days_of-select in_window x built.slots
      ∙ ap (λ t. in_window x && t) (elem-days_of x built.slots built-IsWellFormed)
      ∙ sym (events_leb x)

  pub built_active_days : active_days_in_window built d.window_days ≡ length days
  built_active_days =
      let set = days_of (select in_window built.slots) in
      omega (
        arith,
        length-distinct days ch.once,
        length-distinct-le set days (λ z h. sym (elem-built_window z) ∙ h),
        length-distinct-le days set (λ z h. elem-built_window z ∙ h),
      )

  pub built_covers : (x : ℕ) → elem x (forced_days d) ≡ true → elem x (days_of built.slots) ≡ true
  built_covers x h =
      let e = events_leb x in
      ground (arith, elem-days_of x built.slots built-IsWellFormed, ch.forced_in x h)

  -- In the window the sessions are those of the budget.
  window_sessions : session_days in_window (per_day built.slots) ≡ budget_sessions b
  window_sessions =
      sessions_by_day in_window days (per_day built.slots)
        (per_day_all _ built.slots (all_In _ built.slots once))
      ∙ each days (λ x h. h)
      ∙ ap (sum_of (λ x. sessions_of (value_on x b))) (sym on_days)
      ∙ budget_sessions_by_day b (λ x. subst (λ ds. times_in x ds ≤ 1) (sym on_days) (ch.once x))
    where
      once :
          (s : Slot)
          → In s built.slots
          → times_in s.day_offset days ≡ (if in_window s.day_offset then 1 else 0)
      once s i =
          times_in_once s.day_offset days (ch.once s.day_offset)
          ∙ ap (λ t. if t then 1 else 0)
              (inside (slot_day_busy s built.slots built-IsWellFormed i) (events_leb s.day_offset))
        where
          inside : {n : ℕ} {t u : Bool} → 1 ≤ n → u ≡ (t && leb 1 n) → u ≡ t
          inside l e = ground arith

      each :
          (xs : List ℕ)
          → ((x : ℕ) → elem x xs ≡ true → elem x days ≡ true)
          → sum_of (λ x. session_days (λ y. x == y) (per_day built.slots)) xs
            ≡ sum_of (λ x. sessions_of (value_on x b)) xs
      each [] h = refl
      each (x ∷ xs) h = omega (
        arith,
        sessions_on_day x built.slots ∙ ap sessions_of (events_chosen x (h x (ground arith))),
        each xs (λ z e. h z (ground arith)),
      )

  -- Outside the window there are only the recency events.
  outside_sessions : session_days (λ x. not (in_window x)) (per_day built.slots) ≡ outside d
  outside_sessions =
      let far = λ (x : ℕ). not (in_window x) in
      let q = per_day built.slots in
      omega (
        arith,
        (session_days_bounds far q (per_day-IsBusy built.slots built-IsWellFormed)).0,
        num_days-per_day far built.slots,
        (recency_slots_inside d).2,
        length-distinct-le (days_of (select far (recency_slots d)))
            (days_of (select far built.slots)) still_there,
        few q,
        sum_days-per_day far built.slots,
        far_events,
      )
    where
      still_there :
          (z : ℕ)
          → elem z (days_of (select (λ x. not (in_window x)) (recency_slots d))) ≡ true
          → elem z (days_of (select (λ x. not (in_window x)) built.slots)) ≡ true
      still_there z h =
          elem-days_of-select (λ x. not (in_window x)) z built.slots
          ∙ ground (
            arith,
            elem-days_of-select (λ x. not (in_window x)) z (recency_slots d),
            elem-days_of z (recency_slots d) (recency_slots-IsWellFormed d),
            recency_on_day d z,
            elem-days_of z built.slots built-IsWellFormed,
            events_eq z,
          )

      few :
          (q : List (ℕ × ℕ))
          → session_days (λ x. not (in_window x)) q ≤ sum_days (λ x. not (in_window x)) q
      few [] = omega arith
      few ((x, n) ∷ q) = ground (arith, few q)

      far_events : events_where (λ r x. not (in_window x)) built.slots ≡ outside d
      far_events =
          let far = λ (r : Reason) (x : ℕ). not (in_window x) in
          events_where-of far (recency_slots d ++ slots)
          ∙ events_where-append far (recency_slots d) slots
          ∙ omega (arith, recency_outside d, none_outside d slots (all_In _ slots near))
        where
          near : (s : Slot) → In s slots → in_window s.day_offset ≡ true
          near s i =
              let n = slot_day_busy s slots wf i in
              let m = room_on_missing (sort_by leb (forced_days d)) s.day_offset b in
              ch.inside s.day_offset (
                sym (elem-days_in s.day_offset)
                ∙ present (elem s.day_offset (days_in b)) (omega (arith, n, there s.day_offset)) m)
            where
              present : {n : ℕ} (t : Bool) → 1 ≤ n → (t ≡ false → n ≡ 0) → t ≡ true
              present true l f = refl
              present false l f = absurd (omega (arith, l, f refl))

  pub built_sessions : sessions built ≡ outside d + budget_sessions b
  unfolding sessions
  built_sessions =
      omega (
        arith,
        session_days_split in_window (per_day built.slots),
        window_sessions,
        outside_sessions,
      )
