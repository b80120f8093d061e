-- ===== src/Reconstruction/Constructive/Budget.antt =====
-- constructive.py: the events and the sessions of the budget.
use lzd.Common.{
  ℕ, zero, suc, ◌+◌, ◌-◌, ◌*◌, ◌≤◌, ◌≡◌, refl, sym, ap, ◌∙◌, inl, inr, Bool-cases, List, [], ◌∷◌,
  map, ◌==◌, if◌then◌else◌, length, sum_of, count_if, All, arith,
}
use Prim.Native.Nat.{max, min}
use lzd.Common.Outcome.{Outcome, ok}
use lzd.Reconstruction.Candidate.{bump_day, sessions_of}
use lzd.Reconstruction.Constructive.Solve.{
  count_forced, first_budget, fill, overflow, budget_sum, day_budget,
}

abbrev Budget : Type 0
Budget = List (ℕ × ℕ)

-- `sum(ceil(n / SESSION_CAPACITY) for n in budget.values())`
abbrev pub budget_sessions : Budget → ℕ
budget_sessions = sum_of (λ (e : ℕ × ℕ). sessions_of e.1)

abbrev pub days_in : Budget → List ℕ
days_in = map (λ (e : ℕ × ℕ). e.0)

-- Every day has an event.
abbrev pub IsBusy : Budget → Type 0
IsBusy = All (λ (e : ℕ × ℕ). 1 ≤ e.1)

-- A day has what it was counted for, and will be counted once in all.
abbrev CountedOnce : List ℕ → Budget → Type 0
CountedOnce forced = All (λ (e : ℕ × ℕ). e.1 + count_if (λ y. y == e.0) forced ≤ 1)

bump_day-CountedOnce :
    (x : ℕ) (forced : List ℕ) (b : Budget)
    → CountedOnce (x ∷ forced) b
    → CountedOnce forced (bump_day x 1 b)
bump_day-CountedOnce x forced [] h = tt
bump_day-CountedOnce x forced ((y, n) ∷ b) h =
    ground (arith, later b h.1, bump_day-CountedOnce x forced b h.1)
  where
    later : (b : Budget) → CountedOnce (x ∷ forced) b → CountedOnce forced b
    later [] h = tt
    later ((z, n) ∷ b) h = (ground arith, later b h.1)

days_in-bump_day : (x n : ℕ) (b : Budget) → days_in (bump_day x n b) ≡ days_in b
days_in-bump_day x n [] = refl
days_in-bump_day x n ((y, m) ∷ b) = elim (Bool-cases (x == y)) [
  | inl e ↦ rw e refl
  | inr other ↦ rw other (ap (λ ds. y ∷ ds) (days_in-bump_day x n b))
]

count_forced-CountedOnce :
    (forced : List ℕ) (b : Budget) → CountedOnce forced b → CountedOnce [] (count_forced forced b)
count_forced-CountedOnce [] b h = h
count_forced-CountedOnce (x ∷ forced) b h =
    count_forced-CountedOnce forced (bump_day x 1 b) (bump_day-CountedOnce x forced b h)

days_in-count_forced : (forced : List ℕ) (b : Budget) → days_in (count_forced forced b) ≡ days_in b
days_in-count_forced [] b = refl
days_in-count_forced (x ∷ forced) b =
    days_in-count_forced forced (bump_day x 1 b) ∙ days_in-bump_day x 1 b

abbrev IsOnes : Budget → Type 0
IsOnes = All (λ (e : ℕ × ℕ). e.1 ≡ 1)

at_least_one :
    (b : Budget)
    → CountedOnce [] b
    → IsOnes (map (λ (e : ℕ × ℕ). (e.0, if e.1 == 0 then 1 else e.1)) b)
at_least_one [] h = tt
at_least_one ((x, n) ∷ b) h = (ground arith, at_least_one b h.1)

zeros-CountedOnce :
    (forced days : List ℕ)
    → ((x : ℕ) → count_if (λ y. y == x) forced ≤ 1)
    → CountedOnce forced (map (λ day. (day, 0)) days)
zeros-CountedOnce forced [] h = tt
zeros-CountedOnce forced (x ∷ days) h = (omega (arith, h x), zeros-CountedOnce forced days h)

length-days_in : (b : Budget) → length (days_in b) ≡ length b
length-days_in [] = refl
length-days_in (e ∷ b) = ap suc (length-days_in b)

days_in-at_least_one :
    (b : Budget) → days_in (map (λ (e : ℕ × ℕ). (e.0, if e.1 == 0 then 1 else e.1)) b) ≡ days_in b
days_in-at_least_one [] = refl
days_in-at_least_one (e ∷ b) = ap (λ ds. e.0 ∷ ds) (days_in-at_least_one b)

days_in-zeros : (days : List ℕ) → days_in (map (λ day. (day, 0)) days) ≡ days
days_in-zeros [] = refl
days_in-zeros (x ∷ days) = ap (λ ds. x ∷ ds) (days_in-zeros days)

first_budget-IsOnes :
    (forced days : List ℕ)
    → ((x : ℕ) → count_if (λ y. y == x) forced ≤ 1)
    → IsOnes (first_budget forced days)
first_budget-IsOnes forced days h =
    at_least_one (count_forced forced (map (λ day. (day, 0)) days)) (
      count_forced-CountedOnce forced (map (λ day. (day, 0)) days)
        (zeros-CountedOnce forced days h))

days_in-first_budget : (forced days : List ℕ) → days_in (first_budget forced days) ≡ days
days_in-first_budget forced days =
    days_in-at_least_one (count_forced forced (map (λ day. (day, 0)) days))
    ∙ days_in-count_forced forced (map (λ day. (day, 0)) days)
    ∙ days_in-zeros days

budget_sum-IsOnes : (b : Budget) → IsOnes b → budget_sum b ≡ length b
budget_sum-IsOnes [] h = refl
budget_sum-IsOnes (e ∷ b) h = omega (arith, h.0, budget_sum-IsOnes b h.1)

-- Filling gives out all but what remains, and no day gets a second session.
fill_sum : (r : ℕ) (b : Budget) → budget_sum (fill r b).0 + (fill r b).1 ≡ budget_sum b + r
unfolding fill
fill_sum r [] = omega arith
fill_sum r ((x, n) ∷ b) = omega (arith, fill_sum (r - min (5 - n) r) b)

fill_sessions : (r : ℕ) (b : Budget) → IsOnes b → budget_sessions (fill r b).0 ≡ length b
unfolding fill
fill_sessions r [] h = refl
fill_sessions r ((x, n) ∷ b) h = omega (arith, h.0, fill_sessions (r - min (5 - n) r) b h.1)

fill_bounded : (r : ℕ) (b : Budget) → IsOnes b → budget_sum (fill r b).0 ≤ 5 * length b
unfolding fill
fill_bounded r [] h = omega arith
fill_bounded r ((x, n) ∷ b) h = omega (arith, h.0, fill_bounded (r - min (5 - n) r) b h.1)

-- Something remains only where every day is full.
fill_full :
    (r : ℕ) (b : Budget) → IsOnes b → 1 ≤ (fill r b).1 → All (λ (e : ℕ × ℕ). e.1 ≡ 5) (fill r b).0
unfolding fill
fill_full r [] h l = tt
fill_full r ((x, n) ∷ b) h l =
    (omega (arith, h.0, fill_rest (r - min (5 - n) r) b), fill_full (r - min (5 - n) r) b h.1 l)
  where
    fill_rest : (r : ℕ) (b : Budget) → (fill r b).1 ≤ r
    fill_rest r [] = omega arith
    fill_rest r ((x, n) ∷ b) = omega (arith, fill_rest (r - min (5 - n) r) b)

full_sum : (b : Budget) → All (λ (e : ℕ × ℕ). e.1 ≡ 5) b → budget_sum b ≡ 5 * length b
full_sum [] h = omega arith
full_sum (e ∷ b) h = omega (arith, h.0, full_sum b h.1)

days_in-fill : (r : ℕ) (b : Budget) → days_in (fill r b).0 ≡ days_in b
unfolding fill
days_in-fill r [] = refl
days_in-fill r ((x, n) ∷ b) = ap (λ ds. x ∷ ds) (days_in-fill (r - min (5 - n) r) b)

fill-IsBusy : (r : ℕ) (b : Budget) → IsOnes b → IsBusy (fill r b).0
unfolding fill
fill-IsBusy r [] h = tt
fill-IsBusy r ((x, n) ∷ b) h = (omega (arith, h.0), fill-IsBusy (r - min (5 - n) r) b h.1)

-- The budget is spread over the days, and needs as few sessions as it can.
pub record IsSpread (days : List ℕ) (total : ℕ) (out : Outcome Budget) : Type 0 where
  pub budget : Budget
  pub fits : out ≡ ok budget
  pub on_days : days_in budget ≡ days
  pub busy : IsBusy budget
  pub sum : budget_sum budget ≡ total
  pub sessions : budget_sessions budget ≡ max (length days) (sessions_of total)

-- What overflows goes to a day that is full, where it takes no more sessions than it needs.
overflow-IsSpread :
    (r : ℕ) (days : List ℕ) (total : ℕ) (b : Budget)
    → 1 ≤ length days
    → days_in b ≡ days
    → IsBusy b
    → budget_sum b + r ≡ total
    → budget_sum b ≤ 5 * length days
    → budget_sessions b ≡ length days
    → (1 ≤ r → All (λ (e : ℕ × ℕ). e.1 ≡ 5) b)
    → IsSpread days total (overflow r b)
overflow-IsSpread zero days total b p l y s m n f = record {
  budget = b;
  fits = refl;
  on_days = l;
  busy = y;
  sum = omega (arith, s);
  sessions = omega (arith, s, m, n);
}
overflow-IsSpread (suc r) days total [] p l y s m n f = absurd (omega (arith, p, ap length l))
overflow-IsSpread (suc r) days total ((x, v) ∷ b) p l y s m n f =
    let full = f (omega arith) in
    record {
      budget = (x, v + suc r) ∷ b;
      fits = refl;
      on_days = l;
      busy = (omega arith, y.1);
      sum = omega (arith, s);
      sessions = omega (arith, s, n, ap length l, length-days_in b, full.0, full_sum b full.1);
    }

pub day_budget-IsSpread :
    (forced days : List ℕ) (total : ℕ)
    → ((x : ℕ) → count_if (λ y. y == x) forced ≤ 1)
    → 1 ≤ length days
    → length days ≤ total
    → IsSpread days total (day_budget forced days total)
unfolding day_budget
day_budget-IsSpread forced days total once some_day enough =
    let b = first_budget forced days in
    let ones = first_budget-IsOnes forced days once in
    let d = days_in-first_budget forced days in
    let l : length b ≡ length days = sym (length-days_in b) ∙ ap length d in
    let s = budget_sum-IsOnes b ones in
    let r = total - budget_sum b in
    overflow-IsSpread (fill r b).1 days total (fill r b).0 some_day (days_in-fill r b ∙ d)
      (fill-IsBusy r b ones) (omega (arith, fill_sum r b, l, s, enough))
      (omega (arith, fill_bounded r b ones, l)) (fill_sessions r b ones ∙ l) (fill_full r b ones)
