-- ===== src/Reconstruction/Engine/Pool.antt =====
-- engine.py: the optimal pool is the argmin, and the selection stays in it.
use lzd.Common.{
  ℕ, ◌%◌, ◌<◌, ◌≡◌, ◌≢◌, refl, sym, ◌∙◌, Bool, true, false, List, [], ◌∷◌, map, if◌then◌else◌,
  String, length, keep_if, In, arith, inl, inr, ◌⊎◌, Bool-cases, suc,
}
use lzd.Common.Outcome.{ok}
use native.Mathlib.Nat.{mod-lt}
use mathlib.Core.Path.{subst}
use lzd.Common.Membership.{In-map, map-In, In-keep_if, keep_if-In, get_elem?-lt}
use lzd.Common.Sorting.{In-sort_by, sort_by-In}
use lzd.Reconstruction.Hashing.{text, number, Hashing, from_bytes}
use lzd.Reconstruction.Candidate.{Candidate}
use lzd.Reconstruction.Semantics.{SemanticBranch}
use lzd.Reconstruction.Engine.{
  lex_lt, lex_eq, lex_min, optimal_pool, select_from_pool, candidate_le,
}

lex_lt_trans : (x y z : ℕ × ℕ) → lex_lt x y ≡ false → lex_lt y z ≡ false → lex_lt x z ≡ false
lex_lt_trans x y z h k = ground arith

lex_eq→≡ : (x y : ℕ × ℕ) → lex_eq x y ≡ true → x ≡ y
lex_eq→≡ x y h = ground arith

lex_eq_refl : (x : ℕ × ℕ) → lex_eq x x ≡ true
lex_eq_refl x = ground arith

lex_lt_asym : (x y : ℕ × ℕ) → lex_lt x y ≡ false → lex_lt y x ≡ false → x ≡ y
lex_lt_asym x y h k = ground arith

abbrev better : ℕ × ℕ → ℕ × ℕ → ℕ × ℕ
better x best = if lex_lt x best then x else best

better_le_left : (x best : ℕ × ℕ) → lex_lt x (better x best) ≡ false
better_le_left x best = ground arith

better_le_right : (x best : ℕ × ℕ) → lex_lt best (better x best) ≡ false
better_le_right x best = ground arith

better-cases : (x best : ℕ × ℕ) → (better x best ≡ x) ⊎ (better x best ≡ best)
better-cases x best = elim (Bool-cases (lex_lt x best)) [ inl e ↦ inl (rw e) | inr e ↦ inr (rw e) ]

lex_min_le_first : (best : ℕ × ℕ) (xs : List (ℕ × ℕ)) → lex_lt best (lex_min best xs) ≡ false
lex_min_le_first best [] = ground arith
lex_min_le_first best (x ∷ xs) =
    lex_lt_trans best (better x best) (lex_min (better x best) xs) (better_le_right x best)
      (lex_min_le_first (better x best) xs)

lex_min_le :
    (best : ℕ × ℕ) (xs : List (ℕ × ℕ)) (x : ℕ × ℕ)
    → In x (best ∷ xs)
    → lex_lt x (lex_min best xs) ≡ false
lex_min_le best xs x (inl e) = rw e (lex_min_le_first best xs)
lex_min_le best [] x (inr i) = elim i [ ]
lex_min_le best (y ∷ ys) x (inr (inl e)) = rw e (
    lex_lt_trans y (better y best) (lex_min (better y best) ys) (better_le_left y best)
      (lex_min_le_first (better y best) ys))
lex_min_le best (y ∷ ys) x (inr (inr i)) = lex_min_le (better y best) ys x (inr i)

lex_min-In : (best : ℕ × ℕ) (xs : List (ℕ × ℕ)) → In (lex_min best xs) (best ∷ xs)
lex_min-In best [] = inl refl
lex_min-In best (x ∷ xs) = place best x xs (lex_min-In (better x best) xs) (better-cases x best)
  where
    place :
        (best x : ℕ × ℕ) (xs : List (ℕ × ℕ))
        → In (lex_min (better x best) xs) (better x best ∷ xs)
        → (better x best ≡ x) ⊎ (better x best ≡ best)
        → In (lex_min (better x best) xs) (best ∷ x ∷ xs)
    place best x xs (inl e) (inl p) = inr (inl (e ∙ p))
    place best x xs (inl e) (inr p) = inl (e ∙ p)
    place best x xs (inr i) p = inr (inr i)

-- No candidate of the list has a smaller objective.
abbrev pub IsMinimal : SemanticBranch → List Candidate → Candidate → Type 0
IsMinimal b cs c = (e : Candidate) → In e cs → lex_lt (b.objective e) (b.objective c) ≡ false

abbrev best_of : SemanticBranch → Candidate → List Candidate → ℕ × ℕ
best_of b x xs = lex_min (b.objective x) (map b.objective xs)

abbrev is_best : SemanticBranch → Candidate → List Candidate → Candidate → Bool
is_best b x xs e = lex_eq (b.objective e) (best_of b x xs)

best_of_le :
    (b : SemanticBranch) (x : Candidate) (xs : List Candidate) (e : Candidate)
    → In e (x ∷ xs)
    → lex_lt (b.objective e) (best_of b x xs) ≡ false
best_of_le b x xs e i =
    lex_min_le (b.objective x) (map b.objective xs) (b.objective e)
      (In-map b.objective e (x ∷ xs) i)

-- A member of the pool is a candidate, and none has a smaller objective.
pub optimal_pool-IsMinimal :
    (b : SemanticBranch) (cs : List Candidate) (c : Candidate)
    → In c (optimal_pool cs b)
    → In c cs × IsMinimal b cs c
unfolding optimal_pool
optimal_pool-IsMinimal b [] c i = elim i [ ]
optimal_pool-IsMinimal b (x ∷ xs) c i =
    let j = sort_by-In candidate_le c (keep_if (is_best b x xs) (x ∷ xs)) i in
    let k = keep_if-In (is_best b x xs) c (x ∷ xs) j in
    (k.0, λ e m. rw (lex_eq→≡ (b.objective c) (best_of b x xs) k.1) (best_of_le b x xs e m))

-- Every candidate with a least objective stands in the pool.
pub In-optimal_pool :
    (b : SemanticBranch) (cs : List Candidate) (c : Candidate)
    → In c cs
    → IsMinimal b cs c
    → In c (optimal_pool cs b)
unfolding optimal_pool
In-optimal_pool b [] c i m = elim i [ ]
In-optimal_pool b (x ∷ xs) c i m =
    let best = best_of b x xs in
    let (e, j, p) =
      map-In b.objective best (x ∷ xs) (lex_min-In (b.objective x) (map b.objective xs)) in
    let same : b.objective c ≡ best =
      lex_lt_asym (b.objective c) best (best_of_le b x xs c i) (rw (sym p) (m e j)) in
    In-sort_by candidate_le c (keep_if (is_best b x xs) (x ∷ xs))
      (In-keep_if (is_best b x xs) c (x ∷ xs) i (rw same (lex_eq_refl best)))

below_length : (n m : ℕ) → n % suc m < suc m
below_length n m = mod-lt n (omega arith)

-- The selection from a pool that is not empty gives a member of it, for every target, seed and
-- digest.
pub select_from_pool-In :
    (h : Hashing) (pool : List Candidate) (target_id : String) (seed : ℕ) (track : String)
    → pool ≢ []
    → (c : Candidate) × (select_from_pool h pool target_id seed track ≡ ok c) × In c pool
unfolding select_from_pool
select_from_pool-In h [] target_id seed track ne = absurd (ne refl)
select_from_pool-In h (c ∷ cs) target_id seed track ne =
    let n = from_bytes 8 0 (h.sha256 (text target_id ∷ number seed ∷ text track ∷ [])) in
    let (e, p, i) = get_elem?-lt (c ∷ cs) (n % length (c ∷ cs)) (below_length n (length cs)) in
    (e, rw (p, select_from_pool), i)

-- A pool over some candidate is not empty.
pub optimal_pool-ne-nil :
    (b : SemanticBranch) (x : Candidate) (xs : List Candidate) → optimal_pool (x ∷ xs) b ≢ []
optimal_pool-ne-nil b x xs empty =
    let best = best_of b x xs in
    let (e, j, p) =
      map-In b.objective best (x ∷ xs) (lex_min-In (b.objective x) (map b.objective xs)) in
    let i = In-optimal_pool b (x ∷ xs) e j (λ g m. rw p (best_of_le b x xs g m)) in
    subst (In e) empty i
