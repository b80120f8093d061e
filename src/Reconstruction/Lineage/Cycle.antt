-- ===== src/Reconstruction/Lineage/Cycle.antt =====
-- persistence.py: `assert_no_cycle` decides whether some run is its own ancestor.
use lzd.Common.{
  ℕ, zero, suc, ◌+◌, ◌≤◌, ◌≡◌, refl, sym, ap, ◌∙◌, ◌⊎◌, inl, inr, true, false, List, [], ◌∷◌, map,
  Option, none, some, String, ◌==ₛ◌, if◌then◌else◌, length, In, arith, Bool-cases, text_eq_iff,
}
use mathlib.Core.Path.{subst}
use lzd.Common.Outcome.{Outcome, ok, err, lineage_violation, ◌>>=◌}
use lzd.Reconstruction.Lineage.{
  Edges, Colours, Colour, white, grey, black, parent, colour, paint, is_white, is_grey, follow,
  blacken, closes, visit, visit_all, assert_no_cycle,
}

colour-paint :
    (x y : String) (c : Colour) (cs : Colours)
    → is_white (colour cs x) ≡ true
    → colour (paint x c cs) y ≡ (if x ==ₛ y then c else colour cs y)
colour-paint x y c [] h = cc
colour-paint x y c ((z, d) ∷ cs) h =
    ground (arith, colour-paint x y c cs, text_eq_iff z x, text_eq_iff z y, text_eq_iff x y)

-- A run without a colour counts as black, so painting a run black always shows.
colour-paint_black :
    (x y : String) (cs : Colours)
    → colour (paint x black cs) y ≡ (if x ==ₛ y then black else colour cs y)
colour-paint_black x y [] = ground arith
colour-paint_black x y ((z, d) ∷ cs) =
    ground (arith, colour-paint_black x y cs, text_eq_iff z x, text_eq_iff z y, text_eq_iff x y)

num_white : Colours → ℕ
num_white [] = 0
num_white ((_, c) ∷ cs) = (if is_white c then 1 else 0) + num_white cs

num_white-paint :
    (x : String) (cs : Colours)
    → is_white (colour cs x) ≡ true
    → num_white cs ≡ num_white (paint x grey cs) + 1
unfolding num_white
num_white-paint x [] h = cc
num_white-paint x ((z, d) ∷ cs) h = ground (arith, num_white-paint x cs)

num_white-zero : (x : String) (cs : Colours) → num_white cs ≡ 0 → is_white (colour cs x) ≡ false
unfolding num_white
num_white-zero x [] h = refl
num_white-zero x ((z, d) ∷ cs) h = ground (arith, num_white-zero x cs)

num_white-paint_black : (x : String) (cs : Colours) → num_white (paint x black cs) ≤ num_white cs
unfolding num_white
num_white-paint_black x [] = omega arith
num_white-paint_black x ((z, d) ∷ cs) = ground (arith, num_white-paint_black x cs)

module _ (es : Edges) where
  -- From `x` the parents come to an end.
  pub data Leaves : String → Type 0 where
    top : {x : String} → parent es x ≡ none → Leaves x
    up : {x : String} (p : String) → parent es x ≡ some p → Leaves p → Leaves x

  -- `y` is an ancestor of `x`.
  pub data Above : String → String → Type 0 where
    one : {x y : String} → parent es x ≡ some y → Above x y
    more : {x y : String} (p : String) → parent es x ≡ some p → Above p y → Above x y

  -- The path behind a run: each run's parent is the run painted after it.
  abbrev Chain : Option String → List String → Type 0
  Chain run [] = Unit
  Chain run (x ∷ xs) = (parent es x ≡ run) × Chain (some x) xs

  abbrev LeavesFrom : Option String → Type 0
  LeavesFrom none = Unit
  LeavesFrom (some x) = Leaves x

  step_up : (x : String) (run : Option String) → parent es x ≡ run → LeavesFrom run → Leaves x
  step_up x none e h = top e
  step_up x (some p) e h = up p e h

  Chain-Leaves :
      (run : Option String) (path : List String) (y : String)
      → Chain run path
      → LeavesFrom run
      → In y path
      → Leaves y
  Chain-Leaves run [] y c h i = elim i [ ]
  Chain-Leaves run (x ∷ xs) y c h (inl e) = subst Leaves (sym e) (step_up x run c.0 h)
  Chain-Leaves run (x ∷ xs) y c h (inr i) = Chain-Leaves (some x) xs y c.1 (step_up x run c.0 h) i

  Above-snoc : (x y z : String) → Above x y → parent es y ≡ some z → Above x z
  Above-snoc x y z (one e) f = more y e (one f)
  Above-snoc x y z (more p e a) f = more p e (Above-snoc p y z a f)

  -- Every run on the path has the run above it.
  Chain-Above :
      (z : String) (path : List String) (y : String) → Chain (some z) path → In y path → Above y z
  Chain-Above z [] y c i = elim i [ ]
  Chain-Above z (x ∷ xs) y c (inl e) = one (ap (parent es) e ∙ c.0)
  Chain-Above z (x ∷ xs) y c (inr i) = Above-snoc y x z (Chain-Above x xs y c.1 i) c.0

  -- What holds of the colours between two rounds of the outer loop, and of the path inside one.
  record IsPainted (path : List String) (cs : Colours) : Type 0 where
    done : (y : String) → colour cs y ≡ black → Leaves y
    walked : (y : String) → colour cs y ≡ grey → In y path

  paint-IsPainted :
      (x : String) (path : List String) (cs : Colours)
      → is_white (colour cs x) ≡ true
      → IsPainted path cs
      → IsPainted (x ∷ path) (paint x grey cs)
  paint-IsPainted x path cs w p = record {
    done = λ y e. keep y (colour-paint x y grey cs w) e;
    walked = λ y e. add y (colour-paint x y grey cs w) e;
  }
    where
      keep :
          (y : String)
          → colour (paint x grey cs) y ≡ (if x ==ₛ y then grey else colour cs y)
          → colour (paint x grey cs) y ≡ black
          → Leaves y
      keep y q e = elim (Bool-cases (x ==ₛ y)) [
        | inl s ↦ absurd (cc (rw s at q, e))
        | inr n ↦ p.done y (sym (rw n at q) ∙ e)
      ]

      add :
          (y : String)
          → colour (paint x grey cs) y ≡ (if x ==ₛ y then grey else colour cs y)
          → colour (paint x grey cs) y ≡ grey
          → In y (x ∷ path)
      add y q e = elim (Bool-cases (x ==ₛ y)) [
        | inl s ↦ inl (sym ((text_eq_iff x y).0 s))
        | inr n ↦ inr (p.walked y (sym (rw n at q) ∙ e))
      ]

  -- What the inner loop leaves: a chained path, a run that is not white, and no more white runs
  -- than before.
  record Followed (start : Option String) (cs : Colours) (r : Option String × List String × Colours)
      : Type 0 where
    chain : Chain r.0 r.1
    painted : IsPainted r.1 r.2
    stopped : (x : String) → r.0 ≡ some x → is_white (colour r.2 x) ≡ false
    reached : (x : String) → start ≡ some x → is_white (colour r.2 x) ≡ false
    kept : (y : String) → is_white (colour cs y) ≡ false → is_white (colour r.2 y) ≡ false
    fewer : num_white r.2 ≤ num_white cs

  stay :
      (start : Option String) (path : List String) (cs : Colours)
      → ((x : String) → start ≡ some x → is_white (colour cs x) ≡ false)
      → Chain start path
      → IsPainted path cs
      → Followed start cs (start, path, cs)
  stay start path cs h c p = record {
    chain = c;
    painted = p;
    stopped = h;
    reached = h;
    kept = λ y k. k;
    fewer = omega arith;
  }

  grey_not_white :
      (x y : String) (cs : Colours)
      → is_white (colour cs x) ≡ true
      → ((x ==ₛ y) ≡ true) ⊎ (is_white (colour cs y) ≡ false)
      → is_white (colour (paint x grey cs) y) ≡ false
  grey_not_white x y cs w k = rw (colour-paint x y grey cs w) (ground arith)

  follow-Followed :
      (f : ℕ) (run : Option String) (path : List String) (cs : Colours)
      → num_white cs ≤ f
      → Chain run path
      → IsPainted path cs
      → Followed run cs (follow f es run path cs)
  unfolding follow
  follow-Followed zero run path cs w c p =
      stay run path cs (λ x _. num_white-zero x cs (omega arith)) c p
  follow-Followed (suc f) none path cs w c p = stay none path cs (λ x e. absurd (cc)) c p
  follow-Followed (suc f) (some x) path cs w c p = elim (Bool-cases (is_white (colour cs x))) [
    | inl fresh ↦ rw fresh (
        extend x path cs fresh (
          follow-Followed f (parent es x) (x ∷ path) (paint x grey cs)
            (omega (arith, num_white-paint x cs fresh)) (refl, c)
            (paint-IsPainted x path cs fresh p)))
    | inr other ↦ rw other (stay (some x) path cs (λ y e. rw (← some_eq x y e) other) c p)
  ]
    where
      some_eq : (x y : String) → some x ≡ some y → x ≡ y
      some_eq x y e = cc

      extend :
          (x : String) (path : List String) (cs : Colours)
          {r : Option String × List String × Colours}
          → is_white (colour cs x) ≡ true
          → Followed (parent es x) (paint x grey cs) r
          → Followed (some x) cs r
      extend x path cs fresh k = record {
        chain = k.chain;
        painted = k.painted;
        stopped = k.stopped;
        reached = λ y e.
            k.kept y (grey_not_white x y cs fresh (inl ((text_eq_iff x y).1 (some_eq x y e))));
        kept = λ y h. k.kept y (grey_not_white x y cs fresh (inr h));
        fewer = omega (arith, k.fewer, num_white-paint x cs fresh);
      }

  -- Blackening a path colours its runs and no other.
  colour-blacken :
      (y : String) (path : List String) (cs : Colours)
      → In y path ⊎ (colour (blacken path cs) y ≡ colour cs y)
  colour-blacken y [] cs = inr refl
  colour-blacken y (x ∷ xs) cs = elim (colour-blacken y xs (paint x black cs)) [
    | inl i ↦ inl (inr i)
    | inr e ↦ elim (Bool-cases (x ==ₛ y)) [
      | inl s ↦ inl (inl (sym ((text_eq_iff x y).0 s)))
      | inr n ↦ inr (e ∙ colour-paint_black x y cs ∙ rw n refl)
    ]
  ]

  In-colour-blacken :
      (y : String) (path : List String) (cs : Colours)
      → In y path
      → colour (blacken path cs) y ≡ black
  In-colour-blacken y [] cs i = elim i [ ]
  In-colour-blacken y (x ∷ xs) cs (inl e) = elim (colour-blacken y xs (paint x black cs)) [
    | inl i ↦ In-colour-blacken y xs (paint x black cs) i
    | inr f ↦ f ∙ colour-paint_black x y cs ∙ rw ((text_eq_iff x y).1 (sym e)) refl
  ]
  In-colour-blacken y (x ∷ xs) cs (inr i) = In-colour-blacken y xs (paint x black cs) i

  num_white-blacken :
      (path : List String) (cs : Colours) → num_white (blacken path cs) ≤ num_white cs
  num_white-blacken [] cs = omega arith
  num_white-blacken (x ∷ xs) cs =
      omega (arith, num_white-blacken xs (paint x black cs), num_white-paint_black x cs)

  -- What a round of the outer loop leaves.
  record Visited (start : String) (cs cs' : Colours) : Type 0 where
    painted : IsPainted [] cs'
    reached : is_white (colour cs' start) ≡ false
    kept : (y : String) → is_white (colour cs y) ≡ false → is_white (colour cs' y) ≡ false
    fewer : num_white cs' ≤ num_white cs

  -- The verdict of a part of the loop: it goes on well, or some run is its own ancestor.
  abbrev Verdict : (Colours → Type 0) → Outcome Colours → Type 0
  Verdict P (ok cs) = P cs
  Verdict P (err e) = (e ≡ lineage_violation) × ((x : String) × Above x x)

  -- A path whose end leaves is settled by painting it black.
  settle :
      (start : String) (cs : Colours) (run : Option String) (path : List String) (cs' : Colours)
      → Followed (some start) cs (run, path, cs')
      → LeavesFrom run
      → Visited start cs (blacken path cs')
  settle start cs run path cs' k h = record {
    painted = record {
      done = λ y e. elim (colour-blacken y path cs') [
        | inl i ↦ Chain-Leaves run path y k.chain h i
        | inr s ↦ k.painted.done y (sym s ∙ e)
      ];
      walked = λ y e. absurd (never_grey y e);
    };
    reached = dark start (k.reached start refl);
    kept = λ y w. dark y (k.kept y w);
    fewer = omega (arith, k.fewer, num_white-blacken path cs');
  }
    where
      dark :
          (y : String)
          → is_white (colour cs' y) ≡ false
          → is_white (colour (blacken path cs') y) ≡ false
      dark y w = elim (colour-blacken y path cs') [
        | inl i ↦ ap is_white (In-colour-blacken y path cs' i)
        | inr s ↦ ap is_white s ∙ w
      ]

      never_grey : (y : String) → colour (blacken path cs') y ≡ grey → ⊥
      never_grey y e = elim (colour-blacken y path cs') [
        | inl i ↦ cc (In-colour-blacken y path cs' i, e)
        | inr s ↦ cc (In-colour-blacken y path cs' (k.painted.walked y (sym s ∙ e)), e)
      ]

  judge :
      (start : String) (cs : Colours) (r : Option String × List String × Colours)
      → Followed (some start) cs r
      → Verdict
          (Visited start cs)
          (if closes r.0 r.2 then err lineage_violation else ok (blacken r.1 r.2))
  judge start cs (none, path, cs') k = settle start cs none path cs' k tt
  judge start cs (some z, path, cs') k = by_colour (colour cs' z) refl (k.stopped z refl)
    where
      by_colour :
          (c : Colour)
          → colour cs' z ≡ c
          → is_white (colour cs' z) ≡ false
          → Verdict
              (Visited start cs)
              (if is_grey (colour cs' z) then err lineage_violation else ok (blacken path cs'))
      by_colour white e h = absurd (cc (ap is_white e, h))
      by_colour grey e h = rw e (refl, (z, Chain-Above z path z k.chain (k.painted.walked z e)))
      by_colour black e h = rw e (settle start cs (some z) path cs' k (k.painted.done z e))

  visit-Verdict :
      (f : ℕ) (start : String) (cs : Colours)
      → num_white cs ≤ f
      → IsPainted [] cs
      → Verdict (Visited start cs) (visit f es start cs)
  unfolding visit
  visit-Verdict f start cs w p = elim (Bool-cases (is_white (colour cs start))) [
    | inl fresh ↦ rw fresh (
        judge start cs (follow f es (some start) [] cs)
          (follow-Followed f (some start) [] cs w tt p))
    | inr other ↦
        rw other (record { painted = p; reached = other; kept = λ y h. h; fewer = omega arith })
  ]

  -- All runs of a part of the dict have been reached.
  abbrev AllReached : Edges → Colours → Type 0
  AllReached [] cs = Unit
  AllReached ((x, _) ∷ rest) cs = (is_white (colour cs x) ≡ false) × AllReached rest cs

  record Finished (rest : Edges) (cs cs' : Colours) : Type 0 where
    painted : IsPainted [] cs'
    all : AllReached rest cs'
    kept : (y : String) → is_white (colour cs y) ≡ false → is_white (colour cs' y) ≡ false

  visit_all-Verdict :
      (f : ℕ) (rest : Edges) (cs : Colours)
      → num_white cs ≤ f
      → IsPainted [] cs
      → Verdict (Finished rest cs) (visit_all f es rest cs)
  unfolding visit_all
  visit_all-Verdict f [] cs w p = record { painted = p; all = tt; kept = λ y h. h }
  visit_all-Verdict f ((x, q) ∷ rest) cs w p =
      go (visit f es x cs) (visit-Verdict f x cs w p) (visit_all-Verdict f rest)
    where
      go :
          (o : Outcome Colours)
          → Verdict (Visited x cs) o
          → ((cs' : Colours)
              → num_white cs' ≤ f
              → IsPainted [] cs'
              → Verdict (Finished rest cs') (visit_all f es rest cs'))
          → Verdict (Finished ((x, q) ∷ rest) cs) (o >>= λ cs'. visit_all f es rest cs')
      go (err e) v ih = v
      go (ok cs') v ih =
          widen cs' v (visit_all f es rest cs') (ih cs' (omega (arith, v.fewer)) v.painted)
        where
          widen :
              (cs' : Colours) (v : Visited x cs cs') (o : Outcome Colours)
              → Verdict (Finished rest cs') o
              → Verdict (Finished ((x, q) ∷ rest) cs) o
          widen cs' v (err e) u = u
          widen cs' v (ok cs'') u = record {
            painted = u.painted;
            all = (u.kept x v.reached, u.all);
            kept = λ y h. u.kept y (v.kept y h);
          }

  none_grey :
      (y : String) (cs : Colours) → IsPainted [] cs → is_white (colour cs y) ≡ false → Leaves y
  none_grey y cs p w = by_colour (colour cs y) refl w
    where
      by_colour : (c : Colour) → colour cs y ≡ c → is_white (colour cs y) ≡ false → Leaves y
      by_colour white e h = absurd (cc (ap is_white e, h))
      by_colour grey e h = elim (p.walked y e) [ ]
      by_colour black e h = p.done y e

  Leaves-Above : (x y : String) → Leaves x → Above x y → Leaves y
  Leaves-Above x y (top e) (one f) = absurd (cc (e, f))
  Leaves-Above x y (top e) (more p f a) = absurd (cc (e, f))
  Leaves-Above x y (up p e l) (one f) = subst Leaves (some_eq p y (sym e ∙ f)) l
    where
      some_eq : (a b : String) → some a ≡ some b → a ≡ b
      some_eq a b h = cc
  Leaves-Above x y (up p e l) (more q f a) = Leaves-Above p y l (same_start p q (sym e ∙ f) a)
    where
      same_start : (p q : String) → some p ≡ some q → Above q y → Above p y
      same_start p q h a = subst (λ z. Above z y) (cc h) a

num_white-all_white : (es : Edges) → num_white (map (λ e. (e.0, white)) es) ≤ length es
unfolding num_white
num_white-all_white [] = omega arith
num_white-all_white (e ∷ es) = omega (arith, num_white-all_white es)

-- A run starts white, and what is no run has no parent and counts as black.
colour-all_white :
    (y : String) (es : Edges)
    → (colour (map (λ e. (e.0, white)) es) y ≡ white)
      ⊎ ((colour (map (λ e. (e.0, white)) es) y ≡ black) × (parent es y ≡ none))
colour-all_white y [] = inr (refl, refl)
colour-all_white y ((x, p) ∷ es) = elim (Bool-cases (x ==ₛ y)) [
  | inl s ↦ rw s (inl refl)
  | inr n ↦ rw n (colour-all_white y es)
]

all_white-IsPainted : (es : Edges) → IsPainted es [] (map (λ e. (e.0, white)) es)
all_white-IsPainted es = record {
  done = λ y e. elim (colour-all_white y es) [ inl w ↦ absurd (cc (w, e)) | inr b ↦ top b.1 ];
  walked = λ y e. elim (colour-all_white y es) [
    | inl w ↦ absurd (cc (w, e))
    | inr b ↦ absurd (cc (b.0, e))
  ];
}

AllReached-parent :
    (es rest : Edges) (cs : Colours) (y : String)
    → AllReached es rest cs
    → (is_white (colour cs y) ≡ false) ⊎ (parent rest y ≡ none)
AllReached-parent es [] cs y a = inr refl
AllReached-parent es ((x, p) ∷ rest) cs y a = elim (Bool-cases (x ==ₛ y)) [
  | inl s ↦ inl (subst (λ z. is_white (colour cs z) ≡ false) ((text_eq_iff x y).0 s) a.0)
  | inr n ↦ rw n (AllReached-parent es rest cs y a.1)
]

Finished-Leaves :
    (es : Edges) (cs cs' : Colours) → Finished es es cs cs' → (x : String) → Leaves es x
Finished-Leaves es cs cs' k x = elim (AllReached-parent es es cs' x k.all) [
  | inl w ↦ none_grey es x cs' k.painted w
  | inr e ↦ top e
]

-- What an outcome of `assert_no_cycle` tells of the graph.
abbrev pub Decides : Edges → Outcome (Unit {0}) → Type 0
Decides es o =
    ((o ≡ ok tt) × ((x : String) → Leaves es x))
    ⊎ ((o ≡ err lineage_violation) × ((x : String) × Above es x x))

conclude :
    (es : Edges) (o : Outcome Colours)
    → Verdict es (Finished es es (map (λ e. (e.0, white)) es)) o
    → Decides es (o >>= λ _. ok tt)
conclude es (ok cs) v = inl (refl, Finished-Leaves es (map (λ e. (e.0, white)) es) cs v)
conclude es (err e) v = inr (ap err v.0, v.1)

-- `assert_no_cycle` is total and decides: either it returns, and from every run the parents come
-- to an end, or it raises LineageViolation, and some run is its own ancestor.
pub assert_no_cycle_lem : (es : Edges) → Decides es (assert_no_cycle es)
unfolding assert_no_cycle
assert_no_cycle_lem es = conclude es (visit_all (length es) es es (map (λ e. (e.0, white)) es)) (
    visit_all-Verdict es (length es) es (map (λ e. (e.0, white)) es) (num_white-all_white es)
      (all_white-IsPainted es))
