-- ===== src/Reconstruction/Lineage.antt =====
-- persistence.py: rows of the table of provenance, and the checks on the graph of runs.
pub mod Eligible
pub mod Cycle
use lzd.Common.{
  ℕ, zero, suc, ◌≡◌, Bool, true, false, ◌&&◌, ◌||◌, not, List, [], ◌∷◌, ◌++◌, map, Option, none,
  some, String, ◌==ₛ◌, if◌then◌else◌, length, all_of, any_of, keep_if,
}
use lzd.Common.Outcome.{Outcome, ok, err, key_error, lineage_violation, ◌>>=◌, ◌>>◌, raise_if}
use lzd.Reconstruction.State.{
  SourceType, real, reconstructed, synthetic, Provenance, new_provenance, is_empty,
}

-- A row of `biz.provenance`; `none` outside is a missing column, and inside a null.
pub record Row : Type 0 where
  pub source_type : Option SourceType
  pub generation_run_id : Option String
  pub root_generation_id : Option String
  pub parent_run_id : Option (Option String)
  pub parent_target_id : Option (Option String)
  pub parent_entity_id : Option (Option String)
  pub parent_feature_version : Option (Option String)
  pub ancestor_model_ids : Option (Option (List String))
  pub behaviour_policy_version : Option (Option String)
  pub created_at : Option (Option ℕ)

-- `provenance_to_row`
unfoldable pub provenance_to_row : Provenance → Row
provenance_to_row p = record {
  source_type = some p.source_type;
  generation_run_id = some p.generation_run_id;
  root_generation_id = some p.root_generation_id;
  parent_run_id = some p.parent_run_id;
  parent_target_id = some p.parent_target_id;
  parent_entity_id = some p.parent_entity_id;
  parent_feature_version = some p.parent_feature_version;
  ancestor_model_ids = some (some p.ancestor_model_ids);
  behaviour_policy_version = some p.behaviour_policy_version;
  created_at = some p.created_at;
}

-- `row.get(k)`
abbrev get {ℓ} : {A : Type ℓ} → Option (Option A) → Option A
get none = none
get (some v) = v

-- `row[k]`
abbrev require {ℓ} : {A : Type ℓ} → Option A → Outcome A
require none = err key_error
require (some v) = ok v

-- `value or ()`
abbrev or_empty {ℓ} : {A : Type ℓ} → Option (List A) → List A
or_empty none = []
or_empty (some xs) = xs

-- `provenance_from_row`
unfoldable pub provenance_from_row : Row → Outcome Provenance
unfolding new_provenance
provenance_from_row r = do
  source ← require r.source_type
  run ← require r.generation_run_id
  root ← require r.root_generation_id
  new_provenance (record {
    source_type = source;
    generation_run_id = run;
    root_generation_id = root;
    parent_run_id = get r.parent_run_id;
    parent_target_id = get r.parent_target_id;
    parent_entity_id = get r.parent_entity_id;
    parent_feature_version = get r.parent_feature_version;
    ancestor_model_ids = or_empty (get r.ancestor_model_ids);
    behaviour_policy_version = get r.behaviour_policy_version;
    created_at = get r.created_at;
  })

-- The rows that the checks on the graph read, each with its columns.
abbrev pub Rows : Type 0
Rows = List Provenance

abbrev pub is_real : Provenance → Bool
is_real p = elim p.source_type [ real ↦ true | reconstructed ↦ false | synthetic ↦ false ]

-- The rows of one root.
abbrev pub group_of : String → Rows → Rows
group_of root = keep_if (λ r. r.root_generation_id ==ₛ root)

-- Whether a root is in `real_lineage_roots`: a root of some row, with real rows alone and no model
-- among their ancestors.
unfoldable pub in_real_roots : Rows → String → Bool
in_real_roots rows root =
    any_of (λ r. r.root_generation_id ==ₛ root) rows
    && (all_of is_real (group_of root rows)
        && all_of (λ r. is_empty r.ancestor_model_ids) (group_of root rows))

-- `assert_production_train_eligible`
unfoldable pub assert_production_train_eligible : Rows → Outcome (Unit {0})
unfolding in_real_roots
assert_production_train_eligible rows =
    raise_if (any_of (λ r. not (in_real_roots rows r.root_generation_id)) rows) lineage_violation

-- `edges[run_id] = parent_run_id`, for the runs of the rows; a later row wins.
abbrev pub Edges : Type 0
Edges = List (String × Option String)

-- `run_id in edges`
abbrev pub has_run : String → Edges → Bool
has_run x [] = false
has_run x ((y, _) ∷ es) = (y ==ₛ x) || has_run x es

-- `edges.get(run_id)`; None for a run that is not there, and for a run with no parent.
abbrev pub parent : Edges → String → Option String
parent [] x = none
parent ((y, p) ∷ es) x = if y ==ₛ x then p else parent es x

pub data Colour : Type 0 where
  white grey black : Colour

abbrev pub Colours : Type 0
Colours = List (String × Colour)

-- `color.get(run, BLACK)`
abbrev pub colour : Colours → String → Colour
colour [] x = black
colour ((y, c) ∷ cs) x = if y ==ₛ x then c else colour cs x

-- `color[run] = c`, for a run that has a colour
abbrev pub paint : String → Colour → Colours → Colours
paint x c [] = []
paint x c ((y, d) ∷ cs) = if y ==ₛ x then (y, c) ∷ cs else (y, d) ∷ paint x c cs

abbrev pub is_white : Colour → Bool
is_white white = true
is_white _ = false

abbrev pub is_grey : Colour → Bool
is_grey grey = true
is_grey _ = false

-- The inner `while`: where it stops, the path behind it and the colours. The fuel is the number of
-- runs, since every round paints one more run grey.
unfoldable pub follow :
    ℕ → Edges → Option String → List String → Colours → Option String × List String × Colours
follow zero es run path cs = (run, path, cs)
follow (suc f) es none path cs = (none, path, cs)
follow (suc f) es (some x) path cs =
    let rest = follow f es (parent es x) (x ∷ path) (paint x grey cs) in
    if is_white (colour cs x) then rest else (some x, path, cs)

-- `for n in path: color[n] = BLACK`
abbrev pub blacken : List String → Colours → Colours
blacken [] cs = cs
blacken (x ∷ xs) cs = blacken xs (paint x black cs)

-- A stop on a grey run closes a cycle.
abbrev pub closes : Option String → Colours → Bool
closes none cs = false
closes (some x) cs = is_grey (colour cs x)

-- One round of the loop over the runs.
unfoldable pub visit : ℕ → Edges → String → Colours → Outcome Colours
unfolding follow
visit f es start cs =
    if not (is_white (colour cs start))
    then ok cs
    else (let (run, path, cs') = follow f es (some start) [] cs in
        if closes run cs' then err lineage_violation else ok (blacken path cs'))

unfoldable pub visit_all : ℕ → Edges → Edges → Colours → Outcome Colours
unfolding visit
visit_all f es [] cs = ok cs
visit_all f es ((x, _) ∷ rest) cs = visit f es x cs >>= λ cs'. visit_all f es rest cs'

-- `assert_no_cycle`
unfoldable pub assert_no_cycle : Edges → Outcome (Unit {0})
unfolding visit_all
assert_no_cycle es = visit_all (length es) es es (map (λ e. (e.0, white)) es) >>= λ _. ok tt

-- `{r["generation_run_id"]: r.get("parent_run_id") for r in rows}`
abbrev set_parent : String → Option String → Edges → Edges
set_parent x p [] = (x, p) ∷ []
set_parent x p ((y, q) ∷ es) = if y ==ₛ x then (x, p) ∷ es else (y, q) ∷ set_parent x p es

unfoldable pub edges_from : Edges → Rows → Edges
edges_from es [] = es
edges_from es (r ∷ rows) = edges_from (set_parent r.generation_run_id r.parent_run_id es) rows

abbrev pub edges_of : Rows → Edges
edges_of = edges_from []

-- `roots.get(run_id)`: the root of the last row of the run.
abbrev pub root_of : Rows → String → Option String
root_of [] x = none
root_of (r ∷ rows) x = elim (root_of rows x) [
  | some q ↦ some q
  | none ↦ if r.generation_run_id ==ₛ x then some r.root_generation_id else none
]

abbrev pub seen_in : String → List String → Bool
seen_in x = any_of (λ y. y ==ₛ x)

-- The walk of `assert_single_root` up the parents, which a run that was seen stops. The fuel is one
-- more than the number of runs, since every round sees one more run.
unfoldable pub climb : ℕ → Edges → String → List String → String
climb zero es run seen = run
climb (suc f) es run seen = elim (parent es run) [
  | none ↦ run
  | some p ↦ if seen_in run seen then run else climb f es p (run ∷ seen)
]

abbrev pub opt_eq : Option String → Option String → Bool
opt_eq none none = true
opt_eq none (some _) = false
opt_eq (some _) none = false
opt_eq (some x) (some y) = x ==ₛ y

-- `roots[run_id] != roots.get(actual_root, roots[run_id])` fails
abbrev pub root_agrees : Rows → String → String → Bool
root_agrees rows run top = elim (root_of rows top) [
  | none ↦ true
  | some q ↦ opt_eq (root_of rows run) (some q)
]

-- `assert_single_root`
unfoldable pub assert_single_root : Rows → Outcome (Unit {0})
unfolding edges_from climb
assert_single_root rows =
    let es = edges_of rows in
    raise_if (any_of (λ e. not (root_agrees rows e.0 (climb (suc (length es)) es e.0 []))) es)
      lineage_violation

-- `check_all`, Gate D
unfoldable pub check_all : Rows → Outcome (Unit {0})
unfolding edges_from assert_no_cycle assert_single_root
check_all rows = assert_no_cycle (edges_of rows) >> assert_single_root rows
