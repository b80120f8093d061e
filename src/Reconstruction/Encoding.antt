-- ===== src/Reconstruction/Encoding.antt =====
-- encoding.py: levels of an attribute and the values of its columns, in both directions.
pub mod Tables
pub mod Fitting
pub mod Checks
pub mod RoundTrip
pub mod Fitted
pub mod OneHot
use lzd.Common.{
  ℕ, zero, suc, ◌+◌, ◌≡◌, Bool, true, false, ◌&&◌, ◌||◌, not, List, [], ◌∷◌, ◌++◌, map, Option,
  none, some, String, ◌==ₛ◌, ◌==◌, ltb, if◌then◌else◌, length, range_from,
}
use Prim.Native.Nat.{Ordering}
use Prim.Native.String.{compare}
use lzd.Common.Outcome.{Outcome, ok, err, key_error, encoding_error, raise_if, ◌>>=◌, ◌>>◌}
use lzd.Common.Dict.{Dict, get, set}
use lzd.Common.Sorting.{sort_by}

-- The texts of the values of the columns.
abbrev pub Key : Type 0
Key = List String

abbrev pub key_eq : Key → Key → Bool
key_eq [] [] = true
key_eq [] (_ ∷ _) = false
key_eq (_ ∷ _) [] = false
key_eq (s ∷ k) (t ∷ l) = (s ==ₛ t) && key_eq k l

abbrev text_lt : String → String → Bool
text_lt s t = elim (compare s t) [ Ordering.lt ↦ true | _ ↦ false ]

-- The order of tuples of texts.
abbrev pub key_le : Key → Key → Bool
key_le [] l = true
key_le (_ ∷ _) [] = false
key_le (s ∷ k) (t ∷ l) = text_lt s t || ((s ==ₛ t) && key_le k l)

-- `table[a]`; none where Python raises KeyError.
abbrev pub lookup : {A B : Type 0} → (A → A → Bool) → A → List (A × B) → Option B
lookup eq a [] = none
lookup eq a ((b, v) ∷ table) = if eq b a then some v else lookup eq a table

abbrev pub or_key_error {ℓ} : {A : Type ℓ} → Option A → Outcome A
or_key_error none = err key_error
or_key_error (some a) = ok a

-- `[values[c] for c in columns]`
abbrev pub read_columns : {N : Type 0} → List String → Dict N → Outcome (List N)
read_columns [] row = ok []
read_columns (c ∷ cs) row =
    or_key_error (get c row) >>= λ v. read_columns cs row >>= λ vs. ok (v ∷ vs)

-- `dict(zip(columns, values))`, on top of what is there
abbrev pub put_columns : {N : Type 0} → List String → List N → Dict N → Dict N
put_columns [] vs d = d
put_columns (c ∷ cs) [] d = d
put_columns (c ∷ cs) (v ∷ vs) d = put_columns cs vs (set c v d)

abbrev pub or_error {ℓ} : {A : Type ℓ} → Option A → Outcome A
or_error none = err encoding_error
or_error (some a) = ok a

pub record ValueEncoding (N : Type 0) : Type 0 where
  pub columns : List String
  pub to_level : List (Key × ℕ)
  pub to_value : List (ℕ × List N)

-- `{key: i for i, key in enumerate(ordered)}`
abbrev pub enumerate : ℕ → List Key → List (Key × ℕ)
enumerate i [] = []
enumerate i (k ∷ ks) = (k, i) ∷ enumerate (i + 1) ks

module _ {N : Type 0} (float_repr : N → String) where
  -- The values that were seen, by their texts, in the order of their first appearance.
  abbrev pub Seen : Type 0
  Seen = List (Key × List N)

  -- `{i: seen[key] for i, key in enumerate(ordered)}`
  abbrev pub level_values : Seen → ℕ → List Key → Outcome (List (ℕ × List N))
  level_values seen i [] = ok []
  level_values seen i (k ∷ ks) = or_key_error (lookup key_eq k seen) >>= λ vs.
      level_values seen (i + 1) ks >>= λ table. ok ((i, vs) ∷ table)

  abbrev pub has_key : Key → Seen → Bool
  has_key k [] = false
  has_key k ((l, _) ∷ seen) = key_eq l k || has_key k seen

  abbrev pub see : List N → Seen → Seen
  see vs seen =
      if has_key (map float_repr vs) seen then seen else seen ++ (map float_repr vs, vs) ∷ []

  -- The loop of `fit_value_encoding`.
  unfoldable pub see_rows : List String → List (Dict N) → Seen → Outcome Seen
  see_rows columns [] seen = ok seen
  see_rows columns (row ∷ rows) seen =
      read_columns columns row >>= λ vs. see_rows columns rows (see vs seen)

  -- `fit_value_encoding`
  unfoldable pub fit_value_encoding : List String → List (Dict N) → Outcome (ValueEncoding N)
  unfolding see_rows sort_by
  fit_value_encoding columns rows = do
    seen ← see_rows columns rows []
    let ordered = sort_by key_le (map (λ (e : Key × List N). e.0) seen)
    table ← level_values seen 0 ordered
    ok (record { columns = columns; to_level = enumerate 0 ordered; to_value = table })

  -- `ValueEncoding.decode`
  unfoldable pub decode_value : ValueEncoding N → Dict N → Outcome ℕ
  decode_value enc values = read_columns enc.columns values >>= λ vs.
      or_error (lookup key_eq (map float_repr vs) enc.to_level)

  -- `ValueEncoding.encode`
  unfoldable pub encode_value : ValueEncoding N → ℕ → Outcome (Dict N)
  encode_value enc level = or_error (lookup (λ a b. a == b) level enc.to_value) >>= λ vs.
      ok (put_columns enc.columns vs [])

-- What the one-hot encoding uses of numbers: 1.0, 0.0 and the test `value == 1.0`.
pub record Bits (N : Type 0) : Type 0 where
  pub one : N
  pub zero : N
  pub is_one : N → Bool

module _ {N : Type 0} (bits : Bits N) where
  -- `[i for i, c in enumerate(columns) if values[c] == 1.0]`
  abbrev pub hot_from : ℕ → List N → List ℕ
  hot_from i [] = []
  hot_from i (v ∷ vs) = let rest = hot_from (i + 1) vs in if bits.is_one v then i ∷ rest else rest

  abbrev pub the_one : List ℕ → Outcome ℕ
  the_one [] = err encoding_error
  the_one (i ∷ []) = ok i
  the_one (_ ∷ _ ∷ _) = err encoding_error

  -- `OneHotEncoding.decode`
  unfoldable pub decode_one_hot : List String → Dict N → Outcome ℕ
  decode_one_hot columns values = read_columns columns values >>= λ vs. the_one (hot_from 0 vs)

  abbrev pub levels_from : ℕ → ℕ → List String → List N
  levels_from i level [] = []
  levels_from i level (_ ∷ cs) =
      (if i == level then bits.one else bits.zero) ∷ levels_from (i + 1) level cs

  -- `OneHotEncoding.encode`; a level is not negative by its type.
  unfoldable pub encode_one_hot : List String → ℕ → Outcome (Dict N)
  encode_one_hot columns level =
      if ltb level (length columns)
      then ok (put_columns columns (levels_from 0 level columns) [])
      else err encoding_error

pub data Encoding (N : Type 0) : Type 0 where
  by_value : ValueEncoding N → Encoding N
  one_hot : List String → Encoding N

module _ {N : Type 0} (float_repr : N → String) (bits : Bits N) where
  unfoldable pub decode : Encoding N → Dict N → Outcome ℕ
  unfolding decode_value decode_one_hot
  decode (by_value enc) values = decode_value float_repr enc values
  decode (one_hot columns) values = decode_one_hot bits columns values

  unfoldable pub encode : Encoding N → ℕ → Outcome (Dict N)
  unfolding encode_value encode_one_hot
  encode (by_value enc) level = encode_value float_repr enc level
  encode (one_hot columns) level = encode_one_hot bits columns level

  -- `levels`
  abbrev pub levels : Encoding N → ℕ
  levels (by_value enc) = length enc.to_value
  levels (one_hot columns) = length columns

  -- `EncodingRegistry.get`
  abbrev pub get_encoding : String → Dict (Encoding N) → Outcome (Encoding N)
  get_encoding attr registry = or_error (get attr registry)

  abbrev pub check_levels : Encoding N → List ℕ → Outcome (Unit {0})
  unfolding decode encode
  check_levels enc [] = ok tt
  check_levels enc (level ∷ rest) = encode enc level >>= λ values. decode enc values >>= λ back.
      raise_if (not (back == level)) encoding_error >> check_levels enc rest

  -- `assert_bijective`
  unfoldable pub assert_bijective : Dict (Encoding N) → String → Outcome (Unit {0})
  unfolding check_levels
  assert_bijective registry attr =
      get_encoding attr registry >>= λ enc. check_levels enc (range_from 0 (levels enc))

  -- The comparison of a row with what came back, on the columns of `got`.
  abbrev pub same_columns : Dict N → Dict N → Outcome (Unit {0})
  same_columns row [] = ok tt
  same_columns row ((c, v) ∷ got) = or_key_error (get c row) >>= λ w.
      raise_if (not (float_repr v ==ₛ float_repr w)) encoding_error >> same_columns row got

  abbrev pub check_rows : Encoding N → List (Dict N) → Outcome (Unit {0})
  unfolding decode encode
  check_rows enc [] = ok tt
  check_rows enc (row ∷ rows) = decode enc row >>= λ level.
      encode enc level >>= λ got. same_columns row got >> check_rows enc rows

  -- `assert_round_trip`
  unfoldable pub assert_round_trip : Dict (Encoding N) → String → List (Dict N) → Outcome (Unit {0})
  unfolding check_rows
  assert_round_trip registry attr rows = get_encoding attr registry >>= λ enc. check_rows enc rows
