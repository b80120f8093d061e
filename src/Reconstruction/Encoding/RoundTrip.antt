-- ===== src/Reconstruction/Encoding/RoundTrip.antt =====
-- encoding.py: the tables of a fitted encoding, level by level.
use lzd.Common.{
  ℕ, zero, suc, ◌+◌, ◌≤◌, ◌≡◌, refl, ap, ◌∙◌, inl, inr, true, false, List, [], ◌∷◌, map, some,
  String, ◌==◌, length, In, All, get_elem?, arith, Bool-cases,
}
use mathlib.Core.Path.{subst}
use lzd.Common.Outcome.{ok}
use lzd.Common.Dict.{Dict}
use lzd.Reconstruction.Encoding.{
  Key, key_eq, lookup, read_columns, put_columns, ValueEncoding, enumerate, Seen, level_values,
  has_key, decode_value, encode_value,
}
use lzd.Reconstruction.Encoding.Tables.{
  key_eq-≡, times, lookup-enumerate, IsDistinct, read_columns-put_columns,
}
use lzd.Reconstruction.Encoding.Fitting.{IsEntry}

module _ {N : Type 0} (float_repr : N → String) (columns : List String) where
  lookup-IsEntry :
      (k : Key) (seen : Seen float_repr)
      → All (IsEntry float_repr columns) seen
      → has_key float_repr k seen ≡ true
      → (vs : List N) × (lookup key_eq k seen ≡ some vs) × IsEntry float_repr columns (k, vs)
  lookup-IsEntry k [] a h = cc
  lookup-IsEntry k ((l, vs) ∷ seen) ((e, n), a) h = elim (Bool-cases (key_eq l k)) [
    | inl s ↦ rw s (vs, refl, (e ∙ key_eq-≡ l k s, n))
    | inr d ↦ rw d (lookup-IsEntry k seen a (rw d at h))
  ]

  -- The table has the values of each key under the key's level.
  pub record IsTable (ks : List Key) (i : ℕ) (table : List (ℕ × List N)) : Type 0 where
    pub size : length table ≡ length ks
    pub values :
        (j : ℕ) (k : Key)
        → get_elem? ks j ≡ some k
        → (vs : List N) × (lookup (λ a b. a == b) (i + j) table ≡ some vs)
          × IsEntry float_repr columns (k, vs)

  pub level_values-IsTable :
      (seen : Seen float_repr) (i : ℕ) (ks : List Key)
      → All (IsEntry float_repr columns) seen
      → ((k : Key) → In k ks → has_key float_repr k seen ≡ true)
      → (table : List (ℕ × List N)) × (level_values float_repr seen i ks ≡ ok table)
        × IsTable ks i table
  level_values-IsTable seen i [] a h =
      ([], refl, record { size = refl; values = λ j k e. absurd (cc e) })
  level_values-IsTable seen i (k ∷ ks) a h =
      let (vs, e, p) = lookup-IsEntry k seen a (h k (inl refl)) in
      let (table, f, t) = level_values-IsTable seen (i + 1) ks a (λ l m. h l (inr m)) in
      ((i, vs) ∷ table, rw (e, f) refl, record { size = ap suc t.size; values = at vs p table t })
    where
      at :
          (vs : List N)
          → IsEntry float_repr columns (k, vs)
          → (table : List (ℕ × List N)) → IsTable ks (i + 1) table
          → (j : ℕ) (l : Key) → get_elem? (k ∷ ks) j ≡ some l
          → (ws : List N) × (lookup (λ a b. a == b) (i + j) ((i, vs) ∷ table) ≡ some ws)
            × IsEntry float_repr columns (l, ws)
      at vs p table t zero l e = (
        vs,
        rw (same i) refl,
        subst (λ (x : Key). IsEntry float_repr columns (x, vs)) (some_eq k l e) p,
      )
        where
          same : (i : ℕ) → (i == (i + 0)) ≡ true
          same i = ground arith

          some_eq : (a b : Key) → some a ≡ some b → a ≡ b
          some_eq a b q = cc
      at vs p table t (suc j) l e =
          let (ws, f, q) = t.values j l e in
          (ws, rw (apart i j) (ap (λ n. lookup (λ a b. a == b) n table) (shift i j) ∙ f), q)
        where
          apart : (i j : ℕ) → (i == (i + suc j)) ≡ false
          apart i j = ground arith

          shift : (i j : ℕ) → i + suc j ≡ i + 1 + j
          shift i j = omega arith

  -- The encoding that is built from what was seen.
  module _ (ks : List Key) (table : List (ℕ × List N)) (once : (k : Key) → times k ks ≤ 1)
      (t : IsTable ks 0 table) (u : IsDistinct columns) where
    abbrev pub fitted : ValueEncoding N
    fitted = record { columns = columns; to_level = enumerate 0 ks; to_value = table }

    level_of :
        (level : ℕ) (k : Key)
        → get_elem? ks level ≡ some k
        → lookup key_eq k (enumerate 0 ks) ≡ some level
    level_of level k e = lookup-enumerate 0 k ks level (once k) e ∙ ap some (omega arith)

    value_of :
        (level : ℕ) (k : Key)
        → get_elem? ks level ≡ some k
        → (vs : List N) × (lookup (λ a b. a == b) level table ≡ some vs)
          × IsEntry float_repr columns (k, vs)
    value_of level k e =
        let (vs, f, p) = t.values level k e in
        (vs, ap (λ n. lookup (λ a b. a == b) n table) (shift level) ∙ f, p)
      where
        shift : (level : ℕ) → level ≡ 0 + level
        shift level = omega arith

    -- Encoding a level gives a row whose values are those of the level's key, and decodes to it.
    pub encode-decode :
        (level : ℕ) (k : Key)
        → get_elem? ks level ≡ some k
        → (vs : List N) × (map float_repr vs ≡ k)
          × (length vs ≡ length columns)
          × (encode_value float_repr fitted level ≡ ok (put_columns columns vs []))
          × (decode_value float_repr fitted (put_columns columns vs []) ≡ ok level)
    unfolding encode_value decode_value
    encode-decode level k e =
        let (vs, f, (p, n)) = value_of level k e in
        (
          vs,
          p,
          n,
          rw f refl,
          rw (read_columns-put_columns columns vs [] u n, p, level_of level k e) refl,
        )

    pub decode_row :
        (row : Dict N) (vs : List N) (level : ℕ)
        → read_columns columns row ≡ ok vs
        → get_elem? ks level ≡ some (map float_repr vs)
        → decode_value float_repr fitted row ≡ ok level
    unfolding decode_value
    decode_row row vs level e f = rw (e, level_of level (map float_repr vs) f) refl
