-- ===== src/Reconstruction/Encoding/Fitted.antt =====
-- encoding.py: fit_value_encoding with the checks of the registry.
use lzd.Common.{ℕ, ◌≤◌, ◌<◌, ◌≡◌, refl, List, [], map, some, String, length, All, arith}
use lzd.Common.Membership.{get_elem?-lt, All-map}
use lzd.Common.Outcome.{ok}
use lzd.Common.Dict.{Dict, get, set, get-set_own}
use lzd.Common.Sorting.{sort_by, In-sort_by, sort_by-In, count_if-sort_by}
use lzd.Reconstruction.Encoding.{
  Key, key_eq, key_le, put_columns, ValueEncoding, Seen, fit_value_encoding, Bits, Encoding,
  by_value, decode, encode, assert_bijective, assert_round_trip,
}
use lzd.Reconstruction.Encoding.Tables.{times, In-get_elem?, IsDistinct}
use lzd.Reconstruction.Encoding.Fitting.{
  keys, has_key-In, In-has_key, IsSeen, Readable, Known, see_rows-SeesAll,
}
use lzd.Reconstruction.Encoding.Checks.{
  ComesBack, assert_bijective-ComesBack, IsGivenBack, assert_round_trip-IsGivenBack,
  put_columns-Agrees,
}
use lzd.Reconstruction.Encoding.RoundTrip.{
  IsTable, level_values-IsTable, fitted, encode-decode, decode_row,
}

module _ {N : Type 0} (float_repr : N → String) (bits : Bits N) (columns : List String)
    (u : IsDistinct columns) where
  -- What the encoding is fitted to, and the table that it gets.
  module _ (seen : Seen float_repr) (form : IsSeen float_repr columns seen)
      (table : List (ℕ × List N)) where
    abbrev ordered : List Key
    ordered = sort_by key_le (keys float_repr seen)

    ordered_once : (k : Key) → times k ordered ≤ 1
    ordered_once k =
        omega (arith, form.once k, count_if-sort_by key_le (λ l. key_eq l k) (keys float_repr seen))

    module _ (t : IsTable float_repr columns ordered 0 table) where
      abbrev enc : ValueEncoding N
      enc = fitted float_repr columns ordered table ordered_once t u

      fitted-ComesBack :
          (level : ℕ) → level < length table → ComesBack float_repr bits (by_value enc) level
      unfolding encode decode
      fitted-ComesBack level h =
          let (k, e, _) = get_elem?-lt ordered level (omega (arith, h, t.size)) in
          let (vs, _, _, f, g) =
            encode-decode float_repr columns ordered table ordered_once t u level k e in
          (put_columns columns vs [], f, g)

      fitted-IsGivenBack :
          (row : Dict N)
          → Known float_repr columns seen row
          → IsGivenBack float_repr bits (by_value enc) row
      unfolding encode decode
      fitted-IsGivenBack row (ws, r, h) =
          let (level, e) = In-get_elem? (map float_repr ws) ordered (
            In-sort_by key_le (map float_repr ws) (keys float_repr seen)
              (has_key-In float_repr (map float_repr ws) seen h)) in
          let (vs, p, _, f, _) =
            encode-decode float_repr columns ordered table ordered_once t u level
              (map float_repr ws) e in
          (
            level,
            put_columns columns vs [],
            decode_row float_repr columns ordered table ordered_once t u row ws level r e,
            f,
            put_columns-Agrees float_repr bits row columns ws vs [] r p tt,
          )

      checks :
          (rows : List (Dict N))
          → All (Known float_repr columns seen) rows
          → (registry : Dict (Encoding N)) (attr : String) → get attr registry ≡ some (by_value enc)
          → (assert_bijective float_repr bits registry attr ≡ ok tt)
            × (assert_round_trip float_repr bits registry attr rows ≡ ok tt)
      checks rows known registry attr g = (
        assert_bijective-ComesBack float_repr bits registry attr (by_value enc) g fitted-ComesBack,
        assert_round_trip-IsGivenBack float_repr bits registry attr (by_value enc) rows g (
            All-map (Known float_repr columns seen) (IsGivenBack float_repr bits (by_value enc))
              fitted-IsGivenBack rows known),
      )

  -- Where the columns are distinct and every row has them all, fit_value_encoding returns an encoding; registered under an
  -- attribute, it passes assert_bijective, and assert_round_trip on the rows.
  pub fit_value_encoding-passes :
      (rows : List (Dict N)) (registry : Dict (Encoding N)) (attr : String)
      → All (Readable float_repr columns) rows
      → (enc : ValueEncoding N) × (fit_value_encoding float_repr columns rows ≡ ok enc)
        × (assert_bijective float_repr bits (set attr (by_value enc) registry) attr ≡ ok tt)
        × (assert_round_trip float_repr bits (set attr (by_value enc) registry) attr rows ≡ ok tt)
  unfolding fit_value_encoding
  fit_value_encoding-passes rows registry attr r =
      let s =
        see_rows-SeesAll float_repr columns rows [] r
          (record { entries = tt; once = λ k. omega arith }) in
      let (table, e, t) =
        level_values-IsTable float_repr columns s.seen 0 (ordered s.seen s.form []) s.form.entries
          (λ k i.
            In-has_key float_repr k s.seen (sort_by-In key_le k (keys float_repr s.seen) i)) in
      let fit = enc s.seen s.form table t in
      let (b, c) =
        checks s.seen s.form table t rows s.known (set attr (by_value fit) registry) attr
          (get-set_own attr (by_value fit) registry) in
      (fit, rw (s.fits, e) refl, b, c)
