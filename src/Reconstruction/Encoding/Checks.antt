-- ===== src/Reconstruction/Encoding/Checks.antt =====
-- encoding.py: what assert_bijective and assert_round_trip ask of an encoding.
use lzd.Common.{
  ℕ, zero, suc, ◌+◌, ◌<◌, ◌≡◌, refl, sym, ap, ◌∙◌, inl, inr, true, List, [], ◌∷◌, map, Option, none,
  some, String, ◌==ₛ◌, ◌==◌, All, range_from, arith, text_eq_iff, Bool-cases,
}
use mathlib.Core.Path.{subst}
use lzd.Common.Outcome.{ok, >>=-eq-ok, ok-injective}
use lzd.Common.Dict.{Dict, get, set}
use lzd.Reconstruction.Encoding.{
  or_key_error, read_columns, put_columns, Bits, Encoding, decode, encode, levels, check_levels,
  assert_bijective, same_columns, check_rows, assert_round_trip,
}

module _ {N : Type 0} (float_repr : N → String) (bits : Bits N) where
  -- A level is encoded to values that decode to it.
  abbrev pub ComesBack : Encoding N → ℕ → Type 0
  ComesBack enc level =
      (values : Dict N) × (encode float_repr bits enc level ≡ ok values)
      × (decode float_repr bits enc values ≡ ok level)

  pub check_levels-ComesBack :
      (enc : Encoding N) (i n : ℕ)
      → ((level : ℕ) → level < i + n → ComesBack enc level)
      → check_levels float_repr bits enc (range_from i n) ≡ ok tt
  unfolding check_levels
  check_levels-ComesBack enc i zero h = refl
  check_levels-ComesBack enc i (suc n) h =
      let (values, e, f) = h i (omega arith) in
      rw (e, f, same i)
        (check_levels-ComesBack enc (i + 1) n (λ level l. h level (omega (arith, l))))
    where
      same : (i : ℕ) → (i == i) ≡ true
      same i = ground arith

  pub assert_bijective-ComesBack :
      (registry : Dict (Encoding N)) (attr : String) (enc : Encoding N)
      → get attr registry ≡ some enc
      → ((level : ℕ) → level < levels float_repr bits enc → ComesBack enc level)
      → assert_bijective float_repr bits registry attr ≡ ok tt
  unfolding assert_bijective
  assert_bijective-ComesBack registry attr enc g h = rw g (
      check_levels-ComesBack enc 0 (levels float_repr bits enc)
        (λ level l. h level (omega (arith, l))))

  -- The row has a value of the same text under the column.
  abbrev pub Agrees : Dict N → String × N → Type 0
  Agrees row e = (w : N) × (get e.0 row ≡ some w) × (float_repr e.1 ≡ float_repr w)

  pub same_columns-Agrees :
      (row got : Dict N) → All (Agrees row) got → same_columns float_repr bits row got ≡ ok tt
  same_columns-Agrees row [] a = refl
  same_columns-Agrees row ((c, v) ∷ got) ((w, e, f), a) =
      rw (e, (text_eq_iff (float_repr v) (float_repr w)).1 f) (same_columns-Agrees row got a)

  set-Agrees :
      (row : Dict N) (c : String) (v : N) (d : Dict N)
      → Agrees row (c, v)
      → All (Agrees row) d
      → All (Agrees row) (set c v d)
  set-Agrees row c v [] g a = (g, tt)
  set-Agrees row c v ((e, w) ∷ d) g (b, a) = elim (Bool-cases (e ==ₛ c)) [
    | inl same ↦ rw same (subst (λ x. Agrees row (x, v)) (sym ((text_eq_iff e c).0 same)) g, a)
    | inr other ↦ rw other (b, set-Agrees row c v d g a)
  ]

  -- Values with the texts of the row's own are no other than the row's.
  pub put_columns-Agrees :
      (row : Dict N) (cs : List String) (ws vs : List N) (d : Dict N)
      → read_columns cs row ≡ ok ws
      → map float_repr vs ≡ map float_repr ws
      → All (Agrees row) d
      → All (Agrees row) (put_columns cs vs d)
  put_columns-Agrees row [] ws vs d r e a = a
  put_columns-Agrees row (c ∷ cs) ws [] d r e a = a
  put_columns-Agrees row (c ∷ cs) ws (v ∷ vs) d r e a =
      let (w, f, k) = >>=-eq-ok (or_key_error (get c row)) _ r in
      let (us, g, l) = >>=-eq-ok (read_columns cs row) _ k in
      let h : map float_repr (v ∷ vs) ≡ map float_repr (w ∷ us) =
        e ∙ ap (map float_repr) (sym (ok-injective (w ∷ us) ws l)) in
      put_columns-Agrees row cs us vs (set c v d) g (tails h)
        (set-Agrees row c v d (w, found (get c row) w f, heads h) a)
    where
      found : (o : Option N) (w : N) → or_key_error o ≡ ok w → o ≡ some w
      found none w h = cc
      found (some x) w h = cc

      heads : {s t : String} {k l : List String} → (s ∷ k) ≡ (t ∷ l) → s ≡ t
      heads h = cc

      tails : {s t : String} {k l : List String} → (s ∷ k) ≡ (t ∷ l) → k ≡ l
      tails h = cc

  -- The row's level is encoded to values with the texts of the row's own.
  abbrev pub IsGivenBack : Encoding N → Dict N → Type 0
  IsGivenBack enc row =
      (level : ℕ) × (got : Dict N) × (decode float_repr bits enc row ≡ ok level)
      × (encode float_repr bits enc level ≡ ok got)
      × All (Agrees row) got

  check_rows-IsGivenBack :
      (enc : Encoding N) (rows : List (Dict N))
      → All (IsGivenBack enc) rows
      → check_rows float_repr bits enc rows ≡ ok tt
  unfolding check_rows
  check_rows-IsGivenBack enc [] a = refl
  check_rows-IsGivenBack enc (row ∷ rows) ((level, got, e, f, g), a) =
      rw (e, f, same_columns-Agrees row got g) (check_rows-IsGivenBack enc rows a)

  pub assert_round_trip-IsGivenBack :
      (registry : Dict (Encoding N)) (attr : String) (enc : Encoding N) (rows : List (Dict N))
      → get attr registry ≡ some enc
      → All (IsGivenBack enc) rows
      → assert_round_trip float_repr bits registry attr rows ≡ ok tt
  unfolding assert_round_trip
  assert_round_trip-IsGivenBack registry attr enc rows g a =
      rw g (check_rows-IsGivenBack enc rows a)
