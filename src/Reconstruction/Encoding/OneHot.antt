-- ===== src/Reconstruction/Encoding/OneHot.antt =====
-- encoding.py: encoding and decoding of a group, level by level.
use lzd.Common.{
  ℕ, suc, ◌+◌, ◌≤◌, ◌<◌, ◌≡◌, refl, ap, inl, inr, true, false, List, [], ◌∷◌, some, String, ◌==◌,
  ltb, length, arith, Bool-cases,
}
use lzd.Common.Outcome.{ok}
use lzd.Common.Dict.{Dict, get}
use lzd.Reconstruction.Encoding.{
  Bits, hot_from, levels_from, decode_one_hot, encode_one_hot, Encoding, one_hot, decode, encode,
  put_columns, assert_bijective,
}
use lzd.Reconstruction.Encoding.Tables.{IsDistinct, read_columns-put_columns}
use lzd.Reconstruction.Encoding.Checks.{ComesBack, assert_bijective-ComesBack}

module _ {N : Type 0} (bits : Bits N) (one_lem : bits.is_one bits.one ≡ true)
    (zero_lem : bits.is_one bits.zero ≡ false) where
  length-levels_from :
      (i level : ℕ) (cs : List String) → length (levels_from bits i level cs) ≡ length cs
  length-levels_from i level [] = refl
  length-levels_from i level (_ ∷ cs) = ap suc (length-levels_from (i + 1) level cs)

  -- Past the level no column is hot.
  hot_from-past :
      (i level : ℕ) (cs : List String)
      → level < i
      → hot_from bits i (levels_from bits i level cs) ≡ []
  hot_from-past i level [] h = refl
  hot_from-past i level (_ ∷ cs) h =
      rw (apart i level h, zero_lem) (hot_from-past (i + 1) level cs (omega (arith, h)))
    where
      apart : (i level : ℕ) → level < i → (i == level) ≡ false
      apart i level h = ground arith

  hot_from-level :
      (i level : ℕ) (cs : List String)
      → i ≤ level
      → level < i + length cs
      → hot_from bits i (levels_from bits i level cs) ≡ level ∷ []
  hot_from-level i level [] l h = absurd (omega arith)
  hot_from-level i level (_ ∷ cs) l h = elim (Bool-cases (i == level)) [
    | inl e ↦ rw (e, one_lem, hot_from-past (i + 1) level cs (after e)) (ap (λ n. n ∷ []) (same e))
    | inr n ↦ rw (n, zero_lem) (hot_from-level (i + 1) level cs (above n) (omega (arith, h)))
  ]
    where
      after : (i == level) ≡ true → level < i + 1
      after e = ground arith

      same : (i == level) ≡ true → i ≡ level
      same e = ground arith

      above : (i == level) ≡ false → i + 1 ≤ level
      above n = ground arith

  module _ (float_repr : N → String) (columns : List String) (u : IsDistinct columns) where
    one_hot-ComesBack :
        (level : ℕ) → level < length columns → ComesBack float_repr bits (one_hot columns) level
    unfolding encode decode encode_one_hot decode_one_hot
    one_hot-ComesBack level h = (
      put_columns columns (levels_from bits 0 level columns) [],
      rw (inside level (length columns) h) refl,
      rw
          (
            read_columns-put_columns columns (levels_from bits 0 level columns) [] u
                (length-levels_from 0 level columns),
            hot_from-level 0 level columns (omega arith) (omega (arith, h)),
          )
          refl,
    )
      where
        inside : (a b : ℕ) → a < b → ltb a b ≡ true
        inside a b h = ground arith

    -- A one-hot encoding with distinct columns, where 1.0 == 1.0 and not 0.0 == 1.0, passes assert_bijective.
    pub one_hot-passes :
        (registry : Dict (Encoding N)) (attr : String)
        → get attr registry ≡ some (one_hot columns)
        → assert_bijective float_repr bits registry attr ≡ ok tt
    one_hot-passes registry attr g =
        assert_bijective-ComesBack float_repr bits registry attr (one_hot columns) g
          one_hot-ComesBack
