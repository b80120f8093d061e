-- ===== src/Reconstruction/Encoding/Fitting.antt =====
-- encoding.py: what is seen of the rows that an encoding is fitted to.
use lzd.Common.{
  ◌+◌, ◌≤◌, ◌≡◌, refl, sym, ap, ◌∙◌, inl, inr, true, false, ◌||◌, List, [], ◌∷◌, ◌++◌, map, String,
  if◌then◌else◌, length, In, All, All-append, arith, Bool-cases,
}
use mathlib.Core.Path.{subst}
use lzd.Common.Outcome.{Outcome, ok, ◌>>=◌}
use lzd.Common.Dict.{Dict}
use lzd.Reconstruction.Encoding.{Key, key_eq, read_columns, Seen, has_key, see, see_rows}
use lzd.Reconstruction.Encoding.Tables.{key_eq-≡, key_eq_refl, times, length-read_columns}

module _ {N : Type 0} (float_repr : N → String) where
  abbrev pub keys : Seen float_repr → List Key
  keys = map (λ (e : Key × List N). e.0)

  has_key-times :
      (k : Key) (seen : Seen float_repr)
      → has_key float_repr k seen ≡ false
      → times k (keys seen) ≡ 0
  has_key-times k [] h = refl
  has_key-times k ((l, _) ∷ seen) h = ground (arith, has_key-times k seen)

  pub has_key-In :
      (k : Key) (seen : Seen float_repr) → has_key float_repr k seen ≡ true → In k (keys seen)
  has_key-In k [] h = cc
  has_key-In k ((l, _) ∷ seen) h = elim (Bool-cases (key_eq l k)) [
    | inl e ↦ inl (sym (key_eq-≡ l k e))
    | inr n ↦ inr (has_key-In k seen (rw n at h))
  ]

  pub In-has_key :
      (k : Key) (seen : Seen float_repr) → In k (keys seen) → has_key float_repr k seen ≡ true
  In-has_key k [] i = elim i [ ]
  In-has_key k ((l, _) ∷ seen) (inl e) = rw (subst (λ x. key_eq x k ≡ true) e (key_eq_refl k)) refl
  In-has_key k ((l, _) ∷ seen) (inr i) = rw (In-has_key k seen i) (ground arith)

  module _ (columns : List String) where
    -- The values of an entry have its texts, one for each column.
    abbrev pub IsEntry : Key × List N → Type 0
    IsEntry e = (map float_repr e.1 ≡ e.0) × (length e.1 ≡ length columns)

    pub record IsSeen (seen : Seen float_repr) : Type 0 where
      pub entries : All IsEntry seen
      pub once : (k : Key) → times k (keys seen) ≤ 1

    times-snoc :
        (k l : Key) (vs : List N) (seen : Seen float_repr)
        → times k (keys (seen ++ (l, vs) ∷ []))
          ≡ times k (keys seen) + (if key_eq l k then 1 else 0)
    times-snoc k l vs [] = omega arith
    times-snoc k l vs (e ∷ seen) = omega (arith, times-snoc k l vs seen)

    has_key-snoc :
        (k l : Key) (vs : List N) (seen : Seen float_repr)
        → has_key float_repr k (seen ++ (l, vs) ∷ []) ≡ (has_key float_repr k seen || key_eq l k)
    has_key-snoc k l vs [] = ground arith
    has_key-snoc k l vs (e ∷ seen) = ground (arith, has_key-snoc k l vs seen)

    see-IsSeen :
        (vs : List N) (seen : Seen float_repr)
        → length vs ≡ length columns
        → IsSeen seen
        → IsSeen (see float_repr vs seen)
    see-IsSeen vs seen l s = elim (Bool-cases (has_key float_repr (map float_repr vs) seen)) [
      | inl old ↦ rw old s
      | inr new ↦ rw new (record {
        entries = All-append IsEntry seen ((map float_repr vs, vs) ∷ []) s.entries ((refl, l), tt);
        once = λ k. elim (Bool-cases (key_eq (map float_repr vs) k)) [
          | inl e ↦
              let z = has_key-times k seen (
                subst (λ x. has_key float_repr x seen ≡ false) (key_eq-≡ (map float_repr vs) k e)
                  new) in
              ground (arith, times-snoc k (map float_repr vs) vs seen)
          | inr n ↦ let o = s.once k in ground (arith, times-snoc k (map float_repr vs) vs seen)
        ];
      })
    ]

    see-has_key :
        (vs : List N) (seen : Seen float_repr) (k : Key)
        → has_key float_repr k seen ≡ true
        → has_key float_repr k (see float_repr vs seen) ≡ true
    see-has_key vs seen k h = elim (Bool-cases (has_key float_repr (map float_repr vs) seen)) [
      | inl old ↦ rw old h
      | inr new ↦ rw new (has_key-snoc k (map float_repr vs) vs seen ∙ rw h (ground arith))
    ]

    see-has_own :
        (vs : List N) (seen : Seen float_repr)
        → has_key float_repr (map float_repr vs) (see float_repr vs seen) ≡ true
    see-has_own vs seen = elim (Bool-cases (has_key float_repr (map float_repr vs) seen)) [
      | inl old ↦ rw old old
      | inr new ↦ rw new (
          has_key-snoc (map float_repr vs) (map float_repr vs) vs seen
          ∙ rw (key_eq_refl (map float_repr vs)) (ground arith))
    ]

    -- Every column stands in the row.
    abbrev pub Readable : Dict N → Type 0
    Readable row = (vs : List N) × (read_columns columns row ≡ ok vs)

    -- The row's values have a key among those that were seen.
    abbrev pub Known : Seen float_repr → Dict N → Type 0
    Known seen row =
        (vs : List N) × (read_columns columns row ≡ ok vs)
        × (has_key float_repr (map float_repr vs) seen ≡ true)

    pub record SeesAll (rows : List (Dict N)) (before : Seen float_repr)
        (out : Outcome (Seen float_repr)) : Type 0 where
      pub seen : Seen float_repr
      pub fits : out ≡ ok seen
      pub form : IsSeen seen
      pub kept : (k : Key) → has_key float_repr k before ≡ true → has_key float_repr k seen ≡ true
      pub known : All (Known seen) rows

    pub see_rows-SeesAll :
        (rows : List (Dict N)) (before : Seen float_repr)
        → All Readable rows
        → IsSeen before
        → SeesAll rows before (see_rows float_repr columns rows before)
    unfolding see_rows
    see_rows-SeesAll [] before r s = record {
      seen = before;
      fits = refl;
      form = s;
      kept = λ k h. h;
      known = tt;
    }
    see_rows-SeesAll (row ∷ rows) before ((vs, e), r) s =
        let rest =
          see_rows-SeesAll rows (see float_repr vs before) r
            (see-IsSeen vs before (length-read_columns columns row vs e) s) in
        record {
          seen = rest.seen;
          fits =
              ap (λ o. o >>= λ ws. see_rows float_repr columns rows (see float_repr ws before)) e
              ∙ rest.fits;
          form = rest.form;
          kept = λ k h. rest.kept k (see-has_key vs before k h);
          known = ((vs, e, rest.kept (map float_repr vs) (see-has_own vs before)), rest.known);
        }
