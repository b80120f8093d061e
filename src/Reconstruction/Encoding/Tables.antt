-- ===== src/Reconstruction/Encoding/Tables.antt =====
-- encoding.py: the tables of an encoding, and the columns of a row.
use lzd.Common.{
  ℕ, zero, suc, ◌+◌, ◌≤◌, ◌≡◌, refl, sym, ap, ◌∙◌, inl, inr, Bool, true, false, ◌&&◌, ◌||◌, List,
  [], ◌∷◌, some, String, ◌==ₛ◌, length, In, count_if, any_of, get_elem?, arith, Bool-cases,
  text_eq_iff,
}
use mathlib.Core.Path.{subst}
use lzd.Common.Outcome.{ok, >>=-eq-ok, ok-injective}
use lzd.Common.Dict.{Dict, get, set, get-set}
use lzd.Reconstruction.Encoding.{
  Key, key_eq, lookup, or_key_error, read_columns, put_columns, enumerate,
}

pub key_eq-≡ : (k l : Key) → key_eq k l ≡ true → k ≡ l
key_eq-≡ [] [] h = refl
key_eq-≡ [] (_ ∷ _) h = cc
key_eq-≡ (_ ∷ _) [] h = cc
key_eq-≡ (s ∷ k) (t ∷ l) h =
    let (a, b) = both (s ==ₛ t) (key_eq k l) h in cc ((text_eq_iff s t).0 a, key_eq-≡ k l b)
  where
    both : (x y : Bool) → (x && y) ≡ true → (x ≡ true) × (y ≡ true)
    both x y h = ground arith

pub key_eq_refl : (k : Key) → key_eq k k ≡ true
key_eq_refl [] = refl
key_eq_refl (s ∷ k) = rw ((text_eq_iff s s).1 refl, key_eq_refl k) refl

-- How often a key stands in a list.
abbrev pub times : Key → List Key → ℕ
times k = count_if (λ l. key_eq l k)

pub get_elem?-times : (k : Key) (ks : List Key) (j : ℕ) → get_elem? ks j ≡ some k → 1 ≤ times k ks
get_elem?-times k [] j h = cc
get_elem?-times k (l ∷ ks) zero h =
    let e : key_eq l k ≡ true = subst (λ x. key_eq l x ≡ true) (some_eq h) (key_eq_refl l) in
    rw e (omega arith)
  where
    some_eq : some l ≡ some k → l ≡ k
    some_eq h = cc
get_elem?-times k (l ∷ ks) (suc j) h = omega (arith, get_elem?-times k ks j h)

pub In-get_elem? : (k : Key) (ks : List Key) → In k ks → (j : ℕ) × (get_elem? ks j ≡ some k)
In-get_elem? k [] i = elim i [ ]
In-get_elem? k (l ∷ ks) (inl e) = (0, ap some (sym e))
In-get_elem? k (l ∷ ks) (inr i) = let (j, e) = In-get_elem? k ks i in (suc j, e)

-- The level of a key is its index, where no key stands twice.
pub lookup-enumerate :
    (i : ℕ) (k : Key) (ks : List Key) (j : ℕ)
    → times k ks ≤ 1
    → get_elem? ks j ≡ some k
    → lookup key_eq k (enumerate i ks) ≡ some (i + j)
lookup-enumerate i k [] j t h = cc
lookup-enumerate i k (l ∷ ks) zero t h =
    let e : key_eq l k ≡ true = subst (λ x. key_eq l x ≡ true) (some_eq h) (key_eq_refl l) in
    rw e (ap some (omega arith))
  where
    some_eq : some l ≡ some k → l ≡ k
    some_eq h = cc
lookup-enumerate i k (l ∷ ks) (suc j) t h = elim (Bool-cases (key_eq l k)) [
  | inl e ↦ absurd (once e (get_elem?-times k ks j h))
  | inr n ↦ rw n (lookup-enumerate (i + 1) k ks j (omega arith) h ∙ ap some (omega arith))
]
  where
    once : key_eq l k ≡ true → 1 ≤ times k ks → ⊥
    once e m = ground arith

-- No column stands twice.
abbrev pub IsDistinct : List String → Type 0
IsDistinct [] = Unit
IsDistinct (c ∷ cs) = (any_of (λ d. d ==ₛ c) cs ≡ false) × IsDistinct cs

module _ {N : Type 0} where
  pub get-put_columns_other :
      (c : String) (cs : List String) (vs : List N) (d : Dict N)
      → any_of (λ e. e ==ₛ c) cs ≡ false
      → get c (put_columns cs vs d) ≡ get c d
  get-put_columns_other c [] vs d h = refl
  get-put_columns_other c (e ∷ cs) [] d h = refl
  get-put_columns_other c (e ∷ cs) (v ∷ vs) d h =
      let (a, b) = neither (e ==ₛ c) (any_of (λ f. f ==ₛ c) cs) h in
      get-put_columns_other c cs vs (set e v d) b ∙ get-set e c v d ∙ rw a refl
    where
      neither : (x y : Bool) → (x || y) ≡ false → (x ≡ false) × (y ≡ false)
      neither x y h = ground arith

  -- What was put under distinct columns is read back.
  pub read_columns-put_columns :
      (cs : List String) (vs : List N) (d : Dict N)
      → IsDistinct cs
      → length vs ≡ length cs
      → read_columns cs (put_columns cs vs d) ≡ ok vs
  read_columns-put_columns [] [] d u l = refl
  read_columns-put_columns [] (v ∷ vs) d u l = absurd (omega arith)
  read_columns-put_columns (c ∷ cs) [] d u l = absurd (omega arith)
  read_columns-put_columns (c ∷ cs) (v ∷ vs) d u l =
      let here : get c (put_columns cs vs (set c v d)) ≡ some v =
        get-put_columns_other c cs vs (set c v d) u.0
        ∙ get-set c c v d
        ∙ rw ((text_eq_iff c c).1 refl) refl in
      rw (here, read_columns-put_columns cs vs (set c v d) u.1 (omega (arith, l))) refl

  pub length-read_columns :
      (cs : List String) (row : Dict N) (vs : List N)
      → read_columns cs row ≡ ok vs
      → length vs ≡ length cs
  length-read_columns [] row vs h = sym (ap length (ok-injective [] vs h))
  length-read_columns (c ∷ cs) row vs h =
      let (v, e, k) = >>=-eq-ok (or_key_error (get c row)) _ h in
      let (ws, f, l) = >>=-eq-ok (read_columns cs row) _ k in
      sym (ap length (ok-injective (v ∷ ws) vs l)) ∙ ap suc (length-read_columns cs row ws f)
