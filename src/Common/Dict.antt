-- ===== src/Common/Dict.antt =====
-- A Python dict with text keys, as an association list in the order of insertion.
use lzd.Common.{
  ◌≡◌, ◌∙◌, refl, Bool, true, false, List, [], ◌∷◌, Option, none, some, String, ◌==ₛ◌,
  if◌then◌else◌, arith, text_eq_iff,
}

abbrev pub Dict {ℓ} : Type ℓ → Type ℓ
Dict V = List (String × V)

-- `d.get(key)`
abbrev pub get {ℓ} : {V : Type ℓ} → String → Dict V → Option V
get k [] = none
get k ((j, v) ∷ d) = if j ==ₛ k then some v else get k d

-- `d[key] = value`
abbrev pub set {ℓ} : {V : Type ℓ} → String → V → Dict V → Dict V
set k v [] = (k, v) ∷ []
set k v ((j, u) ∷ d) = let rest = set k v d in if j ==ₛ k then (j, v) ∷ d else (j, u) ∷ rest

-- `key in d`
abbrev pub has_key {ℓ} : {V : Type ℓ} → String → Dict V → Bool
has_key k [] = false
has_key k ((j, _) ∷ d) = if j ==ₛ k then true else has_key k d

pub get-set {ℓ} :
    {V : Type ℓ} (k i : String) (v : V) (d : Dict V)
    → get i (set k v d) ≡ (if k ==ₛ i then some v else get i d)
get-set k i v [] = refl
get-set k i v ((j, u) ∷ d) =
    ground (arith, get-set k i v d, text_eq_iff j k, text_eq_iff j i, text_eq_iff k i)

pub has_key-set {ℓ} :
    {V : Type ℓ} (k i : String) (v : V) (d : Dict V)
    → has_key i (set k v d) ≡ (if k ==ₛ i then true else has_key i d)
has_key-set k i v [] = refl
has_key-set k i v ((j, u) ∷ d) =
    ground (arith, has_key-set k i v d, text_eq_iff j k, text_eq_iff j i, text_eq_iff k i)

pub get-set_own {ℓ} : {V : Type ℓ} (k : String) (v : V) (d : Dict V) → get k (set k v d) ≡ some v
get-set_own k v d = get-set k k v d ∙ rw ((text_eq_iff k k).1 refl) refl
