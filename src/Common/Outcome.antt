-- ===== src/Common/Outcome.antt =====
-- Python exceptions as values, one constructor for each exception class that the program raises.
use mathlib.Core.Path.{◌≡◌, refl}
use mathlib.Core.Bool.{Bool, true, false}
use mathlib.Core.Logic.{◌⊎◌, inl, inr}

pub data Error : Type 0 where
  value_error key_error overflow_error assertion_error runtime_error : Error
  unsolvable infeasible encoding_error lineage_violation handoff_refused : Error
  temporal_violation context_error index_error integrity_error : Error
  leakage_violation scope_violation tamper_detected : Error

-- What a call gives back: the exception that it raises, or its value.
pub data Outcome {ℓ} (V : Type ℓ) : Type ℓ where
  err : Error → Outcome V
  ok : V → Outcome V

-- `if test: raise e`
abbrev pub raise_if : (test : Bool) → (e : Error) → Outcome (Unit {0})
raise_if false _ = ok tt
raise_if true e = err e

pub Outcome-cases {ℓ} :
    {A : Type ℓ} (o : Outcome A) → ((a : A) × (o ≡ ok a)) ⊎ ((e : Error) × (o ≡ err e))
Outcome-cases (err e) = inr (e, refl)
Outcome-cases (ok a) = inl (a, refl)

infixl 5 ◌>>=◌
-- The rest of a function runs on the value of a call, and an exception passes it by.
abbrev pub ◌>>=◌ {ℓ κ} :
    {V : Type ℓ} {W : Type κ} (call : Outcome V) (rest : V → Outcome W) → Outcome W
err e >>= rest = err e
ok v >>= rest = rest v

-- A call that returned a value was followed by a rest that did too.
pub >>=-eq-ok {ℓ κ} :
    {V : Type ℓ} {W : Type κ} (call : Outcome V) (rest : V → Outcome W) {w : W}
    → (call >>= rest) ≡ ok w
    → (v : V) × (call ≡ ok v) × (rest v ≡ ok w)
>>=-eq-ok (err e) rest returned = cc
>>=-eq-ok (ok v) rest returned = (v, refl, returned)

infixl 5 ◌>>◌
abbrev pub ◌>>◌ {ℓ} : {W : Type ℓ} (call : Outcome (Unit {0})) (rest : Outcome W) → Outcome W
call >> rest = call >>= λ _. rest

pub ok-injective {ℓ} : {A : Type ℓ} (a b : A) → ok a ≡ ok b → a ≡ b
ok-injective a b h = cc

-- A guard was passed if what follows it gave a result.
pub raise_if-ok {ℓ} :
    {A : Type ℓ} (b : Bool) (e : Error) (m : Outcome A) (a : A)
    → (raise_if b e >> m) ≡ ok a
    → (b ≡ false) × (m ≡ ok a)
raise_if-ok true e m a h = cc
raise_if-ok false e m a h = (refl, h)
