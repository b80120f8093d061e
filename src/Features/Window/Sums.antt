-- ===== src/Features/Window/Sums.antt =====
-- online_store.py: what a read of the overlay adds up.
use lzd.Common.{
  ℕ, ◌+◌, ◌≡◌, refl, sym, ap, ◌∙◌, Bool, true, false, ◌&&◌, not, List, [], ◌∷◌, Option, none, some,
  String, ◌==ₛ◌, ◌==◌, ltb, if◌then◌else◌, arith, text_eq_iff, Bool-cases, inl, inr,
}
use lzd.Common.Dict.{Dict, get, set, get-set}
use lzd.Features.Window.{
  Field, windowed, plain, Value, num, text, number_of, mapping_5m, put_sum, finish_bucket,
  add_value, or_else, add_5m, add_bucket, rt_bucket_start, rt_cutoff,
}

abbrev pub amount : Value → ℕ
amount (num n) = n
amount (text _) = 0

-- The sum of the values whose field passes a test.
abbrev pub total : (Field → Bool) → List (Field × Value) → ℕ
total p [] = 0
total p ((f, v) ∷ items) = (if p f then amount v else 0) + total p items

abbrev pub opt_is : Option String → String → Bool
opt_is none j = false
opt_is (some m) j = m ==ₛ j

-- A bucket of the last hour that counts `j`.
abbrev pub in_hour : ℕ → String → Field → Bool
unfolding rt_cutoff
in_hour now j (plain _) = false
in_hour now j (windowed name b) = not (ltb b (rt_cutoff now)) && (name ==ₛ j)

-- The bucket of the moment, of the counter whose five minutes are called `j`.
abbrev pub in_5m : ℕ → String → Field → Bool
unfolding rt_cutoff rt_bucket_start
in_5m now j (plain _) = false
in_5m now j (windowed name b) =
    not (ltb b (rt_cutoff now)) && ((b == rt_bucket_start now) && opt_is (mapping_5m name) j)

-- A name alone lies in no bucket.
pub in_hour-plain : (now : ℕ) (j f : String) → in_hour now j (plain f) ≡ false
unfolding in_hour
in_hour-plain now j f = refl

pub in_5m-plain : (now : ℕ) (j f : String) → in_5m now j (plain f) ≡ false
unfolding in_5m
in_5m-plain now j f = refl

-- A bucket before the cutoff counts for nothing.
pub in_hour-old :
    (now : ℕ) (j f : String) (b : ℕ)
    → ltb b (rt_cutoff now) ≡ true
    → in_hour now j (windowed f b) ≡ false
unfolding in_hour
in_hour-old now j f b h = rw h refl

pub in_5m-old :
    (now : ℕ) (j f : String) (b : ℕ)
    → ltb b (rt_cutoff now) ≡ true
    → in_5m now j (windowed f b) ≡ false
unfolding in_5m
in_5m-old now j f b h = rw h refl

-- The field is not the name `j` alone.
abbrev pub not_plain : String → Field → Bool
not_plain j (plain f) = not (f ==ₛ j)
not_plain j (windowed _ _) = true

some_eq : (a b : ℕ) → some a ≡ some b → a ≡ b
some_eq a b q = cc

-- A sum that `float` can read is changed for its own name alone.
number_of-put_sum :
    (j name : String) (v : ℕ) (o : Option ℕ) (out : Dict Value) (n : ℕ)
    → number_of (get name out) ≡ o
    → number_of (get j out) ≡ some n
    → number_of (get j (or_else (put_sum name v o out) out))
      ≡ some (n + (if name ==ₛ j then v else 0))
number_of-put_sum j name v none out n e h = elim (Bool-cases (name ==ₛ j)) [
  | inl s ↦
      absurd (cc (ap (λ (x : String). number_of (get x out)) ((text_eq_iff name j).0 s), e, h))
  | inr d ↦ rw d (h ∙ ap some (omega arith))
]
number_of-put_sum j name v (some m) out n e h = elim (Bool-cases (name ==ₛ j)) [
  | inl s ↦ rw (get-set name j (num (m + v)) out, s) (ap some (same ((text_eq_iff name j).0 s)))
  | inr d ↦ rw (get-set name j (num (m + v)) out, d) (h ∙ ap some (omega arith))
]
  where
    same : name ≡ j → m + v ≡ n + v
    same s =
        ap (λ (x : ℕ). x + v)
          (some_eq m n (sym e ∙ ap (λ (x : String). number_of (get x out)) s ∙ h))

number_of-add_value :
    (j name : String) (v : Value) (out : Dict Value) (n : ℕ)
    → number_of (get j out) ≡ some n
    → number_of (get j (or_else (add_value name v out) out))
      ≡ some (n + (if name ==ₛ j then amount v else 0))
number_of-add_value j name (text s) out n h = h ∙ ap some (ground arith)
number_of-add_value j name (num v) out n h =
    number_of-put_sum j name v (number_of (get name out)) out n refl h

number_of-add_5m :
    (j : String) (m : Option String) (v : Value) (out : Dict Value) (n : ℕ)
    → number_of (get j out) ≡ some n
    → number_of (get j (add_5m m v out)) ≡ some (n + (if opt_is m j then amount v else 0))
number_of-add_5m j none v out n h = h ∙ ap some (omega arith)
number_of-add_5m j (some m) v out n h = number_of-add_value j m v out n h

-- A counter that can be read takes what a bucket adds, and its five minutes too.
number_of-finish_bucket :
    (current : Bool) (j name : String) (v : Value) (out : Dict Value) (n k : ℕ)
    → number_of (get name out) ≡ some k
    → number_of (get j out) ≡ some n
    → number_of (get j (finish_bucket current name v (add_value name v out) out))
      ≡ some (
          n
          + (if name ==ₛ j then amount v else 0)
          + (if current && opt_is (mapping_5m name) j then amount v else 0))
number_of-finish_bucket current j name (text s) out n k r h = h ∙ ap some (ground arith)
number_of-finish_bucket current j name (num v) out n k r h =
    with_option (number_of (get name out)) refl r
  where
    with_option :
        (o : Option ℕ)
        → number_of (get name out) ≡ o
        → o ≡ some k
        → number_of (get j (finish_bucket current name (num v) (put_sum name v o out) out))
          ≡ some (
              n
              + (if name ==ₛ j then v else 0)
              + (if current && opt_is (mapping_5m name) j then v else 0))
    with_option none e q = absurd (cc q)
    with_option (some m) e q = by_time current (number_of-put_sum j name v (some m) out n e h)
      where
        by_time :
            (current : Bool)
            → number_of (get j (set name (num (m + v)) out))
              ≡ some (n + (if name ==ₛ j then v else 0))
            → number_of
                (get j (finish_bucket current name (num v) (some (set name (num (m + v)) out)) out))
              ≡ some (
                  n
                  + (if name ==ₛ j then v else 0)
                  + (if current && opt_is (mapping_5m name) j then v else 0))
        by_time true g =
            number_of-add_5m j (mapping_5m name) (num v) (set name (num (m + v)) out)
              (n + (if name ==ₛ j then v else 0)) g
        by_time false g = g ∙ ap some (omega arith)

-- One field adds what the two tests say.
pub number_of-add_bucket :
    (now : ℕ) (j name : String) (b : ℕ) (v : Value) (out : Dict Value) (n k : ℕ)
    → number_of (get name out) ≡ some k
    → number_of (get j out) ≡ some n
    → number_of (get j (add_bucket now name b v out))
      ≡ some (
          n
          + (if in_hour now j (windowed name b) then amount v else 0)
          + (if in_5m now j (windowed name b) then amount v else 0))
unfolding rt_cutoff rt_bucket_start
number_of-add_bucket now j name b v out n k r h = elim (Bool-cases (ltb b (rt_cutoff now))) [
  | inl old ↦ rw old (h ∙ ap some (omega arith))
  | inr live ↦ rw live (number_of-finish_bucket (b == rt_bucket_start now) j name v out n k r h)
]
