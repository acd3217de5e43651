-- ===== src/Text/Decimal.antt =====
-- The decimal texts of numbers, read back.
use mathlib.Core.List.{concat-ne-nil}
use void_orchestrator.Base.{
  ℕ, zero, suc, ◌+◌, ◌-◌, ◌*◌, ◌/◌, ◌%◌, ◌<◌, ◌≡◌, ◌≢◌, refl, ap, ◌∙◌, inl, inr, Bool-cases, false,
  ◌&&◌, Option, none, some, List, [], ◌∷◌, ◌++◌, arith, leb, ltb, nat_eq, contains, contains-append,
  if◌then◌else◌,
}
use void_orchestrator.Text.{digits_from, decimal}

-- The number that digits stand for, after those that stand for `acc`.
unfoldable pub read_digits : ℕ → List ℕ → Option ℕ
read_digits acc [] = some acc
read_digits acc (c ∷ cs) =
    let rest = read_digits (acc * 10 + (c - 48)) cs in
    if leb b'0' c && leb c b'9' then rest else none

-- The number that a decimal text stands for; there is a digit at least.
unfoldable pub read_decimal : List ℕ → Option ℕ
unfolding read_digits
read_decimal [] = none
read_decimal (c ∷ cs) = read_digits 0 (c ∷ cs)

read_no_digits : (acc : ℕ) → read_digits acc [] ≡ some acc
unfolding read_digits
read_no_digits acc = refl

read_digits-append :
    (acc m d : ℕ) (cs : List ℕ)
    → d < 10
    → read_digits acc cs ≡ some m
    → read_digits acc (cs ++ ((48 + d) ∷ [])) ≡ some (m * 10 + d)
unfolding read_digits
read_digits-append acc m d [] small e = ground arith
read_digits-append acc m d (c ∷ cs) small e =
    ground (arith, read_digits-append (acc * 10 + (c - 48)) m d cs small)

read_digits-digits_from : (fuel n : ℕ) → n < fuel → read_digits 0 (digits_from fuel n) ≡ some n
unfolding digits_from
read_digits-digits_from zero n h = elim h [ ]
read_digits-digits_from (suc fuel) n h = elim (Bool-cases (ltb n 10)) [
  | inl small ↦
      rw small
        (read_digits-append 0 0 n [] (ground arith) (read_no_digits 0) ∙ ap some (omega arith))
  | inr large ↦ rw large (
      read_digits-append 0 (n / 10) (n % 10) (digits_from fuel (n / 10)) (omega arith)
        (read_digits-digits_from fuel (n / 10) (ground arith))
      ∙ ap some (omega arith))
]

pub contains-digits_from : (fuel n : ℕ) → contains (digits_from fuel n) 0 ≡ false
unfolding digits_from
contains-digits_from zero n = refl
contains-digits_from (suc fuel) n = elim (Bool-cases (ltb n 10)) [
  | inl small ↦ rw small (ground arith)
  | inr large ↦ rw large (
      ground (
        arith,
        contains-digits_from fuel (n / 10),
        contains-append (digits_from fuel (n / 10)) ((48 + n % 10) ∷ []) 0,
      ))
]

digits_from-ne_nil : (fuel n : ℕ) → digits_from (suc fuel) n ≢ []
unfolding digits_from
digits_from-ne_nil fuel n e = elim (Bool-cases (ltb n 10)) [
  | inl small ↦ cc (rw small at e)
  | inr large ↦ concat-ne-nil _ _ (rw large at e)
]

read_decimal_ne_nil : (cs : List ℕ) → cs ≢ [] → read_decimal cs ≡ read_digits 0 cs
unfolding read_decimal
read_decimal_ne_nil [] ne = absurd (ne refl)
read_decimal_ne_nil (c ∷ cs) ne = refl

-- Reading the decimal text of a number gives the number.
pub read_decimal-decimal : (n : ℕ) → read_decimal (decimal n) ≡ some n
unfolding decimal
read_decimal-decimal n =
    read_decimal_ne_nil _ (digits_from-ne_nil n n) ∙ read_digits-digits_from (suc n) n (omega arith)

pub contains-decimal : (n : ℕ) → contains (decimal n) 0 ≡ false
unfolding decimal
contains-decimal n = contains-digits_from (suc n) n
