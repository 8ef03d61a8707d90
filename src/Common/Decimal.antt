-- ===== src/Common/Decimal.antt =====
-- The decimal digits that `std::format` makes of a number, and the number that they stand for.
use Prim.Native.Nat.{ℕ, zero, suc, ◌+◌, ◌-◌, ◌*◌, ◌/◌, ◌%◌, ◌^◌, ◌≤◌, ◌<◌}
use mathlib.Core.Path.{◌≡◌, refl, ap, sym, ◌∙◌}
use mathlib.Core.Logic.{inl, inr}
use mathlib.Core.List.{List, [], ◌∷◌, ◌++◌}
use native.Mathlib.Omega.{arith}
use sane_in_the_membrane.Common.Tests.{ltb, if◌then◌else◌, Bool-cases}
use sane_in_the_membrane.Common.Lists.{All, All-append, length, length-append}

-- At most as many digits as the fuel says: 10 for an `int`, 20 for a `size_t`.
unfoldable pub digits : ℕ → ℕ → List ℕ
digits zero n = []
digits (suc fuel) n =
    let rest = digits fuel (n / 10) ++ ((48 + n % 10) ∷ []) in
    if ltb n 10 then (48 + n) ∷ [] else rest

abbrev pub IsDigit : ℕ → Type 0
IsDigit b = (48 ≤ b) × (b < 58)

abbrev pub value_of : ℕ → List ℕ → ℕ
value_of n [] = n
value_of n (b ∷ bytes) = value_of (n * 10 + (b - 48)) bytes

pub value_of-append : (n : ℕ) (xs ys : List ℕ) → value_of n (xs ++ ys) ≡ value_of (value_of n xs) ys
value_of-append n [] ys = refl
value_of-append n (x ∷ xs) ys = value_of-append (n * 10 + (x - 48)) xs ys

pub digits-IsDigit : (fuel n : ℕ) → All IsDigit (digits fuel n)
unfolding digits
digits-IsDigit zero n = tt
digits-IsDigit (suc fuel) n = elim (Bool-cases (ltb n 10)) [
  | inl e ↦ rw e ((omega arith, ground arith), tt)
  | inr e ↦ rw e (
      All-append IsDigit (digits fuel (n / 10)) ((48 + n % 10) ∷ []) (digits-IsDigit fuel (n / 10))
        ((omega arith, omega arith), tt))
]

pub value_of-digits : (fuel n : ℕ) → n < 10 ^ fuel → value_of 0 (digits fuel n) ≡ n
unfolding digits
value_of-digits zero n h = omega arith
value_of-digits (suc fuel) n h = elim (Bool-cases (ltb n 10)) [
  | inl e ↦ rw e (omega arith)
  | inr e ↦
      rw (e, value_of-append 0 (digits fuel (n / 10)) ((48 + n % 10) ∷ []))
        (omega (arith, value_of-digits fuel (n / 10) (omega arith)))
]

pub length-digits : (fuel n : ℕ) → length (digits fuel n) ≤ fuel
unfolding digits
length-digits zero n = omega arith
length-digits (suc fuel) n = elim (Bool-cases (ltb n 10)) [
  | inl e ↦ rw e (omega arith)
  | inr e ↦ rw e (
      omega (
        arith,
        length-append (digits fuel (n / 10)) ((48 + n % 10) ∷ []),
        length-digits fuel (n / 10),
      ))
]

pub digits-injective :
    (fuel a b : ℕ) → a < 10 ^ fuel → b < 10 ^ fuel → digits fuel a ≡ digits fuel b → a ≡ b
digits-injective fuel a b p q e =
    sym (value_of-digits fuel a p) ∙ ap (value_of 0) e ∙ value_of-digits fuel b q
