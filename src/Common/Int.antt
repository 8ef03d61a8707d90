-- ===== src/Common/Int.antt =====
-- Whole numbers with a sign, and the laws of their arithmetic that `omega` applies.
use Prim.Native.Nat.{ℕ, suc, ◌+◌, ◌-◌, ◌*◌, ◌≤◌}
use mathlib.Core.Path.{◌≡◌, ap}
use mathlib.Core.Bool.{Bool}
use mathlib.Core.List.{List, [], ◌∷◌}
use native.Mathlib.Omega.{arith}
use sane_in_the_membrane.Common.Tests.{ltb, leb, if◌then◌else◌}
use sane_in_the_membrane.Common.Lists.{All}

-- `negsuc n` is -(n + 1).
pub data ℤ : Type 0 where
  pos negsuc : ℕ → ℤ

abbrev pub pos_part : ℤ → ℕ
pos_part (pos n) = n
pos_part (negsuc n) = 0

abbrev pub neg_part : ℤ → ℕ
neg_part (pos n) = 0
neg_part (negsuc n) = suc n

abbrev pub sub_ℕ : ℕ → ℕ → ℤ
sub_ℕ a b = if leb b a then pos (a - b) else negsuc (b - a - 1)

infixl 65 ◌+ℤ◌ ◌-ℤ◌
infixl 70 ◌*ℤ◌
infix 50 ◌≤ℤ◌
unfoldable pub ◌+ℤ◌ : ℤ → ℤ → ℤ
a +ℤ b = sub_ℕ (pos_part a + pos_part b) (neg_part a + neg_part b)

unfoldable pub ◌-ℤ◌ : ℤ → ℤ → ℤ
a -ℤ b = sub_ℕ (pos_part a + neg_part b) (neg_part a + pos_part b)

unfoldable pub ◌*ℤ◌ : ℤ → ℤ → ℤ
a *ℤ b =
    sub_ℕ (pos_part a * pos_part b + neg_part a * neg_part b)
      (pos_part a * neg_part b + neg_part a * pos_part b)

abbrev pub ◌≤ℤ◌ : ℤ → ℤ → Type 0
a ≤ℤ b = pos_part a + neg_part b ≤ pos_part b + neg_part a

abbrev pub ltb_ℤ : ℤ → ℤ → Bool
ltb_ℤ a b = ltb (pos_part a + neg_part b) (pos_part b + neg_part a)

pub +ℤ_parts :
    (a b : ℤ)
    → pos_part (a +ℤ b) + neg_part a + neg_part b ≡ neg_part (a +ℤ b) + pos_part a + pos_part b
unfolding ◌+ℤ◌
+ℤ_parts a b = ground arith

pub -ℤ_parts :
    (a b : ℤ)
    → pos_part (a -ℤ b) + neg_part a + pos_part b ≡ neg_part (a -ℤ b) + pos_part a + neg_part b
unfolding ◌-ℤ◌
-ℤ_parts a b = ground arith

sub_ℕ_parts : (a b : ℕ) → pos_part (sub_ℕ a b) + b ≡ neg_part (sub_ℕ a b) + a
sub_ℕ_parts a b = ground arith

pub *ℤ_parts :
    (a b : ℤ)
    → pos_part (a *ℤ b) + (pos_part a * neg_part b + neg_part a * pos_part b)
      ≡ neg_part (a *ℤ b) + (pos_part a * pos_part b + neg_part a * neg_part b)
unfolding ◌*ℤ◌
*ℤ_parts a b = sub_ℕ_parts _ _

pub eq_of_parts : (a b : ℤ) → pos_part a + neg_part b ≡ pos_part b + neg_part a → a ≡ b
eq_of_parts a b h = ground arith

pub parts_of_eq : (a b : ℤ) → a ≡ b → pos_part a + neg_part b ≡ pos_part b + neg_part a
parts_of_eq a b e = ground (arith, e)

pub ruleset int_laws = (arith, +ℤ_parts, -ℤ_parts, *ℤ_parts, eq_of_parts, parts_of_eq)

pub *ℤ-sub_distrib : (a b c : ℤ) → a *ℤ (b -ℤ c) ≡ a *ℤ b -ℤ a *ℤ c
*ℤ-sub_distrib a b c =
    omega
      (int_laws, ap (λ n. pos_part a * n) (-ℤ_parts b c), ap (λ n. neg_part a * n) (-ℤ_parts b c))

pub neg-*ℤ : (a b : ℤ) → (pos 0 -ℤ a) *ℤ b ≡ pos 0 -ℤ a *ℤ b
neg-*ℤ a b = omega (
  int_laws,
  ap (λ n. pos_part b * n) (-ℤ_parts (pos 0) a),
  ap (λ n. neg_part b * n) (-ℤ_parts (pos 0) a),
)

-- `*std::min_element` and `*std::max_element` of a range whose first element is given.
unfoldable pub min_element : ℤ → List ℤ → ℤ
min_element m [] = m
min_element m (x ∷ xs) = min_element (if ltb_ℤ x m then x else m) xs

unfoldable pub max_element : ℤ → List ℤ → ℤ
max_element m [] = m
max_element m (x ∷ xs) = max_element (if ltb_ℤ m x then x else m) xs

pub least : (k m : ℤ) (xs : List ℤ) → k ≤ℤ m → All (λ x. k ≤ℤ x) xs → k ≤ℤ min_element m xs
unfolding min_element
least k m [] h hs = h
least k m (x ∷ xs) h hs = least k (if ltb_ℤ x m then x else m) xs (ground (arith, h, hs.0)) hs.1

pub min_element-le : (m : ℤ) (xs : List ℤ) → min_element m xs ≤ℤ m
unfolding min_element
min_element-le m [] = omega arith
min_element-le m (x ∷ xs) = ground (arith, min_element-le (if ltb_ℤ x m then x else m) xs)

pub min_element-All : (m : ℤ) (xs : List ℤ) → All (λ x. min_element m xs ≤ℤ x) xs
unfolding min_element
min_element-All m [] = tt
min_element-All m (x ∷ xs) =
    let m' = if ltb_ℤ x m then x else m in
    (ground (arith, min_element-le m' xs), min_element-All m' xs)

pub greatest : (k m : ℤ) (xs : List ℤ) → m ≤ℤ k → All (λ x. x ≤ℤ k) xs → max_element m xs ≤ℤ k
unfolding max_element
greatest k m [] h hs = h
greatest k m (x ∷ xs) h hs =
    greatest k (if ltb_ℤ m x then x else m) xs (ground (arith, h, hs.0)) hs.1

pub le-max_element : (m : ℤ) (xs : List ℤ) → m ≤ℤ max_element m xs
unfolding max_element
le-max_element m [] = omega arith
le-max_element m (x ∷ xs) = ground (arith, le-max_element (if ltb_ℤ m x then x else m) xs)

pub max_element-All : (m : ℤ) (xs : List ℤ) → All (λ x. x ≤ℤ max_element m xs) xs
unfolding max_element
max_element-All m [] = tt
max_element-All m (x ∷ xs) =
    let m' = if ltb_ℤ m x then x else m in
    (ground (arith, le-max_element m' xs), max_element-All m' xs)
