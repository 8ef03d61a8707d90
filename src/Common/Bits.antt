-- ===== src/Common/Bits.antt =====
-- The bitwise or of words whose bits do not overlap is their sum.
use Prim.Native.Nat.{
  ℕ, zero, suc, ◌+◌, ◌*◌, ◌/◌, ◌%◌, ◌^◌, ◌≤◌, ◌<◌, max, bit_or, digits, bit_or-bitwise,
}
use mathlib.Core.Path.{◌≡◌, refl, ◌∙◌}
use native.Mathlib.Omega.{arith}

-- The digits of `a`, of which `n` are read, over a number that is below its lowest one.
abbrev merged : ℕ → ℕ → ℕ → ℕ
merged n a lo = digits (λ b. b) max n a lo

merged-zero : (n a : ℕ) → a ≤ n → merged n a 0 ≡ a
merged-zero zero a h = omega arith
merged-zero (suc n) zero h = refl
merged-zero (suc n) (suc a) h = omega (arith, merged-zero n (suc a / 2) (omega arith))

half : (k hi a : ℕ) → a ≡ hi * 2 ^ suc k → (a / 2 ≡ hi * 2 ^ k) × (a % 2 ≡ 0)
half k hi a e = let twice : hi * 2 ^ suc k ≡ hi * 2 ^ k * 2 = grind arith in omega (arith, twice, e)

merged-add : (k hi n a lo : ℕ) → a ≤ n → a ≡ hi * 2 ^ k → lo < 2 ^ k → merged n a lo ≡ a + lo
merged-add zero hi n a zero p e q = merged-zero n a p ∙ omega arith
merged-add zero hi n a (suc lo) p e q = absurd (omega arith)
merged-add (suc k) hi zero zero lo p e q = omega arith
merged-add (suc k) hi zero (suc a) lo p e q = absurd (omega arith)
merged-add (suc k) hi (suc n) zero lo p e q = omega arith
merged-add (suc k) hi (suc n) (suc a) lo p e q =
    let (halved, even) = half k hi (suc a) e in
    omega (arith, even, merged-add k hi n (suc a / 2) (lo / 2) (omega arith) halved (omega arith))

pub bit_or-add : (k hi lo : ℕ) → lo < 2 ^ k → bit_or (hi * 2 ^ k) lo ≡ hi * 2 ^ k + lo
bit_or-add k hi lo h =
    bit_or-bitwise (hi * 2 ^ k) lo
    ∙ merged-add k hi (hi * 2 ^ k) (hi * 2 ^ k) lo (omega arith) refl h

pub zero-bit_or : (b : ℕ) → bit_or 0 b ≡ b
zero-bit_or b = bit_or-bitwise 0 b
