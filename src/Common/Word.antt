-- ===== src/Common/Word.antt =====
-- Unsigned words of the 64-bit little-endian targets: `std::memcpy` of a number into bytes and
-- back, and pointer arithmetic, which wraps at 2 ^ 64.
use Prim.Native.Nat.{ℕ, zero, suc, ◌+◌, ◌*◌, ◌/◌, ◌%◌, ◌^◌, ◌<◌}
use mathlib.Core.Path.{◌≡◌, refl, ap}
use mathlib.Core.List.{List, [], ◌∷◌}
use native.Mathlib.Omega.{arith}
use sane_in_the_membrane.Common.Lists.{length}

abbrev pub IsU64 : ℕ → Type 0
IsU64 x = x < 2 ^ 64

abbrev pub IsByte : ℕ → Type 0
IsByte b = b < 256

-- `p + n` for a pointer or a `std::size_t`.
abbrev pub add64 : ℕ → ℕ → ℕ
add64 p n = (p + n) % 2 ^ 64

-- The low `k` bytes of a number, lowest first.
unfoldable pub to_bytes : ℕ → ℕ → List ℕ
to_bytes zero x = []
to_bytes (suc k) x = x % 256 ∷ to_bytes k (x / 256)

unfoldable pub of_bytes : List ℕ → ℕ
of_bytes [] = 0
of_bytes (b ∷ bs) = b + 256 * of_bytes bs

pub length-to_bytes : (k x : ℕ) → length (to_bytes k x) ≡ k
unfolding to_bytes
length-to_bytes zero x = refl
length-to_bytes (suc k) x = ap suc (length-to_bytes k (x / 256))

of_bytes-to_bytes_mod : (k x : ℕ) → x < 256 ^ k → of_bytes (to_bytes k x) ≡ x
unfolding to_bytes of_bytes
of_bytes-to_bytes_mod zero x h = omega arith
of_bytes-to_bytes_mod (suc k) x h = omega (arith, of_bytes-to_bytes_mod k (x / 256) (omega arith))

-- A `std::size_t` copied out and read back.
pub of_bytes-to_bytes : (x : ℕ) → IsU64 x → of_bytes (to_bytes 8 x) ≡ x
of_bytes-to_bytes x h = of_bytes-to_bytes_mod 8 x h
