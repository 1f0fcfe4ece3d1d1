-- ===== src/Base/BitOr.antt =====
-- `|` and `<<` on numbers that are not negative: the facts about native `bit_or` that the tactics do
-- not know.
use Prim.Native.Nat.{
  ℕ, zero, suc, ◌+◌, ◌*◌, ◌/◌, ◌%◌, ◌≤◌, ◌<◌, max, bit_or, digits, bit_or-bitwise,
}
use mathlib.Core.Path.{◌≡◌, refl}
use native.Mathlib.Omega.{arith}

-- `y << k`
abbrev pub shift_left : ℕ → ℕ → ℕ
shift_left y zero = y
shift_left y (suc k) = shift_left y k * 2

or_digits : ℕ → ℕ → ℕ → ℕ
or_digits n a b = digits (λ b. b) max n a b

or_digits_fuel : (n m a b : ℕ) → a ≤ n → a ≤ m → or_digits n a b ≡ or_digits m a b
unfolding or_digits
or_digits_fuel zero zero a b p q = refl
or_digits_fuel zero (suc m) zero b p q = refl
or_digits_fuel zero (suc m) (suc a) b p q = absurd (omega arith)
or_digits_fuel (suc n) zero zero b p q = refl
or_digits_fuel (suc n) zero (suc a) b p q = absurd (omega arith)
or_digits_fuel (suc n) (suc m) zero b p q = refl
or_digits_fuel (suc n) (suc m) (suc a) b p q =
    omega (arith, or_digits_fuel n m (suc a / 2) (b / 2) (omega arith) (omega arith))

zero-bit_or : (b : ℕ) → bit_or 0 b ≡ b
zero-bit_or b = bit_or-bitwise 0 b

bit_or_step : (a b : ℕ) → bit_or a b ≡ bit_or (a / 2) (b / 2) * 2 + max (a % 2) (b % 2)
unfolding or_digits
bit_or_step zero b = omega (arith, zero-bit_or b, zero-bit_or (b / 2))
bit_or_step (suc a) b = omega (
  arith,
  bit_or-bitwise (suc a) b,
  bit_or-bitwise (suc a / 2) (b / 2),
  or_digits_fuel a (suc a / 2) (suc a / 2) (b / 2) (omega arith) (omega arith),
)

bit_or-double : (x z : ℕ) → bit_or x (z * 2) ≡ bit_or (x / 2) z * 2 + x % 2
bit_or-double x z = omega (arith, rw even at (bit_or_step x (z * 2)))
  where
    even : z * 2 / 2 ≡ z
    even = omega arith

-- Where the bits of the two do not meet, `|` is a sum.
pub bit_or-shift_left :
    (k x y : ℕ) → x < shift_left 1 k → bit_or x (shift_left y k) ≡ x + shift_left y k
bit_or-shift_left zero zero y h = omega (arith, zero-bit_or y)
bit_or-shift_left zero (suc x) y h = absurd (omega arith)
bit_or-shift_left (suc k) x y h =
    omega (arith, bit_or-double x (shift_left y k), bit_or-shift_left k (x / 2) y (omega arith))

pub bit_or-zero : (n x : ℕ) → x ≤ n → bit_or x 0 ≡ x
bit_or-zero n zero h = zero-bit_or 0
bit_or-zero zero (suc x) h = absurd (omega arith)
bit_or-zero (suc n) (suc x) h =
    omega (arith, bit_or_step (suc x) 0, bit_or-zero n (suc x / 2) (omega arith))
