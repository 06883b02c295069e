-- ===== src/Prelude/Bits.antt =====
-- The digit law of `bit_and` and what follows of it for masks of four bits and for zero.
use Prim.Native.Nat.{
  ℕ, zero, suc, ◌+◌, ◌*◌, ◌/◌, ◌%◌, ◌≤◌, ◌<◌, min, bit_and, digits, bit_and-bitwise,
}
use mathlib.Core.Path.{◌≡◌, refl}
use native.Mathlib.Omega.{arith}

-- The recursion that `bit_and` stands for, on fuel.
abbrev low_digits : ℕ → ℕ → ℕ → ℕ
low_digits fuel a b = digits (λ _. zero) min fuel a b

low_digits_fuel : (f g a b : ℕ) → a ≤ f → a ≤ g → low_digits f a b ≡ low_digits g a b
low_digits_fuel zero zero a b p q = refl
low_digits_fuel zero (suc g) zero b p q = refl
low_digits_fuel zero (suc g) (suc a) b p q = absurd (omega arith)
low_digits_fuel (suc f) zero zero b p q = refl
low_digits_fuel (suc f) zero (suc a) b p q = absurd (omega arith)
low_digits_fuel (suc f) (suc g) zero b p q = refl
low_digits_fuel (suc f) (suc g) (suc a) b p q =
    omega (arith, low_digits_fuel f g (suc a / 2) (b / 2) (omega arith) (omega arith))

zero-bit_and : (b : ℕ) → bit_and 0 b ≡ 0
zero-bit_and b = bit_and-bitwise 0 b

-- The lowest binary digit of a conjunction, and the others.
pub bit_and_halves : (a b : ℕ) → bit_and a b ≡ bit_and (a / 2) (b / 2) * 2 + min (a % 2) (b % 2)
bit_and_halves zero b = omega (arith, zero-bit_and b, zero-bit_and (b / 2))
bit_and_halves (suc a) b = omega (
  arith,
  bit_and-bitwise (suc a) b,
  bit_and-bitwise (suc a / 2) (b / 2),
  low_digits_fuel a (suc a / 2) (suc a / 2) (b / 2) (omega arith) (omega arith),
)

bit_and-zero_below : (k a : ℕ) → a < k → bit_and a 0 ≡ 0
bit_and-zero_below zero a h = elim h [ ]
bit_and-zero_below (suc k) zero h = refl
bit_and-zero_below (suc k) (suc a) h =
    omega (arith, bit_and_halves (suc a) 0, bit_and-zero_below k (suc a / 2) (omega arith))

pub bit_and-zero : (a : ℕ) → bit_and a 0 ≡ 0
bit_and-zero a = bit_and-zero_below (suc a) a (omega arith)

-- A mask of one more digit, from a mask of the digits before it.
mask_step :
    (a b m : ℕ)
    → a % 2 ≡ b % 2
    → bit_and (a / 2) (m / 2) ≡ bit_and (b / 2) (m / 2)
    → bit_and a m ≡ bit_and b m
mask_step a b m e h = omega (arith, bit_and_halves a m, bit_and_halves b m, h)

low1 : (a m : ℕ) → m < 2 → bit_and a m ≡ bit_and (a % 2) m
low1 a m h =
    mask_step a (a % 2) m (omega arith)
      (ground (arith, bit_and-zero (a / 2), bit_and-zero (a % 2 / 2)))

low2 : (a m : ℕ) → m < 4 → bit_and a m ≡ bit_and (a % 4) m
low2 a m h = mask_step a (a % 4) m (omega arith) (ground (arith, low1 (a / 2) (m / 2)))

low3 : (a m : ℕ) → m < 8 → bit_and a m ≡ bit_and (a % 8) m
low3 a m h = mask_step a (a % 8) m (omega arith) (ground (arith, low2 (a / 2) (m / 2)))

-- A mask below 16 sees the last four binary digits only.
pub bit_and_low4 : (a m : ℕ) → m < 16 → bit_and a m ≡ bit_and (a % 16) m
bit_and_low4 a m h = mask_step a (a % 16) m (omega arith) (ground (arith, low3 (a / 2) (m / 2)))
