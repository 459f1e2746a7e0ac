-- ===== src/Base/Bits.antt =====
-- Low bits of `&`, `|` and `^` as arithmetic. A native bit operation stands for a recursion on
-- binary digits; here its fuel is dropped, which leaves one equation for the lowest digit.
use Prim.Native.Nat.{
  ℕ, zero, suc, ◌+◌, ◌*◌, ◌/◌, ◌%◌, ◌≤◌, ◌<◌, min, max, bit_and, bit_or, bit_xor, digits, bitwise,
  differ, bit_and-bitwise, bit_or-bitwise, bit_xor-bitwise,
}
use mathlib.Core.Path.{◌≡◌, refl}
use mathlib.Core.Logic.{◌≢◌, ◌⊎◌, inl, inr}
use native.Mathlib.Omega.{arith}

module _ (z : ℕ → ℕ) (f : ℕ → ℕ → ℕ) where
  enough_fuel : (k l a b : ℕ) → a ≤ k → a ≤ l → digits z f k a b ≡ digits z f l a b
  enough_fuel zero zero a b p q = refl
  enough_fuel zero (suc l) zero b p q = refl
  enough_fuel zero (suc l) (suc a) b p q = absurd (omega arith)
  enough_fuel (suc k) zero zero b p q = refl
  enough_fuel (suc k) zero (suc a) b p q = absurd (omega arith)
  enough_fuel (suc k) (suc l) zero b p q = refl
  enough_fuel (suc k) (suc l) (suc a) b p q =
      rw (enough_fuel k l (suc a / 2) (b / 2) (omega arith) (omega arith))

  lowest_digit :
      (a b : ℕ)
      → bitwise z f (suc a) b ≡ bitwise z f (suc a / 2) (b / 2) * 2 + f (suc a % 2) (b % 2)
  lowest_digit a b =
      omega (arith, enough_fuel a (suc a / 2) (suc a / 2) (b / 2) (omega arith) (omega arith))

pub and_digit : (a b : ℕ) → bit_and a b ≡ bit_and (a / 2) (b / 2) * 2 + min (a % 2) (b % 2)
and_digit zero b = simp bit_and-bitwise (omega arith)
and_digit (suc a) b = simp bit_and-bitwise (lowest_digit (λ y. 0) min a b)

pub or_digit : (a b : ℕ) → bit_or a b ≡ bit_or (a / 2) (b / 2) * 2 + max (a % 2) (b % 2)
or_digit zero b = simp bit_or-bitwise (omega arith)
or_digit (suc a) b = simp bit_or-bitwise (lowest_digit (λ y. y) max a b)

pub xor_digit : (a b : ℕ) → bit_xor a b ≡ bit_xor (a / 2) (b / 2) * 2 + differ (a % 2) (b % 2)
xor_digit zero b = simp bit_xor-bitwise (omega arith)
xor_digit (suc a) b = simp bit_xor-bitwise (lowest_digit (λ y. y) differ a b)

and-zero_below : (n a : ℕ) → a ≤ n → bit_and a 0 ≡ 0
and-zero_below n zero h = refl
and-zero_below zero (suc a) h = absurd (omega arith)
and-zero_below (suc n) (suc a) h =
    omega (arith, and_digit (suc a) 0, and-zero_below n (suc a / 2) (omega arith))

pub and-zero : (a : ℕ) → bit_and a 0 ≡ 0
and-zero a = and-zero_below a a (omega arith)

-- `a & 3` is the remainder by 4.
pub and_three : (a : ℕ) → bit_and a 3 ≡ a % 4
and_three a = omega (arith, and_digit a 3, and_digit (a / 2) 1, and-zero (a / 2 / 2))

-- Both operands of `|` are multiples of 4 where the result is.
pub or_aligned : (a b : ℕ) → bit_and (bit_or a b) 3 ≡ 0 → (a % 4 ≡ 0) × (b % 4 ≡ 0)
or_aligned a b h = omega (arith, and_three (bit_or a b), or_digit a b, or_digit (a / 2) (b / 2))

differ_cases :
    (x y : ℕ) → x < 2 → y < 2 → ((differ x y ≡ 0) × (x ≡ y)) ⊎ ((differ x y ≡ 1) × (x ≢ y))
differ_cases zero zero p q = inl (refl, refl)
differ_cases zero (suc zero) p q = inr (refl, omega arith)
differ_cases zero (suc (suc y)) p q = absurd (omega arith)
differ_cases (suc zero) zero p q = inr (refl, omega arith)
differ_cases (suc zero) (suc zero) p q = inl (refl, refl)
differ_cases (suc zero) (suc (suc y)) p q = absurd (omega arith)
differ_cases (suc (suc x)) y p q = absurd (omega arith)

-- The operands of `^` have the same remainder by 4 where the result is a multiple of it.
pub xor_aligned : (a b : ℕ) → bit_and (bit_xor a b) 3 ≡ 0 → a % 4 ≡ b % 4
xor_aligned a b h = omega (
  arith,
  and_three (bit_xor a b),
  xor_digit a b,
  xor_digit (a / 2) (b / 2),
  differ_cases (a % 2) (b % 2) (omega arith) (omega arith),
  differ_cases (a / 2 % 2) (b / 2 % 2) (omega arith) (omega arith),
)

pub aligned_or : (a b : ℕ) → a % 4 ≡ 0 → b % 4 ≡ 0 → bit_and (bit_or a b) 3 ≡ 0
aligned_or a b ha hb = omega (arith, and_three (bit_or a b), or_digit a b, or_digit (a / 2) (b / 2))
