-- ===== src/Numeric/Value.antt =====
-- Decimal numerals and the numbers that they stand for.
use lib_system_call.Base.{
  ℕ, zero, suc, ◌+◌, ◌-◌, ◌*◌, ◌/◌, ◌^◌, ◌≤◌, ◌<◌, ◌≡◌, List, [], ◌∷◌, ◌++◌, All, All-append, ltb,
  inl, inr, Bool-cases, arith, refl,
}
use lib_system_call.Numeric.{dec_digit}
use lib_system_call.Numeric.Print.{numeral, decimal}

abbrev pub IsDigit : ℕ → Type 0
IsDigit c = (b'0' ≤ c) × (c ≤ b'9')

-- The number that the digits stand for, behind those that stand for `acc`.
unfoldable pub value : ℕ → List ℕ → ℕ
value acc [] = acc
value acc (c ∷ cs) = value (acc * 10 + (c - b'0')) cs

value-snoc : (cs : List ℕ) (acc c : ℕ) → value acc (cs ++ c ∷ []) ≡ value acc cs * 10 + (c - b'0')
unfolding value
value-snoc [] acc c = refl
value-snoc (x ∷ cs) acc c = value-snoc cs (acc * 10 + (x - b'0')) c

value-numeral : (k n : ℕ) → n < 10 ^ suc k → value 0 (numeral 10 dec_digit (suc k) n) ≡ n
unfolding numeral dec_digit
value-numeral zero n h = unfold value in ground arith
value-numeral (suc k) n h = elim (Bool-cases (ltb n 10)) [
  | inl small ↦ rw small (unfold value in omega arith)
  | inr large ↦ rw (large, value-snoc) (omega (arith, value-numeral k (n / 10) (omega arith)))
]

All-digits : (k n : ℕ) → All IsDigit (numeral 10 dec_digit k n)
unfolding numeral dec_digit
All-digits zero n = tt
All-digits (suc k) n = elim (Bool-cases (ltb n 10)) [
  | inl small ↦ rw small (ground arith)
  | inr large ↦ rw large (All-append IsDigit _ _ (All-digits k (n / 10)) (omega arith))
]

-- The decimal numeral of a number below 10 ^ 11 stands for that number, and has digits only.
pub value-decimal : (n : ℕ) → n < 10 ^ 11 → value 0 (decimal n) ≡ n
value-decimal n h = value-numeral 10 n h

pub decimal-All : (n : ℕ) → All IsDigit (decimal n)
decimal-All n = All-digits 11 n
