-- ===== src/Print/Number.antt =====
-- The numbers that kprintn prints.
use native.Mathlib.Nat.{pow-suc, pow-zero}
use lib_system_call.Base.{
  ℕ, zero, suc, true, ◌+◌, ◌-◌, ◌*◌, ◌/◌, ◌^◌, ◌%◌, ◌<◌, ◌≤◌, ◌≡◌, ◌≢◌, ◌∙◌, ap, List, [], ◌∷◌,
  ◌++◌, ltb, ◌==◌, arith, refl, inl, inr, Bool-cases, if◌then◌else◌,
}
use lib_system_call.Numeric.{hex_digit}
use lib_system_call.Print.{kprintn_digits}

-- What a digit stands for, up to 15.
abbrev pub digit_value : ℕ → ℕ
digit_value c = if ltb c b'a' then c - b'0' else c - b'a' + 10

-- The number that the digits stand for, behind those that stand for `acc`.
unfoldable pub positional : (base acc : ℕ) → List ℕ → ℕ
positional base acc [] = acc
positional base acc (c ∷ cs) = positional base (acc * base + digit_value c) cs

-- There is a first digit, and it is not 0.
abbrev pub IsLed : List ℕ → Type 0
IsLed ds = (d : ℕ) × (rest : List ℕ) × (ds ≡ d ∷ rest) × (d ≢ b'0')

pub positional-snoc :
    (base acc c : ℕ) (cs : List ℕ)
    → positional base acc (cs ++ c ∷ []) ≡ positional base acc cs * base + digit_value c
unfolding positional
positional-snoc base acc c [] = refl
positional-snoc base acc c (x ∷ cs) = positional-snoc base (acc * base + digit_value x) c cs

pub digit_value-hex_digit : (d : ℕ) → d < 16 → digit_value (hex_digit d) ≡ d
unfolding hex_digit
digit_value-hex_digit d h = ground arith

module _ (base : ℕ) (two : 2 ≤ base) (most : base ≤ 16) where
  last_digit : (n : ℕ) → digit_value (hex_digit (n % base)) ≡ n % base
  last_digit n = digit_value-hex_digit (n % base) (grind (arith, two, most))

  whole_number : (n : ℕ) → n / base * base + n % base ≡ n
  whole_number n = grind arith

  fewer_digits : (k n : ℕ) → n < base ^ suc k → n / base < base ^ k
  fewer_digits k n h = grind (arith, pow-suc base k)

  one_digit : (n : ℕ) → n / base ≡ 0 → positional base 0 (hex_digit (n % base) ∷ []) ≡ n
  unfolding positional
  one_digit n none_above =
      let last = last_digit n in
      let all : 0 * base + n % base ≡ n = grind (arith, none_above) in omega (arith, last, all)

  -- The digits stand for the number, where there is room for all of them.
  pub positional-kprintn_digits :
      (k n : ℕ) → n < base ^ suc k → positional base 0 (kprintn_digits (suc k) n base) ≡ n
  unfolding kprintn_digits
  positional-kprintn_digits zero n h =
      let above : n / base < 1 = omega (arith, fewer_digits 0 n h, pow-zero base) in
      let small : n / base == 0 ≡ true = ground (arith, above) in
      rw small (one_digit n (omega (arith, above)))
  positional-kprintn_digits (suc k) n h = elim (Bool-cases (n / base == 0)) [
    | inl small ↦ rw (small, kprintn_digits) (one_digit n (ground (arith, small)))
    | inr large ↦
        rw (large, kprintn_digits)
          (positional-snoc base 0 (hex_digit (n % base)) (kprintn_digits (suc k) (n / base) base)
            ∙ rw (positional-kprintn_digits k (n / base) (fewer_digits (suc k) n h), last_digit n)
                (whole_number n))
  ]

  no_leading_zero : (n : ℕ) → 0 < n → n / base ≡ 0 → hex_digit (n % base) ≢ b'0'
  unfolding hex_digit
  no_leading_zero n some_number none_above =
      let all : n % base ≡ n = grind (arith, none_above) in ground (arith, all, some_number)

  pub kprintn_digits-IsLed :
      (k n : ℕ) → n < base ^ suc k → 0 < n → IsLed (kprintn_digits (suc k) n base)
  unfolding kprintn_digits
  kprintn_digits-IsLed zero n h some_number =
      let above : n / base < 1 = omega (arith, fewer_digits 0 n h, pow-zero base) in
      let small : n / base == 0 ≡ true = ground (arith, above) in
      rw small (_, _, refl, no_leading_zero n some_number (omega (arith, above)))
  kprintn_digits-IsLed (suc k) n h some_number = elim (Bool-cases (n / base == 0)) [
    | inl small ↦
        rw (small, kprintn_digits)
          (_, _, refl, no_leading_zero n some_number (ground (arith, small)))
    | inr large ↦
        let (d, rest, digits, led) =
          kprintn_digits-IsLed k (n / base) (fewer_digits (suc k) n h) (ground (arith, large)) in
        rw (large, kprintn_digits)
          (
            d,
            rest ++ hex_digit (n % base) ∷ [],
            ap (λ ds. ds ++ hex_digit (n % base) ∷ []) digits,
            led,
          )
  ]

pub kprintn_digits-zero :
    (base : ℕ) → 2 ≤ base → (k n : ℕ) → n ≡ 0 → kprintn_digits (suc k) n base ≡ b'0' ∷ []
unfolding kprintn_digits hex_digit
kprintn_digits-zero base two k n e =
    let above : n / base ≡ 0 = grind (arith, two, e) in
    let last : n % base ≡ 0 = grind (arith, two, e) in rw (above, last) refl
