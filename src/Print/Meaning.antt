-- ===== src/Print/Meaning.antt =====
-- What a format of kdoprnt and its arguments mean, said without the code: numerals by the numbers
-- that they stand for, signed numbers in two's complement.
use native.Mathlib.Nat.{
  pow-suc, one-le-pow, div-add-mod', mod-lt, mod-eq_of_lt, add-mul-mod_self_right, mul-le-mul_right,
  pow-le-pow_left,
}
use lib_system_call.Base.{
  ℕ, zero, suc, ◌+◌, ◌-◌, ◌*◌, ◌/◌, ◌^◌, ◌%◌, ◌<◌, ◌≤◌, ◌≡◌, ◌≢◌, ◌⊎◌, ◌∙◌, ap, sym, Bool, true,
  false, List, [], ◌∷◌, ◌++◌, Option, none, some, length, ltb, leb, arith, refl, inl, inr,
  Bool-cases, if◌then◌else◌,
}
use lib_system_call.Numeric.{hex_digit}
use lib_system_call.Print.{Arg, word, text, signed_arg, unsigned_arg, nibbles, kprintn_digits}
use lib_system_call.Print.Number.{
  digit_value, IsLed, positional, digit_value-hex_digit, positional-kprintn_digits,
  kprintn_digits-IsLed, kprintn_digits-zero,
}
use lib_system_call.Print.Text.{signed_text}

-- The bits of a number, with `l` and without.
abbrev pub width : (lflag : Bool) → ℕ
width true = 64
width false = 32

-- The numeral of `n`, without a 0 before the other digits, and 0 as one digit.
abbrev pub IsNumeral : (base n : ℕ) → List ℕ → Type 0
IsNumeral base n cs = (positional base 0 cs ≡ n) × (0 < n → IsLed cs) × (n ≡ 0 → cs ≡ b'0' ∷ [])

-- The `count` hexadecimal digits of `n`.
abbrev pub IsFilled : (count n : ℕ) → List ℕ → Type 0
IsFilled count n cs = (positional 16 0 cs ≡ n) × (length cs ≡ count)

-- The numeral of a number of `w` bits in two's complement, with its sign.
abbrev pub IsSigned : (w n : ℕ) → List ℕ → Type 0
IsSigned w n cs =
    ((n % 2 ^ w < 2 ^ (w - 1)) × IsNumeral 10 (n % 2 ^ w) cs)
    ⊎ ((ds : List ℕ) × (2 ^ (w - 1) ≤ n % 2 ^ w)
        × (cs ≡ b'-' ∷ ds)
        × IsNumeral 10 (2 ^ w - n % 2 ^ w) ds)

-- A character that is no conversion.
abbrev pub IsPlain : ℕ → Type 0
IsPlain c =
    (c ≢ b'c')
    × (c ≢ b's')
    × (c ≢ b'd')
    × (c ≢ b'o')
    × (c ≢ b'u')
    × (c ≢ b'p')
    × (c ≢ b'x')
    × (c ≢ b'X')

-- The conversion `c` takes the first argument, when it needs one, leaves the others, and stands for
-- the text.
pub data IsConverted (lflag : Bool) : (c : ℕ) → List Arg → List Arg → List ℕ → Type 0 where
  character :
      (n : ℕ) (args : List Arg) → IsConverted lflag b'c' (word n ∷ args) args (n % 2 ^ 7 ∷ [])
  string : (s : List ℕ) (args : List Arg) → IsConverted lflag b's' (text s ∷ args) args s
  decimal :
      (n : ℕ) (args : List Arg) (cs : List ℕ)
      → IsSigned (width lflag) n cs
      → IsConverted lflag b'd' (word n ∷ args) args cs
  octal :
      (n : ℕ) (args : List Arg) (cs : List ℕ)
      → IsNumeral 8 (n % 2 ^ width lflag) cs
      → IsConverted lflag b'o' (word n ∷ args) args cs
  unsigned :
      (n : ℕ) (args : List Arg) (cs : List ℕ)
      → IsNumeral 10 (n % 2 ^ width lflag) cs
      → IsConverted lflag b'u' (word n ∷ args) args cs
  pointer :
      (n : ℕ) (args : List Arg) (cs : List ℕ)
      → IsNumeral 16 (n % 2 ^ 64) cs
      → IsConverted lflag b'p' (word n ∷ args) args (b'0' ∷ b'x' ∷ cs)
  hexadecimal :
      (n : ℕ) (args : List Arg) (cs : List ℕ)
      → IsNumeral 16 (n % 2 ^ width lflag) cs
      → IsConverted lflag b'x' (word n ∷ args) args cs
  filled :
      (n : ℕ) (args : List Arg) (cs : List ℕ)
      → IsFilled (width lflag / 4) (n % 2 ^ width lflag) cs
      → IsConverted lflag b'X' (word n ∷ args) args cs
  plain :
      (c : ℕ) (args : List Arg)
      → IsPlain c
      → IsConverted lflag c args args (b'%' ∷ (if lflag then b'l' ∷ c ∷ [] else c ∷ []))

-- The format, in which `flag` says whether a `%` has been read and whether an `l` behind it, and the
-- arguments stand for the text. A format that ends within a conversion stands for none.
unfoldable pub IsText : List ℕ → (flag : Option Bool) → List Arg → List ℕ → Type 0
IsText [] none args cs = cs ≡ []
IsText [] (some lflag) args cs = ⊥
IsText (c ∷ fmt) none args cs =
    ((c ≡ b'%') × IsText fmt (some false) args cs)
    ⊎ ((c ≢ b'%') × (ds : List ℕ) × (cs ≡ c ∷ ds) × IsText fmt none args ds)
IsText (c ∷ fmt) (some lflag) args cs =
    ((c ≡ b'l') × IsText fmt (some true) args cs)
    ⊎ ((c ≢ b'l')
        × (args' : List Arg) × (now later : List ℕ) × (cs ≡ now ++ later)
        × IsConverted lflag c args args' now
        × IsText fmt none args' later)

pub numeral :
    (base n : ℕ) → 8 ≤ base → base ≤ 16 → n < 2 ^ 64 → IsNumeral base n (kprintn_digits 22 n base)
numeral base n least most small =
    let two : 2 ≤ base = omega (arith, least) in
    let room : n < base ^ 22 = omega (arith, small, pow-le-pow_left least 22) in
    (
      positional-kprintn_digits base two most 21 n room,
      kprintn_digits-IsLed base two most 21 n room,
      kprintn_digits-zero base two 21 n,
    )

unsigned-width : (lflag : Bool) (n : ℕ) → unsigned_arg lflag n ≡ n % 2 ^ width lflag
unsigned-width true n = refl
unsigned-width false n = refl

pub unsigned_numeral :
    (base : ℕ) (lflag : Bool) (n : ℕ)
    → 8 ≤ base
    → base ≤ 16
    → IsNumeral base (n % 2 ^ width lflag) (kprintn_digits 22 (unsigned_arg lflag n) base)
unsigned_numeral base true n least most = numeral base (n % 2 ^ 64) least most (omega arith)
unsigned_numeral base false n least most = numeral base (n % 2 ^ 32) least most (omega arith)

pub signed_text-IsSigned :
    (lflag : Bool) (n : ℕ) → IsSigned (width lflag) n (signed_text (signed_arg lflag n))
signed_text-IsSigned true n = elim (Bool-cases (leb (2 ^ 63) (n % 2 ^ 64))) [
  | inl below ↦ rw below (
      inr (
        _,
        ground (arith, below),
        refl,
        numeral 10 (2 ^ 64 - n % 2 ^ 64) (omega arith) (omega arith) (ground (arith, below)),
      ))
  | inr above ↦ rw above (
      inl
        (ground (arith, above), numeral 10 (n % 2 ^ 64) (omega arith) (omega arith) (omega arith)))
]
signed_text-IsSigned false n =
    let one_word : n % 2 ^ 32 < 2 ^ 32 = omega arith in
    elim (Bool-cases (ltb (n % 2 ^ 32) (2 ^ 31))) [
      | inl above ↦
          let high : leb (2 ^ 63) (n % 2 ^ 32) ≡ false = ground (arith, above) in
          rw above (
            rw high (
              inl (
                ground (arith, above),
                numeral 10 (n % 2 ^ 32) (omega arith) (omega arith) (omega arith),
              )))
      | inr below ↦
          let high : leb (2 ^ 63) (2 ^ 64 - 2 ^ 32 + n % 2 ^ 32) ≡ true = ground (arith, below) in
          let negated : 2 ^ 64 - (2 ^ 64 - 2 ^ 32 + n % 2 ^ 32) ≡ 2 ^ 32 - n % 2 ^ 32 =
            omega arith in
          rw below (
            rw high (
              inr (
                _,
                ground (arith, below),
                refl,
                rw negated
                    (numeral 10 (2 ^ 32 - n % 2 ^ 32) (omega arith) (omega arith) (omega arith)),
              )))
    ]

digit_step : (n m : ℕ) → 0 < m → n / m % 16 * m + n % m ≡ n % (m * 16)
digit_step n m pos =
    let q = n / m in
    let r = n % m in
    let less : r < m = mod-lt n pos in
    let digits : q % 16 ≤ 15 = omega arith in
    let most : q % 16 * m ≤ 15 * m = mul-le-mul_right m digits in
    let parts : q / 16 * 16 + q % 16 ≡ q = div-add-mod' q 16 in
    let whole : n ≡ q % 16 * m + r + q / 16 * (m * 16) =
      (let all : q * m + r ≡ n = div-add-mod' n m in
        let high : (q / 16 * 16 + q % 16) * m ≡ q * m = ap (λ x. x * m) parts in
        grind (arith, all, high)) in
    let short : q % 16 * m + r < m * 16 = omega (arith, less, most) in
    sym (
      ap (λ x. x % (m * 16)) whole
      ∙ add-mul-mod_self_right (q % 16 * m + r) (q / 16) (m * 16)
      ∙ mod-eq_of_lt short)

pow-sixteen : (k : ℕ) → 2 ^ (4 * suc k) ≡ 2 ^ (4 * k) * 16
pow-sixteen k =
    let j = 4 * k in
    let exponent : 4 * suc k ≡ suc (suc (suc (suc j))) = omega arith in
    ap (λ x. 2 ^ x) exponent
    ∙ omega (
      arith,
      pow-suc 2 (suc (suc (suc j))),
      pow-suc 2 (suc (suc j)),
      pow-suc 2 (suc j),
      pow-suc 2 j,
    )

pub positional-nibbles :
    (k acc n : ℕ) → positional 16 acc (nibbles k n) ≡ acc * 2 ^ (4 * k) + n % 2 ^ (4 * k)
unfolding positional
positional-nibbles zero acc n = omega arith
positional-nibbles (suc k) acc n =
    let m = 2 ^ (4 * k) in
    let d = n / m % 16 in
    let digit : digit_value (hex_digit d) ≡ d = digit_value-hex_digit d (omega arith) in
    let rest = positional-nibbles k (acc * 16 + d) n in
    let step = digit_step n m (one-le-pow (4 * k) 2 (omega arith)) in
    ap (λ x. positional 16 (acc * 16 + x) (nibbles k n)) digit
    ∙ rest
    ∙ rw (pow-sixteen k) (grind (arith, step))

pub length-nibbles : (k n : ℕ) → length (nibbles k n) ≡ k
length-nibbles zero n = refl
length-nibbles (suc k) n = ap suc (length-nibbles k n)

pub nibbles-IsFilled :
    (lflag : Bool) (n : ℕ)
    → IsFilled
        (width lflag / 4)
        (n % 2 ^ width lflag)
        (nibbles (if lflag then 16 else 8) (unsigned_arg lflag n))
nibbles-IsFilled true n =
    (positional-nibbles 16 0 (n % 2 ^ 64) ∙ omega arith, length-nibbles 16 (n % 2 ^ 64))
nibbles-IsFilled false n =
    (positional-nibbles 8 0 (n % 2 ^ 32) ∙ omega arith, length-nibbles 8 (n % 2 ^ 32))
