-- ===== src/Numeric/Print.antt =====
-- What `z_itoa` and `z_xtoa` write.
use native.Mathlib.Nat.{pow-suc, pow-zero, mod-lt}
use lib_system_call.Base.{
  ℕ, zero, suc, ◌+◌, ◌/◌, ◌%◌, ◌^◌, ◌≤◌, ◌<◌, ◌≡◌, ◌≢◌, List, [], ◌∷◌, ◌++◌, some, length,
  length-append, true, false, ltb, if◌then◌else◌, arith, refl, inl, inr, Bool-cases,
}
use lib_system_call.Memory.{Mem, write, inside, IsStr}
use lib_system_call.Memory.Strings.{IsStr-append}
use lib_system_call.Str.Copy.{strlen_loop_lem}
use lib_system_call.Numeric.{put_digits, dec_digit, hex_digit, z_itoa, z_xtoa}

-- The digits of `n`, highest first, for `n` below `base ^ k`.
unfoldable pub numeral : (base : ℕ) → (ℕ → ℕ) → ℕ → ℕ → List ℕ
numeral base digit zero n = []
numeral base digit (suc k) n =
    let rest = numeral base digit k (n / base) ++ digit (n % base) ∷ [] in
    if ltb n base then digit n ∷ [] else rest

-- `m'` is `m` with the string `xs` written at `buf`, terminator included.
pub record Written (m : Mem) (buf : ℕ) (xs : List ℕ) (m' : Mem) : Type 0 where
  pub is_str : IsStr m' buf xs
  pub outside : (a : ℕ) → inside buf (length xs + 1) a ≡ false → m' a ≡ m a

module _ (base : ℕ) (digit : ℕ → ℕ) (two : 2 ≤ base)
    (nonzero : (d : ℕ) → d < base → digit d ≢ 0) where
  length-numeral : (k n : ℕ) → length (numeral base digit k n) ≤ k
  unfolding numeral
  length-numeral zero n = omega arith
  length-numeral (suc k) n = ground (
    arith,
    length-numeral k (n / base),
    length-append (numeral base digit k (n / base)) (digit (n % base) ∷ []),
  )

  length-numeral-pos : (k n : ℕ) → 0 < length (numeral base digit (suc k) n)
  unfolding numeral
  length-numeral-pos k n =
      ground (arith, length-append (numeral base digit k (n / base)) (digit (n % base) ∷ []))

  fewer_digits : (k n : ℕ) → n < base ^ suc k → n / base < base ^ k
  fewer_digits k n h = grind (arith, pow-suc base k)

  Written-snoc :
      (m m' : Mem) (buf c : ℕ) (xs : List ℕ)
      → c ≢ 0
      → Written m buf xs m'
      → Written m buf (xs ++ c ∷ []) (write (write m' (buf + length xs) c) (buf + length xs + 1) 0)
  Written-snoc m m' buf c xs ne w = record {
    is_str =
        IsStr-append xs (c ∷ []) m' _ buf (λ a lo hi. ground arith) w.is_str
          (ground arith, ne, ground arith);
    outside = λ a out. ground (arith, w.outside a, length-append xs (c ∷ []));
  }

  Written-one :
      (m : Mem) (buf c : ℕ) → c ≢ 0 → Written m buf (c ∷ []) (write (write m buf c) (buf + 1) 0)
  Written-one m buf c ne = record {
    is_str = (ground arith, ne, ground arith);
    outside = λ a out. ground arith;
  }

  put_digits-Written :
      (k : ℕ) (m : Mem) (n buf : ℕ)
      → n < base ^ suc k
      → (m' : Mem) × (put_digits base digit (suc k) m n buf ≡ some m')
        × Written m buf (numeral base digit (suc k) n) m'
  unfolding put_digits numeral
  put_digits-Written zero m n buf h =
      let small : ltb n base ≡ true = grind (arith, pow-suc base 0, pow-zero base) in
      rw small (_, refl, Written-one m buf (digit n) (nonzero n (ground arith)))
  put_digits-Written (suc k) m n buf h = elim (Bool-cases (ltb n base)) [
    | inl small ↦ rw small (_, refl, Written-one m buf (digit n) (nonzero n (ground arith)))
    | inr large ↦
        let (m', printed, w) = put_digits-Written k m (n / base) buf (fewer_digits (suc k) n h) in
        let end =
          strlen_loop_lem (suc (suc k)) m' buf _ w.is_str
            (omega (arith, length-numeral (suc k) (n / base))) in
        rw large (
          _,
          rw (printed, end),
          Written-snoc m m' buf (digit (n % base)) _ (nonzero (n % base) (mod-lt n (omega arith)))
              w,
        )
  ]

dec_digit_nonzero : (d : ℕ) → d < 10 → dec_digit d ≢ 0
unfolding dec_digit
dec_digit_nonzero d h = omega arith

hex_digit_nonzero : (d : ℕ) → d < 16 → hex_digit d ≢ 0
unfolding hex_digit
hex_digit_nonzero d h = ground arith

abbrev pub decimal : ℕ → List ℕ
decimal n = numeral 10 dec_digit 11 n

abbrev pub hexadecimal : ℕ → List ℕ
hexadecimal n = numeral 16 hex_digit 11 n

pub length-decimal : (n : ℕ) → (0 < length (decimal n)) × (length (decimal n) ≤ 11)
length-decimal n = (
  length-numeral-pos 10 dec_digit (omega arith) dec_digit_nonzero 10 n,
  length-numeral 10 dec_digit (omega arith) dec_digit_nonzero 11 n,
)

-- On every z_uint32 `z_itoa` ends and leaves the decimal numeral of the number at `buf`, with its
-- terminator, and nothing else in memory is changed.
pub z_itoa-decimal :
    (m : Mem) (n buf : ℕ)
    → n < 2 ^ 32
    → (m' : Mem) × (z_itoa m n buf ≡ some m') × Written m buf (decimal n) m'
unfolding z_itoa
z_itoa-decimal m n buf h =
    put_digits-Written 10 dec_digit (omega arith) dec_digit_nonzero 10 m n buf (omega arith)

-- On every z_uint32 `z_xtoa` ends and leaves the hexadecimal numeral of the number at `buf`, with
-- its terminator, and nothing else in memory is changed.
z_xtoa-hexadecimal :
    (m : Mem) (n buf : ℕ)
    → n < 2 ^ 32
    → (m' : Mem) × (z_xtoa m n buf ≡ some m') × Written m buf (hexadecimal n) m'
unfolding z_xtoa
z_xtoa-hexadecimal m n buf h =
    put_digits-Written 16 hex_digit (omega arith) hex_digit_nonzero 10 m n buf (omega arith)
