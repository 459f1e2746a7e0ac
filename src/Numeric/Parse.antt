-- ===== src/Numeric/Parse.antt =====
-- What `z_atoi` reads.
use lib_system_call.Base.{
  ℕ, zero, suc, ◌+◌, ◌-◌, ◌*◌, ◌%◌, ◌^◌, ◌<◌, ◌≡◌, ◌≢◌, ◌⊎◌, List, [], ◌∷◌, ◌++◌, All, length, some,
  false, arith,
}
use lib_system_call.Memory.{Mem, IsStr}
use lib_system_call.Memory.Strings.{IsStr-drop}
use lib_system_call.Numeric.{is_blank, skip_blanks, atoi_digits, z_atoi}
use lib_system_call.Numeric.Value.{IsDigit, value}

abbrev pub IsBlank : ℕ → Type 0
IsBlank c = (c ≡ b' ') ⊎ (c ≡ 10) ⊎ (c ≡ 9) ⊎ (c ≡ 8)

skip_blanks_lem :
    (fuel : ℕ) (m : Mem) (p : ℕ) (blanks rest : List ℕ)
    → IsStr m p (blanks ++ rest)
    → All IsBlank blanks
    → is_blank (m (p + length blanks)) ≡ false
    → length blanks < fuel
    → skip_blanks fuel m p ≡ some (p + length blanks)
unfolding skip_blanks is_blank
skip_blanks_lem zero m p blanks rest h bs stop enough = absurd (omega arith)
skip_blanks_lem (suc fuel) m p [] rest h bs stop enough = ground arith
skip_blanks_lem (suc fuel) m p (b ∷ blanks) rest h bs stop enough =
    ground (arith, skip_blanks_lem fuel m (p + 1) blanks rest h.2 bs.1)

atoi_digits_lem :
    (fuel : ℕ) (m : Mem) (p acc : ℕ) (ds rest : List ℕ)
    → IsStr m p (ds ++ rest)
    → All IsDigit ds
    → (m (p + length ds) < b'0') ⊎ (b'9' < m (p + length ds))
    → length ds < fuel
    → atoi_digits fuel m p (acc % 2 ^ 32) ≡ some (value acc ds % 2 ^ 32)
unfolding atoi_digits value
atoi_digits_lem zero m p acc ds rest h all stop enough = absurd (omega arith)
atoi_digits_lem (suc fuel) m p acc [] rest h all stop enough = ground arith
atoi_digits_lem (suc fuel) m p acc (d ∷ ds) rest h all stop enough =
    ground (arith, atoi_digits_lem fuel m (p + 1) (acc * 10 + (d - b'0')) ds rest h.2 all.1)

-- The optional sign of a numeral.
pub data Sign : Type 0 where
  none_given : Sign
  plus : Sign
  minus : Sign

abbrev pub sign_chars : Sign → List ℕ
sign_chars none_given = []
sign_chars plus = b'+' ∷ []
sign_chars minus = b'-' ∷ []

-- The bit pattern of the number with its sign.
abbrev pub signed : Sign → ℕ → ℕ
signed none_given v = v % 2 ^ 32
signed plus v = v % 2 ^ 32
signed minus v = (2 ^ 32 - v % 2 ^ 32) % 2 ^ 32

-- The text behind a numeral does not go on with a digit.
abbrev pub NoDigit : List ℕ → Type 0
NoDigit [] = Unit {0}
NoDigit (c ∷ cs) = (c < b'0') ⊎ (b'9' < c)

pub first-NoDigit :
    (m : Mem) (p : ℕ) (rest : List ℕ) → IsStr m p rest → NoDigit rest → (m p < b'0') ⊎ (b'9' < m p)
first-NoDigit m p [] h stop = ground arith
first-NoDigit m p (c ∷ cs) h stop = ground arith

digits_then :
    (fuel : ℕ) (m : Mem) (p : ℕ) (ds rest : List ℕ)
    → IsStr m p (ds ++ rest)
    → All IsDigit ds
    → NoDigit rest
    → length ds < fuel
    → atoi_digits fuel m p 0 ≡ some (value 0 ds % 2 ^ 32)
digits_then fuel m p ds rest h all stop enough =
    atoi_digits_lem fuel m p 0 ds rest h all
      (first-NoDigit m (p + length ds) rest (IsStr-drop ds rest m p h) stop) enough

blank_no_sign : (c : ℕ) → (c ≡ b'-') ⊎ (c ≡ b'+') ⊎ IsDigit c → is_blank c ≡ false
unfolding is_blank
blank_no_sign c h = ground arith

-- `z_atoi` skips the blanks, reads an optional sign and then every digit up to the first other
-- character, and returns the number modulo 2 ^ 32, for any text behind the digits.
pub z_atoi-value :
    (fuel : ℕ) (m : Mem) (p : ℕ) (blanks : List ℕ) (σ : Sign) (d : ℕ) (ds rest : List ℕ)
    → p ≢ 0
    → IsStr m p (blanks ++ (sign_chars σ ++ (d ∷ ds) ++ rest))
    → All IsBlank blanks
    → All IsDigit (d ∷ ds)
    → NoDigit rest
    → length blanks < fuel
    → length (d ∷ ds) < fuel
    → z_atoi fuel m p ≡ some (signed σ (value 0 (d ∷ ds)))
z_atoi-value fuel m p blanks none_given d ds rest ne h bs all stop enough enough' =
    let q = p + length blanks in
    let text = IsStr-drop blanks _ m p h in
    let skipped =
      skip_blanks_lem fuel m p blanks _ h bs (blank_no_sign (m q) (ground arith)) enough in
    let read = digits_then fuel m q (d ∷ ds) rest text all stop enough' in
    unfold z_atoi in ground (arith, skipped, read)
z_atoi-value fuel m p blanks plus d ds rest ne h bs all stop enough enough' =
    let q = p + length blanks in
    let text = IsStr-drop blanks _ m p h in
    let skipped =
      skip_blanks_lem fuel m p blanks _ h bs (blank_no_sign (m q) (ground arith)) enough in
    let read = digits_then fuel m (q + 1) (d ∷ ds) rest text.2 all stop enough' in
    unfold z_atoi in ground (arith, skipped, read)
z_atoi-value fuel m p blanks minus d ds rest ne h bs all stop enough enough' =
    let q = p + length blanks in
    let text = IsStr-drop blanks _ m p h in
    let skipped =
      skip_blanks_lem fuel m p blanks _ h bs (blank_no_sign (m q) (ground arith)) enough in
    let read = digits_then fuel m (q + 1) (d ∷ ds) rest text.2 all stop enough' in
    unfold z_atoi in ground (arith, skipped, read)
