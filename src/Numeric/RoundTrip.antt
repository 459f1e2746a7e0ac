-- ===== src/Numeric/RoundTrip.antt =====
-- `z_atoi` after `z_itoa`.
use mathlib.Core.List.{append-nil}
use lib_system_call.Base.{ℕ, ◌^◌, ◌<◌, ◌≡◌, ◌≢◌, List, [], ◌∷◌, All, length, some, arith, ap, ◌∙◌}
use lib_system_call.Memory.{Mem, IsStr}
use lib_system_call.Numeric.{z_itoa, z_atoi}
use lib_system_call.Numeric.Print.{decimal, length-decimal, z_itoa-decimal}
use lib_system_call.Numeric.Value.{IsDigit, value, value-decimal, decimal-All}
use lib_system_call.Numeric.Parse.{none_given, z_atoi-value}

read_digits :
    (fuel : ℕ) (m : Mem) (p : ℕ) (ds : List ℕ)
    → p ≢ 0
    → IsStr m p ds
    → All IsDigit ds
    → 0 < length ds
    → length ds < fuel
    → value 0 ds < 2 ^ 32
    → z_atoi fuel m p ≡ some (value 0 ds)
read_digits fuel m p [] ne h all some_digit enough small = absurd (omega arith)
read_digits fuel m p (d ∷ ds) ne h all some_digit enough small = ground (
  arith,
  z_atoi-value fuel m p [] none_given d ds [] ne (rw (append-nil ds) h) tt all tt (omega arith)
      enough,
)

-- `z_atoi` reads back every z_uint32 that `z_itoa` wrote, as a bit pattern.
pub z_atoi-z_itoa :
    (m : Mem) (n buf : ℕ)
    → n < 2 ^ 32
    → buf ≢ 0
    → (m' : Mem) × (z_itoa m n buf ≡ some m') × (z_atoi 12 m' buf ≡ some n)
z_atoi-z_itoa m n buf h ne =
    let (m', printed, w) = z_itoa-decimal m n buf h in
    let v = value-decimal n (omega arith) in
    (
      m',
      printed,
      read_digits 12 m' buf (decimal n) ne w.is_str (decimal-All n)
            (omega (arith, length-decimal n)) (omega (arith, length-decimal n)) (omega (arith, v))
          ∙ ap some v,
    )
