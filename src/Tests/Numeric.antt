-- ===== src/Tests/Numeric.antt =====
-- Runs of the number functions, and their theorems at concrete inputs.
use lib_system_call.Base.{
  ℕ, ◌-◌, ◌^◌, ◌≡◌, refl, arith, List, [], ◌∷◌, ltb, if◌then◌else◌, some, get_or, inl, inr,
}
use lib_system_call.Memory.{Mem}
use lib_system_call.Numeric.{z_itoa, z_atoi, z_inet_aton, address, wide_shift}
use lib_system_call.Numeric.Parse.{minus, z_atoi-value}
use lib_system_call.Numeric.Value.{value}
use lib_system_call.Numeric.RoundTrip.{z_atoi-z_itoa}
use lib_system_call.Numeric.Address.{dotted, weigh, z_inet_aton-weigh}

abbrev clear : Mem
clear a = 0

abbrev at_hundred : List ℕ → Mem
at_hundred text a = if ltb a 100 then 0 else get_or text (a - 100) 0

z_atoi-z_itoa_example :
    (m' : Mem) × (z_itoa clear 4096 100 ≡ some m') × (z_atoi 12 m' 100 ≡ some 4096)
z_atoi-z_itoa_example = z_atoi-z_itoa clear 4096 100 (omega arith) (omega arith)

-- " -12x"
abbrev signed_text : Mem
signed_text = at_hundred (b' ' ∷ b'-' ∷ b'1' ∷ b'2' ∷ b'x' ∷ [])

atoi_negative : z_atoi 9 signed_text 100 ≡ some (2 ^ 32 - 12)
unfolding z_atoi
atoi_negative = refl

z_atoi-value_example : z_atoi 9 signed_text 100 ≡ some (2 ^ 32 - 12)
unfolding value
z_atoi-value_example =
    z_atoi-value 9 signed_text 100 (b' ' ∷ []) minus b'1' (b'2' ∷ []) (b'x' ∷ []) (omega arith)
      (omega arith) (inl refl, tt) (omega arith) (inr (omega arith)) (omega arith) (omega arith)

-- "10.0.2 "
abbrev address_text : Mem
address_text = at_hundred (b'1' ∷ b'0' ∷ b'.' ∷ b'0' ∷ b'.' ∷ b'2' ∷ b' ' ∷ [])

aton_three_octets : z_inet_aton 9 address_text 100 ≡ address 0x2000a
unfolding z_inet_aton
aton_three_octets = refl

z_inet_aton-weigh_example : z_inet_aton 9 address_text 100 ≡ address 0x2000a
unfolding dotted weigh
z_inet_aton-weigh_example =
    z_inet_aton-weigh 9 address_text 100 (b'1' ∷ b'0' ∷ []) ((b'0' ∷ []) ∷ (b'2' ∷ []) ∷ [])
      (b' ' ∷ []) (omega arith) (inl refl) (omega arith) (omega arith)

-- "1.1.1.1.1"
five_octets :
    z_inet_aton 9
      (at_hundred (b'1' ∷ b'.' ∷ b'1' ∷ b'.' ∷ b'1' ∷ b'.' ∷ b'1' ∷ b'.' ∷ b'1' ∷ []))
      100
    ≡ wide_shift
unfolding z_inet_aton
five_octets = refl
