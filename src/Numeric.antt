-- ===== src/Numeric.antt =====
-- Characters, numerals and addresses: z_utils.c.
pub mod Print
pub mod Value
pub mod Parse
pub mod Address
pub mod RoundTrip
use lib_system_call.Base.{
  ℕ, zero, suc, ◌+◌, ◌-◌, ◌*◌, ◌/◌, ◌%◌, ◌^◌, Bool, true, false, ◌&&◌, ◌||◌, Option, none, some,
  ltb, leb, ◌==◌, ◌!=◌, if◌then◌else◌,
}
use lib_system_call.Memory.{Mem, write}
use lib_system_call.Str.{strlen_loop, ◌>>=◌}

-- `c` is an unsigned char; the result is 1 or 0.
unfoldable pub z_isdigit : ℕ → ℕ
z_isdigit c = if leb b'0' c && leb c b'9' then 1 else 0

unfoldable pub z_isletter : ℕ → ℕ
z_isletter c = if leb b'a' c && leb c b'z' then 1 else if leb b'A' c && leb c b'Z' then 1 else 0

-- `ch` is the bit pattern of a z_int32: `(z_uint32)(ch - 9) < 5u || ch == ' '`.
unfoldable pub z_isspace : ℕ → Bool
z_isspace ch = ltb ((ch + 2 ^ 32 - 9) % 2 ^ 32) 5 || ch == b' '

pub dec_digit : ℕ → ℕ
dec_digit d = d + b'0'

unfoldable pub hex_digit : ℕ → ℕ
hex_digit d = if ltb d 10 then d + b'0' else d - 10 + b'a'

-- `z_itoa` and `z_xtoa`, which differ in the base and in how a digit is written: the digits of
-- `n / base`, then `for (i = 0; buf[i] != '\0'; i++);`, and the last digit in place of the
-- terminator that is found there. The fuel bounds the calls and the walk.
pub put_digits : (base : ℕ) → (ℕ → ℕ) → (fuel : ℕ) → Mem → (n buf : ℕ) → Option Mem
put_digits base digit zero m n buf = none
put_digits base digit (suc fuel) m n buf =
    let rest = do
      m' ← put_digits base digit fuel m (n / base) buf
      i ← strlen_loop (suc fuel) m' buf
      some (write (write m' i (digit (n % base))) (i + 1) 0)
    in if ltb n base then some (write (write m buf (digit n)) (buf + 1) 0) else rest

-- A z_uint32 has at most ten decimal and eight hexadecimal digits.
unfoldable pub z_itoa : Mem → (n buf : ℕ) → Option Mem
unfolding put_digits dec_digit
z_itoa m n buf = put_digits 10 dec_digit 11 m n buf

unfoldable pub z_xtoa : Mem → (n buf : ℕ) → Option Mem
unfolding put_digits hex_digit
z_xtoa m n buf = put_digits 16 hex_digit 11 m n buf

is_blank : ℕ → Bool
is_blank c = c == b' ' || c == 10 || c == 9 || c == 8

-- `while (blank) pstr++;`
skip_blanks : ℕ → Mem → ℕ → Option ℕ
skip_blanks zero m p = none
skip_blanks (suc fuel) m p =
    let rest = skip_blanks fuel m (p + 1) in if is_blank (m p) then rest else some p

-- `int_ret = int_ret * 10 + *pstr - '0'`, on the bit pattern of `int_ret`.
atoi_digits : ℕ → Mem → (p int_ret : ℕ) → Option ℕ
atoi_digits zero m p int_ret = none
atoi_digits (suc fuel) m p int_ret =
    let rest = atoi_digits fuel m (p + 1) ((int_ret * 10 + m p - b'0') % 2 ^ 32) in
    if leb b'0' (m p) && leb (m p) b'9' then rest else some int_ret

-- The result is the bit pattern of a z_int32, and the fuel bounds each of the two loops.
unfoldable pub z_atoi : ℕ → Mem → ℕ → Option ℕ
unfolding is_blank skip_blanks atoi_digits
z_atoi fuel m pstr = if pstr == 0 then some (2 ^ 32 - 1) else do
  p ← skip_blanks fuel m pstr
  let start = if m p == b'-' || m p == b'+' then p + 1 else p
  int_ret ← atoi_digits fuel m start 0
  some (if m p == b'-' then (2 ^ 32 - int_ret) % 2 ^ 32 else int_ret)

-- What `z_inet_aton` gives: an address, a shift by the width of its type or more, which has no
-- defined result, or no answer within the fuel.
pub data Aton : Type 0 where
  address : ℕ → Aton
  wide_shift : Aton
  out_of_fuel : Aton

-- The inner loop; `u_tmp` is a z_uint32.
pub octet : ℕ → Mem → (p u_tmp : ℕ) → Option (ℕ × ℕ)
octet zero m p u_tmp = none
octet (suc fuel) m p u_tmp =
    let rest = octet fuel m (p + 1) ((u_tmp * 10 + (m p - 0x30)) % 2 ^ 32) in
    if z_isdigit (m p) == 1 then rest else some (p, u_tmp)

-- The test behind the loops, on the character that ended them.
pub aton_result : (c u_ipaddr : ℕ) → Aton
unfolding z_isspace
aton_result c u_ipaddr =
    if c != 0 && (if z_isspace c then false else true) then address 0 else address u_ipaddr

pub aton_loop : ℕ → (octets : ℕ) → Mem → (p i_recycle u_ipaddr : ℕ) → Aton
aton_loop fuel zero m p i_recycle u_ipaddr = out_of_fuel
aton_loop fuel (suc octets) m p i_recycle u_ipaddr = elim (octet fuel m p 0) [
  | none ↦ out_of_fuel
  | some (p', u_tmp) ↦ elim (ltb (8 * i_recycle) 32) [
    | true ↦
        let u_ipaddr' = (u_ipaddr + u_tmp * 2 ^ (8 * i_recycle) % 2 ^ 32) % 2 ^ 32 in
        let rest = aton_loop fuel octets m (p' + 1) (i_recycle + 1) u_ipaddr' in
        if m p' == b'.' then rest else aton_result (m p') u_ipaddr'
    | false ↦ wide_shift
  ]
]

-- The fuel bounds the digits of an octet. The fifth octet is never added.
unfoldable pub z_inet_aton : ℕ → Mem → ℕ → Aton
unfolding z_isdigit octet aton_result aton_loop
z_inet_aton fuel m c_ipaddr = aton_loop fuel 5 m c_ipaddr 0 0

-- The processor is little-endian: `cpu_endian` returns 0 there, and prints which it is.
abbrev pub cpu_endian : ℕ
cpu_endian = 0

-- `BigLittleSwap16` and `BigLittleSwap32`: the bytes in the other order.
unfoldable pub swap16 : ℕ → ℕ
swap16 a = a % 2 ^ 16 / 2 ^ 8 + a % 2 ^ 8 * 2 ^ 8

unfoldable pub swap32 : ℕ → ℕ
swap32 a =
    a % 2 ^ 32 / 2 ^ 24
    + a / 2 ^ 16 % 2 ^ 8 * 2 ^ 8
    + a / 2 ^ 8 % 2 ^ 8 * 2 ^ 16
    + a % 2 ^ 8 * 2 ^ 24

abbrev pub z_htonl : ℕ → ℕ
z_htonl h = if cpu_endian != 0 then h else swap32 h

abbrev pub z_ntohl : ℕ → ℕ
z_ntohl n = if cpu_endian != 0 then n else swap32 n

abbrev pub z_htons : ℕ → ℕ
z_htons h = if cpu_endian != 0 then h else swap16 h

abbrev pub z_ntohs : ℕ → ℕ
z_ntohs n = if cpu_endian != 0 then n else swap16 n
