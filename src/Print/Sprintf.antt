-- ===== src/Print/Sprintf.antt =====
-- z_sprintf of z_stdio.c, over the flat memory. The source takes the length of a text again after it
-- is copied; the copy does not overlap the text, so it is taken once here.
pub mod Plain
use lib_system_call.Base.{
  ℕ, zero, suc, ◌+◌, ◌-◌, ◌^◌, ◌%◌, ◌/◌, Bool, true, false, ◌||◌, List, [], ◌∷◌, Option, none, some,
  ltb, leb, ◌==◌, if◌then◌else◌,
}
use lib_system_call.Memory.{Mem, write}
use lib_system_call.Bytes.{z_memset, z_memcpy}
use lib_system_call.Str.{z_strlen, ◌>>=◌}
use lib_system_call.Numeric.{z_isdigit, z_itoa, z_xtoa, z_atoi}

-- The arguments are words, among them the addresses of texts. Without one `va_arg` has no defined
-- result.
abbrev pub next_word : List ℕ → Option (ℕ × List ℕ)
next_word [] = none
next_word (n ∷ ap) = some (n, ap)

-- The arrays `buf` and `digit`, and fuel for each walk along a text.
module _ (fuel buf digit : ℕ) where
  -- `num` zeros in all are put in front where the text at `s` is shorter. Both lengths are z_int32.
  unfoldable pub put_padded : Mem → (str s num : ℕ) → Option (Mem × ℕ)
  unfolding z_memset z_memcpy
  put_padded m str s num = do
    len ← z_strlen fuel m s
    let fits = leb num len || leb (2 ^ 31) num
    let zeros = if fits then 0 else num - len
    some (z_memcpy (z_memset m str b'0' zeros) (str + zeros) s len, str + zeros + len)

  -- The sign goes in front of the zeros. `-n` is taken on 32 bits.
  unfoldable pub put_decimal : Mem → (str n num : ℕ) → Option (Mem × ℕ)
  unfolding z_itoa put_padded
  put_decimal m str n num =
      let negative = leb (2 ^ 31) (n % 2 ^ 32) in
      let size = if negative then 2 ^ 32 - n % 2 ^ 32 else n % 2 ^ 32 in
      let m₁ = if negative then write m str b'-' else m in
      do m₂ ← z_itoa m₁ size buf; put_padded m₂ (if negative then str + 1 else str) buf num

  unfoldable pub put_hex : Mem → (str n num : ℕ) → Option (Mem × ℕ)
  unfolding z_xtoa put_padded
  put_hex m str n num = do m₁ ← z_xtoa m (n % 2 ^ 32) buf; put_padded m₁ str buf num

  -- `while (1)` of a width, from the character at `fmt` on, with the entries left in `digit`; a
  -- seventeenth digit is written past its end, which has no defined result.
  unfoldable pub width_loop : (left : ℕ) → Mem → (fmt index : ℕ) → Option (Mem × ℕ)
  unfolding z_isdigit
  width_loop zero m fmt index = if z_isdigit (m fmt) == 1 then none else some (m, fmt)
  width_loop (suc left) m fmt index =
      let rest = width_loop left (write m (digit + index) (m fmt)) (fmt + 1) (index + 1) in
      if z_isdigit (m fmt) == 1 then rest else some (m, fmt)

  -- The inner switch, on the character at `fmt` behind the width.
  unfoldable pub padded_conversion :
      Mem → (str fmt num : ℕ) → List ℕ → Option (Mem × ℕ × ℕ × List ℕ)
  unfolding put_decimal put_hex put_padded
  padded_conversion m str fmt num ap =
      let c = m fmt in
      if c == b'd'
      then (do
        (n, ap') ← next_word ap
        (m', str') ← put_decimal m str n num
        some (m', str', fmt, ap'))
      else if c == b'x'
      then (do (n, ap') ← next_word ap; (m', str') ← put_hex m str n num; some (m', str', fmt, ap'))
      else if c == b's'
      then (do
        (s, ap') ← next_word ap
        (m', str') ← put_padded m str s num
        some (m', str', fmt, ap'))
      else some (m, str, fmt, ap)

  -- The outer switch, on the character at `fmt` behind `%`. The case of a width ends in the
  -- default one.
  unfoldable pub sprintf_conversion : Mem → (str fmt : ℕ) → List ℕ → Option (Mem × ℕ × ℕ × List ℕ)
  unfolding put_decimal put_hex put_padded width_loop padded_conversion z_atoi z_memset
  sprintf_conversion m str fmt ap =
      let c = m fmt in
      if c == b'd' || c == b'x' || c == b's'
      then padded_conversion m str fmt 0 ap
      else if c == b'c'
      then (do (n, ap') ← next_word ap; some (write m str (n % 2 ^ 8), str + 1, fmt, ap'))
      else if c == b'%'
      then some (write m str b'%', str + 1, fmt, ap)
      else if c == b'0'
      then (do
        (m', fmt') ← width_loop 16 (z_memset m digit 0 16) (fmt + 1) 0
        num ← z_atoi fuel m' digit
        padded_conversion m' str fmt' num ap)
      else some (m, str, fmt, ap)

  -- The memory, and `str` behind the last byte written.
  unfoldable pub sprintf_loop : ℕ → Mem → (str fmt : ℕ) → List ℕ → Option (Mem × ℕ)
  unfolding sprintf_conversion
  sprintf_loop zero m str fmt ap = none
  sprintf_loop (suc left) m str fmt ap = elim (m fmt == 0) [
    | true ↦ some (m, str)
    | false ↦ elim (m fmt == b'%') [
      | true ↦ elim (sprintf_conversion m str (fmt + 1) ap) [
        | none ↦ none
        | some (m', str', fmt', ap') ↦ sprintf_loop left m' str' (fmt' + 1) ap'
      ]
      | false ↦ sprintf_loop left (write m str (m fmt)) (str + 1) (fmt + 1) ap
    ]
  ]

  -- The result is `count`, which stays 0, with the memory.
  unfoldable pub z_sprintf : Mem → (str fmt : ℕ) → List ℕ → Option (ℕ × Mem)
  unfolding sprintf_loop z_memset
  z_sprintf m str fmt ap = do
    (m', end) ← sprintf_loop fuel (z_memset (z_memset m buf 0 65) digit 0 16) str fmt ap
    some (0, m')

  -- `z_inet_ntoa` of z_utils.c; `dotted` is the address of its format, "%d.%d.%d.%d". The result is
  -- `buffer`, which is filled with zeros, so that the text has a terminator.
  unfoldable pub z_inet_ntoa : Mem → (dotted buffer in_addr : ℕ) → Option Mem
  unfolding z_sprintf z_memset
  z_inet_ntoa m dotted buffer in_addr = do
    (count, m') ← z_sprintf (z_memset m buffer 0 128) buffer dotted (
        in_addr % 2 ^ 8
        ∷ in_addr / 2 ^ 8 % 2 ^ 8
        ∷ in_addr / 2 ^ 16 % 2 ^ 8
        ∷ in_addr / 2 ^ 24 % 2 ^ 8
        ∷ [])
    some m'
