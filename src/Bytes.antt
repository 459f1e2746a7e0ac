-- ===== src/Bytes.antt =====
-- The memory functions of z_string.c.
mod Loops
pub mod Compare
pub mod Fill
pub mod Move
use lib_system_call.Base.{
  ℕ, zero, suc, ◌+◌, ◌-◌, ◌*◌, ◌/◌, ◌%◌, ◌^◌, bit_and, bit_or, bit_xor, ◌||◌, ◌!=◌, Option, none,
  some, ltb, leb, ◌==◌, if◌then◌else◌,
}
use lib_system_call.Memory.{Mem, write, blit}

-- `while (p < e) *p++ = c;` with `e - p` rounds left; `*p` is an unsigned char.
pub memset_loop : Mem → ℕ → ℕ → ℕ → Mem
memset_loop m p c zero = m
memset_loop m p c (suc left) = memset_loop (write m p (c % 2 ^ 8)) (p + 1) c left

unfoldable pub z_memset : Mem → ℕ → ℕ → ℕ → Mem
unfolding memset_loop
z_memset m s c n = memset_loop m s c n

-- `*d++ = *p++`, a byte at a time, with as many rounds left as the last argument says: the loop of
-- `z_memcpy`, and `TLOOP1(*dst++ = *src++)` of `z_memmove`.
unfoldable pub bytes_up : Mem → (d p : ℕ) → ℕ → Mem
bytes_up m d p zero = m
bytes_up m d p (suc left) = bytes_up (write m d (m p)) (d + 1) (p + 1) left

unfoldable pub z_memcpy : Mem → (dest src : ℕ) → ℕ → Mem
unfolding bytes_up
z_memcpy m dest src n = bytes_up m dest src n

-- `*--dst = *--src`, where `d` and `s` are the pointers before the decrement.
pub bytes_down : Mem → (d s : ℕ) → ℕ → Mem
bytes_down m d s zero = m
bytes_down m d s (suc left) = bytes_down (write m (d - 1) (m (s - 1))) (d - 1) (s - 1) left

-- `wsize` is `sizeof(z_uint32)`, and `wmask` is `wsize - 1`.
abbrev pub wsize : ℕ
wsize = 4

abbrev pub wmask : ℕ
wmask = 3

-- `*(z_int64 *)dst = *(z_int64 *)src; src += wsize; dst += wsize`: eight bytes are moved, and the
-- pointers go on by four.
pub words_up : Mem → (d s : ℕ) → ℕ → Mem
words_up m d s zero = m
words_up m d s (suc left) = words_up (blit m d s 8) (d + wsize) (s + wsize) left

-- `src -= wsize; dst -= wsize; *(z_int64 *)dst = *(z_int64 *)src`.
pub words_down : Mem → (d s : ℕ) → ℕ → Mem
words_down m d s zero = m
words_down m d s (suc left) =
    words_down (blit m (d - wsize) (s - wsize) 8) (d - wsize) (s - wsize) left

-- The bytes that are moved before the words. They are never 0 where `TLOOP1`, a do-while loop,
-- runs over them, so that its count does not wrap.
pub head_up : (dst src length : ℕ) → ℕ
head_up dst src length =
    if bit_and (bit_or src dst) wmask == 0
    then 0
    else if bit_and (bit_xor src dst) wmask != 0 || ltb length wsize
    then length
    else wsize - bit_and src wmask

pub head_down : (dst src length : ℕ) → ℕ
head_down dst src length =
    if bit_and (bit_or src dst) wmask == 0
    then 0
    else if bit_and (bit_xor src dst) wmask != 0 || leb length wsize
    then length
    else bit_and src wmask

pub move_up : Mem → (dst src length : ℕ) → Mem
unfolding bytes_up words_up head_up
move_up m dst src length =
    let t = head_up dst src length in
    let m₁ = bytes_up m dst src t in
    let rest = length - t in
    let words = rest / wsize in
    let m₂ = words_up m₁ (dst + t) (src + t) words in
    let copied = t + words * wsize in bytes_up m₂ (dst + copied) (src + copied) (bit_and rest wmask)

-- `dst` and `src` are the ends here: `src += length; dst += length` has been done.
pub move_down : Mem → (dst src length : ℕ) → Mem
unfolding bytes_down words_down head_down
move_down m dst src length =
    let t = head_down dst src length in
    let m₁ = bytes_down m dst src t in
    let rest = length - t in
    let words = rest / wsize in
    let m₂ = words_down m₁ (dst - t) (src - t) words in
    let copied = t + words * wsize in
    bytes_down m₂ (dst - copied) (src - copied) (bit_and rest wmask)

unfoldable pub z_memmove : Mem → (dst0 src0 length : ℕ) → Mem
unfolding move_up move_down
z_memmove m dst0 src0 length =
    if length == 0 || dst0 == src0
    then m
    else if ltb dst0 src0
    then move_up m dst0 src0 length
    else move_down m (dst0 + length) (src0 + length) length

-- The `z_uint32` at `p`, lowest byte first as on x86.
pub word32 : Mem → ℕ → ℕ
word32 m p = m p + m (p + 1) * 2 ^ 8 + m (p + 2) * 2 ^ 16 + m (p + 3) * 2 ^ 24

-- `n` counts the words left. The difference is the bit pattern of a z_int32.
memcmp_loop : Mem → (p1 p2 : ℕ) → ℕ → ℕ
memcmp_loop m p1 p2 zero = 0
memcmp_loop m p1 p2 (suc n) =
    let rest = memcmp_loop m (p1 + 4) (p2 + 4) n in
    if word32 m p1 == word32 m p2 then rest else (word32 m p1 + 2 ^ 32 - word32 m p2) % 2 ^ 32

unfoldable pub z_memcmp : Mem → (s1 s2 n : ℕ) → ℕ
unfolding memcmp_loop word32
z_memcmp m s1 s2 n = memcmp_loop m s1 s2 n
