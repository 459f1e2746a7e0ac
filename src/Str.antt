-- ===== src/Str.antt =====
-- The string functions of z_string.c, and z_malloc.c, which `z_strdup` calls.
pub mod Copy
pub mod Compare
pub mod Order
use lib_system_call.Base.{
  ℕ, zero, suc, ◌+◌, ◌-◌, ◌%◌, ◌^◌, Bool, true, false, ◌&&◌, ◌||◌, ◌!=◌, Option, none, some, ltb,
  leb, ◌==◌, if◌then◌else◌,
}
use lib_system_call.Base.Int.{ℤ, pos, negsuc, ◌-ℤ◌}
use lib_system_call.Memory.{Mem, write}
use lib_system_call.Bytes.{z_memset, z_memcpy}

-- A `char` is signed: the value that the byte stands for.
abbrev pub signed8 : ℕ → ℤ
signed8 b = if ltb b 128 then pos b else negsuc (255 - b)

-- The sequencing of calls that may run out of fuel.
infixl 5 ◌>>=◌
abbrev pub ◌>>=◌ {ℓ κ} : {A : Type ℓ} {B : Type κ} → Option A → (A → Option B) → Option B
none >>= f = none
some a >>= f = f a

-- `while (*p != '\0') p++;`, a byte for each unit of fuel; `none` when it runs out.
pub strlen_loop : ℕ → Mem → ℕ → Option ℕ
strlen_loop zero m p = none
strlen_loop (suc fuel) m p =
    let rest = strlen_loop fuel m (p + 1) in if m p == 0 then some p else rest

-- The result is the bit pattern of a z_int32.
unfoldable pub z_strlen : ℕ → Mem → ℕ → Option ℕ
unfolding strlen_loop
z_strlen fuel m s = do p ← strlen_loop fuel m s; some ((p - s) % 2 ^ 32)

-- `while (--n && *s1 && *s1 == *s2) { s1++; s2++; }` with `--n` rounds left, and the return.
strncmp_loop : Mem → (s1 s2 : ℕ) → ℕ → ℤ
strncmp_loop m s1 s2 zero = signed8 (m s1) -ℤ signed8 (m s2)
strncmp_loop m s1 s2 (suc left) =
    let rest = strncmp_loop m (s1 + 1) (s2 + 1) left in
    if m s1 != 0 && m s1 == m s2 then rest else signed8 (m s1) -ℤ signed8 (m s2)

unfoldable pub z_strncmp : Mem → (s1 s2 : ℕ) → ℕ → ℤ
unfolding strncmp_loop
z_strncmp m s1 s2 zero = pos 0
z_strncmp m s1 s2 (suc n) = strncmp_loop m s1 s2 n

-- `src` stays on the terminator, so that the rest of the buffer is filled with zeros.
strncpy_loop : Mem → (tmp src : ℕ) → ℕ → Mem
strncpy_loop m tmp src zero = m
strncpy_loop m tmp src (suc count) =
    strncpy_loop (write m tmp (m src)) (tmp + 1) (if m src == 0 then src else src + 1) count

-- It returns `dest`, so only the memory is a result here.
unfoldable pub z_strncpy : Mem → (dest src : ℕ) → ℕ → Mem
unfolding strncpy_loop
z_strncpy m dest src count = strncpy_loop m dest src count

-- `while (n && (*cp++ = *str++) != '\0') --n;`
strncat_loop : Mem → (cp str : ℕ) → ℕ → Mem
strncat_loop m cp str zero = m
strncat_loop m cp str (suc n) =
    let m' = write m cp (m str) in
    let rest = strncat_loop m' (cp + 1) (str + 1) n in if m str == 0 then m' else rest

-- The fuel is for the walk to the end of `dest`.
unfoldable pub z_strncat : ℕ → Mem → (dest str : ℕ) → ℕ → Option Mem
unfolding strlen_loop strncat_loop
z_strncat fuel m dest str n = do cp ← strlen_loop fuel m dest; some (strncat_loop m cp str n)

-- `MAP_FAILED` is `(z_void *)-1`.
abbrev pub map_failed : ℕ
map_failed = 2 ^ 64 - 1

-- `mapped` is what the system call behind `z_mmap` returned. A null pointer is `none`.
unfoldable pub z_malloc : (mapped : ℕ) → Mem → ℕ → Option ℕ × Mem
z_malloc mapped m size =
    if mapped == map_failed || mapped == 0
    then (none, m)
    else (some mapped, z_memset m mapped 0 size)

copy_string : Mem → (str len : ℕ) → Option ℕ × Mem → Option ℕ × Mem
copy_string m str len (none, m') = (none, m')
copy_string m str len (some copy, m') = (some copy, z_memcpy m' copy str len)

unfoldable pub z_strdup : ℕ → (mapped : ℕ) → Mem → ℕ → Option (Option ℕ × Mem)
unfolding copy_string z_malloc
z_strdup fuel mapped m str = do
  length ← z_strlen fuel m str
  let len = (length + 1) % 2 ^ 32
  some (copy_string m str len (z_malloc mapped m len))
