-- ===== src/Str/Copy.antt =====
-- What the copying string functions leave in memory.
use Prim.Native.Nat.{min}
use mathlib.Core.Path.{fun_ext}
use lib_system_call.Base.{
  ℕ, zero, suc, ◌+◌, ◌-◌, ◌^◌, ◌<◌, ◌≡◌, ◌≢◌, ◌⊎◌, List, [], ◌∷◌, ◌++◌, none, some, length, get_or,
  arith, if◌then◌else◌, ap, false,
}
use lib_system_call.Memory.{Mem, write, blit, inside, IsStr}
use lib_system_call.Memory.Strings.{Apart, IsStr-write, IsStr-blit, IsStr-append}
use lib_system_call.Bytes.{z_memset, z_memcpy}
use lib_system_call.Bytes.Fill.{z_memset_lem, z_memcpy-blit}
use lib_system_call.Str.{
  strlen_loop, z_strlen, strncpy_loop, z_strncpy, strncat_loop, z_strncat, z_strdup, map_failed,
}

pub strlen_loop_lem :
    (fuel : ℕ) (m : Mem) (p : ℕ) (xs : List ℕ)
    → IsStr m p xs
    → length xs < fuel
    → strlen_loop fuel m p ≡ some (p + length xs)
unfolding strlen_loop
strlen_loop_lem zero m p xs h fuel = absurd (omega arith)
strlen_loop_lem (suc k) m p [] h fuel = ground arith
strlen_loop_lem (suc k) m p (x ∷ xs) h fuel = ground (arith, strlen_loop_lem k m (p + 1) xs h.2)

-- With fuel for every byte, `z_strlen` finds the terminator and returns the number of bytes.
z_strlen-length :
    (fuel : ℕ) (m : Mem) (p : ℕ) (xs : List ℕ)
    → IsStr m p xs
    → length xs < fuel
    → length xs < 2 ^ 31
    → z_strlen fuel m p ≡ some (length xs)
unfolding z_strlen
z_strlen-length fuel m p xs h enough small = ground (arith, strlen_loop_lem fuel m p xs h)

-- `z_strncpy` copies the string, fills the rest of the `n` bytes with zeros and writes nowhere
-- else. It leaves no terminator where the string has `n` bytes or more.
pub z_strncpy_lem :
    (n : ℕ) (m : Mem) (d s : ℕ) (xs : List ℕ) (a : ℕ)
    → IsStr m s xs
    → Apart d n s (length xs + 1)
    → z_strncpy m d s n a ≡ (if inside d n a then get_or xs (a - d) 0 else m a)
unfolding z_strncpy strncpy_loop
z_strncpy_lem zero m d s xs a h apart = ground arith
z_strncpy_lem (suc n) m d s [] a h apart = ground (
  arith,
  z_strncpy_lem n (write m d (m s)) (d + 1) s [] a (IsStr-write [] m s d _ (omega arith) h)
      (omega arith),
)
z_strncpy_lem (suc n) m d s (x ∷ xs) a h apart = ground (
  arith,
  z_strncpy_lem n (write m d (m s)) (d + 1) (s + 1) xs a
      (IsStr-write xs m (s + 1) d _ (omega arith) h.2) (omega arith),
)

strncat_loop-blit :
    (n : ℕ) (m : Mem) (cp s : ℕ) (ys : List ℕ) (a : ℕ)
    → IsStr m s ys
    → Apart cp (length ys + 1) s (length ys + 1)
    → strncat_loop m cp s n a ≡ blit m cp s (min n (length ys + 1)) a
unfolding strncat_loop
strncat_loop-blit zero m cp s ys a h apart = ground arith
strncat_loop-blit (suc n) m cp s [] a h apart = ground arith
strncat_loop-blit (suc n) m cp s (y ∷ ys) a h apart = ground (
  arith,
  strncat_loop-blit n (write m cp (m s)) (cp + 1) (s + 1) ys a
      (IsStr-write ys m (s + 1) cp _ (omega arith) h.2) (omega arith),
)

-- `z_strncat` copies `n` bytes of the second string over the terminator of the first, or all of it
-- with its own terminator where that is shorter, and writes nowhere else.
pub z_strncat-blit :
    (fuel : ℕ) (m : Mem) (d s n : ℕ) (xs ys : List ℕ)
    → IsStr m d xs
    → IsStr m s ys
    → length xs < fuel
    → Apart (d + length xs) (length ys + 1) s (length ys + 1)
    → z_strncat fuel m d s n ≡ some (blit m (d + length xs) s (min n (length ys + 1)))
unfolding z_strncat
z_strncat-blit fuel m d s n xs ys h k enough apart =
    rw (strlen_loop_lem fuel m d xs h enough)
      (ap some (fun_ext λ a. strncat_loop-blit n m (d + length xs) s ys a k apart))

-- With room for the terminator, `z_strncat` leaves the two strings joined at `dest`.
z_strncat-append :
    (fuel : ℕ) (m : Mem) (d s n : ℕ) (xs ys : List ℕ)
    → IsStr m d xs
    → IsStr m s ys
    → length xs < fuel
    → length ys < n
    → Apart (d + length xs) (length ys + 1) s (length ys + 1)
    → (m' : Mem) × (z_strncat fuel m d s n ≡ some m') × IsStr m' d (xs ++ ys)
z_strncat-append fuel m d s n xs ys h k enough room apart = (
  blit m (d + length xs) s (min n (length ys + 1)),
  z_strncat-blit fuel m d s n xs ys h k enough apart,
  IsStr-append xs ys m _ d (λ a lo hi. ground arith) h
      (IsStr-blit ys m _ s (d + length xs) k (λ i hi. ground arith)),
)

-- Where memory is to be had, `z_strdup` returns the new block with the same string in it, and
-- changes nothing outside that block.
z_strdup_lem :
    (fuel mapped : ℕ) (m : Mem) (s : ℕ) (xs : List ℕ)
    → IsStr m s xs
    → length xs < fuel
    → length xs + 1 < 2 ^ 31
    → mapped ≢ 0
    → mapped ≢ map_failed
    → Apart mapped (length xs + 1) s (length xs + 1)
    → (m' : Mem) × (z_strdup fuel mapped m s ≡ some (some mapped, m'))
      × IsStr m' mapped xs
      × ((a : ℕ) → inside mapped (length xs + 1) a ≡ false → m' a ≡ m a)
unfolding z_strdup
z_strdup_lem fuel mapped m s xs h enough small some_block not_failed apart = (
  z_memcpy (z_memset m mapped 0 (length xs + 1)) mapped s (length xs + 1),
  rw (z_strlen-length fuel m s xs h enough (omega arith)) (ground arith),
  IsStr-blit xs m _ s mapped h (λ i hi. ground (arith, copied (mapped + i), cleared (s + i))),
  λ a out. ground (arith, copied a, cleared a),
)
  where
    cleared :
        (a : ℕ)
        → z_memset m mapped 0 (length xs + 1) a
          ≡ (if inside mapped (length xs + 1) a then 0 else m a)
    cleared a = z_memset_lem m mapped 0 (length xs + 1) a

    copied :
        (a : ℕ)
        → z_memcpy (z_memset m mapped 0 (length xs + 1)) mapped s (length xs + 1) a
          ≡ blit (z_memset m mapped 0 (length xs + 1)) mapped s (length xs + 1) a
    copied a = z_memcpy-blit _ mapped s (length xs + 1) a (omega arith)

-- Where there is none, `z_strdup` returns a null pointer and changes nothing.
pub z_strdup-none :
    (fuel mapped : ℕ) (m : Mem) (s : ℕ) (xs : List ℕ)
    → IsStr m s xs
    → length xs < fuel
    → length xs < 2 ^ 31
    → (mapped ≡ 0) ⊎ (mapped ≡ map_failed)
    → z_strdup fuel mapped m s ≡ some (none, m)
unfolding z_strdup
z_strdup-none fuel mapped m s xs h enough small failed =
    rw (z_strlen-length fuel m s xs h enough small) (ground arith)
