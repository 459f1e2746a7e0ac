-- ===== src/Bytes/Fill.antt =====
-- What `z_memset` and `z_memcpy` write.
use lib_system_call.Base.{
  ℕ, zero, suc, ◌+◌, ◌%◌, ◌^◌, ◌≤◌, ◌<◌, ◌≡◌, ◌⊎◌, inl, inr, arith, if◌then◌else◌,
}
use lib_system_call.Memory.{Mem, write, blit, inside}
use lib_system_call.Bytes.{memset_loop, bytes_up, z_memset, z_memcpy}
use lib_system_call.Bytes.Loops.{bytes_up-blit}

-- `z_memset` puts the low byte of `c` at each of the `n` addresses, and writes nowhere else.
pub z_memset_lem :
    (m : Mem) (s c n a : ℕ) → z_memset m s c n a ≡ (if inside s n a then c % 2 ^ 8 else m a)
unfolding z_memset memset_loop
z_memset_lem m s c zero a = ground arith
z_memset_lem m s c (suc n) a = ground (arith, z_memset_lem (write m s (c % 256)) (s + 1) c n a)

apart_up : (k : ℕ) (m : Mem) (d s a : ℕ) → s + k ≤ d → bytes_up m d s k a ≡ blit m d s k a
unfolding bytes_up
apart_up zero m d s a h = ground arith
apart_up (suc k) m d s a h =
    ground (arith, apart_up k (write m d (m s)) (d + 1) (s + 1) a (omega arith))

-- `z_memcpy` is one copy unless the destination starts inside the source.
pub z_memcpy-blit :
    (m : Mem) (d s n a : ℕ) → (d < s) ⊎ (s + n ≤ d) → z_memcpy m d s n a ≡ blit m d s n a
unfolding z_memcpy
z_memcpy-blit m d s n a (inl h) = bytes_up-blit n m d s a h
z_memcpy-blit m d s n a (inr h) = apart_up n m d s a h
