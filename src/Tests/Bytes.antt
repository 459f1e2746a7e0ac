-- ===== src/Tests/Bytes.antt =====
-- Runs of the memory functions, and their theorems at concrete memories.
use lib_system_call.Base.{◌+◌, ◌≡◌, ◌≢◌, refl, arith, ltb, if◌then◌else◌, ◌%◌}
use lib_system_call.Memory.{Mem}
use lib_system_call.Bytes.{z_memmove, z_memcmp}
use lib_system_call.Bytes.Move.{z_memmove_copies, z_memmove_overruns}
use lib_system_call.Bytes.Compare.{HoldsBytes, z_memcmp-eq-zero}

-- Address `a` holds the low byte of `a`.
abbrev counting : Mem
counting a = a % 256

counting-HoldsBytes : HoldsBytes counting
counting-HoldsBytes a = omega arith

-- A copy up by four bytes, over itself.
memmove_overlapping : z_memmove counting 104 100 10 112 ≡ 108
unfolding z_memmove
memmove_overlapping = refl

z_memmove_copies_example : z_memmove counting 104 100 10 (104 + 8) ≡ 108
z_memmove_copies_example = (z_memmove_copies counting 104 100 10).0 8 (omega arith)

z_memmove_overruns_example : z_memmove counting 200 100 8 (200 + 8 + 1) ≡ 109
z_memmove_overruns_example =
    z_memmove_overruns counting 200 100 8 1 refl refl (omega arith) refl (omega arith) (omega arith)

-- Of two blocks of eight bytes that differ in the sixth, `z_memcmp` with count 1 sees none.
abbrev spotted : Mem
spotted a = if ltb a 20 then 7 else if ltb a 25 then 7 else 9

memcmp_words : (z_memcmp spotted 0 20 1 ≡ 0) × (z_memcmp spotted 0 20 2 ≢ 0)
unfolding z_memcmp
memcmp_words = (refl, omega arith)

z_memcmp-eq-zero_example : z_memcmp counting 0 256 2 ≡ 0
z_memcmp-eq-zero_example =
    (z_memcmp-eq-zero counting 0 256 2 counting-HoldsBytes).1 (λ i hi. omega arith)
