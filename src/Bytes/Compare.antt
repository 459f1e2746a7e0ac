-- ===== src/Bytes/Compare.antt =====
-- What `z_memcmp` compares.
use lib_system_call.Base.{ℕ, zero, suc, ◌+◌, ◌*◌, ◌-◌, ◌^◌, ◌<◌, ◌≡◌, ◌↔◌, arith, refl}
use native.Mathlib.Decide.{dec_lt}
use lib_system_call.Memory.{Mem}
use lib_system_call.Bytes.{word32, memcmp_loop, z_memcmp}

-- Every address holds a byte.
abbrev pub HoldsBytes : Mem → Type 0
HoldsBytes m = (a : ℕ) → m a < 256

-- The `n` bytes at the two addresses are the same.
abbrev pub SameBytes : Mem → (p q n : ℕ) → Type 0
SameBytes m p q n = (i : ℕ) → i < n → m (p + i) ≡ m (q + i)

word32_bytes :
    (m : Mem) (p q : ℕ)
    → HoldsBytes m
    → word32 m p ≡ word32 m q
    → (m p ≡ m q) × (m (p + 1) ≡ m (q + 1)) × (m (p + 2) ≡ m (q + 2)) × (m (p + 3) ≡ m (q + 3))
unfolding word32
word32_bytes m p q bytes e = omega (
  arith,
  bytes p,
  bytes (p + 1),
  bytes (p + 2),
  bytes (p + 3),
  bytes q,
  bytes (q + 1),
  bytes (q + 2),
  bytes (q + 3),
)

word32-lt : (m : Mem) (p : ℕ) → HoldsBytes m → word32 m p < 2 ^ 32
unfolding word32
word32-lt m p bytes = omega (arith, bytes p, bytes (p + 1), bytes (p + 2), bytes (p + 3))

word32-eq : (m : Mem) (p q : ℕ) → SameBytes m p q 4 → word32 m p ≡ word32 m q
unfolding word32
word32-eq m p q same =
    ground (
      arith,
      same 0 (omega arith),
      same 1 (omega arith),
      same 2 (omega arith),
      same 3 (omega arith),
    )

same_four : (m : Mem) (p q : ℕ) → HoldsBytes m → word32 m p ≡ word32 m q → SameBytes m p q 4
same_four m p q bytes e zero hi = ground (arith, word32_bytes m p q bytes e)
same_four m p q bytes e (suc zero) hi = ground (arith, word32_bytes m p q bytes e)
same_four m p q bytes e (suc (suc zero)) hi = ground (arith, word32_bytes m p q bytes e)
same_four m p q bytes e (suc (suc (suc zero))) hi = ground (arith, word32_bytes m p q bytes e)
same_four m p q bytes e (suc (suc (suc (suc i)))) hi = absurd (omega arith)

SameBytes-join :
    (m : Mem) (p q k n : ℕ)
    → SameBytes m p q k
    → SameBytes m (p + k) (q + k) n
    → SameBytes m p q (k + n)
SameBytes-join m p q k n front back i hi = elim (dec_lt i k) [
  | yes h ↦ front i h
  | no h ↦ ground (arith, back (i - k))
]

memcmp_loop_first :
    (n : ℕ) (m : Mem) (p q : ℕ)
    → HoldsBytes m
    → memcmp_loop m p q (suc n) ≡ 0
    → (word32 m p ≡ word32 m q) × (memcmp_loop m (p + 4) (q + 4) n ≡ 0)
unfolding memcmp_loop
memcmp_loop_first n m p q bytes e = ground (arith, word32-lt m p bytes, word32-lt m q bytes)

memcmp_loop-same :
    (n : ℕ) (m : Mem) (p q : ℕ) → HoldsBytes m → memcmp_loop m p q n ≡ 0 → SameBytes m p q (4 * n)
memcmp_loop-same zero m p q bytes e i hi = absurd (omega arith)
memcmp_loop-same (suc n) m p q bytes e i hi =
    let (first, rest) = memcmp_loop_first n m p q bytes e in
    SameBytes-join m p q 4 (4 * n) (same_four m p q bytes first)
      (memcmp_loop-same n m (p + 4) (q + 4) bytes rest) i (omega arith)

memcmp_loop-zero : (n : ℕ) (m : Mem) (p q : ℕ) → SameBytes m p q (4 * n) → memcmp_loop m p q n ≡ 0
unfolding memcmp_loop
memcmp_loop-zero zero m p q same = refl
memcmp_loop-zero (suc n) m p q same = ground (
  arith,
  word32-eq m p q (λ i hi. same i (omega arith)),
  memcmp_loop-zero n m (p + 4) (q + 4) (λ i hi. ground (arith, same (4 + i))),
)

-- `z_memcmp` returns 0 exactly when the two blocks agree on `4 * n` bytes, four times as many as
-- its argument says.
pub z_memcmp-eq-zero :
    (m : Mem) (p q n : ℕ) → HoldsBytes m → (z_memcmp m p q n ≡ 0) ↔ SameBytes m p q (4 * n)
unfolding z_memcmp
z_memcmp-eq-zero m p q n bytes = (memcmp_loop-same n m p q bytes, memcmp_loop-zero n m p q)
