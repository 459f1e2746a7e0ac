-- ===== src/Memory.antt =====
-- The flat address space that the pointers of the library point into: one byte to an address.
pub mod Strings
use lib_system_call.Base.{
  ℕ, zero, suc, ◌+◌, ◌-◌, ◌≡◌, ◌≢◌, Bool, ◌&&◌, List, [], ◌∷◌, ltb, leb, ◌==◌, if◌then◌else◌,
}

-- Addresses are numbers, and a run whose buffers end below 2 ^ 64 never wraps one.
abbrev pub Mem : Type 0
Mem = ℕ → ℕ

-- `*p = v`, a byte.
abbrev pub write : Mem → ℕ → ℕ → Mem
write m p v a = if a == p then v else m a

-- `a` is one of the `n` addresses from `p` on.
abbrev pub inside : ℕ → ℕ → ℕ → Bool
inside p n a = leb p a && ltb a (p + n)

-- The memory after the `n` bytes at `s` have been put at `d`, all read before any is written.
abbrev pub blit : Mem → ℕ → ℕ → ℕ → Mem
blit m d s n a = if inside d n a then m (s + (a - d)) else m a

-- The bytes of a run of memory.
abbrev pub bytes_at : Mem → (p : ℕ) → ℕ → List ℕ
bytes_at m p zero = []
bytes_at m p (suc n) = m p ∷ bytes_at m (p + 1) n

-- A C string at `p`: the bytes `xs`, none of them 0, and a 0 behind them.
abbrev pub IsStr : Mem → ℕ → List ℕ → Type 0
IsStr m p [] = m p ≡ 0
IsStr m p (x ∷ xs) = (m p ≡ x) × (x ≢ 0) × IsStr m (p + 1) xs
