-- ===== src/Memory/Strings.antt =====
-- C strings in memory, under writes beside them.
use mathlib.Core.Path.{subst}
use lib_system_call.Base.{
  ℕ, zero, suc, ◌+◌, ◌≤◌, ◌<◌, ◌≡◌, ◌⊎◌, List, [], ◌∷◌, ◌++◌, length, get_or, arith,
}
use lib_system_call.Memory.{Mem, write, IsStr}

-- `n` addresses from `p` on and `k` from `q` on have none in common.
abbrev pub Apart : (p n q k : ℕ) → Type 0
Apart p n q k = (p + n ≤ q) ⊎ (q + k ≤ p)

-- A string stays where its bytes and its terminator keep their values.
pub IsStr-frame :
    (xs : List ℕ) (m n : Mem) (p : ℕ)
    → ((a : ℕ) → p ≤ a → a ≤ p + length xs → n a ≡ m a)
    → IsStr m p xs
    → IsStr n p xs
IsStr-frame [] m n p same h = ground (arith, same p)
IsStr-frame (x ∷ xs) m n p same h = (
  ground (arith, same p),
  h.1,
  IsStr-frame xs m n (p + 1) (λ a lo hi. same a (omega arith) (omega arith)) h.2,
)

pub IsStr-write :
    (xs : List ℕ) (m : Mem) (p q v : ℕ)
    → Apart q 1 p (length xs + 1)
    → IsStr m p xs
    → IsStr (write m q v) p xs
IsStr-write xs m p q v apart h = IsStr-frame xs m (write m q v) p (λ a lo hi. ground arith) h

-- The byte at each place of a string, its terminator included.
pub IsStr-get_or :
    (xs : List ℕ) (m : Mem) (p i : ℕ) → IsStr m p xs → i ≤ length xs → m (p + i) ≡ get_or xs i 0
IsStr-get_or [] m p i h hi = ground arith
IsStr-get_or (x ∷ xs) m p zero h hi = ground arith
IsStr-get_or (x ∷ xs) m p (suc i) h hi = ground (arith, IsStr-get_or xs m (p + 1) i h.2)

-- Two strings one behind the other, the second over the terminator of the first.
pub IsStr-append :
    (xs ys : List ℕ) (m n : Mem) (p : ℕ)
    → ((a : ℕ) → p ≤ a → a < p + length xs → n a ≡ m a)
    → IsStr m p xs
    → IsStr n (p + length xs) ys
    → IsStr n p (xs ++ ys)
IsStr-append [] ys m n p same h k = subst (λ q. IsStr n q ys) (omega arith) k
IsStr-append (x ∷ xs) ys m n p same h k = (
  ground (arith, same p),
  h.1,
  IsStr-append xs ys m n (p + 1) (λ a lo hi. same a (omega arith) (omega arith)) h.2
      (subst (λ q. IsStr n q ys) (omega arith) k),
)

-- A copy of a string, terminator included, is that string.
pub IsStr-blit :
    (xs : List ℕ) (m n : Mem) (p q : ℕ)
    → IsStr m p xs
    → ((i : ℕ) → i ≤ length xs → n (q + i) ≡ m (p + i))
    → IsStr n q xs
IsStr-blit [] m n p q h same = ground (arith, same 0)
IsStr-blit (x ∷ xs) m n p q h same = (
  ground (arith, same 0),
  h.1,
  IsStr-blit xs m n (p + 1) (q + 1) h.2 (λ i hi. ground (arith, same (suc i))),
)

-- What is behind the first part of a string is a string.
pub IsStr-drop :
    (xs ys : List ℕ) (m : Mem) (p : ℕ) → IsStr m p (xs ++ ys) → IsStr m (p + length xs) ys
IsStr-drop [] ys m p h = subst (λ q. IsStr m q ys) (omega arith) h
IsStr-drop (x ∷ xs) ys m p h =
    subst (λ q. IsStr m q ys) (omega arith) (IsStr-drop xs ys m (p + 1) h.2)
