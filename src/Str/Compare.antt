-- ===== src/Str/Compare.antt =====
-- What `z_strncmp` compares.
use lib_system_call.Base.{ℕ, zero, suc, ◌+◌, ◌<◌, ◌≡◌, ◌↔◌, List, [], ◌∷◌, All, take, arith, refl}
use lib_system_call.Base.Int.{pos, ◌-ℤ◌}
use lib_system_call.Memory.{Mem, IsStr}
use lib_system_call.Str.{signed8, strncmp_loop, z_strncmp}

abbrev pub IsByte : ℕ → Type 0
IsByte b = b < 256

-- Signed characters are equal exactly when their bytes are.
signed8-sub : (a b : ℕ) → IsByte a → IsByte b → (signed8 a -ℤ signed8 b ≡ pos 0) ↔ (a ≡ b)
unfolding ◌-ℤ◌
signed8-sub a b ha hb = (λ e. ground arith, λ e. ground arith)

strncmp_loop-zero :
    (n : ℕ) (m : Mem) (p q : ℕ) (xs ys : List ℕ)
    → IsStr m p xs
    → IsStr m q ys
    → All IsByte xs
    → All IsByte ys
    → (strncmp_loop m p q n ≡ pos 0) ↔ (take (suc n) xs ≡ take (suc n) ys)
unfolding strncmp_loop
strncmp_loop-zero zero m p q [] [] h k bx by = (λ e. refl, λ e. ground (arith, signed8-sub 0 0))
strncmp_loop-zero zero m p q [] (y ∷ ys) h k bx by = (λ e. ground (arith, signed8-sub 0 y), λ e. cc)
strncmp_loop-zero zero m p q (x ∷ xs) [] h k bx by = (λ e. ground (arith, signed8-sub x 0), λ e. cc)
strncmp_loop-zero zero m p q (x ∷ xs) (y ∷ ys) h k bx by =
    (λ e. ground (arith, signed8-sub x y), λ e. ground (arith, signed8-sub x y))
strncmp_loop-zero (suc n) m p q [] [] h k bx by = (λ e. refl, λ e. ground (arith, signed8-sub 0 0))
strncmp_loop-zero (suc n) m p q [] (y ∷ ys) h k bx by =
    (λ e. ground (arith, signed8-sub 0 y), λ e. cc)
strncmp_loop-zero (suc n) m p q (x ∷ xs) [] h k bx by =
    (λ e. ground (arith, signed8-sub x 0), λ e. cc)
strncmp_loop-zero (suc n) m p q (x ∷ xs) (y ∷ ys) h k bx by =
    let rest = strncmp_loop-zero n m (p + 1) (q + 1) xs ys h.2 k.2 bx.1 by.1 in
    (λ e. ground (arith, signed8-sub x y, rest), λ e. ground (arith, signed8-sub x y, rest))

-- `z_strncmp` returns 0 exactly when the two strings agree on their first `n` bytes, a string
-- that ends before them counting as far as its terminator.
pub z_strncmp-eq-zero :
    (n : ℕ) (m : Mem) (p q : ℕ) (xs ys : List ℕ)
    → IsStr m p xs
    → IsStr m q ys
    → All IsByte xs
    → All IsByte ys
    → (z_strncmp m p q n ≡ pos 0) ↔ (take n xs ≡ take n ys)
unfolding z_strncmp
z_strncmp-eq-zero zero m p q xs ys h k bx by = (λ e. refl, λ e. refl)
z_strncmp-eq-zero (suc n) m p q xs ys h k bx by = strncmp_loop-zero n m p q xs ys h k bx by
