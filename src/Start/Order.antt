-- ===== src/Start/Order.antt =====
-- Where `zz_main` finds the environment and the strings behind it.
use lib_system_call.Base.{
  ℕ, zero, suc, ◌+◌, ◌*◌, ◌<◌, ◌≡◌, ◌≢◌, List, [], ◌∷◌, ◌++◌, map, some, length, arith, refl, ap,
  true, false, ◌==◌,
}
use lib_system_call.Start.{printed, z_init, z_fini, call_z_main, call_z_exit, print_vector, zz_main}

-- The pointers `ps`, none of them null, stand at `p`, and a null pointer behind them.
abbrev pub IsVector : (ℕ → ℕ) → (p : ℕ) → List ℕ → Type 0
IsVector w p [] = w p ≡ 0
IsVector w p (x ∷ xs) = (w p ≡ x) × (x ≢ 0) × IsVector w (p + 8) xs

print_vector_lem :
    (xs : List ℕ) (fuel : ℕ) (w : ℕ → ℕ) (p : ℕ)
    → IsVector w p xs
    → length xs < fuel
    → print_vector fuel w p ≡ some (p + 8 * length xs, map printed xs)
unfolding print_vector
print_vector_lem xs zero w p h enough = absurd (omega arith)
print_vector_lem [] (suc fuel) w p h enough =
    let null : w p == 0 ≡ true = ground arith in
    rw (null, print_vector) (ap (λ q. some (q, [])) (omega arith))
print_vector_lem (x ∷ xs) (suc fuel) w p h enough =
    let more : w p == 0 ≡ false = ground arith in
    let rest = print_vector_lem xs fuel w (p + 8) h.2 (omega arith) in
    let place : p + 8 + 8 * length xs ≡ p + 8 * suc (length xs) = omega arith in
    rw (more, print_vector)
      (rw rest (rw (h.0) (ap (λ q. some (q, printed x ∷ map printed xs)) place)))

-- With the environment behind the arguments and the kernel's strings behind that, and fuel for
-- both, `zz_main` prints the two, sets the library up with their places before `z_main` runs, and
-- exits with its result.
pub zz_main_lem :
    (fuel : ℕ) (w : ℕ → ℕ) (argc argv dyld_header ret : ℕ) (environment strings : List ℕ)
    → let envp = argv + 8 * (argc + 1) in
      let apple = envp + 8 * length environment + 8 in
      IsVector w envp environment
      → IsVector w apple strings
      → length environment < fuel
      → length strings < fuel
      → zz_main fuel w argc argv dyld_header ret
        ≡ some (
            map printed environment
            ++ map printed strings
            ++ z_init envp apple dyld_header
            ++ call_z_main argc argv envp apple ∷ []
            ++ z_fini
            ++ call_z_exit ret ∷ [])
unfolding zz_main
zz_main_lem fuel w argc argv dyld_header ret environment strings h k enough enough' =
    let envp = argv + 8 * (argc + 1) in
    let apple = envp + 8 * length environment + 8 in
    rw (print_vector_lem environment fuel w envp h enough)
      (rw (print_vector_lem strings fuel w apple k enough') refl)
