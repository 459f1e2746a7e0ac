-- ===== src/Stdlib/Exit.antt =====
-- The end of a program and the seed of the random numbers in z_stdlib.c: z_exit, z_abort and
-- z_sranddev.
use lib_system_call.Base.{
  ℕ, ◌*◌, ◌%◌, ◌^◌, Bool, false, List, [], ◌∷◌, ◌++◌, Option, none, some, map, bit_xor, ◌==◌,
  if◌then◌else◌,
}
use lib_system_call.Str.{◌>>=◌}
use lib_system_call.Atexit.{AtexitFn, Registry, z_cxa_finalize}
use lib_system_call.Stdlib.{z_srand}

-- What happens at the end: the handlers of exit, the function at `z_cleanup`, a signal to a process,
-- and the request that ends the program.
pub data Ending : Type 0 where
  handler : AtexitFn → Ending
  cleanup : (func : ℕ) → Ending
  kill : (pid sig : ℕ) → Ending
  exit_request : (status : ℕ) → Ending

-- `z_cleanup` is null or the address of a function. The fuel and the handlers are those of
-- `z_cxa_finalize`, and what the function does is its own.
unfoldable pub z_exit :
    (calls : AtexitFn → List AtexitFn) (room : Bool)
    → (fuel z_cleanup status : ℕ) → Registry
    → Option (List Ending)
unfolding z_cxa_finalize
z_exit calls room fuel z_cleanup status s = do
  (run, s') ← z_cxa_finalize calls room fuel 0 s
  let last = if z_cleanup == 0 then [] else cleanup z_cleanup ∷ []
  some (map handler run ++ last ++ exit_request (status % 2 ^ 32) ∷ [])

-- SIGABRT is 6. Where the signal does not end the program it exits with 1.
unfoldable pub z_abort :
    (calls : AtexitFn → List AtexitFn) (room : Bool)
    → (fuel z_cleanup pid : ℕ) → Registry
    → Option (List Ending)
unfolding z_exit
z_abort calls room fuel z_cleanup pid s = do
  rest ← z_exit calls room fuel z_cleanup 1 s
  some (kill pid 6 ∷ rest)

-- The requests for a seed. `open_random` opens "/dev/random", and `read_seed` gives the number of
-- bytes read, or nothing for an error, with `next` as it leaves it; the time is in seconds and
-- microseconds.
pub record Seeds (σ : Type 0) : Type 0 where
  pub open_random : σ → Option ℕ × σ
  pub read_seed : (fd next : ℕ) → σ → (Option ℕ × ℕ) × σ
  pub close : (fd : ℕ) → σ → σ
  pub gettimeofday : σ → (ℕ × ℕ) × σ
  pub getpid : σ → ℕ × σ

module _ {σ : Type 0} (k : Seeds σ) where
  unfoldable pub seed_by_time : σ → ℕ × σ
  seed_by_time s =
      let ((tv_sec, tv_usec), s₁) = k.gettimeofday s in
      let (pid, s₂) = k.getpid s₁ in
      (z_srand (bit_xor (bit_xor (pid * 2 ^ 16 % 2 ^ 32) (tv_sec % 2 ^ 32)) (tv_usec % 2 ^ 32)), s₂)

  -- The new `next`. A short read may have changed it, and the time then takes its place.
  unfoldable pub z_sranddev : (next : ℕ) → σ → ℕ × σ
  unfolding seed_by_time
  z_sranddev next s =
      let (fd, s₁) = k.open_random s in
      elim fd [
        | none ↦ seed_by_time s₁
        | some f ↦
            (let ((got, next'), s₂) = k.read_seed f next s₁ in
              let s₃ = k.close f s₂ in
              let whole : Bool = elim got [ none ↦ false | some n ↦ n == 8 ] in
              if whole then (next', s₃) else seed_by_time s₃)
      ]
