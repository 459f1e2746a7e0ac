-- ===== src/Stdlib/Random.antt =====
-- The generator of random numbers.
use lib_system_call.Base.{ℕ, ◌-◌, ◌*◌, ◌^◌, ◌%◌, ◌<◌, ◌≡◌, arith}
use lib_system_call.Stdlib.{z_do_rand}

-- From a state below 2 ^ 31 - 1 and above 0 the generator of Park and Miller makes the next one, 16807 times
-- the state modulo 2 ^ 31 - 1, without overflow, and returns it.
z_do_rand_lem :
    (ctx : ℕ)
    → 0 < ctx
    → ctx < 2 ^ 31 - 1
    → z_do_rand ctx ≡ (16807 * ctx % (2 ^ 31 - 1), 16807 * ctx % (2 ^ 31 - 1))
unfolding z_do_rand
z_do_rand_lem ctx pos h = ground arith
