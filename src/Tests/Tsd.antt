-- ===== src/Tests/Tsd.antt =====
-- Runs of thread-specific data, and its theorems at concrete inputs.
use lib_system_call.Base.{◌-◌, ◌^◌, ◌≡◌, refl, arith, ◌==◌, ◌||◌, if◌then◌else◌}
use lib_system_call.Tsd.{Tsd, z_pthread_key_create, z_pthread_tsd_cleanup_new}
use lib_system_call.Tsd.Keys.{Created, z_pthread_key_create_lem}
use lib_system_call.Tsd.Cleanup.{z_pthread_tsd_cleanup_new_lem}

-- Keys 256 and 257 are taken, and 257 holds a value.
abbrev two_keys : Tsd
two_keys = record {
  keys = λ k. if k == 256 || k == 257 then 2 ^ 64 - 1 - 4096 else 0;
  tsd = λ k. if k == 257 then 7 else 0;
  max_tsd_key = 257;
}

created_third : (z_pthread_key_create 4096 two_keys).0 ≡ (0, 258)
unfolding z_pthread_key_create
created_third = refl

z_pthread_key_create_lem_example :
    Created 512 256 4096 two_keys (z_pthread_key_create 4096 two_keys)
z_pthread_key_create_lem_example = z_pthread_key_create_lem 4096 two_keys

z_pthread_tsd_cleanup_new_lem_example :
    (z_pthread_tsd_cleanup_new (λ d v t. t) two_keys).tsd 257 ≡ 0
z_pthread_tsd_cleanup_new_lem_example =
    (z_pthread_tsd_cleanup_new_lem (λ d v t. t) (λ d v t. refl) two_keys (omega arith)).2 257
