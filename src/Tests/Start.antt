-- ===== src/Tests/Start.antt =====
-- A start with two arguments, one text of the environment and one of the kernel.
use lib_system_call.Base.{ℕ, ◌-◌, ◌/◌, ◌≡◌, [], ◌∷◌, ◌++◌, some, get_or, ltb, if◌then◌else◌, arith}
use lib_system_call.Start.{printed, z_init, z_fini, call_z_main, call_z_exit, zz_main}
use lib_system_call.Start.Order.{zz_main_lem}

-- The words from 800 on: the arguments, null, the environment, null, the kernel's strings, null.
abbrev start_words : ℕ → ℕ
start_words a =
    if ltb a 800 then 0 else get_or (11 ∷ 12 ∷ 0 ∷ 21 ∷ 0 ∷ 31 ∷ 0 ∷ []) ((a - 800) / 8) 0

zz_main_start :
    zz_main 5 start_words 2 800 4096 7
    ≡ some (
        (printed 21 ∷ [])
        ++ (printed 31 ∷ [])
        ++ z_init 824 840 4096
        ++ call_z_main 2 800 824 840 ∷ []
        ++ z_fini
        ++ call_z_exit 7 ∷ [])
zz_main_start =
    zz_main_lem 5 start_words 2 800 4096 7 (21 ∷ []) (31 ∷ []) (omega arith) (omega arith)
      (omega arith) (omega arith)
