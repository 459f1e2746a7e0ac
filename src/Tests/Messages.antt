-- ===== src/Tests/Messages.antt =====
-- The texts at a concrete memory.
use lib_system_call.Base.{◌-◌, ◌≡◌, refl, arith, ltb, some, get_or, if◌then◌else◌}
use lib_system_call.Memory.{Mem, IsStr}
use lib_system_call.Messages.{codes, erange, z_strerror_r}
use lib_system_call.Messages.Known.{z_strerror_r_known}

-- The text is at address 100, the buffer at 4096.
abbrev texts : Mem
texts a = if ltb a 100 then 0 else get_or (codes "No such process") (a - 100) 0

z_strerror_r_known_example :
    (m' : Mem) × (z_strerror_r (λ i. 100) 0 8192 5 texts 3 4096 64 ≡ some (erange, m'))
    × IsStr m' 4096 (codes "No such process")
z_strerror_r_known_example =
    z_strerror_r_known (λ i. 100) 0 8192 5 texts 3 4096 64 "No such process" refl (omega arith)
      (omega arith) (omega arith) (omega arith) (omega arith) (omega arith)
