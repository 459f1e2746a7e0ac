-- ===== src/Tests/Atexit.antt =====
-- Runs of the exit handlers, and their theorems at concrete inputs.
use lib_system_call.Base.{ℕ, ◌≡◌, refl, arith, true, List, [], ◌∷◌, some, ◌==◌, if◌then◌else◌}
use lib_system_call.Atexit.{std, AtexitFn, Registry, eligible, z_cxa_finalize_ranges}
use lib_system_call.Atexit.Scan.{pending, pending_slots}
use lib_system_call.Atexit.Order.{drain, z_cxa_finalize_ranges-drain, z_cxa_finalize_ranges-pending}

abbrev handler : ℕ → AtexitFn
handler p = record { fn_type = std; fn_ptr = p; fn_arg = 0; fn_dso = 0 }

abbrev two_handlers : Registry
two_handlers = record { z_atexit = (handler 16 ∷ handler 32 ∷ []) ∷ []; new_registration = true }

-- The handler at 32 registers one at 48.
abbrev registering : AtexitFn → List AtexitFn
registering f = if f.fn_ptr == 32 then handler 48 ∷ [] else []

z_cxa_finalize_ranges-drain_example :
    (s' : Registry) × (z_cxa_finalize_ranges registering true 5 [] two_handlers
      ≡ some (handler 32 ∷ handler 48 ∷ handler 16 ∷ [], s'))
    × (pending [] s'.z_atexit ≡ [])
unfolding drain pending pending_slots eligible
z_cxa_finalize_ranges-drain_example =
    z_cxa_finalize_ranges-drain registering [] 5 two_handlers
      (handler 32 ∷ handler 48 ∷ handler 16 ∷ []) (λ e. cc) refl

z_cxa_finalize_ranges-pending_example :
    (s' : Registry) × (z_cxa_finalize_ranges (λ f. []) true 3 [] two_handlers
      ≡ some (pending [] two_handlers.z_atexit, s'))
    × (pending [] s'.z_atexit ≡ [])
unfolding pending pending_slots eligible
z_cxa_finalize_ranges-pending_example =
    z_cxa_finalize_ranges-pending [] 3 two_handlers (λ e. cc) (omega arith)
