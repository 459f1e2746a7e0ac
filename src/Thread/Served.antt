-- ===== src/Thread/Served.antt =====
-- A joiner that waits when the thread begins to terminate.
use lib_system_call.Base.{◌≡◌, ◌≢◌, Bool, true, false, some, arith, refl}
use lib_system_call.Thread.State.{
  open_gate, entered, ctx_read, sema_next, joinable_next, detached_next, ctx_next, value_ptr_next,
  value_next, Exiting, running, gate_cleared, preposting, joiner_seen, keeping_joinable, list_left,
  woken, keeping, leaving_thread, terminated, exit_faulted, Joiner, outside, joinable_seen, tested,
  exited_seen, joinable_unset, alive_seen, gate_taken, waiting, leaving, ctx_kept, ctx_cleared,
  cleaning, joined, refused, join_faulted, Detacher, attached, joinable_found, gate_found,
  unset_joinable, detach_preposting, joining, released, invalid, detach_faulted, Shared,
}
use lib_system_call.Thread.Join.{
  z_pthread_joiner_prepost_wake, terminate_step, join_step, detach_step, exit, join, detach, Reach,
  here, next,
}

-- Whether a joiner is at its wait or behind it.
unfoldable pub served : Joiner → Bool
served outside = false
served joinable_seen = false
served tested = false
served exited_seen = false
served joinable_unset = false
served alive_seen = false
served gate_taken = false
served waiting = true
served leaving = true
served ctx_kept = true
served ctx_cleared = true
served cleaning = true
served joined = true
served refused = false
served join_faulted = true

-- The gate is open for the joiner, and only an unmapped structure has stopped it.
abbrev pub IsServed : Shared → Type 0
IsServed s =
    (s.tl_exit_gate ≡ open_gate)
    × (served s.joiner ≡ true)
    × (s.joiner ≡ join_faulted → s.freed ≢ 0)

terminate-IsServed :
    (e : Exiting) (s t : Shared)
    → s.exiting ≡ e
    → terminate_step e s ≡ some t
    → IsServed s
    → IsServed t
unfolding terminate_step z_pthread_joiner_prepost_wake
terminate-IsServed running s t at h ready = grind arith
terminate-IsServed gate_cleared s t at h ready = grind arith
terminate-IsServed (preposting entered) s t at h ready = grind arith
terminate-IsServed (preposting (ctx_read ctx)) s t at h ready = grind arith
terminate-IsServed (preposting (sema_next ctx)) s t at h ready = grind arith
terminate-IsServed (preposting joinable_next) s t at h ready = grind arith
terminate-IsServed (preposting (detached_next ctx)) s t at h ready = grind arith
terminate-IsServed (preposting ctx_next) s t at h ready = grind arith
terminate-IsServed (preposting value_ptr_next) s t at h ready = grind arith
terminate-IsServed (preposting value_next) s t at h ready = grind arith
terminate-IsServed (joiner_seen w) s t at h ready = grind arith
terminate-IsServed (keeping_joinable w) s t at h ready = grind arith
terminate-IsServed (list_left w k) s t at h ready = grind arith
terminate-IsServed (woken k) s t at h ready = grind arith
terminate-IsServed keeping s t at h ready = grind arith
terminate-IsServed (leaving_thread k) s t at h ready = grind arith
terminate-IsServed terminated s t at h ready = cc
terminate-IsServed exit_faulted s t at h ready = cc

pub join-IsServed :
    (j : Joiner) (s t : Shared) → s.joiner ≡ j → join_step j s ≡ some t → IsServed s → IsServed t
unfolding join_step served
join-IsServed outside s t at h ready = grind arith
join-IsServed joinable_seen s t at h ready = grind arith
join-IsServed tested s t at h ready = grind arith
join-IsServed exited_seen s t at h ready = grind arith
join-IsServed joinable_unset s t at h ready = grind arith
join-IsServed alive_seen s t at h ready = grind arith
join-IsServed gate_taken s t at h ready = grind arith
join-IsServed waiting s t at h ready = grind arith
join-IsServed leaving s t at h ready = grind arith
join-IsServed ctx_kept s t at h ready = grind arith
join-IsServed ctx_cleared s t at h ready = grind arith
join-IsServed cleaning s t at h ready = grind arith
join-IsServed joined s t at h ready = cc
join-IsServed refused s t at h ready = cc
join-IsServed join_faulted s t at h ready = cc

detach-IsServed :
    (d : Detacher) (s t : Shared)
    → s.detacher ≡ d
    → detach_step d s ≡ some t
    → IsServed s
    → IsServed t
unfolding detach_step z_pthread_joiner_prepost_wake
detach-IsServed attached s t at h ready = grind arith
detach-IsServed joinable_found s t at h ready = grind arith
detach-IsServed gate_found s t at h ready = grind arith
detach-IsServed unset_joinable s t at h ready = grind arith
detach-IsServed (detach_preposting entered) s t at h ready = grind arith
detach-IsServed (detach_preposting (ctx_read ctx)) s t at h ready = grind arith
detach-IsServed (detach_preposting (sema_next ctx)) s t at h ready = grind arith
detach-IsServed (detach_preposting joinable_next) s t at h ready = grind arith
detach-IsServed (detach_preposting (detached_next ctx)) s t at h ready = grind arith
detach-IsServed (detach_preposting ctx_next) s t at h ready = grind arith
detach-IsServed (detach_preposting value_ptr_next) s t at h ready = grind arith
detach-IsServed (detach_preposting value_next) s t at h ready = grind arith
detach-IsServed joining s t at h ready = cc
detach-IsServed released s t at h ready = cc
detach-IsServed invalid s t at h ready = cc
detach-IsServed detach_faulted s t at h ready = cc

pub Reach-IsServed : (s t : Shared) → IsServed s → Reach s t → IsServed t
Reach-IsServed s t ready here = ready
Reach-IsServed s t ready (next {t = m} before (exit h)) =
    terminate-IsServed m.exiting m t refl h (Reach-IsServed s m ready before)
Reach-IsServed s t ready (next {t = m} before (join h)) =
    join-IsServed m.joiner m t refl h (Reach-IsServed s m ready before)
Reach-IsServed s t ready (next {t = m} before (detach h)) =
    detach-IsServed m.detacher m t refl h (Reach-IsServed s m ready before)
