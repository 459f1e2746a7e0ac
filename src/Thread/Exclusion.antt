-- ===== src/Thread/Exclusion.antt =====
-- What holds of a thread's end under every interleaving of its exit, a join and a detach.
use lib_system_call.Base.{◌≤◌, ◌≡◌, ◌≢◌, Bool, true, false, some, if◌then◌else◌, arith, refl}
use lib_system_call.Thread.State.{
  dead, entered, ctx_read, sema_next, joinable_next, detached_next, ctx_next, value_ptr_next,
  value_next, Exiting, running, gate_cleared, preposting, joiner_seen, keeping_joinable, list_left,
  woken, keeping, leaving_thread, terminated, exit_faulted, Joiner, outside, joinable_seen, tested,
  exited_seen, joinable_unset, alive_seen, gate_taken, waiting, leaving, ctx_kept, ctx_cleared,
  cleaning, joined, refused, join_faulted, Detacher, attached, joinable_found, gate_found,
  unset_joinable, detach_preposting, joining, released, invalid, detach_faulted, Shared, started,
}
use lib_system_call.Thread.Join.{
  z_pthread_joiner_prepost_wake, terminate_step, join_step, detach_step, Step, exit, join, detach,
  Reach, here, next,
}

-- Whether the exiting thread leaves the structure to the joiner, so far.
abbrev may_free : Exiting → Bool
may_free running = true
may_free gate_cleared = true
may_free (preposting p) = true
may_free (joiner_seen needs_wake) = true
may_free (keeping_joinable needs_wake) = true
may_free (list_left needs_wake keep) = if keep then false else true
may_free (woken keep) = if keep then false else true
may_free keeping = false
may_free (leaving_thread keep) = if keep then false else true
may_free terminated = false
may_free exit_faulted = false

-- The joiner unmaps the structure only behind `tl_joiner_cleans_up`, and the exiting thread only
-- when it has not set that.
abbrev IsSafe : Shared → Type 0
IsSafe s =
    (s.tl_exit_gate ≢ dead)
    × (s.tl_joiner_cleans_up ≡ true → may_free s.exiting ≡ false)
    × (s.joiner ≡ cleaning → s.tl_joiner_cleans_up ≡ true)
    × (s.tl_joiner_cleans_up ≡ false → s.exiting ≢ terminated → s.freed ≡ 0)
    × (s.tl_joiner_cleans_up ≡ true → s.joiner ≢ joined → s.freed ≡ 0)
    × (s.freed ≤ 1)
    × (s.joiner ≢ exited_seen)
    × (s.joiner ≢ joinable_unset)

terminate-IsSafe :
    (e : Exiting) (s t : Shared) → s.exiting ≡ e → terminate_step e s ≡ some t → IsSafe s → IsSafe t
unfolding terminate_step z_pthread_joiner_prepost_wake
terminate-IsSafe running s t at h safe = grind arith
terminate-IsSafe gate_cleared s t at h safe = grind arith
terminate-IsSafe (preposting entered) s t at h safe = grind arith
terminate-IsSafe (preposting (ctx_read ctx)) s t at h safe = grind arith
terminate-IsSafe (preposting (sema_next ctx)) s t at h safe = grind arith
terminate-IsSafe (preposting joinable_next) s t at h safe = grind arith
terminate-IsSafe (preposting (detached_next ctx)) s t at h safe = grind arith
terminate-IsSafe (preposting ctx_next) s t at h safe = grind arith
terminate-IsSafe (preposting value_ptr_next) s t at h safe = grind arith
terminate-IsSafe (preposting value_next) s t at h safe = grind arith
terminate-IsSafe (joiner_seen w) s t at h safe = grind arith
terminate-IsSafe (keeping_joinable w) s t at h safe = grind arith
terminate-IsSafe (list_left w k) s t at h safe = grind arith
terminate-IsSafe (woken k) s t at h safe = grind arith
terminate-IsSafe keeping s t at h safe = grind arith
terminate-IsSafe (leaving_thread k) s t at h safe = grind arith
terminate-IsSafe terminated s t at h safe = cc
terminate-IsSafe exit_faulted s t at h safe = cc

join-IsSafe :
    (j : Joiner) (s t : Shared) → s.joiner ≡ j → join_step j s ≡ some t → IsSafe s → IsSafe t
unfolding join_step z_pthread_joiner_prepost_wake
join-IsSafe outside s t at h safe = grind arith
join-IsSafe joinable_seen s t at h safe = grind arith
join-IsSafe tested s t at h safe = grind arith
join-IsSafe exited_seen s t at h safe = grind arith
join-IsSafe joinable_unset s t at h safe = grind arith
join-IsSafe alive_seen s t at h safe = grind arith
join-IsSafe gate_taken s t at h safe = grind arith
join-IsSafe waiting s t at h safe = grind arith
join-IsSafe leaving s t at h safe = grind arith
join-IsSafe ctx_kept s t at h safe = grind arith
join-IsSafe ctx_cleared s t at h safe = grind arith
join-IsSafe cleaning s t at h safe = grind arith
join-IsSafe joined s t at h safe = cc
join-IsSafe refused s t at h safe = cc
join-IsSafe join_faulted s t at h safe = cc

detach-IsSafe :
    (d : Detacher) (s t : Shared) → s.detacher ≡ d → detach_step d s ≡ some t → IsSafe s → IsSafe t
unfolding detach_step z_pthread_joiner_prepost_wake
detach-IsSafe attached s t at h safe = grind arith
detach-IsSafe joinable_found s t at h safe = grind arith
detach-IsSafe gate_found s t at h safe = grind arith
detach-IsSafe unset_joinable s t at h safe = grind arith
detach-IsSafe (detach_preposting entered) s t at h safe = grind arith
detach-IsSafe (detach_preposting (ctx_read ctx)) s t at h safe = grind arith
detach-IsSafe (detach_preposting (sema_next ctx)) s t at h safe = grind arith
detach-IsSafe (detach_preposting joinable_next) s t at h safe = grind arith
detach-IsSafe (detach_preposting (detached_next ctx)) s t at h safe = grind arith
detach-IsSafe (detach_preposting ctx_next) s t at h safe = grind arith
detach-IsSafe (detach_preposting value_ptr_next) s t at h safe = grind arith
detach-IsSafe (detach_preposting value_next) s t at h safe = grind arith
detach-IsSafe joining s t at h safe = cc
detach-IsSafe released s t at h safe = cc
detach-IsSafe invalid s t at h safe = cc
detach-IsSafe detach_faulted s t at h safe = cc

Step-IsSafe : (s t : Shared) → Step s t → IsSafe s → IsSafe t
Step-IsSafe s t (exit h) = terminate-IsSafe s.exiting s t refl h
Step-IsSafe s t (join h) = join-IsSafe s.joiner s t refl h
Step-IsSafe s t (detach h) = detach-IsSafe s.detacher s t refl h

pub Reach-IsSafe : (joinable : Bool) (s : Shared) → Reach (started joinable) s → IsSafe s
Reach-IsSafe joinable s here =
    ((λ e. cc), (λ e. cc), (λ e. cc), (λ e f. refl), (λ e f. refl), omega arith, (λ e. cc), λ e. cc)
Reach-IsSafe joinable s (next {t} before step) =
    Step-IsSafe t s step (Reach-IsSafe joinable t before)
