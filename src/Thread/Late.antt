-- ===== src/Thread/Late.antt =====
-- A join that begins before the thread's exit and one that begins after it.
use lib_system_call.Base.{◌≡◌, ◌≢◌, Bool, true, false, some, arith, refl}
use lib_system_call.Thread.State.{
  Gate, open_gate, kport, dead, entered, ctx_read, sema_next, joinable_next, detached_next,
  ctx_next, value_ptr_next, value_next, Exiting, running, gate_cleared, preposting, joiner_seen,
  keeping_joinable, list_left, woken, keeping, leaving_thread, terminated, exit_faulted, Joiner,
  outside, joinable_seen, tested, exited_seen, joinable_unset, alive_seen, gate_taken, waiting,
  leaving, ctx_kept, ctx_cleared, cleaning, joined, refused, join_faulted, Detacher, attached,
  joinable_found, gate_found, unset_joinable, detach_preposting, joining, released, invalid,
  detach_faulted, Shared, started,
}
use lib_system_call.Thread.Join.{
  z_pthread_joiner_prepost_wake, terminate_step, join_step, detach_step, Step, exit, join, detach,
  Reach, here, next,
}
use lib_system_call.Thread.Exclusion.{Reach-IsSafe}

is_alive : Gate → Bool
is_alive open_gate = true
is_alive kport = true
is_alive dead = false

is_kport : Gate → Bool
is_kport open_gate = false
is_kport kport = true
is_kport dead = false

-- Where a joiner is that came too late, with the gate that it sees.
stuck : Joiner → Gate → Bool
stuck outside g = is_alive g
stuck joinable_seen g = is_alive g
stuck tested g = is_alive g
stuck exited_seen g = false
stuck joinable_unset g = false
stuck alive_seen g = is_alive g
stuck gate_taken g = is_kport g
stuck waiting g = is_kport g
stuck leaving g = false
stuck ctx_kept g = false
stuck ctx_cleared g = false
stuck cleaning g = false
stuck joined g = false
stuck refused g = true
stuck join_faulted g = true

abbrev IsLate : Shared → Type 0
IsLate s = (s.exiting ≢ running) × (stuck s.joiner s.tl_exit_gate ≡ true)

terminate-IsLate :
    (e : Exiting) (s t : Shared)
    → s.exiting ≡ e
    → e ≢ running
    → terminate_step e s ≡ some t
    → (t.exiting ≢ running) × (t.joiner ≡ s.joiner) × (t.tl_exit_gate ≡ s.tl_exit_gate)
unfolding terminate_step z_pthread_joiner_prepost_wake
terminate-IsLate running s t at late h = absurd (late refl)
terminate-IsLate gate_cleared s t at late h = grind arith
terminate-IsLate (preposting entered) s t at late h = grind arith
terminate-IsLate (preposting (ctx_read ctx)) s t at late h = grind arith
terminate-IsLate (preposting (sema_next ctx)) s t at late h = grind arith
terminate-IsLate (preposting joinable_next) s t at late h = grind arith
terminate-IsLate (preposting (detached_next ctx)) s t at late h = grind arith
terminate-IsLate (preposting ctx_next) s t at late h = grind arith
terminate-IsLate (preposting value_ptr_next) s t at late h = grind arith
terminate-IsLate (preposting value_next) s t at late h = grind arith
terminate-IsLate (joiner_seen w) s t at late h = grind arith
terminate-IsLate (keeping_joinable w) s t at late h = grind arith
terminate-IsLate (list_left w k) s t at late h = grind arith
terminate-IsLate (woken k) s t at late h = grind arith
terminate-IsLate keeping s t at late h = grind arith
terminate-IsLate (leaving_thread k) s t at late h = grind arith
terminate-IsLate terminated s t at late h = cc
terminate-IsLate exit_faulted s t at late h = cc

join-IsLate :
    (j : Joiner) (s t : Shared)
    → s.joiner ≡ j
    → stuck j s.tl_exit_gate ≡ true
    → join_step j s ≡ some t
    → (t.exiting ≡ s.exiting) × (stuck t.joiner t.tl_exit_gate ≡ true)
unfolding join_step stuck is_alive is_kport
join-IsLate outside s t at late h = grind arith
join-IsLate joinable_seen s t at late h = grind arith
join-IsLate tested s t at late h = grind arith
join-IsLate exited_seen s t at late h = grind arith
join-IsLate joinable_unset s t at late h = grind arith
join-IsLate alive_seen s t at late h = grind arith
join-IsLate gate_taken s t at late h = grind arith
join-IsLate waiting s t at late h = grind arith
join-IsLate leaving s t at late h = grind arith
join-IsLate ctx_kept s t at late h = grind arith
join-IsLate ctx_cleared s t at late h = grind arith
join-IsLate cleaning s t at late h = grind arith
join-IsLate joined s t at late h = grind arith
join-IsLate refused s t at late h = grind arith
join-IsLate join_faulted s t at late h = grind arith

detach-IsLate :
    (d : Detacher) (s t : Shared)
    → detach_step d s ≡ some t
    → (t.exiting ≡ s.exiting) × (t.joiner ≡ s.joiner) × (t.tl_exit_gate ≡ s.tl_exit_gate)
unfolding detach_step z_pthread_joiner_prepost_wake
detach-IsLate attached s t h = grind arith
detach-IsLate joinable_found s t h = grind arith
detach-IsLate gate_found s t h = grind arith
detach-IsLate unset_joinable s t h = grind arith
detach-IsLate (detach_preposting entered) s t h = grind arith
detach-IsLate (detach_preposting (ctx_read ctx)) s t h = grind arith
detach-IsLate (detach_preposting (sema_next ctx)) s t h = grind arith
detach-IsLate (detach_preposting joinable_next) s t h = grind arith
detach-IsLate (detach_preposting (detached_next ctx)) s t h = grind arith
detach-IsLate (detach_preposting ctx_next) s t h = grind arith
detach-IsLate (detach_preposting value_ptr_next) s t h = grind arith
detach-IsLate (detach_preposting value_next) s t h = grind arith
detach-IsLate joining s t h = cc
detach-IsLate released s t h = cc
detach-IsLate invalid s t h = cc
detach-IsLate detach_faulted s t h = cc

Step-IsLate : (s t : Shared) → Step s t → IsLate s → IsLate t
Step-IsLate s t (exit h) (late, waits) =
    let (late', same, gate) = terminate-IsLate s.exiting s t refl late h in
    (late', rw (same, gate) waits)
Step-IsLate s t (join h) (late, waits) =
    let (same, waits') = join-IsLate s.joiner s t refl waits h in (rw same late, waits')
Step-IsLate s t (detach h) (late, waits) =
    let (same, joiner, gate) = detach-IsLate s.detacher s t h in
    (rw same late, rw (joiner, gate) waits)

Reach-IsLate : (s t : Shared) → IsLate s → Reach s t → IsLate t
Reach-IsLate s t late here = late
Reach-IsLate s t late (next {t = m} before step) =
    Step-IsLate m t step (Reach-IsLate s m late before)

alive : (g : Gate) → g ≢ dead → is_alive g ≡ true
unfolding is_alive
alive open_gate h = refl
alive kport h = refl
alive dead h = absurd (h refl)

not_joined : (j : Joiner) (g : Gate) → stuck j g ≡ true → j ≢ joined
unfolding stuck
not_joined j g waits e = let no : false ≡ true = rw e at waits in cc

-- A join that begins after the thread has begun to terminate never returns with success, whatever
-- the interleaving of the accesses: it is refused with EINVAL, or it waits for a gate that nobody
-- opens any more, or its access meets the structure that has been unmapped.
pub z_pthread_join_late :
    (joinable : Bool) (s t : Shared)
    → Reach (started joinable) s
    → s.exiting ≢ running
    → s.joiner ≡ outside
    → Reach s t
    → t.joiner ≢ joined
unfolding stuck
z_pthread_join_late joinable s t reached late begins later =
    let gate : s.tl_exit_gate ≢ dead = (Reach-IsSafe joinable s reached).0 in
    let start : stuck s.joiner s.tl_exit_gate ≡ true = rw begins (alive s.tl_exit_gate gate) in
    not_joined t.joiner t.tl_exit_gate (Reach-IsLate s t (late, start) later).1
