-- ===== src/Thread/Join.antt =====
-- z_pthread_terminate, z_pthread_join and z_pthread_detach on one thread that is not the main
-- thread, access
-- by access: a step reads one shared field or writes one. `value_ptr` is not null, and the thread does not
-- itself join the joiner.
use lib_system_call.Base.{
  ℕ, zero, suc, ◌+◌, ◌≡◌, Bool, true, false, ◌&&◌, Option, none, some, ltb, if◌then◌else◌,
}
use lib_system_call.Thread.State.{
  open_gate, kport, dead, Prepost, entered, ctx_read, sema_next, joinable_next, detached_next,
  ctx_next, value_ptr_next, value_next, Exiting, running, gate_cleared, preposting, joiner_seen,
  keeping_joinable, list_left, woken, keeping, leaving_thread, terminated, exit_faulted, Joiner,
  outside, joinable_seen, tested, exited_seen, joinable_unset, alive_seen, gate_taken, waiting,
  leaving, ctx_kept, ctx_cleared, cleaning, joined, refused, join_faulted, Detacher, attached,
  joinable_found, gate_found, unset_joinable, detach_preposting, joining, released, invalid,
  detach_faulted, Shared,
}

-- An access to the structure is one to unmapped memory when it has been unmapped.
abbrev gone : Shared → Bool
gone s = ltb 0 s.freed

-- The joiner's context is on its stack, until the join returns.
abbrev ctx_alive : Joiner → Bool
ctx_alive outside = true
ctx_alive joinable_seen = true
ctx_alive tested = true
ctx_alive exited_seen = true
ctx_alive joinable_unset = true
ctx_alive alive_seen = true
ctx_alive gate_taken = true
ctx_alive waiting = true
ctx_alive leaving = true
ctx_alive ctx_kept = true
ctx_alive ctx_cleared = true
ctx_alive cleaning = true
ctx_alive joined = false
ctx_alive refused = false
ctx_alive join_faulted = true

-- What an access of `z_pthread_joiner_prepost_wake` leads to.
pub data Woken : Type 0 where
  going : Prepost → Shared → Woken
  returns : Shared → Woken
  faults : Woken

-- An access to the structure, and one through the pointer to the context.
abbrev on_thread : Shared → Woken → Woken
on_thread s next = if gone s then faults else next

abbrev on_ctx : (ctx : Bool) → Shared → Woken → Woken
on_ctx ctx s next = if ctx && ctx_alive s.joiner then next else faults

-- The next access of `z_pthread_joiner_prepost_wake`.
unfoldable pub z_pthread_joiner_prepost_wake : Prepost → Shared → Woken
z_pthread_joiner_prepost_wake entered s = on_thread s (going (ctx_read s.tl_join_ctx) s)
z_pthread_joiner_prepost_wake (ctx_read ctx) s =
    on_thread s (if s.tl_joinable then going (sema_next ctx) s else going (detached_next ctx) s)
z_pthread_joiner_prepost_wake (sema_next ctx) s = on_ctx ctx s (going joinable_next s)
z_pthread_joiner_prepost_wake joinable_next s =
    on_thread s (going value_ptr_next (record s { tl_joinable = false }))
z_pthread_joiner_prepost_wake (detached_next ctx) s =
    on_ctx ctx s (going ctx_next (record s { ctx_detached = true }))
z_pthread_joiner_prepost_wake ctx_next s =
    on_thread s (going value_ptr_next (record s { tl_join_ctx = false }))
z_pthread_joiner_prepost_wake value_ptr_next s = on_ctx true s (going value_next s)
z_pthread_joiner_prepost_wake value_next s =
    on_thread s (on_ctx true s (returns (record s { value_stored = true })))

-- An access of the exiting thread to its structure.
abbrev exit_access : Shared → Shared → Option Shared
exit_access s t = some (if gone s then record s { exiting = exit_faulted } else t)

-- The next access of `z_pthread_terminate`; the last step is `z_bsdthread_terminate`, which unmaps
-- the structure with the stack when it is not kept.
unfoldable pub terminate_step : Exiting → Shared → Option Shared
unfolding z_pthread_joiner_prepost_wake
terminate_step running s =
    exit_access s (record s { tl_exit_gate = open_gate; exiting = gate_cleared })
terminate_step gate_cleared s =
    exit_access s
      (record s { exiting = if s.tl_join_ctx then preposting entered else joiner_seen false })
terminate_step (preposting p) s = elim (z_pthread_joiner_prepost_wake p s) [
  | going p' t ↦ some (record t { exiting = preposting p' })
  | returns t ↦ some (record t { exiting = joiner_seen true })
  | faults ↦ some (record s { exiting = exit_faulted })
]
terminate_step (joiner_seen needs_wake) s = exit_access s (record s {
  exiting = if s.tl_joinable then keeping_joinable needs_wake else list_left needs_wake false;
})
terminate_step (keeping_joinable needs_wake) s =
    exit_access s (record s { tl_joiner_cleans_up = true; exiting = list_left needs_wake true })
terminate_step (list_left needs_wake keep) s =
    some (record s { exiting = if needs_wake then woken keep else leaving_thread keep })
terminate_step (woken keep) s =
    exit_access s (record s { exiting = if s.tl_join_ctx then keeping else leaving_thread keep })
terminate_step keeping s =
    exit_access s (record s { tl_joiner_cleans_up = true; exiting = leaving_thread true })
terminate_step (leaving_thread keep) s =
    if keep
    then some (record s { exiting = terminated })
    else some (record s { exiting = terminated; freed = s.freed + 1 })
terminate_step terminated s = none
terminate_step exit_faulted s = none

-- An access of the joiner to the structure.
abbrev join_access : Shared → Shared → Option Shared
join_access s t = some (if gone s then record s { joiner = join_faulted } else t)

-- The next access of `z_pthread_join`. In `waiting` the gate is read again after each return of
-- `z_ulock_wait`; while it holds the joiner's port nothing changes. A thread does not join itself.
-- At `leaving` the joiner reads its own context. `cleaning` is `z_pthread_deallocate`.
unfoldable pub join_step : Joiner → Shared → Option Shared
join_step outside s =
    join_access s (record s { joiner = if s.tl_joinable then joinable_seen else refused })
join_step joinable_seen s =
    join_access s (record s { joiner = if s.tl_join_ctx then refused else tested })
join_step tested s = elim (s.tl_exit_gate) [
  | dead ↦ join_access s (record s { joiner = exited_seen })
  | open_gate ↦ join_access s (record s { joiner = alive_seen })
  | kport ↦ join_access s (record s { joiner = alive_seen })
]
join_step exited_seen s = join_access s (record s { tl_joinable = false; joiner = joinable_unset })
join_step joinable_unset s = join_access s (record s { value_stored = true; joiner = cleaning })
join_step alive_seen s = join_access s (record s { tl_exit_gate = kport; joiner = gate_taken })
join_step gate_taken s = join_access s (record s { tl_join_ctx = true; joiner = waiting })
join_step waiting s = elim (s.tl_exit_gate) [
  | dead ↦ join_access s (record s { joiner = leaving })
  | open_gate ↦ join_access s (record s { joiner = leaving })
  | kport ↦ if gone s then some (record s { joiner = join_faulted }) else none
]
join_step leaving s = some (record s { joiner = if s.ctx_detached then joined else ctx_kept })
join_step ctx_kept s = join_access s (record s { tl_join_ctx = false; joiner = ctx_cleared })
join_step ctx_cleared s =
    join_access s (record s { joiner = if s.tl_joiner_cleans_up then cleaning else joined })
join_step cleaning s = some (record s { freed = s.freed + 1; joiner = joined })
join_step joined s = none
join_step refused s = none
join_step join_faulted s = none

-- An access of the detaching thread to the structure.
abbrev detach_access : Shared → Shared → Option Shared
detach_access s t = some (if gone s then record s { detacher = detach_faulted } else t)

-- The next access of `z_pthread_detach`. A thread that has exited is joined by the caller; the wake
-- at the end changes nothing here.
unfoldable pub detach_step : Detacher → Shared → Option Shared
unfolding z_pthread_joiner_prepost_wake
detach_step attached s =
    detach_access s (record s { detacher = if s.tl_joinable then joinable_found else invalid })
detach_step joinable_found s = elim (s.tl_exit_gate) [
  | dead ↦ detach_access s (record s { detacher = joining })
  | open_gate ↦ detach_access s (record s { detacher = gate_found })
  | kport ↦ detach_access s (record s { detacher = gate_found })
]
detach_step gate_found s =
    detach_access s (record s { tl_joinable = false; detacher = unset_joinable })
detach_step unset_joinable s =
    detach_access s
      (record s { detacher = if s.tl_join_ctx then detach_preposting entered else released })
detach_step (detach_preposting p) s = elim (z_pthread_joiner_prepost_wake p s) [
  | going p' t ↦ some (record t { detacher = detach_preposting p' })
  | returns t ↦ some (record t { detacher = released })
  | faults ↦ some (record s { detacher = detach_faulted })
]
detach_step joining s = none
detach_step released s = none
detach_step invalid s = none
detach_step detach_faulted s = none

-- Any of the three goes on.
pub data Step (s t : Shared) : Type 0 where
  exit : terminate_step s.exiting s ≡ some t → Step s t
  join : join_step s.joiner s ≡ some t → Step s t
  detach : detach_step s.detacher s ≡ some t → Step s t

pub data Reach (s : Shared) : Shared → Type 0 where
  here : Reach s s
  next : {t u : Shared} → Reach s t → Step t u → Reach s u

-- One of them to its end or to its wait, with no access of the others in between; the steps left
-- bound its accesses.
unfoldable pub z_pthread_terminate : ℕ → Shared → Shared
unfolding terminate_step
z_pthread_terminate zero s = s
z_pthread_terminate (suc left) s = elim (terminate_step s.exiting s) [
  | none ↦ s
  | some t ↦ z_pthread_terminate left t
]

unfoldable pub z_pthread_join : ℕ → Shared → Shared
unfolding join_step
z_pthread_join zero s = s
z_pthread_join (suc left) s = elim (join_step s.joiner s) [
  | none ↦ s
  | some t ↦ z_pthread_join left t
]
