-- ===== src/Thread/State.antt =====
-- What z_pthread_terminate, z_pthread_join and z_pthread_detach share: the structure of one thread
-- that is not the main thread, the context of one joiner, and where the three are. A thread that
-- follows a null pointer, or a pointer to what is gone, is at `exit_faulted`, `join_faulted` or
-- `detach_faulted` and does nothing more.
use lib_system_call.Base.{ℕ, Bool, false}

-- `tl_exit_gate`: null, the port of the thread for a joiner that waits, or all ones.
pub data Gate : Type 0 where
  open_gate : Gate
  kport : Gate
  dead : Gate

-- Where a caller of `z_pthread_joiner_prepost_wake` is, between its accesses. `ctx` says whether the
-- pointer that it has read is not null.
pub data Prepost : Type 0 where
  entered : Prepost
  ctx_read : (ctx : Bool) → Prepost
  sema_next : (ctx : Bool) → Prepost
  joinable_next : Prepost
  detached_next : (ctx : Bool) → Prepost
  ctx_next : Prepost
  value_ptr_next : Prepost
  value_next : Prepost

-- Where the exiting thread is in `z_pthread_terminate`. `needs_wake` and `keep_thread_struct` are
-- its local variables.
pub data Exiting : Type 0 where
  running : Exiting
  gate_cleared : Exiting
  preposting : Prepost → Exiting
  joiner_seen : (needs_wake : Bool) → Exiting
  keeping_joinable : (needs_wake : Bool) → Exiting
  list_left : (needs_wake keep : Bool) → Exiting
  woken : (keep : Bool) → Exiting
  keeping : Exiting
  leaving_thread : (keep : Bool) → Exiting
  terminated : Exiting
  exit_faulted : Exiting

-- Where the joiner is in `z_pthread_join_internal`, from its tests on, and in
-- `z_pthread_joiner_wait`.
pub data Joiner : Type 0 where
  outside : Joiner
  joinable_seen : Joiner
  tested : Joiner
  exited_seen : Joiner
  joinable_unset : Joiner
  alive_seen : Joiner
  gate_taken : Joiner
  waiting : Joiner
  leaving : Joiner
  ctx_kept : Joiner
  ctx_cleared : Joiner
  cleaning : Joiner
  joined : Joiner
  refused : Joiner
  join_faulted : Joiner

-- Where a caller of `z_pthread_detach` is.
pub data Detacher : Type 0 where
  attached : Detacher
  joinable_found : Detacher
  gate_found : Detacher
  unset_joinable : Detacher
  detach_preposting : Prepost → Detacher
  joining : Detacher
  released : Detacher
  invalid : Detacher
  detach_faulted : Detacher

-- The fields of the thread's structure that the three share, those of the joiner's context, and
-- how often the structure has been unmapped. `tl_join_ctx` and `tl_exit_gate` refer to this joiner.
pub record Shared : Type 0 where
  pub tl_joinable : Bool
  pub tl_joiner_cleans_up : Bool
  pub tl_join_ctx : Bool
  pub tl_exit_gate : Gate
  pub ctx_detached : Bool
  pub value_stored : Bool
  pub freed : ℕ
  pub exiting : Exiting
  pub joiner : Joiner
  pub detacher : Detacher

-- A new thread, `joinable` or not.
abbrev pub started : Bool → Shared
started joinable = record {
  tl_joinable = joinable;
  tl_joiner_cleans_up = false;
  tl_join_ctx = false;
  tl_exit_gate = open_gate;
  ctx_detached = false;
  value_stored = false;
  freed = 0;
  exiting = running;
  joiner = outside;
  detacher = attached;
}
