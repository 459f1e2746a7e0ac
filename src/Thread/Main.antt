-- ===== src/Thread/Main.antt =====
-- The main thread and the registration with the kernel: z_pthread_init and what it calls in
-- z_pthread.c.
use lib_system_call.Base.{
  ℕ, ◌*◌, ◌^◌, Bool, true, false, ◌&&◌, Option, none, some, ltb, ◌!=◌, bit_and, if◌then◌else◌,
}
use lib_system_call.Thread.Create.{Attr, attr_sig, Thread, z_pthread_struct_init}

-- `_main_thread`, with the fields that only its start sets.
pub record MainThread : Type 0 where
  pub thread : Thread
  pub thread_id : ℕ
  pub mach_thread_self : ℕ
  pub mig_reply : ℕ
  pub mach_special_reply : ℕ
  pub semaphore_cache : ℕ
  pub cleanup_stack : ℕ
  pub tl_join_ctx : ℕ
  pub tl_exit_gate : ℕ

-- `struct z_pthread_registration_data`.
pub record Registration : Type 0 where
  pub version : ℕ
  pub dispatch_queue_offset : ℕ
  pub main_qos : ℕ
  pub tsd_offset : ℕ
  pub return_to_kernel_offset : ℕ
  pub mach_thread_self_offset : ℕ
  pub stack_addr_hint : ℕ

-- `__pthread_supported_features` and `__pthread_stack_hint`.
pub record Supported : Type 0 where
  pub features : ℕ
  pub stack_hint : ℕ

-- `z_pthread_attr_default`; the policy is SCHED_OTHER.
abbrev pub z_pthread_attr_default : Attr
z_pthread_attr_default = record {
  sig = attr_sig;
  guardsize = 0;
  stackaddr = 0;
  stacksize = 0;
  qosclass = 0x8ff;
  is_joinable = true;
  inherit = 1;
  policy = 1;
  schedset = false;
  defaultguardpage = true;
}

abbrev pub usrstack64 : ℕ
usrstack64 = 0x7ffeefc00000

abbrev pub dflssiz : ℕ
dflssiz = 8 * 1024 * 1024

-- FINEPRIO, BSDTHREADCTL, SETSELF, QOS_MAINTENANCE and QOS_DEFAULT.
abbrev pub required_features : ℕ
required_features = 0x4000001e

-- `self_port` and `reply_port` are what the two traps return.
unfoldable pub z_pthread_main_thread_init : (self_port reply_port : ℕ) → MainThread → MainThread
z_pthread_main_thread_init self_port reply_port p = record p {
  mach_thread_self = self_port;
  mig_reply = reply_port;
  cleanup_stack = 0;
  tl_join_ctx = 0;
  tl_exit_gate = 0;
  semaphore_cache = 0;
  mach_special_reply = 0;
}

-- `tsd_offset` is `offsetof(struct z_pthread_t, tsd)`. `register` is `z_bsdthread_register`, with
-- the structure as the kernel leaves it; its result is the pattern of a z_int32. The last component
-- says whether the message about missing support is printed.
unfoldable pub z_pthread_bsdthread_init :
    (tsd_offset : ℕ) (register : Registration → ℕ × Registration) → Supported → Supported × Bool
z_pthread_bsdthread_init tsd_offset register s =
    let (rv, data_out) = register (record {
      version = 52;
      dispatch_queue_offset = 20 * 8;
      main_qos = 0;
      tsd_offset = tsd_offset;
      return_to_kernel_offset = 5 * 8;
      mach_thread_self_offset = 3 * 8;
      stack_addr_hint = 0;
    }) in
    let positive = ltb 0 rv && ltb rv (2 ^ 31) in
    let s₁ : Supported = if positive then record s { features = rv } else s in
    (
      if data_out.stack_addr_hint != 0
          then record s₁ { stack_hint = data_out.stack_addr_hint }
          else s₁,
      positive && bit_and rv required_features != required_features,
    )

-- `usrstack` is what `z_sysctl` stores when it succeeds, and `t` the address of the structure.
unfoldable pub z_pthread_init :
    (page tsd_offset self_port reply_port : ℕ) (usrstack : Option ℕ)
    (register : Registration → ℕ × Registration) (t : ℕ)
    → MainThread
    → Supported
    → MainThread × Supported × Bool
unfolding z_pthread_struct_init z_pthread_main_thread_init z_pthread_bsdthread_init
z_pthread_init page tsd_offset self_port reply_port usrstack register t p s =
    let stackaddr : ℕ = elim usrstack [ none ↦ usrstack64 | some a ↦ a ] in
    let started : Thread =
      record (z_pthread_struct_init page t z_pthread_attr_default stackaddr dflssiz 0 0) {
        tl_joinable = true;
      } in
    let (s', missing) = z_pthread_bsdthread_init tsd_offset register s in
    (z_pthread_main_thread_init self_port reply_port (record p { thread = started }), s', missing)

unfoldable pub z_pthread_set_self_internal : (id : ℕ) → MainThread → MainThread
z_pthread_set_self_internal id p = record p { thread_id = id }

-- The structure of the child's one thread; its stack and its attributes stay.
unfoldable pub z_pthread_main_thread_postfork_init :
    (self_port reply_port id : ℕ) → MainThread → MainThread
unfolding z_pthread_main_thread_init z_pthread_set_self_internal
z_pthread_main_thread_postfork_init self_port reply_port id p =
    z_pthread_set_self_internal id (z_pthread_main_thread_init self_port reply_port p)

-- The main thread's own slot; its error word's is a fixed address.
unfoldable pub z_pthread_set_self : (id main_thread : ℕ) → MainThread → MainThread
z_pthread_set_self id main_thread p = record p {
  thread_id = id;
  thread = record p.thread { tsd_self = main_thread };
}
