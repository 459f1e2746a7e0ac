-- ===== src/Thread/Slots.antt =====
-- The functions of z_pthread.c on the slots of a thread, its port and its kernel thread, and those
-- that read one field. A thread is the address of its structure.
use lib_system_call.Base.{
  ℕ, ◌/◌, ◌%◌, ◌^◌, Bool, true, false, not, ◌&&◌, Option, none, some, ◌==◌, ◌!=◌, if◌then◌else◌,
}
use lib_system_call.Thread.Create.{Attr}
use lib_system_call.Thread.Main.{
  MainThread, Registration, Supported, z_pthread_main_thread_postfork_init,
  z_pthread_bsdthread_init,
}

-- The places of a thread's own values in `tsd`.
abbrev pub slot_pthread_self : ℕ
slot_pthread_self = 0

abbrev pub slot_mig_reply : ℕ
slot_mig_reply = 2

abbrev pub slot_mach_thread_self : ℕ
slot_mach_thread_self = 3

abbrev pub slot_mach_special_reply : ℕ
slot_mach_special_reply = 8

-- `tsd` of every thread, and the thread that runs, whose words the segment register reaches.
pub record Slots : Type 0 where
  pub tsd : (thread slot : ℕ) → ℕ
  pub running : ℕ

abbrev pub put_slot : (thread slot value : ℕ) → Slots → Slots
put_slot thread slot value s = record s {
  tsd = λ t i. if t == thread && i == slot then value else s.tsd t i;
}

-- A null pointer stands for the thread that runs.
abbrev pub own_or : (t : ℕ) → Slots → ℕ
own_or t s = if t == 0 then s.running else t

abbrev pub z_pthread_self : Slots → ℕ
z_pthread_self s = s.tsd s.running slot_pthread_self

abbrev pub z_pthread_kernel_thread : (t : ℕ) → Slots → ℕ
z_pthread_kernel_thread t s = s.tsd t slot_mach_thread_self

abbrev pub z_pthread_set_kernel_thread : (t p : ℕ) → Slots → Slots
z_pthread_set_kernel_thread t p s = put_slot t slot_mach_thread_self (p % 2 ^ 32) s

unfoldable pub z_pthread_set_reply_port : (t reply_port : ℕ) → Slots → Slots
z_pthread_set_reply_port t reply_port s =
    put_slot (own_or t s) slot_mig_reply (reply_port % 2 ^ 32) s

unfoldable pub z_pthread_reply_port : (t : ℕ) → Slots → ℕ
z_pthread_reply_port t s = s.tsd (own_or t s) slot_mig_reply % 2 ^ 32

unfoldable pub z_pthread_special_reply_port : (t : ℕ) → Slots → ℕ
z_pthread_special_reply_port t s = s.tsd (own_or t s) slot_mach_special_reply % 2 ^ 32

-- What is done with a port that is there is commented out in both.
abbrev pub z_pthread_dealloc_reply_port : (t : ℕ) → Slots → Slots
z_pthread_dealloc_reply_port t s = s

abbrev pub z_pthread_dealloc_special_reply_port : (t : ℕ) → Slots → Slots
z_pthread_dealloc_special_reply_port t s = s

-- Every thread is valid; the second component is what `*portp` receives.
unfoldable pub z_pthread_is_valid : (thread : ℕ) → Slots → Bool × ℕ
z_pthread_is_valid thread s = (true, z_pthread_kernel_thread thread s % 2 ^ 32)

abbrev pub z_pthread_equal : (t1 t2 : ℕ) → Bool
z_pthread_equal t1 t2 = t1 == t2

abbrev pub z_pthread_main_np : (main_thread : ℕ) → Slots → Bool
z_pthread_main_np main_thread s = z_pthread_self s == main_thread

-- A null `cpu_id` is `false`, and the result is the error number with what `z_errno` is set to;
-- `cpu` is the number of the processor, which the machine's table holds.
abbrev pub z_pthread_cpu_number_np : (cpu_id : Bool) (cpu : ℕ) → ℕ × Option ℕ × Option ℕ
z_pthread_cpu_number_np false cpu = (22, some 22, none)
z_pthread_cpu_number_np true cpu = (0, none, some cpu)

-- `sched_priority` and `quantum`, the halves of the union with `qosclass`.
abbrev pub SchedParam : Type 0
SchedParam = ℕ × ℕ

unfoldable pub z_pthread_attr_get_schedparam : (default_priority : ℕ) → Attr → SchedParam
z_pthread_attr_get_schedparam default_priority attr =
    if attr.schedset
    then (attr.qosclass % 2 ^ 32, attr.qosclass / 2 ^ 32)
    else (default_priority, 10)

-- `tl_join_ctx` and `tl_exit_gate`, with the context's `detached`.
pub record Waiting : Type 0 where
  pub tl_join_ctx : ℕ
  pub tl_exit_gate : ℕ
  pub detached : Bool

unfoldable pub z_pthread_joiner_abort_wait : Waiting → Bool × Waiting
z_pthread_joiner_abort_wait j =
    if not j.detached && j.tl_exit_gate != 0
    then (true, record j { tl_join_ctx = 0; tl_exit_gate = 0 })
    else (false, j)

-- `__globals.psaved_self` and `__is_threaded`.
pub record Globals : Type 0 where
  pub psaved_self : ℕ
  pub is_threaded : ℕ

abbrev pub z_pthread_atfork_prepare : Slots → Globals → Globals
z_pthread_atfork_prepare s g = record g { psaved_self = z_pthread_self s }

-- `p` is the structure at `psaved_self`; the last component says whether the message about missing
-- support is printed.
unfoldable pub z_pthread_atfork_child :
    (self_port reply_port id tsd_offset : ℕ) (register : Registration → ℕ × Registration)
    → Globals
    → MainThread
    → Supported
    → Globals × MainThread × Supported × Bool
unfolding z_pthread_main_thread_postfork_init z_pthread_bsdthread_init
z_pthread_atfork_child self_port reply_port id tsd_offset register g p f =
    let (f', missing) = z_pthread_bsdthread_init tsd_offset register f in
    (
      record g { is_threaded = 0 },
      z_pthread_main_thread_postfork_init self_port reply_port id p,
      f',
      missing,
    )
