-- ===== src/Calls/Mach.antt =====
-- Mach traps: z_mach_trap.c. Each function is one request to the kernel. Arguments are the words
-- the kernel receives.
use lib_system_call.Base.{ℕ, List, [], ◌∷◌, Option}
use lib_system_call.Calls.Traps.{
  syscall_mach, sys_kernelrpc_mach_port_allocate_trap, sys_kernelrpc_mach_port_deallocate_trap,
  sys_kernelrpc_mach_vm_allocate_trap, sys_kernelrpc_mach_vm_deallocate_trap,
  sys_kernelrpc_mach_vm_map_trap, sys_mach_msg_trap, sys_mach_reply_port, sys_pid_for_task,
  sys_swtch, sys_swtch_pri, sys_task_for_pid, sys_task_name_for_pid, sys_task_self_trap,
  sys_thread_self_trap, sys_thread_switch,
}
use lib_system_call.Calls.{Outcome, World, to_int32, z_syscall_mach}

module _ {σ : Type 0} (kernel : ℕ → List ℕ → σ → Outcome × σ) where
  abbrev pub z_mach_vm_allocate_trap : ℕ → ℕ → ℕ → ℕ → World σ → Option (ℕ × World σ)
  z_mach_vm_allocate_trap target addr size flags w = to_int32 (
      z_syscall_mach kernel (syscall_mach sys_kernelrpc_mach_vm_allocate_trap)
        (target ∷ addr ∷ size ∷ flags ∷ []) w)

  abbrev pub z_mach_vm_deallocate_trap : ℕ → ℕ → ℕ → World σ → Option (ℕ × World σ)
  z_mach_vm_deallocate_trap target addr size w = to_int32 (
      z_syscall_mach kernel (syscall_mach sys_kernelrpc_mach_vm_deallocate_trap)
        (target ∷ addr ∷ size ∷ []) w)

  abbrev pub z_mach_vm_map_trap : ℕ → ℕ → ℕ → ℕ → ℕ → ℕ → World σ → Option (ℕ × World σ)
  z_mach_vm_map_trap target addr size mask flags protection w = to_int32 (
      z_syscall_mach kernel (syscall_mach sys_kernelrpc_mach_vm_map_trap)
        (target ∷ addr ∷ size ∷ mask ∷ flags ∷ protection ∷ []) w)

  abbrev pub z_mach_port_allocate_trap : ℕ → ℕ → ℕ → World σ → Option (ℕ × World σ)
  z_mach_port_allocate_trap target right name w = to_int32 (
      z_syscall_mach kernel (syscall_mach sys_kernelrpc_mach_port_allocate_trap)
        (target ∷ right ∷ name ∷ []) w)

  abbrev pub z_mach_port_deallocate_trap : ℕ → ℕ → World σ → Option (ℕ × World σ)
  z_mach_port_deallocate_trap target name w = to_int32 (
      z_syscall_mach kernel (syscall_mach sys_kernelrpc_mach_port_deallocate_trap)
        (target ∷ name ∷ []) w)

  abbrev pub z_task_self_trap : World σ → Option (ℕ × World σ)
  z_task_self_trap w = to_int32 (z_syscall_mach kernel (syscall_mach sys_task_self_trap) [] w)

  abbrev pub z_mach_msg : ℕ → ℕ → ℕ → ℕ → ℕ → ℕ → ℕ → World σ → Option (ℕ × World σ)
  z_mach_msg msg option send_size rcv_size rcv_name timeout notify w = to_int32 (
      z_syscall_mach kernel (syscall_mach sys_mach_msg_trap)
        (msg ∷ option ∷ send_size ∷ rcv_size ∷ rcv_name ∷ timeout ∷ notify ∷ []) w)

  abbrev pub z_task_for_pid : ℕ → ℕ → ℕ → World σ → Option (ℕ × World σ)
  z_task_for_pid target pid dst_target w =
      to_int32
        (z_syscall_mach kernel (syscall_mach sys_task_for_pid) (target ∷ pid ∷ dst_target ∷ []) w)

  abbrev pub z_task_name_for_pid : ℕ → ℕ → ℕ → World σ → Option (ℕ × World σ)
  z_task_name_for_pid target pid dst_target w = to_int32 (
      z_syscall_mach kernel (syscall_mach sys_task_name_for_pid) (target ∷ pid ∷ dst_target ∷ []) w)

  abbrev pub z_pid_for_task : ℕ → ℕ → World σ → Option (ℕ × World σ)
  z_pid_for_task target pid w =
      to_int32 (z_syscall_mach kernel (syscall_mach sys_pid_for_task) (target ∷ pid ∷ []) w)

  abbrev pub z_mach_reply_port : World σ → Option (ℕ × World σ)
  z_mach_reply_port w = to_int32 (z_syscall_mach kernel (syscall_mach sys_mach_reply_port) [] w)

  abbrev pub z_pthread_self_trap : World σ → Option (ℕ × World σ)
  z_pthread_self_trap w = to_int32 (z_syscall_mach kernel (syscall_mach sys_thread_self_trap) [] w)

  abbrev pub z_swtch_pri : ℕ → World σ → Option (ℕ × World σ)
  z_swtch_pri pri w = to_int32 (z_syscall_mach kernel (syscall_mach sys_swtch_pri) (pri ∷ []) w)

  abbrev pub z_swtch : World σ → Option (ℕ × World σ)
  z_swtch w = to_int32 (z_syscall_mach kernel (syscall_mach sys_swtch) [] w)

  abbrev pub z_thread_switch : ℕ → ℕ → ℕ → World σ → Option (ℕ × World σ)
  z_thread_switch thread_name option option_time w = to_int32 (
      z_syscall_mach kernel (syscall_mach sys_thread_switch)
        (thread_name ∷ option ∷ option_time ∷ []) w)
