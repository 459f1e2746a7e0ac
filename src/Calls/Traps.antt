-- ===== src/Calls/Traps.antt =====
-- The numbers of the Mach traps and their class: z_syscall.h.
use lib_system_call.Base.{ℕ, ◌+◌, ◌*◌, ◌^◌, ◌%◌}

abbrev pub syscall_class_shift : ℕ
syscall_class_shift = 24

abbrev pub syscall_class_mach : ℕ
syscall_class_mach = 1

-- `SYSCALL_MACH`: the class, and the bits of the number below the mask of the class.
abbrev pub syscall_mach : ℕ → ℕ
syscall_mach x = syscall_class_mach * 2 ^ syscall_class_shift + x % 2 ^ syscall_class_shift

abbrev pub sys_kernelrpc_mach_vm_allocate_trap : ℕ
sys_kernelrpc_mach_vm_allocate_trap = 10

abbrev pub sys_kernelrpc_mach_vm_deallocate_trap : ℕ
sys_kernelrpc_mach_vm_deallocate_trap = 11

abbrev pub sys_kernelrpc_mach_vm_map_trap : ℕ
sys_kernelrpc_mach_vm_map_trap = 15

abbrev pub sys_kernelrpc_mach_port_allocate_trap : ℕ
sys_kernelrpc_mach_port_allocate_trap = 16

abbrev pub sys_kernelrpc_mach_port_deallocate_trap : ℕ
sys_kernelrpc_mach_port_deallocate_trap = 18

abbrev pub sys_mach_reply_port : ℕ
sys_mach_reply_port = 26

abbrev pub sys_thread_self_trap : ℕ
sys_thread_self_trap = 27

abbrev pub sys_task_self_trap : ℕ
sys_task_self_trap = 28

abbrev pub sys_mach_msg_trap : ℕ
sys_mach_msg_trap = 31

abbrev pub sys_task_name_for_pid : ℕ
sys_task_name_for_pid = 44

abbrev pub sys_task_for_pid : ℕ
sys_task_for_pid = 45

abbrev pub sys_pid_for_task : ℕ
sys_pid_for_task = 46

abbrev pub sys_swtch_pri : ℕ
sys_swtch_pri = 59

abbrev pub sys_swtch : ℕ
sys_swtch = 60

abbrev pub sys_thread_switch : ℕ
sys_thread_switch = 61
