-- ===== src/Calls/Threads.antt =====
-- Threads and the reading of a directory: z_pthread.c, z_dirent.c. Each function is one request to
-- the kernel. Arguments are the words the kernel receives.
use lib_system_call.Base.{ℕ, Bool, List, [], ◌∷◌, Option}
use lib_system_call.Calls.Numbers.{
  sys_bsdthread_create, sys_bsdthread_register, sys_bsdthread_terminate, sys_disable_threadsignal,
  sys_getdirentries64, sys_pthread_canceled, sys_pthread_markcancel, sys_thread_selfid,
}
use lib_system_call.Calls.{Outcome, World, to_int32, z_syscall_unix}

module _ {σ : Type 0} (kernel : ℕ → List ℕ → σ → Outcome × σ) (canceled : σ → Bool) where
  abbrev pub z_pthread_selfid : World σ → Option (ℕ × World σ)
  z_pthread_selfid w = to_int32 (z_syscall_unix kernel canceled sys_thread_selfid [] w)

  abbrev pub z_bsdthread_register : ℕ → ℕ → ℕ → ℕ → ℕ → ℕ → World σ → Option (ℕ × World σ)
  z_bsdthread_register thread_start wqthread pthsize pth_regdata pth_regdata_len dpq_offset w =
      to_int32 (
        z_syscall_unix kernel canceled sys_bsdthread_register
          (thread_start ∷ wqthread ∷ pthsize ∷ pth_regdata ∷ pth_regdata_len ∷ dpq_offset ∷ []) w)

  abbrev pub z_bsdthread_create : ℕ → ℕ → ℕ → ℕ → ℕ → World σ → Option (ℕ × World σ)
  z_bsdthread_create thread_start arg stack pthread flags w = to_int32 (
      z_syscall_unix kernel canceled sys_bsdthread_create
        (thread_start ∷ arg ∷ stack ∷ pthread ∷ flags ∷ []) w)

  abbrev pub z_bsdthread_terminate : ℕ → ℕ → ℕ → ℕ → World σ → Option (ℕ × World σ)
  z_bsdthread_terminate freeaddr freesize kport joinsem w = to_int32 (
      z_syscall_unix kernel canceled sys_bsdthread_terminate
        (freeaddr ∷ freesize ∷ kport ∷ joinsem ∷ []) w)

  abbrev pub z_pthread_markcancel : ℕ → World σ → Option (ℕ × World σ)
  z_pthread_markcancel kport w =
      to_int32 (z_syscall_unix kernel canceled sys_pthread_markcancel (kport ∷ []) w)

  abbrev pub z_pthread_canceled : ℕ → World σ → Option (ℕ × World σ)
  z_pthread_canceled kport w =
      to_int32 (z_syscall_unix kernel canceled sys_pthread_canceled (kport ∷ []) w)

  abbrev pub z_disable_threadsignal : ℕ → World σ → Option (ℕ × World σ)
  z_disable_threadsignal kport w =
      to_int32 (z_syscall_unix kernel canceled sys_disable_threadsignal (kport ∷ []) w)

  abbrev pub z_getdirentries : ℕ → ℕ → ℕ → ℕ → World σ → Option (ℕ × World σ)
  z_getdirentries fd buf nbytes basep w =
      to_int32
        (z_syscall_unix kernel canceled sys_getdirentries64 (fd ∷ buf ∷ nbytes ∷ basep ∷ []) w)
