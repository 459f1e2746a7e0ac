-- ===== src/Calls/Ipc.antt =====
-- Shared memory, semaphores and the waiting on an address: z_mman.c, z_shm.c, z_semaphore.c,
-- z_lock.c. Each function is one request to the kernel. Arguments are the words the kernel
-- receives.
use lib_system_call.Base.{ℕ, Bool, List, [], ◌∷◌, Option}
use lib_system_call.Calls.Numbers.{
  sys_mmap, sys_mprotect, sys_munmap, sys_sem_close, sys_sem_open, sys_sem_post, sys_sem_trywait,
  sys_sem_unlink, sys_sem_wait, sys_shmat, sys_shmctl, sys_shmdt, sys_shmget, sys_ulock_wait,
  sys_ulock_wait2, sys_ulock_wake,
}
use lib_system_call.Calls.{Outcome, World, to_int32, z_syscall_unix}

module _ {σ : Type 0} (kernel : ℕ → List ℕ → σ → Outcome × σ) (canceled : σ → Bool) where
  abbrev pub z_mprotect : ℕ → ℕ → ℕ → World σ → Option (ℕ × World σ)
  z_mprotect addr length_arg prot w =
      to_int32 (z_syscall_unix kernel canceled sys_mprotect (addr ∷ length_arg ∷ prot ∷ []) w)

  abbrev pub z_mmap : ℕ → ℕ → ℕ → ℕ → ℕ → ℕ → World σ → Option (ℕ × World σ)
  z_mmap addr length_arg prot flags fd offset w =
      z_syscall_unix kernel canceled sys_mmap (addr ∷ length_arg ∷ prot ∷ flags ∷ fd ∷ offset ∷ [])
        w

  abbrev pub z_munmap : ℕ → ℕ → World σ → Option (ℕ × World σ)
  z_munmap addr length_arg w =
      to_int32 (z_syscall_unix kernel canceled sys_munmap (addr ∷ length_arg ∷ []) w)

  abbrev pub z_shmget : ℕ → ℕ → ℕ → World σ → Option (ℕ × World σ)
  z_shmget key size shmflg w =
      to_int32 (z_syscall_unix kernel canceled sys_shmget (key ∷ size ∷ shmflg ∷ []) w)

  abbrev pub z_shmat : ℕ → ℕ → ℕ → World σ → Option (ℕ × World σ)
  z_shmat shm_id shm_addr shmflg w =
      z_syscall_unix kernel canceled sys_shmat (shm_id ∷ shm_addr ∷ shmflg ∷ []) w

  abbrev pub z_shmdt : ℕ → World σ → Option (ℕ × World σ)
  z_shmdt shmaddr w = to_int32 (z_syscall_unix kernel canceled sys_shmdt (shmaddr ∷ []) w)

  abbrev pub z_shmctl : ℕ → ℕ → ℕ → World σ → Option (ℕ × World σ)
  z_shmctl shm_id command buf w =
      to_int32 (z_syscall_unix kernel canceled sys_shmctl (shm_id ∷ command ∷ buf ∷ []) w)

  abbrev pub z_sem_close : ℕ → World σ → Option (ℕ × World σ)
  z_sem_close sem w = to_int32 (z_syscall_unix kernel canceled sys_sem_close (sem ∷ []) w)

  abbrev pub z_sem_open : ℕ → ℕ → ℕ → ℕ → World σ → Option (ℕ × World σ)
  z_sem_open name oflag mode value w =
      z_syscall_unix kernel canceled sys_sem_open (name ∷ oflag ∷ mode ∷ value ∷ []) w

  abbrev pub z_sem_post : ℕ → World σ → Option (ℕ × World σ)
  z_sem_post sem w = to_int32 (z_syscall_unix kernel canceled sys_sem_post (sem ∷ []) w)

  abbrev pub z_sem_trywait : ℕ → World σ → Option (ℕ × World σ)
  z_sem_trywait sem w = to_int32 (z_syscall_unix kernel canceled sys_sem_trywait (sem ∷ []) w)

  abbrev pub z_sem_unlink : ℕ → World σ → Option (ℕ × World σ)
  z_sem_unlink name w = to_int32 (z_syscall_unix kernel canceled sys_sem_unlink (name ∷ []) w)

  abbrev pub z_sem_wait : ℕ → World σ → Option (ℕ × World σ)
  z_sem_wait sem w = to_int32 (z_syscall_unix kernel canceled sys_sem_wait (sem ∷ []) w)

  abbrev pub z_ulock_wait : ℕ → ℕ → ℕ → ℕ → World σ → Option (ℕ × World σ)
  z_ulock_wait operation addr value timeout w =
      to_int32
        (z_syscall_unix kernel canceled sys_ulock_wait (operation ∷ addr ∷ value ∷ timeout ∷ []) w)

  abbrev pub z_ulock_wait2 : ℕ → ℕ → ℕ → ℕ → ℕ → World σ → Option (ℕ × World σ)
  z_ulock_wait2 operation addr value timeout value2 w = to_int32 (
      z_syscall_unix kernel canceled sys_ulock_wait2
        (operation ∷ addr ∷ value ∷ timeout ∷ value2 ∷ []) w)

  abbrev pub z_ulock_wake : ℕ → ℕ → ℕ → World σ → Option (ℕ × World σ)
  z_ulock_wake operation addr wake_value w =
      to_int32
        (z_syscall_unix kernel canceled sys_ulock_wake (operation ∷ addr ∷ wake_value ∷ []) w)
