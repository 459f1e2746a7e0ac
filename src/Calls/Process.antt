-- ===== src/Calls/Process.antt =====
-- Signals, children, timers and limits: z_signal.c, z_wait.c, z_ptrace.c, z_time.c, z_resource.c,
-- z_sysctl.c, z_stdlib.c. Each function is one request to the kernel. Arguments are the words the
-- kernel receives.
use lib_system_call.Base.{ℕ, Bool, List, [], ◌∷◌, Option}
use lib_system_call.Calls.Numbers.{
  sys_exit, sys_getitimer, sys_getrlimit, sys_gettimeofday, sys_kill, sys_ptrace, sys_setitimer,
  sys_setrlimit, sys_sigaltstack, sys_sigprocmask, sys_sigreturn, sys_sysctl, sys_sysctlbyname,
  sys_wait4,
}
use lib_system_call.Calls.{Outcome, World, to_int32, z_syscall_unix}

module _ {σ : Type 0} (kernel : ℕ → List ℕ → σ → Outcome × σ) (canceled : σ → Bool) where
  abbrev pub z_sigreturn : ℕ → ℕ → ℕ → World σ → Option (ℕ × World σ)
  z_sigreturn uctx ctxstyle token w =
      to_int32 (z_syscall_unix kernel canceled sys_sigreturn (uctx ∷ ctxstyle ∷ token ∷ []) w)

  abbrev pub z_kill : ℕ → ℕ → World σ → Option (ℕ × World σ)
  z_kill pid sig w = to_int32 (z_syscall_unix kernel canceled sys_kill (pid ∷ sig ∷ []) w)

  abbrev pub z_sigaltstack : ℕ → ℕ → World σ → Option (ℕ × World σ)
  z_sigaltstack ss oss w =
      to_int32 (z_syscall_unix kernel canceled sys_sigaltstack (ss ∷ oss ∷ []) w)

  abbrev pub z_sigprocmask : ℕ → ℕ → ℕ → World σ → Option (ℕ × World σ)
  z_sigprocmask how set_ptr oset w =
      to_int32 (z_syscall_unix kernel canceled sys_sigprocmask (set_ptr ∷ oset ∷ []) w)

  abbrev pub z_wait4 : ℕ → ℕ → ℕ → ℕ → World σ → Option (ℕ × World σ)
  z_wait4 pid status options rusage w =
      to_int32 (z_syscall_unix kernel canceled sys_wait4 (pid ∷ status ∷ options ∷ rusage ∷ []) w)

  abbrev pub z_ptrace : ℕ → ℕ → ℕ → ℕ → World σ → Option (ℕ × World σ)
  z_ptrace request pid addr data_word w =
      to_int32 (z_syscall_unix kernel canceled sys_ptrace (request ∷ pid ∷ addr ∷ data_word ∷ []) w)

  abbrev pub z_gettimeofday : ℕ → ℕ → World σ → Option (ℕ × World σ)
  z_gettimeofday tv tz w =
      to_int32 (z_syscall_unix kernel canceled sys_gettimeofday (tv ∷ tz ∷ []) w)

  abbrev pub z_getitimer : ℕ → ℕ → World σ → Option (ℕ × World σ)
  z_getitimer which value w =
      to_int32 (z_syscall_unix kernel canceled sys_getitimer (which ∷ value ∷ []) w)

  abbrev pub z_setitimer : ℕ → ℕ → ℕ → World σ → Option (ℕ × World σ)
  z_setitimer which value ovalue w =
      to_int32 (z_syscall_unix kernel canceled sys_setitimer (which ∷ value ∷ ovalue ∷ []) w)

  abbrev pub z_getrlimit : ℕ → ℕ → World σ → Option (ℕ × World σ)
  z_getrlimit resource rlp w =
      to_int32 (z_syscall_unix kernel canceled sys_getrlimit (resource ∷ rlp ∷ []) w)

  abbrev pub z_setrlimit : ℕ → ℕ → World σ → Option (ℕ × World σ)
  z_setrlimit resource rlp w =
      to_int32 (z_syscall_unix kernel canceled sys_setrlimit (resource ∷ rlp ∷ []) w)

  abbrev pub z_sysctl : ℕ → ℕ → ℕ → ℕ → ℕ → ℕ → World σ → Option (ℕ × World σ)
  z_sysctl name namelen oldp oldlenp newp newlen w = to_int32 (
      z_syscall_unix kernel canceled sys_sysctl
        (name ∷ namelen ∷ oldp ∷ oldlenp ∷ newp ∷ newlen ∷ []) w)

  abbrev pub z_sysctlbyname : ℕ → ℕ → ℕ → ℕ → ℕ → World σ → Option (ℕ × World σ)
  z_sysctlbyname name oldp oldlenp newp newlen w = to_int32 (
      z_syscall_unix kernel canceled sys_sysctlbyname (name ∷ oldp ∷ oldlenp ∷ newp ∷ newlen ∷ [])
        w)

  abbrev pub exit_call : ℕ → World σ → Option (ℕ × World σ)
  exit_call status w = to_int32 (z_syscall_unix kernel canceled sys_exit (status ∷ []) w)
