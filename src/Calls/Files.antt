-- ===== src/Calls/Files.antt =====
-- Files, descriptors, terminals and the identity of the process: z_fcntl.c, z_unistd.c, z_stat.c,
-- z_mount.c, z_ioctl.c, z_select.c. Each function is one request to the kernel. Arguments are the
-- words the kernel receives.
use lib_system_call.Base.{ℕ, Bool, List, [], ◌∷◌, Option}
use lib_system_call.Calls.Numbers.{
  sys_access, sys_close, sys_dup, sys_dup2, sys_execve, sys_fcntl, sys_fstat64, sys_fstatfs64,
  sys_getlogin, sys_getpid, sys_getppid, sys_getuid, sys_ioctl, sys_lseek, sys_lstat64, sys_mkfifo,
  sys_open, sys_openat, sys_pipe, sys_read, sys_select_nocancel, sys_setlogin, sys_statfs64,
  sys_unlink, sys_write,
}
use lib_system_call.Calls.{Outcome, World, to_int32, z_syscall_unix}

module _ {σ : Type 0} (kernel : ℕ → List ℕ → σ → Outcome × σ) (canceled : σ → Bool) where
  abbrev pub z_open : ℕ → ℕ → ℕ → World σ → Option (ℕ × World σ)
  z_open pathname flags mode w =
      to_int32 (z_syscall_unix kernel canceled sys_open (pathname ∷ flags ∷ mode ∷ []) w)

  abbrev pub z_fcntl : ℕ → ℕ → ℕ → World σ → Option (ℕ × World σ)
  z_fcntl fd cmd arg w = to_int32 (z_syscall_unix kernel canceled sys_fcntl (fd ∷ cmd ∷ arg ∷ []) w)

  abbrev pub z_openat : ℕ → ℕ → ℕ → World σ → Option (ℕ × World σ)
  z_openat fd path oflag w =
      to_int32 (z_syscall_unix kernel canceled sys_openat (fd ∷ path ∷ oflag ∷ []) w)

  abbrev pub z_read : ℕ → ℕ → ℕ → World σ → Option (ℕ × World σ)
  z_read fd buf count w =
      to_int32 (z_syscall_unix kernel canceled sys_read (fd ∷ buf ∷ count ∷ []) w)

  abbrev pub z_write : ℕ → ℕ → ℕ → World σ → Option (ℕ × World σ)
  z_write fd buf count w =
      to_int32 (z_syscall_unix kernel canceled sys_write (fd ∷ buf ∷ count ∷ []) w)

  abbrev pub z_close : ℕ → World σ → Option (ℕ × World σ)
  z_close fd w = to_int32 (z_syscall_unix kernel canceled sys_close (fd ∷ []) w)

  abbrev pub z_lseek : ℕ → ℕ → ℕ → World σ → Option (ℕ × World σ)
  z_lseek fd offset whence w =
      to_int32 (z_syscall_unix kernel canceled sys_lseek (fd ∷ offset ∷ whence ∷ []) w)

  abbrev pub z_unlink : ℕ → World σ → Option (ℕ × World σ)
  z_unlink name w = to_int32 (z_syscall_unix kernel canceled sys_unlink (name ∷ []) w)

  abbrev pub z_getpid : World σ → Option (ℕ × World σ)
  z_getpid w = to_int32 (z_syscall_unix kernel canceled sys_getpid [] w)

  abbrev pub z_getppid : World σ → Option (ℕ × World σ)
  z_getppid w = to_int32 (z_syscall_unix kernel canceled sys_getppid [] w)

  abbrev pub z_getuid : World σ → Option (ℕ × World σ)
  z_getuid w = to_int32 (z_syscall_unix kernel canceled sys_getuid [] w)

  abbrev pub z_access : ℕ → ℕ → World σ → Option (ℕ × World σ)
  z_access name mode w = to_int32 (z_syscall_unix kernel canceled sys_access (name ∷ mode ∷ []) w)

  abbrev pub z_pipe : ℕ → World σ → Option (ℕ × World σ)
  z_pipe file_ptr w = to_int32 (z_syscall_unix kernel canceled sys_pipe (file_ptr ∷ []) w)

  abbrev pub z_execve : ℕ → ℕ → ℕ → World σ → Option (ℕ × World σ)
  z_execve file_ptr argv envp w =
      to_int32 (z_syscall_unix kernel canceled sys_execve (file_ptr ∷ argv ∷ envp ∷ []) w)

  abbrev pub z_getlogin : ℕ → ℕ → World σ → Option (ℕ × World σ)
  z_getlogin name len w = to_int32 (z_syscall_unix kernel canceled sys_getlogin (name ∷ len ∷ []) w)

  abbrev pub z_setlogin : ℕ → World σ → Option (ℕ × World σ)
  z_setlogin name w = to_int32 (z_syscall_unix kernel canceled sys_setlogin (name ∷ []) w)

  abbrev pub z_dup : ℕ → World σ → Option (ℕ × World σ)
  z_dup fildes w = to_int32 (z_syscall_unix kernel canceled sys_dup (fildes ∷ []) w)

  abbrev pub z_dup2 : ℕ → ℕ → World σ → Option (ℕ × World σ)
  z_dup2 fildes fildes2 w =
      to_int32 (z_syscall_unix kernel canceled sys_dup2 (fildes ∷ fildes2 ∷ []) w)

  abbrev pub z_fstat : ℕ → ℕ → World σ → Option (ℕ × World σ)
  z_fstat fd stat w = to_int32 (z_syscall_unix kernel canceled sys_fstat64 (fd ∷ stat ∷ []) w)

  abbrev pub z_mkfifo : ℕ → ℕ → World σ → Option (ℕ × World σ)
  z_mkfifo name mode w = to_int32 (z_syscall_unix kernel canceled sys_mkfifo (name ∷ mode ∷ []) w)

  abbrev pub z_lstat : ℕ → ℕ → World σ → Option (ℕ × World σ)
  z_lstat path buf w = to_int32 (z_syscall_unix kernel canceled sys_lstat64 (path ∷ buf ∷ []) w)

  abbrev pub z_statfs : ℕ → ℕ → World σ → Option (ℕ × World σ)
  z_statfs path buf w = to_int32 (z_syscall_unix kernel canceled sys_statfs64 (path ∷ buf ∷ []) w)

  abbrev pub z_fstatfs : ℕ → ℕ → World σ → Option (ℕ × World σ)
  z_fstatfs fd buf w = to_int32 (z_syscall_unix kernel canceled sys_fstatfs64 (fd ∷ buf ∷ []) w)

  abbrev pub ioctl_call : ℕ → ℕ → ℕ → World σ → Option (ℕ × World σ)
  ioctl_call fildes request arg w =
      to_int32 (z_syscall_unix kernel canceled sys_ioctl (fildes ∷ request ∷ arg ∷ []) w)

  abbrev pub z_select : ℕ → ℕ → ℕ → ℕ → ℕ → World σ → Option (ℕ × World σ)
  z_select maxfdp readset writeset exceptset timeout w = to_int32 (
      z_syscall_unix kernel canceled sys_select_nocancel
        (maxfdp ∷ readset ∷ writeset ∷ exceptset ∷ timeout ∷ []) w)
