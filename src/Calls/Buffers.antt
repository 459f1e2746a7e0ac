-- ===== src/Calls/Buffers.antt =====
-- The requests whose arguments are laid out in memory first (z_signal.c, z_unistd.c), and those that
-- hand over to another one. The kernel's state holds the memory, which the requests may change; the
-- addresses of local variables are parameters.
use lib_system_call.Base.{ℕ, ◌+◌, ◌-◌, ◌^◌, Bool, List, [], ◌∷◌, Option, some, ◌==◌, if◌then◌else◌}
use lib_system_call.Memory.{Mem}
use lib_system_call.Bytes.{z_memset}
use lib_system_call.Str.{◌>>=◌}
use lib_system_call.Dir.{read_le}
use lib_system_call.Tlv.Keys.{write_le}
use lib_system_call.Calls.Numbers.{sys_sigaction}
use lib_system_call.Calls.{Outcome, World, to_int32, z_syscall_unix}
use lib_system_call.Calls.Files.{ioctl_call, z_select}
use lib_system_call.Calls.Sockets.{z_sendto, z_recvfrom}
use lib_system_call.Calls.Process.{z_sigreturn, z_sysctl}

pub record Machine (τ : Type 0) : Type 0 where
  pub mem : Mem
  pub rest : τ

-- A store of so many bytes.
abbrev pub store : {τ : Type 0} → (p n v : ℕ) → World (Machine τ) → World (Machine τ)
store p n v w = record w { system = record w.system { mem = write_le w.system.mem p n v } }

abbrev pub uc_flavor : ℕ
uc_flavor = 30

abbrev pub ctl_hw : ℕ
ctl_hw = 6

abbrev pub hw_pagesize : ℕ
hw_pagesize = 7

module _ {τ : Type 0} (kernel : ℕ → List ℕ → Machine τ → Outcome × Machine τ)
    (canceled : Machine τ → Bool) where
  -- `tramp` is the address of z_sigtramp, put behind the handler of 8 bytes. A null `act` is not
  -- looked for.
  unfoldable pub z_sigaction :
      (tramp signum act oldact : ℕ) → World (Machine τ) → Option (ℕ × World (Machine τ))
  unfolding write_le
  z_sigaction tramp signum act oldact w = to_int32 (
      z_syscall_unix kernel canceled sys_sigaction (signum ∷ act ∷ oldact ∷ [])
        (store (act + 8) 8 tramp w))

  -- The handler is a program of its own. The request returns only where it fails.
  unfoldable pub z_sigtramp :
      (handler : (sig sinfo uctx : ℕ) → World (Machine τ) → World (Machine τ))
      (sig sinfo uctx token : ℕ)
      → World (Machine τ)
      → Option (ℕ × World (Machine τ))
  z_sigtramp handler sig sinfo uctx token w =
      z_sigreturn kernel canceled uctx uc_flavor token (handler sig sinfo uctx w)

  -- A set of 4096 bytes at `rd`, and the time at `tv`.
  unfoldable pub z_sleep : (rd tv second : ℕ) → World (Machine τ) → Option (ℕ × World (Machine τ))
  unfolding write_le
  z_sleep rd tv second w =
      let cleared : World (Machine τ) = record w {
        system = record w.system { mem = z_memset w.system.mem rd 0 4096 };
      } in
      z_select kernel canceled 1 rd 0 0 tv (store (tv + 8) 4 0 (store tv 8 second cleared))

  -- The number that the kernel has stored at `value`, or -1.
  unfoldable pub z_getpagesize :
      (mib value size : ℕ) → World (Machine τ) → Option (ℕ × World (Machine τ))
  unfolding write_le read_le
  z_getpagesize mib value size w = do
    let asked =
        store size 4 4 (store (mib + 4) 4 hw_pagesize (store mib 4 ctl_hw (store value 4 0 w)))
    (err, w') ← z_sysctl kernel canceled mib 2 value size 0 0 asked
    some (if err == 2 ^ 32 - 1 then 2 ^ 32 - 1 else read_le w'.system.mem value 4, w')

module _ {σ : Type 0} (kernel : ℕ → List ℕ → σ → Outcome × σ) (canceled : σ → Bool) where
  abbrev pub z_ioctl : (fildes request arg : ℕ) → World σ → Option (ℕ × World σ)
  z_ioctl fildes request arg w = ioctl_call kernel canceled fildes request arg w

  abbrev pub z_send : (socket buffer length flags : ℕ) → World σ → Option (ℕ × World σ)
  z_send socket buffer length flags w = z_sendto kernel canceled socket buffer length flags 0 0 w

  abbrev pub z_recv : (socket buffer length flags : ℕ) → World σ → Option (ℕ × World σ)
  z_recv socket buffer length flags w = z_recvfrom kernel canceled socket buffer length flags 0 0 w
