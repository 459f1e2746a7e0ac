-- ===== src/Calls/Sockets.antt =====
-- Sockets: z_socket.c. Each function is one request to the kernel. Arguments are the words the
-- kernel receives.
use lib_system_call.Base.{ℕ, Bool, List, [], ◌∷◌, Option}
use lib_system_call.Calls.Numbers.{
  sys_accept, sys_bind, sys_connect, sys_getpeername, sys_getsockname, sys_getsockopt, sys_listen,
  sys_recvfrom, sys_recvmsg, sys_sendmsg, sys_sendto, sys_setsockopt, sys_shutdown, sys_socket,
  sys_socketpair,
}
use lib_system_call.Calls.{Outcome, World, to_int32, z_syscall_unix}

module _ {σ : Type 0} (kernel : ℕ → List ℕ → σ → Outcome × σ) (canceled : σ → Bool) where
  abbrev pub z_socket : ℕ → ℕ → ℕ → World σ → Option (ℕ × World σ)
  z_socket domain type protocol w =
      to_int32 (z_syscall_unix kernel canceled sys_socket (domain ∷ type ∷ protocol ∷ []) w)

  abbrev pub z_socketpair : ℕ → ℕ → ℕ → ℕ → World σ → Option (ℕ × World σ)
  z_socketpair domain type protocol socket_vector w = to_int32 (
      z_syscall_unix kernel canceled sys_socketpair (domain ∷ type ∷ protocol ∷ socket_vector ∷ [])
        w)

  abbrev pub z_connect : ℕ → ℕ → ℕ → World σ → Option (ℕ × World σ)
  z_connect socket address addrlen w =
      to_int32 (z_syscall_unix kernel canceled sys_connect (socket ∷ address ∷ addrlen ∷ []) w)

  abbrev pub z_accept : ℕ → ℕ → ℕ → World σ → Option (ℕ × World σ)
  z_accept socket address addrlen w =
      to_int32 (z_syscall_unix kernel canceled sys_accept (socket ∷ address ∷ addrlen ∷ []) w)

  abbrev pub z_bind : ℕ → ℕ → ℕ → World σ → Option (ℕ × World σ)
  z_bind socket address addrlen w =
      to_int32 (z_syscall_unix kernel canceled sys_bind (socket ∷ address ∷ addrlen ∷ []) w)

  abbrev pub z_listen : ℕ → ℕ → World σ → Option (ℕ × World σ)
  z_listen socket backlog w =
      to_int32 (z_syscall_unix kernel canceled sys_listen (socket ∷ backlog ∷ []) w)

  abbrev pub z_sendmsg : ℕ → ℕ → ℕ → World σ → Option (ℕ × World σ)
  z_sendmsg socket message flags w =
      to_int32 (z_syscall_unix kernel canceled sys_sendmsg (socket ∷ message ∷ flags ∷ []) w)

  abbrev pub z_sendto : ℕ → ℕ → ℕ → ℕ → ℕ → ℕ → World σ → Option (ℕ × World σ)
  z_sendto socket buffer length_arg flags dest_addr dest_len w = to_int32 (
      z_syscall_unix kernel canceled sys_sendto
        (socket ∷ buffer ∷ length_arg ∷ flags ∷ dest_addr ∷ dest_len ∷ []) w)

  abbrev pub z_recvfrom : ℕ → ℕ → ℕ → ℕ → ℕ → ℕ → World σ → Option (ℕ × World σ)
  z_recvfrom socket buffer length_arg flags address address_len w = to_int32 (
      z_syscall_unix kernel canceled sys_recvfrom
        (socket ∷ buffer ∷ length_arg ∷ flags ∷ address ∷ address_len ∷ []) w)

  abbrev pub z_recvmsg : ℕ → ℕ → ℕ → World σ → Option (ℕ × World σ)
  z_recvmsg socket message flags w =
      to_int32 (z_syscall_unix kernel canceled sys_recvmsg (socket ∷ message ∷ flags ∷ []) w)

  abbrev pub z_getsockopt : ℕ → ℕ → ℕ → ℕ → ℕ → World σ → Option (ℕ × World σ)
  z_getsockopt socket level option_name option_value option_len w = to_int32 (
      z_syscall_unix kernel canceled sys_getsockopt
        (socket ∷ level ∷ option_name ∷ option_value ∷ option_len ∷ []) w)

  abbrev pub z_setsockopt : ℕ → ℕ → ℕ → ℕ → ℕ → World σ → Option (ℕ × World σ)
  z_setsockopt socket level option_name option_value option_len w = to_int32 (
      z_syscall_unix kernel canceled sys_setsockopt
        (socket ∷ level ∷ option_name ∷ option_value ∷ option_len ∷ []) w)

  abbrev pub z_shutdown : ℕ → ℕ → World σ → Option (ℕ × World σ)
  z_shutdown socket how w =
      to_int32 (z_syscall_unix kernel canceled sys_shutdown (socket ∷ how ∷ []) w)

  abbrev pub z_getpeername : ℕ → ℕ → ℕ → World σ → Option (ℕ × World σ)
  z_getpeername socket address address_len w =
      to_int32
        (z_syscall_unix kernel canceled sys_getpeername (socket ∷ address ∷ address_len ∷ []) w)

  abbrev pub z_getsockname : ℕ → ℕ → ℕ → World σ → Option (ℕ × World σ)
  z_getsockname socket address address_len w =
      to_int32
        (z_syscall_unix kernel canceled sys_getsockname (socket ∷ address ∷ address_len ∷ []) w)
