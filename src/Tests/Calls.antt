-- ===== src/Tests/Calls.antt =====
-- The theorems on system calls at a concrete kernel.
use lib_system_call.Base.{
  ℕ, ◌+◌, ◌-◌, ◌^◌, ◌%◌, ◌≡◌, ◌⊎◌, refl, arith, true, false, List, [], ◌∷◌, none, some, ◌==◌,
  get_or, if◌then◌else◌,
}
use lib_system_call.Calls.{Outcome, returned, failed, World, z_errno, z_syscall_unix}
use lib_system_call.Calls.Errors.{z_syscall_unix-failed}
use lib_system_call.Calls.Buffers.{Machine, z_getpagesize}
use lib_system_call.Dir.{read_le}
use lib_system_call.Tlv.Keys.{write_le}

-- `close` of descriptor 3 succeeds, every other call fails with EBADF.
abbrev one_file : ℕ → List ℕ → ℕ → Outcome × ℕ
one_file n args s = (if n == 6 then returned 0 else failed 9, s + 1)

abbrev calm : World ℕ
calm = record { system = 0; process_errno = 0; thread_errno = some 5 }

z_syscall_unix-failed_example :
    ((9 % 2 ^ 8 ≡ 4)
      × (false ≡ true)
      × (z_syscall_unix one_file (λ s. false) 3 (4 ∷ []) calm ≡ none))
    ⊎ ((w' : World ℕ) × (z_syscall_unix one_file (λ s. false) 3 (4 ∷ []) calm
          ≡ some (2 ^ 64 - 1, w'))
        × (w'.system ≡ 1)
        × (z_errno w' ≡ 9))
z_syscall_unix-failed_example =
    z_syscall_unix-failed one_file (λ s. false) 3 (4 ∷ []) calm 9 1 refl (omega arith)
      (λ e eq. ground arith)

-- A kernel with pages of 4096 bytes, which it tells of at the third argument.
abbrev paged : ℕ → List ℕ → Machine ℕ → Outcome × Machine ℕ
paged n args s = (
  if n == 202 then returned 0 else failed 78,
  if n == 202 then record s { mem = λ a. if a == get_or args 2 0 + 1 then 16 else s.mem a } else s,
)

abbrev nothing_stored : World (Machine ℕ)
nothing_stored = record {
  system = record { mem = λ a. 255; rest = 0 };
  process_errno = 0;
  thread_errno = none;
}

page_size :
    (elim (z_getpagesize paged (λ s. false) 100 200 300 nothing_stored) [
      | none ↦ none
      | some (size, w) ↦ some size
    ])
    ≡ some 4096
unfolding z_getpagesize write_le read_le z_syscall_unix
page_size = refl
