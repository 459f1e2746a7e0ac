-- ===== src/Calls.antt =====
-- The way into the kernel and the error number: z_syscall.S and z_error.c.
pub mod Numbers
pub mod Traps
pub mod Files
pub mod Sockets
pub mod Process
pub mod Ipc
pub mod Mach
pub mod Buffers
pub mod Threads
pub mod Errors
use mathlib.Core.Option
use lib_system_call.Base.{
  ℕ, ◌+◌, ◌-◌, ◌*◌, ◌^◌, ◌%◌, ◌/◌, Bool, true, false, ◌&&◌, List, [], ◌∷◌, Option, none, some, ltb,
  ◌==◌, if◌then◌else◌,
}

-- What the kernel answers: a value, or with the carry flag set an error number.
pub data Outcome : Type 0 where
  returned : ℕ → Outcome
  failed : ℕ → Outcome

-- The state of the kernel, `__errno`, and the word that the slot `__TSD_ERRNO` points to, when it
-- is not null.
pub record World (σ : Type 0) : Type 0 where
  pub system : σ
  pub process_errno : ℕ
  pub thread_errno : Option ℕ

-- `z_errno`, which reads through `z_perrno`.
abbrev pub z_errno : {σ : Type 0} → World σ → ℕ
z_errno w = elim w.thread_errno [ none ↦ w.process_errno | some e ↦ e ]

-- An assignment to `z_errno`, of 64 bits.
abbrev pub set_errno : {σ : Type 0} → ℕ → World σ → World σ
set_errno e w = elim w.thread_errno [
  | none ↦ record w { process_errno = e }
  | some old ↦ record w { thread_errno = some e }
]

-- A `z_int32` widened to 64 bits.
abbrev pub widen : ℕ → ℕ
widen x = if ltb (x % 2 ^ 32) (2 ^ 31) then x % 2 ^ 32 else 2 ^ 64 - 2 ^ 32 + x % 2 ^ 32

-- `z_cerror_nocancel`: the thread's word is written as a `z_int32`, so its upper half stays.
abbrev pub z_cerror_nocancel : {σ : Type 0} → ℕ → World σ → ℕ × World σ
z_cerror_nocancel err w = (
  2 ^ 64 - 1,
  elim w.thread_errno [
    | none ↦ record w { process_errno = widen err }
    | some old ↦ record w {
      process_errno = widen err;
      thread_errno = some (old / 2 ^ 32 * 2 ^ 32 + err % 2 ^ 32);
    }
  ],
)

-- The cast `(z_int32)` of a result.
abbrev pub to_int32 : {σ : Type 0} → Option (ℕ × World σ) → Option (ℕ × World σ)
to_int32 out = elim out [ none ↦ none | some (x, w) ↦ some (x % 2 ^ 32, w) ]

-- The kernel is `kernel number arguments`, with the plain number for the class of Unix calls; `canceled` says whether a
-- conforming thread has a cancellation to act on. No result, `none`, is a thread that has ended.
module _ {σ : Type 0} (canceled : σ → Bool) where
  -- `z_cerror`, with the test of `z_pthread_exit_if_canceled`; EINTR is 4.
  abbrev pub z_cerror : ℕ → World σ → Option (ℕ × World σ)
  z_cerror err w =
      if err % 2 ^ 8 == 4 && canceled w.system then none else some (z_cerror_nocancel err w)

  abbrev pub answer : Outcome → World σ → Option (ℕ × World σ)
  answer outcome w = elim outcome [ returned rax ↦ some (rax, w) | failed err ↦ z_cerror err w ]

module _ {σ : Type 0} (kernel : ℕ → List ℕ → σ → Outcome × σ) (canceled : σ → Bool) where
  unfoldable pub z_syscall_unix : ℕ → List ℕ → World σ → Option (ℕ × World σ)
  z_syscall_unix n args w =
      let (outcome, system') = kernel n args w.system in
      answer canceled outcome (record w { system = system' })

-- `z_syscall_mach`: the result is what the kernel leaves, and no error number is set.
module _ {σ : Type 0} (kernel : ℕ → List ℕ → σ → Outcome × σ) where
  unfoldable pub z_syscall_mach : ℕ → List ℕ → World σ → Option (ℕ × World σ)
  z_syscall_mach n args w =
      let (outcome, system') = kernel n args w.system in
      some (elim outcome [ returned rax ↦ rax | failed rax ↦ rax ], record w { system = system' })
