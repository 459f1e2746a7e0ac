-- ===== src/Calls/Errors.antt =====
-- What a caller sees of a system call.
use mathlib.Core.Path.{subst}
use lib_system_call.Base.{
  ℕ, ◌∙◌, ◌-◌, ◌^◌, ◌%◌, ◌<◌, ◌≡◌, ◌⊎◌, inl, inr, Bool, true, List, none, some, arith, refl,
  Option-cases, Bool-cases, ◌==◌, ◌&&◌,
}
use lib_system_call.Calls.{
  Outcome, returned, failed, World, z_errno, answer, z_syscall_unix, z_cerror_nocancel,
}

z_cerror_nocancel-errno :
    {σ : Type 0} (err : ℕ) (w : World σ)
    → err < 2 ^ 31
    → ((e : ℕ) → w.thread_errno ≡ some e → e < 2 ^ 32)
    → z_errno (z_cerror_nocancel err w).1 ≡ err
z_cerror_nocancel-errno err w small held = elim (Option-cases w.thread_errno) [
  | inl none_eq ↦ rw none_eq (ground arith)
  | inr (old, eq) ↦ rw eq (ground (arith, held old eq))
]

z_cerror_nocancel-system :
    {σ : Type 0} (err : ℕ) (w : World σ) → (z_cerror_nocancel err w).1.system ≡ w.system
z_cerror_nocancel-system err w = elim (Option-cases w.thread_errno) [
  | inl none_eq ↦ rw none_eq refl
  | inr (old, eq) ↦ rw eq refl
]

module _ {σ : Type 0} (kernel : ℕ → List ℕ → σ → Outcome × σ) (canceled : σ → Bool) where
  answered :
      (n : ℕ) (args : List ℕ) (w : World σ) (outcome : Outcome) (s' : σ)
      → kernel n args w.system ≡ (outcome, s')
      → z_syscall_unix kernel canceled n args w ≡ answer canceled outcome (record w { system = s' })
  unfolding z_syscall_unix
  answered n args w outcome s' e =
      subst
        (λ (out : Outcome × σ).
          z_syscall_unix kernel canceled n args w
          ≡ answer canceled out.0 (record w { system = out.1 }))
        e refl

  -- A call that succeeds returns the kernel's value and leaves `z_errno` alone.
  z_syscall_unix-returned :
      (n : ℕ) (args : List ℕ) (w : World σ) (rax : ℕ) (s' : σ)
      → kernel n args w.system ≡ (returned rax, s')
      → (w' : World σ) × (z_syscall_unix kernel canceled n args w ≡ some (rax, w'))
        × (w'.system ≡ s')
        × (z_errno w' ≡ z_errno w)
  z_syscall_unix-returned n args w rax s' e =
      (record w { system = s' }, answered n args w (returned rax) s' e, refl, refl)

  -- A call that fails with the error `err` returns -1 and sets `z_errno` to `err`, in the thread's
  -- word or in the process's; only a thread to be canceled, interrupted, does not return. The error
  -- is a positive `z_int32`, and the thread's word held one.
  pub z_syscall_unix-failed :
      (n : ℕ) (args : List ℕ) (w : World σ) (err : ℕ) (s' : σ)
      → kernel n args w.system ≡ (failed err, s')
      → err < 2 ^ 31
      → ((e : ℕ) → w.thread_errno ≡ some e → e < 2 ^ 32)
      → ((err % 2 ^ 8 ≡ 4)
          × (canceled s' ≡ true)
          × (z_syscall_unix kernel canceled n args w ≡ none))
        ⊎ ((w' : World σ) × (z_syscall_unix kernel canceled n args w ≡ some (2 ^ 64 - 1, w'))
            × (w'.system ≡ s')
            × (z_errno w' ≡ err))
  z_syscall_unix-failed n args w err s' e small held =
      let w₁ : World σ = record w { system = s' } in
      let kept = z_cerror_nocancel-errno err w₁ small held in
      elim (Bool-cases (err % 2 ^ 8 == 4 && canceled s')) [
        | inl ends ↦ inl (
          ground (arith, ends),
          ground (arith, ends),
          answered n args w (failed err) s' e ∙ rw ends refl,
        )
        | inr goes_on ↦ inr (
          (z_cerror_nocancel err w₁).1,
          answered n args w (failed err) s' e ∙ rw goes_on refl,
          z_cerror_nocancel-system err w₁,
          kept,
        )
      ]
