-- ===== src/Tests/Context.antt =====
-- A context with seven arguments on a stack of 32768 bytes.
use lib_system_call.Base.{ℕ, ◌+◌, ◌%◌, ◌<◌, ◌≡◌, ◌⊎◌, List, [], ◌∷◌, some, true, false, refl, arith}
use lib_system_call.Base.Int.{pos}
use lib_system_call.Context.{
  ThreadState, UContext, Words, Cpu, zz_setcontext, ctx_start_enter, z_makecontext, swap_again,
}
use lib_system_call.Context.Entry.{IsEntered, z_makecontext-IsEntered}

abbrev no_registers : ThreadState
no_registers = record {
  rax = 0;
  rbx = 0;
  rcx = 0;
  rdx = 0;
  rdi = 0;
  rsi = 0;
  rbp = 0;
  rsp = 0;
  r8 = 0;
  r9 = 0;
  r10 = 0;
  r11 = 0;
  r12 = 0;
  r13 = 0;
  r14 = 0;
  r15 = 0;
  rip = 0;
  rflags = 0;
  cs = 0;
  fs = 0;
  gs = 0;
}

abbrev context : UContext
context = record {
  uc_onstack = 0;
  uc_sigmask = 0;
  uc_stack = record { ss_sp = 65536; ss_size = 32768; ss_flags = 0 };
  uc_link = 0;
  uc_mcsize = 0;
  uc_mcontext = 4152;
  mcontext_data = no_registers;
}

abbrev no_cpu : Cpu
no_cpu = record {
  rax = 0;
  rbx = 0;
  rcx = 0;
  rdx = 0;
  rdi = 0;
  rsi = 0;
  rbp = 0;
  rsp = 0;
  r8 = 0;
  r9 = 0;
  r12 = 0;
  r13 = 0;
  r14 = 0;
  r15 = 0;
  rip = 0;
}

abbrev seven : List ℕ
seven = 1 ∷ 2 ∷ 3 ∷ 4 ∷ 5 ∷ 6 ∷ 7 ∷ []

z_makecontext-IsEntered_example :
    (c' : UContext) × (w' : Words) × (z_makecontext 5000 4096 6000 (pos 7) seven context (λ a. 0)
      ≡ some (c', w'))
    × ((a : ℕ) → a % 8 ≡ 0 → (a < 65536) ⊎ (65536 + 32768 < a + 8) → w' a ≡ 0)
    × ((zz_setcontext c'.mcontext_data no_cpu).rip ≡ 5000)
    × IsEntered 6000 4096 seven (ctx_start_enter 5050 w' (zz_setcontext c'.mcontext_data no_cpu))
z_makecontext-IsEntered_example =
    z_makecontext-IsEntered 5000 4096 6000 5050 seven context (λ a. 0) no_cpu (omega arith) refl
      (omega arith) (omega arith) (omega arith) (omega arith) (omega arith)

-- The second return of z_getcontext in z_swapcontext goes on without another switch.
swapped_once : (swap_again context).1 ≡ true
unfolding swap_again
swapped_once = refl

swapped_twice : (swap_again (swap_again context).0).1 ≡ false
unfolding swap_again
swapped_twice = refl
