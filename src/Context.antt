-- ===== src/Context.antt =====
-- User contexts: z_uccontext.c, and the instructions of z_uccontext.s. The words of a stack are
-- given by their addresses, which are multiples of 8, and an instruction changes the registers that
-- it names.
pub mod Words
pub mod Entry
use lib_system_call.Base.{
  ℕ, zero, suc, ◌+◌, ◌-◌, ◌*◌, ◌/◌, ◌%◌, ◌^◌, Bool, true, false, not, ◌&&◌, ◌||◌, List, [], ◌∷◌,
  Option, none, some, bit_and, bit_or, length, replicate, ltb, leb, ◌==◌, ◌!=◌, if◌then◌else◌,
}
use lib_system_call.Base.Int.{ℤ, pos, negsuc}

-- `struct z_stack_t`
pub record Stack : Type 0 where
  pub ss_sp : ℕ
  pub ss_size : ℕ
  pub ss_flags : ℕ

-- `struct x86_thread_state64`
pub record ThreadState : Type 0 where
  pub rax : ℕ
  pub rbx : ℕ
  pub rcx : ℕ
  pub rdx : ℕ
  pub rdi : ℕ
  pub rsi : ℕ
  pub rbp : ℕ
  pub rsp : ℕ
  pub r8 : ℕ
  pub r9 : ℕ
  pub r10 : ℕ
  pub r11 : ℕ
  pub r12 : ℕ
  pub r13 : ℕ
  pub r14 : ℕ
  pub r15 : ℕ
  pub rip : ℕ
  pub rflags : ℕ
  pub cs : ℕ
  pub fs : ℕ
  pub gs : ℕ

-- `struct z_ucontext`, of whose machine context only the thread state is used. `uc_link` and
-- `uc_mcontext` are addresses.
pub record UContext : Type 0 where
  pub uc_onstack : ℕ
  pub uc_sigmask : ℕ
  pub uc_stack : Stack
  pub uc_link : ℕ
  pub uc_mcsize : ℕ
  pub uc_mcontext : ℕ
  pub mcontext_data : ThreadState

-- `(struct z_mcontext64 *)&(uctx->mcontext_data)`
abbrev pub data_of : (uctx : ℕ) → ℕ
data_of uctx = uctx + 56

-- Subtraction on 64 bits.
abbrev pub sub64 : ℕ → ℕ → ℕ
sub64 a b = (a + 2 ^ 64 - b) % 2 ^ 64

abbrev pub Words : Type 0
Words = ℕ → ℕ

abbrev pub store : Words → ℕ → ℕ → Words
store w p v a = if a == p then v else w a

-- `*argp++ = v` for each word, with the `argp` that is left.
unfoldable pub store_words : Words → (argp : ℕ) → List ℕ → Words
store_words w argp [] = w
store_words w argp (v ∷ vs) = store_words (store w argp v) (argp + 8) vs

-- What the functions ask of the kernel: the state of the signal stack, when the request succeeds,
-- the soft limit of the stack, when that does, and the mask of signals.
pub record Requests (σ : Type 0) : Type 0 where
  pub sigaltstack : σ → Option Stack × σ
  pub stack_limit : σ → Option ℕ × σ
  pub sigprocmask : (how : ℕ) → Option ℕ → σ → ℕ × σ

-- SS_ONSTACK, MINSIGSTKSZ, NCARGS and SIG_SETMASK.
abbrev pub ss_onstack : ℕ
ss_onstack = 1

abbrev pub minsigstksz : ℕ
minsigstksz = 32768

abbrev pub ncargs : ℕ
ncargs = 1024 * 1024

abbrev pub sig_setmask : ℕ
sig_setmask = 3

-- The stack that the first test finds, with `stacksize`.
abbrev pub found_stack : (sp : ℕ) → Option Stack → Stack × ℕ
found_stack sp stack = elim stack [
  | none ↦ (record { ss_sp = sp; ss_size = 0; ss_flags = 0 }, 0)
  | some on ↦
      if bit_and on.ss_flags ss_onstack != 0
      then (on, on.ss_size)
      else (record { ss_sp = sp; ss_size = 0; ss_flags = 0 }, 0)
]

abbrev pub known_or : ℕ → Option ℕ → ℕ
known_or d limit = elim limit [ none ↦ d | some n ↦ n ]

module _ {σ : Type 0} (k : Requests σ) where
  -- The context with the address of its machine context; the old size of the stack is overwritten.
  unfoldable pub z_getmcontext : (uctx sp : ℕ) → UContext → σ → UContext × σ
  z_getmcontext uctx sp c s =
      let (on, s₁) = k.sigaltstack s in
      let (stack, stacksize) = found_stack sp on in
      let (limit, s₂) = if stacksize == 0 then k.stack_limit s₁ else (none, s₁) in
      let size = known_or stacksize limit in
      let moved = c.uc_mcontext != data_of uctx in
      let (mask, s₃) = k.sigprocmask 0 none s₂ in
      (
        record c {
          uc_stack = record stack { ss_size = size };
          uc_mcontext = data_of uctx;
          uc_link = if moved then 0 else c.uc_link;
          uc_sigmask = mask;
        },
        s₃,
      )

-- The registers that the instructions use.
pub record Cpu : Type 0 where
  pub rax : ℕ
  pub rbx : ℕ
  pub rcx : ℕ
  pub rdx : ℕ
  pub rdi : ℕ
  pub rsi : ℕ
  pub rbp : ℕ
  pub rsp : ℕ
  pub r8 : ℕ
  pub r9 : ℕ
  pub r12 : ℕ
  pub r13 : ℕ
  pub r14 : ℕ
  pub r15 : ℕ
  pub rip : ℕ

-- `_z_getcontext`, with the words of the stack at entry and the context that z_getmcontext leaves;
-- `%rbp` has been restored. The result is 0.
unfoldable pub z_getcontext : Words → Cpu → UContext → UContext
z_getcontext w cpu c = record c {
  mcontext_data = record c.mcontext_data {
    rbp = cpu.rbp;
    rbx = cpu.rbx;
    r12 = cpu.r12;
    r13 = cpu.r13;
    r14 = cpu.r14;
    r15 = cpu.r15;
    rip = w cpu.rsp;
    rsp = cpu.rsp + 8;
  };
}

-- `_zz_setcontext`, with the jump.
unfoldable pub zz_setcontext : ThreadState → Cpu → Cpu
zz_setcontext t cpu = record cpu {
  rbx = t.rbx;
  r12 = t.r12;
  r13 = t.r13;
  r14 = t.r14;
  r15 = t.r15;
  rsp = t.rsp;
  rbp = t.rbp;
  rax = 0;
  rip = t.rip;
}

-- `_z_ctx_start` up to the start routine: seven words are popped, and `callq *%rax` pushes the
-- address behind it, `back`.
unfoldable pub ctx_start_enter : (back : ℕ) → Words → Cpu → Words × Cpu
ctx_start_enter back w cpu = (
  store w (sub64 (cpu.rsp + 56) 8) back,
  record cpu {
    rax = w cpu.rsp;
    rdi = w (cpu.rsp + 8);
    rsi = w (cpu.rsp + 16);
    rdx = w (cpu.rsp + 24);
    rcx = w (cpu.rsp + 32);
    r8 = w (cpu.rsp + 40);
    r9 = w (cpu.rsp + 48);
    rsp = sub64 (cpu.rsp + 56) 8;
    rip = w cpu.rsp;
  },
)

-- The rest of it, behind the return of the start routine, up to `call _z_ctx_done`, which pushes the
-- address behind it.
unfoldable pub ctx_start_leave : (ctx_done back : ℕ) → Words → Cpu → Words × Cpu
ctx_start_leave ctx_done back w cpu = (
  store w (sub64 cpu.r12 8) back,
  record cpu { rdi = w cpu.r12; rsp = sub64 cpu.r12 8; rip = ctx_done },
)

-- `stack_top` for so many slots of arguments.
abbrev pub stack_top_for : Stack → (minargc : ℕ) → ℕ
stack_top_for stack minargc =
    sub64 (sub64 (sub64 (stack.ss_sp + stack.ss_size) 8) (8 * (1 + minargc)) / 16 * 16) 16

-- `minargc`
abbrev pub slots : (argc : ℕ) → ℕ
slots argc = if ltb argc 6 then 6 else argc

-- The arrangement of the stack: the words, and the last place.
unfoldable pub arrange : (ctx_start start ucp stack_top : ℕ) → List ℕ → Words → Words × ℕ
unfolding store_words
arrange ctx_start start ucp stack_top args w =
    let argc = length args in
    let w₁ = store_words w stack_top (ctx_start ∷ start ∷ []) in
    let argp₁ = stack_top + 16 in
    let w₂ = store_words w₁ argp₁ args in
    let argp₂ = argp₁ + 8 * argc in
    let w₃ = store_words w₂ argp₂ (replicate (slots argc - argc) 0) in
    let argp₃ = argp₂ + 8 * (slots argc - argc) in
    let uneven = slots argc % 2 == 1 in
    let w₄ = if uneven then store w₃ argp₃ 0 else w₃ in
    let argp₄ = if uneven then argp₃ + 8 else argp₃ in (store w₄ argp₄ ucp, argp₄)

-- `ctx_start` is the address of _z_ctx_start, and `args` are the `argc` words behind `argc`, none for
-- a negative one. A null `ucp` is 0. The machine context is the one of the same context, to which
-- z_getcontext sets the pointer; where it points elsewhere the result is `none`.
unfoldable pub z_makecontext :
    (ctx_start ucp start : ℕ) → (argc : ℤ) → List ℕ → UContext → Words → Option (UContext × Words)
unfolding arrange
z_makecontext ctx_start ucp start (negsuc n) args c w =
    if ucp == 0 then some (c, w) else some (record c { uc_mcsize = 0 }, w)
z_makecontext ctx_start ucp start (pos argc) args c w =
    let stack_top = stack_top_for c.uc_stack (slots argc) in
    let (w', argp) = arrange ctx_start start ucp stack_top args w in
    if ucp == 0
    then some (c, w)
    else if c.uc_stack.ss_sp == 0 || ltb c.uc_stack.ss_size minsigstksz
    then some (record c { uc_mcsize = 0 }, w)
    else if ltb ncargs argc
    then some (record c { uc_mcsize = 0 }, w)
    else if c.uc_mcontext == data_of ucp
    then some (
      record c {
        mcontext_data = record c.mcontext_data {
          r12 = argp;
          rbp = 0;
          rsp = stack_top + 8;
          rip = ctx_start;
        };
      },
      w',
    )
    else none

-- A context is left for good, so that the result is the registers with which another goes on.
module _ {σ : Type 0} (k : Requests σ) where
  unfoldable pub z_setcontext : (uctx : ℕ) → UContext → Cpu → σ → UContext × Cpu × σ
  unfolding zz_setcontext
  z_setcontext uctx c cpu s =
      let (mask, s') = k.sigprocmask sig_setmask (some c.uc_sigmask) s in
      (record c { uc_mcontext = data_of uctx }, zz_setcontext c.mcontext_data cpu, s')

  -- `linked` is the context at `uc_link`. Without one the program exits, `none`.
  unfoldable pub z_ctx_done :
      UContext → (linked : UContext) → Cpu → σ → UContext × Option (UContext × Cpu × σ)
  unfolding z_setcontext
  z_ctx_done c linked cpu s =
      if c.uc_link == 0
      then (c, none)
      else (record c { uc_mcsize = 0 }, some (z_setcontext c.uc_link linked cpu s))

-- UCF_SWAPPED
abbrev pub ucf_swapped : ℕ
ucf_swapped = 0x80000000

-- `oucp->uc_onstack & ~UCF_SWAPPED`, on 32 bits.
abbrev pub unswapped : ℕ → ℕ
unswapped f = bit_and f 0x7fffffff

-- z_swapcontext: the first part, up to the return of z_getcontext, with that context saved; a null
-- pointer is 0. The result is `none` for EINVAL.
unfoldable pub swap_save : (oucp ucp : ℕ) → UContext → Option UContext
swap_save oucp ucp c =
    if oucp == 0 || ucp == 0 then none else some (record c { uc_onstack = unswapped c.uc_onstack })

-- The second part, behind z_getcontext, which returns twice: when the flag is not set yet the other
-- context is to be entered, `true`, and otherwise the function returns 0.
unfoldable pub swap_again : UContext → UContext × Bool
swap_again c =
    if bit_and c.uc_onstack ucf_swapped == 0
    then (record c { uc_onstack = bit_or c.uc_onstack ucf_swapped }, true)
    else (c, false)
