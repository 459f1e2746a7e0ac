-- ===== src/Context/Entry.antt =====
-- How the start routine of a context that z_makecontext made is entered.
use lib_system_call.Base.{
  ℕ, zero, suc, ◌+◌, ◌-◌, ◌*◌, ◌%◌, ◌^◌, ◌≤◌, ◌<◌, ◌≡◌, ◌≢◌, ◌⊎◌, true, false, ◌||◌, List, [], ◌∷◌,
  ◌++◌, some, length, length-append, append_assoc, get_or, ltb, arith, refl, ap, sym, ◌∙◌, ◌==◌,
}
use lib_system_call.Base.Int.{pos}
use lib_system_call.Context.{
  Stack, ThreadState, UContext, Words, Cpu, store, store_words, slots, stack_top_for, data_of,
  minsigstksz, ncargs, zz_setcontext, ctx_start_enter, z_makecontext, sub64,
}
use lib_system_call.Context.Words.{
  store_words_outside, store_words_at, with_zeros, length-with_zeros, get_or-zeros, padding, layout,
  last_place, arrange-layout,
}

-- The arrangement fits on the stack, and its top is aligned.
stack_top_fits :
    (stack : Stack) (argc : ℕ)
    → stack.ss_sp + stack.ss_size < 2 ^ 64
    → minsigstksz ≤ stack.ss_size
    → 8 * argc + 56 ≤ stack.ss_size
    → let top = stack_top_for stack (slots argc) in
      (stack.ss_sp ≤ top) × (top % 16 ≡ 0) × (last_place top argc + 8 ≤ stack.ss_sp + stack.ss_size)
stack_top_fits stack argc small large room = ground arith

get_or-append : (xs ys : List ℕ) (i : ℕ) → i < length xs → get_or (xs ++ ys) i 0 ≡ get_or xs i 0
get_or-append [] ys i below = absurd (omega arith)
get_or-append (x ∷ xs) ys zero below = refl
get_or-append (x ∷ xs) ys (suc i) below = get_or-append xs ys i (omega arith)

get_or-last : (xs : List ℕ) (v : ℕ) → get_or (xs ++ v ∷ []) (length xs) 0 ≡ v
get_or-last [] v = refl
get_or-last (x ∷ xs) v = get_or-last xs v

-- The words of the arrangement.
module _ (ctx_start start ucp top : ℕ) (args : List ℕ) (w : Words) where
  abbrev arranged : Words
  arranged = store_words w top (layout ctx_start start ucp args)

  length-layout :
      length (layout ctx_start start ucp args)
      ≡ 3 + slots (length args) + length (padding (length args))
  length-layout =
      let size = length-with_zeros args in
      let rest = length-append (padding (length args)) (ucp ∷ []) in
      let all = length-append (with_zeros args) (padding (length args) ++ ucp ∷ []) in
      omega (arith, size, rest, all)

  arranged_start : arranged (top + 8) ≡ start
  arranged_start =
      let size = length-layout in
      store_words_at (layout ctx_start start ucp args) w top 1 (omega arith)

  arranged_arg : (i : ℕ) → i < slots (length args) → arranged (top + 16 + 8 * i) ≡ get_or args i 0
  arranged_arg i below =
      let size = length-layout in
      let filled = length-with_zeros args in
      let place : top + 16 + 8 * i ≡ top + 8 * suc (suc i) = omega arith in
      ap arranged place
      ∙ store_words_at (layout ctx_start start ucp args) w top (suc (suc i)) (omega arith)
      ∙ get_or-append (with_zeros args) (padding (length args) ++ ucp ∷ []) i (omega arith)
      ∙ get_or-zeros (slots (length args) - length args) args i

  arranged_ucp : arranged (last_place top (length args)) ≡ ucp
  arranged_ucp =
      let size = length-layout in
      let filled = length-with_zeros args in
      let before : List ℕ = ctx_start ∷ start ∷ (with_zeros args ++ padding (length args)) in
      let long = length-append (with_zeros args) (padding (length args)) in
      let place : last_place top (length args) ≡ top + 8 * length before = omega arith in
      let same : layout ctx_start start ucp args ≡ before ++ ucp ∷ [] =
        ap (λ xs. ctx_start ∷ start ∷ xs)
          (sym (append_assoc (with_zeros args) (padding (length args)) (ucp ∷ []))) in
      ap arranged place
      ∙ store_words_at (layout ctx_start start ucp args) w top (length before) (omega arith)
      ∙ ap (λ xs. get_or xs (length before) 0) same
      ∙ get_or-last before ucp

-- What the start routine finds: its first six arguments in registers, the others on the stack behind
-- the return address, the stack aligned, and the place of `ucp` in a register that it keeps.
abbrev pub IsEntered : (start ucp : ℕ) → List ℕ → Words × Cpu → Type 0
IsEntered start ucp args (w, cpu) =
    (cpu.rip ≡ start)
    × (cpu.rdi ≡ get_or args 0 0)
    × (cpu.rsi ≡ get_or args 1 0)
    × (cpu.rdx ≡ get_or args 2 0)
    × (cpu.rcx ≡ get_or args 3 0)
    × (cpu.r8 ≡ get_or args 4 0)
    × (cpu.r9 ≡ get_or args 5 0)
    × ((cpu.rsp + 8) % 16 ≡ 0)
    × ((i : ℕ) → 6 ≤ i → i < length args → w (cpu.rsp + 8 + 8 * (i - 6)) ≡ get_or args i 0)
    × (w cpu.r12 ≡ ucp)

entered :
    (ctx_start start ucp top back : ℕ) (args : List ℕ) (w : Words) (cpu : Cpu)
    → top + 64 < 2 ^ 64
    → top % 16 ≡ 0
    → cpu.rsp ≡ top + 8
    → cpu.r12 ≡ last_place top (length args)
    → IsEntered start ucp args
        (ctx_start_enter back (store_words w top (layout ctx_start start ucp args)) cpu)
unfolding ctx_start_enter
entered ctx_start start ucp top back args w cpu small even sp base =
    let filled = arranged ctx_start start ucp top args w in
    let arg : (a i : ℕ)
        → a ≡ top + 16 + 8 * i
        → i < slots (length args)
        → filled a ≡ get_or args i 0 =
      λ a i place below. ap filled place ∙ arranged_arg ctx_start start ucp top args w i below in
    let kept : (a : ℕ) → a ≢ top + 56 → store filled (sub64 (cpu.rsp + 56) 8) back a ≡ filled a =
      λ a other. ground (arith, other, sp, small) in
    (
      ap filled sp ∙ arranged_start ctx_start start ucp top args w,
      arg (cpu.rsp + 8) 0 (omega arith) (ground arith),
      arg (cpu.rsp + 16) 1 (omega arith) (ground arith),
      arg (cpu.rsp + 24) 2 (omega arith) (ground arith),
      arg (cpu.rsp + 32) 3 (omega arith) (ground arith),
      arg (cpu.rsp + 40) 4 (omega arith) (ground arith),
      arg (cpu.rsp + 48) 5 (omega arith) (ground arith),
      omega arith,
      (λ i from below.
          kept (sub64 (cpu.rsp + 56) 8 + 8 + 8 * (i - 6)) (omega arith)
          ∙ arg (sub64 (cpu.rsp + 56) 8 + 8 + 8 * (i - 6)) i (omega arith) (ground arith)),
      kept cpu.r12 (ground (arith, base))
          ∙ ap filled base
          ∙ arranged_ucp ctx_start start ucp top args w,
    )

-- On a stack large enough for its arguments `z_makecontext` succeeds, writes only words inside the
-- stack, and makes a context of which, once it is set, the start routine is entered with its first
-- six arguments in registers, the others on the stack, an aligned stack, and the address of the
-- context at the place that a register keeps for its return.
pub z_makecontext-IsEntered :
    (ctx_start ucp start back : ℕ) (args : List ℕ) (c : UContext) (w : Words) (cpu : Cpu)
    → ucp ≢ 0
    → c.uc_mcontext ≡ data_of ucp
    → c.uc_stack.ss_sp ≢ 0
    → minsigstksz ≤ c.uc_stack.ss_size
    → c.uc_stack.ss_sp + c.uc_stack.ss_size < 2 ^ 64
    → length args ≤ ncargs
    → 8 * length args + 56 ≤ c.uc_stack.ss_size
    → (c' : UContext) × (w' : Words) × (z_makecontext ctx_start ucp start
          (pos (length args))
          args
          c
          w
        ≡ some (c', w'))
      × ((a : ℕ)
          → a % 8 ≡ 0
          → (a < c.uc_stack.ss_sp) ⊎ (c.uc_stack.ss_sp + c.uc_stack.ss_size < a + 8)
          → w' a ≡ w a)
      × ((zz_setcontext c'.mcontext_data cpu).rip ≡ ctx_start)
      × IsEntered start ucp args (ctx_start_enter back w' (zz_setcontext c'.mcontext_data cpu))
unfolding z_makecontext zz_setcontext
z_makecontext-IsEntered ctx_start ucp start back args c w cpu there own stack large small few room =
    let argc = length args in
    let top = stack_top_for c.uc_stack (slots argc) in
    let (low, even, high) = stack_top_fits c.uc_stack argc small large room in
    let (words, place) = arrange-layout ctx_start start ucp top args w in
    let size = length-layout ctx_start start ucp top args w in
    let six : 6 ≤ slots argc = ground arith in
    let valid : ucp == 0 ≡ false = ground (arith, there) in
    let usable : c.uc_stack.ss_sp == 0 || ltb c.uc_stack.ss_size minsigstksz ≡ false =
      ground (arith, stack, large) in
    let counted : ltb ncargs argc ≡ false = ground (arith, few) in
    let same : c.uc_mcontext == data_of ucp ≡ true = ground (arith, own) in
    let w' = store_words w top (layout ctx_start start ucp args) in
    let t : ThreadState = record c.mcontext_data {
      r12 = last_place top argc;
      rbp = 0;
      rsp = top + 8;
      rip = ctx_start;
    } in
    (
      record c { mcontext_data = t },
      w',
      rw (valid, usable) (rw (counted, same) (rw (words, place) refl)),
      (λ a whole apart.
          store_words_outside (layout ctx_start start ucp args) w top a
            (omega (arith, apart, low, high, size))),
      refl,
      entered ctx_start start ucp top back args w (zz_setcontext t cpu) (omega arith) even refl
          refl,
    )
