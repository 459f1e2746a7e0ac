-- ===== src/Thread/Layout.antt =====
-- Where a thread's structure lies in its mapping, and what is freed of it.
use native.Mathlib.Nat.{mod-lt}
use lib_system_call.Base.{
  ℕ, ◌+◌, ◌-◌, ◌%◌, ◌^◌, ◌≤◌, ◌<◌, ◌≡◌, ◌≢◌, ◌⊎◌, inl, inr, Bool, true, false, List, [], ◌∷◌, some,
  ltb, ◌==◌, ◌!=◌, ◌&&◌, arith, refl, Bool-cases,
}
use lib_system_call.Str.{map_failed}
use lib_system_call.Thread.Create.{
  Attr, Thread, Request, mprotect, trunc_page, round_page, z_pthread_attr_guardsize,
  z_pthread_attr_stacksize, z_pthread_struct_init, z_pthread_allocate, terminate_memory,
}

-- The structure lies in what will be freed, at its start or above it.
abbrev pub IsPlaced : (struct_size t : ℕ) → Thread → Type 0
IsPlaced struct_size t thread =
    (thread.freeaddr ≤ t) × (t + struct_size ≤ thread.freeaddr + thread.freesize)

-- The `size` bytes at `addr` are protected, of which the kernel's request takes the low 32 bits, and
-- nothing else is; without a size nothing is.
abbrev pub IsGuarded : (addr size : ℕ) → List Request → Type 0
IsGuarded addr size guard =
    (size ≢ 0 → guard ≡ mprotect addr (size % 2 ^ 32) ∷ []) × (size ≡ 0 → guard ≡ [])

module _ (page : ℕ) where
  round_page-ge : (x : ℕ) → 0 < page → x + page < 2 ^ 64 → x ≤ round_page page x
  round_page-ge x pos fits = let small = mod-lt ((x + (page - 1)) % 2 ^ 64) pos in omega arith

  -- A thread that keeps its structure for a joiner frees whole pages below the structure, and leaves
  -- the rest of its mapping to the joiner; one that does not frees the whole mapping.
  terminate_memory_lem :
      (main_thread here stacksize struct_size t : ℕ) (thread : Thread) (keep : Bool)
      → t ≢ main_thread
      → 0 < struct_size
      → IsPlaced struct_size t thread
      → (let ((addr, size), left) =
            terminate_memory page main_thread here stacksize keep t thread in
          ((keep ≡ true)
            × (left.freeaddr ≡ thread.freeaddr + size)
            × (left.freesize + size ≡ thread.freesize)
            × ((addr ≡ thread.freeaddr) ⊎ (size ≡ 0))
            × IsPlaced struct_size t left)
          ⊎ ((keep ≡ false) × (addr ≡ thread.freeaddr) × (size ≡ thread.freesize)))
  unfolding terminate_memory
  terminate_memory_lem main here stacksize ss t thread keep ne pos placed =
      let below : trunc_page page (t - thread.freeaddr) ≤ t - thread.freeaddr = omega arith in
      let other : t == main ≡ false = ground arith in
      let nonzero : thread.freesize == 0 ≡ false = ground arith in
      elim (Bool-cases keep) [
        | inr freed ↦ inr (
          freed,
          elim (Bool-cases (ltb thread.freeaddr t && ltb t (thread.freeaddr + thread.freesize))) [
            | inl inside ↦ rw (freed, other, nonzero, inside) refl
            | inr outside ↦ rw (freed, other, nonzero, outside) refl
          ],
          rw (freed, other) refl,
        )
        | inl kept ↦
            elim (Bool-cases (ltb thread.freeaddr t && ltb t (thread.freeaddr + thread.freesize))) [
              | inl inside ↦ inl (
                kept,
                rw (kept, inside) refl,
                rw (kept, inside) (omega arith),
                elim (Bool-cases (trunc_page page (t - thread.freeaddr) == 0)) [
                  | inl none_below ↦ inr (rw (kept, inside) (ground arith))
                  | inr some_below ↦ inl (rw (kept, inside) (rw some_below refl))
                ],
                rw inside (omega arith),
              )
              | inr outside ↦ inl (
                kept,
                rw (kept, outside, other) (omega arith),
                rw (kept, outside, other) (omega arith),
                inr (rw (kept, outside, other) refl),
                rw outside placed,
              )
            ]
      ]

  -- The mapping of a new thread holds its guard page, its stack and its structure, in this order
  -- and without a gap between them, and the bytes of the guard page are those that are protected, as
  -- far as the low 32 bits of their number say; with a stack of the caller's the mapping holds the
  -- structure alone and nothing is protected.
  pub z_pthread_allocate_lem :
      (struct_size : ℕ) (mapped : ℕ → ℕ) (attrs : Attr) (t stack : ℕ) (thread : Thread)
      (guard : List Request)
      → 0 < page
      → ((n : ℕ) → mapped n ≢ map_failed → mapped n + n < 2 ^ 64)
      → z_pthread_attr_stacksize page attrs
          + z_pthread_attr_guardsize page attrs
          + struct_size
          + page
        < 2 ^ 64
      → z_pthread_allocate page struct_size mapped attrs ≡ some (t, thread, stack, guard)
      → IsPlaced struct_size t thread
        × (thread.stackaddr ≡ stack)
        × (attrs.stackaddr ≢ 0 → (stack ≡ attrs.stackaddr) × (t ≡ thread.freeaddr) × (guard ≡ []))
        × (attrs.stackaddr ≡ 0
            → (stack ≡ t)
              × (thread.stackbottom ≡ thread.freeaddr + z_pthread_attr_guardsize page attrs)
              × (t ≡ thread.stackbottom + z_pthread_attr_stacksize page attrs)
              × IsGuarded thread.freeaddr (z_pthread_attr_guardsize page attrs) guard)
  unfolding z_pthread_allocate z_pthread_struct_init
  z_pthread_allocate_lem ss mapped attrs t stack thread guard pos fits small e =
      elim (Bool-cases (attrs.stackaddr != 0)) [
        | inl custom ↦ elim (Bool-cases (mapped ss == map_failed)) [
          | inl failed ↦ ground (arith, custom)
          | inr got ↦ let at_struct = fits ss (λ f. ground (arith, f)) in ground (arith, custom)
        ]
        | inr own ↦
            let off = z_pthread_attr_stacksize page attrs + z_pthread_attr_guardsize page attrs in
            let whole = round_page-ge (off + ss) pos small in
            elim (Bool-cases (mapped (round_page page (off + ss)) == map_failed)) [
              | inl failed ↦ ground (arith, own)
              | inr got ↦
                  let in_range = fits (round_page page (off + ss)) (λ f. ground (arith, f)) in
                  ground (arith, own)
            ]
      ]

  -- Of the mapping of a new thread each byte is freed once: what the exiting thread frees and what
  -- it leaves to a joiner are the mapping cut in two below the structure, and without a joiner it
  -- frees all of the mapping.
  pub terminate_memory-z_pthread_allocate :
      (struct_size : ℕ) (mapped : ℕ → ℕ) (attrs : Attr) (t stack : ℕ) (thread : Thread)
      (guard : List Request)
      → 0 < page
      → 0 < struct_size
      → ((n : ℕ) → mapped n ≢ map_failed → mapped n + n < 2 ^ 64)
      → z_pthread_attr_stacksize page attrs
          + z_pthread_attr_guardsize page attrs
          + struct_size
          + page
        < 2 ^ 64
      → z_pthread_allocate page struct_size mapped attrs ≡ some (t, thread, stack, guard)
      → (main_thread here stacksize : ℕ) (keep : Bool) → t ≢ main_thread
      → (let ((addr, size), left) =
            terminate_memory page main_thread here stacksize keep t thread in
          ((keep ≡ true)
            × (left.freeaddr ≡ thread.freeaddr + size)
            × (left.freesize + size ≡ thread.freesize)
            × ((addr ≡ thread.freeaddr) ⊎ (size ≡ 0))
            × IsPlaced struct_size t left)
          ⊎ ((keep ≡ false) × (addr ≡ thread.freeaddr) × (size ≡ thread.freesize)))
  terminate_memory-z_pthread_allocate ss mapped attrs t stack thread guard pos ss_pos fits small e
        main here size keep ne =
      terminate_memory_lem main here size ss t thread keep ne ss_pos
        (z_pthread_allocate_lem ss mapped attrs t stack thread guard pos fits small e).0
