-- ===== src/Thread/Create.antt =====
-- The structure of a thread, its stack and its creation.
use lib_system_call.Base.{
  ℕ, ◌+◌, ◌-◌, ◌*◌, ◌%◌, ◌^◌, Bool, false, ◌&&◌, ◌||◌, List, [], ◌∷◌, ◌++◌, Option, none, some, ltb,
  ◌==◌, ◌!=◌, bit_and, bit_or, if◌then◌else◌,
}
use lib_system_call.Str.{map_failed}

-- `struct z_pthread_attr_s`; `qosclass` is the union, whose first four bytes are the priority.
pub record Attr : Type 0 where
  pub sig : ℕ
  pub guardsize : ℕ
  pub stackaddr : ℕ
  pub stacksize : ℕ
  pub qosclass : ℕ
  pub is_joinable : Bool
  pub inherit : ℕ
  pub policy : ℕ
  pub schedset : Bool
  pub defaultguardpage : Bool

-- The fields of `struct z_pthread_t` that creation and termination set and read. `tsd_self` and
-- `tsd_qos` are two of its slots.
pub record Thread : Type 0 where
  pub sig : ℕ
  pub tsd_self : ℕ
  pub tsd_qos : ℕ
  pub tl_has_custom_stack : Bool
  pub stackaddr : ℕ
  pub stackbottom : ℕ
  pub freeaddr : ℕ
  pub freesize : ℕ
  pub guardsize : ℕ
  pub tl_joinable : Bool
  pub inherit : ℕ
  pub tl_policy : ℕ
  pub schedset : Bool
  pub cancel_state : ℕ
  pub fun : ℕ
  pub arg : ℕ

abbrev pub attr_sig : ℕ
attr_sig = 0x54484441

abbrev pub pthread_sig : ℕ
pthread_sig = 0x54485244

abbrev pub default_stack_size : ℕ
default_stack_size = 512 * 1024

abbrev pub pthread_stack_min : ℕ
pthread_stack_min = 8192

-- What is asked of the kernel, beside the mapping.
pub data Request : Type 0 where
  mprotect : (addr length_arg : ℕ) → Request
  bsdthread_create : (start arg stack t flags : ℕ) → Request
  munmap : (addr length_arg : ℕ) → Request

-- `trunc_page` and `vm_round_page`, for a page size that is a power of two.
abbrev pub trunc_page : (page x : ℕ) → ℕ
trunc_page page x = x - x % page

abbrev pub round_page : (page x : ℕ) → ℕ
round_page page x = trunc_page page ((x + (page - 1)) % 2 ^ 64)

module _ (page : ℕ) where
  unfoldable pub z_pthread_attr_guardsize : Attr → ℕ
  z_pthread_attr_guardsize attr = if attr.defaultguardpage then page else attr.guardsize

  unfoldable pub z_pthread_attr_stacksize : Attr → ℕ
  z_pthread_attr_stacksize attr = if attr.stacksize != 0 then attr.stacksize else default_stack_size

  -- On a structure at `t`, which a new mapping fills with zeros. With `schedset` the slot of the
  -- class is left as it is. The state is PTHREAD_CANCEL_ENABLE | PTHREAD_CANCEL_DEFERRED.
  unfoldable pub z_pthread_struct_init :
      (t : ℕ) → Attr → (stackaddr stacksize freeaddr freesize : ℕ) → Thread
  unfolding z_pthread_attr_guardsize
  z_pthread_struct_init t attrs stackaddr stacksize freeaddr freesize = record {
    sig = pthread_sig;
    tsd_self = t;
    tsd_qos = if attrs.schedset then 0 else attrs.qosclass;
    tl_has_custom_stack = attrs.stackaddr != 0;
    stackaddr = stackaddr;
    stackbottom = (stackaddr + 2 ^ 64 - stacksize) % 2 ^ 64;
    freeaddr = freeaddr;
    freesize = freesize;
    guardsize = z_pthread_attr_guardsize attrs;
    tl_joinable = attrs.is_joinable;
    inherit = attrs.inherit;
    tl_policy = attrs.policy;
    schedset = attrs.schedset;
    cancel_state = 3;
    fun = 0;
    arg = 0;
  }

  -- `mapped` is what `z_mmap` returns for a size, and `struct_size` is PTHREAD_SIZE. The result
  -- holds the structure's address, the structure, the stack and the guard page's request.
  unfoldable pub z_pthread_allocate :
      (struct_size : ℕ) (mapped : ℕ → ℕ) → Attr → Option (ℕ × Thread × ℕ × List Request)
  unfolding z_pthread_attr_guardsize z_pthread_attr_stacksize z_pthread_struct_init
  z_pthread_allocate struct_size mapped attrs =
      if attrs.stacksize != 0 && ltb attrs.stacksize pthread_stack_min
      then none
      else if attrs.stackaddr % page != 0
      then none
      else (let custom = attrs.stackaddr != 0 in
          let guardsize = if custom then 0 else z_pthread_attr_guardsize attrs in
          let stacksize = if custom then attrs.stacksize else z_pthread_attr_stacksize attrs in
          let pthreadoff = if custom then 0 else (stacksize + guardsize) % 2 ^ 64 in
          let allocsize =
            if custom then struct_size else round_page page ((pthreadoff + struct_size) % 2 ^ 64) in
          let allocaddr = mapped allocsize in
          if allocaddr == map_failed || allocaddr == 0
          then none
          else (let t = (allocaddr + pthreadoff) % 2 ^ 64 in
              let stack = if custom then attrs.stackaddr else t in
              some (
                t,
                z_pthread_struct_init t attrs stack stacksize allocaddr allocsize,
                stack,
                if guardsize != 0 then mprotect allocaddr (guardsize % 2 ^ 32) ∷ [] else [],
              )))

  -- The main thread is not freed.
  unfoldable pub z_pthread_deallocate : (main_thread : ℕ) → (t : ℕ) → Thread → List Request
  z_pthread_deallocate main_thread t thread =
      if t != main_thread then munmap thread.freeaddr thread.freesize ∷ [] else []

  -- The flags for the kernel: PTHREAD_START_CUSTOM, with PTHREAD_START_SETSCHED, the policy and the
  -- priority, or with PTHREAD_START_QOSCLASS and the class; and PTHREAD_START_SUSPENDED.
  unfoldable pub start_flags : Attr → (create_flags : ℕ) → ℕ
  start_flags attrs create_flags =
      let flags =
        if attrs.schedset
        then bit_or (bit_or 0x03000000 (bit_and attrs.policy 0xff * 2 ^ 16))
            (bit_and (attrs.qosclass % 2 ^ 32) 0xffff)
        else if attrs.qosclass != 0
        then bit_or 0x09000000 (bit_and attrs.qosclass 0xffffff)
        else 0x01000000 in
      if bit_and create_flags 2 != 0 then bit_or flags 0x20000000 else flags

  -- The result code, `*thread` when the code is 0, and the requests to the kernel. `created` says
  -- whether `z_bsdthread_create` succeeds; `default_attr` is `z_pthread_attr_default`.
  unfoldable pub z_pthread_create_internal :
      (struct_size main_thread : ℕ) (mapped : ℕ → ℕ) (created : Bool) (default_attr : Attr)
      → Option Attr
      → (start_routine arg create_flags : ℕ) → ℕ × Option (ℕ × Thread) × List Request
  unfolding z_pthread_allocate z_pthread_deallocate start_flags
  z_pthread_create_internal struct_size main_thread mapped created default_attr attr start arg cf =
      let attrs : Attr = elim attr [ none ↦ default_attr | some a ↦ a ] in
      if elim attr [ none ↦ false | some a ↦ a.sig != attr_sig ]
      then (22, none, [])
      else elim (z_pthread_allocate struct_size mapped attrs) [
        | none ↦ (35, none, [])
        | some (t, thread, stack, guard) ↦
            (let thread' : Thread = record thread { fun = start; arg = arg } in
              let request = bsdthread_create start arg stack t (start_flags attrs cf) in
              if created
              then (0, some (t, thread'), guard ++ request ∷ [])
              else (35, none, guard ++ request ∷ z_pthread_deallocate main_thread t thread'))
      ]

  -- `z_pthread_create` passes no flags.
  unfoldable pub z_pthread_create :
      (struct_size main_thread : ℕ) (mapped : ℕ → ℕ) (created : Bool) (default_attr : Attr)
      → Option Attr
      → (start_routine arg : ℕ) → ℕ × Option (ℕ × Thread) × List Request
  unfolding z_pthread_create_internal
  z_pthread_create struct_size main_thread mapped created default_attr attr start arg =
      z_pthread_create_internal struct_size main_thread mapped created default_attr attr start arg 0

  -- `limit` is `rlim_cur` when `z_getrlimit` succeeds. ESRCH, 3, for a null pointer.
  unfoldable pub z_pthread_get_stacksize_np :
      (main_thread self : ℕ) (limit : Option ℕ) → (t : ℕ) → Thread → ℕ
  z_pthread_get_stacksize_np main_thread self limit t thread =
      let size = (thread.stackaddr + 2 ^ 64 - thread.stackbottom) % 2 ^ 64 in
      let rlimit_stack : ℕ = elim limit [ none ↦ 0 | some l ↦ l ] in
      let known = if t == self || t == main_thread then size else 0 in
      if t == 0
      then 3
      else if t == main_thread && (size + page) % 2 ^ 64 != thread.freesize
      then if rlimit_stack == 0 || ltb thread.freesize rlimit_stack
        then size
        else round_page page rlimit_stack
      else if known != 0
      then known
      else default_stack_size

  -- What `z_pthread_terminate` gives the kernel to free, and the structure as it leaves it for the
  -- joiner. `here` is an address on the current stack, and `stacksize` the size of the main
  -- thread's.
  unfoldable pub terminate_memory :
      (main_thread here stacksize : ℕ) (keep : Bool) → (t : ℕ) → Thread → (ℕ × ℕ) × Thread
  terminate_memory main_thread here stacksize keep t thread =
      let inside = ltb thread.freeaddr t && ltb t (thread.freeaddr + thread.freesize) in
      let is_main = t == main_thread in
      let below = trunc_page page (t - thread.freeaddr) in
      let mainaddr = (thread.stackaddr + 2 ^ 64 - stacksize) % 2 ^ 64 in
      let freesize_stack =
        if inside
        then below
        else if is_main
        then (trunc_page page here + 2 ^ 64 - mainaddr) % 2 ^ 64
        else 0 in
      let freeaddr =
        if inside then thread.freeaddr else if is_main then mainaddr else thread.freeaddr in
      let thread' : Thread =
        if inside
        then record thread {
          freeaddr = thread.freeaddr + below;
          freesize = thread.freesize - below;
        }
        else thread in
      let freesize = if keep || is_main then freesize_stack else thread.freesize in
      ((if freesize == 0 then 0 else freeaddr, freesize), thread')
