-- ===== src/Tests/Thread.antt =====
-- Runs of threads, and their theorems at concrete inputs.
use lib_system_call.Base.{
  ℕ, List, ◌+◌, ◌*◌, ◌^◌, [], ◌∷◌, ◌<◌, ◌≡◌, ◌≢◌, ◌⊎◌, true, false, some, ltb, if◌then◌else◌, arith,
  refl,
}
use lib_system_call.Str.{map_failed}
use lib_system_call.Thread.Create.{
  Attr, attr_sig, Thread, z_pthread_allocate, z_pthread_attr_guardsize, z_pthread_attr_stacksize,
  z_pthread_struct_init, terminate_memory, mprotect,
}
use lib_system_call.Thread.Layout.{
  IsPlaced, z_pthread_allocate_lem, terminate_memory-z_pthread_allocate,
}
use lib_system_call.Thread.State.{waiting, joined, join_faulted, exit_faulted, Shared, started}
use lib_system_call.Thread.Join.{
  terminate_step, join_step, z_pthread_joiner_prepost_wake, exit, join, Reach, here, next,
  z_pthread_terminate, z_pthread_join,
}
use lib_system_call.Thread.Fork.{
  AtforkEntry, called, saved_self, forked, not_threaded, main_thread_renewed, bsdthread_registered,
  mach_renewed, self_set, z_fork,
}
use lib_system_call.Thread.Handlers.{z_fork_lem}
use lib_system_call.Thread.Late.{z_pthread_join_late}

abbrev plain : Attr
plain = record {
  sig = attr_sig;
  guardsize = 0;
  stackaddr = 0;
  stacksize = 0;
  qosclass = 0;
  is_joinable = true;
  inherit = 0;
  policy = 0;
  schedset = false;
  defaultguardpage = true;
}

-- 4 KB pages and a structure of two of them.
abbrev mapping : ℕ → ℕ
mapping n = if ltb n (2 ^ 32) then 4096 * 256 else map_failed

abbrev new_thread : Thread
unfolding z_pthread_struct_init
new_thread =
    z_pthread_struct_init 4096 (4096 * 385) plain (4096 * 385) (4096 * 128) (4096 * 256)
      (4096 * 131)

-- The joiner is between its last two accesses when the thread unmaps the structure, and its next
-- access meets it.
freed_under_joiner :
    (s : Shared) × Reach (started true) s × (s.joiner ≡ join_faulted) × (s.freed ≡ 1)
unfolding terminate_step join_step z_pthread_joiner_prepost_wake
freed_under_joiner = (
  _,
  next
      (next
        (next
          (next
            (next
              (next
                (next
                  (next
                    (next
                      (next
                        (next
                          (next
                            (next
                              (next
                                (next
                                  (next
                                    (next
                                      (next
                                        (next (next (next here (join refl)) (join refl))
                                          (join refl))
                                        (join refl))
                                      (join refl))
                                    (exit refl))
                                  (exit refl))
                                (exit refl))
                              (exit refl))
                            (exit refl))
                          (exit refl))
                        (exit refl))
                      (exit refl))
                    (exit refl))
                  (exit refl))
                (join refl))
              (join refl))
            (join refl))
          (exit refl))
        (exit refl))
      (join refl),
  refl,
  refl,
)

-- The thread sees a joiner, which the gate has already let go on: the joiner clears `tl_join_ctx`, and
-- the thread follows the null pointer.
null_context : (s : Shared) × Reach (started true) s × (s.exiting ≡ exit_faulted) × (s.freed ≡ 0)
unfolding terminate_step join_step z_pthread_joiner_prepost_wake
null_context = (
  _,
  next
      (next
        (next
          (next
            (next
              (next
                (next
                  (next
                    (next
                      (next (next (next (next here (join refl)) (join refl)) (join refl))
                        (join refl))
                      (join refl))
                    (exit refl))
                  (exit refl))
                (join refl))
              (join refl))
            (join refl))
          (exit refl))
        (exit refl))
      (exit refl),
  refl,
  refl,
)

-- The exit of a thread without a joiner.
exited : Reach (started true) (z_pthread_terminate 6 (started true))
unfolding z_pthread_terminate
exited =
    next
      (next (next (next (next (next here (exit refl)) (exit refl)) (exit refl)) (exit refl))
        (exit refl))
      (exit refl)

z_pthread_join_late_example : waiting ≢ joined
unfolding z_pthread_terminate join_step z_pthread_join
z_pthread_join_late_example =
    z_pthread_join_late true (z_pthread_terminate 6 (started true))
      (z_pthread_join 6 (z_pthread_terminate 6 (started true))) exited (λ e. cc) refl
      (next (next (next (next (next here (join refl)) (join refl)) (join refl)) (join refl))
        (join refl))

-- A joiner that waits for a thread that runs.
abbrev waits_first : Shared
waits_first = z_pthread_join 5 (started true)

allocated :
    z_pthread_allocate 4096 8192 mapping plain
    ≡ some (4096 * 385, new_thread, 4096 * 385, mprotect (4096 * 256) 4096 ∷ [])
unfolding z_pthread_allocate z_pthread_struct_init
allocated = refl

mapping_fits : (n : ℕ) → mapping n ≢ map_failed → mapping n + n < 2 ^ 64
mapping_fits n ne = ground arith

z_pthread_allocate_lem_example : IsPlaced 8192 (4096 * 385) new_thread
unfolding z_pthread_attr_guardsize z_pthread_attr_stacksize
z_pthread_allocate_lem_example =
    (z_pthread_allocate_lem 4096 8192 mapping plain (4096 * 385) (4096 * 385) new_thread
      (mprotect (4096 * 256) 4096 ∷ []) (omega arith) mapping_fits (omega arith) allocated).0

terminate_memory-z_pthread_allocate_example :
    ((true ≡ true)
      × (4096 * 385 ≡ 4096 * 256 + 4096 * 129)
      × (8192 + 4096 * 129 ≡ 4096 * 131)
      × ((4096 * 256 ≡ 4096 * 256) ⊎ (4096 * 129 ≡ 0))
      × IsPlaced 8192 (4096 * 385) (record new_thread { freeaddr = 4096 * 385; freesize = 8192 }))
    ⊎ ((true ≡ false) × (4096 * 256 ≡ 4096 * 256) × (4096 * 129 ≡ 4096 * 131))
unfolding z_pthread_attr_guardsize z_pthread_attr_stacksize terminate_memory new_thread
terminate_memory-z_pthread_allocate_example =
    terminate_memory-z_pthread_allocate 4096 8192 mapping plain (4096 * 385) (4096 * 385) new_thread
      (mprotect (4096 * 256) 4096 ∷ []) (omega arith) (omega arith) mapping_fits (omega arith)
      allocated 0 0 0 true (omega arith)

abbrev two_handlers : List AtforkEntry
two_handlers =
    record { prepare = 1; parent = 2; child = 0 }
    ∷ record { prepare = 3; parent = 0; child = 4 }
    ∷ []

-- What the request returns in the child.
abbrev in_child : ℕ
in_child = 0

z_fork_lem_example :
    ((z_fork in_child two_handlers).0 ≡ in_child)
    × (in_child ≢ 0
        → (z_fork in_child two_handlers).1
          ≡ called 3 ∷ called 1 ∷ saved_self ∷ forked ∷ called 2 ∷ [])
    × (in_child ≡ 0
        → (z_fork in_child two_handlers).1
          ≡ called 3
            ∷ called 1
            ∷ saved_self
            ∷ forked
            ∷ not_threaded
            ∷ main_thread_renewed
            ∷ bsdthread_registered
            ∷ mach_renewed
            ∷ self_set
            ∷ called 4
            ∷ [])
z_fork_lem_example = z_fork_lem in_child two_handlers
