-- ===== src/Thread/Fork.antt =====
-- The handlers around a fork: z_fork and z_atfork_* of z_unistd.c, z_pthread_atfork_* of
-- z_pthread.c.
use lib_system_call.Base.{
  ℕ, zero, suc, ◌+◌, ◌-◌, ◌^◌, List, [], ◌∷◌, ◌++◌, length, none, some, get_elem?, ◌==◌, ◌!=◌,
  if◌then◌else◌,
}

-- `struct z_pthread_atfork_entry`; a handler that is 0 is absent.
pub record AtforkEntry : Type 0 where
  pub prepare : ℕ
  pub parent : ℕ
  pub child : ℕ

-- What a fork does, in order: the calls of handlers, the request, and what renews the child.
pub data Event : Type 0 where
  called : (handler : ℕ) → Event
  saved_self : Event
  forked : Event
  not_threaded : Event
  main_thread_renewed : Event
  bsdthread_registered : Event
  mach_renewed : Event
  self_set : Event

-- `if (e->prepare != Z_NULL) e->prepare();`
abbrev pub call_handler : ℕ → List Event → List Event
call_handler handler done = if handler != 0 then done ++ called handler ∷ [] else done

-- The entry `at` of the table, `globals->atfork_count` entries long; a run never asks for more.
abbrev pub handler_at : (AtforkEntry → ℕ) → List AtforkEntry → ℕ → ℕ
handler_at which entries at = elim (get_elem? entries at) [ none ↦ 0 | some e ↦ which e ]

-- `for (idx = globals->atfork_count; idx > 0; --idx)`
unfoldable pub prepare_loop : (idx : ℕ) → List AtforkEntry → List Event → List Event
prepare_loop zero entries done = done
prepare_loop (suc idx) entries done =
    prepare_loop idx entries (call_handler (handler_at (λ e. e.prepare) entries idx) done)

unfoldable pub z_pthread_atfork_prepare_handlers : List AtforkEntry → List Event → List Event
unfolding prepare_loop
z_pthread_atfork_prepare_handlers entries done = prepare_loop (length entries) entries done

-- `for (idx = 0; idx < globals->atfork_count; ++idx)` with `left` entries from `idx` on.
unfoldable pub forward_loop :
    (AtforkEntry → ℕ) → (left idx : ℕ) → List AtforkEntry → List Event → List Event
forward_loop which zero idx entries done = done
forward_loop which (suc left) idx entries done =
    forward_loop which left (idx + 1) entries (call_handler (handler_at which entries idx) done)

unfoldable pub z_pthread_atfork_parent_handlers : List AtforkEntry → List Event → List Event
unfolding forward_loop
z_pthread_atfork_parent_handlers entries done =
    forward_loop (λ e. e.parent) (length entries) 0 entries done

unfoldable pub z_pthread_atfork_child_handlers : List AtforkEntry → List Event → List Event
unfolding forward_loop
z_pthread_atfork_child_handlers entries done =
    forward_loop (λ e. e.child) (length entries) 0 entries done

unfoldable pub z_atfork_prepare : List AtforkEntry → List Event → List Event
unfolding z_pthread_atfork_prepare_handlers
z_atfork_prepare entries done = z_pthread_atfork_prepare_handlers entries done ++ saved_self ∷ []

-- `z_pthread_atfork_parent` is empty.
unfoldable pub z_atfork_parent : List AtforkEntry → List Event → List Event
unfolding z_pthread_atfork_parent_handlers
z_atfork_parent entries done = z_pthread_atfork_parent_handlers entries done

-- `__is_threaded = 0`, the main thread's structure made anew from the saved pointer, the
-- registration with the kernel, `z_mach_init` and `z_pthread_set_self`.
unfoldable pub z_atfork_child : List AtforkEntry → List Event → List Event
unfolding z_pthread_atfork_child_handlers
z_atfork_child entries done = z_pthread_atfork_child_handlers entries (
    done
    ++ not_threaded ∷ main_thread_renewed ∷ bsdthread_registered ∷ mach_renewed ∷ self_set ∷ [])

-- `pid` is what `zz_fork` returns, the pattern of a z_int32: 0 in the child, -1 for a failure.
unfoldable pub z_fork : (pid : ℕ) → List AtforkEntry → ℕ × List Event
unfolding z_atfork_prepare z_atfork_parent z_atfork_child
z_fork pid entries =
    let done = z_atfork_prepare entries [] ++ forked ∷ [] in
    if pid == 2 ^ 32 - 1
    then (pid, z_atfork_parent entries done)
    else if pid == 0
    then (0, z_atfork_child entries done)
    else (pid, z_atfork_parent entries done)

-- The calls of the handlers of one kind, in the order of the table.
abbrev pub calls : (AtforkEntry → ℕ) → List AtforkEntry → List Event
calls which [] = []
calls which (e ∷ entries) =
    let rest = calls which entries in if which e != 0 then called (which e) ∷ rest else rest
