-- ===== src/Thread/Cancel.antt =====
-- Cancellation and the way out of a thread: z_pthread_cancel, z_pthread_testcancel,
-- z_pthread_exit_if_canceled, z_pthread_start and z_pthread_exit of z_pthread.c.
use lib_system_call.Base.{
  ℕ, ◌%◌, ◌^◌, Bool, true, ◌&&◌, List, [], ◌∷◌, Option, none, some, ◌==◌, ◌!=◌, bit_and, bit_or,
  if◌then◌else◌,
}
use lib_system_call.Tsd.{Tsd, z_pthread_tsd_cleanup_new}

-- `struct z_pthread_handler_rec`, the one that was pushed last first.
pub record Cleanup : Type 0 where
  pub routine : ℕ
  pub arg : ℕ

-- The fields of a thread that the functions read and set, `__unix_conforming`, and the rest of the
-- program.
pub record Self (σ : Type 0) : Type 0 where
  pub cleanup_stack : List Cleanup
  pub tsd : Tsd
  pub cancel_state : ℕ
  pub cancel_error : ℕ
  pub canceled : Bool
  pub wqthread : Bool
  pub unix_conforming : Bool
  pub system : σ

abbrev pub cancel_pending : ℕ
cancel_pending = 0x10

-- PTHREAD_CANCELED.
abbrev pub pthread_canceled : ℕ
pthread_canceled = 1

-- Both functions read a state of 0: the reading of `cancel_state` is commented out.
abbrev pub z_pthread_is_canceled : Bool
z_pthread_is_canceled = bit_and 0 0x11 == 0x11

-- PTHREAD_CONFORM_DARWIN_LEGACY.
abbrev pub z_pthread_conformance : ℕ
z_pthread_conformance = 0

-- Every thread is valid.
unfoldable pub z_pthread_cancel : {σ : Type 0} → Self σ → ℕ × Self σ
z_pthread_cancel t₀ =
    let t : Self _ = record t₀ { unix_conforming = true } in
    if t.wqthread
    then (45, t)
    else (0, record t { cancel_state = bit_or t.cancel_state cancel_pending })

abbrev pub z_pthread_get_exit_value : {σ : Type 0} → (exit_value : ℕ) → Self σ → ℕ
z_pthread_get_exit_value exit_value t =
    if t.unix_conforming && z_pthread_is_canceled then pthread_canceled else exit_value

-- A handler is a program of its own.
module _ {σ : Type 0} (run : (routine arg : ℕ) → Self σ → Self σ) where
  -- What z_pthread_cleanup_push and z_pthread_cleanup_pop put around the code between them, `body`.
  -- The handler and its `__next` are local variables.
  unfoldable pub cleanup_block :
      (handler : Cleanup) (body : Self σ → Self σ) (execute : Bool) → Self σ → Self σ
  cleanup_block handler body execute t =
      let next = t.cleanup_stack in
      let t₁ = body (record t { cleanup_stack = handler ∷ next }) in
      let t₂ : Self σ = record t₁ { cleanup_stack = next } in
      if execute then run handler.routine handler.arg t₂ else t₂

  -- `__cleanup_stack` is set to `__next` when the handler has returned, so that what the handler
  -- has pushed is dropped.
  unfoldable pub run_cleanup : List Cleanup → Self σ → Self σ
  run_cleanup [] t = t
  run_cleanup (handler ∷ next) t =
      run_cleanup next (record (run handler.routine handler.arg t) { cleanup_stack = next })

-- A destructor and the thread's function are programs of their own.
-- `disable_threadsignal` and `markcancel` are requests, and `kernel_canceled` is the test for
-- `z_pthread_canceled(0) == 0`.
module _ {σ : Type 0} (run : (routine arg : ℕ) → Self σ → Self σ) (destroy : ℕ → ℕ → Tsd → Tsd)
    (call : (fun arg : ℕ) → Self σ → ℕ × Self σ)
    (disable_threadsignal markcancel : ℕ → Self σ → Self σ)
    (kernel_canceled : Self σ → Bool × Self σ) where
  -- The thread up to `z_pthread_terminate`, and the value it terminates with.
  -- `z_pthread_setcancelstate_exit` changes nothing.
  unfoldable pub z_pthread_exit : (exit_value : ℕ) → Self σ → ℕ × Self σ
  unfolding run_cleanup z_pthread_tsd_cleanup_new
  z_pthread_exit exit_value t =
      let t₁ = disable_threadsignal 1 t in
      let t₂ = run_cleanup run t₁.cleanup_stack t₁ in
      (exit_value, record t₂ { tsd = z_pthread_tsd_cleanup_new destroy t₂.tsd })

  unfoldable pub z_pthread_markcancel_if_canceled : (kport : ℕ) → Self σ → Self σ
  z_pthread_markcancel_if_canceled kport t =
      if z_pthread_is_canceled && t.unix_conforming then markcancel kport t else t

  -- The thread's identity, which the kernel gives, is not part of the state.
  unfoldable pub z_pthread_start : (kport fun arg : ℕ) → Self σ → ℕ × Self σ
  unfolding z_pthread_markcancel_if_canceled z_pthread_exit
  z_pthread_start kport fun arg t =
      let (value, t') = call fun arg (z_pthread_markcancel_if_canceled kport t) in
      z_pthread_exit value t'

  -- Nothing where the call returns, and the value that the thread terminates with where it does not.
  unfoldable pub z_pthread_testcancel : (isconforming : ℕ) → Self σ → Option ℕ × Self σ
  unfolding z_pthread_exit
  z_pthread_testcancel isconforming t =
      if z_pthread_is_canceled
      then (let (value, t') =
            z_pthread_exit (if isconforming != 0 then pthread_canceled else 0)
              (record t { canceled = isconforming != 0 }) in
          (some value, t'))
      else (none, t)

  unfoldable pub z_pthread_exit_if_canceled : (error : ℕ) → Self σ → Option ℕ × Self σ
  unfolding z_pthread_exit
  z_pthread_exit_if_canceled error t =
      if error % 2 ^ 8 == 4 && t.unix_conforming
      then (let (canceled, t₁) = kernel_canceled t in
          if canceled
          then (let (value, t₂) =
                z_pthread_exit pthread_canceled
                  (record t₁ { cancel_error = error; canceled = true }) in
              (some value, t₂))
          else (none, t₁))
      else (none, t)
