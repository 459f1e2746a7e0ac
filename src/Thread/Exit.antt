-- ===== src/Thread/Exit.antt =====
-- What a thread does on its way out.
use lib_system_call.Base.{
  ℕ, ◌<◌, ◌^◌, ◌≡◌, ◌∙◌, ap, sym, Bool, true, ◌&&◌, ◌||◌, List, [], ◌∷◌, ◌++◌, leb, ◌==◌, ◌!=◌,
  append_assoc, append_nil, refl,
}
use lib_system_call.Tsd.{Tsd}
use lib_system_call.Tsd.Cleanup.{z_pthread_tsd_cleanup_new_lem}
use lib_system_call.Thread.Cancel.{Cleanup, Self, run_cleanup, z_pthread_exit}

module _ {σ : Type 0} (run : (routine arg : ℕ) → Self σ → Self σ) (ran : σ → List Cleanup) where
  -- Each run of a handler is recorded, behind those before it. A handler may push others and may
  -- change all else, but not the number of keys beyond its bound.
  abbrev pub IsRecorded : Type 0
  IsRecorded =
      (handler : Cleanup) (t : Self σ)
      → t.tsd.max_tsd_key < 2 ^ 16
      → (ran (run handler.routine handler.arg t).system ≡ ran t.system ++ handler ∷ [])
        × ((run handler.routine handler.arg t).tsd.max_tsd_key < 2 ^ 16)

  run_cleanup-ran :
      (handlers : List Cleanup) (t : Self σ)
      → IsRecorded
      → t.cleanup_stack ≡ handlers
      → t.tsd.max_tsd_key < 2 ^ 16
      → (ran (run_cleanup run handlers t).system ≡ ran t.system ++ handlers)
        × ((run_cleanup run handlers t).cleanup_stack ≡ [])
        × ((run_cleanup run handlers t).tsd.max_tsd_key < 2 ^ 16)
  unfolding run_cleanup
  run_cleanup-ran [] t recorded stack small = (sym (append_nil (ran t.system)), stack, small)
  run_cleanup-ran (handler ∷ next) t recorded stack small =
      let (one, small₁) = recorded handler t small in
      let (rest, empty, small₂) =
        run_cleanup-ran next (record (run handler.routine handler.arg t) { cleanup_stack = next })
          recorded refl small₁ in
      (
        rest ∙ ap (λ xs. xs ++ next) one ∙ append_assoc (ran t.system) (handler ∷ []) next,
        empty,
        small₂,
      )

-- The request leaves the thread's own fields, and runs no handler.
abbrev pub IsQuiet :
    {σ : Type 0} (ran : σ → List Cleanup) (disable_threadsignal : ℕ → Self σ → Self σ) → Type 0
IsQuiet {σ} ran disable_threadsignal =
    (t : Self σ)
    → ((disable_threadsignal 1 t).cleanup_stack ≡ t.cleanup_stack)
      × ((disable_threadsignal 1 t).tsd ≡ t.tsd)
      × (ran (disable_threadsignal 1 t).system ≡ ran t.system)

-- A thread that exits runs the handlers on its stack, the one pushed last first, each once with its
-- argument, whatever the handlers push or change, and none is left on the stack. Then the values of
-- the created keys are null, for key 10 and those from 256 to the highest key in use, when
-- destructors leave the tables alone. It terminates with the value it is given.
pub z_pthread_exit-ran :
    {σ : Type 0} (run : (routine arg : ℕ) → Self σ → Self σ) (destroy : ℕ → ℕ → Tsd → Tsd)
    (call : (fun arg : ℕ) → Self σ → ℕ × Self σ)
    (disable_threadsignal markcancel : ℕ → Self σ → Self σ)
    (kernel_canceled : Self σ → Bool × Self σ) (ran : σ → List Cleanup) (exit_value : ℕ)
    (t : Self σ)
    → IsRecorded run ran
    → IsQuiet ran disable_threadsignal
    → ((d v : ℕ) (tables : Tsd) → destroy d v tables ≡ tables)
    → t.tsd.max_tsd_key < 2 ^ 16
    → (let (value, t') =
          z_pthread_exit run destroy call disable_threadsignal markcancel kernel_canceled exit_value
            t in
        let t₁ = disable_threadsignal 1 t in
        let max = (run_cleanup run t₁.cleanup_stack t₁).tsd.max_tsd_key in
        (value ≡ exit_value)
        × (ran t'.system ≡ ran t.system ++ t.cleanup_stack)
        × (t'.cleanup_stack ≡ [])
        × ((i : ℕ)
            → (i == 10 || leb 256 i && leb i max) && t'.tsd.keys i != 0 ≡ true
            → t'.tsd.tsd i ≡ 0))
unfolding z_pthread_exit
z_pthread_exit-ran run destroy call disable_threadsignal markcancel kernel_canceled ran exit_value t
      recorded quiet harmless small =
    let (stack, tables, none_ran) = quiet t in
    let t₁ = disable_threadsignal 1 t in
    let (all, empty, small₂) =
      run_cleanup-ran run ran t₁.cleanup_stack t₁ recorded refl (rw tables small) in
    let after = (run_cleanup run t₁.cleanup_stack t₁).tsd in
    let (keys, max, values) = z_pthread_tsd_cleanup_new_lem destroy harmless after small₂ in
    (
      refl,
      all ∙ rw (none_ran, stack) refl,
      empty,
      λ i created.
          let found : (i == 10 || leb 256 i && leb i after.max_tsd_key) && after.keys i != 0
              ≡ true =
            rw (← keys) created in
          values i ∙ rw found refl,
    )
