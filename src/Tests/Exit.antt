-- ===== src/Tests/Exit.antt =====
-- The exit of a thread with two handlers and a value of its own.
use lib_system_call.Base.{
  ℕ, ◌-◌, ◌^◌, ◌≡◌, List, [], ◌∷◌, ◌++◌, true, false, ◌==◌, ◌!=◌, ◌&&◌, leb, ◌||◌, if◌then◌else◌,
  arith, refl,
}
use lib_system_call.Thread.Cancel.{Cleanup, Self, cleanup_block, z_pthread_exit}
use lib_system_call.Thread.Exit.{z_pthread_exit-ran}

abbrev handler : ℕ → Cleanup
handler n = record { routine = n; arg = 8 }

-- A handler is recorded, and pushes another one.
abbrev record_run : (routine arg : ℕ) → Self (List Cleanup) → Self (List Cleanup)
record_run routine arg t = record t {
  cleanup_stack = handler 0 ∷ t.cleanup_stack;
  system = t.system ++ record { routine = routine; arg = arg } ∷ [];
}

abbrev ending : Self (List Cleanup)
ending = record {
  cleanup_stack = handler 2 ∷ handler 1 ∷ [];
  tsd = record {
    keys = λ k. if k == 256 || k == 257 then 2 ^ 64 - 1 - 4096 else 0;
    tsd = λ k. if k == 257 then 7 else 0;
    max_tsd_key = 257;
  };
  cancel_state = 0;
  cancel_error = 0;
  canceled = false;
  wqthread = false;
  unix_conforming = true;
  system = [];
}

-- Of two blocks, the inner one takes its handler off without a run.
two_blocks :
    (cleanup_block record_run
      (handler 3)
      (cleanup_block record_run (handler 4) (λ t. t) false)
      true
      ending).system
    ≡ handler 3 ∷ []
unfolding cleanup_block
two_blocks = refl

abbrev ended : ℕ × Self (List Cleanup)
ended =
    z_pthread_exit record_run (λ d v t. t) (λ fun arg t. (0, t)) (λ n t. t) (λ n t. t)
      (λ t. (false, t)) 5 ending

z_pthread_exit-ran_example :
    (ended.0 ≡ 5)
    × (ended.1.system ≡ handler 2 ∷ handler 1 ∷ [])
    × (ended.1.cleanup_stack ≡ [])
    × ((i : ℕ)
        → (i == 10 || leb 256 i && leb i 257) && ended.1.tsd.keys i != 0 ≡ true
        → ended.1.tsd.tsd i ≡ 0)
unfolding z_pthread_exit
z_pthread_exit-ran_example =
    z_pthread_exit-ran record_run (λ d v t. t) (λ fun arg t. (0, t)) (λ n t. t) (λ n t. t)
      (λ t. (false, t)) (λ out. out) 5 ending (λ h t small. (refl, small)) (λ t. (refl, refl, refl))
      (λ d v t. refl) (omega arith)
