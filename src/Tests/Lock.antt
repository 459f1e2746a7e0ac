-- ===== src/Tests/Lock.antt =====
-- Two threads at the lock.
use lib_system_call.Base.{ℕ, ◌+◌, ◌*◌, ◌≡◌, false, arith, refl}
use lib_system_call.Lock.{Lock, holding, take, enter, mark, release, win, Reach, first, later}
use lib_system_call.Lock.Exclusion.{Reach-alone}

abbrev port : ℕ → ℕ
port i = 256 * i + 259

-- Thread 0 takes the lock, thread 1 waits, marks the word and gets the lock when it is released.
handed_over : (s : Lock) × Reach port s × (s.pc 1 ≡ holding) × (s.oul_value ≡ 515)
handed_over = (
  _,
  later
      (later
        (later (later (later first (take 0 refl refl)) (enter 1 refl (omega arith)))
          (mark 1 false refl (omega arith)))
        (release 0 refl))
      (win 1 false refl refl),
  refl,
  refl,
)

Reach-alone_example : ◌≡◌ {A = ℕ} 1 1
Reach-alone_example =
    Reach-alone port (λ i. (omega arith, omega arith)) (λ i j e. omega arith) handed_over.0 1 1
      handed_over.1 handed_over.2 handed_over.2
