-- ===== src/Lock.antt =====
-- The lock of z_lock.c, as the steps of any number of threads on its word.
pub mod Exclusion
use lib_system_call.Base.{ℕ, ◌-◌, ◌%◌, ◌≡◌, ◌≢◌, Bool, true, false, ◌==◌, if◌then◌else◌}

-- Where a thread is: outside, in the loop of `z_lock_lock_slow` with its `waiters_mask`, or back
-- from the call with the lock.
pub data Pc : Type 0 where
  outside : Pc
  slow : (waiters : Bool) → Pc
  holding : Pc

pub record Lock : Type 0 where
  pub oul_value : ℕ
  pub pc : ℕ → Pc

abbrev pub move : (ℕ → Pc) → ℕ → Pc → ℕ → Pc
move pc i p j = if j == i then p else pc j

-- `self i` is the word of thread `i` that `z_lock_owner_get_self` returns. A compare-and-swap is one
-- step, and so are a load with the branch on it and the exchange in `z_lock_unlock`. A thread calls
-- `z_lock_lock` and `z_lock_trylock` when it does not hold the lock, and `z_lock_unlock` when it
-- does; what changes neither the word nor a thread's place is no step.
module _ (self : ℕ → ℕ) where
  pub data Step (s : Lock) : Lock → Type 0 where
    -- The first compare-and-swap of `z_lock_lock`, and that of `z_lock_trylock`.
    take :
        (i : ℕ)
        → s.pc i ≡ outside
        → s.oul_value ≡ 0
        → Step s (record { oul_value = self i; pc = move s.pc i holding })
    -- It fails, and `z_lock_lock` goes the slow way.
    enter :
        (i : ℕ)
        → s.pc i ≡ outside
        → s.oul_value ≢ 0
        → Step s (record s { pc = move s.pc i (slow false) })
    -- The slow way finds the thread's own word and returns.
    found :
        (i : ℕ) (w : Bool)
        → s.pc i ≡ slow w
        → s.oul_value ≡ self i
        → Step s (record s { pc = move s.pc i holding })
    -- The swap of `current` for `current & ~1` before the wait.
    mark :
        (i : ℕ) (w : Bool)
        → s.pc i ≡ slow w
        → s.oul_value ≢ 0
        → Step s (record s { oul_value = s.oul_value - s.oul_value % 2 })
    -- The wait returns a positive number: there are more waiters.
    woken :
        (i : ℕ) (w : Bool) → s.pc i ≡ slow w → Step s (record s { pc = move s.pc i (slow true) })
    -- The last compare-and-swap, with `self & ~waiters_mask`.
    win :
        (i : ℕ) (w : Bool)
        → s.pc i ≡ slow w
        → s.oul_value ≡ 0
        → Step s (record {
          oul_value = if w then self i - self i % 2 else self i;
          pc = move s.pc i holding;
        })
    -- `z_lock_unlock` sets the word to 0, whoever it wakes then.
    release :
        (i : ℕ) → s.pc i ≡ holding → Step s (record { oul_value = 0; pc = move s.pc i outside })

  abbrev pub unlocked : Lock
  unlocked = record { oul_value = 0; pc = λ i. outside }

  pub data Reach : Lock → Type 0 where
    first : Reach unlocked
    later : {s t : Lock} → Reach s → Step s t → Reach t
