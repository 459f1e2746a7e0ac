-- ===== src/Thread/Wake.antt =====
-- z_pthread_joiner_wake of z_pthread.c: the wake of a joiner is asked for until the kernel has done
-- it or knows no waiter.
use lib_system_call.Base.{
  ℕ, zero, suc, ◌<◌, ◌≡◌, Bool, true, false, Option, none, some, ◌==◌, arith, refl,
}
use lib_system_call.Base.Int.{ℤ, pos, negsuc}

-- `ret == 0 || ret == -ENOENT`; ENOENT is 2.
abbrev pub is_woken : ℤ → Bool
is_woken (pos n) = n == 0
is_woken (negsuc n) = n == 1

-- `wake` is z_ulock_wake on the gate, with what the kernel holds. The result is the state after the
-- last request, with the number of requests; without enough fuel it is `none`.
module _ {σ : Type 0} (wake : σ → ℤ × σ) where
  unfoldable pub z_pthread_joiner_wake : ℕ → σ → Option (ℕ × σ)
  z_pthread_joiner_wake zero s = none
  z_pthread_joiner_wake (suc fuel) s =
      let (ret, s') = wake s in
      elim (is_woken ret) [
        | true ↦ some (1, s')
        | false ↦ elim (z_pthread_joiner_wake fuel s') [
          | none ↦ none
          | some (n, s'') ↦ some (suc n, s'')
        ]
      ]

  -- The state after so many requests.
  abbrev pub after : ℕ → σ → σ
  after zero s = s
  after (suc n) s = after n ((wake s).1)

  -- When the kernel refuses `n` requests in a row and grants the next, the loop ends behind that one.
  z_pthread_joiner_wake_lem :
      (n fuel : ℕ) (s : σ)
      → ((i : ℕ) → i < n → is_woken ((wake (after i s)).0) ≡ false)
      → is_woken ((wake (after n s)).0) ≡ true
      → n < fuel
      → z_pthread_joiner_wake fuel s ≡ some (suc n, after (suc n) s)
  unfolding z_pthread_joiner_wake
  z_pthread_joiner_wake_lem n zero s refused granted enough = absurd (omega arith)
  z_pthread_joiner_wake_lem zero (suc fuel) s refused granted enough =
      rw (granted, z_pthread_joiner_wake) refl
  z_pthread_joiner_wake_lem (suc n) (suc fuel) s refused granted enough =
      let rest =
        z_pthread_joiner_wake_lem n fuel ((wake s).1) (λ i below. refused (suc i) (omega arith))
          granted (omega arith) in
      rw (refused 0 (omega arith), z_pthread_joiner_wake) (rw rest refl)
