-- ===== src/Stdlib/Merge/Search.antt =====
-- What the search in a run finds.
use lib_system_call.Base.{
  ℕ, zero, suc, ◌+◌, ◌-◌, ◌*◌, ◌/◌, ◌≤◌, ◌<◌, ◌^◌, ◌≡◌, Bool, true, false, ◌&&◌, ◌==◌, not, ltb,
  leb, arith, refl, inl, inr, Bool-cases,
}
use lib_system_call.Stdlib.Merge.{search_halves, search_fast, search_steps, search_line, search_run}

module _ (stop : ℕ → Bool) where
  -- From one `stop` on, there are only such.
  abbrev pub IsStep : ℕ → Type 0
  IsStep t = (i j : ℕ) → i ≤ j → j < t → stop i ≡ true → stop j ≡ true

  -- The first `stop` behind the start, or the end of the run.
  abbrev pub IsFirst : ℕ → ℕ → Type 0
  IsFirst t r = (0 < r) × (r ≤ t) × ((j : ℕ) → j < r → stop j ≡ false) × (r < t → stop r ≡ true)

  -- What holds of `b` and `t` in the searches, where `e` is the end of the run.
  abbrev IsBracket : ℕ → ℕ → ℕ → Type 0
  IsBracket e b t = (b < t) × (t ≤ e) × (stop b ≡ false) × (t < e → stop t ≡ true)

  IsBracket-IsFirst : (e b t : ℕ) → IsStep e → IsBracket e b t → t ≤ b + 1 → IsFirst e t
  IsBracket-IsFirst e b t step (below, inside, low, high) one = (
    omega arith,
    inside,
    (λ j before. elim (Bool-cases (stop j)) [
      | inl found ↦ let later = step j b (omega arith) (omega arith) found in cc
      | inr none_yet ↦ none_yet
    ]),
    high,
  )

  search_halves_lem :
      (fuel e b t : ℕ)
      → IsStep e
      → IsBracket e b t
      → t ≤ b + fuel
      → IsFirst e (search_halves stop fuel b t)
  unfolding search_halves
  search_halves_lem zero e b t step (below, inside, low, high) enough = absurd (omega arith)
  search_halves_lem (suc fuel) e b t step (below, inside, low, high) enough =
      let p = b + (t - b) / 2 in
      elim (Bool-cases (ltb (b + 1) t)) [
        | inl more ↦ elim (Bool-cases (stop p)) [
          | inl at ↦
              rw (more, at)
                (search_halves_lem fuel e b p step (ground arith, ground arith, low, (λ _. at))
                  (ground arith))
          | inr past ↦
              rw (more, past)
                (search_halves_lem fuel e p t step (ground arith, inside, past, high)
                  (ground arith))
        ]
        | inr last ↦
            rw last (IsBracket-IsFirst e b t step (below, inside, low, high) (ground arith))
      ]

  pow_pos : (k : ℕ) → 0 < 2 ^ k
  pow_pos zero = omega arith
  pow_pos (suc k) = let smaller = pow_pos k in omega arith

  search_fast_lem :
      (k fuel e b t i : ℕ)
      → IsStep e
      → IsBracket e b t
      → i ≡ 2 ^ k
      → t ≡ b + i
      → k < fuel
      → IsFirst e (search_fast stop fuel b t i)
  unfolding search_fast
  search_fast_lem k zero e b t i step h power size enough = absurd (omega arith)
  search_fast_lem zero (suc fuel) e b t i step h power size enough =
      let done : ltb 1 i ≡ false = ground arith in
      rw done (IsBracket-IsFirst e b t step h (omega arith))
  search_fast_lem (suc k) (suc fuel) e b t i step (below, inside, low, high) power size enough =
      let some_left = pow_pos k in
      let half : i / 2 ≡ 2 ^ k = omega arith in
      let more : ltb 1 i ≡ true = ground arith in
      let p = b + i / 2 in
      elim (Bool-cases (stop p)) [
        | inl at ↦
            rw (more, at)
              (search_fast_lem k fuel e b p (i / 2) step (omega arith, omega arith, low, (λ _. at))
                half refl (omega arith))
        | inr past ↦
            rw (more, past)
              (search_fast_lem k fuel e p t (i / 2) step (omega arith, inside, past, high) half
                (omega arith) (omega arith))
      ]

  below_pow : (k : ℕ) → k < 2 ^ k
  below_pow zero = omega arith
  below_pow (suc k) = let smaller = below_pow k in omega arith

  search_steps_lem :
      (k fuel t b i : ℕ)
      → IsStep t
      → b < t
      → stop b ≡ false
      → i ≡ 2 ^ k
      → t ≤ b + fuel
      → IsFirst t (search_steps stop fuel b t i).0
  unfolding search_steps
  search_steps_lem k zero t b i step below low power enough = absurd (omega arith)
  search_steps_lem k (suc fuel) t b i step below low power enough =
      let some_left = pow_pos k in
      let fits = below_pow k in
      let p = b + i in
      elim (Bool-cases (leb t p)) [
        | inl out ↦ elim (Bool-cases (ltb b (t - 1) && stop (t - 1))) [
          | inl down ↦
              rw (out, down)
                (search_halves_lem t t b (t - 1) step
                  (ground arith, omega arith, low, (λ _. ground (arith, down))) (omega arith))
          | inr up ↦
              let high : stop (t - 1) ≡ false = elim (Bool-cases (t - 1 == b)) [
                | inl same ↦ let e : t - 1 ≡ b = ground arith in rw e low
                | inr other ↦ ground (arith, up)
              ] in
              rw (out, up)
                (search_halves_lem t t (t - 1) t step
                  (omega arith, omega arith, high, (λ h. absurd (omega arith))) (omega arith))
        ]
        | inr inside ↦ elim (Bool-cases (stop p)) [
          | inl at ↦
              rw (inside, at)
                (search_fast_lem k i t b p i step (omega arith, ground arith, low, (λ _. at)) power
                  refl (omega arith))
          | inr past ↦
              rw (inside, past)
                (search_steps_lem (suc k) fuel t p (i * 2) step (ground arith) past (omega arith)
                  (ground arith))
        ]
      ]

  search_line_lem :
      (left b t : ℕ) → IsStep t → b < t → stop b ≡ false → IsFirst t (search_line stop left b t).0
  unfolding search_line
  search_line_lem zero b t step below low =
      search_steps_lem 0 t t b 1 step below low refl (omega arith)
  search_line_lem (suc left) b t step below low =
      elim (Bool-cases (ltb (b + 1) t && not (stop (b + 1)))) [
        | inl more ↦
            rw more
              (search_line_lem left (b + 1) t step (ground (arith, more)) (ground (arith, more)))
        | inr last ↦ rw last (
            IsBracket-IsFirst t b (b + 1) step
              (omega arith, omega arith, low, (λ h. ground (arith, last))) (omega arith))
      ]

  -- In a run of `t` elements, from one of which on `stop` holds, and not for the first, the search
  -- finds the first element at which `stop` holds, or the end of the run, whether it goes by one
  -- element at a time or by growing steps and halves.
  pub search_run_lem :
      (big : Bool) (t : ℕ) → IsStep t → 0 < t → stop 0 ≡ false → IsFirst t (search_run stop big t).0
  unfolding search_run
  search_run_lem true t step some_left low =
      search_steps_lem 0 t t 0 1 step some_left low refl (omega arith)
  search_run_lem false t step some_left low = search_line_lem 6 0 t step some_left low
