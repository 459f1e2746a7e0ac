-- ===== src/Tsd/Cleanup.antt =====
-- What the end of a thread does to its values.
use mathlib.Core.Path.{subst}
use lib_system_call.Base.{
  ℕ, zero, suc, ◌+◌, ◌-◌, ◌^◌, ◌≤◌, ◌<◌, ◌≡◌, ◌&&◌, ◌||◌, leb, ltb, ◌==◌, ◌!=◌, if◌then◌else◌,
  arith, refl, Bool-cases, inl, inr,
}
use lib_system_call.Tsd.{
  Tsd, tsd_start, cleanup_round, z_pthread_tsd_cleanup_key, cleanup_dynamic, cleanup_static,
  cleanup_rounds, z_pthread_tsd_cleanup_new,
}

-- The keys of a range that have been created lose their values; nothing else changes.
abbrev pub Swept : (lo hi : ℕ) → Tsd → Tsd → Type 0
Swept lo hi t t' =
    (t'.keys ≡ t.keys)
    × (t'.max_tsd_key ≡ t.max_tsd_key)
    × ((i : ℕ) → t'.tsd i ≡ (if leb lo i && ltb i hi && t.keys i != 0 then 0 else t.tsd i))

module _ (run : ℕ → ℕ → Tsd → Tsd) (quiet : (d v : ℕ) (t : Tsd) → run d v t ≡ t) where
  cleanup_key-Swept : (k : ℕ) (t : Tsd) → Swept k (k + 1) t (z_pthread_tsd_cleanup_key run k t)
  unfolding z_pthread_tsd_cleanup_key
  cleanup_key-Swept k t =
      rw (quiet, z_pthread_tsd_cleanup_key)
        (elim (Bool-cases (t.keys k != 0 && t.tsd k != 0)) [
          | inl called ↦
              rw (called, z_pthread_tsd_cleanup_key) (ground arith, ground arith, λ i. ground arith)
          | inr idle ↦ rw (idle, z_pthread_tsd_cleanup_key) (refl, refl, λ i. ground arith)
        ])

  Swept-trans :
      (lo mid hi : ℕ) (t t₁ t₂ : Tsd)
      → lo ≤ mid
      → mid ≤ hi
      → Swept lo mid t t₁
      → Swept mid hi t₁ t₂
      → Swept lo hi t t₂
  Swept-trans lo mid hi t t₁ t₂ h k (keys, max, one) (keys₂, max₂, two) =
      (cc, cc, λ i. ground (arith, one i, two i))

  cleanup_static-Swept : (n k : ℕ) (t : Tsd) → Swept k (k + n) t (cleanup_static run n k t)
  unfolding cleanup_static
  cleanup_static-Swept zero k t = (refl, refl, λ i. ground arith)
  cleanup_static-Swept (suc n) k t =
      let step = cleanup_key-Swept k t in
      Swept-trans k (k + 1) (k + suc n) t (z_pthread_tsd_cleanup_key run k t) _ (omega arith)
        (omega arith) step
        (subst
          (λ h.
            Swept (k + 1) h (z_pthread_tsd_cleanup_key run k t)
              (cleanup_static run n (k + 1) (z_pthread_tsd_cleanup_key run k t)))
          (omega arith) (cleanup_static-Swept n (k + 1) _))

  cleanup_dynamic-Swept :
      (n k : ℕ) (t : Tsd)
      → t.max_tsd_key < k + n
      → Swept k (t.max_tsd_key + 1) t (cleanup_dynamic run n k t)
  unfolding cleanup_dynamic
  cleanup_dynamic-Swept zero k t h = (refl, refl, λ i. ground arith)
  cleanup_dynamic-Swept (suc n) k t h = elim (Bool-cases (leb k t.max_tsd_key)) [
    | inl more ↦
        let t₁ = z_pthread_tsd_cleanup_key run k t in
        let step = cleanup_key-Swept k t in
        let rest = cleanup_dynamic-Swept n (k + 1) t₁ (omega (arith, step.1)) in
        rw (more, cleanup_dynamic)
          (Swept-trans k (k + 1) (t.max_tsd_key + 1) t t₁ _ (omega arith) (ground arith) step
            (subst (λ h. Swept (k + 1) (h + 1) t₁ (cleanup_dynamic run n (k + 1) t₁)) step.1 rest))
    | inr done ↦ rw (done, cleanup_dynamic) (refl, refl, λ i. ground arith)
  ]

  -- What a round, and so any number of them, does.
  abbrev pub Cleaned : Tsd → Tsd → Type 0
  Cleaned t t' =
      (t'.keys ≡ t.keys)
      × (t'.max_tsd_key ≡ t.max_tsd_key)
      × ((i : ℕ)
          → t'.tsd i ≡ (
              if (i == 10 || leb 256 i && leb i t.max_tsd_key) && t.keys i != 0
              then 0
              else t.tsd i))

  Cleaned-rounds :
      (t t₁ t₂ t₃ : Tsd)
      → Cleaned t t₁
      → Swept 256 (t₁.max_tsd_key + 1) t₁ t₂
      → Swept 10 11 t₂ t₃
      → Cleaned t t₃
  Cleaned-rounds t t₁ t₂ t₃ (keys, max, one) (keys₂, max₂, two) (keys₃, max₃, three) =
      (cc, cc, λ i. ground (arith, one i, two i, three i))

  Cleaned-once :
      (t t₂ t₃ : Tsd) → Swept 256 (t.max_tsd_key + 1) t t₂ → Swept 10 11 t₂ t₃ → Cleaned t t₃
  Cleaned-once t t₂ t₃ (keys₂, max₂, two) (keys₃, max₃, three) =
      (cc, cc, λ i. ground (arith, two i, three i))

  cleanup_round-Swept :
      (t : Tsd)
      → t.max_tsd_key < 2 ^ 16
      → (t₂ : Tsd) × Swept 256 (t.max_tsd_key + 1) t t₂ × Swept 10 11 t₂ (cleanup_round run t)
  unfolding cleanup_round
  cleanup_round-Swept t h = (
    cleanup_dynamic run (2 ^ 16 - tsd_start) tsd_start t,
    cleanup_dynamic-Swept (2 ^ 16 - tsd_start) tsd_start t (omega arith),
    cleanup_static-Swept 1 10 _,
  )

  cleanup_rounds-Cleaned :
      (j : ℕ) (t t₁ : Tsd)
      → t.max_tsd_key < 2 ^ 16
      → Cleaned t t₁
      → Cleaned t (cleanup_rounds run j t₁)
  unfolding cleanup_rounds
  cleanup_rounds-Cleaned zero t t₁ h one = one
  cleanup_rounds-Cleaned (suc j) t t₁ h one =
      let (t₂, dynamic, static) = cleanup_round-Swept t₁ (omega (arith, one.1)) in
      cleanup_rounds-Cleaned j t _ h (Cleaned-rounds t t₁ t₂ _ one dynamic static)

  -- At the end of a thread every value of a created key from 256 to `max_tsd_key` is null, and so
  -- is that of key 10, when destructors leave the tables alone: four rounds, as many as POSIX asks
  -- for, leave no value behind. No other value and no key changes, and `max_tsd_key` is 0.
  pub z_pthread_tsd_cleanup_new_lem :
      (t : Tsd)
      → t.max_tsd_key < 2 ^ 16
      → (let t' = z_pthread_tsd_cleanup_new run t in
          (t'.keys ≡ t.keys)
          × (t'.max_tsd_key ≡ 0)
          × ((i : ℕ)
              → t'.tsd i ≡ (
                  if (i == 10 || leb 256 i && leb i t.max_tsd_key) && t.keys i != 0
                  then 0
                  else t.tsd i)))
  unfolding z_pthread_tsd_cleanup_new cleanup_rounds
  z_pthread_tsd_cleanup_new_lem t h =
      let (t₂, dynamic, static) = cleanup_round-Swept t h in
      let (keys, max, values) =
        cleanup_rounds-Cleaned 3 t (cleanup_round run t) h (Cleaned-once t t₂ _ dynamic static) in
      (keys, refl, values)
