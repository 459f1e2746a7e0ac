-- ===== src/Tsd/Keys.antt =====
-- Keys are allocated and freed, and hold values.
use lib_system_call.Base.{
  ℕ, zero, suc, ◌+◌, ◌-◌, ◌==◌, Bool-cases, ◌^◌, ◌≤◌, ◌<◌, ◌≡◌, ◌≢◌, ◌⊎◌, inl, inr, arith, refl,
}
use lib_system_call.Tsd.{
  Tsd, complement, put, einval, eagain, create_loop, z_pthread_key_create, z_pthread_key_delete,
  z_pthread_key_set_destructor, z_pthread_key_unset_destructor, z_pthread_setspecific,
  z_pthread_getspecific,
}

-- Every key of the range from `k` on, up to `j`, is taken.
abbrev pub Taken : Tsd → ℕ → ℕ → Type 0
Taken t k j = (i : ℕ) → k ≤ i → i < j → t.keys i ≢ 0

-- What a search over `n` keys from `k` does.
abbrev pub Created : ℕ → ℕ → ℕ → Tsd → ((ℕ × ℕ) × Tsd) → Type 0
Created n k destructor t out =
    ((out.0.0 ≡ eagain) × (out.1 ≡ t) × Taken t k (k + n))
    ⊎ ((out.0.0 ≡ 0)
        × (k ≤ out.0.1)
        × (out.0.1 < k + n)
        × Taken t k out.0.1
        × (t.keys out.0.1 ≡ 0)
        × (out.1 ≡ record t { keys = put t.keys out.0.1 (complement destructor) }))

create_loop_lem :
    (n k destructor : ℕ) (t : Tsd) → Created n k destructor t (create_loop n k destructor t)
unfolding create_loop
create_loop_lem zero k destructor t = inl (refl, refl, λ i h j. absurd (omega arith))
create_loop_lem (suc n) k destructor t = elim (Bool-cases (t.keys k == 0)) [
  | inl free ↦
      rw (z_pthread_key_set_destructor, free)
        (inr (refl, omega arith, omega arith, (λ i h j. absurd (omega arith)), ground arith, refl))
  | inr taken ↦
      rw (z_pthread_key_set_destructor, taken)
        (elim (create_loop_lem n (k + 1) destructor t) [
          | inl (code, same, rest) ↦ inl (code, same, λ i h j e. ground (arith, rest i))
          | inr (code, above, below, rest, free, stored) ↦
              inr
                (code, omega arith, omega arith, (λ i h j e. ground (arith, rest i)), free, stored)
        ])
]

-- `z_pthread_key_create` takes the lowest free key of the 512 from 256 on and stores its
-- destructor; it returns EAGAIN, and changes nothing, exactly when none is free.
pub z_pthread_key_create_lem :
    (destructor : ℕ) (t : Tsd) → Created 512 256 destructor t (z_pthread_key_create destructor t)
unfolding z_pthread_key_create
z_pthread_key_create_lem destructor t = create_loop_lem 512 256 destructor t

-- A key that has just been created can be deleted, once: its word is free again and no other has
-- changed, and a second deletion returns EINVAL. The destructor is not the address of all ones,
-- whose word would be that of a free key.
z_pthread_key_delete-create :
    (destructor : ℕ) (t : Tsd)
    → destructor < 2 ^ 64 - 1
    → (z_pthread_key_create destructor t).0.0 ≡ 0
    → (let out = z_pthread_key_create destructor t in
        let back = z_pthread_key_delete out.0.1 out.1 in
        (back.0 ≡ 0)
        × ((k : ℕ) → back.1.keys k ≡ t.keys k)
        × (z_pthread_key_delete out.0.1 back.1 ≡ (einval, back.1)))
unfolding z_pthread_key_delete z_pthread_key_unset_destructor
z_pthread_key_delete-create destructor t h ok = elim (z_pthread_key_create_lem destructor t) [
  | inl (code, same, rest) ↦ absurd (omega (arith, ok, code))
  | inr (code, above, below, rest, free, stored) ↦
      rw stored (ground arith, (λ k. ground arith), ground arith)
]

pub z_pthread_getspecific-setspecific :
    (key value : ℕ) (t : Tsd)
    → (let out = z_pthread_setspecific key value t in
        ((10 ≤ key)
          × (key < 768)
          × ((key < 256) ⊎ (t.keys key ≢ 0))
          × (out.0 ≡ 0)
          × (z_pthread_getspecific key out.1 ≡ value)
          × ((k : ℕ) → k ≢ key → z_pthread_getspecific k out.1 ≡ z_pthread_getspecific k t))
        ⊎ (((key < 10) ⊎ (768 ≤ key) ⊎ (256 ≤ key) × (t.keys key ≡ 0)) × (out ≡ (einval, t))))
unfolding z_pthread_setspecific z_pthread_key_set_destructor
z_pthread_getspecific-setspecific key value t = ground arith
