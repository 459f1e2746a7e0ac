-- ===== src/Tlv/Words.antt =====
-- Numbers stored in memory, and what the set-up of descriptors writes.
use lib_system_call.Base.{
  ℕ, zero, suc, ◌+◌, ◌*◌, ◌/◌, ◌%◌, ◌^◌, ◌≤◌, ◌<◌, ◌≡◌, ◌⊎◌, arith, refl, ltb, inl, inr, true, ◌∙◌,
}
use lib_system_call.Memory.{Mem, write}
use lib_system_call.Dir.{read_le}
use lib_system_call.Tlv.Keys.{write_le, set_descriptor, set_descriptors}

-- Bytes that are not among those written stay.
pub write_le_outside :
    (n : ℕ) (m : Mem) (p v a : ℕ) → (a < p) ⊎ (p + n ≤ a) → write_le m p n v a ≡ m a
unfolding write_le
write_le_outside zero m p v a apart = refl
write_le_outside (suc n) m p v a apart =
    write_le_outside n (write m p (v % 256)) (p + 1) (v / 256) a (ground (arith, apart))
    ∙ ground (arith, apart)

pub read_le_same :
    (n : ℕ) (m m' : Mem) (p : ℕ)
    → ((a : ℕ) → p ≤ a → a < p + n → m a ≡ m' a)
    → read_le m p n ≡ read_le m' p n
unfolding read_le
read_le_same zero m m' p same = refl
read_le_same (suc n) m m' p same =
    let first = same p (omega arith) (omega arith) in
    let rest = read_le_same n m m' (p + 1) (λ a low high. same a (omega arith) (omega arith)) in
    omega (arith, first, rest)

pub read_le-write_le :
    (n : ℕ) (m : Mem) (p v : ℕ) → v < 256 ^ n → read_le (write_le m p n v) p n ≡ v
unfolding read_le write_le
read_le-write_le zero m p v small = omega arith
read_le-write_le (suc n) m p v small =
    let rest = read_le-write_le n (write m p (v % 256)) (p + 1) (v / 256) (omega arith) in
    let first = write_le_outside n (write m p (v % 256)) (p + 1) (v / 256) p (inl (omega arith)) in
    let stored : write m p (v % 256) p ≡ v % 256 = ground arith in
    omega (arith, rest, first, stored)

-- The words of a descriptor at `d`.
module _ (thunk key : ℕ) (thunk_small : thunk < 2 ^ 64) (key_small : key < 2 ^ 64) where
  set_descriptor_outside :
      (d : ℕ) (m : Mem) (a : ℕ) → (a < d) ⊎ (d + 16 ≤ a) → set_descriptor thunk key d m a ≡ m a
  unfolding set_descriptor
  set_descriptor_outside d m a apart =
      write_le_outside 8 (write_le m d 8 thunk) (d + 8) key a (ground (arith, apart))
      ∙ write_le_outside 8 m d thunk a (ground (arith, apart))

  set_descriptor_thunk : (d : ℕ) (m : Mem) → read_le (set_descriptor thunk key d m) d 8 ≡ thunk
  unfolding set_descriptor
  set_descriptor_thunk d m =
      read_le_same 8 (write_le (write_le m d 8 thunk) (d + 8) 8 key) (write_le m d 8 thunk) d
        (λ a low high. write_le_outside 8 (write_le m d 8 thunk) (d + 8) key a (inl (omega arith)))
      ∙ read_le-write_le 8 m d thunk thunk_small

  set_descriptor_key : (d : ℕ) (m : Mem) → read_le (set_descriptor thunk key d m) (d + 8) 8 ≡ key
  unfolding set_descriptor
  set_descriptor_key d m = read_le-write_le 8 (write_le m d 8 thunk) (d + 8) key key_small

  -- Only bytes of the descriptors change.
  pub set_descriptors_outside :
      (n fuel d : ℕ) (m : Mem) (a : ℕ)
      → n ≤ fuel
      → (a < d) ⊎ (d + 24 * n ≤ a)
      → set_descriptors thunk key fuel d (d + 24 * n) m a ≡ m a
  unfolding set_descriptors
  set_descriptors_outside zero zero d m a enough apart = refl
  set_descriptors_outside zero (suc fuel) d m a enough apart = ground arith
  set_descriptors_outside (suc n) zero d m a enough apart = absurd (omega arith)
  set_descriptors_outside (suc n) (suc fuel) d m a enough apart =
      let more : ltb d (d + 24 * suc n) ≡ true = ground arith in
      let shift : d + 24 * suc n ≡ d + 24 + 24 * n = omega arith in
      let rest =
        set_descriptors_outside n fuel (d + 24) (set_descriptor thunk key d m) a (omega arith)
          (ground (arith, apart)) in
      let own = set_descriptor_outside d m a (ground (arith, apart)) in
      rw more (rw shift (rest ∙ own))

  -- Each of the descriptors gets the two words and keeps its offset.
  pub set_descriptors_lem :
      (n fuel d i : ℕ) (m : Mem)
      → n ≤ fuel
      → i < n
      → (read_le (set_descriptors thunk key fuel d (d + 24 * n) m) (d + 24 * i) 8 ≡ thunk)
        × (read_le (set_descriptors thunk key fuel d (d + 24 * n) m) (d + 24 * i + 8) 8 ≡ key)
        × (read_le (set_descriptors thunk key fuel d (d + 24 * n) m) (d + 24 * i + 16) 8
            ≡ read_le m (d + 24 * i + 16) 8)
  unfolding set_descriptors
  set_descriptors_lem zero fuel d i m enough below = absurd (omega arith)
  set_descriptors_lem (suc n) zero d i m enough below = absurd (omega arith)
  set_descriptors_lem (suc n) (suc fuel) d zero m enough below =
      let more : ltb d (d + 24 * suc n) ≡ true = ground arith in
      let shift : d + 24 * suc n ≡ d + 24 + 24 * n = omega arith in
      let here : d + 24 * 0 ≡ d = omega arith in
      let m₁ = set_descriptor thunk key d m in
      let kept : (a : ℕ)
          → a < d + 24
          → set_descriptors thunk key fuel (d + 24) (d + 24 + 24 * n) m₁ a ≡ m₁ a =
        λ a low. set_descriptors_outside n fuel (d + 24) m₁ a (omega arith) (inl low) in
      rw more (
        rw shift (
          rw here (
            read_le_same 8 (set_descriptors thunk key fuel (d + 24) (d + 24 + 24 * n) m₁) m₁ d
                  (λ a low high. kept a (omega arith))
                ∙ set_descriptor_thunk d m,
            read_le_same 8 (set_descriptors thunk key fuel (d + 24) (d + 24 + 24 * n) m₁) m₁ (d + 8)
                  (λ a low high. kept a (omega arith))
                ∙ set_descriptor_key d m,
            read_le_same 8 (set_descriptors thunk key fuel (d + 24) (d + 24 + 24 * n) m₁) m (d + 16)
                (λ a low high.
                  kept a (omega arith) ∙ set_descriptor_outside d m a (inr (omega arith))),
          )))
  set_descriptors_lem (suc n) (suc fuel) d (suc i) m enough below =
      let more : ltb d (d + 24 * suc n) ≡ true = ground arith in
      let shift : d + 24 * suc n ≡ d + 24 + 24 * n = omega arith in
      let here : d + 24 * suc i ≡ d + 24 + 24 * i = omega arith in
      let m₁ = set_descriptor thunk key d m in
      let rest = set_descriptors_lem n fuel (d + 24) i m₁ (omega arith) (omega arith) in
      rw more (
        rw shift (
          rw here (
            rest.0,
            rest.1,
            rest.2
                ∙ read_le_same 8 m₁ m (d + 24 + 24 * i + 16)
                    (λ a low high. set_descriptor_outside d m a (inr (omega arith))),
          )))
