-- ===== src/Lock/Exclusion.antt =====
-- At most one thread holds the lock.
use lib_system_call.Base.{
  ℕ, ◌-◌, ◌%◌, ◌≡◌, ◌≢◌, ◌<◌, ◌⊎◌, inl, inr, true, false, ◌==◌, arith, Bool-cases,
}
use lib_system_call.Lock.{
  Pc, outside, slow, holding, Lock, move, Step, take, enter, found, mark, woken, win, release,
  Reach, first, later,
}

-- A holder after a move is the thread that moved, or was one before.
moved :
    (pc : ℕ → Pc) (i j : ℕ) (p : Pc)
    → move pc i p j ≡ holding
    → ((j ≡ i) × (p ≡ holding)) ⊎ ((j ≢ i) × (pc j ≡ holding))
moved pc i j p h = elim (Bool-cases (j == i)) [
  | inl same ↦ inl (ground arith, rw same at h)
  | inr other ↦ inr (ground arith, rw other at h)
]

module _ (self : ℕ → ℕ) (odd : (i : ℕ) → (self i % 2 ≡ 1) × (1 < self i))
    (apart : (i j : ℕ) → self i ≡ self j → i ≡ j) where
  -- The word is that of every holder, but for its lowest bit.
  abbrev IsOwned : Lock → Type 0
  IsOwned s = (i : ℕ) → s.pc i ≡ holding → s.oul_value - s.oul_value % 2 ≡ self i - 1

  alone : (s : Lock) (i j : ℕ) → IsOwned s → s.pc i ≡ holding → s.pc j ≡ holding → i ≡ j
  alone s i j owned hi hj = apart i j (omega (arith, owned i hi, owned j hj, odd i, odd j))

  free : (s : Lock) (i : ℕ) → IsOwned s → s.oul_value ≡ 0 → s.pc i ≢ holding
  free s i owned zero_word h = omega (arith, owned i h, odd i)

  Step-IsOwned : {s t : Lock} → Step self s t → IsOwned s → IsOwned t
  Step-IsOwned {s} (take i at word) owned j h = elim (moved s.pc i j holding h) [
    | inl (same, here) ↦ rw same (omega (arith, odd i))
    | inr (other, there) ↦ absurd (free s j owned word there)
  ]
  Step-IsOwned {s} (enter i at word) owned j h = elim (moved s.pc i j (slow false) h) [
    | inl (same, here) ↦ cc
    | inr (other, there) ↦ owned j there
  ]
  Step-IsOwned {s} (found i w at word) owned j h = elim (moved s.pc i j holding h) [
    | inl (same, here) ↦ rw same (omega (arith, odd i))
    | inr (other, there) ↦ owned j there
  ]
  Step-IsOwned {s} (mark i w at word) owned j h = omega (arith, owned j h)
  Step-IsOwned {s} (woken i w at) owned j h = elim (moved s.pc i j (slow true) h) [
    | inl (same, here) ↦ cc
    | inr (other, there) ↦ owned j there
  ]
  Step-IsOwned {s} (win i w at word) owned j h = elim (moved s.pc i j holding h) [
    | inl (same, here) ↦ ground (arith, odd i)
    | inr (other, there) ↦ absurd (free s j owned word there)
  ]
  Step-IsOwned {s} (release i at) owned j h = elim (moved s.pc i j outside h) [
    | inl (same, here) ↦ cc
    | inr (other, there) ↦ absurd (other (alone s j i owned there at))
  ]

  Reach-IsOwned : {s : Lock} → Reach self s → IsOwned s
  Reach-IsOwned first = λ i h. cc
  Reach-IsOwned (later before step) = Step-IsOwned step (Reach-IsOwned before)

  -- However the threads are interleaved, two of them never hold the lock at a time. The words of the
  -- threads are different, odd and above 1, as the names of ports that the kernel gives them are.
  pub Reach-alone :
      (s : Lock) (i j : ℕ) → Reach self s → s.pc i ≡ holding → s.pc j ≡ holding → i ≡ j
  Reach-alone s i j reached hi hj = alone s i j (Reach-IsOwned reached) hi hj
