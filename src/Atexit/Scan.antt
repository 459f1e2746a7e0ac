-- ===== src/Atexit/Scan.antt =====
-- The loops over the tables as one list: the entries still to be called, in the order of the scan.
use lib_system_call.Base.{
  ℕ, zero, suc, ◌+◌, ◌≤◌, ◌<◌, ◌≡◌, ◌≢◌, inl, inr, List, [], ◌∷◌, ◌++◌, Option, none, some, length,
  get_elem?, drop, if◌then◌else◌, arith, refl, Bool-cases, Option-cases,
}
use lib_system_call.Atexit.{
  Range, empty, AtexitFn, Block, eligible, find_slot, find_block, clear_slot, clear_entry,
}

module _ (ranges : List Range) where
  -- The eligible entries below `n`, last first.
  unfoldable pub pending_slots : Block → ℕ → List AtexitFn
  pending_slots fns zero = []
  pending_slots fns (suc n) = elim (get_elem? fns n) [
    | none ↦ []
    | some f ↦ if eligible ranges f then f ∷ pending_slots fns n else pending_slots fns n
  ]

  unfoldable pub pending : List Block → List AtexitFn
  pending [] = []
  pending (b ∷ bs) = pending_slots b (length b) ++ pending bs

  get_elem?-clear_slot :
      (fns : Block) (k i : ℕ) → i ≢ k → get_elem? (clear_slot fns k) i ≡ get_elem? fns i
  unfolding clear_slot
  get_elem?-clear_slot [] k i h = refl
  get_elem?-clear_slot (f ∷ fns) zero zero h = absurd (h refl)
  get_elem?-clear_slot (f ∷ fns) zero (suc i) h = refl
  get_elem?-clear_slot (f ∷ fns) (suc k) zero h = refl
  get_elem?-clear_slot (f ∷ fns) (suc k) (suc i) h = get_elem?-clear_slot fns k i (omega arith)

  get_elem?-clear_self :
      (fns : Block) (k : ℕ) (f : AtexitFn)
      → get_elem? fns k ≡ some f
      → get_elem? (clear_slot fns k) k ≡ some (record f { fn_type = empty })
  unfolding clear_slot
  get_elem?-clear_self [] k f h = cc
  get_elem?-clear_self (g ∷ fns) zero f h = ground arith
  get_elem?-clear_self (g ∷ fns) (suc k) f h = get_elem?-clear_self fns k f h

  length-clear_slot : (fns : Block) (k : ℕ) → length (clear_slot fns k) ≡ length fns
  unfolding clear_slot
  length-clear_slot [] k = refl
  length-clear_slot (f ∷ fns) zero = refl
  length-clear_slot (f ∷ fns) (suc k) = omega (arith, length-clear_slot fns k)

  -- Entries below a cleared one are as they were.
  pending_slots-below :
      (fns : Block) (k n : ℕ) → n ≤ k → pending_slots (clear_slot fns k) n ≡ pending_slots fns n
  unfolding pending_slots
  pending_slots-below fns k zero h = refl
  pending_slots-below fns k (suc n) h =
      ground (arith, get_elem?-clear_slot fns k n, pending_slots-below fns k n)

  find_slot-below :
      (fns : Block) (k n : ℕ)
      → n ≤ k
      → find_slot ranges (clear_slot fns k) n ≡ find_slot ranges fns n
  unfolding find_slot
  find_slot-below fns k zero h = refl
  find_slot-below fns k (suc n) h =
      ground (arith, get_elem?-clear_slot fns k n, find_slot-below fns k n)

  -- What the inner loop finds from `n` on, with the entries that it passes over, and then what it
  -- would find in the table with that entry cleared.
  find_slot-none :
      (fns : Block) (n : ℕ)
      → n ≤ length fns
      → find_slot ranges fns n ≡ none
      → pending_slots fns n ≡ []
  unfolding find_slot pending_slots
  find_slot-none fns zero h e = refl
  find_slot-none fns (suc n) h e = ground (arith, find_slot-none fns n)

  find_slot-some :
      (fns : Block) (n k : ℕ) (f : AtexitFn)
      → find_slot ranges fns n ≡ some (k, f)
      → (k < n)
        × (pending_slots fns n ≡ f ∷ pending_slots fns k)
        × (pending_slots (clear_slot fns k) n ≡ pending_slots fns k)
        × (find_slot ranges (clear_slot fns k) n ≡ find_slot ranges (clear_slot fns k) k)
  unfolding find_slot pending_slots
  find_slot-some fns zero k f e = cc
  find_slot-some fns (suc n) k f e = elim (Option-cases (get_elem? fns n)) [
    | inl missing ↦ ground arith
    | inr (g, here) ↦ elim (Bool-cases (eligible ranges g)) [
      | inl call ↦
          unfold eligible in
          ground (
            arith,
            get_elem?-clear_self fns n g here,
            pending_slots-below fns n n,
            find_slot-below fns n n,
          )
      | inr pass ↦ ground (arith, find_slot-some fns n k f, get_elem?-clear_slot fns k n)
    ]
  ]

  pub find_block-none :
      (at : ℕ) (bs : List Block) → find_block ranges at bs ≡ none → pending bs ≡ []
  unfolding find_block pending
  find_block-none at [] e = refl
  find_block-none at (b ∷ bs) e =
      ground (arith, find_slot-none b (length b) (omega arith), find_block-none (at + 1) bs)

  -- The loops from entry `n` of the block at place `j` of the chain, which has the number `i`.
  abbrev pub resume : (i j n : ℕ) → List Block → Option (ℕ × ℕ × AtexitFn)
  resume i j n bs = elim (drop j bs) [
    | [] ↦ none
    | b ∷ rest ↦ elim (find_slot ranges b n) [
      | none ↦ find_block ranges (i + 1) rest
      | some (k, f) ↦ some (i, k, f)
    ]
  ]

  -- The entry found is the first of those pending, its clearing leaves the others, and a new scan
  -- of the cleared tables finds what going on from there finds.
  pub find_block-some :
      (at : ℕ) (bs : List Block) (i n : ℕ) (f : AtexitFn)
      → find_block ranges at bs ≡ some (i, n, f)
      → (j : ℕ) × (i ≡ at + j)
        × (pending bs ≡ f ∷ pending (clear_entry bs j n))
        × (find_block ranges at (clear_entry bs j n) ≡ resume i j n (clear_entry bs j n))
  unfolding find_block pending clear_entry
  find_block-some at [] i n f e = cc
  find_block-some at (b ∷ bs) i n f e = elim (Option-cases (find_slot ranges b (length b))) [
    | inl passed ↦
        let rest : find_block ranges (at + 1) bs ≡ some (i, n, f) = ground arith in
        let (j, place, order, again) = find_block-some (at + 1) bs i n f rest in
        let quiet = find_slot-none b (length b) (omega arith) passed in
        (suc j, omega arith, rw (quiet, order), ground (arith, again))
    | inr ((k, g), hit) ↦
        let (below, order, left, again) = find_slot-some b (length b) k g hit in
        let same_k : n ≡ k = ground arith in
        let same_f : f ≡ g = ground arith in
        let same_i : i ≡ at = ground arith in
        (
          0,
          omega arith,
          rw (order, same_k, same_f, length-clear_slot, left),
          rw (same_k, same_i) (ground (arith, again, length-clear_slot b k)),
        )
  ]
