-- ===== src/Stdlib/Merge/Laws.antt =====
-- The merge of two runs is the stable merge.
use lib_system_call.Base.{
  ℕ, zero, suc, ◌+◌, ◌-◌, ◌≤◌, ◌<◌, ◌≡◌, Bool, true, false, not, List, [], ◌∷◌, ◌++◌, All, length,
  take, drop, append_assoc, arith, refl, ap, sym, ◌∙◌, inl, inr, Bool-cases,
}
use lib_system_call.Base.Int.{ℤ, pos, negsuc}
use lib_system_call.Stdlib.Merge.{at_most, in_order, stops, search_run, merge_round, merge_runs}
use lib_system_call.Stdlib.Merge.Search.{search_run_lem}
use lib_system_call.Stdlib.Merge.Reference.{IsTotal, IsTransitive, IsAscending, stable_merge}

other_of_not : {a b c : Bool} → a ≡ not b → a ≡ c → b ≡ not c
other_of_not {a} {b} {c} h e = ground (arith, h, e)

module _ {A : Type 0} (cmp : A → A → ℤ) where
  -- The sign of the comparison changes with the order of the elements.
  abbrev pub IsComparison : Type 0
  IsComparison = (u v : A) → at_most (cmp u v) (negsuc 0) ≡ not (in_order cmp v u)

  negative_at_most : (c : ℤ) → at_most c (negsuc 0) ≡ true → at_most c (pos 0) ≡ true
  negative_at_most (pos n) h = ground arith
  negative_at_most (negsuc n) h = ground arith

  pub IsComparison-IsTotal : IsComparison → IsTotal (in_order cmp)
  IsComparison-IsTotal h u v e = negative_at_most (cmp v u) (h v u ∙ ap not e)

  -- From an element at which the search stops on, it stops.
  IsUpward : (sense : ℤ) (q : A) → Type 0
  IsUpward sense q =
      (u v : A)
      → in_order cmp u v ≡ true
      → at_most (cmp q u) sense ≡ true
      → at_most (cmp q v) sense ≡ true

  IsUpward-negative : (q : A) → IsComparison → IsTransitive (in_order cmp) → IsUpward (negsuc 0) q
  unfolding IsUpward
  IsUpward-negative q h trans u v le at = h q v ∙ (elim (Bool-cases (in_order cmp v q)) [
    | inl e ↦
        let both = trans u v q le e in
        let apart = h q u in let wrong = sym at ∙ apart ∙ ap not both in absurd cc
    | inr e ↦ ap not e
  ])

  IsUpward-zero : (q : A) → IsTransitive (in_order cmp) → IsUpward (pos 0) q
  unfolding IsUpward
  IsUpward-zero q trans u v le at = trans q u v at le

  stops-All :
      (sense : ℤ) (q x : A) (xs : List A) (j : ℕ)
      → IsUpward sense q
      → at_most (cmp q x) sense ≡ true
      → All (λ z. in_order cmp x z ≡ true) xs
      → stops cmp sense q xs j ≡ true
  unfolding IsUpward
  stops-All sense q x [] j up at h = refl
  stops-All sense q x (z ∷ xs) zero up at h = up x z h.0 at
  stops-All sense q x (z ∷ xs) (suc j) up at h = stops-All sense q x xs j up at h.1

  stops-IsStep :
      (sense : ℤ) (q : A) (run : List A) (i j : ℕ)
      → IsUpward sense q
      → IsAscending (in_order cmp) run
      → i ≤ j
      → stops cmp sense q run i ≡ true
      → stops cmp sense q run j ≡ true
  stops-IsStep sense q [] i j up asc h at = refl
  stops-IsStep sense q (x ∷ xs) zero zero up asc h at = at
  stops-IsStep sense q (x ∷ xs) zero (suc j) up asc h at = stops-All sense q x xs j up at asc.0
  stops-IsStep sense q (x ∷ xs) (suc i) zero up asc h at = absurd (omega arith)
  stops-IsStep sense q (x ∷ xs) (suc i) (suc j) up asc h at =
      stops-IsStep sense q xs i j up asc.1 (omega arith) at

  -- What the search leaves begins with an element at which it stops.
  abbrev IsStopped : (sense : ℤ) (q : A) → List A → Type 0
  IsStopped sense q [] = Unit
  IsStopped sense q (x ∷ xs) = at_most (cmp q x) sense ≡ true

  passed-All :
      (sense : ℤ) (q : A) (run : List A) (n : ℕ)
      → ((j : ℕ) → j < n → stops cmp sense q run j ≡ false)
      → All (λ z. at_most (cmp q z) sense ≡ false) (take n run)
  passed-All sense q run zero h = tt
  passed-All sense q [] (suc n) h = tt
  passed-All sense q (x ∷ xs) (suc n) h =
      (h 0 (omega arith), passed-All sense q xs n (λ j below. h (suc j) (omega arith)))

  left-IsStopped :
      (sense : ℤ) (q : A) (run : List A) (n : ℕ)
      → (n < length run → stops cmp sense q run n ≡ true)
      → IsStopped sense q (drop n run)
  left-IsStopped sense q [] zero h = tt
  left-IsStopped sense q (x ∷ xs) zero h = h (omega arith)
  left-IsStopped sense q [] (suc n) h = tt
  left-IsStopped sense q (x ∷ xs) (suc n) h = left-IsStopped sense q xs n (λ below. h (omega arith))

  stable_merge-nil : (xs : List A) → stable_merge (in_order cmp) xs [] ≡ xs
  unfolding stable_merge
  stable_merge-nil [] = refl
  stable_merge-nil (x ∷ xs) = refl

  -- Elements of the first run that the search passes come before `y`.
  stable_merge_first :
      (n : ℕ) (xs : List A) (y : A) (ys : List A)
      → IsComparison
      → All (λ z. at_most (cmp y z) (negsuc 0) ≡ false) (take n xs)
      → IsStopped (negsuc 0) y (drop n xs)
      → stable_merge (in_order cmp) xs (y ∷ ys)
        ≡ take n xs ++ y ∷ stable_merge (in_order cmp) (drop n xs) ys
  unfolding stable_merge
  stable_merge_first zero [] y ys h passed stopped = refl
  stable_merge_first zero (x ∷ xs) y ys h passed stopped =
      let apart = h y x in
      let after : in_order cmp x y ≡ false = other_of_not apart stopped in rw after refl
  stable_merge_first (suc n) [] y ys h passed stopped = refl
  stable_merge_first (suc n) (x ∷ xs) y ys h passed stopped =
      let apart = h y x in
      let before : in_order cmp x y ≡ true = other_of_not apart passed.0 in
      rw before (ap (λ zs. x ∷ zs) (stable_merge_first n xs y ys h passed.1 stopped))

  -- Elements of the second run that the search passes come before `x`.
  stable_merge_second :
      (n : ℕ) (x : A) (xs ys : List A)
      → All (λ z. at_most (cmp x z) (pos 0) ≡ false) (take n ys)
      → IsStopped (pos 0) x (drop n ys)
      → stable_merge (in_order cmp) (x ∷ xs) ys
        ≡ take n ys ++ x ∷ stable_merge (in_order cmp) xs (drop n ys)
  unfolding stable_merge
  stable_merge_second zero x xs [] passed stopped = ap (λ zs. x ∷ zs) (sym (stable_merge-nil xs))
  stable_merge_second zero x xs (y ∷ ys) passed stopped = rw stopped refl
  stable_merge_second (suc n) x xs [] passed stopped = ap (λ zs. x ∷ zs) (sym (stable_merge-nil xs))
  stable_merge_second (suc n) x xs (y ∷ ys) passed stopped =
      rw (passed.0) (ap (λ zs. y ∷ zs) (stable_merge_second n x xs ys passed.1 stopped))

  IsAscending-drop :
      (n : ℕ) (xs : List A) → IsAscending (in_order cmp) xs → IsAscending (in_order cmp) (drop n xs)
  IsAscending-drop zero xs h = h
  IsAscending-drop (suc n) [] h = h
  IsAscending-drop (suc n) (x ∷ xs) h = IsAscending-drop n xs h.1

  length-drop : (n : ℕ) (xs : List A) → length (drop n xs) ≤ length xs - n
  length-drop zero xs = omega arith
  length-drop (suc n) [] = omega arith
  length-drop (suc n) (x ∷ xs) = omega (arith, length-drop n xs)

  -- One round gives a first part of the merge, and leaves what is to be merged.
  merge_round_lem :
      (big : Bool) (x : A) (xs : List A) (y : A) (ys : List A)
      → IsComparison
      → IsTransitive (in_order cmp)
      → IsAscending (in_order cmp) (x ∷ xs)
      → IsAscending (in_order cmp) (y ∷ ys)
      → let (out, run1, run2, big') = merge_round cmp big x xs y ys in
        (stable_merge (in_order cmp) (x ∷ xs) (y ∷ ys)
          ≡ out ++ stable_merge (in_order cmp) run1 run2)
        × IsAscending (in_order cmp) run1
        × IsAscending (in_order cmp) run2
        × (length run1 + length run2 < length (x ∷ xs) + length (y ∷ ys))
  unfolding merge_round IsUpward
  merge_round_lem big x xs y ys h trans asc1 asc2 = elim (Bool-cases (in_order cmp x y)) [
    | inl e ↦
        let up = IsUpward-negative y h trans in
        let found =
          search_run_lem (stops cmp (negsuc 0) y (x ∷ xs)) big (length (x ∷ xs))
            (λ i j le below. stops-IsStep (negsuc 0) y (x ∷ xs) i j up asc1 le) (omega arith)
            (h y x ∙ ap not e) in
        let n = (search_run (stops cmp (negsuc 0) y (x ∷ xs)) big (length (x ∷ xs))).0 in
        let passed = passed-All (negsuc 0) y (x ∷ xs) n found.2 in
        let stopped = left-IsStopped (negsuc 0) y (x ∷ xs) n found.3 in
        rw e (
          stable_merge_first n (x ∷ xs) y ys h passed stopped
              ∙ sym (
                  append_assoc (take n (x ∷ xs)) (y ∷ [])
                    (stable_merge (in_order cmp) (drop n (x ∷ xs)) ys)),
          IsAscending-drop n (x ∷ xs) asc1,
          asc2.1,
          omega (arith, length-drop n (x ∷ xs)),
        )
    | inr e ↦
        let up = IsUpward-zero x trans in
        let found =
          search_run_lem (stops cmp (pos 0) x (y ∷ ys)) big (length (y ∷ ys))
            (λ i j le below. stops-IsStep (pos 0) x (y ∷ ys) i j up asc2 le) (omega arith) e in
        let n = (search_run (stops cmp (pos 0) x (y ∷ ys)) big (length (y ∷ ys))).0 in
        let passed = passed-All (pos 0) x (y ∷ ys) n found.2 in
        let stopped = left-IsStopped (pos 0) x (y ∷ ys) n found.3 in
        rw e (
          stable_merge_second n x xs (y ∷ ys) passed stopped
              ∙ sym (
                  append_assoc (take n (y ∷ ys)) (x ∷ [])
                    (stable_merge (in_order cmp) xs (drop n (y ∷ ys)))),
          asc1.1,
          IsAscending-drop n (y ∷ ys) asc2,
          omega (arith, length-drop n (y ∷ ys)),
        )
  ]

  -- With fuel for the elements of both runs the merge is the stable one.
  pub merge_runs_lem :
      (fuel : ℕ) (big : Bool) (xs ys : List A)
      → IsComparison
      → IsTransitive (in_order cmp)
      → IsAscending (in_order cmp) xs
      → IsAscending (in_order cmp) ys
      → length xs + length ys ≤ fuel
      → (merge_runs cmp fuel big xs ys).0 ≡ stable_merge (in_order cmp) xs ys
  unfolding merge_runs stable_merge
  merge_runs_lem fuel big [] ys h trans asc1 asc2 enough = refl
  merge_runs_lem fuel big (x ∷ xs) [] h trans asc1 asc2 enough = refl
  merge_runs_lem zero big (x ∷ xs) (y ∷ ys) h trans asc1 asc2 enough = absurd (omega arith)
  merge_runs_lem (suc fuel) big (x ∷ xs) (y ∷ ys) h trans asc1 asc2 enough =
      let (out, run1, run2, big') = merge_round cmp big x xs y ys in
      let round = merge_round_lem big x xs y ys h trans asc1 asc2 in
      ap (λ zs. out ++ zs)
        (merge_runs_lem fuel big' run1 run2 h trans round.1 round.2 (omega arith))
      ∙ sym round.0
