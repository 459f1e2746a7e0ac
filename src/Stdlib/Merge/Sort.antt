-- ===== src/Stdlib/Merge/Sort.antt =====
-- What z_mergesort does to its array.
use mathlib.Core.Path.{subst, ap₂}
use lib_system_call.Base.{
  ◌/◌, ℕ, zero, suc, ◌+◌, ◌-◌, ◌%◌, ◌≤◌, ◌≡◌, Bool, false, ltb, leb, List, [], ◌∷◌, ◌++◌, none,
  some, All, All-append, filter, length, take, drop, append_assoc, append_nil, arith, refl, ap, sym,
  ◌∙◌, inl, inr, Bool-cases,
}
use lib_system_call.Base.Int.{ℤ, pos}
use lib_system_call.Stdlib.{z_insertionsort}
use lib_system_call.Stdlib.Sort.{IsTie, z_insertionsort_lem}
use lib_system_call.Stdlib.Merge.{
  in_order, merge_runs, merge_pass, merge_passes, pair_runs, z_setup, z_mergesort,
}
use lib_system_call.Stdlib.Merge.Reference.{
  IsTotal, IsTransitive, IsAscending, stable_merge-IsAscending, filter-stable_merge,
  IsSorted-IsAscending, IsAscending-unique,
}
use lib_system_call.Stdlib.Merge.Laws.{IsComparison, IsComparison-IsTotal, merge_runs_lem}

concat {ℓ} : {A : Type ℓ} → List (List A) → List A
concat [] = []
concat (xs ∷ xss) = xs ++ concat xss

filter-append :
    {A : Type 0} (p : A → Bool) (xs ys : List A) → filter p (xs ++ ys) ≡ filter p xs ++ filter p ys
filter-append p [] ys = refl
filter-append p (x ∷ xs) ys =
    let rest = filter-append p xs ys in
    elim (Bool-cases (p x)) [ inl at ↦ rw at (ap (λ zs. x ∷ zs) rest) | inr other ↦ rw other rest ]

concat-append :
    {A : Type 0} (xss yss : List (List A)) → concat (xss ++ yss) ≡ concat xss ++ concat yss
unfolding concat
concat-append [] yss = refl
concat-append (xs ∷ xss) yss =
    ap (λ zs. xs ++ zs) (concat-append xss yss) ∙ sym (append_assoc xs (concat xss) (concat yss))

take-append-drop : {A : Type 0} (n : ℕ) (xs : List A) → take n xs ++ drop n xs ≡ xs
take-append-drop zero xs = refl
take-append-drop (suc n) [] = refl
take-append-drop (suc n) (x ∷ xs) = ap (λ zs. x ∷ zs) (take-append-drop n xs)

module _ {A : Type 0} (cmp : A → A → ℤ) where
  -- The runs are in order, and those elements that tie stand in them as in the array.
  IsRuns : List A → List (List A) → Type 0
  unfolding concat
  IsRuns xs runs =
      All (IsAscending (in_order cmp)) runs
      × ((p : A → Bool) → IsTie (in_order cmp) p → filter p (concat runs) ≡ filter p xs)

  merge_pass_sorted :
      (big : Bool) (runs : List (List A))
      → IsComparison cmp
      → IsTransitive (in_order cmp)
      → All (IsAscending (in_order cmp)) runs
      → All (IsAscending (in_order cmp)) (merge_pass cmp big runs).0
  unfolding merge_pass
  merge_pass_sorted big [] h trans asc = tt
  merge_pass_sorted big (run ∷ []) h trans asc = asc
  merge_pass_sorted big (run1 ∷ run2 ∷ runs) h trans asc =
      let fuel = length run1 + length run2 in
      let merged = merge_runs_lem cmp fuel big run1 run2 h trans asc.0 asc.1.0 (omega arith) in
      (
        subst (IsAscending (in_order cmp)) (sym merged) (
            stable_merge-IsAscending (in_order cmp) run1 run2 (IsComparison-IsTotal cmp h) trans
              asc.0 asc.1.0),
        merge_pass_sorted (merge_runs cmp fuel big run1 run2).1 runs h trans asc.1.1,
      )

  filter-merge_pass :
      (p : A → Bool) (big : Bool) (runs : List (List A))
      → IsComparison cmp
      → IsTransitive (in_order cmp)
      → IsTie (in_order cmp) p
      → All (IsAscending (in_order cmp)) runs
      → filter p (concat (merge_pass cmp big runs).0) ≡ filter p (concat runs)
  unfolding merge_pass concat
  filter-merge_pass p big [] h trans tie asc = refl
  filter-merge_pass p big (run ∷ []) h trans tie asc = refl
  filter-merge_pass p big (run1 ∷ run2 ∷ runs) h trans tie asc =
      let fuel = length run1 + length run2 in
      let (run, big') = merge_runs cmp fuel big run1 run2 in
      let merged = merge_runs_lem cmp fuel big run1 run2 h trans asc.0 asc.1.0 (omega arith) in
      let rest = filter-merge_pass p big' runs h trans tie asc.1.1 in
      let both =
        filter-stable_merge (in_order cmp) p run1 run2 (IsComparison-IsTotal cmp h) trans tie
          asc.0 in
      filter-append p run (concat (merge_pass cmp big' runs).0)
      ∙ ap₂ ◌++◌ (ap (filter p) merged ∙ both) rest
      ∙ append_assoc (filter p run1) (filter p run2) (filter p (concat runs))
      ∙ sym (
          filter-append p run1 (run2 ++ concat runs)
          ∙ ap (λ zs. filter p run1 ++ zs) (filter-append p run2 (concat runs)))

  length-merge_pass :
      (big : Bool) (runs : List (List A))
      → length (merge_pass cmp big runs).0 ≤ length runs - length runs / 2
  unfolding merge_pass
  length-merge_pass big [] = omega arith
  length-merge_pass big (run ∷ []) = omega arith
  length-merge_pass big (run1 ∷ run2 ∷ runs) =
      let big' = (merge_runs cmp (length run1 + length run2) big run1 run2).1 in
      let rest = length-merge_pass big' runs in omega arith

  merge_passes_lem :
      (fuel : ℕ) (big : Bool) (runs : List (List A))
      → IsComparison cmp
      → IsTransitive (in_order cmp)
      → All (IsAscending (in_order cmp)) runs
      → length runs ≤ fuel
      → IsAscending (in_order cmp) (merge_passes cmp fuel big runs)
        × ((p : A → Bool)
            → IsTie (in_order cmp) p
            → filter p (merge_passes cmp fuel big runs) ≡ filter p (concat runs))
  unfolding merge_passes concat
  merge_passes_lem fuel big [] h trans asc enough = (tt, (λ p tie. refl))
  merge_passes_lem fuel big (run ∷ []) h trans asc enough =
      (asc.0, (λ p tie. ap (filter p) (sym (append_nil run))))
  merge_passes_lem zero big (run1 ∷ run2 ∷ runs) h trans asc enough = absurd (omega arith)
  merge_passes_lem (suc fuel) big (run1 ∷ run2 ∷ runs) h trans asc enough =
      let (runs', big') = merge_pass cmp big (run1 ∷ run2 ∷ runs) in
      let shorter = length-merge_pass big (run1 ∷ run2 ∷ runs) in
      let rest =
        merge_passes_lem fuel big' runs' h trans
          (merge_pass_sorted big (run1 ∷ run2 ∷ runs) h trans asc) (omega arith) in
      (
        rest.0,
        (λ p tie. rest.1 p tie ∙ filter-merge_pass p big (run1 ∷ run2 ∷ runs) h trans tie asc),
      )

  -- Two elements out of order do not both tie with others.
  turned :
      (p : A → Bool) (x y : A) (before after : List A)
      → IsTie (in_order cmp) p
      → in_order cmp x y ≡ false
      → filter p before ≡ filter p after
      → filter p (y ∷ x ∷ before) ≡ filter p (x ∷ y ∷ after)
  turned p x y before after tie e same = elim (Bool-cases (p x)) [
    | inl at ↦ elim (Bool-cases (p y)) [
      | inl both ↦ let le = tie x y at both in cc
      | inr only ↦ rw (at, only, same) refl
    ]
    | inr other ↦ rw (other, same) refl
  ]

  pair_runs-IsRuns : (xs : List A) → IsTotal (in_order cmp) → IsRuns xs (pair_runs cmp xs)
  unfolding IsRuns concat pair_runs
  pair_runs-IsRuns [] total = (tt, (λ p tie. refl))
  pair_runs-IsRuns (x ∷ []) total = (((tt, tt), tt), (λ p tie. refl))
  pair_runs-IsRuns (x ∷ y ∷ xs) total =
      let (sorted, same) = pair_runs-IsRuns xs total in
      elim (Bool-cases (in_order cmp x y)) [
        | inl e ↦ rw e ((((e, tt), (tt, tt)), sorted), (λ p tie. rw (same p tie) refl))
        | inr e ↦ rw e (
          (((total x y e, tt), (tt, tt)), sorted),
          (λ p tie. turned p x y (concat (pair_runs cmp xs)) xs tie e (same p tie)),
        )
      ]

  insertion-IsRuns :
      (xs : List A)
      → IsTotal (in_order cmp)
      → IsTransitive (in_order cmp)
      → IsRuns xs (z_insertionsort (in_order cmp) xs ∷ [])
  unfolding IsRuns concat
  insertion-IsRuns xs total trans =
      let (sorted, same, _) = z_insertionsort_lem (in_order cmp) xs total in
      (
        (IsSorted-IsAscending (in_order cmp) (z_insertionsort (in_order cmp) xs) trans sorted, tt),
        (λ p tie. ap (filter p) (append_nil (z_insertionsort (in_order cmp) xs)) ∙ same p tie),
      )

  IsRuns-append :
      (xs ys : List A) (runs1 runs2 : List (List A))
      → IsRuns xs runs1
      → IsRuns ys runs2
      → IsRuns (xs ++ ys) (runs1 ++ runs2)
  unfolding IsRuns
  IsRuns-append xs ys runs1 runs2 h k = (
    All-append (IsAscending (in_order cmp)) runs1 runs2 h.0 k.0,
    (λ p tie.
        ap (filter p) (concat-append runs1 runs2)
        ∙ filter-append p (concat runs1) (concat runs2)
        ∙ ap₂ ◌++◌ (h.1 p tie) (k.1 p tie)
        ∙ sym (filter-append p xs ys)),
  )

  z_setup-IsRuns :
      (xs : List A)
      → IsTotal (in_order cmp)
      → IsTransitive (in_order cmp)
      → IsRuns xs (z_setup cmp xs)
  unfolding IsRuns z_setup
  z_setup-IsRuns xs total trans =
      let n = length xs - (4 + length xs % 2) in
      elim (Bool-cases (leb (length xs) 5)) [
        | inl short ↦ rw short (insertion-IsRuns xs total trans)
        | inr long ↦ rw long (
            subst
              (λ zs.
                IsRuns zs
                  (pair_runs cmp (take n xs) ++ z_insertionsort (in_order cmp) (drop n xs) ∷ []))
              (take-append-drop n xs)
              (IsRuns-append (take n xs) (drop n xs) (pair_runs cmp (take n xs))
                (z_insertionsort (in_order cmp) (drop n xs) ∷ [])
                (pair_runs-IsRuns (take n xs) total) (insertion-IsRuns (drop n xs) total trans)))
      ]

  sorted_same :
      (xs : List A)
      → IsComparison cmp
      → IsTransitive (in_order cmp)
      → merge_passes cmp (length (z_setup cmp xs)) false (z_setup cmp xs)
        ≡ z_insertionsort (in_order cmp) xs
  unfolding IsRuns
  sorted_same xs h trans =
      let total = IsComparison-IsTotal cmp h in
      let runs = z_setup cmp xs in
      let (asc, kept) = z_setup-IsRuns xs total trans in
      let (asc1, kept1) = merge_passes_lem (length runs) false runs h trans asc (omega arith) in
      let (sorted, kept2, _) = z_insertionsort_lem (in_order cmp) xs total in
      IsAscending-unique (in_order cmp) (merge_passes cmp (length runs) false runs)
        (z_insertionsort (in_order cmp) xs) total trans asc1
        (IsSorted-IsAscending (in_order cmp) (z_insertionsort (in_order cmp) xs) trans sorted)
        (λ p tie. kept1 p tie ∙ kept p tie ∙ sym (kept2 p tie))

  -- With a comparison whose sign changes with the order of its arguments and by which the order is
  -- transitive, for elements of four bytes or more and when there is memory, `z_mergesort` returns 0
  -- and leaves the array that `z_insertionsort` leaves. The number of bytes of the array, an int in
  -- the code, is not wrapped, so this is about arrays below 2 GiB.
  pub z_mergesort-z_insertionsort :
      (size list2 : ℕ) (xs : List A)
      → IsComparison cmp
      → IsTransitive (in_order cmp)
      → 4 ≤ size
      → z_mergesort cmp size (some list2) xs ≡ (pos 0, none, z_insertionsort (in_order cmp) xs)
  unfolding z_insertionsort z_mergesort
  z_mergesort-z_insertionsort size list2 [] h trans large =
      let fits : ltb size 4 ≡ false = ground arith in rw fits refl
  z_mergesort-z_insertionsort size list2 (x ∷ xs) h trans large =
      let fits : ltb size 4 ≡ false = ground arith in
      rw fits (ap (λ zs. (pos 0, none, zs)) (sorted_same (x ∷ xs) h trans))
