-- ===== src/Tests/Stdlib.antt =====
-- The insertion sort at concrete inputs.
use lib_system_call.Base.{ℕ, ◌≡◌, List, [], ◌∷◌, filter, leb, length, Bool, refl, arith}
use lib_system_call.Stdlib.{z_insertionsort}
use lib_system_call.Stdlib.Sort.{IsSorted, IsTie, z_insertionsort_lem}

abbrev sorted_numbers : List ℕ
unfolding z_insertionsort
sorted_numbers = z_insertionsort leb (3 ∷ 1 ∷ 2 ∷ 1 ∷ [])

sorted_numbers_lem : sorted_numbers ≡ 1 ∷ 1 ∷ 2 ∷ 3 ∷ []
unfolding z_insertionsort sorted_numbers
sorted_numbers_lem = refl

z_insertionsort_lem_example :
    IsSorted leb (z_insertionsort leb (3 ∷ 1 ∷ 2 ∷ 1 ∷ []))
    × ((p : ℕ → Bool)
        → IsTie leb p
        → filter p (z_insertionsort leb (3 ∷ 1 ∷ 2 ∷ 1 ∷ [])) ≡ filter p (3 ∷ 1 ∷ 2 ∷ 1 ∷ []))
    × ((p : ℕ → Bool)
        → length (filter p (z_insertionsort leb (3 ∷ 1 ∷ 2 ∷ 1 ∷ [])))
          ≡ length (filter p (3 ∷ 1 ∷ 2 ∷ 1 ∷ [])))
z_insertionsort_lem_example =
    z_insertionsort_lem leb (3 ∷ 1 ∷ 2 ∷ 1 ∷ []) (λ u v e. ground (arith, e))
