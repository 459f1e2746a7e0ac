-- ===== src/Tests/Sort.antt =====
-- z_mergesort at concrete inputs.
use lib_system_call.Base.{ℕ, ◌≡◌, List, [], ◌∷◌, none, some, refl, arith}
use lib_system_call.Base.Int.{ℤ, pos, negsuc, sub_ℕ}
use lib_system_call.Stdlib.{z_insertionsort}
use lib_system_call.Stdlib.Merge.{in_order, z_mergesort}
use lib_system_call.Stdlib.Merge.Sort.{z_mergesort-z_insertionsort}

abbrev by_value : ℕ → ℕ → ℤ
by_value a b = sub_ℕ a b

abbrev numbers : List ℕ
numbers = 9 ∷ 3 ∷ 11 ∷ 1 ∷ 5 ∷ 5 ∷ 2 ∷ 8 ∷ 7 ∷ 10 ∷ 4 ∷ 3 ∷ 6 ∷ []

abbrev sorted : List ℕ
sorted = 1 ∷ 2 ∷ 3 ∷ 3 ∷ 4 ∷ 5 ∷ 5 ∷ 6 ∷ 7 ∷ 8 ∷ 9 ∷ 10 ∷ 11 ∷ []

z_mergesort-numbers : z_mergesort by_value 4 (some 65536) numbers ≡ (pos 0, none, sorted)
unfolding z_mergesort
z_mergesort-numbers = refl

-- Two runs of which the second is all below the first: the search goes on by growing steps.
abbrev turned : List ℕ
turned =
    20 ∷ 21 ∷ 22 ∷ 23 ∷ 24 ∷ 25 ∷ 26 ∷ 27 ∷ 1 ∷ 2 ∷ 3 ∷ 4 ∷ 5 ∷ 6 ∷ 7 ∷ 8 ∷ 9 ∷ 10 ∷ 11 ∷ 12 ∷ []

z_mergesort-turned : z_mergesort by_value 8 (some 65536) turned ≡ (
  pos 0,
  none,
  1 ∷ 2 ∷ 3 ∷ 4 ∷ 5 ∷ 6 ∷ 7 ∷ 8 ∷ 9 ∷ 10 ∷ 11 ∷ 12 ∷ 20 ∷ 21 ∷ 22 ∷ 23 ∷ 24 ∷ 25 ∷ 26 ∷ 27 ∷ [],
)
unfolding z_mergesort
z_mergesort-turned = refl

z_mergesort_small : z_mergesort by_value 3 (some 65536) numbers ≡ (negsuc 0, some 22, numbers)
unfolding z_mergesort
z_mergesort_small = refl

z_mergesort-z_insertionsort_example :
    z_mergesort by_value 4 (some 65536) numbers
    ≡ (pos 0, none, z_insertionsort (in_order by_value) numbers)
z_mergesort-z_insertionsort_example =
    z_mergesort-z_insertionsort by_value 4 65536 numbers (λ u v. ground arith)
      (λ u v w below below'. ground (arith, below, below')) (omega arith)
