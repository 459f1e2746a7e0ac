-- ===== src/Tests/Str.antt =====
-- Runs of the string functions, and their theorems at concrete strings.
use lib_system_call.Base.{
  ℕ, ◌-◌, ◌≡◌, refl, arith, List, [], ◌∷◌, ltb, if◌then◌else◌, get_or, take, ◌↔◌,
}
use lib_system_call.Base.Int.{pos, negsuc, ◌-ℤ◌}
use lib_system_call.Memory.{Mem, IsStr}
use lib_system_call.Str.{z_strncmp}
use lib_system_call.Str.Order.{z_strncmp-IsComparison}
use lib_system_call.Bytes.Compare.{HoldsBytes}
use lib_system_call.Stdlib.Merge.{in_order}
use lib_system_call.Stdlib.Merge.Reference.{IsTransitive}
use lib_system_call.Stdlib.Merge.Laws.{IsComparison}

-- "ab" at 100, "abc" at 200, and zeros elsewhere.
abbrev sample : Mem
sample a =
    if ltb a 200
    then get_or (b'a' ∷ b'b' ∷ []) (a - 100) 0
    else get_or (b'a' ∷ b'b' ∷ b'c' ∷ []) (a - 200) 0

abbrev page : Mem
page a = if ltb a 100 then 0 else sample a

abbrev ab : List ℕ
ab = b'a' ∷ b'b' ∷ []

abbrev abc : List ℕ
abc = b'a' ∷ b'b' ∷ b'c' ∷ []

page-ab : IsStr page 100 ab
page-ab = omega arith

page-abc : IsStr page 200 abc
page-abc = omega arith

strncmp_prefix : (z_strncmp page 100 200 2 ≡ pos 0) × (z_strncmp page 100 200 3 ≡ negsuc 98)
unfolding z_strncmp ◌-ℤ◌
strncmp_prefix = (refl, refl)

page-HoldsBytes : HoldsBytes page
page-HoldsBytes a = ground arith

z_strncmp-IsComparison_example :
    IsComparison (λ u v. z_strncmp page u v 2)
    × IsTransitive (in_order (λ u v. z_strncmp page u v 2))
    × ((z_strncmp page 100 200 2 ≡ pos 0) ↔ (take 2 ab ≡ take 2 abc))
z_strncmp-IsComparison_example =
    z_strncmp-IsComparison 2 page 100 200 ab abc page-HoldsBytes page-ab page-abc
