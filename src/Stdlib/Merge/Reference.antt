-- ===== src/Stdlib/Merge/Reference.antt =====
-- The stable merge of two lists, one element at a time, which the merge of z_mergesort is compared
-- with.
use mathlib.Core.Path.{subst, ap₂}
use lib_system_call.Base.{
  ◌≡◌, Bool, true, false, List, [], ◌∷◌, ◌++◌, filter, All, append_nil, arith, refl, ap, sym, ◌&&◌,
  ◌∙◌, inl, inr, Bool-cases, if◌then◌else◌,
}
use lib_system_call.Stdlib.Sort.{IsSorted, IsTie}

module _ {A : Type 0} (le : A → A → Bool) where
  abbrev pub IsTotal : Type 0
  IsTotal = (u v : A) → le u v ≡ false → le v u ≡ true

  abbrev pub IsTransitive : Type 0
  IsTransitive = (u v w : A) → le u v ≡ true → le v w ≡ true → le u w ≡ true

  unfoldable pub stable_merge : List A → List A → List A
  stable_merge [] ys = ys
  stable_merge (x ∷ xs) [] = x ∷ xs
  stable_merge (x ∷ xs) (y ∷ ys) =
      if le x y then x ∷ stable_merge xs (y ∷ ys) else y ∷ stable_merge (x ∷ xs) ys

  -- Every element is at most those behind it.
  abbrev pub IsAscending : List A → Type 0
  IsAscending [] = Unit
  IsAscending (x ∷ xs) = All (λ y. le x y ≡ true) xs × IsAscending xs

  All-below :
      (x y : A) (ys : List A)
      → IsTransitive
      → le x y ≡ true
      → All (λ z. le y z ≡ true) ys
      → All (λ z. le x z ≡ true) ys
  All-below x y [] trans h k = tt
  All-below x y (z ∷ ys) trans h k = (trans x y z h k.0, All-below x y ys trans h k.1)

  pub IsSorted-IsAscending : (xs : List A) → IsTransitive → IsSorted le xs → IsAscending xs
  IsSorted-IsAscending [] trans h = tt
  IsSorted-IsAscending (x ∷ []) trans h = (tt, tt)
  IsSorted-IsAscending (x ∷ y ∷ xs) trans h =
      let rest = IsSorted-IsAscending (y ∷ xs) trans h.1 in
      ((h.0, All-below x y xs trans h.0 rest.0), rest)

  pub IsAscending-IsSorted : (xs : List A) → IsAscending xs → IsSorted le xs
  IsAscending-IsSorted [] h = tt
  IsAscending-IsSorted (x ∷ []) h = tt
  IsAscending-IsSorted (x ∷ y ∷ xs) h = (h.0.0, IsAscending-IsSorted (y ∷ xs) h.1)

  All-stable_merge :
      (P : A → Type 0) (xs ys : List A) → All P xs → All P ys → All P (stable_merge xs ys)
  unfolding stable_merge
  All-stable_merge P [] ys h k = k
  All-stable_merge P (x ∷ xs) [] h k = h
  All-stable_merge P (x ∷ xs) (y ∷ ys) h k =
      let first = All-stable_merge P xs (y ∷ ys) h.1 k in
      let second = All-stable_merge P (x ∷ xs) ys h k.1 in
      elim (Bool-cases (le x y)) [ inl e ↦ rw e (h.0, first) | inr e ↦ rw e (k.0, second) ]

  pub stable_merge-IsAscending :
      (xs ys : List A)
      → IsTotal
      → IsTransitive
      → IsAscending xs
      → IsAscending ys
      → IsAscending (stable_merge xs ys)
  unfolding stable_merge
  stable_merge-IsAscending [] ys total trans h k = k
  stable_merge-IsAscending (x ∷ xs) [] total trans h k = h
  stable_merge-IsAscending (x ∷ xs) (y ∷ ys) total trans h k =
      let first = stable_merge-IsAscending xs (y ∷ ys) total trans h.1 k in
      let second = stable_merge-IsAscending (x ∷ xs) ys total trans h k.1 in
      elim (Bool-cases (le x y)) [
        | inl e ↦ rw e (
          All-stable_merge (λ z. le x z ≡ true) xs (y ∷ ys) h.0 (e, All-below x y ys trans e k.0),
          first,
        )
        | inr e ↦
            let e' = total x y e in
            rw e (
              All-stable_merge (λ z. le y z ≡ true) (x ∷ xs) ys (e', All-below y x xs trans e' h.0)
                  k.0,
              second,
            )
      ]

  -- No element from `x` on ties with `y`, when `y` comes before `x`.
  filter_none :
      (p : A → Bool) (x y : A) (xs : List A)
      → IsTransitive
      → IsTie le p
      → le x y ≡ false
      → p y ≡ true
      → All (λ z. le x z ≡ true) xs
      → filter p xs ≡ []
  filter_none p x y [] trans tie e at h = refl
  filter_none p x y (z ∷ xs) trans tie e at h = elim (Bool-cases (p z)) [
    | inl both ↦ let passed = trans x z y h.0 (tie z y both at) in cc
    | inr other ↦ rw other (filter_none p x y xs trans tie e at h.1)
  ]

  pub le_refl : (x : A) → IsTotal → le x x ≡ true
  le_refl x total = elim (Bool-cases (le x x)) [ inl e ↦ e | inr e ↦ total x x e ]

  pub filter-stable_merge :
      (p : A → Bool) (xs ys : List A)
      → IsTotal
      → IsTransitive
      → IsTie le p
      → IsAscending xs
      → filter p (stable_merge xs ys) ≡ filter p xs ++ filter p ys
  unfolding stable_merge
  filter-stable_merge p [] ys total trans tie h = refl
  filter-stable_merge p (x ∷ xs) [] total trans tie h = sym (append_nil (filter p (x ∷ xs)))
  filter-stable_merge p (x ∷ xs) (y ∷ ys) total trans tie h =
      let first = filter-stable_merge p xs (y ∷ ys) total trans tie h.1 in
      let second = filter-stable_merge p (x ∷ xs) ys total trans tie h in
      elim (Bool-cases (le x y)) [
        | inl e ↦ elim (Bool-cases (p x)) [
          | inl at ↦ rw (e, at) (ap (λ zs. x ∷ zs) first)
          | inr other ↦ rw (e, other) first
        ]
        | inr e ↦ elim (Bool-cases (p y)) [
          | inl at ↦
              let empty = filter_none p x y (x ∷ xs) trans tie e at (le_refl x total, h.0) in
              rw (e, at)
                (ap (λ zs. y ∷ zs) (second ∙ ap (λ zs. zs ++ filter p ys) empty)
                  ∙ ap (λ zs. zs ++ y ∷ filter p ys) (sym empty))
          | inr other ↦ rw (e, other) second
        ]
      ]

  -- The elements that tie with `x`.
  abbrev same_as : A → A → Bool
  same_as x z = le x z && le z x

  same_as-IsTie : (x : A) → IsTransitive → IsTie le (same_as x)
  same_as-IsTie x trans a b h k = trans a x b (ground (arith, h)) (ground (arith, k))

  All-filter :
      (P : A → Type 0) (p : A → Bool) (x : A) (ys rest : List A)
      → All P ys
      → filter p ys ≡ x ∷ rest
      → P x
  All-filter P p x [] rest h e = absurd cc
  All-filter P p x (y ∷ ys) rest h e = elim (Bool-cases (p y)) [
    | inl at ↦ let same : y ≡ x = ground (arith, e, at) in subst P same h.0
    | inr other ↦ All-filter P p x ys rest h.1 (ground (arith, e, other))
  ]

  -- The head of an ascending list comes first among all that are found in it.
  head_below :
      (x y : A) (xs ys : List A)
      → IsTotal
      → IsAscending (y ∷ ys)
      → filter (same_as x) (x ∷ xs) ≡ filter (same_as x) (y ∷ ys)
      → le y x ≡ true
  head_below x y xs ys total h e =
      let own = le_refl x total in
      let found : same_as x x ≡ true = ground (arith, own) in
      All-filter (λ z. le y z ≡ true) (same_as x) x (y ∷ ys) (filter (same_as x) xs)
        (le_refl y total, h.0) (sym e ∙ rw found refl)

  same_rest :
      (p : A → Bool) (x y : A) (xs ys : List A)
      → x ≡ y
      → filter p (x ∷ xs) ≡ filter p (y ∷ ys)
      → filter p xs ≡ filter p ys
  same_rest p x y xs ys heads all =
      let alike : p x ≡ p y = ap p heads in
      elim (Bool-cases (p x)) [
        | inl at ↦ ground (arith, all, alike, at)
        | inr other ↦ ground (arith, all, alike, other)
      ]

  -- An ascending list is determined by the order of the elements that tie.
  pub IsAscending-unique :
      (xs ys : List A)
      → IsTotal
      → IsTransitive
      → IsAscending xs
      → IsAscending ys
      → ((p : A → Bool) → IsTie le p → filter p xs ≡ filter p ys)
      → xs ≡ ys
  IsAscending-unique [] [] total trans h k e = refl
  IsAscending-unique [] (y ∷ ys) total trans h k e =
      let own = le_refl y total in
      let same = e (same_as y) (same_as-IsTie y trans) in absurd (ground (arith, own, same))
  IsAscending-unique (x ∷ xs) [] total trans h k e =
      let own = le_refl x total in
      let same = e (same_as x) (same_as-IsTie x trans) in absurd (ground (arith, own, same))
  IsAscending-unique (x ∷ xs) (y ∷ ys) total trans h k e =
      let xs_same = e (same_as x) (same_as-IsTie x trans) in
      let ys_same = e (same_as y) (same_as-IsTie y trans) in
      let below = head_below x y xs ys total k xs_same in
      let above = head_below y x ys xs total h (sym ys_same) in
      let own = le_refl x total in
      let heads : x ≡ y = ground (arith, xs_same, below, above, own) in
      ap₂ ◌∷◌ heads (
        IsAscending-unique xs ys total trans h.1 k.1
          (λ p tie. same_rest p x y xs ys heads (e p tie)))
