-- ===== src/Stdlib/Sort.antt =====
-- What z_insertionsort does to its array.
use mathlib.Core.Path.{subst}
use lib_system_call.Base.{
  ◌+◌, ◌≡◌, inl, inr, Bool, true, false, List, [], ◌∷◌, ◌++◌, filter, append_nil, reverse_onto,
  length, arith, refl, ap, ◌∙◌, Bool-cases,
}
use lib_system_call.Stdlib.{sink, insert_rest, z_insertionsort}

module _ {A : Type 0} (cmp : A → A → Bool) where
  -- Neighbours are in order.
  abbrev pub IsSorted : List A → Type 0
  IsSorted [] = Unit
  IsSorted (x ∷ []) = Unit
  IsSorted (x ∷ y ∷ xs) = (cmp x y ≡ true) × IsSorted (y ∷ xs)

  -- The same, the last element first.
  abbrev IsSortedDown : List A → Type 0
  IsSortedDown [] = Unit
  IsSortedDown (x ∷ []) = Unit
  IsSortedDown (x ∷ y ∷ xs) = (cmp y x ≡ true) × IsSortedDown (y ∷ xs)

  -- A predicate of elements that compare as equal.
  abbrev pub IsTie : (A → Bool) → Type 0
  IsTie p = (x y : A) → p x ≡ true → p y ≡ true → cmp x y ≡ true

  sink-IsSortedDown :
      (x : A) (before : List A)
      → ((u v : A) → cmp u v ≡ false → cmp v u ≡ true)
      → IsSortedDown before
      → IsSortedDown (sink cmp x before)
  unfolding sink
  sink-IsSortedDown x [] total h = tt
  sink-IsSortedDown x (u ∷ []) total h = elim (Bool-cases (cmp u x)) [
    | inl le ↦ rw le (le, tt)
    | inr gt ↦ rw gt (total u x gt, tt)
  ]
  sink-IsSortedDown x (u ∷ v ∷ before) total h =
      let rest = sink-IsSortedDown x (v ∷ before) total h.1 in
      elim (Bool-cases (cmp u x)) [
        | inl le ↦ rw le (le, h)
        | inr gt ↦ elim (Bool-cases (cmp v x)) [
          | inl le ↦ rw (gt, le) (total u x gt, (le, h.1))
          | inr gt' ↦
              let moved : sink cmp x (v ∷ before) ≡ v ∷ sink cmp x before = rw (gt', sink) refl in
              rw (gt, gt') (h.0, subst IsSortedDown moved rest)
        ]
      ]

  insert_rest-IsSortedDown :
      (before rest : List A)
      → ((u v : A) → cmp u v ≡ false → cmp v u ≡ true)
      → IsSortedDown before
      → IsSortedDown (insert_rest cmp before rest)
  unfolding insert_rest
  insert_rest-IsSortedDown before [] total h = h
  insert_rest-IsSortedDown before (x ∷ rest) total h =
      insert_rest-IsSortedDown (sink cmp x before) rest total (sink-IsSortedDown x before total h)

  -- The reversed list goes in front of one whose head, if any, is in order with it.
  reverse_onto-IsSorted :
      (x : A) (before after : List A)
      → IsSortedDown (x ∷ before)
      → IsSorted (x ∷ after)
      → IsSorted (reverse_onto before (x ∷ after))
  reverse_onto-IsSorted x [] after h k = k
  reverse_onto-IsSorted x (u ∷ before) after h k =
      reverse_onto-IsSorted u before (x ∷ after) h.1 (h.0, k)

  filter-reverse_onto :
      (p : A → Bool) (xs ys : List A)
      → filter p (reverse_onto xs ys) ≡ reverse_onto (filter p xs) (filter p ys)
  filter-reverse_onto p [] ys = refl
  filter-reverse_onto p (x ∷ xs) ys = elim (Bool-cases (p x)) [
    | inl at ↦ filter-reverse_onto p xs (x ∷ ys) ∙ rw at refl
    | inr not_at ↦ filter-reverse_onto p xs (x ∷ ys) ∙ rw not_at refl
  ]

  reverse_onto-reverse_onto :
      (xs ys zs : List A) → reverse_onto (reverse_onto xs ys) zs ≡ reverse_onto ys (xs ++ zs)
  reverse_onto-reverse_onto [] ys zs = refl
  reverse_onto-reverse_onto (x ∷ xs) ys zs = reverse_onto-reverse_onto xs (x ∷ ys) zs

  -- An element sinks past none that ties with it.
  filter-sink :
      (p : A → Bool) (x : A) (before : List A)
      → IsTie p
      → filter p (sink cmp x before) ≡ filter p (x ∷ before)
  unfolding sink
  filter-sink p x [] tie = refl
  filter-sink p x (u ∷ before) tie = elim (Bool-cases (cmp u x)) [
    | inl le ↦ rw le refl
    | inr gt ↦ elim (Bool-cases (p u)) [
      | inl at ↦ elim (Bool-cases (p x)) [
        | inl both ↦ let le = tie u x at both in cc
        | inr only ↦ rw (gt, at, filter-sink p x before tie, only) refl
      ]
      | inr other ↦ rw (gt, other, filter-sink p x before tie) refl
    ]
  ]

  filter-insert_rest :
      (p : A → Bool) (before rest : List A)
      → IsTie p
      → filter p (insert_rest cmp before rest) ≡ reverse_onto (filter p rest) (filter p before)
  unfolding insert_rest
  filter-insert_rest p before [] tie = refl
  filter-insert_rest p before (x ∷ rest) tie =
      filter-insert_rest p (sink cmp x before) rest tie
      ∙ rw (filter-sink p x before tie)
          (elim (Bool-cases (p x)) [ inl at ↦ rw at refl | inr not_at ↦ rw not_at refl ])

  count-sink :
      (p : A → Bool) (x : A) (before : List A)
      → length (filter p (sink cmp x before)) ≡ length (filter p (x ∷ before))
  unfolding sink
  count-sink p x [] = refl
  count-sink p x (u ∷ before) =
      let shorter = count-sink p x before in
      elim (Bool-cases (cmp u x)) [ inl le ↦ rw le refl | inr gt ↦ rw gt (ground (arith, shorter)) ]

  count-insert_rest :
      (p : A → Bool) (before rest : List A)
      → length (filter p (insert_rest cmp before rest))
        ≡ length (filter p rest) + length (filter p before)
  unfolding insert_rest
  count-insert_rest p before [] = omega arith
  count-insert_rest p before (x ∷ rest) =
      let later = count-insert_rest p (sink cmp x before) rest in
      let now = count-sink p x before in ground (arith, later, now)

  length-reverse_onto : (xs ys : List A) → length (reverse_onto xs ys) ≡ length xs + length ys
  length-reverse_onto [] ys = omega arith
  length-reverse_onto (x ∷ xs) ys = omega (arith, length-reverse_onto xs (x ∷ ys))

  IsSortedDown-IsSorted :
      (before : List A) → IsSortedDown before → IsSorted (reverse_onto before [])
  IsSortedDown-IsSorted [] h = tt
  IsSortedDown-IsSorted (x ∷ before) h = reverse_onto-IsSorted x before [] h tt

  -- With a comparison by which of two elements one is at most the other, `z_insertionsort` leaves
  -- the array sorted, keeps the order of elements that compare as equal, and has as many elements
  -- with any property as before.
  pub z_insertionsort_lem :
      (xs : List A)
      → ((u v : A) → cmp u v ≡ false → cmp v u ≡ true)
      → IsSorted (z_insertionsort cmp xs)
        × ((p : A → Bool) → IsTie p → filter p (z_insertionsort cmp xs) ≡ filter p xs)
        × ((p : A → Bool) → length (filter p (z_insertionsort cmp xs)) ≡ length (filter p xs))
  unfolding z_insertionsort
  z_insertionsort_lem [] total = (tt, (λ p tie. refl), (λ p. refl))
  z_insertionsort_lem (x ∷ rest) total =
      let before = insert_rest cmp (x ∷ []) rest in
      (
        IsSortedDown-IsSorted before (insert_rest-IsSortedDown (x ∷ []) rest total tt),
        (λ p tie.
            filter-reverse_onto p before []
            ∙ rw (filter-insert_rest p (x ∷ []) rest tie) (
                reverse_onto-reverse_onto (filter p rest) (filter p (x ∷ [])) []
                ∙ rw (append_nil (filter p rest)) (elim (Bool-cases (p x)) [
                  | inl at ↦ rw at refl
                  | inr not_at ↦ rw not_at refl
                ]))),
        (λ p.
            let all = ap length (filter-reverse_onto p before []) in
            let turned = length-reverse_onto (filter p before) [] in
            let kept = count-insert_rest p (x ∷ []) rest in ground (arith, all, turned, kept)),
      )
