-- ===== src/Stdlib/Merge.antt =====
-- z_setup and z_mergesort of z_stdlib.c. The array is a list, and the array in use is kept as the
-- list of its runs: the C code keeps the end of each run, as a pointer, in the unused array at the
-- place of the run's start (EVAL), which are the boundaries of the list of runs. Elements are copied
-- whole, by words or by bytes, so the copying macros (iflag) are list operations. Positions are
-- counted in elements, the C code's offsets divided by `size`.
pub mod Search
pub mod Reference
pub mod Laws
pub mod Sort
use lib_system_call.Base.{
  ℕ, zero, suc, ◌+◌, ◌-◌, ◌*◌, ◌/◌, ◌%◌, Bool, true, false, not, ◌&&◌, List, [], ◌∷◌, ◌++◌, Option,
  none, some, ltb, leb, ◌==◌, length, take, drop, get_elem?, if◌then◌else◌,
}
use lib_system_call.Base.Int.{ℤ, pos, negsuc, ltb_ℤ}
use lib_system_call.Stdlib.{z_insertionsort}

-- `c <= sense`
abbrev pub at_most : ℤ → ℤ → Bool
at_most c sense = not (ltb_ℤ sense c)

-- The search in a run of `t` elements for the first one, after the first, at which `stop` holds:
-- `stop j` is `cmp(q, b) <= sense` with `b` at the element `j`. A search returns `t` as the C code
-- leaves it for COPY, with `big`. The first number is fuel.
module _ (stop : ℕ → Bool) where
  -- `while (t > b + size)`, by halves.
  unfoldable pub search_halves : ℕ → (b t : ℕ) → ℕ
  search_halves zero b t = t
  search_halves (suc fuel) b t =
      let p = b + (t - b) / 2 in
      let rest = search_halves fuel (if stop p then b else p) (if stop p then p else t) in
      if ltb (b + 1) t then rest else t

  -- FASTCASE: `while (i > size)`.
  unfoldable pub search_fast : ℕ → (b t i : ℕ) → ℕ
  search_fast zero b t i = t
  search_fast (suc fuel) b t i =
      let p = b + i / 2 in
      let rest = search_fast fuel (if stop p then b else p) (if stop p then p else t) (i / 2) in
      if ltb 1 i then rest else t

  -- EXPONENTIAL: the step `i` doubles until it leaves the run or finds a `stop`.
  unfoldable pub search_steps : ℕ → (b t i : ℕ) → ℕ × Bool
  unfolding search_halves search_fast
  search_steps zero b t i = (t, true)
  search_steps (suc fuel) b t i =
      let p = b + i in
      let rest = search_steps fuel p t (i * 2) in
      if leb t p
      then (let down = ltb b (t - 1) && stop (t - 1) in
          (search_halves t (if down then b else t - 1) (if down then t - 1 else t), true))
      else (if stop p then (search_fast i b p i, not (i == 1)) else rest)

  -- `while ((b += size) < t && cmp(q, b) > sense) if (++i == 6)`; the first number is 6 - i.
  unfoldable pub search_line : (left b t : ℕ) → ℕ × Bool
  unfolding search_steps
  search_line zero b t = search_steps t b t 1
  search_line (suc left) b t =
      let rest = search_line left (b + 1) t in
      if ltb (b + 1) t && not (stop (b + 1)) then rest else (b + 1, false)

  unfoldable pub search_run : (big : Bool) (t : ℕ) → ℕ × Bool
  unfolding search_line search_steps
  search_run big t = if big then search_steps t 0 t 1 else search_line 6 0 t

module _ {A : Type 0} (cmp : A → A → ℤ) where
  -- `cmp(u, v) <= 0`
  abbrev pub in_order : A → A → Bool
  in_order u v = at_most (cmp u v) (pos 0)

  -- `cmp(q, b) <= sense` with `b` at the element `j` of the run.
  abbrev pub stops : (sense : ℤ) (q : A) (run : List A) → ℕ → Bool
  stops sense q run j = elim (get_elem? run j) [ none ↦ true | some p ↦ at_most (cmp q p) sense ]

  -- One round of `while (f1 < l1 && f2 < l2)`: what goes to `tp2`, and what is left of the runs.
  unfoldable pub merge_round : Bool → A → List A → A → List A → List A × List A × List A × Bool
  unfolding search_run
  merge_round big x xs y ys =
      let (n1, big1) = search_run (stops (negsuc 0) y (x ∷ xs)) big (length (x ∷ xs)) in
      let (n2, big2) = search_run (stops (pos 0) x (y ∷ ys)) big (length (y ∷ ys)) in
      if in_order x y
      then (take n1 (x ∷ xs) ++ y ∷ [], drop n1 (x ∷ xs), ys, big1)
      else (take n2 (y ∷ ys) ++ x ∷ [], xs, drop n2 (y ∷ ys), big2)

  -- The loop and the copy of what is left, `f2` to `l2` or `f1` to `l1`.
  unfoldable pub merge_runs : ℕ → Bool → (run1 run2 : List A) → List A × Bool
  unfolding merge_round
  merge_runs fuel big [] run2 = (run2, big)
  merge_runs fuel big (x ∷ xs) [] = (x ∷ xs, big)
  merge_runs zero big (x ∷ xs) (y ∷ ys) = ([], big)
  merge_runs (suc fuel) big (x ∷ xs) (y ∷ ys) =
      let (out, run1, run2, big') = merge_round big x xs y ys in
      let (rest, big'') = merge_runs fuel big' run1 run2 in (out ++ rest, big'')

  -- `for (tp2 = p2 = list2; p2 != last; ...)`: two runs at a time become one. A last run without a
  -- second one is copied.
  unfoldable pub merge_pass : Bool → List (List A) → List (List A) × Bool
  unfolding merge_runs
  merge_pass big [] = ([], big)
  merge_pass big (run1 ∷ []) = (run1 ∷ [], big)
  merge_pass big (run1 ∷ run2 ∷ runs) =
      let (run, big') = merge_runs (length run1 + length run2) big run1 run2 in
      let (rest, big'') = merge_pass big' runs in (run ∷ rest, big'')

  -- `while (*EVAL(list2) != last)`, as long as the first run does not reach the end.
  unfoldable pub merge_passes : ℕ → Bool → List (List A) → List A
  unfolding merge_pass
  merge_passes fuel big [] = []
  merge_passes fuel big (run ∷ []) = run
  merge_passes zero big (run1 ∷ run2 ∷ runs) = []
  merge_passes (suc fuel) big (run1 ∷ run2 ∷ runs) =
      let (runs', big') = merge_pass big (run1 ∷ run2 ∷ runs) in merge_passes fuel big' runs'

  -- `for (f1 = list1, p2 = list2; f1 < last; f1 += size2)`. The number of elements before `last` is
  -- even.
  unfoldable pub pair_runs : List A → List (List A)
  pair_runs [] = []
  pair_runs (x ∷ []) = (x ∷ []) ∷ []
  pair_runs (x ∷ y ∷ xs) = (if in_order x y then x ∷ y ∷ [] else y ∷ x ∷ []) ∷ pair_runs xs

  unfoldable pub z_setup : List A → List (List A)
  unfolding pair_runs z_insertionsort
  z_setup xs =
      let n = length xs in
      let i = 4 + n % 2 in
      if leb n 5
      then z_insertionsort in_order xs ∷ []
      else pair_runs (take (n - i) xs) ++ z_insertionsort in_order (drop (n - i) xs) ∷ []

  -- The result with the error number it sets, and the array at `base`. `list2` is what z_malloc
  -- returns, and a pointer has 8 bytes.
  unfoldable pub z_mergesort : (size : ℕ) (list2 : Option ℕ) → List A → ℤ × Option ℕ × List A
  unfolding z_setup merge_passes
  z_mergesort size list2 [] =
      if ltb size (8 / 2) then (negsuc 0, some 22, []) else (pos 0, none, [])
  z_mergesort size none (x ∷ xs) =
      if ltb size (8 / 2) then (negsuc 0, some 22, x ∷ xs) else (negsuc 0, none, x ∷ xs)
  z_mergesort size (some list2) (x ∷ xs) =
      let runs = z_setup (x ∷ xs) in
      if ltb size (8 / 2)
      then (negsuc 0, some 22, x ∷ xs)
      else (pos 0, none, merge_passes (length runs) false runs)
