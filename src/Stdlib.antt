-- ===== src/Stdlib.antt =====
-- Parts of z_stdlib.c: the environment, the random numbers and the insertion sort.
pub mod Random
pub mod Environment
pub mod Sort
pub mod Merge
pub mod Exit
use lib_system_call.Base.{
  ℕ, zero, suc, ◌+◌, ◌-◌, ◌*◌, ◌^◌, ◌%◌, ◌/◌, Bool, true, false, ◌&&◌, ◌||◌, List, [], ◌∷◌, Option,
  none, some, ltb, leb, ◌==◌, ◌!=◌, reverse_onto, if◌then◌else◌,
}
use lib_system_call.Memory.{Mem}
use lib_system_call.Str.{◌>>=◌}

-- `for (np = name; *np && *np != '='; ++np)`: the length of the name.
unfoldable pub name_length : ℕ → Mem → ℕ → Option ℕ
name_length zero m np = none
name_length (suc fuel) m np =
    let rest = name_length fuel m (np + 1) in
    if m np != 0 && m np != b'=' then (do n ← rest; some (n + 1)) else some 0

-- The inner loop with `i` characters left, and the test for `=` behind it: the value, when the
-- entry at `cp` is the one looked for.
unfoldable pub match_entry : Mem → (cp np i : ℕ) → Option ℕ
match_entry m cp np zero = if m cp == b'=' then some (cp + 1) else none
match_entry m cp np (suc i) =
    let rest = match_entry m (cp + 1) (np + 1) i in
    if m cp == 0 then none else if m cp == m np then rest else none

-- `environ` is the list of the pointers up to the null one. The result is the pointer to the value
-- with the number of the entry.
unfoldable pub find_entry : Mem → (name len : ℕ) → List ℕ → (at : ℕ) → Option (ℕ × ℕ)
unfolding match_entry
find_entry m name len [] at = none
find_entry m name len (cp ∷ environ) at =
    let rest = find_entry m name len environ (at + 1) in
    elim (match_entry m cp name len) [ none ↦ rest | some value ↦ some (value, at) ]

-- Null pointers are the address 0 for the name and `none` for the environment. The outer option is
-- for fuel, which bounds the name.
unfoldable pub z_findenv : ℕ → Mem → (name : ℕ) → Option (List ℕ) → Option (Option (ℕ × ℕ))
unfolding name_length find_entry
z_findenv fuel m name none = some none
z_findenv fuel m name (some environ) =
    if name == 0
    then some none
    else (do len ← name_length fuel m name; some (find_entry m name len environ 0))

unfoldable pub z_getenv : ℕ → Mem → (name : ℕ) → Option (List ℕ) → Option ℕ
unfolding z_findenv
z_getenv fuel m name environ = do
  found ← z_findenv fuel m name environ
  (value, at) ← found
  some value

-- `z_srand(seed)` stores the seed in `next`.
abbrev pub z_srand : ℕ → ℕ
z_srand seed = seed % 2 ^ 32

-- `x` from the state: `hi`, `lo` and `x` are 64-bit signed numbers, and the difference is negative
-- when `16807 * lo` is below `2836 * hi`. All on patterns of 64 bits.
abbrev pub rand_state : ℕ → ℕ
rand_state ctx =
    let seeded = if ctx == 0 then 123459876 else ctx in
    let hi = seeded / 127773 in
    let lo = seeded % 127773 in
    if leb (2836 * hi) (16807 * lo)
    then 16807 * lo - 2836 * hi
    else (2 ^ 64 + 2147483647 - (2836 * hi - 16807 * lo)) % 2 ^ 64

-- The new `*ctx` and the result. `RAND_MAX` is 0x7fffffff.
unfoldable pub z_do_rand : ℕ → ℕ × ℕ
z_do_rand ctx = (rand_state ctx, rand_state ctx % 2 ^ 31)

abbrev pub z_rand : ℕ → ℕ × ℕ
z_rand next = z_do_rand next

-- The caller's `*ctx` is a z_uint32.
abbrev pub z_rand_r : ℕ → ℕ × ℕ
z_rand_r ctx = ((z_do_rand ctx).0 % 2 ^ 32, (z_do_rand ctx).1)

-- The elements of `size` bytes are the entries of a list, and `swap` exchanges two of them. The
-- inner loop moves the element `x` down through those before it, `before`, nearest first.
module _ {A : Type 0} (cmp : A → A → Bool) where
  -- `cmp u t` says whether the C function's result is at most 0. The result is in the order of
  -- `before`, the nearest first.
  unfoldable pub sink : A → List A → List A
  sink x [] = x ∷ []
  sink x (u ∷ before) = if cmp u x then x ∷ u ∷ before else u ∷ sink x before

  -- `for (ai = a + size; --n >= 1; ai += size)`; `before` is the sorted part, last first.
  unfoldable pub insert_rest : List A → List A → List A
  unfolding sink
  insert_rest before [] = before
  insert_rest before (x ∷ rest) = insert_rest (sink x before) rest

  -- The elements in the order of the array.
  unfoldable pub z_insertionsort : List A → List A
  unfolding insert_rest
  z_insertionsort [] = []
  z_insertionsort (x ∷ rest) = reverse_onto (insert_rest (x ∷ []) rest) []
