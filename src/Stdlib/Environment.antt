-- ===== src/Stdlib/Environment.antt =====
-- The search in the environment.
use mathlib.Core.Path.{subst}
use lib_system_call.Base.{
  ℕ, ◌+◌, ◌≡◌, ◌≢◌, ◌<◌, List, [], ◌∷◌, ◌++◌, some, length, ◌==◌, ◌!=◌, ◌&&◌, All, arith, refl, suc,
  zero, true, false, ap, ◌⊎◌, inl, inr, Option-cases,
}
use lib_system_call.Memory.{Mem, IsStr}
use lib_system_call.Stdlib.{match_entry, name_length, find_entry, z_findenv}

-- An entry that is the name, `=` and a value, is found, with the address of the value.
match_entry_hit :
    (m : Mem) (cp np : ℕ) (name value : List ℕ)
    → IsStr m np name
    → IsStr m cp (name ++ b'=' ∷ value)
    → match_entry m cp np (length name) ≡ some (cp + length name + 1)
unfolding match_entry
match_entry_hit m cp np [] value h k = ground arith
match_entry_hit m cp np (x ∷ name) value h k =
    ground (arith, match_entry_hit m (cp + 1) (np + 1) name value h.2 k.2)

-- An entry that is found has the name and `=` in front.
match_entry_sound :
    (m : Mem) (cp np : ℕ) (name entry : List ℕ) (v : ℕ)
    → IsStr m np name
    → IsStr m cp entry
    → match_entry m cp np (length name) ≡ some v
    → (value : List ℕ) × (entry ≡ name ++ b'=' ∷ value)
unfolding match_entry
match_entry_sound m cp np [] [] v h k e = ground arith
match_entry_sound m cp np [] (c ∷ entry) v h k e = (entry, ground arith)
match_entry_sound m cp np (x ∷ name) [] v h k e = ground arith
match_entry_sound m cp np (x ∷ name) (c ∷ entry) v h k e =
    let same : c ≡ x = ground arith in
    let (value, rest) = match_entry_sound m (cp + 1) (np + 1) name entry v h.2 k.2 (ground arith) in
    (value, cc)

name_length_lem :
    (fuel : ℕ) (m : Mem) (np : ℕ) (name : List ℕ)
    → IsStr m np name
    → All (λ c. c ≢ b'=') name
    → length name < fuel
    → name_length fuel m np ≡ some (length name)
unfolding name_length
name_length_lem zero m np name h plain enough = absurd (omega arith)
name_length_lem (suc fuel) m np [] h plain enough = ground arith
name_length_lem (suc fuel) m np (x ∷ name) h plain enough =
    let rest = name_length_lem fuel m (np + 1) name h.2 plain.1 (omega arith) in
    let more : m np != 0 && m np != b'=' ≡ true = ground arith in
    rw (more, rest, name_length) (ap some (omega arith))

-- For a name without `=`, `z_findenv` returns the value of the first entry when that is the name,
-- `=` and a value, and otherwise what it finds in the entries behind it.
z_findenv_lem :
    (fuel : ℕ) (m : Mem) (name cp : ℕ) (environ : List ℕ) (xs entry : List ℕ)
    → name ≢ 0
    → IsStr m name xs
    → All (λ c. c ≢ b'=') xs
    → length xs < fuel
    → IsStr m cp entry
    → ((value : List ℕ) × (entry ≡ xs ++ b'=' ∷ value)
        × (z_findenv fuel m name (some (cp ∷ environ)) ≡ some (some (cp + length xs + 1, 0))))
      ⊎ (((value : List ℕ) → entry ≢ xs ++ b'=' ∷ value)
          × (z_findenv fuel m name (some (cp ∷ environ))
              ≡ some (find_entry m name (length xs) environ 1)))
unfolding z_findenv find_entry
z_findenv_lem fuel m name cp environ xs entry ne h plain enough k =
    let size = name_length_lem fuel m name xs h plain enough in
    let named : name == 0 ≡ false = ground arith in
    elim (Option-cases (match_entry m cp name (length xs))) [
      | inl miss ↦ inr (
        (λ value e.
            let hit = match_entry_hit m cp name xs value h (subst (λ ys. IsStr m cp ys) e k) in cc),
        rw (named, size, z_findenv) (rw (miss, find_entry) refl),
      )
      | inr (v, found) ↦
          let (value, e) = match_entry_sound m cp name xs entry v h k found in
          let hit = match_entry_hit m cp name xs value h (subst (λ ys. IsStr m cp ys) e k) in
          inl (value, e, rw (named, size, z_findenv) (rw (hit, find_entry) refl))
    ]
