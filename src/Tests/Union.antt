-- ===== src/Tests/Union.antt =====
-- The removal of duplicate entries at a concrete buffer.
use lib_system_call.Base.{
  ℕ, ◌+◌, ◌-◌, ◌≡◌, ◌⊎◌, inl, inr, arith, ◌==◌, List, [], ◌∷◌, Option, none, some, get_or, map, ltb,
  true, false, if◌then◌else◌, refl,
}
use lib_system_call.Base.Int.{◌-ℤ◌}
use lib_system_call.Bytes.{z_memset}
use lib_system_call.Str.{z_strncmp}
use lib_system_call.Stdlib.{z_insertionsort}
use lib_system_call.Dir.{Dir, Sys, Requests, read_le, d_ino}
use lib_system_call.Dir.Union.{sort_and_zap, zap}
use lib_system_call.Dir.Duplicates.{AllDecided, zap-AllDecided}
use lib_system_call.Memory.{IsStr}

-- An entry of 24 bytes, with a name of one character.
abbrev short_entry : (ino name : ℕ) → List ℕ → List ℕ
short_entry ino name rest =
    ino ∷ 0 ∷ 0 ∷ 0 ∷ 0 ∷ 0 ∷ 0 ∷ 0 ∷ 0 ∷ 0 ∷ 0 ∷ 0 ∷ 0 ∷ 0 ∷ 0 ∷ 0 ∷ 24 ∷ 0 ∷ 1 ∷ 0 ∷ 8 ∷ name ∷ 0
    ∷ 0 ∷ rest

-- "b", "a" and "b" of two layers, from 8000 on.
abbrev two_layers : ℕ → ℕ
two_layers a =
    if ltb a 8000
    then 0
    else get_or (short_entry 5 b'b' (short_entry 6 b'a' (short_entry 7 b'b' []))) (a - 8000) 0

abbrev still : Sys ℕ
still = record { mem = two_layers; errno = 0; system = 0 }

abbrev no_requests : Requests ℕ
no_requests = record {
  getdirentries = (λ fd buf n base s. ((none, base), s));
  mmap = (λ size s. (4096, s));
  munmap = (λ p size s. s);
  open_file = (λ name flags s. (none, s));
  openat = (λ fd name flags s. (none, s));
  close = (λ fd s. (0, s));
  sysctl = (λ s. (0, s));
  fstatfs = (λ fd s. (none, s));
  lseek = (λ fd offset whence s. (none, s));
}

abbrev union_dir : Dir
union_dir = record {
  dd_fd = 3;
  dd_loc = 0;
  dd_size = some 0;
  dd_buf = 0;
  dd_len = 0;
  dd_flags = record {
    hidew = true;
    nodup = true;
    readall = false;
    skipread = false;
    atend = false;
  };
  seekoff = 0;
  lh_first = none;
}

abbrev get_or_zero : Option ℕ → ℕ
get_or_zero none = 0
get_or_zero (some n) = n

abbrev filled_numbers : Option (List ℕ)
filled_numbers = elim (sort_and_zap no_requests 100 4 (some 9000) 8000 8072 1024 union_dir still) [
  | none ↦ none
  | some (d, s) ↦ some (get_or_zero d.dd_size ∷ map (d_ino s.mem) (8000 ∷ 8024 ∷ 8048 ∷ []))
]

-- The size, and the inode numbers, of which the second "b" has lost its own.
inode_numbers : filled_numbers ≡ some (72 ∷ 5 ∷ 6 ∷ 0 ∷ [])
unfolding sort_and_zap read_le z_strncmp z_insertionsort z_memset ◌-ℤ◌
inode_numbers = refl

abbrev short_name : ℕ → List ℕ
short_name p = (if p == 8024 then b'a' else b'b') ∷ []

abbrev IsShort : ℕ → Type 0
IsShort p = (p ≡ 8000) ⊎ (p ≡ 8024) ⊎ (p ≡ 8048)

two_layers-IsStr :
    (p : ℕ) → IsShort p → IsStr two_layers (p + 21) (short_name p) × (two_layers (p + 20) ≡ 8)
two_layers-IsStr p (inl e) = rw e ((refl, omega arith, refl), refl)
two_layers-IsStr p (inr (inl e)) = rw e ((refl, omega arith, refl), refl)
two_layers-IsStr p (inr (inr e)) = rw e ((refl, omega arith, refl), refl)

zap-AllDecided_example :
    AllDecided short_name
      (λ p. 8)
      two_layers
      (zap true none (8024 ∷ 8000 ∷ 8048 ∷ []) two_layers)
      true
      none
      (8024 ∷ 8000 ∷ 8048 ∷ [])
zap-AllDecided_example =
    zap-AllDecided short_name (λ p. 8) IsShort (λ p at_p. ((ground arith, tt), omega arith))
      (λ p q at_p at_q other. ground (arith, at_p, at_q, other)) (8024 ∷ 8000 ∷ 8048 ∷ []) true none
      none two_layers two_layers-IsStr (inr (inl refl), (inl refl, (inr (inr refl), tt)))
      ((omega arith, (omega arith, tt)), ((omega arith, tt), (tt, tt))) (inl (refl, refl))
