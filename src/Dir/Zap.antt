-- ===== src/Dir/Zap.antt =====
-- What the removal of duplicates in z_filldir writes, and the test for a duplicate.
use lib_system_call.Base.{
  ℕ, zero, suc, ◌+◌, ◌≤◌, ◌<◌, ◌≡◌, ◌≢◌, ◌⊎◌, ◌∙◌, ap, sym, Bool, true, false, ◌&&◌, ◌||◌, List, [],
  ◌∷◌, All, take, length, Option, some, ◌==◌, arith, refl, inl, inr, Bool-cases, if◌then◌else◌,
}
use lib_system_call.Base.Int.{ℤ, pos, negsuc}
use lib_system_call.Memory.{Mem, IsStr}
use lib_system_call.Memory.Strings.{IsStr-frame}
use lib_system_call.Str.{z_strncmp}
use lib_system_call.Str.Compare.{IsByte, z_strncmp-eq-zero}
use lib_system_call.Tlv.Keys.{write_le}
use lib_system_call.Tlv.Words.{write_le_outside, read_le_same, read_le-write_le}
use lib_system_call.Tty.{d_name}
use lib_system_call.Dir.{d_ino, d_type, dt_wht}
use lib_system_call.Dir.Union.{maxpathlen, differs, is_duplicate, zap_entry, zap}

zap_entry_outside :
    (hidew again : Bool) (dp : ℕ) (m : Mem) (a : ℕ)
    → (a < dp) ⊎ (dp + 8 ≤ a)
    → zap_entry hidew again dp m a ≡ m a
unfolding zap_entry
zap_entry_outside hidew true dp m a apart =
    elim (Bool-cases (d_type (write_le m dp 8 0) dp == dt_wht && hidew)) [
      | inl hidden ↦
          rw hidden (
            write_le_outside 8 (write_le m dp 8 0) dp 0 a apart ∙ write_le_outside 8 m dp 0 a apart)
      | inr shown ↦ rw shown (write_le_outside 8 m dp 0 a apart)
    ]
zap_entry_outside hidew false dp m a apart = elim (Bool-cases (d_type m dp == dt_wht && hidew)) [
  | inl hidden ↦ rw hidden (write_le_outside 8 m dp 0 a apart)
  | inr shown ↦ rw shown refl
]

pub zap_entry-d_ino :
    (hidew again : Bool) (dp : ℕ) (m : Mem)
    → d_ino (zap_entry hidew again dp m) dp
      ≡ (if again || d_type m dp == dt_wht && hidew then 0 else d_ino m dp)
unfolding zap_entry
zap_entry-d_ino hidew true dp m =
    elim (Bool-cases (d_type (write_le m dp 8 0) dp == dt_wht && hidew)) [
      | inl hidden ↦ rw hidden (read_le-write_le 8 (write_le m dp 8 0) dp 0 (omega arith))
      | inr shown ↦ rw shown (read_le-write_le 8 m dp 0 (omega arith))
    ]
zap_entry-d_ino hidew false dp m = elim (Bool-cases (d_type m dp == dt_wht && hidew)) [
  | inl hidden ↦ rw hidden (read_le-write_le 8 m dp 0 (omega arith))
  | inr shown ↦ rw shown refl
]

zap_outside :
    (dps : List ℕ) (hidew : Bool) (xp : Option ℕ) (m : Mem) (a : ℕ)
    → All (λ q. (a < q) ⊎ (q + 8 ≤ a)) dps
    → zap hidew xp dps m a ≡ m a
unfolding zap
zap_outside [] hidew xp m a apart = refl
zap_outside (dp ∷ dps) hidew xp m a (here, rest) =
    zap_outside dps hidew _ (zap_entry hidew (is_duplicate m xp dp) dp m) a rest
    ∙ zap_entry_outside hidew (is_duplicate m xp dp) dp m a here

differs-zero : (n : ℤ) → differs n ≡ false → n ≡ pos 0
differs-zero (pos n) e = ap pos (ground (arith, e))
differs-zero (negsuc n) e = cc

take-all : (n : ℕ) (xs : List ℕ) → length xs ≤ n → take n xs ≡ xs
take-all zero [] h = refl
take-all (suc n) [] h = refl
take-all zero (x ∷ xs) h = absurd (omega arith)
take-all (suc n) (x ∷ xs) h = ap (λ ys. x ∷ ys) (take-all n xs (omega arith))

-- Entries with their names and types, no two of which meet in memory.
module _ (name : ℕ → List ℕ) (kind : ℕ → ℕ) (IsEntry : ℕ → Type 0)
    (names : (p : ℕ) → IsEntry p → All IsByte (name p) × (length (name p) < maxpathlen))
    (apart : (p q : ℕ)
      → IsEntry p
      → IsEntry q
      → p ≢ q
      → (p + 22 + length (name p) ≤ q) ⊎ (q + 22 + length (name q) ≤ p)) where
  -- The memory has the names and the types of all entries.
  abbrev pub Describes : Mem → Type 0
  Describes m = (p : ℕ) → IsEntry p → IsStr m (d_name p) (name p) × (d_type m p ≡ kind p)

  pub is_duplicate-name :
      (m : Mem) (x dp : ℕ)
      → Describes m
      → IsEntry x
      → IsEntry dp
      → ((is_duplicate m (some x) dp ≡ true) × (name dp ≡ name x))
        ⊎ ((is_duplicate m (some x) dp ≡ false) × (name dp ≢ name x))
  is_duplicate-name m x dp described at_x at_dp =
      let (bytes, short) = names dp at_dp in
      let (bytes', short') = names x at_x in
      let (to, from) =
        z_strncmp-eq-zero maxpathlen m (d_name dp) (d_name x) (name dp) (name x)
          (described dp at_dp).0 (described x at_x).0 bytes bytes' in
      let whole = take-all maxpathlen (name dp) (omega (arith, short)) in
      let whole' = take-all maxpathlen (name x) (omega (arith, short')) in
      elim (Bool-cases (differs (z_strncmp m (d_name dp) (d_name x) maxpathlen))) [
        | inl other ↦ inr (
          rw other refl,
          λ same.
              let equal : z_strncmp m (d_name dp) (d_name x) maxpathlen ≡ pos 0 =
                from (ap (take maxpathlen) same) in
              let clash : false ≡ true = ap differs (sym equal) ∙ other in cc,
        )
        | inr equal ↦ inl (rw equal refl, sym whole ∙ to (differs-zero _ equal) ∙ whole')
      ]

  -- The inode number of an entry is apart from the types and the names.
  spared :
      (p dp a : ℕ)
      → IsEntry p
      → IsEntry dp
      → p + 20 ≤ a
      → a ≤ p + 21 + length (name p)
      → (a < dp) ⊎ (dp + 8 ≤ a)
  spared p dp a at_p at_dp low high = elim (Bool-cases (p == dp)) [
    | inl same ↦ inr (ground (arith, same, low))
    | inr other ↦ elim (apart p dp at_p at_dp (λ e. ground (arith, other, e))) [
      | inl below ↦ inl (omega (arith, below, high))
      | inr above ↦ inr (omega (arith, above, low))
    ]
  ]

  pub zap_entry-Describes :
      (hidew again : Bool) (dp : ℕ) (m : Mem)
      → Describes m
      → IsEntry dp
      → Describes (zap_entry hidew again dp m)
  zap_entry-Describes hidew again dp m described at_dp p at_p =
      let (text, type) = described p at_p in
      (
        IsStr-frame (name p) m (zap_entry hidew again dp m) (d_name p)
            (λ a low high.
              zap_entry_outside hidew again dp m a
                (spared p dp a at_p at_dp (omega (arith, low)) (omega (arith, high))))
            text,
        zap_entry_outside hidew again dp m (p + 20)
              (spared p dp (p + 20) at_p at_dp (omega arith) (omega arith))
            ∙ type,
      )

  ino_spared :
      (p q a : ℕ) → IsEntry p → IsEntry q → p ≢ q → p ≤ a → a < p + 8 → (a < q) ⊎ (q + 8 ≤ a)
  ino_spared p q a at_p at_q other low high = elim (apart p q at_p at_q other) [
    | inl below ↦ inl (omega (arith, below, high))
    | inr above ↦ inr (omega (arith, above, low))
  ]

  pub zap_entry-other :
      (hidew again : Bool) (dp p : ℕ) (m : Mem)
      → IsEntry dp
      → IsEntry p
      → p ≢ dp
      → d_ino (zap_entry hidew again dp m) p ≡ d_ino m p
  zap_entry-other hidew again dp p m at_dp at_p other =
      read_le_same 8 (zap_entry hidew again dp m) m p (λ a low high.
        zap_entry_outside hidew again dp m a (ino_spared p dp a at_p at_dp other low high))

  pub zap-other :
      (dps : List ℕ) (hidew : Bool) (xp : Option ℕ) (m : Mem) (dp : ℕ)
      → All IsEntry dps
      → All (λ q. q ≢ dp) dps
      → IsEntry dp
      → d_ino (zap hidew xp dps m) dp ≡ d_ino m dp
  zap-other dps hidew xp m dp entries others at_dp =
      read_le_same 8 (zap hidew xp dps m) m dp
        (λ a low high. zap_outside dps hidew xp m a (all_spared dps entries others a low high))
    where
      all_spared :
          (qs : List ℕ)
          → All IsEntry qs
          → All (λ q. q ≢ dp) qs
          → (a : ℕ) → dp ≤ a
          → a < dp + 8
          → All (λ q. (a < q) ⊎ (q + 8 ≤ a)) qs
      all_spared [] e o a low high = tt
      all_spared (q ∷ qs) (at_q, e) (other, o) a low high = (
        ino_spared dp q a at_dp at_q (λ same. other (sym same)) low high,
        all_spared qs e o a low high,
      )
