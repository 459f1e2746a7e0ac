-- ===== src/Dir/Duplicates.antt =====
-- What the removal of duplicates in z_filldir leaves of the entries.
use lib_system_call.Base.{
  ℕ, ◌+◌, ◌≤◌, ◌<◌, ◌≡◌, ◌≢◌, ◌⊎◌, ◌∙◌, ap, sym, Bool, true, false, ◌&&◌, ◌||◌, List, [], ◌∷◌, All,
  length, Option, none, some, ◌==◌, arith, refl, inl, inr, Bool-cases, if◌then◌else◌,
}
use lib_system_call.Memory.{Mem}
use lib_system_call.Str.Compare.{IsByte}
use lib_system_call.Dir.{d_ino, d_type, dt_wht}
use lib_system_call.Dir.Union.{maxpathlen, is_duplicate, zap_entry, zap}
use lib_system_call.Dir.Zap.{
  Describes, zap_entry-d_ino, is_duplicate-name, zap_entry-Describes, zap_entry-other, zap-other,
}

some-injective : {a b : ℕ} → some a ≡ some b → a ≡ b
some-injective e = cc

abbrev pub IsDistinct : List ℕ → Type 0
IsDistinct [] = Unit
IsDistinct (dp ∷ dps) = All (λ q. q ≢ dp) dps × IsDistinct dps

module _ (name : ℕ → List ℕ) (kind : ℕ → ℕ) where
  -- What `m'` has for an entry behind `prev` where `m` was before: no inode number for one of the
  -- same name as `prev`, none for a whiteout when those are hidden, and otherwise its own.
  abbrev pub Decided : (m m' : Mem) (hidew : Bool) (prev : Option ℕ) → ℕ → Type 0
  Decided m m' hidew prev dp =
      ((p : ℕ) → prev ≡ some p → name dp ≡ name p → d_ino m' dp ≡ 0)
      × (kind dp ≡ dt_wht → hidew ≡ true → d_ino m' dp ≡ 0)
      × (((p : ℕ) → prev ≡ some p → name dp ≢ name p)
          → (kind dp ≡ dt_wht → hidew ≡ false)
          → d_ino m' dp ≡ d_ino m dp)

  abbrev pub AllDecided : (m m' : Mem) (hidew : Bool) (prev : Option ℕ) → List ℕ → Type 0
  AllDecided m m' hidew prev [] = m' ≡ m'
  AllDecided m m' hidew prev (dp ∷ dps) =
      Decided m m' hidew prev dp × AllDecided m m' hidew (some dp) dps

  AllDecided-before :
      (dps : List ℕ) (m m₁ m' : Mem) (hidew : Bool) (prev : Option ℕ)
      → All (λ q. d_ino m₁ q ≡ d_ino m q) dps
      → AllDecided m₁ m' hidew prev dps
      → AllDecided m m' hidew prev dps
  AllDecided-before [] m m₁ m' hidew prev same h = refl
  AllDecided-before (dp ∷ dps) m m₁ m' hidew prev (here, same) ((dup, hidden, kept), rest) = (
    (dup, hidden, λ new shown. kept new shown ∙ here),
    AllDecided-before dps m m₁ m' hidew (some dp) same rest,
  )

-- Entries with their names and types, no two of which meet in memory.
module _ (name : ℕ → List ℕ) (kind : ℕ → ℕ) (IsEntry : ℕ → Type 0)
    (names : (p : ℕ) → IsEntry p → All IsByte (name p) × (length (name p) < maxpathlen))
    (apart : (p q : ℕ)
      → IsEntry p
      → IsEntry q
      → p ≢ q
      → (p + 22 + length (name p) ≤ q) ⊎ (q + 22 + length (name q) ≤ p)) where
  -- `xp` is an entry with the name of the one before.
  abbrev Tied : (xp prev : Option ℕ) → Type 0
  Tied xp prev =
      ((xp ≡ none) × (prev ≡ none))
      ⊎ ((x : ℕ) × (p : ℕ) × (xp ≡ some x) × (prev ≡ some p) × IsEntry x × (name x ≡ name p))

  -- The test for a duplicate, and the entry that the next one is compared with.
  is_duplicate-Tied :
      (m : Mem) (xp prev : Option ℕ) (dp : ℕ)
      → Describes name kind IsEntry names apart m
      → IsEntry dp
      → Tied xp prev
      → Tied (if is_duplicate m xp dp then xp else some dp) (some dp)
        × (((is_duplicate m xp dp ≡ true) × (p : ℕ) × (prev ≡ some p) × (name dp ≡ name p))
            ⊎ ((is_duplicate m xp dp ≡ false) × ((p : ℕ) → prev ≡ some p → name dp ≢ name p)))
  is_duplicate-Tied m xp prev dp described at_dp (inl (none_yet, first)) =
      rw none_yet
        (inr (dp, dp, refl, refl, at_dp, refl), inr (refl, λ p e. absurd (let e' = first in cc)))
  is_duplicate-Tied m xp prev dp described at_dp (inr (x, p, at, before, at_x, same)) =
      elim (is_duplicate-name name kind IsEntry names apart m x dp described at_x at_dp) [
        | inl (again, equal) ↦ rw at (
            rw again
              (inr (x, dp, refl, refl, at_x, sym equal), inl (refl, p, before, equal ∙ same)))
        | inr (new, differ) ↦ rw at (
            rw new (
              inr (dp, dp, refl, refl, at_dp, refl),
              inr (
                refl,
                λ p' e equal. differ (equal ∙ ap name (some-injective (sym e ∙ before)) ∙ sym same),
              ),
            ))
      ]

  decided :
      (m m₁ m' : Mem) (hidew again : Bool) (prev : Option ℕ) (dp : ℕ)
      → d_ino m₁ dp ≡ (if again || d_type m dp == dt_wht && hidew then 0 else d_ino m dp)
      → d_type m dp ≡ kind dp
      → d_ino m' dp ≡ d_ino m₁ dp
      → ((again ≡ true) × (p : ℕ) × (prev ≡ some p) × (name dp ≡ name p))
        ⊎ ((again ≡ false) × ((p : ℕ) → prev ≡ some p → name dp ≢ name p))
      → Decided name kind m m' hidew prev dp
  decided m m₁ m' hidew again prev dp one type stays (inl (dup, p, before, equal)) =
      let gone : d_ino m' dp ≡ 0 = stays ∙ one ∙ rw dup refl in
      ((λ p' e same. gone), (λ white hide. gone), λ new shown. absurd (new p before equal))
  decided m m₁ m' hidew again prev dp one type stays (inr (single, new)) = (
    (λ p e same. absurd (new p e same)),
    (λ white hide.
        let hidden : d_type m dp == dt_wht && hidew ≡ true = rw (type, white, hide) refl in
        stays ∙ one ∙ rw (single, hidden) refl),
    λ new' shown.
        let visible : d_type m dp == dt_wht && hidew ≡ false =
          rw type (elim (Bool-cases (kind dp == dt_wht)) [
            | inl white ↦ rw (white, shown (ground (arith, white))) refl
            | inr other ↦ rw other refl
          ]) in
        stays ∙ one ∙ rw (single, visible) refl,
  )

  All-kept :
      (qs : List ℕ) (hidew again : Bool) (dp : ℕ) (m : Mem)
      → IsEntry dp
      → All IsEntry qs
      → All (λ q. q ≢ dp) qs
      → All (λ q. d_ino (zap_entry hidew again dp m) q ≡ d_ino m q) qs
  All-kept [] hidew again dp m at_dp e o = tt
  All-kept (q ∷ qs) hidew again dp m at_dp (at_q, e) (other, o) = (
    zap_entry-other name kind IsEntry names apart hidew again dp q m at_dp at_q other,
    All-kept qs hidew again dp m at_dp e o,
  )

  -- The pass stands behind the return in `z_filldir` that its missing allocation forces, so this is
  -- about the code as written and not as reached. Over entries that are described, distinct and apart, the pass takes the inode number from each
  -- one that has the name of the entry before it in the list, and from each whiteout when those are
  -- hidden, and every other entry keeps its own. Names are shorter than MAXPATHLEN, and `xp` has the
  -- name of `prev`, the entry before the list, where there is one.
  pub zap-AllDecided :
      (dps : List ℕ) (hidew : Bool) (xp prev : Option ℕ) (m : Mem)
      → Describes name kind IsEntry names apart m
      → All IsEntry dps
      → IsDistinct dps
      → Tied xp prev
      → AllDecided name kind m (zap hidew xp dps m) hidew prev dps
  unfolding zap
  zap-AllDecided [] hidew xp prev m described entries distinct tied = refl
  zap-AllDecided (dp ∷ dps) hidew xp prev m described (at_dp, entries) (others, distinct) tied =
      let again = is_duplicate m xp dp in
      let m₁ = zap_entry hidew again dp m in
      let xp' = if again then xp else some dp in
      let (tied', case) = is_duplicate-Tied m xp prev dp described at_dp tied in
      (
        decided m m₁ (zap hidew xp' dps m₁) hidew again prev dp (zap_entry-d_ino hidew again dp m)
            (described dp at_dp).1
            (zap-other name kind IsEntry names apart dps hidew xp' m₁ dp entries others at_dp) case,
        AllDecided-before name kind dps m m₁ (zap hidew xp' dps m₁) hidew (some dp)
            (All-kept dps hidew again dp m at_dp entries others)
            (zap-AllDecided dps hidew xp' (some dp) m₁
              (zap_entry-Describes name kind IsEntry names apart hidew again dp m described at_dp)
              entries distinct tied'),
      )
