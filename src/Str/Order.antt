-- ===== src/Str/Order.antt =====
-- `z_strncmp` as a comparison of pointers, as the sorts take one.
use lib_system_call.Base.{
  ℕ, zero, suc, List, [], ◌∷◌, All, take, ◌↔◌, ◌+◌, ◌%◌, ◌<◌, ◌≡◌, ◌∙◌, ap, sym, Bool, true, false,
  not, ◌&&◌, leb, ltb, ◌==◌, ◌!=◌, arith, refl, inl, inr, Bool-cases, if◌then◌else◌,
}
use lib_system_call.Base.Int.{ℤ, pos, negsuc, ◌-ℤ◌}
use lib_system_call.Memory.{Mem, IsStr}
use lib_system_call.Str.{signed8, strncmp_loop, z_strncmp}
use lib_system_call.Str.Compare.{IsByte, z_strncmp-eq-zero}
use lib_system_call.Bytes.Compare.{HoldsBytes}
use lib_system_call.Stdlib.Merge.{at_most, in_order}
use lib_system_call.Stdlib.Merge.Reference.{IsTransitive}
use lib_system_call.Stdlib.Merge.Laws.{IsComparison}

-- The place of a byte in the order of signed characters.
abbrev rank : ℕ → ℕ
rank b = (b + 128) % 256

signed8-rank :
    (a b : ℕ) → a < 256 → b < 256 → at_most (signed8 a -ℤ signed8 b) (pos 0) ≡ leb (rank a) (rank b)
unfolding ◌-ℤ◌
signed8-rank a b ha hb = ground arith

signed8-negative :
    (a b : ℕ)
    → a < 256
    → b < 256
    → at_most (signed8 a -ℤ signed8 b) (negsuc 0) ≡ ltb (rank a) (rank b)
unfolding ◌-ℤ◌
signed8-negative a b ha hb = ground arith

-- The test at the two bytes, and the rest.
loop_at_most :
    (n : ℕ) (m : Mem) (p q : ℕ) (sense : ℤ)
    → at_most (strncmp_loop m p q (suc n)) sense ≡ (
        if m p != 0 && m p == m q
        then at_most (strncmp_loop m (p + 1) (q + 1) n) sense
        else at_most (signed8 (m p) -ℤ signed8 (m q)) sense)
unfolding strncmp_loop
loop_at_most n m p q sense = elim (Bool-cases (m p != 0 && m p == m q)) [
  | inl same ↦ rw same refl
  | inr other ↦ rw other refl
]

opposite : (a b : ℕ) → ltb a b ≡ not (leb b a)
opposite a b = ground arith

strncmp_loop-opposite :
    (n : ℕ) (m : Mem) (p q : ℕ)
    → HoldsBytes m
    → at_most (strncmp_loop m p q n) (negsuc 0) ≡ not (at_most (strncmp_loop m q p n) (pos 0))
strncmp_loop-opposite zero m p q bytes =
    unfold strncmp_loop in
    signed8-negative (m p) (m q) (bytes p) (bytes q)
    ∙ opposite (rank (m p)) (rank (m q))
    ∙ ap not (sym (signed8-rank (m q) (m p) (bytes q) (bytes p)))
strncmp_loop-opposite (suc n) m p q bytes =
    let rest = strncmp_loop-opposite n m (p + 1) (q + 1) bytes in
    let first =
      signed8-negative (m p) (m q) (bytes p) (bytes q)
      ∙ opposite (rank (m p)) (rank (m q))
      ∙ ap not (sym (signed8-rank (m q) (m p) (bytes q) (bytes p))) in
    loop_at_most n m p q (negsuc 0) ∙ (elim (Bool-cases (m p != 0 && m p == m q)) [
      | inl same ↦
          let back : m q != 0 && m q == m p ≡ true = ground (arith, same) in
          rw same (rest ∙ ap not (sym (loop_at_most n m q p (pos 0) ∙ rw back refl)))
      | inr other ↦
          let back : m q != 0 && m q == m p ≡ false = ground (arith, other) in
          rw other (first ∙ ap not (sym (loop_at_most n m q p (pos 0) ∙ rw back refl)))
    ])

-- One step of the order: where two bytes are equal and not 0, the rest decides.
step_trans :
    (a b c : ℕ) (x y z : Bool)
    → a < 256
    → b < 256
    → c < 256
    → (x ≡ true → y ≡ true → z ≡ true)
    → (if a != 0 && a == b then x else leb (rank a) (rank b)) ≡ true
    → (if b != 0 && b == c then y else leb (rank b) (rank c)) ≡ true
    → (if a != 0 && a == c then z else leb (rank a) (rank c)) ≡ true
step_trans a b c x y z ha hb hc rest first second = ground (arith, rest, first, second)

loop_rank :
    (n : ℕ) (m : Mem) (p q : ℕ)
    → HoldsBytes m
    → at_most (strncmp_loop m p q (suc n)) (pos 0) ≡ (
        if m p != 0 && m p == m q
        then at_most (strncmp_loop m (p + 1) (q + 1) n) (pos 0)
        else leb (rank (m p)) (rank (m q)))
loop_rank n m p q bytes =
    loop_at_most n m p q (pos 0)
    ∙ ap
        (λ b.
          if m p != 0 && m p == m q then at_most (strncmp_loop m (p + 1) (q + 1) n) (pos 0) else b)
        (signed8-rank (m p) (m q) (bytes p) (bytes q))

strncmp_loop_trans :
    (n : ℕ) (m : Mem) (p q r : ℕ)
    → HoldsBytes m
    → at_most (strncmp_loop m p q n) (pos 0) ≡ true
    → at_most (strncmp_loop m q r n) (pos 0) ≡ true
    → at_most (strncmp_loop m p r n) (pos 0) ≡ true
strncmp_loop_trans zero m p q r bytes first second =
    let pq = signed8-rank (m p) (m q) (bytes p) (bytes q) in
    let qr = signed8-rank (m q) (m r) (bytes q) (bytes r) in
    let pr = signed8-rank (m p) (m r) (bytes p) (bytes r) in
    unfold strncmp_loop in
    let below : leb (rank (m p)) (rank (m q)) ≡ true = sym pq ∙ first in
    let below' : leb (rank (m q)) (rank (m r)) ≡ true = sym qr ∙ second in
    pr ∙ ground (arith, below, below')
strncmp_loop_trans (suc n) m p q r bytes first second =
    loop_rank n m p r bytes
    ∙ step_trans (m p) (m q) (m r) _ _ _ (bytes p) (bytes q) (bytes r)
        (strncmp_loop_trans n m (p + 1) (q + 1) (r + 1) bytes)
        (sym (loop_rank n m p q bytes) ∙ first) (sym (loop_rank n m q r bytes) ∙ second)

z_strncmp-sign :
    (n : ℕ) (m : Mem)
    → HoldsBytes m
    → IsComparison (λ p q. z_strncmp m p q n) × IsTransitive (in_order (λ p q. z_strncmp m p q n))
unfolding z_strncmp
z_strncmp-sign zero m bytes = ((λ p q. refl), λ p q r first second. refl)
z_strncmp-sign (suc n) m bytes = (
  (λ p q. strncmp_loop-opposite n m p q bytes),
  λ p q r first second. strncmp_loop_trans n m p q r bytes first second,
)

IsStr-bytes : (m : Mem) (p : ℕ) (xs : List ℕ) → HoldsBytes m → IsStr m p xs → All IsByte xs
IsStr-bytes m p [] bytes h = tt
IsStr-bytes m p (x ∷ xs) bytes h =
    (ground (arith, bytes p, h.0), IsStr-bytes m (p + 1) xs bytes h.2)

-- On a memory of bytes, for every bound, `z_strncmp` is an order on pointers: it is negative
-- exactly when it is positive for the pointers exchanged, and not being positive is transitive.
-- For two strings it is 0 exactly when they agree on their first `n` bytes, a string that ends
-- before them counting as far as its terminator.
pub z_strncmp-IsComparison :
    (n : ℕ) (m : Mem) (p q : ℕ) (xs ys : List ℕ)
    → HoldsBytes m
    → IsStr m p xs
    → IsStr m q ys
    → IsComparison (λ u v. z_strncmp m u v n)
      × IsTransitive (in_order (λ u v. z_strncmp m u v n))
      × ((z_strncmp m p q n ≡ pos 0) ↔ (take n xs ≡ take n ys))
z_strncmp-IsComparison n m p q xs ys bytes h k =
    let (opposites, trans) = z_strncmp-sign n m bytes in
    let at_p = IsStr-bytes m p xs bytes h in
    let at_q = IsStr-bytes m q ys bytes k in
    (opposites, trans, z_strncmp-eq-zero n m p q xs ys h k at_p at_q)
