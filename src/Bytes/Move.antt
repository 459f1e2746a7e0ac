-- ===== src/Bytes/Move.antt =====
-- What `z_memmove` copies and how far it writes, for any overlap of the two buffers.
use Prim.Native.Nat.{max}
use lib_system_call.Base.{
  ℕ, zero, suc, ◌+◌, ◌-◌, ◌*◌, ◌/◌, ◌%◌, ◌≤◌, ◌<◌, ◌≡◌, ◌≢◌, ap, ◌∙◌, ◌⊎◌, refl, arith, ltb, ◌==◌,
  bit_and, if◌then◌else◌,
}
use lib_system_call.Base.Bits.{and_three, aligned_or, or_aligned, xor_aligned}
use lib_system_call.Memory.{Mem, blit}
use lib_system_call.Bytes.{
  bytes_down, words_down, head_up, head_down, move_up, move_down, z_memmove,
}
use lib_system_call.Bytes.Loops.{span, span_cases, loops_up-blit, loops_down-blit}

-- The bytes copied ahead of the words fit the length, and words follow only over pointers that
-- are at least a word apart.
head_up_lem : (d s l : ℕ) → d < s → (head_up d s l ≤ l) × ((head_up d s l ≡ l) ⊎ (d + 4 ≤ s))
unfolding head_up
head_up_lem d s l h = ground (arith, or_aligned s d, xor_aligned s d, and_three s)

head_down_lem : (d s l : ℕ) → s < d → (head_down d s l ≤ l) × ((head_down d s l ≡ l) ⊎ (s + 4 ≤ d))
unfolding head_down
head_down_lem d s l h = ground (arith, or_aligned s d, xor_aligned s d, and_three s)

-- How many bytes are reach_down from `dst` on, with `t` bytes ahead of the words.
reach_up : (t l : ℕ) → ℕ
reach_up t l = max (t + span ((l - t) / 4)) l

reach_down : (t l : ℕ) → ℕ
reach_down t l = max ((l - t) % 4 + span ((l - t) / 4)) l

-- The three loops downwards from the upper ends, over any count `t` of bytes ahead of the words.
down_from_ends :
    (m : Mem) (d s l t a : ℕ)
    → s < d
    → t ≤ l
    → (t ≡ l) ⊎ (s + 4 ≤ d)
    → bytes_down
        (words_down (bytes_down m (d + l) (s + l) t) (d + l - t) (s + l - t) ((l - t) / 4))
        (d + l - (t + (l - t) / 4 * 4))
        (s + l - (t + (l - t) / 4 * 4))
        (bit_and (l - t) 3)
        a
      ≡ blit m d s (reach_down t l) a
unfolding reach_down
down_from_ends m d s l t a h fits apart =
    let r = (l - t) % 4 in
    let w = (l - t) / 4 in
    let low = λ (p : ℕ). let e : p + l - (t + w * 4) ≡ p + r = omega arith in e in
    let middle = λ (p : ℕ). let e : p + l - t ≡ p + r + 4 * w = omega arith in e in
    let top = λ (p : ℕ). let e : p + l ≡ p + r + 4 * w + t = omega arith in e in
    rw (and_three (l - t), low d, low s, middle d, middle s, top d, top s)
      (loops_down-blit m d s t w r a h (omega arith)
        ∙ ap (λ n. blit m d s n a) (omega (arith, span_cases w)))

module _ (m : Mem) (d s l a : ℕ) where
  move_up-blit : d < s → move_up m d s l a ≡ blit m d s (reach_up (head_up d s l) l) a
  unfolding move_up reach_up
  move_up-blit h =
      let t = head_up d s l in
      let w = (l - t) / 4 in
      let fits = head_up_lem d s l h in
      loops_up-blit m d s t w (bit_and (l - t) 3) a h (omega (arith, fits))
      ∙ ap (λ n. blit m d s n a) (omega (arith, and_three (l - t), fits, span_cases w))

  move_down-blit :
      s < d
      → move_down m (d + l) (s + l) l a ≡ blit m d s (reach_down (head_down (d + l) (s + l) l) l) a
  unfolding move_down reach_down
  move_down-blit h =
      let fits = head_down_lem (d + l) (s + l) l (omega arith) in
      down_from_ends m d s l _ a h fits.0 (omega (arith, fits))

-- How many bytes `z_memmove` writes from `dst` on.
pub reach : (d s l : ℕ) → ℕ
unfolding reach_up reach_down
reach d s l =
    if d == s
    then 0
    else if ltb d s
    then reach_up (head_up d s l) l
    else reach_down (head_down (d + l) (s + l) l) l

-- `z_memmove` is one copy of that many bytes, whatever the overlap.
pub z_memmove-blit :
    (m : Mem) (d s l a : ℕ) → 0 < l → z_memmove m d s l a ≡ blit m d s (reach d s l) a
unfolding z_memmove reach
z_memmove-blit m d s l a h = ground (arith, move_up-blit m d s l a, move_down-blit m d s l a)

-- At least the `l` bytes asked for are written, and at most four too many.
pub reach_bounds : (d s l : ℕ) → 0 < l → d ≢ s → (l ≤ reach d s l) × (reach d s l ≤ l + 4)
unfolding reach
reach_bounds d s l pos ne = ground (
  arith,
  head_up_lem d s l,
  head_down_lem (d + l) (s + l) l,
  span_cases ((l - head_up d s l) / 4),
  span_cases ((l - head_down (d + l) (s + l) l) / 4),
)

z_memmove_none : (m : Mem) (d s : ℕ) → z_memmove m d s 0 ≡ m
unfolding z_memmove
z_memmove_none m d s = refl

z_memmove_self : (m : Mem) (d l a : ℕ) → z_memmove m d d l a ≡ m a
unfolding z_memmove
z_memmove_self m d l a = ground arith

-- For any overlap of the two buffers `z_memmove` leaves at each of the `l` bytes from `d` on what
-- was at its place from `s` on, and it changes nothing below `d` nor from `d + l + 4` on.
pub z_memmove_copies :
    (m : Mem) (d s l : ℕ)
    → ((i : ℕ) → i < l → z_memmove m d s l (d + i) ≡ m (s + i))
      × ((a : ℕ) → (a < d) ⊎ (d + l + 4 ≤ a) → z_memmove m d s l a ≡ m a)
z_memmove_copies m d s zero = (λ i hi. absurd (omega arith), λ a out. rw z_memmove_none)
z_memmove_copies m d s (suc l) = (
  λ i hi. ground (
    arith,
    z_memmove_self m d (suc l) (d + i),
    z_memmove-blit m d s (suc l) (d + i),
    reach_bounds d s (suc l),
  ),
  λ a out. ground (
    arith,
    z_memmove_self m d (suc l) a,
    z_memmove-blit m d s (suc l) a,
    reach_bounds d s (suc l),
  ),
)

reach_aligned :
    (d s l : ℕ) → d % 4 ≡ 0 → s % 4 ≡ 0 → d ≢ s → l % 4 ≡ 0 → 0 < l → reach d s l ≡ l + 4
unfolding reach head_up head_down
reach_aligned d s l hd hs ne hl pos = ground (
  arith,
  aligned_or s d hs hd,
  aligned_or (s + l) (d + l) (omega arith) (omega arith),
  span_cases (l / 4),
)

-- Between two aligned buffers, and for a length that is a positive multiple of 4, `z_memmove`
-- also overwrites the four bytes behind the destination, with those behind the source.
pub z_memmove_overruns :
    (m : Mem) (d s l i : ℕ)
    → d % 4 ≡ 0
    → s % 4 ≡ 0
    → d ≢ s
    → l % 4 ≡ 0
    → 0 < l
    → i < 4
    → z_memmove m d s l (d + l + i) ≡ m (s + l + i)
z_memmove_overruns m d s l i hd hs ne hl pos hi =
    ground (arith, z_memmove-blit m d s l (d + l + i), reach_aligned d s l hd hs ne hl pos)
