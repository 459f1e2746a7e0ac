-- ===== src/Bytes/Loops.antt =====
-- The loops of z_memcpy and z_memmove as single copies, for ranges that overlap.
use mathlib.Core.Path.{fun_ext}
use Prim.Native.Nat.{max}
use lib_system_call.Base.{
  ℕ, zero, suc, ◌+◌, ◌-◌, ◌*◌, ◌≤◌, ◌<◌, ◌≡◌, refl, ◌∙◌, arith, inl, inr, ◌⊎◌,
}
use lib_system_call.Memory.{Mem, blit, write}
use lib_system_call.Bytes.{bytes_up, bytes_down, words_up, words_down}

pub bytes_up-blit : (k : ℕ) (m : Mem) (d s a : ℕ) → d < s → bytes_up m d s k a ≡ blit m d s k a
unfolding bytes_up
bytes_up-blit zero m d s a h = ground arith
bytes_up-blit (suc k) m d s a h =
    ground (arith, bytes_up-blit k (write m d (m s)) (d + 1) (s + 1) a)

one_byte_less : (d k : ℕ) → d + suc k - 1 ≡ d + k
one_byte_less d k = omega arith

-- `d` and `s` are the lower ends of the two ranges.
bytes_down-blit :
    (k : ℕ) (m : Mem) (d s a : ℕ) → s < d → bytes_down m (d + k) (s + k) k a ≡ blit m d s k a
unfolding bytes_down
bytes_down-blit zero m d s a h = ground arith
bytes_down-blit (suc k) m d s a h =
    rw (one_byte_less d k, one_byte_less s k)
      (ground (arith, bytes_down-blit k (write m (d + k) (m (s + k))) d s a))

-- How many bytes `k` rounds of a word loop write: the last word reaches four bytes too far.
abbrev pub span : ℕ → ℕ
span zero = 0
span (suc k) = 4 * k + 8

pub span_cases : (w : ℕ) → ((w ≡ 0) × (span w ≡ 0)) ⊎ ((0 < w) × (span w ≡ w * 4 + 4))
span_cases zero = inl (refl, refl)
span_cases (suc w) = inr (omega arith, omega arith)

words_up-blit :
    (k : ℕ) (m : Mem) (d s a : ℕ)
    → (k ≡ 0) ⊎ (d + 4 ≤ s)
    → words_up m d s k a ≡ blit m d s (span k) a
unfolding words_up
words_up-blit zero m d s a h = ground arith
words_up-blit (suc zero) m d s a h = ground arith
words_up-blit (suc (suc k)) m d s a h =
    ground (arith, words_up-blit (suc k) (blit m d s 8) (d + 4) (s + 4) a (inr (omega arith)))

-- The last word that is written comes first here, at the upper end.
blit_word_below :
    (k : ℕ) (m : Mem) (d s a : ℕ)
    → s + 4 ≤ d
    → blit (blit m (d + 4 * suc k) (s + 4 * suc k) 8) d s (4 * k + 8) a
      ≡ blit m d s (4 * suc k + 8) a
blit_word_below k m d s a h = ground arith

one_word_less : (d k : ℕ) → d + 4 * suc k - 4 ≡ d + 4 * k
one_word_less d k = omega arith

-- `d` and `s` are the lower ends of the two ranges.
words_down-blit :
    (k : ℕ) (m : Mem) (d s a : ℕ)
    → (k ≡ 0) ⊎ (s + 4 ≤ d)
    → words_down m (d + 4 * k) (s + 4 * k) k a ≡ blit m d s (span k) a
unfolding words_down
words_down-blit zero m d s a h = ground arith
words_down-blit (suc zero) m d s a h = ground arith
words_down-blit (suc (suc k)) m d s a h =
    rw (one_word_less d (suc k), one_word_less s (suc k))
      (words_down-blit (suc k) (blit m (d + 4 * suc k) (s + 4 * suc k) 8) d s a (inr (omega arith))
        ∙ blit_word_below k m d s a (omega arith))

-- Two copies that meet or overlap are one, where the second reads nothing that the first wrote.
join_above :
    (m : Mem) (d s n k l j a : ℕ)
    → k ≤ n
    → d + n ≤ s + k
    → j ≡ max n (k + l)
    → blit (blit m d s n) (d + k) (s + k) l a ≡ blit m d s j a
join_above m d s n k l j a h apart e = rw e (ground arith)

join_below :
    (m : Mem) (d s n k l j a : ℕ)
    → k ≤ n
    → s + n ≤ d + k
    → j ≡ max n (k + l)
    → blit (blit m (d + k) (s + k) l) d s n a ≡ blit m d s j a
join_below m d s n k l j a h apart e = rw e (ground arith)

-- Upwards: `t` bytes, `w` words and `r` bytes, one behind the other.
head_words_up :
    (m : Mem) (d s t w : ℕ)
    → d < s
    → (w ≡ 0) ⊎ (d + 4 ≤ s)
    → words_up (bytes_up m d s t) (d + t) (s + t) w ≡ blit m d s (t + span w)
head_words_up m d s t w h apart = fun_ext λ a.
    words_up-blit w _ (d + t) (s + t) a (omega arith)
    ∙ rw (fun_ext (λ b. bytes_up-blit t m d s b h))
        (join_above m d s t t (span w) (t + span w) a (omega arith) (omega arith) (omega arith))

pub loops_up-blit :
    (m : Mem) (d s t w r a : ℕ)
    → d < s
    → (w ≡ 0) ⊎ (d + 4 ≤ s)
    → bytes_up
        (words_up (bytes_up m d s t) (d + t) (s + t) w)
        (d + (t + w * 4))
        (s + (t + w * 4))
        r
        a
      ≡ blit m d s (max (t + span w) (t + w * 4 + r)) a
loops_up-blit m d s t w r a h apart =
    bytes_up-blit r _ _ _ a (omega arith)
    ∙ rw (head_words_up m d s t w h apart) (
        join_above m d s (t + span w) (t + w * 4) r _ a (omega (arith, span_cases w))
          (omega (arith, span_cases w)) refl)

-- Downwards: `r` bytes at the lower end, `w` words above them, and above those `t` bytes that are
-- copied first.
head_words_down :
    (m : Mem) (d s t w : ℕ)
    → s < d
    → (w ≡ 0) ⊎ (s + 4 ≤ d)
    → words_down (bytes_down m (d + 4 * w + t) (s + 4 * w + t) t) (d + 4 * w) (s + 4 * w) w
      ≡ blit m d s (max (span w) (4 * w + t))
head_words_down m d s t w h apart = fun_ext λ a.
    words_down-blit w _ d s a (omega arith)
    ∙ rw (fun_ext (λ b. bytes_down-blit t m (d + 4 * w) (s + 4 * w) b (omega arith))) (
        join_below m d s (span w) (4 * w) t _ a (omega (arith, span_cases w))
          (omega (arith, span_cases w)) refl)

pub loops_down-blit :
    (m : Mem) (d s t w r a : ℕ)
    → s < d
    → (w ≡ 0) ⊎ (s + 4 ≤ d)
    → bytes_down
        (words_down
          (bytes_down m (d + r + 4 * w + t) (s + r + 4 * w + t) t)
          (d + r + 4 * w)
          (s + r + 4 * w)
          w)
        (d + r)
        (s + r)
        r
        a
      ≡ blit m d s (r + max (span w) (4 * w + t)) a
loops_down-blit m d s t w r a h apart =
    bytes_down-blit r _ d s a h
    ∙ rw (head_words_down m (d + r) (s + r) t w (omega arith) (omega arith))
        (join_below m d s r r _ _ a (omega arith) (omega arith) (omega arith))
