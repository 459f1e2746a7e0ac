-- ===== src/Context/Words.antt =====
-- The words that z_makecontext puts on a stack.
use mathlib.Core.Path.{ap₂}
use lib_system_call.Base.{
  ℕ, zero, suc, ◌+◌, ◌-◌, ◌*◌, ◌%◌, ◌≤◌, ◌<◌, ◌≡◌, ◌⊎◌, List, [], ◌∷◌, ◌++◌, length, length-append,
  replicate, get_or, arith, refl, inl, inr, ap, ◌∙◌, ◌==◌, Bool-cases, if◌then◌else◌,
}
use lib_system_call.Context.{Words, store, store_words, arrange, slots}

pub store_words_outside :
    (vs : List ℕ) (w : Words) (p a : ℕ)
    → (a < p) ⊎ (p + 8 * length vs ≤ a)
    → store_words w p vs a ≡ w a
unfolding store_words
store_words_outside [] w p a apart = refl
store_words_outside (v ∷ vs) w p a apart =
    store_words_outside vs (store w p v) (p + 8) a (ground (arith, apart)) ∙ ground (arith, apart)

pub store_words_at :
    (vs : List ℕ) (w : Words) (p i : ℕ)
    → i < length vs
    → store_words w p vs (p + 8 * i) ≡ get_or vs i 0
unfolding store_words
store_words_at [] w p i below = absurd (omega arith)
store_words_at (v ∷ vs) w p zero below =
    let here : p + 8 * 0 ≡ p = omega arith in
    rw here (store_words_outside vs (store w p v) (p + 8) p (inl (omega arith)) ∙ ground arith)
store_words_at (v ∷ vs) w p (suc i) below =
    let shift : p + 8 * suc i ≡ p + 8 + 8 * i = omega arith in
    rw shift (store_words_at vs (store w p v) (p + 8) i (omega arith))

pub store_words-append :
    (xs ys : List ℕ) (w : Words) (p : ℕ)
    → store_words (store_words w p xs) (p + 8 * length xs) ys ≡ store_words w p (xs ++ ys)
unfolding store_words
store_words-append [] ys w p = let here : p + 8 * 0 ≡ p = omega arith in rw here refl
store_words-append (x ∷ xs) ys w p =
    let shift : p + 8 * suc (length xs) ≡ p + 8 + 8 * length xs = omega arith in
    rw shift (store_words-append xs ys (store w p x) (p + 8))

length-replicate : (n v : ℕ) → length (replicate n v) ≡ n
length-replicate zero v = refl
length-replicate (suc n) v = omega (arith, length-replicate n v)

-- The arguments, and zeros up to six of them.
abbrev pub with_zeros : List ℕ → List ℕ
with_zeros args = args ++ replicate (slots (length args) - length args) 0

pub length-with_zeros : (args : List ℕ) → length (with_zeros args) ≡ slots (length args)
length-with_zeros args =
    let filled = length-replicate (slots (length args) - length args) 0 in
    length-append args (replicate (slots (length args) - length args) 0) ∙ ground (arith, filled)

get_or-replicate : (n i : ℕ) → get_or (replicate {A = ℕ} n 0) i 0 ≡ 0
get_or-replicate zero i = refl
get_or-replicate (suc n) zero = refl
get_or-replicate (suc n) (suc i) = get_or-replicate n i

pub get_or-zeros : (n : ℕ) (xs : List ℕ) (i : ℕ) → get_or (xs ++ replicate n 0) i 0 ≡ get_or xs i 0
get_or-zeros n [] i = get_or-replicate n i
get_or-zeros n (x ∷ xs) zero = refl
get_or-zeros n (x ∷ xs) (suc i) = get_or-zeros n xs i

-- A word that keeps the stack aligned.
abbrev pub padding : (argc : ℕ) → List ℕ
padding argc = if slots argc % 2 == 1 then 0 ∷ [] else []

-- What is put on the stack, from its top on.
abbrev pub layout : (ctx_start start ucp : ℕ) → List ℕ → List ℕ
layout ctx_start start ucp args =
    ctx_start ∷ start ∷ (with_zeros args ++ (padding (length args) ++ ucp ∷ []))

-- The place of the last word.
abbrev pub last_place : (stack_top argc : ℕ) → ℕ
last_place stack_top argc = stack_top + 16 + 8 * slots argc + 8 * length (padding argc)

-- The last two steps.
padded :
    (ucp argp argc : ℕ) (w : Words)
    → let uneven = slots argc % 2 == 1 in
      (store (if uneven then store w argp 0 else w) (if uneven then argp + 8 else argp) ucp
        ≡ store_words w argp (padding argc ++ ucp ∷ []))
      × ((if uneven then argp + 8 else argp) ≡ argp + 8 * length (padding argc))
unfolding store_words
padded ucp argp argc w = elim (Bool-cases (slots argc % 2 == 1)) [
  | inl odd ↦ rw odd (refl, omega arith)
  | inr even ↦ rw even (refl, omega arith)
]

pub arrange-layout :
    (ctx_start start ucp stack_top : ℕ) (args : List ℕ) (w : Words)
    → (arrange ctx_start start ucp stack_top args w).0
        ≡ store_words w stack_top (layout ctx_start start ucp args)
      × ((arrange ctx_start start ucp stack_top args w).1 ≡ last_place stack_top (length args))
unfolding arrange
arrange-layout ctx_start start ucp stack_top args w =
    let argc = length args in
    let zeros : List ℕ = replicate (slots argc - argc) 0 in
    let w₁ = store_words w stack_top (ctx_start ∷ start ∷ []) in
    let w₂ = store_words w₁ (stack_top + 16) args in
    let w₃ = store_words w₂ (stack_top + 16 + 8 * argc) zeros in
    let argp₃ = stack_top + 16 + 8 * argc + 8 * (slots argc - argc) in
    let ended = padded ucp argp₃ argc w₃ in
    let all = store_words-append args zeros w₁ (stack_top + 16) in
    let size = length-with_zeros args in
    let place : argp₃ ≡ stack_top + 16 + 8 * length (with_zeros args) = ground (arith, size) in
    let rest =
      store_words-append (with_zeros args) (padding argc ++ ucp ∷ []) w₁ (stack_top + 16) in
    let two : stack_top + 16 ≡ stack_top + 8 * length {A = ℕ} (ctx_start ∷ start ∷ []) =
      omega arith in
    let whole =
      store_words-append (ctx_start ∷ start ∷ []) (with_zeros args ++ (padding argc ++ ucp ∷ [])) w
        stack_top in
    (
      ended.0
          ∙ ap₂ (λ v p. store_words v p (padding argc ++ ucp ∷ [])) all place
          ∙ rest
          ∙ ap (λ p. store_words w₁ p (with_zeros args ++ (padding argc ++ ucp ∷ []))) two
          ∙ whole,
      ended.1 ∙ ground (arith, size),
    )
