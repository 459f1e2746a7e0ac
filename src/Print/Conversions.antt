-- ===== src/Print/Conversions.antt =====
-- The text of each conversion of kdoprnt is what the conversion means.
use lib_system_call.Base.{
  ℕ, ◌^◌, ◌%◌, ◌≡◌, ◌⊎◌, Bool, true, false, List, [], ◌∷◌, Option, none, some, ◌==◌, arith, refl,
  inl, inr, if◌then◌else◌,
}
use lib_system_call.Print.{
  Arg, word, text, arg_text, unsigned_arg, signed_arg, nibbles, kprintn_digits,
}
use lib_system_call.Print.Text.{signed_text, word_text, conversion_text}
use lib_system_call.Print.Meaning.{
  IsConverted, character, string, decimal, octal, unsigned, pointer, hexadecimal, filled, plain,
  numeral, unsigned_numeral, signed_text-IsSigned, nibbles-IsFilled,
}

either {ℓ} :
    {A : Type ℓ} {x y z : A} (b : Bool)
    → (if b then x else y) ≡ z
    → ((b ≡ true) × (x ≡ z)) ⊎ ((b ≡ false) × (y ≡ z))
either true h = inl (refl, h)
either false h = inr (refl, h)

word_text-some :
    (f : ℕ → List ℕ) (args args' : List Arg) (cs : List ℕ)
    → word_text f args ≡ some (args', cs)
    → (n : ℕ) × (args ≡ word n ∷ args') × (cs ≡ f n)
word_text-some f [] args' cs h = cc
word_text-some f (word n ∷ args) args' cs h = (n, grind arith, grind arith)
word_text-some f (text s ∷ args) args' cs h = cc

text-some :
    (args args' : List Arg) (cs : List ℕ)
    → ◌≡◌ {A = Option (List Arg × List ℕ)}
        (elim (arg_text args) [ none ↦ none | some (s, args'') ↦ some (args'', s) ])
        (some (args', cs))
    → args ≡ text cs ∷ args'
text-some [] args' cs h = cc
text-some (word n ∷ args) args' cs h = cc
text-some (text s ∷ args) args' cs h = grind arith

converted_as :
    (lflag : Bool) {c c' : ℕ} {args₀ args₁ args' : List Arg} {cs cs' : List ℕ}
    → c ≡ c'
    → args₀ ≡ args₁
    → cs ≡ cs'
    → IsConverted lflag c' args₁ args' cs'
    → IsConverted lflag c args₀ args' cs
converted_as lflag same_c same_args same_cs x = rw (same_c, same_args, same_cs) x

last_conversions :
    (c : ℕ) (lflag : Bool) (args args' : List Arg) (cs : List ℕ)
    → c == b'c' ≡ false
    → c == b's' ≡ false
    → c == b'd' ≡ false
    → c == b'o' ≡ false
    → c == b'u' ≡ false
    → (if c == b'p'
        then word_text (λ n. b'0' ∷ b'x' ∷ kprintn_digits 22 (n % 2 ^ 64) 16) args
        else if c == b'x'
        then word_text (λ n. kprintn_digits 22 (unsigned_arg lflag n) 16) args
        else if c == b'X'
        then word_text (λ n. nibbles (if lflag then 16 else 8) (unsigned_arg lflag n)) args
        else some (args, b'%' ∷ (if lflag then b'l' ∷ c ∷ [] else c ∷ [])))
      ≡ some (args', cs)
    → IsConverted lflag c args args' cs
last_conversions c lflag args args' cs no_c no_s no_d no_o no_u h = elim (either (c == b'p') h) [
  | inl (e, h') ↦
      let (n, at_n, printed) =
        word_text-some (λ n. b'0' ∷ b'x' ∷ kprintn_digits 22 (n % 2 ^ 64) 16) args args' cs h' in
      let is_p : c ≡ b'p' = ground (arith, e) in
      converted_as lflag is_p at_n printed
        (pointer n args' _ (numeral 16 (n % 2 ^ 64) (omega arith) (omega arith) (omega arith)))
  | inr (no_p, h₁) ↦ elim (either (c == b'x') h₁) [
    | inl (e, h') ↦
        let (n, at_n, printed) =
          word_text-some (λ n. kprintn_digits 22 (unsigned_arg lflag n) 16) args args' cs h' in
        let is_x : c ≡ b'x' = ground (arith, e) in
        converted_as lflag is_x at_n printed
          (hexadecimal n args' _ (unsigned_numeral 16 lflag n (omega arith) (omega arith)))
    | inr (no_x, h₂) ↦ elim (either (c == b'X') h₂) [
      | inl (e, h') ↦
          let (n, at_n, printed) =
            word_text-some (λ n. nibbles (if lflag then 16 else 8) (unsigned_arg lflag n)) args
              args' cs h' in
          let is_x : c ≡ b'X' = ground (arith, e) in
          converted_as lflag is_x at_n printed (filled n args' _ (nibbles-IsFilled lflag n))
      | inr (no_big, h₃) ↦
          let same : args ≡ args' = grind (arith, h₃) in
          let printed : cs ≡ b'%' ∷ (if lflag then b'l' ∷ c ∷ [] else c ∷ []) = grind (arith, h₃) in
          rw (same, printed)
            (plain c args' (
              ground (arith, no_c),
              ground (arith, no_s),
              ground (arith, no_d),
              ground (arith, no_o),
              ground (arith, no_u),
              ground (arith, no_p),
              ground (arith, no_x),
              ground (arith, no_big),
            ))
    ]
  ]
]

-- What a conversion prints is what it means.
pub conversion_text-IsConverted :
    (c : ℕ) (lflag : Bool) (args args' : List Arg) (cs : List ℕ)
    → conversion_text c lflag args ≡ some (args', cs)
    → IsConverted lflag c args args' cs
conversion_text-IsConverted c lflag args args' cs h = elim (either (c == b'c') h) [
  | inl (e, h') ↦
      let (n, at_n, printed) = word_text-some (λ n. n % 2 ^ 7 ∷ []) args args' cs h' in
      let is_c : c ≡ b'c' = ground (arith, e) in
      converted_as lflag is_c at_n printed (character n args')
  | inr (no_c, h₁) ↦ elim (either (c == b's') h₁) [
    | inl (e, h') ↦
        let at_s = text-some args args' cs h' in
        let is_s : c ≡ b's' = ground (arith, e) in
        converted_as lflag is_s at_s refl (string cs args')
    | inr (no_s, h₂) ↦ elim (either (c == b'd') h₂) [
      | inl (e, h') ↦
          let (n, at_n, printed) =
            word_text-some (λ n. signed_text (signed_arg lflag n)) args args' cs h' in
          let is_d : c ≡ b'd' = ground (arith, e) in
          converted_as lflag is_d at_n printed (decimal n args' _ (signed_text-IsSigned lflag n))
      | inr (no_d, h₃) ↦ elim (either (c == b'o') h₃) [
        | inl (e, h') ↦
            let (n, at_n, printed) =
              word_text-some (λ n. kprintn_digits 22 (unsigned_arg lflag n) 8) args args' cs h' in
            let is_o : c ≡ b'o' = ground (arith, e) in
            converted_as lflag is_o at_n printed
              (octal n args' _ (unsigned_numeral 8 lflag n (omega arith) (omega arith)))
        | inr (no_o, h₄) ↦ elim (either (c == b'u') h₄) [
          | inl (e, h') ↦
              let (n, at_n, printed) =
                word_text-some (λ n. kprintn_digits 22 (unsigned_arg lflag n) 10) args args' cs
                  h' in
              let is_u : c ≡ b'u' = ground (arith, e) in
              converted_as lflag is_u at_n printed
                (unsigned n args' _ (unsigned_numeral 10 lflag n (omega arith) (omega arith)))
          | inr (no_u, h₅) ↦ last_conversions c lflag args args' cs no_c no_s no_d no_o no_u h₅
        ]
      ]
    ]
  ]
]

-- A conversion that means something has a text.
pub IsConverted-conversion_text :
    (c : ℕ) (lflag : Bool) (args args' : List Arg) (cs : List ℕ)
    → IsConverted lflag c args args' cs
    → (now : List ℕ) × (conversion_text c lflag args ≡ some (args', now))
IsConverted-conversion_text c lflag args args' cs (character n rest) = (_, refl)
IsConverted-conversion_text c lflag args args' cs (string s rest) = (_, refl)
IsConverted-conversion_text c lflag args args' cs (decimal n rest ds h) = (_, refl)
IsConverted-conversion_text c lflag args args' cs (octal n rest ds h) = (_, refl)
IsConverted-conversion_text c lflag args args' cs (unsigned n rest ds h) = (_, refl)
IsConverted-conversion_text c lflag args args' cs (pointer n rest ds h) = (_, refl)
IsConverted-conversion_text c lflag args args' cs (hexadecimal n rest ds h) = (_, refl)
IsConverted-conversion_text c lflag args args' cs (filled n rest ds h) = (_, refl)
IsConverted-conversion_text c lflag args args' cs (plain d rest other) =
    let no_c : c == b'c' ≡ false = ground (arith, other) in
    let no_s : c == b's' ≡ false = ground (arith, other) in
    let no_d : c == b'd' ≡ false = ground (arith, other) in
    let no_o : c == b'o' ≡ false = ground (arith, other) in
    let no_u : c == b'u' ≡ false = ground (arith, other) in
    let no_p : c == b'p' ≡ false = ground (arith, other) in
    let no_x : c == b'x' ≡ false = ground (arith, other) in
    let no_big : c == b'X' ≡ false = ground (arith, other) in
    (
      b'%' ∷ (if lflag then b'l' ∷ c ∷ [] else c ∷ []),
      rw (no_c, no_s, no_d, no_o, no_u, no_p, no_x, no_big) refl,
    )
