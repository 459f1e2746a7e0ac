-- ===== src/Print/Text.antt =====
-- The text that a format and its arguments stand for.
use lib_system_call.Base.{
  ℕ, ◌-◌, ◌^◌, ◌%◌, ◌≡◌, ◌∙◌, ap, sym, Bool, true, false, List, [], ◌∷◌, ◌++◌, Option, none, some,
  leb, ◌==◌, if◌then◌else◌, refl, inl, inr, Bool-cases,
}
use lib_system_call.Print.{
  Output, Arg, word, text, arg_word, arg_text, signed_arg, unsigned_arg, nibbles, print_signed,
  with_word, putcharfd, put_all, kprintn_digits, kprintn, conversion, kdoprnt_loop,
}

-- A signed number in decimal.
abbrev pub signed_text : ℕ → List ℕ
signed_text ul =
    if leb (2 ^ 63) ul then b'-' ∷ kprintn_digits 22 (2 ^ 64 - ul) 10 else kprintn_digits 22 ul 10

-- The text of the next argument, a number, and the arguments behind it.
abbrev pub word_text : (ℕ → List ℕ) → List Arg → Option (List Arg × List ℕ)
word_text f args = elim (arg_word args) [ none ↦ none | some (n, args') ↦ some (args', f n) ]

-- The text of one conversion, and the arguments behind it.
abbrev pub conversion_text : (c : ℕ) (lflag : Bool) → List Arg → Option (List Arg × List ℕ)
conversion_text c lflag args =
    if c == b'c'
    then word_text (λ n. n % 2 ^ 7 ∷ []) args
    else if c == b's'
    then elim (arg_text args) [ none ↦ none | some (s, args') ↦ some (args', s) ]
    else if c == b'd'
    then word_text (λ n. signed_text (signed_arg lflag n)) args
    else if c == b'o'
    then word_text (λ n. kprintn_digits 22 (unsigned_arg lflag n) 8) args
    else if c == b'u'
    then word_text (λ n. kprintn_digits 22 (unsigned_arg lflag n) 10) args
    else if c == b'p'
    then word_text (λ n. b'0' ∷ b'x' ∷ kprintn_digits 22 (n % 2 ^ 64) 16) args
    else if c == b'x'
    then word_text (λ n. kprintn_digits 22 (unsigned_arg lflag n) 16) args
    else if c == b'X'
    then word_text (λ n. nibbles (if lflag then 16 else 8) (unsigned_arg lflag n)) args
    else some (args, b'%' ∷ (if lflag then b'l' ∷ c ∷ [] else c ∷ []))

abbrev pub before : List ℕ → Option (List ℕ) → Option (List ℕ)
before cs none = none
before cs (some ds) = some (cs ++ ds)

-- The text of a format, in which a `%` may have been read. There is none when an argument is
-- missing or of another kind, or the format ends within a conversion.
unfoldable pub format_text : List ℕ → (flag : Option Bool) → List Arg → Option (List ℕ)
format_text [] none args = some []
format_text [] (some lflag) args = none
format_text (c ∷ fmt) none args = elim (c == b'%') [
  | true ↦ format_text fmt (some false) args
  | false ↦ before (c ∷ []) (format_text fmt none args)
]
format_text (c ∷ fmt) (some lflag) args = elim (c == b'l') [
  | true ↦ format_text fmt (some true) args
  | false ↦ elim (conversion_text c lflag args) [
    | none ↦ none
    | some (args', cs) ↦ before cs (format_text fmt none args')
  ]
]

put_all-append :
    (cs ds : List ℕ) (fd : ℕ) (o : Output)
    → put_all (cs ++ ds) fd o ≡ put_all ds fd (put_all cs fd o)
unfolding put_all
put_all-append [] ds fd o = refl
put_all-append (c ∷ cs) ds fd o = put_all-append cs ds fd (putcharfd c fd o)

-- What printing a text makes of the result of a conversion.
abbrev put_text : (fd : ℕ) → Output → Option (List Arg × List ℕ) → Option (List Arg × Output)
put_text fd o none = none
put_text fd o (some (args, cs)) = some (args, put_all cs fd o)

either_same {ℓ κ} :
    {A : Type ℓ} {B : Type κ} (f : A → B) {x y : A} {x' y' : B} (b : Bool)
    → x' ≡ f x
    → y' ≡ f y
    → (if b then x' else y') ≡ f (if b then x else y)
either_same f true p q = p
either_same f false p q = q

with_word-put_text :
    (fd : ℕ) (o : Output) (args : List Arg) (print : ℕ → Output → Output) (f : ℕ → List ℕ)
    → ((n : ℕ) → print n o ≡ put_all (f n) fd o)
    → with_word args print o ≡ put_text fd o (word_text f args)
with_word-put_text fd o [] print f same = refl
with_word-put_text fd o (word n ∷ args) print f same = ap (λ o'. some (args, o')) (same n)
with_word-put_text fd o (text s ∷ args) print f same = refl

text-put_text :
    (fd : ℕ) (o : Output) (args : List Arg)
    → (elim (arg_text args) [ none ↦ none | some (s, args') ↦ some (args', put_all s fd o) ])
      ≡ put_text fd o (elim (arg_text args) [ none ↦ none | some (s, args') ↦ some (args', s) ])
text-put_text fd o [] = refl
text-put_text fd o (word n ∷ args) = refl
text-put_text fd o (text s ∷ args) = refl

print_signed-put_all :
    (fd ul : ℕ) (o : Output) → print_signed fd ul o ≡ put_all (signed_text ul) fd o
unfolding kprintn put_all
print_signed-put_all fd ul o = either_same (λ cs. put_all cs fd o) (leb (2 ^ 63) ul) refl refl

-- A character that is no conversion is printed with what stands before it.
other_put :
    (fd c : ℕ) (lflag : Bool) (o : Output)
    → putcharfd c fd ((if lflag then putcharfd b'l' fd else λ o'. o') (putcharfd b'%' fd o))
      ≡ put_all (b'%' ∷ (if lflag then b'l' ∷ c ∷ [] else c ∷ [])) fd o
unfolding put_all
other_put fd c true o = refl
other_put fd c false o = refl

digits-put_text :
    (fd base : ℕ) (o : Output) (args : List Arg) (value : ℕ → ℕ)
    → with_word args (λ n. kprintn fd (value n) base) o
      ≡ put_text fd o (word_text (λ n. kprintn_digits 22 (value n) base) args)
unfolding kprintn
digits-put_text fd base o args value =
    with_word-put_text fd o args (λ n. kprintn fd (value n) base)
      (λ n. kprintn_digits 22 (value n) base) (λ n. refl)

-- A conversion prints the text that it stands for.
conversion-put_text :
    (fd c : ℕ) (lflag : Bool) (args : List Arg) (o : Output)
    → conversion fd c lflag args o ≡ put_text fd o (conversion_text c lflag args)
unfolding conversion kprintn put_all
conversion-put_text fd c lflag args o =
    let printed = put_text fd o in
    let plain = unsigned_arg lflag in
    either_same printed (c == b'c')
      (with_word-put_text fd o args (λ n. putcharfd (n % 2 ^ 7) fd) (λ n. n % 2 ^ 7 ∷ [])
        (λ n. refl))
      (either_same printed (c == b's') (text-put_text fd o args) (
        either_same printed (c == b'd')
          (with_word-put_text fd o args (λ n. print_signed fd (signed_arg lflag n))
            (λ n. signed_text (signed_arg lflag n))
            (λ n. print_signed-put_all fd (signed_arg lflag n) o))
          (either_same printed (c == b'o') (digits-put_text fd 8 o args plain) (
            either_same printed (c == b'u') (digits-put_text fd 10 o args plain) (
              either_same printed (c == b'p')
                (with_word-put_text fd o args
                  (λ n o'. kprintn fd (n % 2 ^ 64) 16 (put_all (b'0' ∷ b'x' ∷ []) fd o'))
                  (λ n. b'0' ∷ b'x' ∷ kprintn_digits 22 (n % 2 ^ 64) 16) (λ n. refl))
                (either_same printed (c == b'x') (digits-put_text fd 16 o args plain) (
                  either_same printed (c == b'X')
                    (with_word-put_text fd o args
                      (λ n. put_all (nibbles (if lflag then 16 else 8) (plain n)) fd)
                      (λ n. nibbles (if lflag then 16 else 8) (plain n)) (λ n. refl))
                    (ap (λ o'. some (args, o')) (other_put fd c lflag o)))))))))

abbrev put_whole : (fd : ℕ) → Output → Option (List ℕ) → Option Output
put_whole fd o none = none
put_whole fd o (some cs) = some (put_all cs fd o)

put_whole-before :
    (fd : ℕ) (o : Output) (cs : List ℕ) (rest : Option (List ℕ))
    → put_whole fd (put_all cs fd o) rest ≡ put_whole fd o (before cs rest)
put_whole-before fd o cs none = refl
put_whole-before fd o cs (some ds) = ap some (sym (put_all-append cs ds fd o))

-- The rest of a format behind a conversion.
behind_conversion :
    (fmt : List ℕ) (fd : ℕ) (o : Output) (done : Option (List Arg × List ℕ))
    → ((args : List Arg) (o' : Output)
        → kdoprnt_loop fd fmt none args o' ≡ put_whole fd o' (format_text fmt none args))
    → (elim (put_text fd o done) [
      | none ↦ none
      | some (args', o') ↦ kdoprnt_loop fd fmt none args' o'
    ])
      ≡ put_whole fd o
          (elim done [ none ↦ none | some (args', cs) ↦ before cs (format_text fmt none args') ])
behind_conversion fmt fd o none rest = refl
behind_conversion fmt fd o (some (args', cs)) rest =
    rest args' (put_all cs fd o) ∙ put_whole-before fd o cs (format_text fmt none args')

-- The loop prints the text of the format, character by character, or has no result where there is
-- no text.
pub kdoprnt_loop-put_whole :
    (fmt : List ℕ) (fd : ℕ) (flag : Option Bool) (args : List Arg) (o : Output)
    → kdoprnt_loop fd fmt flag args o ≡ put_whole fd o (format_text fmt flag args)
unfolding kdoprnt_loop format_text put_all
kdoprnt_loop-put_whole [] fd none args o = refl
kdoprnt_loop-put_whole [] fd (some lflag) args o = refl
kdoprnt_loop-put_whole (c ∷ fmt) fd none args o = elim (Bool-cases (c == b'%')) [
  | inl start ↦
      rw (start, kdoprnt_loop, format_text) (kdoprnt_loop-put_whole fmt fd (some false) args o)
  | inr plain ↦
      rw (plain, kdoprnt_loop, format_text)
        (kdoprnt_loop-put_whole fmt fd none args (putcharfd c fd o)
          ∙ put_whole-before fd o (c ∷ []) (format_text fmt none args))
]
kdoprnt_loop-put_whole (c ∷ fmt) fd (some lflag) args o = elim (Bool-cases (c == b'l')) [
  | inl long ↦
      rw (long, kdoprnt_loop, format_text) (kdoprnt_loop-put_whole fmt fd (some true) args o)
  | inr other ↦
      rw (other, kdoprnt_loop, format_text)
        (rw (conversion-put_text fd c lflag args o) (
          behind_conversion fmt fd o (conversion_text c lflag args)
            (λ args' o'. kdoprnt_loop-put_whole fmt fd none args' o')))
]
