-- ===== src/Print/Agreement.antt =====
-- The text that kdoprnt is compared with is what the format means.
use lib_system_call.Base.{
  ℕ, ◌≡◌, ◌≢◌, ◌∙◌, ap, sym, Bool, true, false, List, [], ◌∷◌, ◌++◌, Option, none, some, ◌==◌,
  arith, refl, inl, inr, Bool-cases,
}
use lib_system_call.Print.{Arg}
use lib_system_call.Print.Text.{conversion_text, before, format_text}
use lib_system_call.Print.Meaning.{IsText}
use lib_system_call.Print.Conversions.{conversion_text-IsConverted, IsConverted-conversion_text}

before-some :
    (cs whole : List ℕ) (m : Option (List ℕ))
    → before cs m ≡ some whole
    → (later : List ℕ) × (m ≡ some later) × (whole ≡ cs ++ later)
before-some cs whole none h = cc
before-some cs whole (some later) h = (later, refl, grind arith)

-- The text of a conversion and of what stands behind it.
go_on : List ℕ → Option (List Arg × List ℕ) → Option (List ℕ)
go_on fmt none = none
go_on fmt (some (args', now)) = before now (format_text fmt none args')

module _ (c : ℕ) (fmt : List ℕ) (args : List Arg) where
  text_start :
      c == b'%' ≡ true → format_text (c ∷ fmt) none args ≡ format_text fmt (some false) args
  unfolding format_text
  text_start e = rw (e, format_text) refl

  text_copied :
      c == b'%' ≡ false
      → format_text (c ∷ fmt) none args ≡ before (c ∷ []) (format_text fmt none args)
  unfolding format_text
  text_copied e = rw (e, format_text) refl

  text_long :
      (lflag : Bool)
      → c == b'l' ≡ true
      → format_text (c ∷ fmt) (some lflag) args ≡ format_text fmt (some true) args
  unfolding format_text
  text_long lflag e = rw (e, format_text) refl

  text_converted :
      (lflag : Bool)
      → c == b'l' ≡ false
      → format_text (c ∷ fmt) (some lflag) args ≡ go_on fmt (conversion_text c lflag args)
  unfolding format_text go_on
  text_converted lflag e = rw (e, format_text) (behind (conversion_text c lflag args))
    where
      behind :
          (done : Option (List Arg × List ℕ))
          → (elim done [ none ↦ none | some (args', cs) ↦ before cs (format_text fmt none args') ])
            ≡ go_on fmt done
      behind none = refl
      behind (some (args', cs)) = refl

go_on-some :
    (fmt whole : List ℕ) (done : Option (List Arg × List ℕ))
    → go_on fmt done ≡ some whole
    → (args' : List Arg) × (now later : List ℕ) × (done ≡ some (args', now))
      × (format_text fmt none args' ≡ some later)
      × (whole ≡ now ++ later)
unfolding go_on
go_on-some fmt whole none h = cc
go_on-some fmt whole (some (args', now)) h =
    let (later, rest, parts) = before-some now whole (format_text fmt none args') h in
    (args', now, later, refl, rest, parts)

before-none : (cs : List ℕ) (m : Option (List ℕ)) → before cs m ≡ none → m ≡ none
before-none cs none h = refl
before-none cs (some ds) h = cc

-- The text is one that the format means.
pub format_text-IsText :
    (fmt : List ℕ) (flag : Option Bool) (args : List Arg) (cs : List ℕ)
    → format_text fmt flag args ≡ some cs
    → IsText fmt flag args cs
unfolding format_text IsText
format_text-IsText [] none args cs h = grind arith
format_text-IsText [] (some lflag) args cs h = cc
format_text-IsText (c ∷ fmt) none args cs h = elim (Bool-cases (c == b'%')) [
  | inl start ↦ inl (
    ground (arith, start),
    format_text-IsText fmt (some false) args cs (sym (text_start c fmt args start) ∙ h),
  )
  | inr other ↦
      let plain_c : c ≢ b'%' = ground (arith, other) in
      let (ds, rest, whole) =
        before-some (c ∷ []) cs (format_text fmt none args)
          (sym (text_copied c fmt args other) ∙ h) in
      inr (plain_c, ds, whole, format_text-IsText fmt none args ds rest)
]
format_text-IsText (c ∷ fmt) (some lflag) args cs h = elim (Bool-cases (c == b'l')) [
  | inl long ↦ inl (
    ground (arith, long),
    format_text-IsText fmt (some true) args cs (sym (text_long c fmt args lflag long) ∙ h),
  )
  | inr other ↦
      let no_l : c ≢ b'l' = ground (arith, other) in
      let (args', now, later, found, rest, whole) =
        go_on-some fmt cs (conversion_text c lflag args)
          (sym (text_converted c fmt args lflag other) ∙ h) in
      inr (
        no_l,
        args',
        now,
        later,
        whole,
        conversion_text-IsConverted c lflag args args' now found,
        format_text-IsText fmt none args' later rest,
      )
]

-- A format that means something has a text.
pub IsText-format_text :
    (fmt : List ℕ) (flag : Option Bool) (args : List Arg) (cs : List ℕ)
    → IsText fmt flag args cs
    → format_text fmt flag args ≢ none
unfolding format_text IsText go_on
IsText-format_text [] none args cs h e = cc
IsText-format_text [] (some lflag) args cs h e = h
IsText-format_text (c ∷ fmt) none args cs (inl (start, h)) e =
    let tested : c == b'%' ≡ true = ground (arith, start) in
    IsText-format_text fmt (some false) args cs h (sym (text_start c fmt args tested) ∙ e)
IsText-format_text (c ∷ fmt) none args cs (inr (other, ds, whole, h)) e =
    let tested : c == b'%' ≡ false = ground (arith, other) in
    IsText-format_text fmt none args ds h
      (before-none (c ∷ []) (format_text fmt none args) (sym (text_copied c fmt args tested) ∙ e))
IsText-format_text (c ∷ fmt) (some lflag) args cs (inl (long, h)) e =
    let tested : c == b'l' ≡ true = ground (arith, long) in
    IsText-format_text fmt (some true) args cs h (sym (text_long c fmt args lflag tested) ∙ e)
IsText-format_text (c ∷ fmt) (some lflag) args cs (inr (other, args', now, later, whole, conv, h))
      e =
    let tested : c == b'l' ≡ false = ground (arith, other) in
    let (now', found) = IsConverted-conversion_text c lflag args args' now conv in
    IsText-format_text fmt none args' later h (
      before-none now' (format_text fmt none args')
        (ap (go_on fmt) (sym found) ∙ sym (text_converted c fmt args lflag tested) ∙ e))
