-- ===== src/Print.antt =====
-- Printing to a descriptor: the first part of z_stdio.c.
pub mod Stream
pub mod Format
pub mod Text
pub mod Number
pub mod Meaning
pub mod Conversions
pub mod Agreement
pub mod Sprintf
use lib_system_call.Base.{
  ℕ, zero, suc, ◌+◌, ◌-◌, ◌*◌, ◌^◌, ◌%◌, ◌/◌, Bool, true, false, ◌&&◌, ◌||◌, List, [], ◌∷◌, ◌++◌,
  Option, none, some, length, ltb, leb, ◌==◌, ◌!=◌, if◌then◌else◌,
}
use lib_system_call.Numeric.{hex_digit}

-- A call `z_write(fd, outbuf, len)`, with the bytes written.
pub record Write : Type 0 where
  pub fd : ℕ
  pub bytes : List ℕ

-- `lastfd`, `none` for -1, the bytes from `outbuf` to `outptr`, and the writes so far, first one
-- first.
pub record Output : Type 0 where
  pub lastfd : Option ℕ
  pub outbuf : List ℕ
  pub writes : List Write

-- `OUTBUFSIZE`.
abbrev pub outbufsize : ℕ
outbufsize = 128

unfoldable pub z_flushbuf : Output → Output
z_flushbuf o = elim o.outbuf [
  | [] ↦ o
  | b ∷ bs ↦ elim o.lastfd [
    | none ↦ record o { outbuf = [] }
    | some fd ↦ record o {
      outbuf = [];
      writes = o.writes ++ record { fd = fd; bytes = b ∷ bs } ∷ [];
    }
  ]
]

abbrev pub is_last : Option ℕ → ℕ → Bool
is_last none fd = false
is_last (some last) fd = last == fd

-- `if (fd != lastfd) { z_flushbuf(); lastfd = fd; }`
unfoldable pub switch_fd : ℕ → Output → Output
unfolding z_flushbuf
switch_fd fd o = if is_last o.lastfd fd then o else record (z_flushbuf o) { lastfd = some fd }

unfoldable pub putcharfd : (c fd : ℕ) → Output → Output
unfolding z_flushbuf switch_fd
putcharfd c fd o =
    let b = c % 2 ^ 8 in
    let o₁ = switch_fd fd o in
    let o₂ : Output = record o₁ { outbuf = o₁.outbuf ++ b ∷ [] } in
    if leb outbufsize (length o₂.outbuf) || b == 10 || b == 13 then z_flushbuf o₂ else o₂

unfoldable pub put_all : List ℕ → (fd : ℕ) → Output → Output
unfolding putcharfd
put_all [] fd o = o
put_all (c ∷ cs) fd o = put_all cs fd (putcharfd c fd o)

-- The digits of `ul`, as the first loop of `kprintn` leaves them behind `buf`, printed backwards by
-- the second. The 22 bytes of `buf` hold a 64-bit number in octal.
unfoldable pub kprintn_digits : ℕ → (ul base : ℕ) → List ℕ
unfolding hex_digit
kprintn_digits zero ul base = []
kprintn_digits (suc left) ul base =
    let rest = kprintn_digits left (ul / base) base in
    if ul / base == 0 then hex_digit (ul % base) ∷ [] else rest ++ hex_digit (ul % base) ∷ []

unfoldable pub kprintn : (fd ul base : ℕ) → Output → Output
unfolding kprintn_digits put_all
kprintn fd ul base o = put_all (kprintn_digits 22 ul base) fd o

-- `va_arg`: a number of 64 or 32 bits, or the bytes of a string up to its terminator.
pub data Arg : Type 0 where
  word : ℕ → Arg
  text : List ℕ → Arg

abbrev pub arg_word : List Arg → Option (ℕ × List Arg)
arg_word [] = none
arg_word (word n ∷ ap) = some (n, ap)
arg_word (text s ∷ ap) = none

abbrev pub arg_text : List Arg → Option (List ℕ × List Arg)
arg_text [] = none
arg_text (word n ∷ ap) = none
arg_text (text s ∷ ap) = some (s, ap)

-- A signed argument as 64 bits, and an unsigned one.
abbrev pub signed_arg : Bool → ℕ → ℕ
signed_arg lflag n =
    if lflag
    then n % 2 ^ 64
    else if ltb (n % 2 ^ 32) (2 ^ 31)
    then n % 2 ^ 32
    else 2 ^ 64 - 2 ^ 32 + n % 2 ^ 32

abbrev pub unsigned_arg : Bool → ℕ → ℕ
unsigned_arg lflag n = if lflag then n % 2 ^ 64 else n % 2 ^ 32

-- The loop of `%X`: the digits of `count` nibbles, highest first.
abbrev pub nibbles : (count ul : ℕ) → List ℕ
nibbles zero ul = []
nibbles (suc count) ul = hex_digit (ul / 2 ^ (4 * count) % 16) ∷ nibbles count ul

abbrev pub print_signed : (fd ul : ℕ) → Output → Output
print_signed fd ul o =
    if leb (2 ^ 63) ul
    then kprintn fd (2 ^ 64 - ul) 10 (putcharfd b'-' fd o)
    else kprintn fd ul 10 o

-- A conversion that takes a number.
abbrev pub with_word : List Arg → (ℕ → Output → Output) → Output → Option (List Arg × Output)
with_word ap print o = elim (arg_word ap) [ none ↦ none | some (n, ap') ↦ some (ap', print n o) ]

-- The switch, for the character `c`. `none` is an argument that is missing or of another kind, where
-- `va_arg` has no defined result.
unfoldable pub conversion :
    (fd c : ℕ) (lflag : Bool) → List Arg → Output → Option (List Arg × Output)
unfolding kprintn put_all
conversion fd c lflag ap o =
    if c == b'c'
    then with_word ap (λ n. putcharfd (n % 2 ^ 7) fd) o
    else if c == b's'
    then elim (arg_text ap) [ none ↦ none | some (s, ap') ↦ some (ap', put_all s fd o) ]
    else if c == b'd'
    then with_word ap (λ n. print_signed fd (signed_arg lflag n)) o
    else if c == b'o'
    then with_word ap (λ n. kprintn fd (unsigned_arg lflag n) 8) o
    else if c == b'u'
    then with_word ap (λ n. kprintn fd (unsigned_arg lflag n) 10) o
    else if c == b'p'
    then with_word ap (λ n o'. kprintn fd (n % 2 ^ 64) 16 (put_all (b'0' ∷ b'x' ∷ []) fd o')) o
    else if c == b'x'
    then with_word ap (λ n. kprintn fd (unsigned_arg lflag n) 16) o
    else if c == b'X'
    then with_word ap (λ n. put_all (nibbles (if lflag then 16 else 8) (unsigned_arg lflag n)) fd) o
    else some
        (ap, putcharfd c fd ((if lflag then putcharfd b'l' fd else λ o'. o') (putcharfd b'%' fd o)))

-- The format up to its terminator. `flag` is `none` outside a conversion, and the value of `lflag`
-- behind a `%`. A format that ends behind a `%` is read past its end, `none`.
unfoldable pub kdoprnt_loop :
    (fd : ℕ) → List ℕ → (flag : Option Bool) → List Arg → Output → Option Output
unfolding conversion
kdoprnt_loop fd [] none ap o = some o
kdoprnt_loop fd [] (some lflag) ap o = none
kdoprnt_loop fd (c ∷ fmt) none ap o = elim (c == b'%') [
  | true ↦ kdoprnt_loop fd fmt (some false) ap o
  | false ↦ kdoprnt_loop fd fmt none ap (putcharfd c fd o)
]
kdoprnt_loop fd (c ∷ fmt) (some lflag) ap o = elim (c == b'l') [
  | true ↦ kdoprnt_loop fd fmt (some true) ap o
  | false ↦ elim (conversion fd c lflag ap o) [
    | none ↦ none
    | some (ap', o') ↦ kdoprnt_loop fd fmt none ap' o'
  ]
]

-- `init` is a local variable, so each call sets `outptr` to the start of the buffer.
unfoldable pub kdoprnt : (fd : ℕ) → List ℕ → List Arg → Output → Option Output
unfolding kdoprnt_loop
kdoprnt fd fmt ap o = kdoprnt_loop fd fmt none ap (record o { outbuf = [] })

-- `z_fdprintf` and `z_vfdprintf`; the two others print to `STDERR_FILENO`.
abbrev pub z_fdprintf : (fd : ℕ) → List ℕ → List Arg → Output → Option Output
z_fdprintf fd fmt ap o = kdoprnt fd fmt ap o

abbrev pub z_printf : List ℕ → List Arg → Output → Option Output
z_printf fmt ap o = kdoprnt 2 fmt ap o

-- `error` is the text at the address that z_strerror returns for `z_errno`.
abbrev pub z_perror : (str error : List ℕ) → Output → Option Output
z_perror str error o =
    z_printf (b'%' ∷ b's' ∷ b':' ∷ b' ' ∷ b'%' ∷ b's' ∷ 10 ∷ []) (text str ∷ text error ∷ []) o
