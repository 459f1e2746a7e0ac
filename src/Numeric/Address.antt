-- ===== src/Numeric/Address.antt =====
-- What `z_inet_aton` reads.
use lib_system_call.Base.{
  ℕ, zero, suc, ◌+◌, ◌-◌, ◌*◌, ◌%◌, ◌^◌, ◌≤◌, ◌<◌, ◌≡◌, ◌≢◌, ◌⊎◌, ◌∙◌, ap, List, [], ◌∷◌, ◌++◌, All,
  length, some, arith, refl, ◌==◌, lt→ltb, get_or, if◌then◌else◌,
}
use lib_system_call.Memory.{Mem, IsStr}
use lib_system_call.Memory.Strings.{IsStr-drop}
use lib_system_call.Numeric.{
  z_isdigit, z_isspace, octet, address, aton_result, aton_loop, z_inet_aton,
}
use lib_system_call.Numeric.Value.{IsDigit, value}
use lib_system_call.Numeric.Parse.{NoDigit, first-NoDigit}

-- Octets with dots between them, and `rest` behind the last.
unfoldable pub dotted : List ℕ → List (List ℕ) → List ℕ → List ℕ
dotted d [] rest = d ++ rest
dotted d (e ∷ es) rest = d ++ b'.' ∷ dotted e es rest

-- The address that the octets stand for: the first is the lowest byte, as in memory on x86.
unfoldable pub weigh : ℕ → List ℕ → List (List ℕ) → ℕ
unfolding value
weigh r d [] = value 0 d * 2 ^ (8 * r)
weigh r d (e ∷ es) = value 0 d * 2 ^ (8 * r) + weigh (r + 1) e es

octet_lem :
    (fuel : ℕ) (m : Mem) (p acc : ℕ) (ds rest : List ℕ)
    → IsStr m p (ds ++ rest)
    → All IsDigit ds
    → (m (p + length ds) < b'0') ⊎ (b'9' < m (p + length ds))
    → length ds < fuel
    → octet fuel m p (acc % 2 ^ 32) ≡ some (p + length ds, value acc ds % 2 ^ 32)
unfolding octet value z_isdigit
octet_lem zero m p acc ds rest h all stop enough = absurd (omega arith)
octet_lem (suc fuel) m p acc [] rest h all stop enough = ground arith
octet_lem (suc fuel) m p acc (d ∷ ds) rest h all stop enough =
    ground (arith, octet_lem fuel m (p + 1) (acc * 10 + (d - b'0')) ds rest h.2 all.1)

shift_wraps : (r v : ℕ) → r < 4 → v % 2 ^ 32 * 2 ^ (8 * r) % 2 ^ 32 ≡ v * 2 ^ (8 * r) % 2 ^ 32
shift_wraps zero v h = omega arith
shift_wraps (suc zero) v h = omega arith
shift_wraps (suc (suc zero)) v h = omega arith
shift_wraps (suc (suc (suc zero))) v h = omega arith
shift_wraps (suc (suc (suc (suc r)))) v h = absurd (omega arith)

-- One octet, at a place where it can be added.
aton_step :
    (fuel octets : ℕ) (m : Mem) (p r acc : ℕ) (d rest : List ℕ)
    → IsStr m p (d ++ rest)
    → NoDigit rest
    → All IsDigit d
    → length d < fuel
    → r < 4
    → aton_loop fuel (suc octets) m p r (acc % 2 ^ 32) ≡ (
        let u_ipaddr = (acc + value 0 d * 2 ^ (8 * r)) % 2 ^ 32 in
        let q = p + length d in
        if m q == b'.'
        then aton_loop fuel octets m (q + 1) (r + 1) u_ipaddr
        else aton_result (m q) u_ipaddr)
unfolding aton_loop
aton_step fuel octets m p r acc d rest h stop all enough low =
    let ends = first-NoDigit m (p + length d) rest (IsStr-drop d rest m p h) stop in
    let sum : (acc % 2 ^ 32 + value 0 d % 2 ^ 32 * 2 ^ (8 * r) % 2 ^ 32) % 2 ^ 32
        ≡ (acc + value 0 d * 2 ^ (8 * r)) % 2 ^ 32 =
      omega (arith, shift_wraps r (value 0 d) low) in
    let read : octet fuel m p 0 ≡ some (p + length d, value 0 d % 2 ^ 32) =
      octet_lem fuel m p 0 d rest h all ends enough in
    rw (read, aton_loop, lt→ltb (8 * r) 32 (omega arith), sum)

-- The character behind an address ends it.
abbrev pub EndsAddress : List ℕ → Type 0
EndsAddress [] = Unit {0}
EndsAddress (c ∷ cs) = ((c < b'0') ⊎ (b'9' < c)) × (c ≢ b'.')

EndsAddress-NoDigit : (rest : List ℕ) → EndsAddress rest → NoDigit rest
EndsAddress-NoDigit [] h = tt
EndsAddress-NoDigit (c ∷ cs) h = h.0

last_octet :
    (m : Mem) (p : ℕ) (rest : List ℕ)
    → IsStr m p rest
    → EndsAddress rest
    → (m p ≢ b'.') × (m p ≡ get_or rest 0 0)
last_octet m p [] h stop = ground arith
last_octet m p (c ∷ cs) h stop = ground arith

abbrev pub IsOctet : ℕ → List ℕ → Type 0
IsOctet fuel d = All IsDigit d × (length d < fuel)

-- With at most four octets the sum of the loops is their weighted sum.
aton_loop_lem :
    (es : List (List ℕ)) (fuel octets : ℕ) (m : Mem) (p r acc : ℕ) (d rest : List ℕ)
    → IsStr m p (dotted d es rest)
    → EndsAddress rest
    → All (IsOctet fuel) (d ∷ es)
    → length es < octets
    → r + length es < 4
    → aton_loop fuel octets m p r (acc % 2 ^ 32)
      ≡ aton_result (get_or rest 0 0) ((acc + weigh r d es) % 2 ^ 32)
unfolding dotted weigh
aton_loop_lem es fuel zero m p r acc d rest h stop all more few = absurd (omega arith)
aton_loop_lem [] fuel (suc octets) m p r acc d rest h stop all more few =
    let step =
      aton_step fuel octets m p r acc d rest h (EndsAddress-NoDigit rest stop) all.0.0 all.0.1
        (omega arith) in
    let ends = last_octet m (p + length d) rest (IsStr-drop d rest m p h) stop in
    ground (arith, step, ends)
aton_loop_lem (e ∷ es) fuel (suc octets) m p r acc d rest h stop all more few =
    let step = aton_step fuel octets m p r acc d _ h (omega arith) all.0.0 all.0.1 (omega arith) in
    let text = IsStr-drop d _ m p h in
    let next =
      aton_loop_lem es fuel octets m (p + length d + 1) (r + 1) (acc + value 0 d * 2 ^ (8 * r)) e
        rest text.2 stop all.1 (omega arith) (omega arith) in
    ground (arith, step, next, text.0)

abbrev pub IsSpace : ℕ → Type 0
IsSpace c = (c ≡ b' ') ⊎ ((9 ≤ c) × (c ≤ 13))

-- The text behind an address that `z_inet_aton` accepts: none, or one that begins with a space.
abbrev pub Accepted : List ℕ → Type 0
Accepted [] = Unit {0}
Accepted (c ∷ cs) = IsSpace c

Accepted-EndsAddress : (rest : List ℕ) → Accepted rest → EndsAddress rest
Accepted-EndsAddress [] h = tt
Accepted-EndsAddress (c ∷ cs) h = omega arith

aton_result-Accepted :
    (rest : List ℕ) (a : ℕ) → Accepted rest → aton_result (get_or rest 0 0) a ≡ address a
unfolding aton_result z_isspace
aton_result-Accepted [] a h = refl
aton_result-Accepted (c ∷ cs) a h = ground arith

-- Of one to four octets, each a run of decimal digits, with a dot between each two and then the
-- end of the text or a space, `z_inet_aton` makes their weighted sum modulo 2 ^ 32, the first
-- octet being the lowest byte.
pub z_inet_aton-weigh :
    (fuel : ℕ) (m : Mem) (p : ℕ) (d : List ℕ) (es : List (List ℕ)) (rest : List ℕ)
    → IsStr m p (dotted d es rest)
    → Accepted rest
    → All (IsOctet fuel) (d ∷ es)
    → length es ≤ 3
    → z_inet_aton fuel m p ≡ address (weigh 0 d es % 2 ^ 32)
unfolding z_inet_aton
z_inet_aton-weigh fuel m p d es rest h ok all few =
    aton_loop_lem es fuel 5 m p 0 0 d rest h (Accepted-EndsAddress rest ok) all (omega arith)
      (omega arith)
    ∙ aton_result-Accepted rest _ ok
    ∙ ap address (omega arith)
