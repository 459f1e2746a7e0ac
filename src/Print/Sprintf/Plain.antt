-- ===== src/Print/Sprintf/Plain.antt =====
-- z_sprintf on a format without conversions.
use lib_system_call.Base.{
  ℕ, zero, suc, ◌+◌, ◌<◌, ◌≡◌, ◌≢◌, false, true, List, [], ◌∷◌, All, length, some, ◌==◌, arith,
  refl, ap, ◌∙◌,
}
use lib_system_call.Memory.{Mem, write, IsStr}
use lib_system_call.Memory.Strings.{Apart, IsStr-write}
use lib_system_call.Bytes.{z_memcpy, bytes_up}
use lib_system_call.Print.Sprintf.{sprintf_loop}

-- A format without a `%` is copied byte for byte, as by `z_memcpy` with its length: no terminator is
-- written behind it.
sprintf_loop-z_memcpy :
    (fuel buf digit left : ℕ) (m : Mem) (str fmt : ℕ) (va xs : List ℕ)
    → IsStr m fmt xs
    → All (λ x. x ≢ b'%') xs
    → Apart str (length xs) fmt (length xs + 1)
    → length xs < left
    → sprintf_loop fuel buf digit left m str fmt va
      ≡ some (z_memcpy m str fmt (length xs), str + length xs)
unfolding sprintf_loop z_memcpy bytes_up
sprintf_loop-z_memcpy fuel buf digit zero m str fmt va xs text plain apart enough =
    ground (arith, enough)
sprintf_loop-z_memcpy fuel buf digit (suc left) m str fmt va [] text plain apart enough =
    let end : m fmt == 0 ≡ true = ground (arith, text) in
    let stay : str ≡ str + 0 = omega arith in rw (end, sprintf_loop) (ap (λ p. some (m, p)) stay)
sprintf_loop-z_memcpy fuel buf digit (suc left) m str fmt va (x ∷ xs) text plain apart enough =
    let here : m fmt == 0 ≡ false = ground (arith, text.0, text.1) in
    let char : m fmt == b'%' ≡ false = ground (arith, text.0, plain.0) in
    let rest =
      sprintf_loop-z_memcpy fuel buf digit left (write m str (m fmt)) (str + 1) (fmt + 1) va xs
        (IsStr-write xs m (fmt + 1) str (m fmt) (omega (arith, apart)) text.2) plain.1
        (omega (arith, apart)) (omega (arith, enough)) in
    let behind : str + 1 + length xs ≡ str + suc (length xs) = omega arith in
    rw (here, char, sprintf_loop) (rest ∙ rw behind refl)
