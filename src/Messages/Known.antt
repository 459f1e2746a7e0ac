-- ===== src/Messages/Known.antt =====
-- The text of a known number.
use Prim.Native.String.{String}
use lib_system_call.Base.{ℕ, ◌+◌, ◌^◌, ◌≤◌, ◌<◌, ◌≡◌, List, some, length, get_elem?, arith}
use lib_system_call.Memory.{Mem, IsStr}
use lib_system_call.Memory.Strings.{Apart, IsStr-blit, IsStr-get_or}
use lib_system_call.Str.{z_strncpy}
use lib_system_call.Str.Copy.{z_strncpy_lem}
use lib_system_call.Messages.{codes, erange, z_strerror_r}
use lib_system_call.Messages.Tables.{z_sys_errlist}

-- A string that fits a buffer is the same string in it.
strncpy-IsStr :
    (m : Mem) (d s n : ℕ) (xs : List ℕ)
    → IsStr m s xs
    → Apart d n s (length xs + 1)
    → length xs < n
    → IsStr (z_strncpy m d s n) d xs
strncpy-IsStr m d s n xs h apart room =
    IsStr-blit xs m _ s d h
      (λ i hi. ground (arith, z_strncpy_lem n m d s xs (d + i) h apart, IsStr-get_or xs m s i h hi))

module _ (text : ℕ → ℕ) (uprefix tmp : ℕ) where
  -- For the number of a known error `z_strerror_r` copies its text from the table when the buffer has
  -- room for it; but it returns ERANGE, as for a buffer that is too small, whenever the address of
  -- the buffer is not below its length.
  pub z_strerror_r_known :
      (k : ℕ) (m : Mem) (errnum strerrbuf buflen : ℕ) (t : String)
      → get_elem? z_sys_errlist errnum ≡ some t
      → errnum < 107
      → IsStr m (text errnum) (codes t)
      → Apart strerrbuf buflen (text errnum) (length (codes t) + 1)
      → length (codes t) < buflen
      → buflen ≤ strerrbuf
      → strerrbuf < 2 ^ 63
      → (m' : Mem) × (z_strerror_r text uprefix tmp k m errnum strerrbuf buflen ≡ some (erange, m'))
        × IsStr m' strerrbuf (codes t)
  unfolding z_strerror_r
  z_strerror_r_known k m errnum strerrbuf buflen t found known h apart room above user = (
    z_strncpy m strerrbuf (text errnum) buflen,
    ground arith,
    strncpy-IsStr m strerrbuf (text errnum) buflen (codes t) h apart room,
  )
