-- ===== src/Messages.antt =====
-- The texts for signals and errors: the last part of z_string.c.
pub mod Tables
pub mod Known
use Prim.Native.String.{String}
use Prim.Native.Char.{code}
use lib_system_call.Base.{
  ℕ, zero, suc, ◌+◌, ◌-◌, ◌*◌, ◌^◌, ◌%◌, ◌/◌, Bool, true, false, ◌&&◌, ◌||◌, List, [], ◌∷◌, Option,
  none, some, length, ltb, leb, ◌==◌, ◌!=◌, if◌then◌else◌,
}
use lib_system_call.Memory.{Mem, write}
use lib_system_call.Bytes.{z_memset}
use lib_system_call.Str.{◌>>=◌, z_strlen, z_strncpy, z_strncat, z_malloc}
use lib_system_call.Messages.Tables.{z_sys_errlist, z_sys_siglist}

-- The bytes of a text.
abbrev pub codes : String → List ℕ
codes String.[] = []
codes (String.◌∷◌ c s) = code c ∷ codes s

abbrev pub einval : ℕ
einval = 22

abbrev pub erange : ℕ
erange = 34

-- A z_int32 is its bit pattern; its sign and its absolute value.
abbrev pub is_negative : ℕ → Bool
is_negative n = leb (2 ^ 31) n

abbrev pub magnitude : ℕ → ℕ
magnitude n = if leb (2 ^ 31) n then 2 ^ 32 - n else n

-- The linker places the texts: `text i` is the address of entry `i` of a table, and `uprefix` that
-- of "Unknown error". `tmp` is the address of the function's buffer on the stack.
module _ (text : ℕ → ℕ) (uprefix tmp : ℕ) where
  -- `do { *--t = digit; } while (uerr /= 10)`; the memory and `t`.
  unfoldable pub errstr_digits : ℕ → Mem → (t uerr : ℕ) → Option (Mem × ℕ)
  errstr_digits zero m t uerr = none
  errstr_digits (suc fuel) m t uerr =
      let m' = write m (t - 1) (b'0' + uerr % 10) in
      let rest = errstr_digits fuel m' (t - 1) (uerr / 10) in
      if uerr / 10 == 0 then some (m', t - 1) else rest

  -- `EBUFSIZE` is 36. `uerr` is a z_uint8, so three digits are enough. The fuel `k` is for the walk
  -- to the end of the prefix.
  unfoldable pub z_errstr : (k : ℕ) → Mem → (num buf len : ℕ) → Option Mem
  unfolding errstr_digits z_strncpy z_strncat
  z_errstr k m num buf len = do
    (m₁, t) ← errstr_digits 3 (write m (tmp + 35) 0) (tmp + 35) (magnitude num % 2 ^ 8)
    let m₂ = if is_negative num then write m₁ (t - 1) b'-' else m₁
    let t₂ = if is_negative num then t - 1 else t
    let m₃ = write (write m₂ (t₂ - 1) b' ') (t₂ - 2) b':'
    z_strncat k (z_strncpy m₃ buf uprefix len) buf (t₂ - 2) len

  -- The pointer that `z_strncpy` returns is compared with `buflen`, as signed numbers; `buflen` is
  -- not negative.
  unfoldable pub z_strerror_r : (k : ℕ) → Mem → (errnum strerrbuf buflen : ℕ) → Option (ℕ × Mem)
  unfolding z_errstr z_strncpy
  z_strerror_r k m errnum strerrbuf buflen =
      if is_negative errnum || leb (length z_sys_errlist) errnum
      then (do m' ← z_errstr k m errnum strerrbuf buflen; some (einval, m'))
      else some (
        if leb buflen strerrbuf && ltb strerrbuf (2 ^ 63) then erange else 0,
        z_strncpy m strerrbuf (text errnum) buflen,
      )

  -- `do { *t++ = digit; } while (signum /= 10)`; ten digits are enough.
  unfoldable pub strsignal_digits : ℕ → Mem → (t signum : ℕ) → Option (Mem × ℕ)
  strsignal_digits zero m t signum = none
  strsignal_digits (suc fuel) m t signum =
      let m' = write m t (b'0' + signum % 10) in
      let rest = strsignal_digits fuel m' (t + 1) (signum / 10) in
      if signum / 10 == 0 then some (m', t + 1) else rest

  -- `for (;;) { *p++ = *--t; if (t <= tmp) break; }`, with the `*p = '\0'` behind it; `n` is the
  -- distance from `tmp` to `t`.
  unfoldable pub strsignal_suffix : (n : ℕ) → Mem → (p : ℕ) → Mem
  strsignal_suffix zero m p = write m p 0
  strsignal_suffix (suc n) m p = strsignal_suffix n (write m p (m (tmp + n))) (p + 1)

  -- `TMPSIZE` is 23 and `NSIG` is 32. `n` is the pointer that `z_strncpy` returns, an unsigned
  -- number; so `buflen - suffixlen` is taken as one.
  unfoldable pub z_strsignal_r : Mem → (num strsignalbuf buflen : ℕ) → Option (ℕ × Mem)
  unfolding strsignal_digits strsignal_suffix z_memset z_strlen z_strncpy
  z_strsignal_r m num strsignalbuf buflen = do
    (m₁, t₁) ← strsignal_digits 10 (z_memset m tmp 0 23) tmp (magnitude num)
    let m₂ = if is_negative num then write m₁ t₁ b'-' else m₁
    let t₂ = if is_negative num then t₁ + 1 else t₁
    size ← z_strlen 23 m₂ tmp
    let suffixlen = size + 2
    let room = if leb suffixlen buflen then buflen - suffixlen else 2 ^ 64 - (suffixlen - buflen)
    let known = ltb 0 num && ltb num 32
    let m₃ = z_strncpy m₂ strsignalbuf (if known then text num else uprefix) buflen
    let retval = if known then if leb room strsignalbuf then erange else 0 else einval
    let p = (strsignalbuf + strsignalbuf) % 2 ^ 64
    some (
      retval,
      if ltb strsignalbuf room
          then strsignal_suffix (t₂ - tmp) (write (write m₃ p b':') (p + 1) b' ') (p + 2)
          else m₃,
    )

-- The globals of `z_strerror` and `z_strsignal`: the buffer, 0 before it is mapped, and `z_errno`.
pub record Messages : Type 0 where
  pub ebuf : ℕ
  pub errno : ℕ
  pub mem : Mem

-- `if (ebuf == Z_NULL) ebuf = z_malloc(NL_TEXTMAX)`; `mapped` is what the kernel returns.
unfoldable pub message_buffer : (mapped : ℕ) → Messages → Messages
unfolding z_malloc
message_buffer mapped s =
    if s.ebuf == 0
    then (let (block, m') = z_malloc mapped s.mem 2048 in
        record s { ebuf = elim block [ none ↦ 0 | some p ↦ p ]; mem = m' })
    else s

module _ (text : ℕ → ℕ) (uprefix tmp : ℕ) where
  -- The result is a pointer, 0 when there is no memory.
  unfoldable pub z_strerror : (k mapped : ℕ) → (num : ℕ) → Messages → Option (ℕ × Messages)
  unfolding message_buffer z_strerror_r
  z_strerror k mapped num s =
      let s₁ = message_buffer mapped s in
      if (if is_negative num then false else true) && ltb num (length z_sys_errlist)
      then some (text num, s)
      else if s₁.ebuf == 0
      then some (0, s₁)
      else (do
        (retval, m') ← z_strerror_r text uprefix tmp k s₁.mem num s₁.ebuf 2048
        some (s₁.ebuf, record s₁ { mem = m'; errno = if retval != 0 then einval else s₁.errno }))

  -- `EBUFSIZE` is 36.
  unfoldable pub z_strsignal : (mapped : ℕ) → (num : ℕ) → Messages → Option (ℕ × Messages)
  unfolding message_buffer z_strsignal_r
  z_strsignal mapped num s =
      let s₁ = message_buffer mapped s in
      if s₁.ebuf == 0 then some (0, s₁) else (do
        (retval, m') ← z_strsignal_r text uprefix tmp s₁.mem num s₁.ebuf 36
        some (s₁.ebuf, record s₁ { mem = m'; errno = if retval != 0 then einval else s₁.errno }))
