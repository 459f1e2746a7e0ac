-- ===== src/Tty.antt =====
-- The names of terminals and devices: the functions for pseudo-terminals and z_devname_r of
-- z_stdlib.c, and z_ttyname of z_unistd.c, over the directories of z_dirent.c.
use lib_system_call.Base.{
  ℕ, zero, suc, ◌+◌, ◌-◌, Bool, true, false, not, Option, none, some, bit_and, ltb, ◌==◌, ◌!=◌,
  if◌then◌else◌,
}
use lib_system_call.Memory.{Mem}
use lib_system_call.Bytes.{z_memcpy, z_memmove, z_memset}
use lib_system_call.Str.{z_strlen, z_strncpy, ◌>>=◌}
use lib_system_call.Dir.{Dir, Sys, Requests, allocate, read_le, z_readdir}
use lib_system_call.Dir.Open.{z_opendir, z_closedir}

-- `st_rdev` and `st_mode` of `struct z_stat`, which z_fstat and z_lstat fill in.
pub record Stat : Type 0 where
  pub st_rdev : ℕ
  pub st_mode : ℕ

-- The further requests, which say whether they succeed. `tiocptygname` stores the name of the
-- terminal at an address.
pub record Names (σ : Type 0) : Type 0 where
  pub tiocptygrant : (fd : ℕ) → Sys σ → Bool × Sys σ
  pub tiocptyunlk : (fd : ℕ) → Sys σ → Bool × Sys σ
  pub tiocptygname : (fd name : ℕ) → Sys σ → Bool × Sys σ
  pub tcgetattr : (fd : ℕ) → Sys σ → Bool × Sys σ
  pub fstat : (fd : Option ℕ) → Sys σ → Option Stat × Sys σ
  pub lstat : (path : ℕ) → Sys σ → Option Stat × Sys σ

-- O_RDONLY | O_CLOEXEC
abbrev pub o_cloexec : ℕ
o_cloexec = 0x1000000

abbrev pub ptsname_max_size : ℕ
ptsname_max_size = 128

abbrev pub maxnamlen : ℕ
maxnamlen = 255

abbrev pub dirent_maxpathlen : ℕ
dirent_maxpathlen = 1024

abbrev pub s_ifmt : ℕ
s_ifmt = 0xf000

abbrev pub s_ifchr : ℕ
s_ifchr = 0x2000

-- The further fields of `struct z_dirent`.
abbrev pub d_namlen : Mem → ℕ → ℕ
unfolding read_le
d_namlen m dp = read_le m (dp + 18) 2

abbrev pub d_name : ℕ → ℕ
d_name dp = dp + 21

-- Results are `true` for 0 and `false` for -1 or an error. `fuel` bounds the lengths of names and
-- the entries of a directory; without enough of it the result is `none`.
module _ {σ : Type 0} (k : Requests σ) (n : Names σ) where
  abbrev pub z_grantpt : (fd : ℕ) → Sys σ → Bool × Sys σ
  z_grantpt fd s = n.tiocptygrant fd s

  abbrev pub z_unlockpt : (fd : ℕ) → Sys σ → Bool × Sys σ
  z_unlockpt fd s = n.tiocptyunlk fd s

  -- `ptmx` is the address of "/dev/ptmx".
  abbrev pub z_posix_openpt : (ptmx flags : ℕ) → Sys σ → Option ℕ × Sys σ
  z_posix_openpt ptmx flags s = k.open_file ptmx flags s

  -- The name, with its terminator, is copied when it fits; ERANGE is 34.
  unfoldable pub ptsname_copy : (name buffer buflen len : ℕ) → Sys σ → Bool × Sys σ
  ptsname_copy name buffer buflen len s =
      if ltb buflen len
      then (false, record s { errno = 34 })
      else (true, record s { mem = z_memcpy s.mem buffer name len })

  -- `name` is the address of `ptsnamebuf`. A null buffer is 0; EINVAL is 22.
  unfoldable pub z_ptsname_r : (fuel name fd buffer buflen : ℕ) → Sys σ → Option (Bool × Sys σ)
  unfolding ptsname_copy z_strlen
  z_ptsname_r fuel name fd buffer buflen s =
      let (named, s₁) = n.tiocptygname fd name s in
      let (filefd, s₂) = k.open_file name o_cloexec s₁ in
      let (sbuf, s₃) = n.fstat filefd s₂ in
      if buffer == 0
      then some (false, record s { errno = 22 })
      else if not named
      then some (false, s₁)
      else elim sbuf [
        | none ↦ some (false, s₃)
        | some st ↦ (do
          len ← z_strlen fuel s₃.mem name
          some (ptsname_copy name buffer buflen (len + 1) s₃))
      ]

  -- The pointer, null as `none`. The memory that z_malloc gave is kept where there is an error.
  unfoldable pub z_ptsname : (fuel name fd : ℕ) → Sys σ → Option (Option ℕ × Sys σ)
  unfolding z_ptsname_r allocate
  z_ptsname fuel name fd s =
      let (p, s₁) = allocate k ptsname_max_size s in
      let buffer : ℕ = elim p [ none ↦ 0 | some b ↦ b ] in
      do
        (found, s₂) ← z_ptsname_r fuel name fd buffer ptsname_max_size s₁
        some (if found then p else none, s₂)

  -- The tests of the loop on the entry at `dirp`: the path of the entry stands at `path`.
  unfoldable pub is_device : (dev type path : ℕ) → Sys σ → Bool × Sys σ
  is_device dev type path s =
      let (sb, s') = n.lstat path s in
      (
        elim sb [
          | none ↦ false
          | some st ↦ if dev != st.st_rdev then false else type == bit_and st.st_mode s_ifmt
        ],
        s',
      )

  -- `while ((dirp = z_readdir(dp)))`, with the state of the directory that is closed behind it. The
  -- result says whether the name was stored.
  unfoldable pub devname_loop :
      ℕ → (fuel dev type buf len path : ℕ) → Dir → Sys σ → Option (Bool × Dir × Sys σ)
  unfolding is_device z_memmove z_strncpy read_le
  devname_loop zero fuel dev type buf len path d s = none
  devname_loop (suc entries) fuel dev type buf len path d s = do
    (entry, d₁, s₁) ← z_readdir k fuel d s
    elim entry [
      | none ↦ some (false, d₁, s₁)
      | some dirp ↦
          (let namlen = d_namlen s₁.mem dirp in
            let s₂ : Sys σ = record s₁ {
              mem = z_memmove s₁.mem (path + 5) (d_name dirp) (namlen + 1);
            } in
            let (device, s₃) = is_device dev type path s₂ in
            let rest = devname_loop entries fuel dev type buf len path d₁ s₃ in
            if not device
            then rest
            else if ltb len (namlen + 1)
            then some (false, d₁, s₃)
            else some (
              true,
              d₁,
              record s₃ { mem = z_strncpy s₃.mem buf (d_name dirp) dirent_maxpathlen },
            ))
    ]

  -- `path` is the address of `_buf`, `dev_path` that of "/dev/" and `dot` that of ".", and `dir_size`
  -- is the size of the structures that z_opendir allocates.
  unfoldable pub z_devname_r :
      (dir_size dot dev_path path : ℕ) → (fuel dev type buf len : ℕ) → Sys σ → Option (Bool × Sys σ)
  unfolding devname_loop z_opendir z_closedir z_strncpy
  z_devname_r dir_size dot dev_path path fuel dev type buf len s =
      let (dp, s₁) =
        z_opendir k dir_size dot dev_path (record s { mem = z_strncpy s.mem path dev_path 5 }) in
      elim dp [
        | none ↦ some (false, s₁)
        | some (dirp, d) ↦ (do
          (found, d', s₂) ← devname_loop fuel fuel dev type buf len path d s₁
          some (found, (z_closedir k dir_size dirp d' s₂).1))
      ]

  -- `buf` is the static pointer, 0 before the first call, and the result has its new value.
  unfoldable pub z_devname :
      (dir_size dot dev_path path : ℕ)
      → (fuel buf dev type : ℕ) → Sys σ
      → Option ((Option ℕ × ℕ) × Sys σ)
  unfolding z_devname_r allocate
  z_devname dir_size dot dev_path path fuel buf dev type s =
      let (p, s₁) = if buf == 0 then allocate k maxnamlen s else (some buf, s) in
      elim p [
        | none ↦ some ((none, 0), s₁)
        | some b ↦ (do
          (found, s₂) ← z_devname_r dir_size dot dev_path path fuel dev type b maxnamlen s₁
          some ((if found then some b else none, b), s₂))
      ]

  -- The buffer for z_ttyname, cleared when it is new; sizeof(_PATH_DEV) + MAXNAMLEN is 261. A null
  -- pointer is written through, `none`.
  unfoldable pub ttyname_buffer : (buf : ℕ) → Sys σ → Option (ℕ × Sys σ)
  unfolding allocate
  ttyname_buffer buf s =
      let (p, s₁) = allocate k (6 + maxnamlen) s in
      if buf != 0 then some (buf, s) else elim p [
        | none ↦ none
        | some b ↦ some (b, record s₁ { mem = z_memset s₁.mem b 0 (6 + maxnamlen) })
      ]

  -- The name of a character device behind "/dev/"; ERANGE is 34.
  unfoldable pub ttyname_device :
      (dir_size dot dev_path path : ℕ)
      → (fuel buf : ℕ) → Stat
      → Sys σ
      → Option ((Option ℕ × ℕ) × Sys σ)
  unfolding ttyname_buffer z_devname_r z_strncpy z_strlen
  ttyname_device dir_size dot dev_path path fuel buf sb s = do
    (b, s₁) ← ttyname_buffer buf s
    let s₂ : Sys σ = record s₁ { mem = z_strncpy s₁.mem b dev_path (6 + maxnamlen) }
    len ← z_strlen fuel s₂.mem b
    (found, s₃) ←
        z_devname_r dir_size dot dev_path path fuel sb.st_rdev s_ifchr (b + len)
          (6 + maxnamlen - len) s₂
    some (if found then ((some b, b), s₃) else ((none, b), record s₃ { errno = 34 }))

  -- ENOTTY is 25.
  unfoldable pub z_ttyname :
      (dir_size dot dev_path path : ℕ) → (fuel buf fd : ℕ) → Sys σ → Option ((Option ℕ × ℕ) × Sys σ)
  unfolding ttyname_device
  z_ttyname dir_size dot dev_path path fuel buf fd s =
      let (terminal, s₁) = n.tcgetattr fd s in
      let (sb, s₂) = n.fstat (some fd) s₁ in
      if not terminal then some ((none, buf), s₁) else elim sb [
        | none ↦ some ((none, buf), s₂)
        | some st ↦
            if bit_and st.st_mode s_ifmt == s_ifchr
            then ttyname_device dir_size dot dev_path path fuel buf st s₂
            else some ((none, buf), record s₂ { errno = 25 })
      ]
