-- ===== src/Dir.antt =====
-- Directories: z_readdir of z_dirent.c, with what it shares with z_opendir and z_closedir.
pub mod Entries
pub mod Fill
pub mod Read
pub mod Open
pub mod Opened
pub mod Union
pub mod Zap
pub mod Duplicates
use lib_system_call.Base.{
  ℕ, zero, suc, ◌+◌, ◌-◌, ◌*◌, ◌%◌, Bool, true, false, not, ◌&&◌, ◌||◌, Option, none, some, ltb,
  leb, ◌==◌, ◌!=◌, if◌then◌else◌,
}
use lib_system_call.Memory.{Mem}
use lib_system_call.Bytes.{z_memset}
use lib_system_call.Str.{z_malloc}

-- The bits of `__dd_flags`.
pub record Flags : Type 0 where
  pub hidew : Bool
  pub nodup : Bool
  pub readall : Bool
  pub skipread : Bool
  pub atend : Bool

-- `struct z_dir` with its `struct z_telldir`. A size that is `none` is -1. `lh_first` is the first
-- of the stored positions, as its `loc_loc` and its `loc_seek`.
pub record Dir : Type 0 where
  pub dd_fd : ℕ
  pub dd_loc : ℕ
  pub dd_size : Option ℕ
  pub dd_buf : ℕ
  pub dd_len : ℕ
  pub dd_flags : Flags
  pub seekoff : ℕ
  pub lh_first : Option (ℕ × ℕ)

-- The memory, `z_errno`, and what the kernel holds.
pub record Sys (σ : Type 0) : Type 0 where
  pub mem : Mem
  pub errno : ℕ
  pub system : σ

-- The requests that the functions make. `getdirentries` takes the descriptor, the buffer, its size
-- and `*basep`, and returns the number of bytes, or nothing where it fails, with the new `*basep`.
-- A descriptor that is `none` is -1. `sysctl` is the number that `z_sysctlbyname` stores, or 0, for
-- "kern.secure_kernel", and `fstatfs` gives `f_flags`.
pub record Requests (σ : Type 0) : Type 0 where
  pub getdirentries : (fd buf nbytes base : ℕ) → Sys σ → (Option ℕ × ℕ) × Sys σ
  pub mmap : ℕ → Sys σ → ℕ × Sys σ
  pub munmap : (addr size : ℕ) → Sys σ → Sys σ
  pub open_file : (name flags : ℕ) → Sys σ → Option ℕ × Sys σ
  pub openat : (at name flags : ℕ) → Sys σ → Option ℕ × Sys σ
  pub close : ℕ → Sys σ → ℕ × Sys σ
  pub sysctl : Sys σ → ℕ × Sys σ
  pub fstatfs : ℕ → Sys σ → Option ℕ × Sys σ
  pub lseek : (fd offset whence : ℕ) → Sys σ → Option ℕ × Sys σ

abbrev pub readdir_initial_size : ℕ
readdir_initial_size = 2048

abbrev pub readdir_large_size : ℕ
readdir_large_size = 8192

abbrev pub dt_wht : ℕ
dt_wht = 14

-- A number of so many bytes, the least significant one first.
unfoldable pub read_le : Mem → (p : ℕ) → ℕ → ℕ
read_le m p zero = 0
read_le m p (suc n) = m p + 256 * read_le m (p + 1) n

-- The fields of `struct z_dirent`.
abbrev pub d_ino : Mem → ℕ → ℕ
d_ino m dp = read_le m dp 8

abbrev pub d_reclen : Mem → ℕ → ℕ
d_reclen m dp = read_le m (dp + 16) 2

abbrev pub d_type : Mem → ℕ → ℕ
d_type m dp = m (dp + 20)

-- `dirp->__dd_loc >= dirp->__dd_size`.
unfoldable pub is_exhausted : Dir → Bool
is_exhausted d = elim (d.dd_size) [ none ↦ true | some size ↦ leb size d.dd_loc ]

-- Only the first of the stored positions is looked at.
unfoldable pub z_fixtelldir : (oldseek oldloc : ℕ) → Dir → Dir
z_fixtelldir oldseek oldloc d = elim (d.lh_first) [
  | none ↦ d
  | some (loc, seek) ↦
      if loc == oldloc && seek == oldseek
      then record d { lh_first = some (d.dd_loc, d.seekoff) }
      else d
]

-- What one round of the loop of `z_readdir` comes to: the entry, or nothing for a null pointer, or
-- the next round with its `initial_loc`.
pub data Round (σ : Type 0) : Type 0 where
  stop : (dp : Option ℕ) (d : Dir) (s : Sys σ) → Round σ
  again : (initial_loc : ℕ) (d : Dir) (s : Sys σ) → Round σ

module _ {σ : Type 0} (k : Requests σ) where
  -- `z_free` asks to unmap as many bytes as its caller says.
  abbrev pub z_free : (addr size : ℕ) → Sys σ → Sys σ
  z_free addr size s = if addr != 0 then k.munmap addr size s else s

  -- `z_malloc` over the kernel's mapping.
  unfoldable pub allocate : ℕ → Sys σ → Option ℕ × Sys σ
  unfolding z_malloc
  allocate size s =
      let (mapped, s₁) = k.mmap size s in
      let (p, m) = z_malloc mapped s₁.mem size in (p, record s₁ { mem = m })

  -- The status word in the last bytes of the buffer is cleared, the buffer is read, and the status
  -- word is looked at where the entries end before it.
  unfoldable pub read_batch : Dir → Sys σ → Dir × Sys σ
  read_batch d s =
      let gdeflags = d.dd_buf + d.dd_len - 4 in
      let ((size, seekoff), s') =
        k.getdirentries d.dd_fd d.dd_buf d.dd_len d.seekoff
          (record s { mem = z_memset s.mem gdeflags 0 4 }) in
      let d' : Dir = record d { dd_size = size; seekoff = seekoff } in
      let before : Bool = elim size [ none ↦ false | some n ↦ leb n (d.dd_len - 4) ] in
      (
        if before && s'.mem gdeflags % 2 != 0
            then record d' { dd_flags = record d.dd_flags { atend = true } }
            else d',
        s',
      )

  -- The first buffer is exchanged for a large one, if there is memory for that.
  unfoldable pub grow : Dir → Sys σ → Dir × Sys σ
  unfolding allocate
  grow d s =
      if d.dd_len == readdir_initial_size
      then (let (p, s₁) = allocate readdir_large_size s in
          elim p [
            | none ↦ (d, s₁)
            | some buf ↦
                (record d { dd_buf = buf; dd_len = readdir_large_size }, z_free d.dd_buf 0 s₁)
          ])
      else (d, s)

  -- The round from `dp = dirp->__dd_buf + dirp->__dd_loc` on.
  unfoldable pub take_entry : (initial_loc : ℕ) → Dir → Sys σ → Round σ
  take_entry initial_loc d₀ s =
      let d : Dir = record d₀ { dd_flags = record d₀.dd_flags { skipread = false } } in
      let dp = d.dd_buf + d.dd_loc in
      let reclen = d_reclen s.mem dp in
      let d' : Dir = record d { dd_loc = d.dd_loc + reclen } in
      if dp % 4 != 0
      then stop none d s
      else if reclen == 0 || ltb (d.dd_len + 1) (d.dd_loc + reclen)
      then stop none d s
      else if d_ino s.mem dp == 0 || (d_type s.mem dp == dt_wht && d.dd_flags.hidew)
      then again initial_loc d' s
      else stop (some dp) d' s

  -- The round from the test on `__dd_loc == 0` on.
  unfoldable pub fill : (initial_loc : ℕ) → Dir → Sys σ → Round σ
  unfolding grow read_batch z_fixtelldir take_entry
  fill initial_loc d s =
      if d.dd_loc == 0 && not (d.dd_flags.readall || d.dd_flags.atend || d.dd_flags.skipread)
      then (let (d₁, s₁) = grow d s in
          let (d₂, s₂) = read_batch d₁ s₁ in
          elim (d₂.dd_size) [
            | none ↦ stop none d₂ s₂
            | some n ↦
                if n == 0
                then stop none d₂ s₂
                else take_entry initial_loc (z_fixtelldir d₁.seekoff initial_loc d₂) s₂
          ])
      else take_entry initial_loc d s

  unfoldable pub readdir_round : (initial_loc : ℕ) → Dir → Sys σ → Round σ
  unfolding is_exhausted fill
  readdir_round initial_loc d s =
      if is_exhausted d
      then if d.dd_flags.readall || d.dd_flags.atend
        then stop none d s
        else fill d.dd_loc
            (record d { dd_loc = 0; dd_flags = record d.dd_flags { skipread = false } }) s
      else fill initial_loc d s

  -- `for (;;)`, on fuel; nothing when the fuel is used up.
  unfoldable pub readdir_loop :
      ℕ → (initial_loc : ℕ) → Dir → Sys σ → Option (Option ℕ × Dir × Sys σ)
  unfolding readdir_round
  readdir_loop zero initial_loc d s = none
  readdir_loop (suc fuel) initial_loc d s = elim (readdir_round initial_loc d s) [
    | stop dp d' s' ↦ some (dp, d', s')
    | again loc d' s' ↦ readdir_loop fuel loc d' s'
  ]

  unfoldable pub z_readdir : ℕ → Dir → Sys σ → Option (Option ℕ × Dir × Sys σ)
  unfolding readdir_loop
  z_readdir fuel d s = readdir_loop fuel 0 d s
