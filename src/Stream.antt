-- ===== src/Stream.antt =====
-- The streams of z_stdio.c: reading, seeking, writing and flushing. The `_seek` of each stream is
-- `_z_sseek`.
pub mod Chars
pub mod Flush
pub mod Open
pub mod Modes
pub mod Reading
pub mod Writing
pub mod Delivery
use lib_system_call.Base.{
  ℕ, zero, suc, ◌+◌, ◌-◌, ◌^◌, ◌%◌, Bool, true, false, ◌&&◌, ◌||◌, not, Option, none, some, leb,
  ltb, ◌==◌, ◌!=◌, bit_and, bit_or, if◌then◌else◌,
}
use lib_system_call.Memory.{Mem}

-- The fields of `struct z_file` that the functions use. `_r`, `_w` and `_lbfsize` are patterns of 32
-- bits.
pub record File : Type 0 where
  pub position : ℕ
  pub read_left : ℕ
  pub write_left : ℕ
  pub flags : ℕ
  pub base : ℕ
  pub size : ℕ
  pub lbfsize : ℕ
  pub offset : ℕ

-- The memory, `z_errno`, and what the kernel holds.
pub record Io (σ : Type 0) : Type 0 where
  pub mem : Mem
  pub errno : ℕ
  pub system : σ

-- The functions of a stream. Nothing stands for a negative result; an offset is a pattern of 64
-- bits.
pub record Functions (σ : Type 0) : Type 0 where
  pub read : (buf n : ℕ) → Io σ → Option ℕ × Io σ
  pub write_out : (buf n : ℕ) → Io σ → Option ℕ × Io σ
  pub has_seek : Bool
  pub seek : (offset whence : ℕ) → Io σ → Option ℕ × Io σ

-- The bits of `_flags`.
abbrev pub slbf : ℕ
slbf = 0x1

abbrev pub snbf : ℕ
snbf = 0x2

abbrev pub srd : ℕ
srd = 0x4

abbrev pub swr : ℕ
swr = 0x8

abbrev pub srw : ℕ
srw = 0x10

abbrev pub seof : ℕ
seof = 0x20

abbrev pub serr : ℕ
serr = 0x40

abbrev pub sapp : ℕ
sapp = 0x100

abbrev pub sopt : ℕ
sopt = 0x400

abbrev pub soff : ℕ
soff = 0x1000

abbrev pub smod : ℕ
smod = 0x2000

abbrev pub off_max : ℕ
off_max = 2 ^ 63 - 1

abbrev pub has : (bit : ℕ) → File → Bool
has bit fp = bit_and fp.flags bit != 0

abbrev pub raise_flag : (bit : ℕ) → File → File
raise_flag bit fp = record fp { flags = bit_or fp.flags bit }

-- `fp->_flags &= ~bit`, of one bit.
abbrev pub clear_flag : (bit : ℕ) → File → File
clear_flag bit fp = if has bit fp then record fp { flags = fp.flags - bit } else fp

module _ {σ : Type 0} (k : Functions σ) where
  unfoldable pub z_sread : (buf n : ℕ) → File → Io σ → Option ℕ × File × Io σ
  z_sread buf n fp s =
      let (ret, s') = k.read buf n s in
      elim ret [
        | none ↦ (none, clear_flag soff fp, s')
        | some got ↦
            if got != 0 && has soff fp
            then if leb (fp.offset + got) off_max
              then (some got, record fp { offset = fp.offset + got }, s')
              else (some got, clear_flag soff fp, s')
            else (some got, fp, s')
      ]

  -- A seek that fails without an error number went to a negative offset. EINVAL is 22 and ESPIPE 29.
  unfoldable pub seek_failed : (errret offset whence : ℕ) → File → Io σ → File × Io σ
  seek_failed errret offset whence fp s =
      if errret == 0
      then (let rewound : File =
            if offset != 0 || whence != 1
            then clear_flag seof (record fp { position = fp.base; read_left = 0 })
            else fp in
          (clear_flag soff (raise_flag serr rewound), record s { errno = 22 }))
      else if errret == 29
      then (clear_flag soff (clear_flag sapp fp), s)
      else (clear_flag soff fp, s)

  unfoldable pub z_sseek : (offset whence : ℕ) → File → Io σ → Option ℕ × File × Io σ
  unfolding seek_failed
  z_sseek offset whence fp s =
      let (ret, s₁) = k.seek offset whence (record s { errno = 0 }) in
      let s₂ : Io σ = if s₁.errno == 0 then record s₁ { errno = s.errno } else s₁ in
      elim ret [
        | none ↦ (let (fp', s₃) = seek_failed s₁.errno offset whence fp s₂ in (none, fp', s₃))
        | some at ↦
            if has sopt fp
            then (some at, record (raise_flag soff fp) { offset = at }, s₂)
            else (some at, fp, s₂)
      ]

  -- The write itself, and the offset behind it.
  unfoldable pub write_at : (buf n : ℕ) → File → Io σ → Option ℕ × File × Io σ
  write_at buf n fp s =
      let (ret, s') = k.write_out buf n s in
      elim ret [
        | none ↦ (none, clear_flag soff fp, s')
        | some done ↦
            if has sapp fp && has soff fp && leb (fp.offset + done) off_max
            then (some done, record fp { offset = fp.offset + done }, s')
            else (some done, clear_flag soff fp, s')
      ]

  unfoldable pub z_swrite : (buf n : ℕ) → File → Io σ → Option ℕ × File × Io σ
  unfolding z_sseek write_at
  z_swrite buf n fp s =
      if has sapp fp
      then (let (ret, fp₁, s₁) = z_sseek 0 2 fp s in
          let failed : Bool = elim ret [ none ↦ has sopt fp₁ | some at ↦ false ] in
          if failed then (none, fp₁, s₁) else write_at buf n fp₁ (record s₁ { errno = s.errno }))
      else write_at buf n fp s

  -- `for (; n > 0; n -= t, p += t)`, on fuel. `t` is a z_uint64, so that it is at most 0 only when
  -- nothing was written, and a failed write counts as 2 ^ 64 - 1 bytes.
  unfoldable pub flush_loop : ℕ → (p n : ℕ) → File → Io σ → Option (Bool × File × Io σ)
  unfolding z_swrite
  flush_loop zero p n fp s = none
  flush_loop (suc fuel) p n fp s =
      let (ret, fp', s') = z_swrite p (n % 2 ^ 32) fp s in
      let t : ℕ = elim ret [ none ↦ 2 ^ 64 - 1 | some done ↦ done ] in
      elim (n == 0) [
        | true ↦ some (true, fp, s)
        | false ↦ elim (t == 0) [
          | true ↦ some (false, raise_flag serr fp', s')
          | false ↦ flush_loop fuel ((p + t) % 2 ^ 64) ((n + 2 ^ 64 - t) % 2 ^ 64) fp' s'
        ]
      ]

  -- A stream that is read gives back what it has not handed out.
  unfoldable pub flush_reading : File → Io σ → Bool × File × Io σ
  flush_reading fp s =
      if not k.has_seek || fp.read_left == 0
      then (true, fp, s)
      else (let n =
            if leb (2 ^ 31) fp.read_left then 2 ^ 64 - 2 ^ 32 + fp.read_left else fp.read_left in
          let (ret, s') = k.seek (2 ^ 64 - n) 1 s in
          elim ret [
            | none ↦ (s'.errno == 29, fp, s')
            | some at ↦
                (true, clear_flag seof (record fp { position = fp.base; read_left = 0 }), s')
          ])

  -- `true` stands for 0.
  unfoldable pub z_sflush : ℕ → File → Io σ → Option (Bool × File × Io σ)
  unfolding flush_reading flush_loop
  z_sflush fuel fp s =
      let w = if has slbf fp || has snbf fp then 0 else fp.size in
      if fp.base == 0
      then some (true, fp, s)
      else if has srd fp
      then some (flush_reading fp s)
      else if has swr fp
      then flush_loop fuel fp.base ((fp.position + 2 ^ 64 - fp.base) % 2 ^ 64)
          (record fp { position = fp.base; write_left = w }) s
      else some (true, fp, s)

  unfoldable pub z_lflush : ℕ → File → Io σ → Option (Bool × File × Io σ)
  unfolding z_sflush
  z_lflush fuel fp s = if has slbf fp && has swr fp then z_sflush fuel fp s else some (true, fp, s)

  unfoldable pub z_fflush : ℕ → File → Io σ → Option (Bool × File × Io σ)
  unfolding z_sflush
  z_fflush fuel fp s = if has swr fp || has srw fp then z_sflush fuel fp s else some (true, fp, s)
