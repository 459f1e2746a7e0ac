-- ===== src/Terminal.antt =====
-- Terminals and descriptor sets: z_termios.c, z_isatty of z_unistd.c, and z_select.c.
use lib_system_call.Base.{
  ℕ, ◌-◌, ◌/◌, ◌%◌, ◌^◌, Bool, true, false, Option, none, some, bit_and, bit_or, ◌==◌, ◌!=◌,
  if◌then◌else◌,
}

-- `struct z_termios`, with the two control characters that are written. The flags have 64 bits.
pub record Termios : Type 0 where
  pub c_iflag : ℕ
  pub c_oflag : ℕ
  pub c_cflag : ℕ
  pub c_lflag : ℕ
  pub vmin : ℕ
  pub vtime : ℕ

-- The requests TIOCSETA, TIOCSETAW and TIOCSETAF.
pub data Setting : Type 0 where
  tiocseta : Setting
  tiocsetaw : Setting
  tiocsetaf : Setting

-- The uses of `z_ioctl`, which say whether they succeed or what they store when they do, and the
-- setting of `z_errno`.
pub record Ioctl (σ : Type 0) : Type 0 where
  pub fiodtype : (fd : ℕ) → σ → Option ℕ × σ
  pub tiocgeta : (fd : ℕ) → σ → Option Termios × σ
  pub set : Setting → (fd : ℕ) → Termios → σ → Bool × σ
  pub tiocspgrp : (fd pgrp : ℕ) → σ → Bool × σ
  pub tiocgpgrp : (fd : ℕ) → σ → Option ℕ × σ
  pub set_errno : ℕ → σ → σ

abbrev pub tcsasoft : ℕ
tcsasoft = 0x10

-- D_TTY.
abbrev pub d_tty : ℕ
d_tty = 3

-- The masks that `z_cfmakeraw` clears. That of the local flags has 32 bits without a sign, because
-- of NOFLSH, so that its complement clears the upper half too.
abbrev pub raw_iflag : ℕ
raw_iflag = 0x27fe

abbrev pub raw_lflag : ℕ
raw_lflag = 0xa040059e

abbrev pub raw_cflag : ℕ
raw_cflag = 0x1300

unfoldable pub z_cfmakeraw : Termios → Termios
z_cfmakeraw t = record t {
  c_iflag = bit_or (bit_and t.c_iflag (2 ^ 64 - 1 - raw_iflag)) 1;
  c_oflag = bit_and t.c_oflag (2 ^ 64 - 1 - 1);
  c_lflag = bit_and t.c_lflag (2 ^ 32 - 1 - raw_lflag);
  c_cflag = bit_or (bit_and t.c_cflag (2 ^ 64 - 1 - raw_cflag)) 0xb00;
  vmin = 1;
  vtime = 0;
}

-- Results are `true` for 0 and `false` for -1.
module _ {σ : Type 0} (k : Ioctl σ) where
  abbrev pub z_tcgetattr : (fd : ℕ) → σ → Option Termios × σ
  z_tcgetattr fd s = k.tiocgeta fd s

  -- With TCSASOFT a copy is passed on that has CIGNORE.
  unfoldable pub z_tcsetattr : (fd opt : ℕ) → Termios → σ → Bool × σ
  z_tcsetattr fd opt t s =
      let soft = bit_and opt tcsasoft != 0 in
      let t' : Termios = if soft then record t { c_cflag = bit_or t.c_cflag 1 } else t in
      let action = if soft then opt - tcsasoft else opt in
      if action == 0
      then k.set tiocseta fd t' s
      else if action == 1
      then k.set tiocsetaw fd t' s
      else if action == 2
      then k.set tiocsetaf fd t' s
      else (false, k.set_errno 22 s)

  -- 1 or 0; ENOTTY is 25.
  unfoldable pub z_isatty : (fd : ℕ) → σ → Bool × σ
  z_isatty fd s =
      let (type, s₁) = k.fiodtype fd s in
      elim type [
        | some t ↦ if t == d_tty then (true, s₁) else (false, k.set_errno 25 s₁)
        | none ↦
            (let (got, s₂) = z_tcgetattr fd s₁ in (elim got [ none ↦ false | some t ↦ true ], s₂))
      ]

  unfoldable pub z_tcsetpgrp : (fd pgrp : ℕ) → σ → Bool × σ
  unfolding z_isatty
  z_tcsetpgrp fd pgrp s =
      let (tty, s₁) = z_isatty fd s in if tty then k.tiocspgrp fd pgrp s₁ else (false, s₁)

  -- Nothing stands for -1.
  unfoldable pub z_tcgetpgrp : (fd : ℕ) → σ → Option ℕ × σ
  unfolding z_isatty
  z_tcgetpgrp fd s = let (tty, s₁) = z_isatty fd s in if tty then k.tiocgpgrp fd s₁ else (none, s₁)

-- `fds_bits` by index; an entry is the bit pattern of a z_int32.
abbrev pub FdSet : Type 0
FdSet = ℕ → ℕ

-- The bit of a descriptor in its word of 32 bits.
abbrev pub fd_bit : ℕ → ℕ
fd_bit fd = 2 ^ (fd % 32)

-- `z_check_fd_set` is always 1.
unfoldable pub z_fd_set : (fd : ℕ) → FdSet → FdSet
z_fd_set fd p i = if i == fd / 32 then bit_or (p i) (fd_bit fd) else p i

unfoldable pub z_fd_isset : (fd : ℕ) → FdSet → ℕ
z_fd_isset fd p = bit_and (p (fd / 32)) (fd_bit fd)
