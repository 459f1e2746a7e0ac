-- ===== src/Stream/Open.antt =====
-- The opening of streams in z_stdio.c: _z_sflags and z_fopen, with z_puts and the streams that are
-- always open.
use lib_system_call.Base.{
  ℕ, ◌+◌, Option, none, some, bit_or, bit_and, ltb, ◌==◌, ◌!=◌, if◌then◌else◌,
}
use lib_system_call.Memory.{Mem}
use lib_system_call.Str.{z_strlen, ◌>>=◌}
use lib_system_call.Stream.{File, Io, Functions, z_sseek, srd, swr, srw, snbf}

-- The flags of an open file in z_fcntl.h.
abbrev pub o_wronly : ℕ
o_wronly = 0x1

abbrev pub o_rdwr : ℕ
o_rdwr = 0x2

abbrev pub o_append : ℕ
o_append = 0x8

abbrev pub o_creat : ℕ
o_creat = 0x200

abbrev pub o_trunc : ℕ
o_trunc = 0x400

abbrev pub o_excl : ℕ
o_excl = 0x800

-- `ret`, `m` and `o` for the first character, or nothing for an illegal one. O_RDONLY is 0.
unfoldable pub base_mode : (c : ℕ) → Option (ℕ × ℕ × ℕ)
base_mode c =
    if c == b'r'
    then some (srd, 0, 0)
    else if c == b'w'
    then some (swr, o_wronly, bit_or o_creat o_trunc)
    else if c == b'a'
    then some (swr, o_wronly, bit_or o_creat o_append)
    else none

-- Behind the first character, where `mode` points: the flags and `*optr`.
unfoldable pub mode_suffix : Mem → (mode ret m o : ℕ) → ℕ × ℕ
mode_suffix mem mode ret m o =
    let mode₁ = if mem mode == b'b' then mode + 1 else mode in
    let plus = mem mode₁ == b'+' in
    let ret₁ = if plus then srw else ret in
    let m₁ = if plus then o_rdwr else m in
    let mode₂ =
      if plus then (if mem (mode₁ + 1) == b'b' then mode₁ + 2 else mode₁ + 1) else mode₁ in
    let o₁ = if mem mode₂ == b'x' then bit_or o o_excl else o in (ret₁, bit_or m₁ o₁)

-- Nothing stands for the result 0, with which `z_errno` is EINVAL, 22, and `*optr` is not stored.
unfoldable pub z_sflags : {σ : Type 0} → (mode : ℕ) → Io σ → Option (ℕ × ℕ) × Io σ
unfolding base_mode mode_suffix
z_sflags mode s = elim (base_mode (s.mem mode)) [
  | none ↦ (none, record s { errno = 22 })
  | some (ret, m, o) ↦ (some (mode_suffix s.mem (mode + 1) ret m o), s)
]

-- How `z_fopen` ends: with a null pointer as its result, with the stream at `fp`, or with a write
-- through a null pointer.
pub data Opening (σ : Type 0) : Type 0 where
  null_pointer : Io σ → Opening σ
  opened_stream : (fp : ℕ) → File → Io σ → Opening σ
  null_write : Io σ → Opening σ

-- `SHRT_MAX`.
abbrev short_max : ℕ
short_max = 32767

-- `z_fopen` behind a successful open of the descriptor `f`, for a pointer `fp` at which `old` lies.
-- Both ways begin with a write through `fp`. EMFILE is 24 and SEEK_END 2.
unfoldable pub fill_stream :
    {σ : Type 0}
    → (k : Functions σ) → (close_file : ℕ → Io σ → Io σ) → (fp : ℕ) → (old : File)
    → (f flags oflags : ℕ) → Io σ
    → Opening σ
unfolding z_sseek
fill_stream k close_file fp old f flags oflags s =
    let filled : File = record old { flags = flags } in
    if fp == 0
    then null_write s
    else if ltb short_max f
    then null_pointer (record (close_file f s) { errno = 24 })
    else if bit_and oflags o_append != 0
    then (let (ret, sought, s') = z_sseek k 0 2 filled s in opened_stream fp sought s')
    else opened_stream fp filled s

-- `z_fopen` behind `_z_sflags`. `open_file` is z_open with DEFFILEMODE, which returns a descriptor or
-- nothing, and `close_file` is z_close. `k` are the functions of a stream on a descriptor, and
-- `file_at` what lies at a pointer. `fp` was initialised with a null pointer.
unfoldable pub open_flags :
    {σ : Type 0}
    → (k : ℕ → Functions σ) → (open_file : (file oflags : ℕ) → Io σ → Option ℕ × Io σ)
    → (close_file : ℕ → Io σ → Io σ) → (file_at : ℕ → File) → (file : ℕ) → Option (ℕ × ℕ) × Io σ
    → Opening σ
unfolding fill_stream
open_flags k open_file close_file file_at file (none, s) = null_pointer s
open_flags k open_file close_file file_at file (some (ret, oflags), s) =
    let fp : ℕ = 0 in
    let (f, s') = open_file file oflags s in
    elim f [
      | none ↦ null_pointer s'
      | some fd ↦ fill_stream (k fd) close_file fp (file_at fp) fd ret oflags s'
    ]

unfoldable pub z_fopen :
    {σ : Type 0}
    → (k : ℕ → Functions σ) → (open_file : (file oflags : ℕ) → Io σ → Option ℕ × Io σ)
    → (close_file : ℕ → Io σ → Io σ) → (file_at : ℕ → File) → (file mode : ℕ) → Io σ
    → Opening σ
unfolding z_sflags open_flags
z_fopen k open_file close_file file_at file mode s =
    open_flags k open_file close_file file_at file (z_sflags mode s)

-- The vector of pieces is set up from the text and a line's end, and the call that would write it
-- is commented out: `null` is the address of "(null)". The result is always 0, with the number of
-- bytes left.
unfoldable pub z_puts : {σ : Type 0} → (fuel null text : ℕ) → Io σ → Option (ℕ × ℕ × Io σ)
unfolding z_strlen
z_puts fuel null text s = do
  c ← z_strlen fuel s.mem (if text == 0 then null else text)
  some (0, c + 1, s)

-- The streams of the descriptors 0, 1 and 2, by their flags; all else is zero.
abbrev pub standard_stream : (flags : ℕ) → File
standard_stream flags = record {
  position = 0;
  read_left = 0;
  write_left = 0;
  flags = flags;
  base = 0;
  size = 0;
  lbfsize = 0;
  offset = 0;
}

abbrev pub z_stdin : File
z_stdin = standard_stream srd

abbrev pub z_stdout : File
z_stdout = standard_stream swr

abbrev pub z_stderr : File
z_stderr = standard_stream (bit_or swr snbf)
