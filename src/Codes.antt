-- ===== src/Codes.antt =====
-- The numbers that the kernel packs several values into: the status of a child (z_wait.h) and the
-- requests of z_ioctl (z_ioctl.h). A status is a pattern of 32 bits.
pub mod Parts
use lib_system_call.Base.{
  ℕ, ◌+◌, ◌-◌, ◌*◌, ◌/◌, ◌^◌, ◌%◌, Bool, ◌&&◌, ltb, ◌==◌, ◌!=◌, bit_and, bit_or, if◌then◌else◌,
}

abbrev pub wcoreflag : ℕ
wcoreflag = 0x80

abbrev pub wstopped : ℕ
wstopped = 0x7f

abbrev pub wstatus : ℕ → ℕ
wstatus x = bit_and x 0x7f

-- `x >> 8` of a z_int32, which keeps the sign. WEXITSTATUS is the same, as __DARWIN_UNIX03 is not
-- defined.
abbrev pub wstopsig : ℕ → ℕ
wstopsig x = if ltb x (2 ^ 31) then x / 2 ^ 8 else x / 2 ^ 8 + (2 ^ 32 - 2 ^ 24)

abbrev pub wexitstatus : ℕ → ℕ
wexitstatus x = wstopsig x

abbrev pub wifcontinued : ℕ → Bool
wifcontinued x = wstatus x == wstopped && wstopsig x == 0x13

abbrev pub wifstopped : ℕ → Bool
wifstopped x = wstatus x == wstopped && wstopsig x != 0x13

abbrev pub wifexited : ℕ → Bool
wifexited x = wstatus x == 0

abbrev pub wifsignaled : ℕ → Bool
wifsignaled x = wstatus x != wstopped && wstatus x != 0

abbrev pub wtermsig : ℕ → ℕ
wtermsig x = wstatus x

abbrev pub wcoredump : ℕ → ℕ
wcoredump x = bit_and x wcoreflag

abbrev pub w_exitcode : (ret sig : ℕ) → ℕ
w_exitcode ret sig = bit_or (ret * 2 ^ 8 % 2 ^ 32) sig

abbrev pub w_stopcode : (sig : ℕ) → ℕ
w_stopcode sig = bit_or (sig * 2 ^ 8 % 2 ^ 32) wstopped

abbrev pub iocparm_mask : ℕ
iocparm_mask = 0x1fff

abbrev pub iocparm_len : ℕ → ℕ
iocparm_len x = bit_and (x / 2 ^ 16) iocparm_mask

-- `~(IOCPARM_MASK << 16)` on 32 bits.
abbrev pub iocbasecmd : ℕ → ℕ
iocbasecmd x = bit_and x (2 ^ 32 - 1 - iocparm_mask * 2 ^ 16)

abbrev pub iocgroup : ℕ → ℕ
iocgroup x = bit_and (x / 2 ^ 8) 0xff

abbrev pub iocparm_max : ℕ
iocparm_max = iocparm_mask + 1

abbrev pub ioc_void : ℕ
ioc_void = 0x20000000

abbrev pub ioc_out : ℕ
ioc_out = 0x40000000

abbrev pub ioc_in : ℕ
ioc_in = 0x80000000

abbrev pub ioc_inout : ℕ
ioc_inout = bit_or ioc_in ioc_out

abbrev pub ioc_dirmask : ℕ
ioc_dirmask = 0xe0000000

abbrev pub ioc : (inout group num len : ℕ) → ℕ
ioc inout group num len =
    bit_or (bit_or (bit_or inout (bit_and len iocparm_mask * 2 ^ 16)) (group * 2 ^ 8 % 2 ^ 32)) num

abbrev pub io : (g n : ℕ) → ℕ
io g n = ioc ioc_void g n 0

-- `t` is the size of the type.
abbrev pub ior : (g n t : ℕ) → ℕ
ior g n t = ioc ioc_out g n t

abbrev pub iow : (g n t : ℕ) → ℕ
iow g n t = ioc ioc_in g n t

abbrev pub iowr : (g n t : ℕ) → ℕ
iowr g n t = ioc ioc_inout g n t
