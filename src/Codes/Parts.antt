-- ===== src/Codes/Parts.antt =====
-- The values that are packed into one number are read back.
use native.Mathlib.Nat.{
  pow-suc, pow-zero, pow-le-pow_right, mul_assoc, mul_comm, mod-add-div, mod-lt, mod-eq_of_lt,
  add-mul-mod_self_left,
}
use lib_system_call.Base.{
  ℕ, zero, suc, ◌+◌, ◌-◌, ◌*◌, ◌/◌, ◌^◌, ◌%◌, ◌≤◌, ◌<◌, ◌≡◌, ◌∙◌, ap, sym, Bool, ◌==◌, bit_and,
  bit_or, arith, refl, if◌then◌else◌,
}
use lib_system_call.Codes.{
  wstatus, wstopsig, wexitstatus, wifcontinued, wifstopped, wifexited, wifsignaled, wtermsig,
  w_exitcode, w_stopcode, iocparm_mask, iocparm_len, iocgroup, ioc,
}
use lib_system_call.Base.Bits.{and_digit, or_digit, and-zero}

or-zero_below : (n a : ℕ) → a ≤ n → bit_or a 0 ≡ a
or-zero_below n zero h = refl
or-zero_below zero (suc a) h = absurd (omega arith)
or-zero_below (suc n) (suc a) h =
    omega (arith, or_digit (suc a) 0, or-zero_below n (suc a / 2) (omega arith))

-- Bits that do not meet are added.
or_apart : (k a b : ℕ) → a < 2 ^ k → bit_or (b * 2 ^ k) a ≡ b * 2 ^ k + a
or_apart zero a b h =
    let nothing : a ≡ 0 = omega (arith, h) in
    rw nothing (or-zero_below (b * 1) (b * 1) (omega arith) ∙ omega arith)
or_apart (suc k) a b h =
    let twice : 2 ^ suc k ≡ 2 * 2 ^ k = omega (arith, pow-suc 2 k) in
    let double : b * 2 ^ suc k ≡ 2 * (b * 2 ^ k) =
      rw twice (sym (mul_assoc b 2 (2 ^ k)) ∙ rw (mul_comm b 2) (mul_assoc 2 b (2 ^ k))) in
    let half = or_apart k (a / 2) b (omega (arith, twice, h)) in
    let even : 2 * (b * 2 ^ k) / 2 ≡ b * 2 ^ k = omega arith in
    let digit = or_digit (2 * (b * 2 ^ k)) a in rw double (digit ∙ rw (even, half) (ground arith))

doubled_mod : (a p : ℕ) → 0 < p → a % (2 * p) ≡ a / 2 % p * 2 + a % 2
doubled_mod a p some_modulus =
    let whole = mod-add-div (a / 2) p in
    let parts : a ≡ a / 2 % p * 2 + a % 2 + 2 * p * (a / 2 / p) =
      omega (arith, whole, mul_assoc 2 p (a / 2 / p)) in
    let below = mod-lt (a / 2) some_modulus in
    ap (λ x. x % (2 * p)) parts
    ∙ add-mul-mod_self_left (a / 2 % p * 2 + a % 2) (2 * p) (a / 2 / p)
    ∙ mod-eq_of_lt (omega (arith, below))

-- The low bits are a remainder.
and_mask : (k a : ℕ) → bit_and a (2 ^ k - 1) ≡ a % 2 ^ k
and_mask zero a = and-zero a ∙ omega (arith, pow-zero 2)
and_mask (suc k) a =
    let twice : 2 ^ suc k ≡ 2 * 2 ^ k = omega (arith, pow-suc 2 k) in
    let there : 0 < 2 ^ k =
      omega (arith, pow-le-pow_right {n = 2} (omega arith) {i = 0} {j = k} (omega arith)) in
    let above : (2 * 2 ^ k - 1) / 2 ≡ 2 ^ k - 1 = omega (arith, there) in
    let odd : (2 * 2 ^ k - 1) % 2 ≡ 1 = omega (arith, there) in
    rw twice (
      and_digit a (2 * 2 ^ k - 1)
      ∙ rw (above, odd, and_mask k (a / 2)) (ground (arith, doubled_mod a (2 ^ k) there)))

wstatus_low : (x : ℕ) → wstatus x ≡ x % 2 ^ 7
wstatus_low x = and_mask 7 x

w_exitcode_sum : (ret sig : ℕ) → ret < 2 ^ 23 → sig < 2 ^ 7 → w_exitcode ret sig ≡ ret * 2 ^ 8 + sig
w_exitcode_sum ret sig small few =
    let whole : ret * 2 ^ 8 % 2 ^ 32 ≡ ret * 2 ^ 8 = omega (arith, small) in
    rw whole (or_apart 8 sig ret (omega (arith, few)))

abbrev pub one_if : Bool → ℕ
one_if b = if b then 1 else 0

-- A status is of exactly one of the four kinds, continued, stopped, exited and signaled. From a
-- status made of an exit status below 2 ^ 23 and a signal below 128, both are read back, and it is
-- of the kind exited exactly when the signal is 0. A status made of a stop signal below 2 ^ 23
-- gives it back, and is of the kind continued exactly when the signal is 19.
pub w_exitcode-wstatus :
    (x ret sig stop : ℕ)
    → ret < 2 ^ 23
    → sig < 2 ^ 7
    → stop < 2 ^ 23
    → (one_if (wifcontinued x)
          + one_if (wifstopped x)
          + one_if (wifexited x)
          + one_if (wifsignaled x)
        ≡ 1)
      × (wexitstatus (w_exitcode ret sig) ≡ ret)
      × (wtermsig (w_exitcode ret sig) ≡ sig)
      × (wifexited (w_exitcode ret sig) ≡ (sig == 0))
      × (wstopsig (w_stopcode stop) ≡ stop)
      × (wifcontinued (w_stopcode stop) ≡ (stop == 19))
w_exitcode-wstatus x ret sig stop small few small' =
    let made = w_exitcode_sum ret sig small few in
    let stopped : w_stopcode stop ≡ stop * 2 ^ 8 + 127 =
      w_exitcode_sum stop 127 small' (omega arith) in
    let status : wstatus (ret * 2 ^ 8 + sig) ≡ sig =
      wstatus_low (ret * 2 ^ 8 + sig) ∙ omega (arith, few) in
    let status' : wstatus (stop * 2 ^ 8 + 127) ≡ 127 =
      wstatus_low (stop * 2 ^ 8 + 127) ∙ omega arith in
    (
      ground arith,
      rw made (ground (arith, small, few)),
      rw made status,
      rw made (rw status refl),
      rw stopped (ground (arith, small')),
      rw stopped (rw status' (ground (arith, small'))),
    )

-- A request made of the three bits of its direction, a group and a number below 256, and a size
-- below 2 ^ 13, gives the size and the group back; its low byte is the number, and its three
-- highest bits are the direction.
ioc-parts :
    (inout group num len : ℕ)
    → inout < 8
    → group < 2 ^ 8
    → num < 2 ^ 8
    → len < 2 ^ 13
    → (let x = ioc (inout * 2 ^ 29) group num len in
        (iocparm_len x ≡ len) × (iocgroup x ≡ group) × (x % 2 ^ 8 ≡ num) × (x / 2 ^ 29 ≡ inout))
ioc-parts inout group num len few g n l =
    let size : bit_and len iocparm_mask ≡ len = and_mask 13 len ∙ omega (arith, l) in
    let kept : group * 2 ^ 8 % 2 ^ 32 ≡ group * 2 ^ 8 = omega (arith, g) in
    let first = or_apart 29 (len * 2 ^ 16) inout (omega (arith, l)) in
    let high : inout * 2 ^ 29 + len * 2 ^ 16 ≡ (inout * 2 ^ 13 + len) * 2 ^ 16 = omega arith in
    let second = or_apart 16 (group * 2 ^ 8) (inout * 2 ^ 13 + len) (omega (arith, g)) in
    let upper : (inout * 2 ^ 13 + len) * 2 ^ 16 + group * 2 ^ 8
        ≡ ((inout * 2 ^ 13 + len) * 2 ^ 8 + group) * 2 ^ 8 =
      omega arith in
    let third = or_apart 8 num ((inout * 2 ^ 13 + len) * 2 ^ 8 + group) n in
    let whole : ioc (inout * 2 ^ 29) group num len
        ≡ ((inout * 2 ^ 13 + len) * 2 ^ 8 + group) * 2 ^ 8 + num =
      rw (size, kept, first, high, second, upper) third in
    (
      rw whole (and_mask 13 _ ∙ omega (arith, l, g, n)),
      rw whole (and_mask 8 _ ∙ omega (arith, l, g, n)),
      rw whole (omega (arith, n)),
      rw whole (omega (arith, l, g, n)),
    )
