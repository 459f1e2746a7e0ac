-- ===== src/Stream/Flush.antt =====
-- What z_sflush delivers when the writes make progress.
use lib_system_call.Base.{
  ℕ, zero, suc, ◌+◌, ◌-◌, ◌^◌, ◌%◌, ◌≤◌, ◌<◌, ◌≡◌, true, false, List, ◌∷◌, ◌++◌, some, ◌==◌, arith,
  refl, sym, ap, ◌∙◌, append_assoc, append_nil, Bool-cases, inl, inr,
}
use lib_system_call.Memory.{Mem, bytes_at}
use lib_system_call.Stream.{File, Io, Functions, has, sapp, soff, write_at, z_swrite, flush_loop}

pub bytes_at-append :
    (m : Mem) (p a b : ℕ) → bytes_at m p (a + b) ≡ bytes_at m p a ++ bytes_at m (p + a) b
bytes_at-append m p zero b =
    let start : p + 0 ≡ p = omega arith in let all : 0 + b ≡ b = omega arith in rw (start, all) refl
bytes_at-append m p (suc a) b =
    let all : suc a + b ≡ suc (a + b) = omega arith in
    let behind : p + 1 + a ≡ p + suc a = omega arith in
    rw all (ap (λ xs. m p ∷ xs) (bytes_at-append m (p + 1) a b ∙ rw behind refl))

joined :
    (m m₁ : Mem) (p t n : ℕ) (before after : List ℕ)
    → m₁ ≡ m
    → after ≡ before ++ bytes_at m p t
    → t ≤ n
    → after ++ bytes_at m₁ (p + t) (n - t) ≡ before ++ bytes_at m p n
joined m m₁ p t n before after kept out fits =
    let all : t + (n - t) ≡ n = omega (arith, fits) in
    rw (kept, out)
      (append_assoc before (bytes_at m p t) (bytes_at m (p + t) (n - t))
        ∙ ap (λ xs. before ++ xs) (sym (bytes_at-append m p t (n - t)) ∙ ap (bytes_at m p) all))

module _ {σ : Type 0} (k : Functions σ) (output : σ → List ℕ) where
  -- A write of some bytes takes at least one and at most all of them, puts them out, and leaves the
  -- memory.
  abbrev pub MakesProgress : Type 0
  MakesProgress =
      (p n : ℕ) (s : Io σ)
      → 0 < n
      → (let (ret, s') = k.write_out p n s in
          (t : ℕ) × (ret ≡ some t)
          × (0 < t)
          × (t ≤ n)
          × (output s'.system ≡ output s.system ++ bytes_at s.mem p t)
          × (s'.mem ≡ s.mem))

  -- A stream neither appends nor keeps its offset, as the standard ones.
  z_swrite-MakesProgress :
      (p n : ℕ) (fp : File) (s : Io σ)
      → MakesProgress
      → 0 < n
      → has sapp fp ≡ false
      → has soff fp ≡ false
      → (t : ℕ) × (s' : Io σ) × (z_swrite k p n fp s ≡ (some t, fp, s'))
        × (0 < t)
        × (t ≤ n)
        × (output s'.system ≡ output s.system ++ bytes_at s.mem p t)
        × (s'.mem ≡ s.mem)
  unfolding z_swrite write_at
  z_swrite-MakesProgress p n fp s writes some_left plain untracked =
      let (t, done, pos, fits, out, kept) = writes p n s some_left in
      (
        t,
        (k.write_out p n s).1,
        rw (plain, write_at, done) (rw (plain, untracked) refl),
        pos,
        fits,
        out,
        kept,
      )

  flush_loop-step :
      (fuel p n t : ℕ) (fp : File) (s s₁ : Io σ)
      → z_swrite k p n fp s ≡ (some t, fp, s₁)
      → 0 < t
      → t ≤ n
      → n < 2 ^ 32
      → p + n < 2 ^ 64
      → flush_loop k (suc fuel) p n fp s ≡ flush_loop k fuel (p + t) (n - t) fp s₁
  unfolding flush_loop
  flush_loop-step fuel p n t fp s s₁ wrote pos fits small inside =
      let whole : n % 2 ^ 32 ≡ n = omega arith in
      let next : (p + t) % 2 ^ 64 ≡ p + t = omega arith in
      let left : (n + 2 ^ 64 - t) % 2 ^ 64 ≡ n - t = omega arith in
      let some_written : t == 0 ≡ false = ground arith in
      let more : n == 0 ≡ false = ground arith in
      let wrote' : z_swrite k p (n % 2 ^ 32) fp s ≡ (some t, fp, s₁) = rw whole wrote in
      rw (more, flush_loop) (rw wrote' (rw some_written (rw (wrote', next, left) refl)))

  -- A flush puts out what is between two addresses, once and in order, however the writes split
  -- it, with as much fuel as there are bytes and one unit more. The writes make progress, and the
  -- stream neither appends nor keeps its offset.
  pub flush_loop-output :
      (fuel p n : ℕ) (fp : File) (s : Io σ)
      → MakesProgress
      → has sapp fp ≡ false
      → has soff fp ≡ false
      → n < fuel
      → n < 2 ^ 32
      → p + n < 2 ^ 64
      → (s' : Io σ) × (flush_loop k fuel p n fp s ≡ some (true, fp, s'))
        × (output s'.system ≡ output s.system ++ bytes_at s.mem p n)
        × (s'.mem ≡ s.mem)
  unfolding flush_loop
  flush_loop-output zero p n fp s writes plain untracked enough small inside = absurd (omega arith)
  flush_loop-output (suc fuel) p n fp s writes plain untracked enough small inside =
      elim (Bool-cases (n == 0)) [
        | inl over ↦
            let none_left : n ≡ 0 = ground (arith, over) in
            (s, rw (over, flush_loop) refl, rw none_left (sym (append_nil (output s.system))), refl)
        | inr more ↦
            let there : 0 < n = ground (arith, more) in
            let (t, s₁, wrote, pos, fits, out, kept) =
              z_swrite-MakesProgress p n fp s writes there plain untracked in
            let (s₂, goes, out₂, kept₂) =
              flush_loop-output fuel (p + t) (n - t) fp s₁ writes plain untracked
                (omega (arith, enough, pos, fits)) (omega (arith, small))
                (omega (arith, inside, fits)) in
            (
              s₂,
              flush_loop-step fuel p n t fp s s₁ wrote pos fits small inside ∙ goes,
              out₂ ∙ joined s.mem s₁.mem p t n (output s.system) (output s₁.system) kept out fits,
              kept₂ ∙ kept,
            )
      ]
