-- ===== src/Stream/Writing.antt =====
-- Streams that are written through a buffer: z_fflush, and a character put into the buffer.
use lib_system_call.Base.{
  ℕ, zero, suc, ◌+◌, ◌-◌, ◌^◌, ◌%◌, ◌≤◌, ◌<◌, ◌≡◌, ◌≢◌, ◌⊎◌, Bool, true, false, List, [], ◌∷◌, ◌++◌,
  Option, some, ◌==◌, arith, refl, sym, ap, ◌∙◌, append_assoc, append_nil, Bool-cases, inl, inr,
}
use lib_system_call.Memory.{Mem, write, bytes_at}
use lib_system_call.Stream.{
  File, Io, Functions, has, slbf, snbf, srd, swr, sapp, soff, z_sflush, z_fflush, flush_loop,
}
use lib_system_call.Stream.Flush.{MakesProgress, flush_loop-output, bytes_at-append}
use lib_system_call.Stream.Chars.{swbuf_put}

bytes_at-write :
    (n : ℕ) (m : Mem) (p a v : ℕ) → p + n ≤ a → bytes_at (write m a v) p n ≡ bytes_at m p n
bytes_at-write zero m p a v behind = refl
bytes_at-write (suc n) m p a v behind =
    let other : p == a ≡ false = ground (arith, behind) in
    rw other (ap (λ xs. m p ∷ xs) (bytes_at-write n m (p + 1) a v (omega (arith, behind))))

-- One more byte, put behind the others.
bytes_at-put :
    (n : ℕ) (m : Mem) (p v : ℕ) → bytes_at (write m (p + n) v) p (n + 1) ≡ bytes_at m p n ++ v ∷ []
bytes_at-put n m p v =
    let here : (p + n) == (p + n) ≡ true = ground arith in
    bytes_at-append (write m (p + n) v) p n 1
    ∙ rw (bytes_at-write n m p (p + n) v (omega arith)) (rw here refl)

module _ {σ : Type 0} (k : Functions σ) (output : σ → List ℕ) where
  -- The stream is open for writing only, with a buffer of its own, which is not flushed behind each
  -- line, and it neither appends nor keeps its offset.
  abbrev pub IsWriting : File → Type 0
  IsWriting fp =
      (has swr fp ≡ true)
      × (has srd fp ≡ false)
      × (has slbf fp ≡ false)
      × (has snbf fp ≡ false)
      × (has sapp fp ≡ false)
      × (has soff fp ≡ false)
      × (fp.lbfsize ≡ 0)
      × (fp.base ≢ 0)
      × (0 < fp.size)
      × (fp.size < 2 ^ 31)
      × (fp.base + fp.size < 2 ^ 64)

  -- `ys` is what has been put so far: what is out, and the bytes in the buffer. The room that
  -- `_w` counts is there, unless `_w` is negative.
  abbrev pub Holds : File → Io σ → List ℕ → Type 0
  Holds fp s ys =
      (fp.base ≤ fp.position)
      × (fp.position ≤ fp.base + fp.size)
      × ((fp.position + fp.write_left ≤ fp.base + fp.size)
          ⊎ ((2 ^ 31 < fp.write_left) × (fp.write_left < 2 ^ 32)))
      × (ys ≡ output s.system ++ bytes_at s.mem fp.base (fp.position - fp.base))

  -- Such a stream is flushed by the loop of z_sflush, over what is in the buffer.
  z_fflush-flush_loop :
      (fuel : ℕ) (fp : File) (s : Io σ) (r : Option (Bool × File × Io σ))
      → IsWriting fp
      → fp.base ≤ fp.position
      → fp.position ≤ fp.base + fp.size
      → flush_loop k fuel fp.base
          (fp.position - fp.base)
          (record fp { position = fp.base; write_left = fp.size })
          s
        ≡ r
      → z_fflush k fuel fp s ≡ r
  unfolding z_fflush z_sflush
  z_fflush-flush_loop fuel fp s r w low high run =
      let (
        writing, no_read, no_line, buffered, plain, untracked, lbf, some_base, pos, small, inside,
      ) =
        w in
      let used : (fp.position + 2 ^ 64 - fp.base) % 2 ^ 64 ≡ fp.position - fp.base =
        omega (arith, low, high, inside) in
      let no_null : fp.base == 0 ≡ false = ground (arith, some_base) in
      rw writing (rw no_null (rw no_read (rw (no_line, buffered, used) run)))

  pub z_fflush_out :
      (fuel : ℕ) (fp : File) (s : Io σ) (ys : List ℕ)
      → MakesProgress k output
      → IsWriting fp
      → Holds fp s ys
      → fp.size < fuel
      → (s' : Io σ) × (z_fflush k fuel fp s
          ≡ some (true, record fp { position = fp.base; write_left = fp.size }, s'))
        × (output s'.system ≡ ys)
        × (s'.mem ≡ s.mem)
  z_fflush_out fuel fp s ys writes w (low, high, room, all) enough =
      let (
        writing, no_read, no_line, buffered, plain, untracked, lbf, some_base, pos, small, inside,
      ) =
        w in
      let (s', run, out, kept) =
        flush_loop-output k output fuel fp.base (fp.position - fp.base)
          (record fp { position = fp.base; write_left = fp.size }) s writes plain untracked
          (omega (arith, enough, high)) (omega (arith, small, high))
          (omega (arith, inside, high)) in
      (s', z_fflush-flush_loop fuel fp s _ w low high run, out ∙ sym all, kept)

  -- A byte put into a buffer with room for it, whatever is left in `_w`.
  pub Holds-put :
      (c left : ℕ) (fp : File) (s s' : Io σ) (ys : List ℕ)
      → Holds fp s ys
      → fp.position < fp.base + fp.size
      → (fp.position + 1 + left ≤ fp.base + fp.size) ⊎ ((2 ^ 31 < left) × (left < 2 ^ 32))
      → s' ≡ record s { mem = write s.mem fp.position c }
      → Holds (record fp { position = fp.position + 1; write_left = left }) s' (ys ++ c ∷ [])
  Holds-put c left fp s s' ys (low, high, room, all) free room' same =
      let used : fp.base + (fp.position - fp.base) ≡ fp.position = omega (arith, low) in
      let more : fp.position + 1 - fp.base ≡ fp.position - fp.base + 1 = omega (arith, low) in
      let stored : bytes_at (write s.mem fp.position c) fp.base (fp.position - fp.base + 1)
          ≡ bytes_at s.mem fp.base (fp.position - fp.base) ++ c ∷ [] =
        ap (λ q. bytes_at (write s.mem q c) fp.base (fp.position - fp.base + 1)) (sym used)
        ∙ bytes_at-put (fp.position - fp.base) s.mem fp.base c in
      (
        omega (arith, low),
        omega (arith, free),
        room',
        rw (same, more, all)
            (append_assoc (output s.system) (bytes_at s.mem fp.base (fp.position - fp.base))
                (c ∷ [])
              ∙ ap (λ xs. output s.system ++ xs) (sym stored)),
      )

  pub Holds-flushed :
      (fp : File) (s : Io σ) (ys : List ℕ)
      → output s.system ≡ ys
      → Holds (record fp { position = fp.base; write_left = fp.size }) s ys
  Holds-flushed fp s ys out =
      let none_left : fp.base - fp.base ≡ 0 = omega arith in
      (omega arith, omega arith, inl (omega arith), rw (none_left, out) (sym (append_nil ys)))

  -- `c` has been put behind `ys`, and the stream goes on.
  abbrev pub Puts : Option (Option ℕ × File × Io σ) → (c size : ℕ) → List ℕ → Type 0
  Puts result c size ys =
      (fp' : File) × (s' : Io σ) × (result ≡ some (some c, fp', s'))
      × IsWriting fp'
      × (fp'.size ≡ size)
      × Holds fp' s' (ys ++ c ∷ [])

  pub swbuf_put-Puts :
      (fuel c : ℕ) (fp : File) (s : Io σ) (ys : List ℕ)
      → MakesProgress k output
      → IsWriting fp
      → Holds fp s ys
      → fp.size < fuel
      → fp.position < fp.base + fp.size
      → fp.position + fp.write_left ≤ fp.base + fp.size
      → Puts (swbuf_put k fuel c (fp.position - fp.base) fp s) c fp.size ys
  unfolding swbuf_put
  swbuf_put-Puts fuel c fp s ys writes w held enough free room =
      let left = (fp.write_left + 2 ^ 32 - 1) % 2 ^ 32 in
      let fp₁ : File = record fp { position = fp.position + 1; write_left = left } in
      let s₁ : Io σ = record s { mem = write s.mem fp.position c } in
      let held₁ : Holds fp₁ s₁ (ys ++ c ∷ []) =
        Holds-put c left fp s s₁ ys held free (ground (arith, room, free)) refl in
      elim (Bool-cases (fp.position - fp.base + 1 == fp.size)) [
        | inl full ↦
            let (s₂, run, out, kept) =
              z_fflush_out fuel fp₁ s₁ (ys ++ c ∷ []) writes w held₁ enough in
            (
              record fp { position = fp.base; write_left = fp.size },
              s₂,
              rw full (rw run refl),
              w,
              refl,
              Holds-flushed fp s₂ (ys ++ c ∷ []) out,
            )
        | inr part ↦ (fp₁, s₁, rw part (rw (w.2) refl), w, refl, held₁)
      ]
