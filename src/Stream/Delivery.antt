-- ===== src/Stream/Delivery.antt =====
-- What z_putc and z_fflush deliver to a stream that is written through its buffer.
use lib_system_call.Base.{
  ℕ, ◌+◌, ◌-◌, ◌^◌, ◌%◌, ◌≤◌, ◌<◌, ◌≡◌, Bool, true, false, List, [], ◌∷◌, ◌++◌, map, Option, none,
  some, leb, ltb, arith, refl, sym, ap, ◌∙◌, append_assoc, append_nil, Bool-cases, inl, inr,
}
use lib_system_call.Memory.{write}
use lib_system_call.Stream.{File, Io, Functions, z_fflush}
use lib_system_call.Stream.Flush.{MakesProgress}
use lib_system_call.Stream.Chars.{swbuf_put, z_swbuf, z_putc}
use lib_system_call.Stream.Writing.{
  IsWriting, Holds, Puts, z_fflush_out, Holds-put, Holds-flushed, swbuf_put-Puts,
}

module _ {σ : Type 0} (k : Functions σ) where
  -- A client that puts characters and flushes the stream behind them, and stops at a failure.
  unfoldable pub put_and_flush : ℕ → List ℕ → File → Io σ → Option (Bool × File × Io σ)
  put_and_flush fuel [] fp s = z_fflush k fuel fp s
  put_and_flush fuel (c ∷ cs) fp s = elim (z_putc k fuel c fp s) [
    | none ↦ none
    | some (none, fp', s') ↦ some (false, fp', s')
    | some (some x, fp', s') ↦ put_and_flush fuel cs fp' s'
  ]

  put_and_flush-step :
      (fuel c x : ℕ) (cs : List ℕ) (fp fp' : File) (s s' : Io σ)
      → z_putc k fuel c fp s ≡ some (some x, fp', s')
      → put_and_flush fuel (c ∷ cs) fp s ≡ put_and_flush fuel cs fp' s'
  unfolding put_and_flush
  put_and_flush-step fuel c x cs fp fp' s s' put = rw (put, put_and_flush) refl

module _ {σ : Type 0} (k : Functions σ) (output : σ → List ℕ) where
  z_swbuf-full :
      (fuel c : ℕ) (fp fp' : File) (s s' : Io σ)
      → leb fp.size ((fp.position + 2 ^ 64 - fp.base) % 2 ^ 64) ≡ true
      → z_fflush k fuel (record fp { write_left = fp.lbfsize }) s ≡ some (true, fp', s')
      → z_swbuf k fuel c fp s ≡ swbuf_put k fuel (c % 2 ^ 8) 0 fp' s'
  unfolding z_swbuf
  z_swbuf-full fuel c fp fp' s s' full run = rw full (rw run refl)

  z_swbuf-part :
      (fuel c n : ℕ) (fp : File) (s : Io σ)
      → (fp.position + 2 ^ 64 - fp.base) % 2 ^ 64 ≡ n
      → leb fp.size n ≡ false
      → z_swbuf k fuel c fp s
        ≡ swbuf_put k fuel (c % 2 ^ 8) n (record fp { write_left = fp.lbfsize }) s
  unfolding z_swbuf
  z_swbuf-part fuel c n fp s used part = rw used (rw part refl)

  z_swbuf-Puts :
      (fuel c : ℕ) (fp : File) (s : Io σ) (ys : List ℕ)
      → MakesProgress k output
      → IsWriting k output fp
      → Holds k output (record fp { write_left = fp.lbfsize }) s ys
      → fp.size < fuel
      → Puts k output (z_swbuf k fuel c fp s) (c % 2 ^ 8) fp.size ys
  z_swbuf-Puts fuel c fp s ys writes w held enough =
      let (
        writing, no_read, no_line, buffered, plain, untracked, lbf, some_base, pos, small, inside,
      ) =
        w in
      let (low, high, room, all) = held in
      let used : (fp.position + 2 ^ 64 - fp.base) % 2 ^ 64 ≡ fp.position - fp.base =
        omega (arith, low, high, inside) in
      elim (Bool-cases (leb fp.size (fp.position - fp.base))) [
        | inl full ↦
            let (s₁, run, out, kept) =
              z_fflush_out k output fuel (record fp { write_left = fp.lbfsize }) s ys writes w held
                enough in
            let fp₂ : File = record fp { position = fp.base; write_left = fp.size } in
            let start : fp.base - fp.base ≡ 0 = omega arith in
            let (fp₃, s₂, put, on, same, held₃) =
              swbuf_put-Puts k output fuel (c % 2 ^ 8) fp₂ s₁ ys writes w
                (Holds-flushed k output fp s₁ ys out) enough (omega (arith, pos)) (omega arith) in
            (
              fp₃,
              s₂,
              z_swbuf-full fuel c fp fp₂ s s₁ (rw used full) run
                  ∙ ap (λ n. swbuf_put k fuel (c % 2 ^ 8) n fp₂ s₁) (sym start)
                  ∙ put,
              on,
              same,
              held₃,
            )
        | inr part ↦
            let (fp₃, s₂, put, on, same, held₃) =
              swbuf_put-Puts k output fuel (c % 2 ^ 8) (record fp { write_left = fp.lbfsize }) s ys
                writes w held enough (ground (arith, part, low, high)) (omega (arith, high, lbf)) in
            (
              fp₃,
              s₂,
              z_swbuf-part fuel c (fp.position - fp.base) fp s used part ∙ put,
              on,
              same,
              held₃,
            )
      ]

  -- To such a stream, over writes that make progress and with fuel above the size of the buffer,
  -- z_putc adds one character, of eight bits, behind what has been put, and returns it.
  z_putc-Puts :
      (fuel c : ℕ) (fp : File) (s : Io σ) (ys : List ℕ)
      → MakesProgress k output
      → IsWriting k output fp
      → Holds k output fp s ys
      → fp.size < fuel
      → Puts k output (z_putc k fuel c fp s) (c % 2 ^ 8) fp.size ys
  unfolding z_putc
  z_putc-Puts fuel c fp s ys writes w (low, high, room, all) enough =
      let (
        writing, no_read, no_line, buffered, plain, untracked, lbf, some_base, pos, small, inside,
      ) =
        w in
      let left = (fp.write_left + 2 ^ 32 - 1) % 2 ^ 32 in
      elim (Bool-cases (ltb left (2 ^ 31))) [
        | inl there ↦
            let fits : fp.position + 1 + left ≤ fp.base + fp.size =
              ground (arith, there, room, low, small) in
            (
              record fp { position = fp.position + 1; write_left = left },
              record s { mem = write s.mem fp.position (c % 2 ^ 8) },
              rw there refl,
              w,
              refl,
              Holds-put k output (c % 2 ^ 8) left fp s _ ys (low, high, room, all)
                  (omega (arith, fits)) (inl fits) refl,
            )
        | inr gone ↦
            let no_room : leb ((fp.lbfsize + 2 ^ 31) % 2 ^ 32) ((left + 2 ^ 31) % 2 ^ 32) ≡ false =
              ground (arith, gone, lbf) in
            let (fp', s', put, on, same, held') =
              z_swbuf-Puts fuel c (record fp { write_left = left }) s ys writes w
                (low, high, inl (omega (arith, high, lbf)), all) enough in
            (fp', s', rw (gone, no_room) put, on, same, held')
      ]

  -- Characters given to z_putc one by one, and z_fflush behind them, all succeed, and what is out
  -- then is what was put before, `ys`, and the low eight bits of each character, once and in order.
  -- The stream is open for writing only, with a buffer that is not flushed behind each line, and
  -- neither appends nor keeps its offset; the streams that the library opens have no buffer, so it
  -- is one that the caller has set. No write fails and each takes at least one byte, and there is
  -- fuel above the size of the buffer.
  pub z_putc-z_fflush :
      (cs : List ℕ) (fuel : ℕ) (fp : File) (s : Io σ) (ys : List ℕ)
      → MakesProgress k output
      → IsWriting k output fp
      → Holds k output fp s ys
      → fp.size < fuel
      → (fp' : File) × (s' : Io σ) × (put_and_flush k fuel cs fp s ≡ some (true, fp', s'))
        × (output s'.system ≡ ys ++ map (λ c. c % 2 ^ 8) cs)
  unfolding put_and_flush
  z_putc-z_fflush [] fuel fp s ys writes w held enough =
      let (s', run, out, kept) = z_fflush_out k output fuel fp s ys writes w held enough in
      (_, s', run, out ∙ sym (append_nil ys))
  z_putc-z_fflush (c ∷ cs) fuel fp s ys writes w held enough =
      let (fp₁, s₁, put, on, same, held₁) = z_putc-Puts fuel c fp s ys writes w held enough in
      let (fp', s', run, out) =
        z_putc-z_fflush cs fuel fp₁ s₁ (ys ++ c % 2 ^ 8 ∷ []) writes on held₁
          (omega (arith, enough, same)) in
      (
        fp',
        s',
        put_and_flush-step k fuel c (c % 2 ^ 8) cs fp fp₁ s s₁ put ∙ run,
        out ∙ append_assoc ys (c % 2 ^ 8 ∷ []) (map (λ c. c % 2 ^ 8) cs),
      )
