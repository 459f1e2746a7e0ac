-- ===== src/Stream/Chars.antt =====
-- The characters of the streams of z_stdio.c: _z_srefill, z_getc, _z_swbuf and z_putc.
use lib_system_call.Base.{
  ℕ, ◌+◌, ◌-◌, ◌^◌, ◌%◌, Bool, true, false, ◌&&◌, ◌||◌, not, Option, none, some, leb, ltb, ◌==◌,
  ◌!=◌, if◌then◌else◌,
}
use lib_system_call.Memory.{write}
use lib_system_call.Stream.{
  File, Io, Functions, slbf, srd, swr, srw, seof, serr, smod, has, raise_flag, clear_flag, z_sread,
  z_sflush, z_fflush,
}

module _ {σ : Type 0} (k : Functions σ) where
  -- `true` stands for 1 and `false` for -1; EBADF is 9.
  unfoldable pub z_srefill0 : ℕ → File → Io σ → Option (Bool × File × Io σ)
  unfolding z_sflush
  z_srefill0 fuel fp₀ s =
      let fp : File = record fp₀ { read_left = 0 } in
      let flush_lines : File → Io σ → Option (Bool × File × Io σ) = λ f t.
        if has slbf f && has swr f
        then elim (z_sflush k fuel f t) [ none ↦ none | some (ok, f', t') ↦ some (true, f', t') ]
        else some (true, f, t) in
      if has seof fp
      then some (false, fp, s)
      else if has srd fp
      then flush_lines fp s
      else if not (has srw fp)
      then some (false, raise_flag serr fp, record s { errno = 9 })
      else if has swr fp
      then elim (z_sflush k fuel fp s) [
        | none ↦ none
        | some (false, fp', s') ↦ some (false, fp', s')
        | some (true, fp', s') ↦
            flush_lines
              (raise_flag srd (clear_flag swr (record fp' { write_left = 0; lbfsize = 0 }))) s'
      ]
      else flush_lines (raise_flag srd fp) s

  -- `true` stands for 0 and `false` for -1.
  unfoldable pub z_srefill1 : File → Io σ → Bool × File × Io σ
  unfolding z_sread
  z_srefill1 fp s =
      let (ret, fp₁, s') = z_sread k fp.base fp.size (record fp { position = fp.base }) s in
      let fp₂ = clear_flag smod fp₁ in
      elim ret [
        | none ↦ (false, raise_flag serr (record fp₂ { read_left = 0 }), s')
        | some n ↦
            if n == 0
            then (false, raise_flag seof (record fp₂ { read_left = 0 }), s')
            else (true, record fp₂ { read_left = n }, s')
      ]

  -- The next character, or nothing for -1.
  unfoldable pub z_srget : ℕ → File → Io σ → Option (Option ℕ × File × Io σ)
  unfolding z_srefill0 z_srefill1
  z_srget fuel fp s = elim (z_srefill0 fuel fp s) [
    | none ↦ none
    | some (false, fp₁, s₁) ↦ some (none, fp₁, s₁)
    | some (true, fp₁, s₁) ↦
        (let (ok, fp₂, s₂) = z_srefill1 fp₁ s₁ in
          if ok
          then some (
            some (s₂.mem fp₂.position),
            record fp₂ { read_left = fp₂.read_left - 1; position = fp₂.position + 1 },
            s₂,
          )
          else some (none, fp₂, s₂))
  ]

  -- `_r` is counted down first, on 32 bits.
  unfoldable pub z_getc : ℕ → File → Io σ → Option (Option ℕ × File × Io σ)
  unfolding z_srget
  z_getc fuel fp s =
      let left = (fp.read_left + 2 ^ 32 - 1) % 2 ^ 32 in
      let fp' : File = record fp { read_left = left } in
      if leb (2 ^ 31) left
      then z_srget fuel fp' s
      else some (some (s.mem fp.position), record fp' { position = fp.position + 1 }, s)

  -- `c` put into the buffer, in which `n` bytes are used, and the flush of a full buffer or a line.
  unfoldable pub swbuf_put : ℕ → (c n : ℕ) → File → Io σ → Option (Option ℕ × File × Io σ)
  unfolding z_fflush
  swbuf_put fuel c n fp s =
      let fp' : File = record fp {
        write_left = (fp.write_left + 2 ^ 32 - 1) % 2 ^ 32;
        position = fp.position + 1;
      } in
      let s' : Io σ = record s { mem = write s.mem fp.position c } in
      if n + 1 == fp.size || (has slbf fp && c == 10)
      then elim (z_fflush k fuel fp' s') [
        | none ↦ none
        | some (false, fp'', s'') ↦ some (none, fp'', s'')
        | some (true, fp'', s'') ↦ some (some c, fp'', s'')
      ]
      else some (some c, fp', s')

  -- A full buffer is flushed before `c` is put into it.
  unfoldable pub z_swbuf : ℕ → (c : ℕ) → File → Io σ → Option (Option ℕ × File × Io σ)
  unfolding z_fflush swbuf_put
  z_swbuf fuel c fp₀ s =
      let fp : File = record fp₀ { write_left = fp₀.lbfsize } in
      let used = (fp.position + 2 ^ 64 - fp.base) % 2 ^ 64 in
      if leb fp.size used
      then elim (z_fflush k fuel fp s) [
        | none ↦ none
        | some (false, fp', s') ↦ some (none, fp', s')
        | some (true, fp', s') ↦ swbuf_put fuel (c % 2 ^ 8) 0 fp' s'
      ]
      else swbuf_put fuel (c % 2 ^ 8) used fp s

  -- `--_p->_w >= 0 || (_p->_w >= _p->_lbfsize && (char)_c != '\\n')`; a bias of 2 ^ 31 orders the
  -- patterns as signed numbers.
  unfoldable pub z_putc : ℕ → (c : ℕ) → File → Io σ → Option (Option ℕ × File × Io σ)
  unfolding z_swbuf
  z_putc fuel c fp s =
      let left = (fp.write_left + 2 ^ 32 - 1) % 2 ^ 32 in
      let fp' : File = record fp { write_left = left } in
      let room = leb ((fp.lbfsize + 2 ^ 31) % 2 ^ 32) ((left + 2 ^ 31) % 2 ^ 32) in
      if ltb left (2 ^ 31) || (room && c % 2 ^ 8 != 10)
      then some (
        some (c % 2 ^ 8),
        record fp' { position = fp.position + 1 },
        record s { mem = write s.mem fp.position (c % 2 ^ 8) },
      )
      else z_swbuf fuel c fp' s
