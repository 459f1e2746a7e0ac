-- ===== src/Stream/Reading.antt =====
-- What z_getc delivers from a stream that is read.
use lib_system_call.Base.{
  ℕ, zero, suc, ◌+◌, ◌-◌, ◌^◌, ◌%◌, ◌≤◌, ◌<◌, ◌≡◌, ◌⊎◌, Bool, true, false, ◌&&◌, List, [], ◌∷◌,
  ◌++◌, some, none, leb, ◌==◌, ◌!=◌, arith, refl, sym, ap, ◌∙◌, Bool-cases, inl, inr, if◌then◌else◌,
}
use lib_system_call.Memory.{Mem, bytes_at}
use lib_system_call.Stream.{
  File, Io, Functions, has, slbf, srd, swr, seof, soff, smod, raise_flag, z_sread,
}
use lib_system_call.Stream.Chars.{z_srefill0, z_srefill1, z_srget, z_getc}

bytes_at-some : (m : Mem) (p n : ℕ) → 0 < n → bytes_at m p n ≡ m p ∷ bytes_at m (p + 1) (n - 1)
bytes_at-some m p zero some_left = absurd (omega arith)
bytes_at-some m p (suc n) some_left = let one : suc n - 1 ≡ n = omega arith in rw one refl

module _ {σ : Type 0} (k : Functions σ) (unread : σ → List ℕ) where
  -- A read gives at most as many bytes as it is asked for, which are the next ones of the file, and
  -- none only at its end.
  abbrev pub IsRead : Type 0
  IsRead =
      (buf n : ℕ) (s : Io σ)
      → 0 < n
      → (let (ret, s') = k.read buf n s in
          (t : ℕ) × (ret ≡ some t)
          × (t ≤ n)
          × (t ≡ 0 → unread s.system ≡ [])
          × (unread s.system ≡ bytes_at s'.mem buf t ++ unread s'.system))

  -- The stream is open for reading only, with a buffer, and has no offset of its own.
  abbrev pub IsReading : File → Type 0
  IsReading fp =
      (has seof fp ≡ false)
      × (has srd fp ≡ true)
      × (has swr fp ≡ false)
      × (has soff fp ≡ false)
      × (has smod fp ≡ false)
      × (0 < fp.size)
      × (fp.size < 2 ^ 31)

  -- The bytes to come: those left in the buffer, and those of the file that are not read yet.
  abbrev pub Stands : File → Io σ → List ℕ → Type 0
  Stands fp s xs =
      (fp.read_left < 2 ^ 31) × (xs ≡ bytes_at s.mem fp.position fp.read_left ++ unread s.system)

  and_false : (b : Bool) → b && false ≡ false
  and_false true = refl
  and_false false = refl

  refill_allowed :
      (fuel : ℕ) (fp : File) (s : Io σ)
      → IsReading fp
      → z_srefill0 k fuel fp s ≡ some (true, record fp { read_left = 0 }, s)
  unfolding z_srefill0
  refill_allowed fuel fp s (not_end, reads, no_write, no_offset, no_mod, some_room, small) =
      rw (not_end, reads) (rw no_write (rw (and_false (has slbf fp)) refl))

  read_through :
      (buf n t : ℕ) (fp : File) (s : Io σ)
      → has soff fp ≡ false
      → (k.read buf n s).0 ≡ some t
      → z_sread k buf n fp s ≡ (some t, fp, (k.read buf n s).1)
  unfolding z_sread
  read_through buf n t fp s no_offset got =
      rw (got, z_sread) (rw no_offset (rw (and_false (t != 0)) refl))

  refill_buffer :
      (t : ℕ) (fp : File) (s : Io σ)
      → has soff fp ≡ false
      → has smod fp ≡ false
      → (k.read fp.base fp.size s).0 ≡ some t
      → z_srefill1 k fp s ≡ (
          if t == 0
          then (
            false,
            raise_flag seof (record fp { position = fp.base; read_left = 0 }),
            (k.read fp.base fp.size s).1,
          )
          else (
            true,
            record fp { position = fp.base; read_left = t },
            (k.read fp.base fp.size s).1,
          ))
  unfolding z_srefill1
  refill_buffer t fp s no_offset no_mod got =
      let here : File = record fp { position = fp.base } in
      let through = read_through fp.base fp.size t here s no_offset got in
      rw (through, z_srefill1) (rw through (rw no_mod refl))

  -- The buffer filled again, with its first bytes.
  refilled :
      (fuel : ℕ) (fp : File) (s : Io σ)
      → IsRead
      → IsReading fp
      → (t : ℕ) × (s' : Io σ) × (t < 2 ^ 31)
        × (t ≡ 0 → unread s.system ≡ [])
        × (unread s.system ≡ bytes_at s'.mem fp.base t ++ unread s'.system)
        × (z_srget k fuel fp s ≡ (
            if t == 0
            then some (none, raise_flag seof (record fp { position = fp.base; read_left = 0 }), s')
            else some (
              some (s'.mem fp.base),
              record fp { position = fp.base + 1; read_left = t - 1 },
              s',
            )))
  unfolding z_srget
  refilled fuel fp s law (not_end, reads, no_write, no_offset, no_mod, some_room, small) =
      let (t, got, fits, ended, taken) = law fp.base fp.size s some_room in
      let s' = (k.read fp.base fp.size s).1 in
      let refill = refill_buffer t (record fp { read_left = 0 }) s no_offset no_mod got in
      let start =
        refill_allowed fuel fp s (not_end, reads, no_write, no_offset, no_mod, some_room, small) in
      (
        t,
        s',
        omega arith,
        ended,
        taken,
        elim (Bool-cases (t == 0)) [
          | inl none_left ↦ rw (start, z_srget) (rw (refill, none_left) refl)
          | inr some_left ↦ rw (start, z_srget) (rw (refill, some_left) refl)
        ],
      )

  -- For a stream that is open for reading only, keeps no offset and has a buffer, which the caller
  -- has set, for the streams that the library opens have none, over reads that never fail, deliver
  -- the file in order and give nothing only at its end, `z_getc` gives the next byte, with a
  -- stream that is at the bytes behind it, and -1 when no byte is left.
  pub z_getc-Stands :
      (fuel : ℕ) (fp : File) (s : Io σ) (xs : List ℕ)
      → IsRead
      → IsReading fp
      → Stands fp s xs
      → ((x : ℕ) × (xs' : List ℕ) × (fp' : File) × (s' : Io σ) × (xs ≡ x ∷ xs')
          × (z_getc k fuel fp s ≡ some (some x, fp', s'))
          × IsReading fp'
          × Stands fp' s' xs')
        ⊎ ((fp' : File) × (s' : Io σ) × (xs ≡ []) × (z_getc k fuel fp s ≡ some (none, fp', s')))
  unfolding z_getc
  z_getc-Stands fuel fp s xs law reading (small, rest) = elim (Bool-cases (fp.read_left == 0)) [
    | inl used_up ↦
        let nothing : fp.read_left ≡ 0 = ground (arith, used_up) in
        let left = (fp.read_left + 2 ^ 32 - 1) % 2 ^ 32 in
        let over : leb (2 ^ 31) left ≡ true = ground (arith, nothing) in
        let to_come : xs ≡ unread s.system =
          rest ∙ ap (λ n. bytes_at s.mem fp.position n ++ unread s.system) nothing in
        let (t, s', few, ended, taken, run) =
          refilled fuel (record fp { read_left = left }) s law reading in
        elim (Bool-cases (t == 0)) [
          | inl none_left ↦ inr (
            raise_flag seof (record fp { position = fp.base; read_left = 0 }),
            s',
            to_come ∙ ended (ground (arith, none_left)),
            rw over (run ∙ rw none_left refl),
          )
          | inr some_left ↦
              let first = bytes_at-some s'.mem fp.base t (ground (arith, some_left)) in
              inl (
                s'.mem fp.base,
                bytes_at s'.mem (fp.base + 1) (t - 1) ++ unread s'.system,
                record fp { position = fp.base + 1; read_left = t - 1 },
                s',
                to_come ∙ taken ∙ ap (λ ys. ys ++ unread s'.system) first,
                rw over (run ∙ rw some_left refl),
                reading,
                (omega arith, refl),
              )
        ]
    | inr some_left ↦
        let left = (fp.read_left + 2 ^ 32 - 1) % 2 ^ 32 in
        let one_less : left ≡ fp.read_left - 1 = ground (arith, some_left, small) in
        let in_buffer : leb (2 ^ 31) left ≡ false = ground (arith, small, one_less, some_left) in
        let first = bytes_at-some s.mem fp.position fp.read_left (ground (arith, some_left)) in
        inl (
          s.mem fp.position,
          bytes_at s.mem (fp.position + 1) (fp.read_left - 1) ++ unread s.system,
          record fp { position = fp.position + 1; read_left = left },
          s,
          rest ∙ ap (λ ys. ys ++ unread s.system) first,
          rw in_buffer refl,
          reading,
          (
            omega (arith, one_less),
            ap (λ n. bytes_at s.mem (fp.position + 1) n ++ unread s.system) (sym one_less),
          ),
        )
  ]
