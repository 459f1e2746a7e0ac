-- ===== src/Dir/Union.antt =====
-- The rest of z_filldir of z_dirent.c, behind its allocation, for a buffer at `buf`: the reads, the
-- scan, the sort of the entries by name and the removal of duplicates.
use lib_system_call.Base.{
  ℕ, zero, suc, ◌+◌, ◌-◌, ◌*◌, ◌%◌, Bool, true, false, not, length, ◌&&◌, List, [], ◌∷◌, Option,
  none, some, ltb, ◌==◌, ◌!=◌, if◌then◌else◌,
}
use lib_system_call.Base.Int.{ℤ, pos, negsuc}
use lib_system_call.Memory.{Mem}
use lib_system_call.Str.{◌>>=◌, z_strncmp}
use lib_system_call.Stdlib.Merge.{z_mergesort}
use lib_system_call.Tlv.Keys.{write_le}
use lib_system_call.Tty.{d_name}
use lib_system_call.Dir.{Dir, Sys, Requests, d_ino, d_reclen, d_type, dt_wht, allocate, z_free}
use lib_system_call.Dir.Open.{close_keeping}

abbrev pub dirblksiz : ℕ
dirblksiz = 1024

-- `MAXPATHLEN`.
abbrev pub maxpathlen : ℕ
maxpathlen = 4096

abbrev pub z_opendir_compar : Mem → (p1 p2 : ℕ) → ℤ
z_opendir_compar m p1 p2 = z_strncmp m (d_name p1) (d_name p2) maxpathlen

-- One pass of `while (ddptr < ddeptr)`: the entries that have an inode number, which the first pass
-- counts and the second one stores, and `ddptr`. The first number is fuel.
unfoldable pub scan_entries : ℕ → Mem → (ddptr ddeptr : ℕ) → Option (List ℕ × ℕ)
scan_entries zero m ddptr ddeptr = none
scan_entries (suc fuel) m ddptr ddeptr =
    let reclen = d_reclen m ddptr in
    elim (ltb ddptr ddeptr
      && ddptr % 4 == 0
      && reclen != 0
      && not (ltb (ddeptr + 1 - ddptr) reclen)) [
        | false ↦ some ([], ddptr)
        | true ↦ (do
          (dps, end) ← scan_entries fuel m (ddptr + reclen) ddeptr
          some (if d_ino m ddptr != 0 then ddptr ∷ dps else dps, end))
      ]

abbrev pub differs : ℤ → Bool
differs (pos n) = n != 0
differs (negsuc n) = true

abbrev pub is_duplicate : Mem → (xp : Option ℕ) → (dp : ℕ) → Bool
is_duplicate m none dp = false
is_duplicate m (some xp) dp = not (differs (z_strncmp m (d_name dp) (d_name xp) maxpathlen))

-- An inode number of 0 hides a duplicate, and a whiteout.
unfoldable pub zap_entry : (hidew again : Bool) → (dp : ℕ) → Mem → Mem
unfolding write_le
zap_entry hidew again dp m =
    let m₁ = if again then write_le m dp 8 0 else m in
    if d_type m₁ dp == dt_wht && hidew then write_le m₁ dp 8 0 else m₁

-- `for (n = 0; dpv[n]; n++)`
unfoldable pub zap : (hidew : Bool) → (xp : Option ℕ) → List ℕ → Mem → Mem
unfolding zap_entry
zap hidew xp [] m = m
zap hidew xp (dp ∷ dps) m =
    let again = is_duplicate m xp dp in
    zap hidew (if again then xp else some dp) dps (zap_entry hidew again dp m)

module _ {σ : Type 0} (k : Requests σ) (dir_size : ℕ) where
  -- `do ... while (n > 0)`, on fuel, with `space`, `len` and `ddptr`: the end of the entries with the
  -- directory, whose `len` is not its own yet, or nothing when a read fails.
  unfoldable pub read_entries :
      ℕ → (incr fd2 buf space len ddptr : ℕ) → Dir → Sys σ → Option (Option (ℕ × ℕ × Dir) × Sys σ)
  unfolding close_keeping
  read_entries zero incr fd2 buf space len ddptr d s = none
  read_entries (suc fuel) incr fd2 buf space₀ len₀ ddptr₀ d s =
      let short = ltb space₀ dirblksiz in
      let space = if short then space₀ + incr else space₀ in
      let len = if short then len₀ + incr else len₀ in
      let ddptr = if short then buf + (len - space) else ddptr₀ in
      let ((n, seekoff), s') = k.getdirentries fd2 ddptr space d.seekoff s in
      let d' : Dir = record d { seekoff = seekoff } in
      elim n [
        | none ↦ some (none, close_keeping k dir_size fd2 s')
        | some got ↦ elim (got == 0) [
          | true ↦ some (some (ddptr, len, d'), (k.close fd2 s').1)
          | false ↦ read_entries fuel incr fd2 buf (space - got) len (ddptr + got) d' s'
        ]
      ]

  -- The sort of the pointers and the removal, when there is memory for the pointers. `list2` is what
  -- the sort's allocation returns; its result is not looked at.
  unfoldable pub zap_sorted : (list2 dpv : Option ℕ) → List ℕ → (hidew : Bool) → Sys σ → Sys σ
  unfolding zap z_mergesort
  zap_sorted list2 none dps hidew s = s
  zap_sorted list2 (some dpv) dps hidew s =
      let (result, err, sorted) = z_mergesort (z_opendir_compar s.mem) 8 list2 dps in
      let errno : ℕ = elim err [ none ↦ s.errno | some e ↦ e ] in
      z_free k dpv 0 (record s { errno = errno; mem = zap hidew none sorted s.mem })

  -- From `ddeptr = ddptr` on.
  unfoldable pub sort_and_zap :
      ℕ → (list2 : Option ℕ) → (buf ddeptr len : ℕ) → Dir → Sys σ → Option (Dir × Sys σ)
  unfolding scan_entries zap_sorted allocate
  sort_and_zap fuel list2 buf ddeptr len d s = do
    (dps, end) ← scan_entries fuel s.mem buf ddeptr
    let (dpv, s₁) = allocate k (8 * (length dps + 1)) s
    some (
      record d { dd_buf = buf; dd_len = len; dd_size = some (end - buf) },
      zap_sorted list2 dpv dps d.dd_flags.hidew s₁,
    )
