-- ===== src/Dir/Entries.antt =====
-- The contents of a directory: what is left to read of it, in the buffer and in the kernel.
use lib_system_call.Base.{
  ℕ, ◌+◌, ◌-◌, ◌%◌, ◌≤◌, ◌<◌, ◌≡◌, ◌⊎◌, Bool, true, false, not, ◌&&◌, List, [], ◌∷◌, ◌++◌, Option,
  none, some, ◌==◌, ◌!=◌, if◌then◌else◌, arith,
}
use lib_system_call.Memory.{Mem}
use lib_system_call.Str.{map_failed}
use lib_system_call.Dir.{
  Round, stop, again, Dir, Sys, Requests, d_ino, d_reclen, d_type, dt_wht, readdir_initial_size,
}

-- What `struct z_dirent` says of a file.
pub record Entry : Type 0 where
  pub ino : ℕ
  pub reclen : ℕ
  pub type : ℕ

-- An entry that `z_readdir` returns.
abbrev pub is_live : (hide : Bool) → Entry → Bool
is_live hide e = e.ino != 0 && not (e.type == dt_wht && hide)

abbrev pub live_entries : (hide : Bool) → List Entry → List Entry
live_entries hide [] = []
live_entries hide (e ∷ es) =
    let rest = live_entries hide es in if is_live hide e then e ∷ rest else rest

abbrev pub IsEntry : Mem → ℕ → Entry → Type 0
IsEntry m p e = (d_ino m p ≡ e.ino) × (d_reclen m p ≡ e.reclen) × (d_type m p ≡ e.type)

-- Aligned entries one behind the other, from one address to another.
abbrev pub IsLaid : Mem → ℕ → List Entry → ℕ → Type 0
IsLaid m p [] finish = p ≡ finish
IsLaid m p (e ∷ es) finish =
    IsEntry m p e × (p % 4 ≡ 0) × (0 < e.reclen) × IsLaid m (p + e.reclen) es finish

pub IsLaid-le : (m : Mem) (p : ℕ) (es : List Entry) (finish : ℕ) → IsLaid m p es finish → p ≤ finish
IsLaid-le m p [] finish h = omega arith
IsLaid-le m p (e ∷ es) finish h =
    let below = IsLaid-le m (p + e.reclen) es finish h.3 in omega arith

-- The kernel's side: a read of a directory with some entries unread puts the first of them into the
-- buffer, at least one while there is one, and sets the bit that says the end is reached, where
-- there is room for it, only when none is left. Mappings are aligned, and neither they nor their
-- release change what is unread.
pub record IsDirectory {σ : Type 0} (k : Requests σ) (unread : σ → List Entry) : Type 0 where
  pub reads :
      (fd buf nbytes base : ℕ) (s : Sys σ)
      → readdir_initial_size ≤ nbytes
      → buf % 4 ≡ 0
      → (let ((size, base'), s') = k.getdirentries fd buf nbytes base s in
          (batch : List Entry) × (n : ℕ) × (size ≡ some n)
          × (unread s.system ≡ batch ++ unread s'.system)
          × (n ≤ nbytes)
          × IsLaid s'.mem buf batch (buf + n)
          × (batch ≡ [] → unread s.system ≡ [])
          × (n ≤ nbytes - 4 → 0 < s'.mem (buf + nbytes - 4) % 2 → unread s'.system ≡ []))
  pub maps :
      (size : ℕ) (s : Sys σ)
      → (let (p, s') = k.mmap size s in
          (unread s'.system ≡ unread s.system) × (p ≡ map_failed ⊎ p % 4 ≡ 0))
  pub unmaps : (addr size : ℕ) (s : Sys σ) → unread (k.munmap addr size s).system ≡ unread s.system

-- The buffer has the entries `es` from `__dd_loc` on.
pub record Holds {σ : Type 0} (unread : σ → List Entry) (es : List Entry) (d : Dir) (s : Sys σ)
    : Type 0 where
  pub finish : ℕ
  pub size_known : d.dd_size ≡ some finish
  pub fits : finish ≤ d.dd_len
  pub large : readdir_initial_size ≤ d.dd_len
  pub aligned : d.dd_buf % 4 ≡ 0
  pub laid : IsLaid s.mem (d.dd_buf + d.dd_loc) es (d.dd_buf + finish)
  pub not_readall : d.dd_flags.readall ≡ false
  pub ended : d.dd_flags.atend ≡ true → unread s.system ≡ []

-- The same between two calls: an entry left over has others before it, or the next call is told
-- not to read.
abbrev pub IsOpen :
    {σ : Type 0} (unread : σ → List Entry) (es : List Entry) (d : Dir) (s : Sys σ) → Type 0
IsOpen unread es d s =
    Holds unread es d s × ((0 < d.dd_loc) ⊎ (es ≡ []) ⊎ (d.dd_flags.skipread ≡ true))

-- What a call of `z_readdir` returns that starts with the entries `all` left: the first live one,
-- with the live ones behind it left, or a null pointer when none is live. The directory is open
-- afterwards.
abbrev pub Answers :
    {σ : Type 0} (unread : σ → List Entry) (hide : Bool)
    → List Entry
    → Option (Option ℕ × Dir × Sys σ)
    → Type 0
Answers {σ} unread hide all result =
    (d : Dir) × (s : Sys σ) × (es : List Entry) × IsOpen unread es d s
    × (d.dd_flags.hidew ≡ hide)
    × (((result ≡ some (none, d, s)) × (live_entries hide all ≡ []) × (es ++ unread s.system ≡ []))
        ⊎ ((p : ℕ) × (e : Entry) × (result ≡ some (some p, d, s))
            × IsEntry s.mem p e
            × (live_entries hide all ≡ e ∷ live_entries hide (es ++ unread s.system))))

-- The round has passed the entry `e`, with `es` behind it.
abbrev pub Passed :
    {σ : Type 0} (unread : σ → List Entry) (hide : Bool)
    → Entry
    → List Entry
    → List Entry
    → Round σ
    → Type 0
Passed {σ} unread hide e es us r =
    (d : Dir) × (s : Sys σ) × (p : ℕ) × IsOpen unread es d s
    × (unread s.system ≡ us)
    × (d.dd_flags.hidew ≡ hide)
    × IsEntry s.mem p e
    × (((is_live hide e ≡ true) × (r ≡ stop (some p) d s))
        ⊎ ((is_live hide e ≡ false) × (loc : ℕ) × (r ≡ again loc d s)))

-- What a round does that starts with `all` left.
abbrev pub Rounds :
    {σ : Type 0} (unread : σ → List Entry) (hide : Bool) → List Entry → Round σ → Type 0
Rounds {σ} unread hide all r =
    ((all ≡ [])
      × (d : Dir) × (s : Sys σ) × IsOpen unread [] d s
      × (unread s.system ≡ [])
      × (d.dd_flags.hidew ≡ hide)
      × (r ≡ stop none d s))
    ⊎ ((e : Entry) × (es : List Entry) × (us : List Entry) × (all ≡ e ∷ (es ++ us))
        × Passed unread hide e es us r)
