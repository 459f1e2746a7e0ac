-- ===== src/Dir/Open.antt =====
-- z_opendir, z_opendir2, z_closedir and what they call in z_dirent.c. The positions of z_telldir,
-- which nothing stores, are not freed one by one.
use lib_system_call.Base.{
  ℕ, ◌/◌, ◌%◌, Bool, true, false, ◌||◌, Option, none, some, ◌==◌, ◌!=◌, if◌then◌else◌,
}
use lib_system_call.Dir.{
  Dir, Flags, Sys, Requests, readdir_initial_size, allocate, read_batch, z_free,
}

-- sizeof(struct z_dir) + sizeof(struct z_telldir), as the program's compiler lays them out.
module _ {σ : Type 0} (k : Requests σ) (dir_size : ℕ) where
  -- `!value`, where the number stored is 32 bits.
  unfoldable pub z_kernel_supports_unionfs : Sys σ → Bool × Sys σ
  z_kernel_supports_unionfs s = let (value, s') = k.sysctl s in (value == 0, s')

  -- Nothing stands for a negative result; MNT_UNION is 0x20.
  unfoldable pub z_fd_is_on_union_mount : ℕ → Sys σ → Option Bool × Sys σ
  z_fd_is_on_union_mount fd s =
      let (f_flags, s') = k.fstatfs fd s in
      (elim f_flags [ none ↦ none | some f ↦ some (f / 32 % 2 != 0) ], s')

  -- `z_errno` is put back after the descriptor is closed.
  unfoldable pub close_keeping : ℕ → Sys σ → Sys σ
  close_keeping fd s = record (k.close fd s).1 { errno = s.errno }

  -- The buffer is never allocated, so that the function closes its descriptor and fails before it
  -- reads. O_RDONLY | O_CLOEXEC is 0x1000000, and `dot` is the address of its name, ".".
  unfoldable pub z_filldir : (dot : ℕ) (use_current_pos : Bool) → Dir → Sys σ → Bool × Sys σ
  unfolding close_keeping
  z_filldir dot use_current_pos d s =
      let (fd2, s₁) = k.openat d.dd_fd dot 0x1000000 s in
      elim fd2 [
        | none ↦ (false, s₁)
        | some fd ↦
            if use_current_pos
            then (let (position, s₂) = k.lseek d.dd_fd 0 1 s₁ in
                elim position [
                  | none ↦ (false, close_keeping fd s₂)
                  | some at ↦ (let (moved, s₃) = k.lseek fd at 0 s₂ in (false, close_keeping fd s₃))
                ])
            else (false, close_keeping fd s₁)
      ]

  -- The way out with an error: what has been allocated is released, and `z_errno` is put back.
  unfoldable pub opendir_fail : (dirp : ℕ) → Dir → Sys σ → Option (ℕ × Dir) × Sys σ
  opendir_fail dirp d s =
      (none, record (z_free k dirp 0 (z_free k d.dd_buf 0 s)) { errno = s.errno })

  -- The first buffer, with the first entries in it when they are asked for. ENOTDIR is 20 and
  -- EINVAL 22.
  unfoldable pub first_buffer :
      (use_current_pos : Bool) (dirp : ℕ) → Dir → Sys σ → Option (ℕ × Dir) × Sys σ
  unfolding opendir_fail allocate read_batch
  first_buffer use_current_pos dirp d s =
      let (p, s₁) = allocate k readdir_initial_size s in
      elim p [
        | none ↦ opendir_fail dirp (record d { dd_len = readdir_initial_size }) s₁
        | some buf ↦
            (let d₁ : Dir = record d { dd_len = readdir_initial_size; dd_buf = buf } in
              if use_current_pos
              then (let (d₂, s₂) = read_batch k d₁ s₁ in
                  elim (d₂.dd_size) [
                    | none ↦
                        opendir_fail dirp d₂
                          (if s₂.errno == 22 then record s₂ { errno = 20 } else s₂)
                    | some n ↦ (
                      some (dirp, record d₂ { dd_flags = record d₂.dd_flags { skipread = true } }),
                      s₂,
                    )
                  ])
              else (some (dirp, record d₁ { dd_size = some 0; seekoff = 0 }), s₁))
      ]

  -- `unionstack`, or nothing where `z_fstatfs` fails.
  unfoldable pub union_stack : (fd : ℕ) → Flags → Sys σ → Option Bool × Sys σ
  unfolding z_kernel_supports_unionfs z_fd_is_on_union_mount
  union_stack fd flags s =
      let (supported, s₁) = if flags.nodup then z_kernel_supports_unionfs s else (false, s) in
      if supported then z_fd_is_on_union_mount fd s₁ else (some false, s₁)

  unfoldable pub fill_by_stack :
      (dot : ℕ) (use_current_pos : Bool) (dirp : ℕ)
      → Dir
      → Option Bool
      → Sys σ
      → Option (ℕ × Dir) × Sys σ
  unfolding z_filldir opendir_fail first_buffer
  fill_by_stack dot use_current_pos dirp d none s = opendir_fail dirp d s
  fill_by_stack dot use_current_pos dirp d (some true) s =
      let (filled, s') = z_filldir dot use_current_pos d s in
      if filled
      then (some (dirp, record d { dd_flags = record d.dd_flags { readall = true } }), s')
      else opendir_fail dirp d s'
  fill_by_stack dot use_current_pos dirp d (some false) s = first_buffer use_current_pos dirp d s

  -- The structure before its buffer is there; `z_malloc` has filled it with zeros.
  abbrev pub empty_dir : (fd : ℕ) → Flags → Dir
  empty_dir fd flags = record {
    dd_fd = fd;
    dd_loc = 0;
    dd_size = some 0;
    dd_buf = 0;
    dd_len = 0;
    dd_flags = flags;
    seekoff = 0;
    lh_first = none;
  }

  -- The pointer and the structure it points to.
  unfoldable pub z_opendir_common :
      (dot fd : ℕ) → Flags → (use_current_pos : Bool) → Sys σ → Option (ℕ × Dir) × Sys σ
  unfolding union_stack fill_by_stack allocate
  z_opendir_common dot fd flags use_current_pos s =
      let (p, s₁) = allocate k dir_size s in
      elim p [
        | none ↦ (none, s₁)
        | some dirp ↦
            (let (unionstack, s₂) = union_stack fd flags s₁ in
              fill_by_stack dot use_current_pos dirp (empty_dir fd flags) unionstack s₂)
      ]

  -- O_RDONLY | O_NONBLOCK | O_DIRECTORY |
  -- O_CLOEXEC is 0x1100004.
  unfoldable pub z_opendir2 : (dot name : ℕ) → Flags → Sys σ → Option (ℕ × Dir) × Sys σ
  unfolding z_opendir_common close_keeping
  z_opendir2 dot name flags s =
      if flags.readall || flags.skipread
      then (none, s)
      else (let (fd, s₁) = k.open_file name 0x1100004 s in
          elim fd [
            | none ↦ (none, s₁)
            | some n ↦
                (let (dir, s₂) = z_opendir_common dot n flags false s₁ in
                  elim dir [ none ↦ (none, close_keeping n s₂) | some d ↦ (some d, s₂) ])
          ])

  -- DTF_HIDEW | DTF_NODUP.
  unfoldable pub z_opendir : (dot filename : ℕ) → Sys σ → Option (ℕ × Dir) × Sys σ
  unfolding z_opendir2
  z_opendir dot filename s =
      z_opendir2 dot filename
        (record { hidew = true; nodup = true; readall = false; skipread = false; atend = false }) s

  unfoldable pub z_fdclosedir : (dirp : ℕ) → Dir → Sys σ → ℕ × Sys σ
  z_fdclosedir dirp d s = (d.dd_fd, z_free k dirp 0 (z_free k d.dd_buf 0 s))

  unfoldable pub z_closedir : (dirp : ℕ) → Dir → Sys σ → ℕ × Sys σ
  unfolding z_fdclosedir
  z_closedir dirp d s = let (fd, s') = z_fdclosedir dirp d s in k.close fd s'
