-- ===== src/Dir/Opened.antt =====
-- A directory that z_opendir has opened, for z_readdir.
use mathlib.Core.Path.{subst}
use lib_system_call.Base.{
  ℕ, ◌%◌, ◌≡◌, ◌⊎◌, inl, inr, Bool, true, false, List, [], Option, none, some, arith, refl, sym, ap,
  ◌∙◌, Option-cases,
}
use lib_system_call.Str.{z_malloc}
use lib_system_call.Dir.{Dir, Flags, Sys, Requests, allocate}
use lib_system_call.Dir.Entries.{Entry, IsDirectory, IsOpen}
use lib_system_call.Dir.Open.{
  first_buffer, opendir_fail, z_filldir, union_stack, fill_by_stack, empty_dir, z_opendir_common,
  z_opendir2, z_opendir,
}

module _ {σ : Type 0} (k : Requests σ) (unread : σ → List Entry) (dir_size : ℕ) where
  allocate-aligned :
      (size buf : ℕ) (s : Sys σ)
      → IsDirectory k unread
      → (allocate k size s).0 ≡ some buf
      → buf % 4 ≡ 0
  unfolding allocate z_malloc
  allocate-aligned size buf s law e = let at = (law.maps size s).1 in ground (arith, at, e)

  -- No directory, or one with an empty buffer.
  abbrev Opens : (hide : Bool) → Option (ℕ × Dir) → Type 0
  Opens hide r =
      (r ≡ none)
      ⊎ ((dirp : ℕ) × (d : Dir) × (r ≡ some (dirp, d))
          × ((s : Sys σ) → IsOpen unread [] d s)
          × (d.dd_flags.hidew ≡ hide))

  first_buffer-Opens :
      (dirp : ℕ) (d : Dir) (s : Sys σ)
      → IsDirectory k unread
      → d.dd_loc ≡ 0
      → d.dd_flags.readall ≡ false
      → d.dd_flags.atend ≡ false
      → Opens d.dd_flags.hidew (first_buffer k dir_size false dirp d s).0
  unfolding first_buffer opendir_fail
  first_buffer-Opens dirp d s law start all more = elim (Option-cases (allocate k 2048 s).0) [
    | inl no_memory ↦ inl (rw (no_memory, first_buffer) refl)
    | inr (buf, got) ↦
        (let d' : Dir = record d { dd_len = 2048; dd_buf = buf; dd_size = some 0; seekoff = 0 } in
          let found : (first_buffer k dir_size false dirp d s).0 ≡ some (dirp, d') =
            rw (got, first_buffer) refl in
          inr (
            dirp,
            d',
            found,
            (λ t. (
              record {
                finish = 0;
                size_known = refl;
                fits = omega arith;
                large = omega arith;
                aligned = allocate-aligned 2048 buf s law got;
                laid = omega (arith, start);
                not_readall = all;
                ended = (λ h. cc);
              },
              inr (inl refl),
            )),
            refl,
          ))
  ]

  z_filldir-false : (dot : ℕ) (d : Dir) (s : Sys σ) → (z_filldir k dir_size dot false d s).0 ≡ false
  unfolding z_filldir
  z_filldir-false dot d s = elim (Option-cases (k.openat d.dd_fd dot 0x1000000 s).0) [
    | inl failed ↦ rw (failed, z_filldir) refl
    | inr (fd2, opened) ↦ rw (opened, z_filldir) refl
  ]

  fill_by_stack-Opens :
      (dot dirp : ℕ) (d : Dir) (unionstack : Option Bool) (s : Sys σ)
      → IsDirectory k unread
      → d.dd_loc ≡ 0
      → d.dd_flags.readall ≡ false
      → d.dd_flags.atend ≡ false
      → Opens d.dd_flags.hidew (fill_by_stack k dir_size dot false dirp d unionstack s).0
  unfolding fill_by_stack opendir_fail
  fill_by_stack-Opens dot dirp d none s law start all more = inl refl
  fill_by_stack-Opens dot dirp d (some true) s law start all more =
      inl (rw (z_filldir-false dot d s) refl)
  fill_by_stack-Opens dot dirp d (some false) s law start all more =
      first_buffer-Opens dirp d s law start all more

  z_opendir_common-Opens :
      (dot fd : ℕ) (flags : Flags) (s : Sys σ)
      → IsDirectory k unread
      → flags.readall ≡ false
      → flags.atend ≡ false
      → Opens flags.hidew (z_opendir_common k dir_size dot fd flags false s).0
  unfolding z_opendir_common
  z_opendir_common-Opens dot fd flags s law all more =
      elim (Option-cases (allocate k dir_size s).0) [
        | inl no_memory ↦ inl (rw (no_memory, z_opendir_common) refl)
        | inr (dirp, got) ↦
            (let (unionstack, s₂) = union_stack k dir_size fd flags (allocate k dir_size s).1 in
              let goes : z_opendir_common k dir_size dot fd flags false s
                  ≡ fill_by_stack k dir_size dot false dirp (empty_dir k dir_size fd flags)
                      unionstack s₂ =
                rw (got, z_opendir_common) refl in
              rw goes (
                fill_by_stack-Opens dot dirp (empty_dir k dir_size fd flags) unionstack s₂ law refl
                  all more))
      ]

  z_opendir-Opens :
      (dot filename : ℕ) (s : Sys σ)
      → IsDirectory k unread
      → Opens true (z_opendir k dir_size dot filename s).0
  unfolding z_opendir z_opendir2
  z_opendir-Opens dot filename s law =
      let opening = k.open_file filename 0x1100004 s in
      let flags : Flags = record {
        hidew = true;
        nodup = true;
        readall = false;
        skipread = false;
        atend = false;
      } in
      elim (Option-cases opening.0) [
        | inl failed ↦ inl (rw (failed, z_opendir, z_opendir2) refl)
        | inr (n, opened) ↦ elim (z_opendir_common-Opens dot n flags opening.1 law refl refl) [
          | inl nothing ↦ inl (rw (opened, z_opendir, z_opendir2) (rw nothing refl))
          | inr (dirp, d, found, opens, hide) ↦
              inr (dirp, d, rw (opened, z_opendir, z_opendir2) (rw found refl), opens, hide)
        ]
      ]

  -- A directory that `z_opendir` has opened is open for `z_readdir`, with nothing in its buffer.
  pub z_opendir-IsOpen :
      (dot filename dirp : ℕ) (d : Dir) (s s' : Sys σ)
      → IsDirectory k unread
      → z_opendir k dir_size dot filename s ≡ (some (dirp, d), s')
      → IsOpen unread [] d s' × (d.dd_flags.hidew ≡ true)
  z_opendir-IsOpen dot filename dirp d s s' law e =
      let result : (z_opendir k dir_size dot filename s).0 ≡ some (dirp, d) = ap (λ r. r.0) e in
      elim (z_opendir-Opens dot filename s law) [
        | inl nothing ↦ cc
        | inr (dirp', d', found, opens, hide) ↦
            let same : d' ≡ d = ap (λ o. elim o [ none ↦ d | some x ↦ x.1 ]) (sym found ∙ result) in
            (
              subst (λ x. IsOpen unread [] x s') same (opens s'),
              ap (λ x. x.dd_flags.hidew) (sym same) ∙ hide,
            )
      ]
