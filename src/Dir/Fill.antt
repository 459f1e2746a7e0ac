-- ===== src/Dir/Fill.antt =====
-- One round of z_readdir: the entry it takes, and the reading of a buffer.
use mathlib.Core.Path.{subst}
use lib_system_call.Base.{
  ℕ, ◌+◌, ◌-◌, ◌%◌, ◌≤◌, ◌≡◌, inl, inr, true, false, not, ◌&&◌, ◌||◌, List, [], ◌∷◌, ◌++◌, Option,
  none, some, ltb, leb, ◌==◌, ◌!=◌, if◌then◌else◌, arith, refl, sym, ap, ◌∙◌, Bool-cases,
  Option-cases,
}
use lib_system_call.Bytes.{z_memset}
use lib_system_call.Str.{z_malloc, map_failed}
use lib_system_call.Dir.{
  Dir, Sys, Requests, d_ino, d_reclen, d_type, dt_wht, readdir_initial_size, z_fixtelldir, stop,
  allocate, read_batch, grow, take_entry, fill,
}
use lib_system_call.Dir.Entries.{
  Entry, is_live, IsLaid, IsLaid-le, IsDirectory, Holds, Passed, Rounds,
}

module _ {σ : Type 0} (k : Requests σ) (unread : σ → List Entry) where
  pub take_entry-Passed :
      (loc : ℕ) (e : Entry) (es : List Entry) (d : Dir) (s : Sys σ)
      → Holds unread (e ∷ es) d s
      → Passed unread d.dd_flags.hidew e es (unread s.system) (take_entry k loc d s)
  unfolding take_entry
  take_entry-Passed loc e es d s h =
      let dp = d.dd_buf + d.dd_loc in
      let reclen = d_reclen s.mem dp in
      let d' : Dir = record d {
        dd_flags = record d.dd_flags { skipread = false };
        dd_loc = d.dd_loc + reclen;
      } in
      let behind = IsLaid-le s.mem (dp + e.reclen) es (d.dd_buf + h.finish) h.laid.3 in
      let read : reclen ≡ e.reclen = h.laid.0.1 in
      let next : dp + e.reclen ≡ d.dd_buf + (d.dd_loc + reclen) = omega arith in
      let aligned : dp % 4 != 0 ≡ false = ground (arith, h.laid.1) in
      let bound : (reclen == 0 || ltb (d.dd_len + 1) (d.dd_loc + reclen)) ≡ false =
        ground (arith, h.laid.2, h.fits, behind, read) in
      let skipped = d_ino s.mem dp == 0 || (d_type s.mem dp == dt_wht && d.dd_flags.hidew) in
      let left : Holds unread es d' s = record {
        finish = h.finish;
        size_known = h.size_known;
        fits = h.fits;
        large = h.large;
        aligned = h.aligned;
        laid = subst (λ x. IsLaid s.mem x es (d.dd_buf + h.finish)) next h.laid.3;
        not_readall = h.not_readall;
        ended = h.ended;
      } in
      (
        d',
        s,
        dp,
        (left, inl (omega (arith, h.laid.2, read))),
        refl,
        refl,
        h.laid.0,
        elim (Bool-cases (is_live d.dd_flags.hidew e)) [
          | inl live ↦
              let taken : skipped ≡ false = ground (arith, live, h.laid.0.0, h.laid.0.2) in
              inl (live, rw (aligned, bound, taken) refl)
          | inr dead ↦
              let passed : skipped ≡ true = ground (arith, dead, h.laid.0.0, h.laid.0.2) in
              inr (dead, loc, rw (aligned, bound, passed) refl)
        ],
      )

  read_batch_lem :
      (d : Dir) (s : Sys σ)
      → IsDirectory k unread
      → readdir_initial_size ≤ d.dd_len
      → d.dd_buf % 4 ≡ 0
      → d.dd_loc ≡ 0
      → d.dd_flags.readall ≡ false
      → d.dd_flags.atend ≡ false
      → (batch : List Entry) × (let (d', s') = read_batch k d s in
          (unread s.system ≡ batch ++ unread s'.system)
          × (batch ≡ [] → unread s.system ≡ [])
          × (d'.dd_flags.hidew ≡ d.dd_flags.hidew)
          × (d'.dd_loc ≡ 0)
          × Holds unread batch d' s')
  unfolding read_batch
  read_batch_lem d s law large aligned start all more =
      let gdeflags = d.dd_buf + d.dd_len - 4 in
      let s₁ : Sys σ = record s { mem = z_memset s.mem gdeflags 0 4 } in
      let out = k.getdirentries d.dd_fd d.dd_buf d.dd_len d.seekoff s₁ in
      let (batch, n, size, split, fits, laid, none_left, at_end) =
        law.reads d.dd_fd d.dd_buf d.dd_len d.seekoff s₁ large aligned in
      let seen = leb n (d.dd_len - 4) && out.1.mem gdeflags % 2 != 0 in
      let laid' : IsLaid out.1.mem (d.dd_buf + d.dd_loc) batch (d.dd_buf + n) =
        subst (λ x. IsLaid out.1.mem x batch (d.dd_buf + n)) (omega arith) laid in
      (
        batch,
        elim (Bool-cases seen) [
          | inl ended ↦
              rw (size, ended)
                (
                  split,
                  none_left,
                  refl,
                  start,
                  record {
                    finish = n;
                    size_known = refl;
                    fits = fits;
                    large = large;
                    aligned = aligned;
                    laid = laid';
                    not_readall = all;
                    ended = (λ e. at_end (ground (arith, ended)) (ground (arith, ended)));
                  },
                )
          | inr quiet ↦
              rw (size, quiet)
                (
                  split,
                  none_left,
                  refl,
                  start,
                  record {
                    finish = n;
                    size_known = refl;
                    fits = fits;
                    large = large;
                    aligned = aligned;
                    laid = laid';
                    not_readall = all;
                    ended = (λ e. cc);
                  },
                )
        ],
      )

  grow_lem :
      (d : Dir) (s : Sys σ)
      → IsDirectory k unread
      → readdir_initial_size ≤ d.dd_len
      → d.dd_buf % 4 ≡ 0
      → (let (d', s') = grow k d s in
          (unread s'.system ≡ unread s.system)
          × (readdir_initial_size ≤ d'.dd_len)
          × (d'.dd_buf % 4 ≡ 0)
          × (d'.dd_loc ≡ d.dd_loc)
          × (d'.dd_flags ≡ d.dd_flags))
  unfolding grow allocate z_malloc
  grow_lem d s law large aligned =
      let (mapped, s₁) = k.mmap 8192 s in
      let (kept, at) = law.maps 8192 s in
      elim (Bool-cases (d.dd_len == readdir_initial_size)) [
        | inr grown ↦ rw grown (refl, large, aligned, refl, refl)
        | inl small ↦ elim (Bool-cases (mapped == map_failed || mapped == 0)) [
          | inl failed ↦ rw (small, failed) (kept, large, aligned, refl, refl)
          | inr got ↦
              let good : mapped % 4 ≡ 0 = ground (arith, at, got) in
              elim (Bool-cases (d.dd_buf != 0)) [
                | inl held ↦
                    rw (small, got, held)
                      (law.unmaps d.dd_buf 0 _ ∙ kept, omega arith, good, refl, refl)
                | inr null ↦ rw (small, got, null) (kept, omega arith, good, refl, refl)
              ]
        ]
      ]

  z_fixtelldir_lem :
      (oldseek oldloc : ℕ) (d : Dir)
      → (first : Option (ℕ × ℕ)) × (z_fixtelldir oldseek oldloc d ≡ record d { lh_first = first })
  unfolding z_fixtelldir
  z_fixtelldir_lem oldseek oldloc d = elim (Option-cases d.lh_first) [
    | inl empty ↦ (none, rw empty refl)
    | inr ((loc, seek), first) ↦ elim (Bool-cases (loc == oldloc && seek == oldseek)) [
      | inl found ↦ (some (d.dd_loc, d.seekoff), rw (first, found) refl)
      | inr other ↦ (some (loc, seek), rw (first, other) refl)
    ]
  ]

  relocated :
      (first : Option (ℕ × ℕ)) (es : List Entry) (d : Dir) (s : Sys σ)
      → Holds unread es d s
      → Holds unread es (record d { lh_first = first }) s
  relocated first es d s h = record {
    finish = h.finish;
    size_known = h.size_known;
    fits = h.fits;
    large = h.large;
    aligned = h.aligned;
    laid = h.laid;
    not_readall = h.not_readall;
    ended = h.ended;
  }

  -- A buffer that has been read, with or without an entry in it.
  filled :
      (loc oldseek oldloc n : ℕ) (batch : List Entry) (d : Dir) (s : Sys σ)
      → Holds unread batch d s
      → d.dd_loc ≡ 0
      → d.dd_size ≡ some n
      → (batch ≡ [] → unread s.system ≡ [])
      → Rounds unread d.dd_flags.hidew
          (batch ++ unread s.system)
          (if n == 0 then stop none d s else take_entry k loc (z_fixtelldir oldseek oldloc d) s)
  filled loc oldseek oldloc n [] d s h start size none_left =
      let same : some n ≡ some h.finish = sym size ∙ h.size_known in
      let empty : n ≡ 0 = ground (arith, same, h.laid, start) in
      rw empty (inl (none_left refl, d, s, (h, inr (inl refl)), none_left refl, refl, refl))
  filled loc oldseek oldloc n (e ∷ batch) d s h start size none_left =
      let same : some n ≡ some h.finish = sym size ∙ h.size_known in
      let behind =
        IsLaid-le s.mem (d.dd_buf + d.dd_loc + e.reclen) batch (d.dd_buf + h.finish) h.laid.3 in
      let some_there : n == 0 ≡ false = ground (arith, same, h.laid.2, behind) in
      let (first, moved) = z_fixtelldir_lem oldseek oldloc d in
      rw (some_there, moved)
        (inr (
          e,
          batch,
          unread s.system,
          refl,
          take_entry-Passed loc e batch (record d { lh_first = first }) s
              (relocated first (e ∷ batch) d s h),
        ))

  pub fill-Rounds :
      (loc : ℕ) (d : Dir) (s : Sys σ)
      → IsDirectory k unread
      → readdir_initial_size ≤ d.dd_len
      → d.dd_buf % 4 ≡ 0
      → d.dd_loc ≡ 0
      → d.dd_flags.readall ≡ false
      → d.dd_flags.atend ≡ false
      → d.dd_flags.skipread ≡ false
      → Rounds unread d.dd_flags.hidew (unread s.system) (fill k loc d s)
  unfolding fill
  fill-Rounds loc d s law large aligned start all more fresh =
      let (d₁, s₁) = grow k d s in
      let (kept, large', aligned', loc', flags) = grow_lem d s law large aligned in
      let (batch, (split, none_left, hide, at, h)) =
        read_batch_lem d₁ s₁ law large' aligned' (loc' ∙ start) (ap (λ f. f.readall) flags ∙ all)
          (ap (λ f. f.atend) flags ∙ more) in
      let (d₂, s₂) = read_batch k d₁ s₁ in
      let now : (d.dd_loc == 0
            && not (d.dd_flags.readall || d.dd_flags.atend || d.dd_flags.skipread))
          ≡ true =
        ground (arith, start, all, more, fresh) in
      let r =
        filled loc d₁.seekoff loc h.finish batch d₂ s₂ h at h.size_known
          (λ e. sym (split ∙ ap (λ b. b ++ unread s₂.system) e) ∙ none_left e) in
      let goes : fill k loc d s ≡ (
          if h.finish == 0
          then stop none d₂ s₂
          else take_entry k loc (z_fixtelldir d₁.seekoff loc d₂) s₂) =
        rw (now, h.size_known) refl in
      subst (λ x. Rounds unread x (unread s.system) (fill k loc d s))
        (hide ∙ ap (λ f. f.hidew) flags)
        (subst (λ x. Rounds unread d₂.dd_flags.hidew x (fill k loc d s)) (sym split ∙ kept)
          (subst (Rounds unread d₂.dd_flags.hidew (batch ++ unread s₂.system)) (sym goes) r))

  pub fill-kept :
      (loc : ℕ) (d : Dir) (s : Sys σ)
      → (d.dd_loc == 0 && not (d.dd_flags.readall || d.dd_flags.atend || d.dd_flags.skipread))
        ≡ false
      → fill k loc d s ≡ take_entry k loc d s
  unfolding fill
  fill-kept loc d s keep = rw keep refl
