-- ===== src/Dir/Read.antt =====
-- What z_readdir promises of a directory.
use mathlib.Core.Path.{subst}
use lib_system_call.Base.{
  ℕ, zero, suc, ◌+◌, ◌<◌, ◌≡◌, inl, inr, true, false, ◌||◌, List, [], ◌∷◌, ◌++◌, length, none,
  arith, refl, sym, ap, ◌∙◌, Bool-cases,
}
use lib_system_call.Dir.{
  Dir, Sys, Requests, is_exhausted, stop, fill, readdir_round, readdir_loop, z_readdir,
}
use lib_system_call.Dir.Entries.{
  Entry, live_entries, IsLaid-le, IsDirectory, IsOpen, IsOpen, Answers, Rounds,
}
use lib_system_call.Dir.Fill.{fill-Rounds, fill-kept, take_entry-Passed}

module _ {σ : Type 0} (k : Requests σ) (unread : σ → List Entry) where
  readdir_round-Rounds :
      (loc : ℕ) (es : List Entry) (d : Dir) (s : Sys σ)
      → IsDirectory k unread
      → IsOpen unread es d s
      → Rounds unread d.dd_flags.hidew (es ++ unread s.system) (readdir_round k loc d s)
  unfolding readdir_round is_exhausted
  readdir_round-Rounds loc [] d s law (h, _) =
      let over : is_exhausted d ≡ true = rw h.size_known (ground (arith, h.laid)) in
      elim (Bool-cases (d.dd_flags.readall || d.dd_flags.atend)) [
        | inl closed ↦
            let ended = h.ended (ground (arith, closed, h.not_readall)) in
            let goes : readdir_round k loc d s ≡ stop none d s = rw (over, closed) refl in
            inl (ended, d, s, (h, inr (inl refl)), ended, refl, goes)
        | inr more ↦
            let d' : Dir = record d {
              dd_loc = 0;
              dd_flags = record d.dd_flags { skipread = false };
            } in
            let goes : readdir_round k loc d s ≡ fill k d.dd_loc d' s = rw (over, more) refl in
            subst (Rounds unread d.dd_flags.hidew (unread s.system)) (sym goes) (
              fill-Rounds k unread d.dd_loc d' s law h.large h.aligned refl h.not_readall
                (ground (arith, more)) refl)
      ]
  readdir_round-Rounds loc (e ∷ es) d s law (h, ready) =
      let behind =
        IsLaid-le s.mem (d.dd_buf + d.dd_loc + e.reclen) es (d.dd_buf + h.finish) h.laid.3 in
      let left : is_exhausted d ≡ false = rw h.size_known (ground (arith, h.laid.2, behind)) in
      let goes : readdir_round k loc d s ≡ fill k loc d s = rw left refl in
      subst (Rounds unread d.dd_flags.hidew (e ∷ (es ++ unread s.system)))
        (sym (
          goes
          ∙ fill-kept k unread loc d s (elim ready [
            | inl moved ↦ ground (arith, moved)
            | inr (inl none_left) ↦ cc
            | inr (inr told) ↦ ground (arith, told)
          ])))
        (inr (e, es, unread s.system, refl, take_entry-Passed k unread loc e es d s h))

  readdir_loop-Answers :
      (fuel loc : ℕ) (es : List Entry) (d : Dir) (s : Sys σ)
      → IsDirectory k unread
      → IsOpen unread es d s
      → length (es ++ unread s.system) < fuel
      → Answers unread d.dd_flags.hidew (es ++ unread s.system) (readdir_loop k fuel loc d s)
  unfolding readdir_loop
  readdir_loop-Answers zero loc es d s law ready enough = ground (arith, enough)
  readdir_loop-Answers (suc fuel) loc es d s law ready enough =
      elim (readdir_round-Rounds loc es d s law ready) [
        | inl (none_left, d', s', ready', end, hide, goes) ↦
            (d', s', [], ready', hide, inl (rw (goes, readdir_loop) refl, rw none_left refl, end))
        | inr (e, es', us, all, (d', s', p, ready', us_eq, hide, entry, inl (live, goes))) ↦ (
          d',
          s',
          es',
          ready',
          hide,
          inr (p, e, rw (goes, readdir_loop) refl, entry, rw (all, live, us_eq) refl),
        )
        | inr (e, es', us, all, (d', s', p, ready', us_eq, hide, entry, inr (dead, loc', goes))) ↦
            let same : live_entries d.dd_flags.hidew (es ++ unread s.system)
                ≡ live_entries d'.dd_flags.hidew (es' ++ unread s'.system) =
              rw (all, dead, us_eq, hide) refl in
            let step : readdir_loop k (suc fuel) loc d s ≡ readdir_loop k fuel loc' d' s' =
              rw (goes, readdir_loop) refl in
            let counted : length (es ++ unread s.system) ≡ suc (length (es' ++ us)) =
              ap length all in
            let shorter : length (es' ++ unread s'.system) < fuel =
              rw us_eq (omega (arith, counted, enough)) in
            let (d₂, s₂, es₂, ready₂, hide₂, answer) =
              readdir_loop-Answers fuel loc' es' d' s' law ready' shorter in
            (
              d₂,
              s₂,
              es₂,
              ready₂,
              hide₂ ∙ hide,
              elim answer [
                | inl (result, none_live, end) ↦ inl (step ∙ result, same ∙ none_live, end)
                | inr (p', e', result, entry', live) ↦ inr (
                  p',
                  e',
                  step ∙ result,
                  entry',
                  same ∙ live ∙ ap (λ x. e' ∷ live_entries x (es₂ ++ unread s₂.system)) hide,
                )
              ],
            )
      ]

  -- A directory that is read entry by entry: a call of `z_readdir` on an open directory returns the
  -- first of the live entries that are left in the buffer and in the kernel, with those behind it
  -- left, or a null pointer when there is none, and the directory is open afterwards. As many
  -- rounds as entries are left, and one more, are enough.
  pub z_readdir-Answers :
      (fuel : ℕ) (es : List Entry) (d : Dir) (s : Sys σ)
      → IsDirectory k unread
      → IsOpen unread es d s
      → length (es ++ unread s.system) < fuel
      → Answers unread d.dd_flags.hidew (es ++ unread s.system) (z_readdir k fuel d s)
  unfolding z_readdir
  z_readdir-Answers fuel es d s law ready enough =
      readdir_loop-Answers fuel 0 es d s law ready enough
