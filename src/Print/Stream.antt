-- ===== src/Print/Stream.antt =====
-- Where the characters go that are printed.
use mathlib.Core.List.{append_assoc, append-nil, map}
use mathlib.Core.Path.{sym}
use lib_system_call.Base.{
  ℕ, ◌^◌, ◌%◌, ◌<◌, ◌≡◌, ◌≢◌, ◌∙◌, ap, Bool, true, false, List, [], ◌∷◌, ◌++◌, Option, none, some,
  length, leb, ◌==◌, ◌||◌, if◌then◌else◌, arith, refl, inl, inr, Bool-cases,
}
use lib_system_call.Print.{
  Write, Output, is_last, switch_fd, z_flushbuf, putcharfd, put_all, outbufsize,
}

-- The bytes that the writes to a descriptor put there.
abbrev pub written : ℕ → List Write → List ℕ
written fd [] = []
written fd (w ∷ ws) = if w.fd == fd then w.bytes ++ written fd ws else written fd ws

-- The specification: a descriptor is a stream of bytes, the last of which may still be pending.
abbrev pub stream : ℕ → Output → List ℕ
stream fd o = written fd o.writes ++ (if is_last o.lastfd fd then o.outbuf else [])

-- Pending bytes have a descriptor, and there is room for one more.
abbrev pub IsWellFormed : Output → Type 0
IsWellFormed o = (o.lastfd ≡ none → o.outbuf ≡ []) × (length o.outbuf < 128)

pub written-append :
    (fd : ℕ) (ws : List Write) (w : Write)
    → written fd (ws ++ w ∷ []) ≡ written fd ws ++ (if w.fd == fd then w.bytes else [])
written-append fd [] w = elim (Bool-cases (w.fd == fd)) [
  | inl e ↦ rw e (append-nil w.bytes)
  | inr e ↦ rw e refl
]
written-append fd (v ∷ ws) w = elim (Bool-cases (v.fd == fd)) [
  | inl e ↦ rw e (
      ap (λ xs. v.bytes ++ xs) (written-append fd ws w)
      ∙ sym (append_assoc v.bytes (written fd ws) _))
  | inr e ↦ rw e (written-append fd ws w)
]

flush_parts :
    (last : Option ℕ) (buf : List ℕ) (ws : List Write)
    → (last ≡ none → buf ≡ [])
    → (let o : Output = record { lastfd = last; outbuf = buf; writes = ws } in
        ((fd : ℕ) → stream fd (z_flushbuf o) ≡ stream fd o)
        × ((z_flushbuf o).outbuf ≡ [])
        × ((z_flushbuf o).lastfd ≡ last))
unfolding z_flushbuf
flush_parts last [] ws owned = ((λ fd. refl), refl, refl)
flush_parts none (b ∷ buf) ws owned = absurd (let e = owned refl in cc)
flush_parts (some last) (b ∷ buf) ws owned = (
  (λ fd. elim (Bool-cases (last == fd)) [
    | inl e ↦
        rw e
          (append-nil _ ∙ written-append fd ws (record { fd = last; bytes = b ∷ buf }) ∙ rw e refl)
    | inr e ↦
        rw e
          (append-nil _ ∙ written-append fd ws (record { fd = last; bytes = b ∷ buf }) ∙ rw e refl)
  ]),
  refl,
  refl,
)

-- Flushing changes no stream and empties the buffer.
z_flushbuf-stream :
    (o : Output)
    → (o.lastfd ≡ none → o.outbuf ≡ [])
    → ((fd : ℕ) → stream fd (z_flushbuf o) ≡ stream fd o)
      × ((z_flushbuf o).outbuf ≡ [])
      × ((z_flushbuf o).lastfd ≡ o.lastfd)
z_flushbuf-stream o owned = flush_parts o.lastfd o.outbuf o.writes owned

pub stream-empty : (fd : ℕ) (o : Output) → o.outbuf ≡ [] → stream fd o ≡ written fd o.writes
stream-empty fd o e = elim (Bool-cases (is_last o.lastfd fd)) [
  | inl current ↦ rw (current, e) (append-nil _)
  | inr other ↦ rw other (append-nil _)
]

is_last-some : (last : Option ℕ) (fd : ℕ) → is_last last fd ≡ true → last ≡ some fd
is_last-some none fd e = cc
is_last-some (some last) fd e = ground arith

-- Another descriptor becomes the current one, with what was pending for the old one written.
switch_fd-stream :
    (fd : ℕ) (o : Output)
    → IsWellFormed o
    → ((other : ℕ) → stream other (switch_fd fd o) ≡ stream other o)
      × (length (switch_fd fd o).outbuf < 128)
      × ((switch_fd fd o).lastfd ≡ some fd)
unfolding switch_fd
switch_fd-stream fd o (owned, room) = elim (Bool-cases (is_last o.lastfd fd)) [
  | inl same ↦ rw same ((λ other. refl), room, is_last-some o.lastfd fd same)
  | inr new ↦
      let (kept, empty, last) = z_flushbuf-stream o owned in
      rw new (
        (λ other.
            stream-empty other (record (z_flushbuf o) { lastfd = some fd }) empty
            ∙ sym (stream-empty other (z_flushbuf o) empty)
            ∙ kept other),
        rw empty (omega arith),
        refl,
      )
]

flush_if :
    (full : Bool) (o : Output)
    → (o.lastfd ≡ none → o.outbuf ≡ [])
    → (full ≡ false → length o.outbuf < 128)
    → (let o' = if full then z_flushbuf o else o in
        IsWellFormed o' × ((fd : ℕ) → stream fd o' ≡ stream fd o))
flush_if true o owned room =
    let (kept, empty, last) = z_flushbuf-stream o owned in
    (((λ e. empty), rw empty (omega arith)), kept)
flush_if false o owned room = ((owned, room refl), λ fd. refl)

append_byte :
    (b fd : ℕ) (o : Output)
    → o.lastfd ≡ some fd
    → (let o' : Output = record o { outbuf = o.outbuf ++ b ∷ [] } in
        (stream fd o' ≡ stream fd o ++ b ∷ [])
        × ((other : ℕ) → other ≢ fd → stream other o' ≡ stream other o))
append_byte b fd o e =
    let current : is_last o.lastfd fd ≡ true = rw e (ground arith) in
    (
      rw current (sym (append_assoc (written fd o.writes) o.outbuf (b ∷ []))),
      λ other ne.
          let elsewhere : is_last o.lastfd other ≡ false = rw e (ground arith) in rw elsewhere refl,
    )

-- A character printed to a descriptor goes to the end of its stream, and to no other stream.
putcharfd-stream :
    (c fd : ℕ) (o : Output)
    → IsWellFormed o
    → IsWellFormed (putcharfd c fd o)
      × (stream fd (putcharfd c fd o) ≡ stream fd o ++ c % 2 ^ 8 ∷ [])
      × ((other : ℕ) → other ≢ fd → stream other (putcharfd c fd o) ≡ stream other o)
unfolding putcharfd
putcharfd-stream c fd o wf =
    let b = c % 2 ^ 8 in
    let (kept, room, current) = switch_fd-stream fd o wf in
    let o₁ = switch_fd fd o in
    let o₂ : Output = record o₁ { outbuf = o₁.outbuf ++ b ∷ [] } in
    let (more, others) = append_byte b fd o₁ current in
    let (wf₃, same) =
      flush_if (leb outbufsize (length o₂.outbuf) || b == 10 || b == 13) o₂
        (λ e. absurd (let e₂ = current in cc)) (λ e. ground arith) in
    (
      wf₃,
      same fd ∙ more ∙ ap (λ xs. xs ++ b ∷ []) (kept fd),
      λ other ne. same other ∙ others other ne ∙ kept other,
    )

-- Characters printed one by one to a descriptor reach its stream in order, each as a byte, and no
-- other stream, whatever was pending and however often the buffer was written out.
pub put_all-stream :
    (cs : List ℕ) (fd : ℕ) (o : Output)
    → IsWellFormed o
    → IsWellFormed (put_all cs fd o)
      × (stream fd (put_all cs fd o) ≡ stream fd o ++ map (λ c. c % 2 ^ 8) cs)
      × ((other : ℕ) → other ≢ fd → stream other (put_all cs fd o) ≡ stream other o)
unfolding put_all
put_all-stream [] fd o wf = (wf, sym (append-nil _), λ other ne. refl)
put_all-stream (c ∷ cs) fd o wf =
    let (wf₁, first, others) = putcharfd-stream c fd o wf in
    let (wf₂, rest, others₂) = put_all-stream cs fd (putcharfd c fd o) wf₁ in
    (
      wf₂,
      rest
          ∙ ap (λ xs. xs ++ map (λ c. c % 2 ^ 8) cs) first
          ∙ append_assoc (stream fd o) (c % 2 ^ 8 ∷ []) _,
      λ other ne. others₂ other ne ∙ others other ne,
    )
