-- ===== src/Stream/Modes.antt =====
-- What the characters of a mode mean for _z_sflags and z_fopen.
use lib_system_call.Base.{
  ℕ, ◌+◌, ◌≡◌, ◌≢◌, ◌⊎◌, ◌∙◌, Bool, true, false, List, [], ◌∷◌, ◌++◌, Option, none, some, bit_or,
  arith, refl, inl, inr, ap, Option-cases, if◌then◌else◌,
}
use lib_system_call.Memory.{Mem, IsStr}
use lib_system_call.Stream.{File, Functions, Io, srd, swr, srw}
use lib_system_call.Stream.Open.{
  base_mode, mode_suffix, z_sflags, open_flags, fill_stream, null_pointer, null_write, z_fopen,
  o_wronly, o_rdwr, o_append, o_creat, o_trunc, o_excl,
}

-- A mode of the standard: the letter, whether the stream is binary and where the `b` stands, whether
-- it is for update, and whether the file must be new.
pub data Letter : Type 0 where
  reading : Letter
  writing : Letter
  appending : Letter

pub data Kind : Type 0 where
  text : Kind
  binary : Kind
  update : Kind
  binary_update : Kind
  update_binary : Kind

abbrev pub letter_text : Letter → ℕ
letter_text reading = b'r'
letter_text writing = b'w'
letter_text appending = b'a'

abbrev pub kind_text : Kind → List ℕ
kind_text text = []
kind_text binary = b'b' ∷ []
kind_text update = b'+' ∷ []
kind_text binary_update = b'b' ∷ b'+' ∷ []
kind_text update_binary = b'+' ∷ b'b' ∷ []

abbrev pub is_update : Kind → Bool
is_update text = false
is_update binary = false
is_update update = true
is_update binary_update = true
is_update update_binary = true

abbrev pub exclusive_text : Bool → List ℕ
exclusive_text true = b'x' ∷ []
exclusive_text false = []

abbrev pub mode_text : Letter → Kind → Bool → List ℕ
mode_text l kd exclusive = letter_text l ∷ (kind_text kd ++ exclusive_text exclusive)

-- The direction of a stream, and what the file is opened for.
abbrev pub stream_flags : Letter → Kind → ℕ
stream_flags reading kd = if is_update kd then srw else srd
stream_flags writing kd = if is_update kd then srw else swr
stream_flags appending kd = if is_update kd then srw else swr

abbrev pub access_flags : Letter → Kind → ℕ
access_flags reading kd = if is_update kd then o_rdwr else 0
access_flags writing kd = if is_update kd then o_rdwr else o_wronly
access_flags appending kd = if is_update kd then o_rdwr else o_wronly

abbrev pub creation_flags : Letter → ℕ
creation_flags reading = 0
creation_flags writing = o_creat + o_trunc
creation_flags appending = o_creat + o_append

mode_suffix_lem :
    (kd : Kind) (exclusive : Bool) (mem : Mem) (mode ret m o : ℕ)
    → IsStr mem mode (kind_text kd ++ exclusive_text exclusive)
    → mode_suffix mem mode ret m o ≡ (
      if is_update kd then srw else ret,
      bit_or (if is_update kd then o_rdwr else m) (if exclusive then bit_or o o_excl else o),
    )
unfolding mode_suffix
mode_suffix_lem text true mem mode ret m o h = ground arith
mode_suffix_lem text false mem mode ret m o h = ground arith
mode_suffix_lem binary true mem mode ret m o h = ground arith
mode_suffix_lem binary false mem mode ret m o h = ground arith
mode_suffix_lem update true mem mode ret m o h = ground arith
mode_suffix_lem update false mem mode ret m o h = ground arith
mode_suffix_lem binary_update true mem mode ret m o h = ground arith
mode_suffix_lem binary_update false mem mode ret m o h = ground arith
mode_suffix_lem update_binary true mem mode ret m o h = ground arith
mode_suffix_lem update_binary false mem mode ret m o h = ground arith

reading_flags :
    (update exclusive : Bool)
    → bit_or (if update then o_rdwr else 0) (if exclusive then bit_or 0 o_excl else 0)
      ≡ (if update then o_rdwr else 0) + 0 + (if exclusive then o_excl else 0)
reading_flags true true = refl
reading_flags true false = refl
reading_flags false true = refl
reading_flags false false = refl

writing_flags :
    (o : ℕ) (update exclusive : Bool)
    → (o ≡ 0x600) ⊎ (o ≡ 0x208)
    → bit_or (if update then o_rdwr else o_wronly) (if exclusive then bit_or o o_excl else o)
      ≡ (if update then o_rdwr else o_wronly) + o + (if exclusive then o_excl else 0)
writing_flags o true true (inl e) = rw e refl
writing_flags o true false (inl e) = rw e refl
writing_flags o false true (inl e) = rw e refl
writing_flags o false false (inl e) = rw e refl
writing_flags o true true (inr e) = rw e refl
writing_flags o true false (inr e) = rw e refl
writing_flags o false true (inr e) = rw e refl
writing_flags o false false (inr e) = rw e refl

-- For each mode of the standard `_z_sflags` gives the direction of the stream and the flags of the
-- file that the mode stands for, and sets no error number.
pub z_sflags-mode :
    {σ : Type 0}
    → (l : Letter) (kd : Kind) (exclusive : Bool) (mode : ℕ) (s : Io σ)
    → IsStr s.mem mode (mode_text l kd exclusive)
    → z_sflags mode s ≡ (
      some (
        stream_flags l kd,
        access_flags l kd + creation_flags l + (if exclusive then o_excl else 0),
      ),
      s,
    )
unfolding z_sflags base_mode
z_sflags-mode reading kd exclusive mode s h =
    rw (h.0, z_sflags)
      (rw (mode_suffix_lem kd exclusive s.mem (mode + 1) srd 0 0 h.2)
        (ap (λ o. (some (stream_flags reading kd, o), s)) (reading_flags (is_update kd) exclusive)))
z_sflags-mode writing kd exclusive mode s h =
    rw (h.0, z_sflags)
      (rw (mode_suffix_lem kd exclusive s.mem (mode + 1) swr o_wronly 0x600 h.2) (
        ap (λ o. (some (stream_flags writing kd, o), s))
          (writing_flags 0x600 (is_update kd) exclusive (inl refl))))
z_sflags-mode appending kd exclusive mode s h =
    rw (h.0, z_sflags)
      (rw (mode_suffix_lem kd exclusive s.mem (mode + 1) swr o_wronly 0x208 h.2) (
        ap (λ o. (some (stream_flags appending kd, o), s))
          (writing_flags 0x208 (is_update kd) exclusive (inr refl))))

no_mode : (c : ℕ) → base_mode c ≡ none → (c ≢ b'r') × (c ≢ b'w') × (c ≢ b'a')
unfolding base_mode
no_mode c h = ground arith

z_sflags-illegal :
    {σ : Type 0} (mode : ℕ) (s : Io σ)
    → base_mode (s.mem mode) ≡ none
    → z_sflags mode s ≡ (none, record s { errno = 22 })
unfolding z_sflags
z_sflags-illegal mode s h = rw (h, z_sflags) refl

z_sflags-legal :
    {σ : Type 0} (mode ret m o : ℕ) (s : Io σ)
    → base_mode (s.mem mode) ≡ some (ret, m, o)
    → z_sflags mode s ≡ (some (mode_suffix s.mem (mode + 1) ret m o), s)
unfolding z_sflags mode_suffix
z_sflags-legal mode ret m o s h = rw (h, z_sflags) refl

-- `z_fopen` never returns a stream. A mode that begins with none of `r`, `w` and `a` ends with a null
-- pointer and the error number EINVAL, and the file is not opened; an open that fails, with the
-- flags of the mode, ends with a null pointer and what the open leaves; and every open that succeeds
-- ends with a write through a null pointer, and the descriptor stays open.
pub z_fopen_fails :
    {σ : Type 0} (k : ℕ → Functions σ) (open_file : (file oflags : ℕ) → Io σ → Option ℕ × Io σ)
    (close_file : ℕ → Io σ → Io σ) (file_at : ℕ → File) (file mode : ℕ) (s : Io σ)
    → ((s.mem mode ≢ b'r')
        × (s.mem mode ≢ b'w')
        × (s.mem mode ≢ b'a')
        × (z_fopen k open_file close_file file_at file mode s
            ≡ null_pointer (record s { errno = 22 })))
      ⊎ ((ret oflags : ℕ) × (z_sflags mode s ≡ (some (ret, oflags), s))
          × ((((open_file file oflags s).0 ≡ none)
                × (z_fopen k open_file close_file file_at file mode s
                    ≡ null_pointer (open_file file oflags s).1))
              ⊎ ((fd : ℕ) × ((open_file file oflags s).0 ≡ some fd)
                  × (z_fopen k open_file close_file file_at file mode s
                      ≡ null_write (open_file file oflags s).1))))
unfolding z_fopen open_flags fill_stream
z_fopen_fails k open_file close_file file_at file mode s =
    elim (Option-cases (base_mode (s.mem mode))) [
      | inl illegal ↦
          let (not_r, not_w, not_a) = no_mode (s.mem mode) illegal in
          inl (
            not_r,
            not_w,
            not_a,
            ap (open_flags k open_file close_file file_at file) (z_sflags-illegal mode s illegal),
          )
      | inr ((ret, m, o), legal) ↦
          let flags = z_sflags-legal mode ret m o s legal in
          let goes_on = ap (open_flags k open_file close_file file_at file) flags in
          inr (
            (mode_suffix s.mem (mode + 1) ret m o).0,
            (mode_suffix s.mem (mode + 1) ret m o).1,
            flags,
            elim (Option-cases ((open_file file ((mode_suffix s.mem (mode + 1) ret m o).1) s).0)) [
              | inl refused ↦ inl (refused, goes_on ∙ rw (refused, open_flags) refl)
              | inr (fd, opened) ↦ inr (fd, opened, goes_on ∙ rw (opened, open_flags) refl)
            ],
          )
    ]
