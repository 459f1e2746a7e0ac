-- ===== src/Tests/Stream.antt =====
-- Streams at concrete inputs.
use lib_system_call.Base.{
  ◌-◌, ◌⊎◌, ◌≢◌, Option, none, get_or, ltb, ◌==◌, ◌≤◌, ◌<◌, ◌∙◌, inl, if◌then◌else◌, ℕ, ◌+◌, ◌≡◌,
  true, false, List, [], ◌∷◌, ◌++◌, some, arith, refl,
}
use lib_system_call.Stream.{File, Io, Functions}
use lib_system_call.Memory.{bytes_at}
use lib_system_call.Stream.Flush.{MakesProgress}
use lib_system_call.Stream.Chars.{z_getc}
use lib_system_call.Stream.Reading.{IsReading, Stands, z_getc-Stands}
use lib_system_call.Stream.Delivery.{put_and_flush, z_putc-z_fflush}
use lib_system_call.Stream.Open.{z_sflags, z_fopen, null_pointer, null_write}
use lib_system_call.Stream.Modes.{writing, update_binary, z_sflags-mode, z_fopen_fails}

-- Each write takes one byte.
abbrev byte_by_byte : Functions (List ℕ)
byte_by_byte = record {
  read = (λ buf n s. (some 0, s));
  write_out = (λ p n s. (some 1, record s { system = s.system ++ s.mem p ∷ [] }));
  has_seek = false;
  seek = (λ offset whence s. (some 0, s));
}

byte_by_byte-MakesProgress : MakesProgress byte_by_byte (λ out. out)
byte_by_byte-MakesProgress p n s some_left = (1, refl, omega arith, omega arith, refl, refl)

abbrev full_buffer : File
full_buffer = record {
  position = 103;
  read_left = 0;
  write_left = 0;
  flags = 8;
  base = 100;
  size = 4096;
  lbfsize = 0;
  offset = 0;
}

abbrev nothing_out : Io (List ℕ)
nothing_out = record { mem = (λ a. a + 7); errno = 0; system = [] }

-- "w+bx" at 100.
abbrev mode_string : Io (List ℕ)
mode_string = record {
  mem = λ a. if ltb a 100 then 0 else get_or (b'w' ∷ b'+' ∷ b'b' ∷ b'x' ∷ []) (a - 100) 0;
  errno = 0;
  system = [];
}

z_sflags-mode_example : z_sflags 100 mode_string ≡ (some (16, 2 + 1536 + 2048), mode_string)
z_sflags-mode_example = z_sflags-mode writing update_binary true 100 mode_string (omega arith)

abbrev descriptor_three : (file oflags : ℕ) → Io (List ℕ) → Option ℕ × Io (List ℕ)
descriptor_three file oflags s = (some 3, s)

abbrev closed : ℕ → Io (List ℕ) → Io (List ℕ)
closed fd s = s

z_fopen_fails_example :
    ((mode_string.mem 100 ≢ b'r')
      × (mode_string.mem 100 ≢ b'w')
      × (mode_string.mem 100 ≢ b'a')
      × (z_fopen (λ fd. byte_by_byte) descriptor_three closed (λ a. full_buffer) 200 100 mode_string
          ≡ null_pointer (record mode_string { errno = 22 })))
    ⊎ ((ret oflags : ℕ) × (z_sflags 100 mode_string ≡ (some (ret, oflags), mode_string))
        × ((((descriptor_three 200 oflags mode_string).0 ≡ none)
              × (z_fopen
                    (λ fd. byte_by_byte)
                    descriptor_three
                    closed
                    (λ a. full_buffer)
                    200
                    100
                    mode_string
                  ≡ null_pointer mode_string))
            ⊎ ((fd : ℕ) × ((descriptor_three 200 oflags mode_string).0 ≡ some fd)
                × (z_fopen
                      (λ fd'. byte_by_byte)
                      descriptor_three
                      closed
                      (λ a. full_buffer)
                      200
                      100
                      mode_string
                    ≡ null_write mode_string))))
z_fopen_fails_example =
    z_fopen_fails (λ fd. byte_by_byte) descriptor_three closed (λ a. full_buffer) 200 100
      mode_string

-- Each read gives the next byte of the file.
abbrev next_byte : (buf : ℕ) → List ℕ → Io (List ℕ) → Option ℕ × Io (List ℕ)
next_byte buf [] s = (some 0, s)
next_byte buf (x ∷ xs) s =
    (some 1, record s { mem = λ a. if a == buf then x else s.mem a; system = xs })

abbrev one_each : Functions (List ℕ)
one_each = record {
  read = (λ buf n s. next_byte buf s.system s);
  write_out = (λ p n s. (none, s));
  has_seek = false;
  seek = (λ offset whence s. (some 0, s));
}

next_byte-IsRead :
    (buf n : ℕ) (bytes : List ℕ) (s : Io (List ℕ))
    → 0 < n
    → s.system ≡ bytes
    → (let (ret, s') = next_byte buf bytes s in
        (t : ℕ) × (ret ≡ some t)
        × (t ≤ n)
        × (t ≡ 0 → s.system ≡ [])
        × (s.system ≡ bytes_at s'.mem buf t ++ s'.system))
next_byte-IsRead buf n [] s some_room same = (0, refl, omega arith, (λ at_end. same), refl)
next_byte-IsRead buf n (x ∷ xs) s some_room same =
    let here : (buf == buf) ≡ true = ground arith in
    (1, refl, omega arith, λ one. absurd (omega (arith, one)), same ∙ rw here refl)

abbrev reading_file : File
reading_file = record {
  position = 101;
  read_left = 0;
  write_left = 0;
  flags = 4;
  base = 100;
  size = 4096;
  lbfsize = 0;
  offset = 0;
}

abbrev two_bytes : List ℕ
two_bytes = 42 ∷ 43 ∷ []

abbrev two_to_come : Io (List ℕ)
two_to_come = record { mem = (λ a. 0); errno = 0; system = two_bytes }

z_getc-Stands_example :
    ((x : ℕ) × (xs' : List ℕ) × (fp' : File) × (s' : Io (List ℕ)) × (two_bytes ≡ x ∷ xs')
      × (z_getc one_each 3 reading_file two_to_come ≡ some (some x, fp', s'))
      × IsReading one_each (λ bytes. bytes) fp'
      × Stands one_each (λ bytes. bytes) fp' s' xs')
    ⊎ ((fp' : File) × (s' : Io (List ℕ)) × (two_bytes ≡ [])
        × (z_getc one_each 3 reading_file two_to_come ≡ some (none, fp', s')))
z_getc-Stands_example =
    z_getc-Stands one_each (λ bytes. bytes) 3 reading_file two_to_come two_bytes
      (λ buf n s some_room. next_byte-IsRead buf n s.system s some_room refl)
      (refl, refl, refl, refl, refl, omega arith, omega arith) (omega arith, refl)

-- A buffer of two bytes, empty.
abbrev small_buffer : File
small_buffer = record full_buffer { position = 100; size = 2 }

z_putc-z_fflush_example :
    (fp' : File) × (s' : Io (List ℕ)) × (put_and_flush byte_by_byte 3
        (b'a' ∷ b'\n' ∷ 323 ∷ [])
        small_buffer
        nothing_out
      ≡ some (true, fp', s'))
    × (s'.system ≡ b'a' ∷ b'\n' ∷ b'C' ∷ [])
z_putc-z_fflush_example =
    z_putc-z_fflush byte_by_byte (λ out. out) (b'a' ∷ b'\n' ∷ 323 ∷ []) 3 small_buffer nothing_out
      [] byte_by_byte-MakesProgress
      (refl, refl, refl, refl, refl, refl, refl, omega arith, omega arith, omega arith, omega arith)
      (omega arith, omega arith, inl (omega arith), refl) (omega arith)
