-- ===== src/Tlv/Keys.antt =====
-- The images with thread-local variables, the storage of a thread for an image, and the set-up of
-- an image, in z_pthread_tlv.c.
use lib_system_call.Base.{
  ℕ, zero, suc, ◌+◌, ◌*◌, ◌/◌, ◌%◌, ◌^◌, Bool, false, not, ◌&&◌, List, [], ◌∷◌, ◌++◌, Option, none,
  some, length, ltb, ◌==◌, ◌!=◌, if◌then◌else◌,
}
use lib_system_call.Memory.{Mem, write}
use lib_system_call.Bytes.{z_memcpy}
use lib_system_call.Str.{z_malloc, ◌>>=◌}
use lib_system_call.Dir.{read_le}
use lib_system_call.Tsd.{Tsd, z_pthread_getspecific, z_pthread_setspecific, z_pthread_key_create}
use lib_system_call.Tlv.Image.{
  Section64, Slide, Template, mach_header_64, load_command, segment_command_64, section_64,
  section_type, first_command, first_section, lc_segment_64, no_slide, find_slide,
  s_thread_local_variables, s_thread_local_init_function_pointers, template_commands,
}

-- `struct z_tlv_image_info`
pub record ImageInfo : Type 0 where
  pub key : ℕ
  pub mh : ℕ

-- `tlv_live_images` up to `tlv_live_image_used_count`, or `none` for the null pointer, and
-- `tlv_live_image_alloc_count`.
pub record Images : Type 0 where
  pub live_images : Option (List ImageInfo)
  pub alloc_count : ℕ

-- The images in use.
abbrev pub used : Images → List ImageInfo
used s = elim (s.live_images) [ none ↦ [] | some infos ↦ infos ]

-- The memory, the thread's values with the keys of all threads, the images and
-- `z_pthread_tlv_terminators_key`.
pub record Tlv : Type 0 where
  pub mem : Mem
  pub tsd : Tsd
  pub images : Images
  pub terminators_key : ℕ

-- The address of the image's header, or 0.
unfoldable pub find_image : (key : ℕ) → List ImageInfo → ℕ
find_image key [] = 0
find_image key (info ∷ infos) =
    let rest = find_image key infos in if info.key == key then info.mh else rest

unfoldable pub z_pthread_tlv_get_image_for_key : (key : ℕ) → Images → ℕ
unfolding find_image
z_pthread_tlv_get_image_for_key key s = find_image key (used s)

-- The count for the next buffer.
abbrev pub new_count : Images → ℕ
new_count s = elim (s.live_images) [ none ↦ 8 | some infos ↦ 2 * s.alloc_count % 2 ^ 32 ]

-- `room` says whether `z_malloc` finds memory, which is not tested: a null pointer is written
-- through, a fault, `none`.
unfoldable pub z_pthread_tlv_set_key_for_image :
    (room : Bool) → (mh key : ℕ) → Images → Option Images
z_pthread_tlv_set_key_for_image room mh key s =
    let infos = used s ++ record { key = key; mh = mh } ∷ [] in
    let full = length (used s) == s.alloc_count in
    if full && not room
    then none
    else some (record {
      live_images = some infos;
      alloc_count = if full then new_count s else s.alloc_count;
    })

-- An initialiser of the image is a program of its own: `run func` is what the function at an
-- address does.
module _ (run : (func : ℕ) → Tlv → Tlv) where
  -- `for (j = count; j > 0; --j)`
  unfoldable pub run_functions : (funcs : ℕ) → ℕ → Tlv → Tlv
  unfolding read_le
  run_functions funcs zero s = s
  run_functions funcs (suc j) s = run_functions funcs j (run (read_le s.mem (funcs + 8 * j) 8) s)

  unfoldable pub run_sections : (slide sect : ℕ) → ℕ → Tlv → Tlv
  unfolding run_functions section_64
  run_sections slide sect zero s = s
  run_sections slide sect (suc n) s =
      let here = section_64 s.mem sect in
      run_sections slide (sect + 80) n (
        if section_type here == s_thread_local_init_function_pointers
        then run_functions ((here.addr + slide) % 2 ^ 64) (here.size / 8) s
        else s)

  -- The second pass, with so many load commands left.
  unfoldable pub run_commands : (slide cmd : ℕ) → ℕ → Tlv → Tlv
  unfolding run_sections load_command segment_command_64
  run_commands slide cmd zero s = s
  run_commands slide cmd (suc n) s =
      let s' : Tlv =
        if (load_command s.mem cmd).cmd == lc_segment_64
        then run_sections slide (first_section cmd) (segment_command_64 s.mem cmd).nsects s
        else s in
      run_commands slide (cmd + (load_command s'.mem cmd).cmdsize) n s'

  -- The copy of the template, when there is memory for it, as the value of the key.
  abbrev pub copy_template : (key : ℕ) → Template → Option ℕ × Mem → Tlv → Option (ℕ × Tlv)
  copy_template key t (none, m) s = none
  copy_template key t (some buffer, m) s = some (
    buffer,
    record s {
      mem = z_memcpy m buffer t.start t.size;
      tsd = (z_pthread_setspecific key buffer s.tsd).1;
    },
  )

  -- The result is a null pointer, 0, for an unknown key and an image without a template. `mapped` is
  -- what the system call behind z_malloc returned; z_memcpy writes through a null pointer, a fault.
  unfoldable pub z_pthread_tlv_allocate_and_initialize_for_key :
      (mapped key : ℕ) → Tlv → Option (ℕ × Tlv)
  unfolding z_pthread_tlv_get_image_for_key mach_header_64 template_commands run_commands
  z_pthread_tlv_allocate_and_initialize_for_key mapped key s =
      let mh = z_pthread_tlv_get_image_for_key key s.images in
      let ncmds = (mach_header_64 s.mem mh).ncmds in
      let (slide, t) =
        template_commands s.mem mh (first_command mh) ncmds no_slide
          (record { start = 0; size = 0; has_initializers = false }) in
      if mh == 0 then some (0, s) else if t.size == 0 then some (0, s) else (do
        (buffer, s') ← copy_template key t (z_malloc mapped s.mem t.size) s
        some (
          buffer,
          if t.has_initializers then run_commands slide.slide (first_command mh) ncmds s' else s',
        ))

  -- `d` is the address of a `struct z_tlv_descriptor`.
  unfoldable pub z_pthread_tlv_get_addr : (mapped d : ℕ) → Tlv → Option (ℕ × Tlv)
  unfolding z_pthread_tlv_allocate_and_initialize_for_key
  z_pthread_tlv_get_addr mapped d s =
      let key = read_le s.mem (d + 8) 8 in
      let val = z_pthread_getspecific key s.tsd in
      if val != 0 then some ((val + read_le s.mem (d + 16) 8) % 2 ^ 64, s) else (do
        (val', s') ← z_pthread_tlv_allocate_and_initialize_for_key mapped key s
        some ((val' + read_le s'.mem (d + 16) 8) % 2 ^ 64, s'))

-- A number of so many bytes at an address.
unfoldable pub write_le : Mem → (p : ℕ) → ℕ → (v : ℕ) → Mem
write_le m p zero v = m
write_le m p (suc n) v = write_le (write m p (v % 256)) (p + 1) n (v / 256)

-- `d->thunk = z_pthread_tlv_get_addr; d->key = key`, where `thunk` is the address of the function.
unfoldable pub set_descriptor : (thunk key : ℕ) → (d : ℕ) → Mem → Mem
unfolding write_le
set_descriptor thunk key d m = write_le (write_le m d 8 thunk) (d + 8) 8 key

-- `for (d = start; d < end; ++d)`. The first number is fuel.
unfoldable pub set_descriptors : (thunk key : ℕ) → ℕ → (d end : ℕ) → Mem → Mem
unfolding set_descriptor
set_descriptors thunk key zero d end m = m
set_descriptors thunk key (suc fuel) d end m =
    let rest = set_descriptors thunk key fuel (d + 24) end (set_descriptor thunk key d m) in
    if ltb d end then rest else m

-- `thunk` and `free` are the addresses of z_pthread_tlv_get_addr and z_pthread_tlv_free.
module _ (thunk free : ℕ) (room : Bool) where
  -- The key of the image is created when the first variables are found. `key` keeps its value where
  -- that fails.
  unfoldable pub image_key : (mh key : ℕ) → Tlv → Option (ℕ × Tlv)
  unfolding z_pthread_tlv_set_key_for_image
  image_key mh key s =
      if key == 0
      then (let ((result, created), tsd') = z_pthread_key_create free s.tsd in
          let key' = if result == 0 then created else key in
          do
            images' ← z_pthread_tlv_set_key_for_image room mh key' s.images
            some (key', record s { tsd = tsd'; images = images' }))
      else some (key, s)

  unfoldable pub variables_section : (mh slide : ℕ) → Section64 → (key : ℕ) → Tlv → Option (ℕ × Tlv)
  unfolding image_key set_descriptors
  variables_section mh slide sect key s =
      if section_type sect == s_thread_local_variables && sect.size != 0
      then (do
        (key', s') ← image_key mh key s
        some (
          key',
          record s' {
            mem =
                set_descriptors thunk key' sect.size ((sect.addr + slide) % 2 ^ 64)
                  ((sect.addr + sect.size + slide) % 2 ^ 64) s'.mem;
          },
        ))
      else some (key, s)

  unfoldable pub variables_sections : (mh slide sect : ℕ) → ℕ → (key : ℕ) → Tlv → Option (ℕ × Tlv)
  unfolding variables_section section_64
  variables_sections mh slide sect zero key s = some (key, s)
  variables_sections mh slide sect (suc n) key s = do
    (key', s') ← variables_section mh slide (section_64 s.mem sect) key s
    variables_sections mh slide (sect + 80) n key' s'

  unfoldable pub variables_commands : (mh cmd : ℕ) → ℕ → Slide → (key : ℕ) → Tlv → Option (ℕ × Tlv)
  unfolding variables_sections find_slide segment_command_64 load_command
  variables_commands mh cmd zero slide key s = some (key, s)
  variables_commands mh cmd (suc n) slide key s =
      let here = (load_command s.mem cmd).cmd == lc_segment_64 in
      let seg = segment_command_64 s.mem cmd in
      let slide' : Slide = if here then find_slide mh seg slide else slide in
      do
        (key', s') ←
            if here
            then variables_sections mh slide'.slide (first_section cmd) seg.nsects key s
            else some (key, s)
        variables_commands mh (cmd + (load_command s'.mem cmd).cmdsize) n slide' key' s'

  unfoldable pub z_pthread_tlv_initialize_descriptors : (mh : ℕ) → Tlv → Option Tlv
  unfolding variables_commands mach_header_64
  z_pthread_tlv_initialize_descriptors mh s = do
    (key, s') ←
        variables_commands mh (first_command mh) (mach_header_64 s.mem mh).ncmds no_slide 0 s
    some s'

  -- `finalize` is the address of z_pthread_tlv_finalize.
  unfoldable pub z_pthread_tlv_initializer : (finalize mh : ℕ) → Tlv → Option Tlv
  unfolding z_pthread_tlv_initialize_descriptors
  z_pthread_tlv_initializer finalize mh s =
      let ((result, key), tsd') = z_pthread_key_create finalize s.tsd in
      z_pthread_tlv_initialize_descriptors mh
        (record s { tsd = tsd'; terminators_key = if result == 0 then key else s.terminators_key })
