-- ===== src/Tlv/Storage.antt =====
-- The storage of a thread for the variables of an image: z_pthread_tlv_get_addr.
use lib_system_call.Base.{
  ℕ, ◌+◌, ◌-◌, ◌%◌, ◌^◌, ◌≤◌, ◌<◌, ◌≡◌, ◌≢◌, ◌⊎◌, true, false, ◌||◌, ◌==◌, ◌!=◌, some, arith, refl,
  ◌∙◌,
}
use lib_system_call.Memory.{Mem, blit}
use lib_system_call.Bytes.{z_memset, z_memcpy}
use lib_system_call.Bytes.Fill.{z_memset_lem, z_memcpy-blit}
use lib_system_call.Str.{z_malloc, map_failed}
use lib_system_call.Dir.{read_le}
use lib_system_call.Tsd.{z_pthread_getspecific, z_pthread_setspecific}
use lib_system_call.Tsd.Keys.{z_pthread_getspecific-setspecific}
use lib_system_call.Tlv.Image.{
  Slide, Template, mach_header_64, first_command, no_slide, template_commands,
}
use lib_system_call.Tlv.Keys.{
  Tlv, z_pthread_tlv_get_image_for_key, z_pthread_tlv_allocate_and_initialize_for_key,
  z_pthread_tlv_get_addr,
}
use lib_system_call.Tlv.Words.{read_le_same}

-- The buffer, filled with zeros and then with the template.
filled :
    (m : Mem) (mapped start size a : ℕ)
    → (start + size ≤ mapped) ⊎ (mapped + size ≤ start)
    → z_memcpy (z_memset m mapped 0 size) mapped start size a ≡ blit m mapped start size a
filled m mapped start size a apart =
    let source = z_memset_lem m mapped 0 size (start + (a - mapped)) in
    let other = z_memset_lem m mapped 0 size a in
    z_memcpy-blit (z_memset m mapped 0 size) mapped start size a (ground (arith, apart))
    ∙ ground (arith, apart, source, other)

-- What the first pass finds in the image of a key.
unfoldable pub template_of : (key : ℕ) → Tlv → Slide × Template
unfolding z_pthread_tlv_get_image_for_key template_commands mach_header_64
template_of key s =
    let mh = z_pthread_tlv_get_image_for_key key s.images in
    template_commands s.mem mh (first_command mh) (mach_header_64 s.mem mh).ncmds no_slide
      (record { start = 0; size = 0; has_initializers = false })

-- The state after the storage has been made.
abbrev pub with_storage : (mapped key : ℕ) → Template → Tlv → Tlv
with_storage mapped key t s = record s {
  mem = z_memcpy (z_memset s.mem mapped 0 t.size) mapped t.start t.size;
  tsd = (z_pthread_setspecific key mapped s.tsd).1;
}

module _ (run : ℕ → Tlv → Tlv) where
  allocated :
      (mapped key : ℕ) (slide : Slide) (t : Template) (s : Tlv)
      → z_pthread_tlv_get_image_for_key key s.images ≢ 0
      → template_of key s ≡ (slide, t)
      → t.size ≢ 0
      → t.has_initializers ≡ false
      → mapped ≢ 0
      → mapped ≢ map_failed
      → z_pthread_tlv_allocate_and_initialize_for_key run mapped key s
        ≡ some (mapped, with_storage mapped key t s)
  unfolding z_pthread_tlv_allocate_and_initialize_for_key z_malloc template_of
  allocated mapped key slide t s image found sized plain there mappable =
      let known : z_pthread_tlv_get_image_for_key key s.images == 0 ≡ false =
        ground (arith, image) in
      let nonempty : t.size == 0 ≡ false = ground (arith, sized) in
      let given : mapped == map_failed || mapped == 0 ≡ false = ground (arith, there, mappable) in
      rw known (rw found (rw (nonempty, given) (rw plain refl)))

  -- The first use of a variable in a thread, of an image with a template and without initialisers,
  -- when there is memory apart from the template and from the variable's descriptor, makes storage
  -- for the image and fills it with the template. The result is the place of the variable in the
  -- storage, and a later use gives the same place and changes nothing.
  pub z_pthread_tlv_get_addr_again :
      (mapped later d : ℕ) (slide : Slide) (t : Template) (s : Tlv)
      → let key = read_le s.mem (d + 8) 8 in
        z_pthread_getspecific key s.tsd ≡ 0
        → z_pthread_tlv_get_image_for_key key s.images ≢ 0
        → template_of key s ≡ (slide, t)
        → t.size ≢ 0
        → t.has_initializers ≡ false
        → mapped ≢ 0
        → mapped ≢ map_failed
        → (256 ≤ key) × (key < 768) × (s.tsd.keys key ≢ 0)
        → (t.start + t.size ≤ mapped) ⊎ (mapped + t.size ≤ t.start)
        → (d + 24 ≤ mapped) ⊎ (mapped + t.size ≤ d)
        → (s' : Tlv) × (z_pthread_tlv_get_addr run mapped d s
            ≡ some ((mapped + read_le s.mem (d + 16) 8) % 2 ^ 64, s'))
          × ((a : ℕ) → s'.mem a ≡ blit s.mem mapped t.start t.size a)
          × (z_pthread_tlv_get_addr run later d s'
              ≡ some ((mapped + read_le s.mem (d + 16) 8) % 2 ^ 64, s'))
  unfolding z_pthread_tlv_get_addr
  z_pthread_tlv_get_addr_again mapped later d slide t s unset image found sized plain there mappable
        created source apart =
      let key = read_le s.mem (d + 8) 8 in
      let s' = with_storage mapped key t s in
      let first : z_pthread_getspecific key s.tsd != 0 ≡ false = ground (arith, unset) in
      let contents : (a : ℕ) → s'.mem a ≡ blit s.mem mapped t.start t.size a =
        λ a. filled s.mem mapped t.start t.size a source in
      let kept : (p : ℕ) → d ≤ p → p + 8 ≤ d + 24 → read_le s'.mem p 8 ≡ read_le s.mem p 8 =
        λ p low high.
          read_le_same 8 s'.mem s.mem p (λ a from to. contents a ∙ ground (arith, apart)) in
      let same_key : read_le s'.mem (d + 8) 8 ≡ key = kept (d + 8) (omega arith) (omega arith) in
      let same_offset : read_le s'.mem (d + 16) 8 ≡ read_le s.mem (d + 16) 8 =
        kept (d + 16) (omega arith) (omega arith) in
      let stored : z_pthread_getspecific key s'.tsd ≡ mapped =
        ground (arith, z_pthread_getspecific-setspecific key mapped s.tsd, created) in
      let again : mapped != 0 ≡ true = ground (arith, there) in
      (
        s',
        rw (first, allocated mapped key slide t s image found sized plain there mappable)
            (rw same_offset refl),
        contents,
        rw same_key (rw stored (rw again (rw same_offset refl))),
      )
