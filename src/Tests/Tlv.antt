-- ===== src/Tests/Tlv.antt =====
-- Thread-local variables at concrete inputs.
use lib_system_call.Base.{
  ℕ, ◌+◌, ◌*◌, ◌≡◌, ◌<◌, ◌≤◌, ◌⊎◌, inl, List, [], ◌∷◌, Option, none, some, true, false, ◌==◌,
  filter, refl, arith, if◌then◌else◌,
}
use lib_system_call.Memory.{Mem, blit}
use lib_system_call.Dir.{read_le}
use lib_system_call.Tlv.Terminators.{
  TerminatorEntry, TermList, is_called, atexit_all, z_pthread_tlv_exit,
}
use lib_system_call.Tlv.Termination.{Order, z_pthread_tlv_exit-Order}
use lib_system_call.Tlv.Image.{Section64, Slide, Template}
use lib_system_call.Tlv.Keys.{
  Images, Tlv, z_pthread_tlv_get_image_for_key, z_pthread_tlv_set_key_for_image, image_key,
  variables_section, z_pthread_tlv_get_addr,
}
use lib_system_call.Tlv.Descriptors.{
  IsImages, z_pthread_tlv_set_key_for_image_lem, variables_section_lem,
}
use lib_system_call.Tlv.Storage.{template_of, z_pthread_tlv_get_addr_again}

abbrev entry : ℕ → TerminatorEntry
entry f = record { term_func = f; obj_addr = 0 }

-- The function 5 registers 7 and 0, which is null.
abbrev registers : TerminatorEntry → List TerminatorEntry
registers e = if e.term_func == 5 then entry 7 ∷ entry 0 ∷ [] else []

abbrev run_order : List TerminatorEntry
run_order = entry 9 ∷ entry 5 ∷ entry 0 ∷ entry 7 ∷ entry 3 ∷ []

z_pthread_tlv_exit-Order_example :
    (slot : Option TermList) × (atexit_all true (entry 3 ∷ entry 5 ∷ entry 9 ∷ []) none ≡ some slot)
    × (z_pthread_tlv_exit registers true 5 slot ≡ some (filter is_called run_order, none))
z_pthread_tlv_exit-Order_example =
    z_pthread_tlv_exit-Order registers 5 (entry 3 ∷ entry 5 ∷ entry 9 ∷ []) run_order
      (Order.called refl Order.done (
        Order.called refl (Order.passed refl (Order.called refl Order.done Order.done))
          (Order.called refl Order.done Order.done)))
      (omega arith)

abbrev one_image : Images
one_image = record { live_images = some (record { key = 300; mh = 4096 } ∷ []); alloc_count = 8 }

z_pthread_tlv_set_key_for_image_lem_example :
    (s' : Images) × (z_pthread_tlv_set_key_for_image true 65536 301 one_image ≡ some s')
    × IsImages s'
    × ((k : ℕ)
        → z_pthread_tlv_get_image_for_key k s' ≡ (
            if z_pthread_tlv_get_image_for_key k one_image == 0
            then (if 301 == k then 65536 else 0)
            else z_pthread_tlv_get_image_for_key k one_image))
z_pthread_tlv_set_key_for_image_lem_example =
    z_pthread_tlv_set_key_for_image_lem 65536 301 one_image
      (omega arith, omega arith, (omega arith, tt)) (omega arith) (omega arith)

-- Words by address; the others are 0.
abbrev stored : List (ℕ × ℕ) → Mem
stored [] a = 0
stored ((p, v) ∷ rest) a = if a == p then v else stored rest a

-- An image at 4096 with one segment, whose one section, at 8192, is a template of four bytes, and a
-- descriptor at 12288 with the key 300 and the offset 2.
abbrev image : Mem
image = stored (
    (4112, 1)
    ∷ (4128, 0x19)
    ∷ (4132, 152)
    ∷ (4153, 0x10)
    ∷ (4176, 1)
    ∷ (4192, 1)
    ∷ (4233, 0x20)
    ∷ (4240, 4)
    ∷ (4264, 0x11)
    ∷ (8192, 7)
    ∷ (8193, 8)
    ∷ (12296, 0x2c)
    ∷ (12297, 1)
    ∷ (12304, 2)
    ∷ [])

abbrev first_use : Tlv
first_use = record {
  mem = image;
  tsd = record { keys = λ k. if k == 300 then 5 else 0; tsd = λ k. 0; max_tsd_key = 0 };
  images = one_image;
  terminators_key = 256;
}

abbrev template : Slide × Template
template = (
  record { slide = 0; computed = true },
  record { start = 8192; size = 4; has_initializers = false },
)

template_of-first_use : template_of 300 first_use ≡ template
unfolding template_of
template_of-first_use = refl

z_pthread_tlv_get_addr_again_example :
    (s' : Tlv) × (z_pthread_tlv_get_addr (λ f s. s) 16384 12288 first_use ≡ some (16386, s'))
    × ((a : ℕ) → s'.mem a ≡ blit image 16384 8192 4 a)
    × (z_pthread_tlv_get_addr (λ f s. s) 0 12288 s' ≡ some (16386, s'))
unfolding read_le z_pthread_tlv_get_image_for_key
z_pthread_tlv_get_addr_again_example =
    z_pthread_tlv_get_addr_again (λ f s. s) 16384 0 12288 template.0 template.1 first_use refl
      (omega arith) template_of-first_use (omega arith) refl (omega arith) (omega arith)
      (omega arith, omega arith, omega arith) (inl (omega arith)) (inl (omega arith))

-- Two descriptors at 12288.
abbrev variables : Section64
variables = record {
  sectname = [];
  segname = [];
  addr = 12288;
  size = 48;
  offset = 0;
  align = 3;
  reloff = 0;
  nreloc = 0;
  flags = 0x13;
  reserved1 = 0;
  reserved2 = 0;
  reserved3 = 0;
}

variables_section_lem_example :
    (m : Mem) × (variables_section 70000 71000 true 4096 0 variables 300 first_use
      ≡ some (300, record first_use { mem = m }))
    × ((i : ℕ)
        → i < 2
        → (read_le m (12288 + 24 * i) 8 ≡ 70000)
          × (read_le m (12288 + 24 * i + 8) 8 ≡ 300)
          × (read_le m (12288 + 24 * i + 16) 8 ≡ read_le image (12288 + 24 * i + 16) 8))
    × ((a : ℕ) → (a < 12288) ⊎ (12288 + 24 * 2 ≤ a) → m a ≡ image a)
unfolding image_key
variables_section_lem_example =
    variables_section_lem 70000 71000 true 4096 0 300 300 2 variables first_use first_use refl refl
      (omega arith) (omega arith) refl (omega arith) (omega arith)
