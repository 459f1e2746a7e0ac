-- ===== src/Tests/Mach.antt =====
-- The sizes of a page where kernel and user differ.
use lib_system_call.Base.{ℕ, ◌-◌, ◌≡◌, [], ◌∷◌, get_or, ltb, ◌==◌, none, some, if◌then◌else◌, refl}
use lib_system_call.Memory.{Mem}
use lib_system_call.Dir.{read_le}
use lib_system_call.Mach.{Pages, Leaf, kernel_pages, user_pages, z_get_processor_info}
use lib_system_call.Print.{kdoprnt}

-- Version 14 at 0x01E, the shifts 12 and 14 at 0x04D and 0x04E.
abbrev comm_page : Mem
comm_page a =
    if ltb a 0x00007fffffe0004D
    then (if ltb a 0x00007fffffe0001E then 0 else get_or (14 ∷ []) (a - 0x00007fffffe0001E) 0)
    else get_or (12 ∷ 14 ∷ []) (a - 0x00007fffffe0004D) 0

abbrev unset : Pages
unset = record {
  z_mach_task_self = 0;
  z_task_reply_port = 0;
  z_kernel_page_size = 0;
  z_kernel_page_mask = 0;
  z_kernel_page_shift = 0;
  z_page_size = 0;
  z_page_mask = 0;
  z_page_shift = 0;
  z_cpu_capabilities = 0;
}

abbrev sized : Pages
sized = user_pages comm_page (kernel_pages comm_page unset)

page_sizes :
    sized.z_kernel_page_size ∷ sized.z_page_size ∷ sized.z_page_mask ∷ []
    ≡ 4096 ∷ 16384 ∷ 16383 ∷ []
unfolding read_le
page_sizes = refl

same_sizes : user_pages comm_page (kernel_pages comm_page sized) ≡ sized
unfolding read_le
same_sizes = refl

-- "ABC", and zeros.
abbrev short_name : ℕ → Leaf
short_name n = record {
  a = if n == 0x80000000 then 0x80000008 else if n == 0x80000002 then 0x434241 else 0;
  b = 0;
  c = 0;
  d = 0;
}

printed_name :
    z_get_processor_info short_name (record { lastfd = none; outbuf = []; writes = [] })
    ≡ some (record {
      lastfd = some 2;
      outbuf = [];
      writes = record { fd = 2; bytes = b'A' ∷ b'B' ∷ b'C' ∷ 10 ∷ [] } ∷ [];
    })
unfolding z_get_processor_info kdoprnt
printed_name = refl
