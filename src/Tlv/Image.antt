-- ===== src/Tlv/Image.antt =====
-- The parts of an image in memory, as z_machO.h lays them out, and the walk over its sections in
-- z_pthread_tlv_allocate_and_initialize_for_key. Numbers have their least significant byte first.
use lib_system_call.Base.{
  ℕ, zero, suc, ◌+◌, ◌-◌, ◌%◌, ◌^◌, Bool, true, false, not, ◌&&◌, List, bit_and, ◌==◌, ◌!=◌,
  if◌then◌else◌,
}
use lib_system_call.Memory.{Mem, bytes_at}
use lib_system_call.Dir.{read_le}

pub record MachHeader64 : Type 0 where
  pub magic : ℕ
  pub cputype : ℕ
  pub cpusubtype : ℕ
  pub filetype : ℕ
  pub ncmds : ℕ
  pub sizeofcmds : ℕ
  pub flags : ℕ
  pub reserved : ℕ

unfoldable pub mach_header_64 : Mem → ℕ → MachHeader64
unfolding read_le
mach_header_64 m p = record {
  magic = read_le m p 4;
  cputype = read_le m (p + 4) 4;
  cpusubtype = read_le m (p + 8) 4;
  filetype = read_le m (p + 12) 4;
  ncmds = read_le m (p + 16) 4;
  sizeofcmds = read_le m (p + 20) 4;
  flags = read_le m (p + 24) 4;
  reserved = read_le m (p + 28) 4;
}

pub record LoadCommand : Type 0 where
  pub cmd : ℕ
  pub cmdsize : ℕ

unfoldable pub load_command : Mem → ℕ → LoadCommand
unfolding read_le
load_command m p = record { cmd = read_le m p 4; cmdsize = read_le m (p + 4) 4 }

-- `cmd` and `cmdsize` are those of the load command at the same address.
pub record SegmentCommand64 : Type 0 where
  pub cmd : ℕ
  pub cmdsize : ℕ
  pub segname : List ℕ
  pub vmaddr : ℕ
  pub vmsize : ℕ
  pub fileoff : ℕ
  pub filesize : ℕ
  pub maxprot : ℕ
  pub initprot : ℕ
  pub nsects : ℕ
  pub flags : ℕ

unfoldable pub segment_command_64 : Mem → ℕ → SegmentCommand64
unfolding read_le
segment_command_64 m p = record {
  cmd = read_le m p 4;
  cmdsize = read_le m (p + 4) 4;
  segname = bytes_at m (p + 8) 16;
  vmaddr = read_le m (p + 24) 8;
  vmsize = read_le m (p + 32) 8;
  fileoff = read_le m (p + 40) 8;
  filesize = read_le m (p + 48) 8;
  maxprot = read_le m (p + 56) 4;
  initprot = read_le m (p + 60) 4;
  nsects = read_le m (p + 64) 4;
  flags = read_le m (p + 68) 4;
}

pub record Section64 : Type 0 where
  pub sectname : List ℕ
  pub segname : List ℕ
  pub addr : ℕ
  pub size : ℕ
  pub offset : ℕ
  pub align : ℕ
  pub reloff : ℕ
  pub nreloc : ℕ
  pub flags : ℕ
  pub reserved1 : ℕ
  pub reserved2 : ℕ
  pub reserved3 : ℕ

unfoldable pub section_64 : Mem → ℕ → Section64
unfolding read_le
section_64 m p = record {
  sectname = bytes_at m p 16;
  segname = bytes_at m (p + 16) 16;
  addr = read_le m (p + 32) 8;
  size = read_le m (p + 40) 8;
  offset = read_le m (p + 48) 4;
  align = read_le m (p + 52) 4;
  reloff = read_le m (p + 56) 4;
  nreloc = read_le m (p + 60) 4;
  flags = read_le m (p + 64) 4;
  reserved1 = read_le m (p + 68) 4;
  reserved2 = read_le m (p + 72) 4;
  reserved3 = read_le m (p + 76) 4;
}

-- LC_SEGMENT_64, and the types of sections.
abbrev pub lc_segment_64 : ℕ
lc_segment_64 = 0x19

abbrev pub s_thread_local_regular : ℕ
s_thread_local_regular = 0x11

abbrev pub s_thread_local_zerofill : ℕ
s_thread_local_zerofill = 0x12

abbrev pub s_thread_local_variables : ℕ
s_thread_local_variables = 0x13

abbrev pub s_thread_local_init_function_pointers : ℕ
s_thread_local_init_function_pointers = 0x15

-- `sect->flags & SECTION_TYPE`
abbrev pub section_type : Section64 → ℕ
section_type sect = bit_and sect.flags 0xff

-- Where the load commands begin, and the sections of a segment.
abbrev pub first_command : (mh : ℕ) → ℕ
first_command mh = mh + 32

abbrev pub first_section : (seg : ℕ) → ℕ
first_section seg = seg + 72

-- `slide` and `slideComputed`, set by the first segment that has bytes in the file.
pub record Slide : Type 0 where
  pub slide : ℕ
  pub computed : Bool

abbrev pub no_slide : Slide
no_slide = record { slide = 0; computed = false }

unfoldable pub find_slide : (mh : ℕ) → SegmentCommand64 → Slide → Slide
find_slide mh seg s =
    if not s.computed && seg.filesize != 0
    then record { slide = (mh + 2 ^ 64 - seg.vmaddr) % 2 ^ 64; computed = true }
    else s

-- What the first pass finds: the template, and whether there are initialisers.
pub record Template : Type 0 where
  pub start : ℕ
  pub size : ℕ
  pub has_initializers : Bool

-- The switch on the type of a section.
unfoldable pub template_section : (slide : ℕ) → Section64 → Template → Template
template_section slide sect t =
    if section_type sect == s_thread_local_init_function_pointers
    then record t { has_initializers = true }
    else if section_type sect == s_thread_local_zerofill
    then template_part
    else if section_type sect == s_thread_local_regular
    then template_part
    else t
  where
    template_part : Template
    template_part =
        if t.start == 0
        then record t { start = (sect.addr + slide) % 2 ^ 64; size = sect.size }
        else record t {
          size = ((sect.addr + slide + sect.size) % 2 ^ 64 + 2 ^ 64 - t.start) % 2 ^ 64;
        }

-- `for (sect = sectionsStart; sect < sectionsEnd; ++sect)`, with so many sections left.
unfoldable pub template_sections : Mem → (slide sect : ℕ) → ℕ → Template → Template
unfolding template_section section_64
template_sections m slide sect zero t = t
template_sections m slide sect (suc n) t =
    template_sections m slide (sect + 80) n (template_section slide (section_64 m sect) t)

-- The first pass, with so many load commands left.
unfoldable pub template_commands : Mem → (mh cmd : ℕ) → ℕ → Slide → Template → Slide × Template
unfolding find_slide template_sections segment_command_64 load_command
template_commands m mh cmd zero s t = (s, t)
template_commands m mh cmd (suc n) s t =
    let seg = segment_command_64 m cmd in
    let here = (load_command m cmd).cmd == lc_segment_64 in
    let s' : Slide = if here then find_slide mh seg s else s in
    let t' : Template =
      if here then template_sections m s'.slide (first_section cmd) seg.nsects t else t in
    template_commands m mh (cmd + (load_command m cmd).cmdsize) n s' t'
