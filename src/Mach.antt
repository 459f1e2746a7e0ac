-- ===== src/Mach.antt =====
-- z_mach.c: the ports of the task and the sizes of a page, which the kernel puts in a page that
-- every process can read. The reading of
-- the processor's capabilities is in z_mach.S.
use lib_system_call.Base.{
  ℕ, ◌+◌, ◌-◌, ◌^◌, ◌%◌, ◌/◌, List, [], ◌∷◌, ◌++◌, Option, none, some, leb, ◌==◌, if◌then◌else◌,
}
use lib_system_call.Memory.{Mem}
use lib_system_call.Dir.{read_le}
use lib_system_call.Str.{◌>>=◌}
use lib_system_call.Print.{Output, text, z_printf}
use lib_system_call.Calls.{Outcome, World}
use lib_system_call.Calls.Mach.{z_task_self_trap, z_mach_reply_port}

abbrev i386_pgshift : ℕ
i386_pgshift = 12

abbrev comm_page_kernel_page_shift_min_version : ℕ
comm_page_kernel_page_shift_min_version = 14

abbrev comm_page64_base_address : ℕ
comm_page64_base_address = 0x00007fffffe00000

abbrev comm_page_kernel_page_shift : ℕ
comm_page_kernel_page_shift = comm_page64_base_address + 0x04D

abbrev comm_page_version : ℕ
comm_page_version = comm_page64_base_address + 0x01E

abbrev comm_page_cpu_capabilities64 : ℕ
comm_page_cpu_capabilities64 = comm_page64_base_address + 0x010

abbrev comm_page_user_page_shift_64 : ℕ
comm_page_user_page_shift_64 = comm_page64_base_address + 0x04E

-- The variables of the file. The shifts are patterns of 32 bits.
pub record Pages : Type 0 where
  pub z_mach_task_self : ℕ
  pub z_task_reply_port : ℕ
  pub z_kernel_page_size : ℕ
  pub z_kernel_page_mask : ℕ
  pub z_kernel_page_shift : ℕ
  pub z_page_size : ℕ
  pub z_page_mask : ℕ
  pub z_page_shift : ℕ
  pub z_cpu_capabilities : ℕ

-- `1 << shift` of a z_int32, which the processor takes to the low five bits of `shift`, assigned to
-- a z_uint64.
abbrev pub one_shifted : (shift : ℕ) → ℕ
one_shifted shift =
    let bits = 2 ^ (shift % 32) in if leb (2 ^ 31) bits then bits + 2 ^ 64 - 2 ^ 32 else bits

-- A shift of the page at `at`, which is not there before version 14 of the page.
abbrev pub shift_at : Mem → (at otherwise : ℕ) → ℕ
shift_at m at otherwise =
    if leb comm_page_kernel_page_shift_min_version (read_le m comm_page_version 2)
    then m at
    else otherwise

abbrev pub kernel_pages : Mem → Pages → Pages
kernel_pages m p =
    if p.z_kernel_page_shift == 0
    then (let shift = shift_at m comm_page_kernel_page_shift i386_pgshift in
        record p {
          z_kernel_page_shift = shift;
          z_kernel_page_size = one_shifted shift;
          z_kernel_page_mask = (one_shifted shift + 2 ^ 64 - 1) % 2 ^ 64;
        })
    else p

abbrev pub user_pages : Mem → Pages → Pages
user_pages m p =
    if p.z_page_shift == 0
    then (let shift = shift_at m comm_page_user_page_shift_64 p.z_kernel_page_shift in
        record p {
          z_page_shift = shift;
          z_page_size = one_shifted shift;
          z_page_mask = (one_shifted shift + 2 ^ 64 - 1) % 2 ^ 64;
        })
    else p

abbrev pub z_get_cpu_capabilities : Mem → ℕ
z_get_cpu_capabilities m = read_le m comm_page_cpu_capabilities64 8

module _ {σ : Type 0} (kernel : ℕ → List ℕ → σ → Outcome × σ) where
  abbrev pub z_mach_init : Mem → Pages → World σ → Option (Pages × World σ)
  z_mach_init m p w = do
    (self, w1) ← z_task_self_trap kernel w
    (port, w2) ← z_mach_reply_port kernel w1
    let named = record p { z_mach_task_self = self; z_task_reply_port = port }
    let paged = user_pages m (kernel_pages m named)
    some (record paged { z_cpu_capabilities = z_get_cpu_capabilities m }, w2)

-- What the instruction cpuid leaves in eax, ebx, ecx and edx.
pub record Leaf : Type 0 where
  pub a : ℕ
  pub b : ℕ
  pub c : ℕ
  pub d : ℕ

abbrev word_bytes : ℕ → List ℕ
word_bytes w = w % 2 ^ 8 ∷ w / 2 ^ 8 % 2 ^ 8 ∷ w / 2 ^ 16 % 2 ^ 8 ∷ w / 2 ^ 24 % 2 ^ 8 ∷ []

abbrev leaf_bytes : Leaf → List ℕ
leaf_bytes l = word_bytes l.a ++ word_bytes l.b ++ word_bytes l.c ++ word_bytes l.d

-- The string in an array, or nothing where no byte of it is 0.
abbrev string_in : List ℕ → Option (List ℕ)
string_in [] = none
string_in (x ∷ xs) =
    let rest = string_in xs in
    if x == 0 then some [] else elim rest [ none ↦ none | some ys ↦ some (x ∷ ys) ]

-- The manufacturer, the model and the family are not used. An array without a 0 is read past its
-- end, `none`.
unfoldable pub z_get_processor_info : (cpuid : ℕ → Leaf) → Output → Option Output
z_get_processor_info cpuid o =
    if leb 0x80000004 (cpuid 0x80000000).a
    then (do
      name ← string_in (
          leaf_bytes (cpuid 0x80000002)
          ++ leaf_bytes (cpuid 0x80000003)
          ++ leaf_bytes (cpuid 0x80000004))
      z_printf (b'%' ∷ b's' ∷ 10 ∷ []) (text name ∷ []) o)
    else some o
