-- ===== src/Start.antt =====
-- The start of a program: z_main.c, from `zz_main` on, and z_simple_getenv.
pub mod Order
use lib_system_call.Base.{
  ℕ, zero, suc, ◌*◌, ◌++◌, ◌+◌, ◌&&◌, if◌then◌else◌, List, [], ◌∷◌, Option, none, some, leb, ◌==◌,
  false, true,
}
use lib_system_call.Memory.{Mem}
use lib_system_call.Bytes.{z_memcmp}
use lib_system_call.Str.{z_strlen, ◌>>=◌}

-- The loop over the entries of the environment up to the null pointer.
unfoldable pub search_environment :
    (fuel : ℕ) → Mem → List ℕ → (var var_len : ℕ) → Option (Option ℕ)
unfolding z_strlen z_memcmp
search_environment fuel m [] var var_len = some none
search_environment fuel m (p ∷ envp) var var_len = elim (z_strlen fuel m p) [
  | none ↦ none
  | some p_len ↦
      elim (leb var_len p_len && z_memcmp m p var var_len == 0 && m (p + var_len) == b'=') [
        | true ↦ some (some (p + var_len + 1))
        | false ↦ search_environment fuel m envp var var_len
      ]
]

-- A null environment has no entries. The outer option is for the fuel of `z_strlen`.
unfoldable pub z_simple_getenv : (fuel : ℕ) → Mem → (envp : List ℕ) → (var : ℕ) → Option (Option ℕ)
unfolding z_strlen search_environment
z_simple_getenv fuel m envp var = do
  var_len ← z_strlen fuel m var
  search_environment fuel m envp var var_len

-- What the program sees of its start, in order: the texts printed, by their addresses, the two
-- messages, the steps of z_init, `z_main` with its arguments, and z_exit.
pub data Event : Type 0 where
  printed : (text : ℕ) → Event
  enter_z_init : Event
  enter_z_fini : Event
  call_z_get_processor_info : Event
  call_z_mach_init : Event
  call_z_pthread_set_self : Event
  call_z_pthread_init : (envp apple : ℕ) → Event
  call_z_pthread_tlv_initializer : (mh : ℕ) → Event
  call_z_atexit_init : Event
  call_z_main : (argc argv envp apple : ℕ) → Event
  call_z_exit : (status : ℕ) → Event

abbrev pub z_init : (envp apple mh : ℕ) → List Event
z_init envp apple mh =
    enter_z_init
    ∷ call_z_get_processor_info
    ∷ call_z_mach_init
    ∷ call_z_pthread_set_self
    ∷ call_z_pthread_init envp apple
    ∷ call_z_pthread_tlv_initializer mh
    ∷ call_z_atexit_init
    ∷ []

abbrev pub z_fini : List Event
z_fini = enter_z_fini ∷ []

-- `for (; *p != Z_NULL; ++p)` over pointers of 8 bytes in `w`, by their addresses: the place of the
-- null pointer, with what is printed. The first number is fuel.
unfoldable pub print_vector : ℕ → (w : ℕ → ℕ) → (p : ℕ) → Option (ℕ × List Event)
print_vector zero w p = none
print_vector (suc fuel) w p = elim (w p == 0) [
  | true ↦ some (p, [])
  | false ↦ (do (end, events) ← print_vector fuel w (p + 8); some (end, printed (w p) ∷ events))
]

-- `ret` is what `z_main` returns; z_exit does not come back.
unfoldable pub zz_main :
    (fuel : ℕ) (w : ℕ → ℕ) (argc argv dyld_header ret : ℕ) → Option (List Event)
unfolding print_vector
zz_main fuel w argc argv dyld_header ret =
    let envp = argv + 8 * (argc + 1) in
    do
      (p, environment) ← print_vector fuel w envp
      let apple = p + 8
      (q, strings) ← print_vector fuel w apple
      some (
          environment
          ++ strings
          ++ z_init envp apple dyld_header
          ++ call_z_main argc argv envp apple ∷ []
          ++ z_fini
          ++ call_z_exit ret ∷ [])
