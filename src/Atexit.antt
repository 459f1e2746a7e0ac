-- ===== src/Atexit.antt =====
-- Exit handlers: z_atexit.c and z_atexit.h.
pub mod Scan
pub mod Order
use mathlib.Core.Option
use lib_system_call.Base.{
  ℕ, zero, suc, ◌+◌, ◌-◌, ◌^◌, ◌%◌, Bool, true, false, ◌&&◌, ◌||◌, List, [], ◌∷◌, ◌++◌, Option,
  none, some, length, drop, get_elem?, ltb, leb, ◌==◌, if◌then◌else◌,
}

-- `ATEXIT_SIZE`.
abbrev pub atexit_size : ℕ
atexit_size = 32

-- `struct z_cxa_range_t`.
pub record Range : Type 0 where
  pub addr : ℕ
  pub size : ℕ

-- `ATEXIT_FN_EMPTY`, `ATEXIT_FN_STD` and `ATEXIT_FN_CXA`.
pub data FnType : Type 0 where
  empty : FnType
  std : FnType
  cxa : FnType

-- `struct z_atexit_fn`; the union `fn_ptr` is an address of code in either case.
pub record AtexitFn : Type 0 where
  pub fn_type : FnType
  pub fn_ptr : ℕ
  pub fn_arg : ℕ
  pub fn_dso : ℕ

-- `struct z_atexit`: the slots of the table below `ind`, so that `ind` is the length. The other
-- slots are never read. A chain of tables is the list from `_z_atexit` along `next`.
abbrev pub Block : Type 0
Block = List AtexitFn

-- The two globals.
pub record Registry : Type 0 where
  pub z_atexit : List Block
  pub new_registration : Bool

unfoldable pub z_cxa_in_range : List Range → ℕ → Bool
z_cxa_in_range [] addr = false
z_cxa_in_range (r ∷ ranges) addr =
    let rest = z_cxa_in_range ranges addr in
    if ltb addr r.addr then rest else if ltb addr ((r.addr + r.size) % 2 ^ 64) then true else rest

-- `room` says whether `z_malloc` finds memory. A null `_z_atexit`, before `z_atexit_init`, is a
-- fault, `none`. The result code is 0 or the bit pattern of -1.
unfoldable pub z_atexit_register : (room : Bool) → AtexitFn → Registry → Option (ℕ × Registry)
z_atexit_register room f s = elim s.z_atexit [
  | [] ↦ none
  | b ∷ bs ↦
      if ltb (length b) atexit_size
      then some (0, record { z_atexit = (b ++ f ∷ []) ∷ bs; new_registration = true })
      else if room
      then some (0, record { z_atexit = (f ∷ []) ∷ b ∷ bs; new_registration = true })
      else some (2 ^ 32 - 1, s)
]

-- `z_atexit(func)`.
unfoldable pub z_atexit : (room : Bool) → ℕ → Registry → Option (ℕ × Registry)
unfolding z_atexit_register
z_atexit room func s =
    z_atexit_register room (record { fn_type = std; fn_ptr = func; fn_arg = 0; fn_dso = 0 }) s

-- After `z_atexit_init` there is one table with no entry.
abbrev pub z_atexit_init : Registry
z_atexit_init = record { z_atexit = [] ∷ []; new_registration = false }

-- The tests of the inner loop: an entry that has been called is passed over, and so is one that
-- is not being unloaded; `count > 0` restricts the call to the ranges.
unfoldable pub eligible : List Range → AtexitFn → Bool
eligible ranges f = elim (f.fn_type) [
  | empty ↦ false
  | cxa ↦ elim ranges [ [] ↦ true | r ∷ rs ↦ z_cxa_in_range (r ∷ rs) f.fn_dso ]
  | std ↦ elim ranges [ [] ↦ true | r ∷ rs ↦ z_cxa_in_range (r ∷ rs) f.fn_ptr ]
]

-- `for (n = p->ind; --n >= 0;)` from `n` on: the next entry to call, with its index.
pub find_slot : List Range → Block → ℕ → Option (ℕ × AtexitFn)
find_slot ranges fns zero = none
find_slot ranges fns (suc n) =
    let rest = find_slot ranges fns n in
    elim (get_elem? fns n) [
      | none ↦ none
      | some f ↦ if eligible ranges f then some (n, f) else rest
    ]

-- `for (p = _z_atexit; p; p = p->next)`; `at` is the place of the first block in the chain.
pub find_block : List Range → (at : ℕ) → List Block → Option (ℕ × ℕ × AtexitFn)
find_block ranges at [] = none
find_block ranges at (b ∷ bs) =
    let rest = find_block ranges (at + 1) bs in
    elim (find_slot ranges b (length b)) [ none ↦ rest | some (n, f) ↦ some (at, n, f) ]

-- Where the two loops stand: at the head of the chain, or in the block at a place, before the
-- entry `n - 1`.
pub data Position : Type 0 where
  start : Position
  before : (at n : ℕ) → Position

pub find_next : List Range → Position → List Block → Option (ℕ × ℕ × AtexitFn)
find_next ranges start blocks = find_block ranges 0 blocks
find_next ranges (before at n) blocks = elim (drop at blocks) [
  | [] ↦ none
  | b ∷ bs ↦ elim (find_slot ranges b n) [
    | none ↦ find_block ranges (at + 1) bs
    | some (k, f) ↦ some (at, k, f)
  ]
]

-- `fn->fn_type = ATEXIT_FN_EMPTY`.
pub clear_slot : Block → ℕ → Block
clear_slot [] n = []
clear_slot (f ∷ fns) zero = record f { fn_type = empty } ∷ fns
clear_slot (f ∷ fns) (suc n) = f ∷ clear_slot fns n

pub clear_entry : List Block → (at n : ℕ) → List Block
clear_entry [] at n = []
clear_entry (b ∷ bs) zero n = clear_slot b n ∷ bs
clear_entry (b ∷ bs) (suc at) n = b ∷ clear_entry bs at n

pub register_all : (room : Bool) → List AtexitFn → Registry → Option Registry
register_all room [] s = some s
register_all room (f ∷ fs) s = elim (z_atexit_register room f s) [
  | none ↦ none
  | some (code, s') ↦ register_all room fs s'
]

-- A handler is a program of its own; all that is used of it is what it registers, `calls`. The
-- result holds the entries called, in order. The fuel bounds the calls: handlers that register one
-- another for ever keep the loop running.
pub finalize_loop :
    (calls : AtexitFn → List AtexitFn) (room : Bool)
    → ℕ
    → List Range
    → Position
    → Registry
    → Option (List AtexitFn × Registry)
finalize_loop calls room zero ranges at s = none
finalize_loop calls room (suc fuel) ranges at s = elim (find_next ranges at s.z_atexit) [
  | none ↦ some ([], s)
  | some (i, n, f) ↦
      elim (register_all room (calls f)
        (record { z_atexit = clear_entry s.z_atexit i n; new_registration = false })) [
          | none ↦ none
          | some s' ↦
              Option.map (λ (fs, s''). (f ∷ fs, s''))
                (finalize_loop calls room fuel ranges
                  (if s'.new_registration then start else before i n) s')
        ]
]

unfoldable pub z_cxa_finalize_ranges :
    (calls : AtexitFn → List AtexitFn) (room : Bool)
    → ℕ
    → List Range
    → Registry
    → Option (List AtexitFn × Registry)
unfolding finalize_loop find_next find_block find_slot clear_entry clear_slot register_all eligible
    z_atexit_register z_cxa_in_range
z_cxa_finalize_ranges calls room fuel ranges s = finalize_loop calls room fuel ranges start s

-- `z_cxa_finalize(dso)`; a null `dso` is 0.
unfoldable pub z_cxa_finalize :
    (calls : AtexitFn → List AtexitFn) (room : Bool)
    → ℕ
    → ℕ
    → Registry
    → Option (List AtexitFn × Registry)
unfolding z_cxa_finalize_ranges
z_cxa_finalize calls room fuel dso s =
    z_cxa_finalize_ranges calls room fuel
      (if dso == 0 then [] else record { addr = dso; size = 1 } ∷ []) s
