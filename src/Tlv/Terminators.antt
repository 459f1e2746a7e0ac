-- ===== src/Tlv/Terminators.antt =====
-- The terminators of thread-local variables: z_pthread_tlv_atexit, z_pthread_tlv_finalize_list,
-- z_pthread_tlv_finalize and z_pthread_tlv_exit. The slot of z_pthread_tlv_terminators_key is the
-- list it points to, or `none` for a null pointer.
use lib_system_call.Base.{
  ℕ, zero, suc, ◌*◌, ◌^◌, ◌%◌, Bool, not, ◌&&◌, List, [], ◌∷◌, ◌++◌, Option, none, some, length,
  reverse_onto, filter, ◌==◌, ◌!=◌, if◌then◌else◌,
}
use lib_system_call.Str.{◌>>=◌}

-- `struct z_tlv_terminator_list_entry`. Both are addresses.
pub record TerminatorEntry : Type 0 where
  pub term_func : ℕ
  pub obj_addr : ℕ

-- `struct z_tlv_terminator_list`, with the entries below `useCount`, which is their number.
pub record TermList : Type 0 where
  pub alloc_count : ℕ
  pub entries : List TerminatorEntry

-- The resizing allocation, which doubles a z_uint32.
abbrev pub grown : TermList → TermList
grown list =
    if length list.entries == list.alloc_count
    then record list { alloc_count = list.alloc_count * 2 % 2 ^ 32 }
    else list

-- `room` says whether `z_malloc` finds memory, which is not tested: a null pointer is written
-- through, a fault, `none`.
unfoldable pub z_pthread_tlv_atexit :
    (room : Bool) → TerminatorEntry → Option TermList → Option (Option TermList)
z_pthread_tlv_atexit room e none =
    if room then some (some (record { alloc_count = 1; entries = e ∷ [] })) else none
z_pthread_tlv_atexit room e (some list) =
    if not room && length list.entries == list.alloc_count
    then none
    else some (some (record (grown list) { entries = list.entries ++ e ∷ [] }))

unfoldable pub atexit_all :
    (room : Bool) → List TerminatorEntry → Option TermList → Option (Option TermList)
unfolding z_pthread_tlv_atexit
atexit_all room [] slot = some slot
atexit_all room (e ∷ es) slot = do
  slot' ← z_pthread_tlv_atexit room e slot
  atexit_all room es slot'

-- `entry->termFunc != Z_NULL`
abbrev pub is_called : TerminatorEntry → Bool
is_called e = e.term_func != 0

-- A terminator is a program of its own; all that is used of it is what it registers, `calls`.
module _ (calls : TerminatorEntry → List TerminatorEntry) (room : Bool) where
  unfoldable pub run_entry : TerminatorEntry → Option TermList → Option (Option TermList)
  unfolding atexit_all
  run_entry e slot = if is_called e then atexit_all room (calls e) slot else some slot

  -- The loop over the entries below `i`, the last one first, with the recursion for the list that a
  -- terminator leaves in the slot. The result holds the entries called, in order, and the slot. The
  -- fuel bounds the entries gone through: terminators that register one another for ever keep the
  -- loop running.
  unfoldable pub finalize_entries :
      ℕ → List TerminatorEntry → Option TermList → Option (List TerminatorEntry × Option TermList)
  unfolding run_entry
  finalize_entries fuel [] slot = some ([], slot)
  finalize_entries zero (e ∷ es) slot = none
  finalize_entries (suc fuel) (e ∷ es) slot = do
    slot₁ ← run_entry e slot
    (called, slot₂) ← elim slot₁ [
      | none ↦ some ([], none)
      | some newlist ↦ finalize_entries fuel (reverse_onto newlist.entries []) none
    ]
    (called', slot₃) ← finalize_entries fuel es slot₂
    some (filter is_called (e ∷ []) ++ called ++ called', slot₃)

  unfoldable pub z_pthread_tlv_finalize_list :
      ℕ → TermList → Option TermList → Option (List TerminatorEntry × Option TermList)
  unfolding finalize_entries
  z_pthread_tlv_finalize_list fuel list slot =
      finalize_entries fuel (reverse_onto list.entries []) slot

  abbrev pub z_pthread_tlv_finalize :
      ℕ → TermList → Option TermList → Option (List TerminatorEntry × Option TermList)
  z_pthread_tlv_finalize fuel storage slot = z_pthread_tlv_finalize_list fuel storage slot

  unfoldable pub z_pthread_tlv_exit :
      ℕ → Option TermList → Option (List TerminatorEntry × Option TermList)
  unfolding z_pthread_tlv_finalize_list
  z_pthread_tlv_exit fuel none = some ([], none)
  z_pthread_tlv_exit fuel (some list) = z_pthread_tlv_finalize fuel list none
