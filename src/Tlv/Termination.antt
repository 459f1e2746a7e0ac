-- ===== src/Tlv/Termination.antt =====
-- The order in which the terminators of thread-local variables are called.
use lib_system_call.Base.{
  append_nil, ◌⊎◌, ℕ, zero, suc, ◌≤◌, ◌≡◌, true, false, List, [], ◌∷◌, ◌++◌, Option, none, some,
  length, length-append, append_assoc, reverse_onto, filter, arith, refl, ap, sym, ◌∙◌, inl, inr,
  Bool-cases,
}
use lib_system_call.Tlv.Terminators.{
  grown, TerminatorEntry, TermList, is_called, atexit_all, run_entry, finalize_entries,
  z_pthread_tlv_atexit, z_pthread_tlv_exit,
}

-- A terminator that is called is followed at once by those that it registers, the last one first,
-- and what they register, and then by those before it in its list.
pub data Order (calls : TerminatorEntry → List TerminatorEntry)
    : List TerminatorEntry → List TerminatorEntry → Type 0 where
  done : Order calls [] []
  passed :
      {e : TerminatorEntry} {es gone : List TerminatorEntry}
      → is_called e ≡ false
      → Order calls es gone
      → Order calls (e ∷ es) (e ∷ gone)
  called :
      {e : TerminatorEntry} {es inner gone : List TerminatorEntry}
      → is_called e ≡ true
      → Order calls (reverse_onto (calls e) []) inner
      → Order calls es gone
      → Order calls (e ∷ es) (e ∷ inner ++ gone)

atexit_all-append :
    (es : List TerminatorEntry) (list : TermList)
    → (list' : TermList) × (atexit_all true es (some list) ≡ some (some list'))
      × (list'.entries ≡ list.entries ++ es)
unfolding atexit_all z_pthread_tlv_atexit
atexit_all-append [] list = (list, refl, sym (append_nil list.entries))
atexit_all-append (e ∷ es) list =
    let (list', same, kept) =
      atexit_all-append es (record (grown list) { entries = list.entries ++ e ∷ [] }) in
    (list', same, kept ∙ append_assoc list.entries (e ∷ []) es)

-- The first registration makes a list, in which the others follow.
registered :
    (es : List TerminatorEntry)
    → ((es ≡ []) × (atexit_all true es none ≡ some none))
      ⊎ ((list : TermList) × (atexit_all true es none ≡ some (some list)) × (list.entries ≡ es))
unfolding atexit_all z_pthread_tlv_atexit
registered [] = inl (refl, refl)
registered (e ∷ es) = inr (atexit_all-append es (record { alloc_count = 1; entries = e ∷ [] }))

module _ (calls : TerminatorEntry → List TerminatorEntry) where
  filter-append :
      (xs ys : List TerminatorEntry)
      → filter is_called (xs ++ ys) ≡ filter is_called xs ++ filter is_called ys
  filter-append [] ys = refl
  filter-append (x ∷ xs) ys =
      let rest = filter-append xs ys in
      elim (Bool-cases (is_called x)) [
        | inl at ↦ rw at (ap (λ zs. x ∷ zs) rest)
        | inr other ↦ rw other rest
      ]

  nothing_left : {fs gone : List TerminatorEntry} → Order calls fs gone → fs ≡ [] → gone ≡ []
  nothing_left done e = refl
  nothing_left (passed null rest) e = absurd cc
  nothing_left (called there nested rest) e = absurd cc

  -- With fuel for the entries gone through, all are, in that order, and no list is left.
  finalize_entries-Order :
      (fuel : ℕ) (es gone : List TerminatorEntry)
      → Order calls es gone
      → length gone ≤ fuel
      → finalize_entries calls true fuel es none ≡ some (filter is_called gone, none)
  unfolding finalize_entries run_entry
  finalize_entries-Order fuel es gone done enough = refl
  finalize_entries-Order zero es gone (passed null rest) enough = absurd (omega arith)
  finalize_entries-Order zero es gone (called there nested rest) enough = absurd (omega arith)
  finalize_entries-Order (suc fuel) es gone (passed {es = es'} {gone = gone'} null rest) enough =
      rw (null, finalize_entries-Order fuel es' gone' rest (omega arith)) refl
  finalize_entries-Order (suc fuel) es gone
        (called {e = e} {es = es'} {inner = inner} {gone = gone'} there nested rest) enough =
      let size = length-append inner gone' in
      let later = finalize_entries-Order fuel es' gone' rest (omega arith) in
      let within =
        finalize_entries-Order fuel (reverse_onto (calls e) []) inner nested (omega arith) in
      elim (registered (calls e)) [
        | inl (empty, slot) ↦
            let nothing : inner ≡ [] = nothing_left nested (ap (λ cs. reverse_onto cs []) empty) in
            rw (there, slot) (rw (later, filter-append inner gone', nothing) refl)
        | inr (list, slot, same) ↦
            rw (there, slot) (rw (same, within) (rw (later, filter-append inner gone') refl))
      ]

  -- When every allocation finds memory, the end of a thread calls the terminators of its variables,
  -- the one registered last first and each followed at once by what it registers while it runs, and
  -- passes over those that are null. For a list that ends, fuel for its length is enough, and no
  -- list is left.
  pub z_pthread_tlv_exit-Order :
      (fuel : ℕ) (es gone : List TerminatorEntry)
      → Order calls (reverse_onto es []) gone
      → length gone ≤ fuel
      → (slot : Option TermList) × (atexit_all true es none ≡ some slot)
        × (z_pthread_tlv_exit calls true fuel slot ≡ some (filter is_called gone, none))
  unfolding z_pthread_tlv_exit
  z_pthread_tlv_exit-Order fuel es gone order enough = elim (registered es) [
    | inl (empty, slot) ↦ (
      none,
      slot,
      ap (λ gs. some (filter is_called gs, none))
          (sym (nothing_left order (ap (λ fs. reverse_onto fs []) empty))),
    )
    | inr (list, slot, same) ↦ (
      some list,
      slot,
      rw same (finalize_entries-Order fuel (reverse_onto es []) gone order enough),
    )
  ]
