-- ===== src/Atexit/Order.antt =====
-- The order in which exit handlers are called.
use mathlib.Core.Option
use mathlib.Core.Path.{subst, sym}
use native.Mathlib.Numerals.{add-one}
use lib_system_call.Base.{
  ℕ, zero, suc, ◌≤◌, ◌<◌, ◌≡◌, ◌≢◌, ◌⊎◌, inl, inr, ◌∙◌, ap, Bool, true, false, List, [], ◌∷◌, ◌++◌,
  Option, none, some, length, ltb, get_elem?, length-append, if◌then◌else◌, arith, refl, Bool-cases,
  Option-cases,
}
use lib_system_call.Atexit.{
  Range, AtexitFn, Block, Registry, eligible, find_block, find_next, clear_entry, before, start,
  Position, z_atexit_register, register_all, finalize_loop, z_cxa_finalize_ranges, atexit_size,
}
use lib_system_call.Atexit.Scan.{pending, pending_slots, find_block-none, find_block-some, resume}

-- The tables hold a first block, so that `_z_atexit` is not null.
abbrev pub IsInitialised : Registry → Type 0
IsInitialised s = s.z_atexit ≢ []

module _ (ranges : List Range) where
  -- Going on from a position finds what a new scan finds.
  abbrev pub Resumes : Position → List Block → Type 0
  Resumes at bs = find_next ranges at bs ≡ find_block ranges 0 bs

  next_none :
      (at : Position) (bs : List Block)
      → Resumes at bs
      → find_next ranges at bs ≡ none
      → pending ranges bs ≡ []
  next_none at bs same e = find_block-none ranges 0 bs (ground arith)

  next_some :
      (at : Position) (bs : List Block) (i n : ℕ) (f : AtexitFn)
      → Resumes at bs
      → find_next ranges at bs ≡ some (i, n, f)
      → (pending ranges bs ≡ f ∷ pending ranges (clear_entry bs i n))
        × Resumes (before i n) (clear_entry bs i n)
  unfolding find_next
  next_some at bs i n f same e =
      let (j, place, order, again) = find_block-some ranges 0 bs i n f (ground arith) in
      let same_i : j ≡ i = omega arith in
      (
        rw same_i at order,
        sym (
            subst
              (λ q.
                find_block ranges 0 (clear_entry bs q n) ≡ resume ranges i q n (clear_entry bs q n))
              same_i again),
      )

  -- An entry goes on top of those pending, unless the ranges leave it out.
  abbrev pub push : AtexitFn → List AtexitFn → List AtexitFn
  push f fs = if eligible ranges f then f ∷ fs else fs

  abbrev pub push_all : List AtexitFn → List AtexitFn → List AtexitFn
  push_all [] fs = fs
  push_all (f ∷ new) fs = push_all new (push f fs)

  get_elem?-last : (b : Block) (f : AtexitFn) → get_elem? (b ++ f ∷ []) (length b) ≡ some f
  get_elem?-last [] f = refl
  get_elem?-last (g ∷ b) f = get_elem?-last b f

  get_elem?-front :
      (b : Block) (f : AtexitFn) (i : ℕ) → i < length b → get_elem? (b ++ f ∷ []) i ≡ get_elem? b i
  get_elem?-front [] f i h = absurd (omega arith)
  get_elem?-front (g ∷ b) f zero h = refl
  get_elem?-front (g ∷ b) f (suc i) h = get_elem?-front b f i (omega arith)

  pending_slots-front :
      (b : Block) (f : AtexitFn) (n : ℕ)
      → n ≤ length b
      → pending_slots ranges (b ++ f ∷ []) n ≡ pending_slots ranges b n
  unfolding pending_slots
  pending_slots-front b f zero h = refl
  pending_slots-front b f (suc n) h =
      ground (arith, get_elem?-front b f n, pending_slots-front b f n)

  pending_slots-snoc :
      (b : Block) (f : AtexitFn)
      → pending_slots ranges (b ++ f ∷ []) (length (b ++ f ∷ []))
        ≡ push f (pending_slots ranges b (length b))
  unfolding pending_slots
  pending_slots-snoc b f =
      rw (length-append b (f ∷ []), add-one)
        (ground (arith, get_elem?-last b f, pending_slots-front b f (length b) (omega arith)))

  append_push : (f : AtexitFn) (fs rest : List AtexitFn) → push f fs ++ rest ≡ push f (fs ++ rest)
  append_push f fs rest = elim (Bool-cases (eligible ranges f)) [
    | inl call ↦ rw call
    | inr pass ↦ rw pass
  ]

  -- What a registration with memory at hand does to the entries pending.
  abbrev Registered : AtexitFn → Registry → Type 0
  Registered f s =
      (s' : Registry) × (z_atexit_register true f s ≡ some (0, s'))
      × IsInitialised s'
      × (s'.new_registration ≡ true)
      × (pending ranges s'.z_atexit ≡ push f (pending ranges s.z_atexit))

  register_blocks :
      (f : AtexitFn) (bs : List Block) (new : Bool)
      → bs ≢ []
      → Registered f (record { z_atexit = bs; new_registration = new })
  unfolding z_atexit_register pending pending_slots
  register_blocks f [] new init = absurd (init refl)
  register_blocks f (b ∷ bs) new init = elim (Bool-cases (ltb (length b) atexit_size)) [
    | inl room ↦ rw room (
      _,
      refl,
      (λ e. cc),
      refl,
      ap (λ fs. fs ++ pending ranges bs) (pending_slots-snoc b f)
          ∙ append_push f (pending_slots ranges b (length b)) (pending ranges bs),
    )
    | inr full ↦ rw full (_, refl, (λ e. cc), refl, append_push f [] _)
  ]

  -- Registering an entry while there is memory returns 0 and puts the entry on top of those still to
  -- be called, in a new table when the first is full.
  z_atexit_register-push : (f : AtexitFn) (s : Registry) → IsInitialised s → Registered f s
  z_atexit_register-push f s init = register_blocks f s.z_atexit s.new_registration init

  register_all-push :
      (fs : List AtexitFn) (s : Registry)
      → IsInitialised s
      → (s' : Registry) × (register_all true fs s ≡ some s')
        × IsInitialised s'
        × (pending ranges s'.z_atexit ≡ push_all fs (pending ranges s.z_atexit))
        × ((fs ≡ []) × (s' ≡ s) ⊎ (s'.new_registration ≡ true))
  unfolding register_all
  register_all-push [] s init = (s, refl, init, refl, inl (refl, refl))
  register_all-push (f ∷ fs) s init =
      let (s₁, one, init₁, new, top) = z_atexit_register-push f s init in
      let (s₂, all, init₂, order, flag) = register_all-push fs s₁ init₁ in
      (
        s₂,
        rw (one, register_all) all,
        init₂,
        rw top at order,
        inr (elim flag [
          | inl same ↦ ap (λ (s : Registry). s.new_registration) same.1 ∙ new
          | inr e ↦ e
        ]),
      )

  clear_entry-ne-nil : (bs : List Block) (i n : ℕ) → bs ≢ [] → clear_entry bs i n ≢ []
  unfolding clear_entry
  clear_entry-ne-nil [] i n h = h
  clear_entry-ne-nil (b ∷ bs) zero n h = λ e. cc
  clear_entry-ne-nil (b ∷ bs) (suc i) n h = λ e. cc

  -- Where the loop goes on after a call.
  next_position :
      (fs : List AtexitFn) (s cleared : Registry) (i n : ℕ)
      → Resumes (before i n) cleared.z_atexit
      → (fs ≡ []) × (s ≡ cleared) ⊎ (s.new_registration ≡ true)
      → Resumes (if s.new_registration then start else before i n) s.z_atexit
  next_position fs s cleared i n resumes flag = elim (Bool-cases s.new_registration) [
    | inl restart ↦ rw restart (unfold find_next in refl)
    | inr go_on ↦ rw go_on (elim flag [
      | inl same ↦ subst (λ (t : Registry). Resumes (before i n) t.z_atexit) (sym same.1) resumes
      | inr new ↦ cc
    ])
  ]

map-some :
    (o : Option (List AtexitFn)) (f : AtexitFn) (fs : List AtexitFn)
    → Option.map (λ x. f ∷ x) o ≡ some fs
    → (fs' : List AtexitFn) × (o ≡ some fs') × (fs ≡ f ∷ fs')
map-some none f fs e = cc
map-some (some fs') f fs e = (fs', refl, ground arith)

module _ (calls : AtexitFn → List AtexitFn) (ranges : List Range) where
  -- The specification: a stack of entries. The top is called, and what it registers goes on top of
  -- the rest. `none` when the fuel runs out.
  unfoldable pub drain : ℕ → List AtexitFn → Option (List AtexitFn)
  drain zero stack = none
  drain (suc fuel) [] = some []
  drain (suc fuel) (f ∷ rest) =
      Option.map (λ fs. f ∷ fs) (drain fuel (push_all ranges (calls f) rest))

  finalize_loop-drain :
      (fuel : ℕ) (at : Position) (s : Registry) (fs : List AtexitFn)
      → IsInitialised s
      → Resumes ranges at s.z_atexit
      → drain fuel (pending ranges s.z_atexit) ≡ some fs
      → (s' : Registry) × (finalize_loop calls true fuel ranges at s ≡ some (fs, s'))
        × (pending ranges s'.z_atexit ≡ [])
  unfolding finalize_loop drain
  finalize_loop-drain zero at s fs init same e = cc
  finalize_loop-drain (suc fuel) at s fs init same e =
      elim (Option-cases (find_next ranges at s.z_atexit)) [
        | inl finished ↦
            let quiet = next_none ranges at s.z_atexit same finished in
            (s, rw (finished, finalize_loop) (ground (arith, quiet)), quiet)
        | inr ((i, n, f), found) ↦
            let (order, resumes) = next_some ranges at s.z_atexit i n f same found in
            let cleared : Registry = record {
              z_atexit = clear_entry s.z_atexit i n;
              new_registration = false;
            } in
            let (s₁, all, init₁, pushed, flag) =
              register_all-push ranges (calls f) cleared
                (clear_entry-ne-nil ranges s.z_atexit i n init) in
            let left = pending ranges (clear_entry s.z_atexit i n) in
            let called : drain (suc fuel) (f ∷ left) ≡ some fs = rw order at e in
            let (fs', later, whole) =
              map-some (drain fuel (push_all ranges (calls f) left)) f fs called in
            let (s₂, run, done) =
              finalize_loop-drain fuel (if s₁.new_registration then start else before i n) s₁ fs'
                init₁ (next_position ranges (calls f) s₁ cleared i n resumes flag)
                (rw pushed later) in
            (s₂, rw (found, all, run, finalize_loop) (ap (λ x. some (x, s₂)) (sym whole)), done)
      ]

  -- Whatever the handlers register, `z_cxa_finalize_ranges` runs the tables as a stack: the entry
  -- called next is the one registered last among those not yet called that the ranges admit, also
  -- when a call has registered new ones. Whenever the stack is empty within the fuel the loops end,
  -- with the same calls in the same order, and leave no admitted entry to call. There is memory for
  -- every new table.
  pub z_cxa_finalize_ranges-drain :
      (fuel : ℕ) (s : Registry) (fs : List AtexitFn)
      → IsInitialised s
      → drain fuel (pending ranges s.z_atexit) ≡ some fs
      → (s' : Registry) × (z_cxa_finalize_ranges calls true fuel ranges s ≡ some (fs, s'))
        × (pending ranges s'.z_atexit ≡ [])
  unfolding z_cxa_finalize_ranges find_next
  z_cxa_finalize_ranges-drain fuel s fs init e = finalize_loop-drain fuel start s fs init refl e

module _ (ranges : List Range) where
  drain_quiet :
      (fuel : ℕ) (fs : List AtexitFn) → length fs < fuel → drain (λ f. []) ranges fuel fs ≡ some fs
  unfolding drain
  drain_quiet zero fs h = absurd (omega arith)
  drain_quiet (suc fuel) [] h = refl
  drain_quiet (suc fuel) (f ∷ fs) h = rw (drain_quiet fuel fs (omega arith)) refl

  -- Handlers that register nothing are all called, once each and last registered first, and with
  -- fuel for one step more than there are entries the loops end.
  pub z_cxa_finalize_ranges-pending :
      (fuel : ℕ) (s : Registry)
      → IsInitialised s
      → length (pending ranges s.z_atexit) < fuel
      → (s' : Registry) × (z_cxa_finalize_ranges (λ f. []) true fuel ranges s
          ≡ some (pending ranges s.z_atexit, s'))
        × (pending ranges s'.z_atexit ≡ [])
  z_cxa_finalize_ranges-pending fuel s init h =
      z_cxa_finalize_ranges-drain (λ f. []) ranges fuel s _ init (drain_quiet fuel _ h)
