-- ===== src/Thread/Handlers.antt =====
-- The order in which a fork calls its handlers.
use lib_system_call.Base.{
  ℕ, zero, suc, ◌+◌, ◌-◌, ◌^◌, ◌≡◌, ◌≢◌, true, false, List, [], ◌∷◌, ◌++◌, length, take, drop, ◌==◌,
  ◌!=◌, reverse_onto, arith, refl, sym, ap, ◌∙◌, Bool-cases, inl, inr, append_nil, append_assoc,
  reverse_onto-append, take-length,
}
use lib_system_call.Thread.Fork.{
  AtforkEntry, Event, called, saved_self, forked, not_threaded, main_thread_renewed,
  bsdthread_registered, mach_renewed, self_set, call_handler, handler_at, prepare_loop,
  forward_loop, z_pthread_atfork_prepare_handlers, z_pthread_atfork_parent_handlers,
  z_pthread_atfork_child_handlers, z_atfork_prepare, z_atfork_parent, z_atfork_child, z_fork, calls,
}

call_at : (AtforkEntry → ℕ) → List AtforkEntry → ℕ → List Event
call_at which entries at = call_handler (handler_at which entries at) []

call_handler-append :
    (handler : ℕ) (done : List Event) → call_handler handler done ≡ done ++ call_handler handler []
call_handler-append handler done = elim (Bool-cases (handler != 0)) [
  | inl there ↦ rw there refl
  | inr absent ↦ rw absent (sym (append_nil done))
]

calls-take :
    (which : AtforkEntry → ℕ) (entries : List AtforkEntry) (at : ℕ)
    → calls which (take (suc at) entries)
      ≡ calls which (take at entries) ++ call_at which entries at
unfolding call_at
calls-take which [] zero = refl
calls-take which [] (suc at) = refl
calls-take which (e ∷ entries) zero = elim (Bool-cases (which e != 0)) [
  | inl there ↦ rw there refl
  | inr absent ↦ rw absent refl
]
calls-take which (e ∷ entries) (suc at) = elim (Bool-cases (which e != 0)) [
  | inl there ↦ rw there (ap (λ es. called (which e) ∷ es) (calls-take which entries at))
  | inr absent ↦ rw absent (calls-take which entries at)
]

calls-take_nil : (which : AtforkEntry → ℕ) (left : ℕ) → [] ≡ calls which (take left [])
calls-take_nil which zero = refl
calls-take_nil which (suc left) = refl

-- At most one call has no order to reverse.
reverse_onto-call_at :
    (which : AtforkEntry → ℕ) (entries : List AtforkEntry) (at : ℕ) (later : List Event)
    → reverse_onto (call_at which entries at) later ≡ call_at which entries at ++ later
unfolding call_at
reverse_onto-call_at which entries at later = elim (Bool-cases (handler_at which entries at != 0)) [
  | inl there ↦ rw there refl
  | inr absent ↦ rw absent refl
]

calls-drop :
    (which : AtforkEntry → ℕ) (left : ℕ) (entries : List AtforkEntry) (at : ℕ)
    → calls which (take (suc left) (drop at entries))
      ≡ call_at which entries at ++ calls which (take left (drop (suc at) entries))
unfolding call_at
calls-drop which left [] zero = calls-take_nil which left
calls-drop which left [] (suc at) = calls-take_nil which left
calls-drop which left (e ∷ entries) zero = elim (Bool-cases (which e != 0)) [
  | inl there ↦ rw there refl
  | inr absent ↦ rw absent refl
]
calls-drop which left (e ∷ entries) (suc at) = calls-drop which left entries at

prepare_loop_lem :
    (at : ℕ) (entries : List AtforkEntry) (done : List Event)
    → prepare_loop at entries done
      ≡ done ++ reverse_onto (calls (λ e. e.prepare) (take at entries)) []
unfolding prepare_loop call_at
prepare_loop_lem zero entries done = sym (append_nil done)
prepare_loop_lem (suc at) entries done =
    let which : AtforkEntry → ℕ = λ e. e.prepare in
    let handler = handler_at which entries at in
    prepare_loop_lem at entries (call_handler handler done)
    ∙ rw (call_handler-append handler done, calls-take which entries at)
        (append_assoc done (call_at which entries at)
            (reverse_onto (calls which (take at entries)) [])
          ∙ ap (λ es. done ++ es)
              (sym (
                reverse_onto-append (calls which (take at entries)) (call_at which entries at) []
                ∙ reverse_onto-call_at which entries at
                    (reverse_onto (calls which (take at entries)) []))))

forward_loop_lem :
    (which : AtforkEntry → ℕ) (left at : ℕ) (entries : List AtforkEntry) (done : List Event)
    → forward_loop which left at entries done ≡ done ++ calls which (take left (drop at entries))
unfolding forward_loop call_at
forward_loop_lem which zero at entries done = sym (append_nil done)
forward_loop_lem which (suc left) at entries done =
    let handler = handler_at which entries at in
    let next : at + 1 ≡ suc at = omega arith in
    forward_loop_lem which left (at + 1) entries (call_handler handler done)
    ∙ rw (call_handler-append handler done, next, calls-drop which left entries at)
        (append_assoc done (call_at which entries at)
          (calls which (take left (drop (suc at) entries))))

z_atfork_prepare_lem :
    (entries : List AtforkEntry)
    → z_atfork_prepare entries [] ++ forked ∷ []
      ≡ reverse_onto (calls (λ e. e.prepare) entries) [] ++ saved_self ∷ forked ∷ []
unfolding z_atfork_prepare z_pthread_atfork_prepare_handlers
z_atfork_prepare_lem entries =
    let all = prepare_loop_lem (length entries) entries [] in
    rw (all, take-length entries)
      (append_assoc (reverse_onto (calls (λ e. e.prepare) entries) []) (saved_self ∷ [])
        (forked ∷ []))

z_atfork_parent_lem :
    (entries : List AtforkEntry) (done : List Event)
    → z_atfork_parent entries done ≡ done ++ calls (λ e. e.parent) entries
unfolding z_atfork_parent z_pthread_atfork_parent_handlers
z_atfork_parent_lem entries done =
    forward_loop_lem (λ e. e.parent) (length entries) 0 entries done ∙ rw (take-length entries) refl

z_atfork_child_lem :
    (entries : List AtforkEntry) (done : List Event)
    → z_atfork_child entries done
      ≡ done
        ++ not_threaded
          ∷ main_thread_renewed
          ∷ bsdthread_registered
          ∷ mach_renewed
          ∷ self_set
          ∷ calls (λ e. e.child) entries
unfolding z_atfork_child z_pthread_atfork_child_handlers
z_atfork_child_lem entries done =
    let renewed =
      not_threaded ∷ main_thread_renewed ∷ bsdthread_registered ∷ mach_renewed ∷ self_set ∷ [] in
    forward_loop_lem (λ e. e.child) (length entries) 0 entries (done ++ renewed)
    ∙ rw (take-length entries) (append_assoc done renewed (calls (λ e. e.child) entries))

-- What `z_fork` does on each of its three branches. Before the request the handlers for it run, the
-- last one of the table first. In the parent, also when the request fails, the parent's handlers
-- run in the order of the table; in the child the thread library is made anew and then the child's
-- handlers run in that order. Absent handlers are passed over. The result is the request's.
pub z_fork_lem :
    (pid : ℕ) (entries : List AtforkEntry)
    → (let before = reverse_onto (calls (λ e. e.prepare) entries) [] ++ saved_self ∷ forked ∷ [] in
        (z_fork pid entries).0 ≡ pid
        × (pid ≢ 0 → (z_fork pid entries).1 ≡ before ++ calls (λ e. e.parent) entries)
        × (pid ≡ 0
            → (z_fork pid entries).1
              ≡ before
                ++ not_threaded
                  ∷ main_thread_renewed
                  ∷ bsdthread_registered
                  ∷ mach_renewed
                  ∷ self_set
                  ∷ calls (λ e. e.child) entries))
unfolding z_fork
z_fork_lem pid entries = (
  elim (Bool-cases (pid == 2 ^ 32 - 1)) [
    | inl failed ↦ rw failed refl
    | inr done ↦ ground (arith, done)
  ],
  (λ parent. elim (Bool-cases (pid == 2 ^ 32 - 1)) [
    | inl failed ↦ rw (failed, z_atfork_prepare_lem entries) (z_atfork_parent_lem entries _)
    | inr done ↦
        let there : pid == 0 ≡ false = ground (arith, parent) in
        rw (done, there, z_atfork_prepare_lem entries) (z_atfork_parent_lem entries _)
  ]),
  (λ child.
      let other : pid == 2 ^ 32 - 1 ≡ false = ground (arith, child) in
      let there : pid == 0 ≡ true = ground (arith, child) in
      rw (other, there, z_atfork_prepare_lem entries) (z_atfork_child_lem entries _)),
)
