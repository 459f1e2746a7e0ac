-- ===== src/Tsd.antt =====
-- Thread-specific data: z_pthread_tsd.c.
pub mod Keys
pub mod Cleanup
use lib_system_call.Base.{
  ℕ, zero, suc, ◌+◌, ◌-◌, ◌^◌, ◌%◌, Bool, true, false, ◌&&◌, ◌||◌, ltb, leb, ◌==◌, ◌!=◌,
  if◌then◌else◌,
}

-- `__pthread_tsd_first`, `__pthread_tsd_start`, `__pthread_tsd_end` and `__pthread_tsd_max`.
abbrev pub tsd_first : ℕ
tsd_first = 10

abbrev pub tsd_start : ℕ
tsd_start = 256

abbrev pub tsd_end : ℕ
tsd_end = 768

abbrev pub tsd_max : ℕ
tsd_max = 10

abbrev pub einval : ℕ
einval = 22

abbrev pub eagain : ℕ
eagain = 35

-- `z_pthread_keys`, with one destructor word a key, and the two fields of the calling thread's
-- `struct z_pthread_t` that the functions use. `max_tsd_key` is a `z_uint16`.
pub record Tsd : Type 0 where
  pub keys : ℕ → ℕ
  pub tsd : ℕ → ℕ
  pub max_tsd_key : ℕ

-- A table with one word stored.
abbrev pub put : (ℕ → ℕ) → ℕ → ℕ → ℕ → ℕ
put table key value k = if k == key then value else table k

-- `~x` on 64 bits.
abbrev pub complement : ℕ → ℕ
complement x = 2 ^ 64 - 1 - x

-- The result, and what `*destructor` receives.
abbrev pub z_pthread_key_get_destructor : ℕ → Tsd → Bool × ℕ
z_pthread_key_get_destructor key t = (t.keys key != 0, complement (t.keys key))

unfoldable pub z_pthread_key_set_destructor : ℕ → ℕ → Tsd → Bool × Tsd
z_pthread_key_set_destructor key destructor t =
    if t.keys key == 0
    then (true, record t { keys = put t.keys key (complement destructor) })
    else (false, t)

unfoldable pub z_pthread_key_unset_destructor : ℕ → Tsd → Bool × Tsd
z_pthread_key_unset_destructor key t =
    if t.keys key != 0 then (true, record t { keys = put t.keys key 0 }) else (false, t)

unfoldable pub z_pthread_setspecific : ℕ → ℕ → Tsd → ℕ × Tsd
unfolding z_pthread_key_set_destructor
z_pthread_setspecific key value t =
    if leb tsd_first key && ltb key tsd_end
    then if ltb key tsd_start || (z_pthread_key_get_destructor key t).0
      then (let t₁ : Tsd = record t { tsd = put t.tsd key value } in
          let t₂ : Tsd =
            if ltb key tsd_start then (z_pthread_key_set_destructor key 0 t₁).1 else t₁ in
          (0, if ltb t₂.max_tsd_key key then record t₂ { max_tsd_key = key % 2 ^ 16 } else t₂))
      else (einval, t)
    else (einval, t)

-- `z_pthread_getspecific` reads the word of the thread's segment, `self->tsd[key]`.
abbrev pub z_pthread_getspecific : ℕ → Tsd → ℕ
z_pthread_getspecific key t = t.tsd key

-- The loop over `n` keys from `k` on; the key, when one is free.
unfoldable pub create_loop : (n k destructor : ℕ) → Tsd → (ℕ × ℕ) × Tsd
unfolding z_pthread_key_set_destructor
create_loop zero k destructor t = ((eagain, 0), t)
create_loop (suc n) k destructor t =
    let rest = create_loop n (k + 1) destructor t in
    let (allocated, t') = z_pthread_key_set_destructor k destructor t in
    if allocated then ((0, k), t') else rest

-- The result code with `*key`, which is stored only when the code is 0.
unfoldable pub z_pthread_key_create : ℕ → Tsd → (ℕ × ℕ) × Tsd
unfolding create_loop
z_pthread_key_create destructor t = create_loop (tsd_end - tsd_start) tsd_start destructor t

unfoldable pub z_pthread_key_delete : ℕ → Tsd → ℕ × Tsd
unfolding z_pthread_key_unset_destructor
z_pthread_key_delete key t =
    if leb tsd_start key && ltb key tsd_end
    then (let (freed, t') = z_pthread_key_unset_destructor key t in
        (if freed then 0 else einval, t'))
    else (einval, t)

-- A destructor is a program of its own: `run destructor value` is what it does to the tables.
module _ (run : ℕ → ℕ → Tsd → Tsd) where
  unfoldable pub z_pthread_tsd_cleanup_key : ℕ → Tsd → Tsd
  z_pthread_tsd_cleanup_key key t =
      let (created, destructor) = z_pthread_key_get_destructor key t in
      let value = t.tsd key in
      if created && value != 0
      then (let t₁ : Tsd = record t { tsd = put t.tsd key 0 } in
          if destructor != 0 then run destructor value t₁ else t₁)
      else t

  -- `for (k = ...; k <= self->max_tsd_key; k++)`, which reads the bound anew each time. There are
  -- `n` keys from `k` to 2 ^ 16, which exceeds every `z_uint16`.
  unfoldable pub cleanup_dynamic : (n k : ℕ) → Tsd → Tsd
  unfolding z_pthread_tsd_cleanup_key
  cleanup_dynamic zero k t = t
  cleanup_dynamic (suc n) k t = elim (leb k t.max_tsd_key) [
    | true ↦ cleanup_dynamic n (k + 1) (z_pthread_tsd_cleanup_key k t)
    | false ↦ t
  ]

  -- The second loop, over `n` keys from `k` on.
  unfoldable pub cleanup_static : (n k : ℕ) → Tsd → Tsd
  unfolding z_pthread_tsd_cleanup_key
  cleanup_static zero k t = t
  cleanup_static (suc n) k t = cleanup_static n (k + 1) (z_pthread_tsd_cleanup_key k t)

  -- One round of the outer loop.
  unfoldable pub cleanup_round : Tsd → Tsd
  unfolding cleanup_dynamic cleanup_static
  cleanup_round t =
      cleanup_static (tsd_max + 1 - tsd_first) tsd_first
        (cleanup_dynamic (2 ^ 16 - tsd_start) tsd_start t)

  unfoldable pub cleanup_rounds : ℕ → Tsd → Tsd
  unfolding cleanup_round
  cleanup_rounds zero t = t
  cleanup_rounds (suc j) t = cleanup_rounds j (cleanup_round t)

  -- `PTHREAD_DESTRUCTOR_ITERATIONS` is 4.
  unfoldable pub z_pthread_tsd_cleanup_new : Tsd → Tsd
  unfolding cleanup_rounds
  z_pthread_tsd_cleanup_new t = record (cleanup_rounds 4 t) { max_tsd_key = 0 }
