-- ===== src/Tlv/Descriptors.antt =====
-- What the set-up of an image does to its descriptors, and the table of images.
use lib_system_call.Base.{
  ℕ, ◌+◌, ◌*◌, ◌%◌, ◌^◌, ◌≤◌, ◌<◌, ◌≡◌, ◌≢◌, ◌⊎◌, Bool, true, false, All, All-append, ◌&&◌, ◌==◌,
  ◌!=◌, List, [], ◌∷◌, ◌++◌, Option, none, some, length, length-append, arith, refl, inl, inr,
  Bool-cases, if◌then◌else◌,
}
use lib_system_call.Memory.{Mem}
use lib_system_call.Dir.{read_le}
use lib_system_call.Tlv.Image.{Section64, section_type, s_thread_local_variables}
use lib_system_call.Tlv.Keys.{
  ImageInfo, Images, Tlv, find_image, image_key, variables_section, set_descriptors,
  z_pthread_tlv_get_image_for_key, z_pthread_tlv_set_key_for_image,
}
use lib_system_call.Tlv.Words.{set_descriptors_outside, set_descriptors_lem}

-- A buffer has room for the entries in use, each of an image, and without one there is no room.
abbrev pub IsTable : (alloc_count : ℕ) → Option (List ImageInfo) → Type 0
IsTable alloc_count none = alloc_count ≡ 0
IsTable alloc_count (some infos) =
    (0 < alloc_count) × (length infos ≤ alloc_count) × All (λ info. info.mh ≢ 0) infos

abbrev pub IsImages : Images → Type 0
IsImages s = IsTable s.alloc_count s.live_images

find_image-append :
    (key : ℕ) (infos : List ImageInfo) (info : ImageInfo)
    → All (λ i. i.mh ≢ 0) infos
    → find_image key (infos ++ info ∷ []) ≡ (
        if find_image key infos == 0
        then (if info.key == key then info.mh else 0)
        else find_image key infos)
unfolding find_image
find_image-append key [] info h = refl
find_image-append key (i ∷ infos) info h =
    let rest = find_image-append key infos info h.1 in
    let there = h.0 in
    elim (Bool-cases (i.key == key)) [
      | inl at ↦ let found : i.mh == 0 ≡ false = ground (arith, there) in rw at (rw found refl)
      | inr other ↦ rw other rest
    ]

-- What is promised of the table after the image `mh` has been stored with its key.
abbrev IsStored : (mh key : ℕ) → Images → Images → Type 0
IsStored mh key s s' =
    IsImages s'
    × ((k : ℕ)
        → z_pthread_tlv_get_image_for_key k s' ≡ (
            if z_pthread_tlv_get_image_for_key k s == 0
            then (if key == k then mh else 0)
            else z_pthread_tlv_get_image_for_key k s))

IsStored-in :
    (mh key : ℕ) (live : Option (List ImageInfo)) (count : ℕ)
    → IsTable count live
    → count < 2 ^ 31
    → mh ≢ 0
    → let s : Images = record { live_images = live; alloc_count = count } in
      (s' : Images) × (z_pthread_tlv_set_key_for_image true mh key s ≡ some s')
      × IsStored mh key s s'
unfolding z_pthread_tlv_set_key_for_image z_pthread_tlv_get_image_for_key find_image
IsStored-in mh key none count h small there = rw h (
  record { live_images = some (record { key = key; mh = mh } ∷ []); alloc_count = 8 },
  refl,
  ((omega arith, omega arith, (there, tt)), (λ k. refl)),
)
IsStored-in mh key (some infos) count (some_room, fits, headers) small there =
    let info : ImageInfo = record { key = key; mh = mh } in
    let size = length-append infos (info ∷ []) in
    let all = All-append (λ i. i.mh ≢ 0) infos (info ∷ []) headers (there, tt) in
    elim (Bool-cases (length infos == count)) [
      | inl full ↦ rw full (
        record { live_images = some (infos ++ info ∷ []); alloc_count = 2 * count % 2 ^ 32 },
        refl,
        ((omega arith, ground arith, all), (λ k. find_image-append k infos info headers)),
      )
      | inr free ↦ rw free (
        record { live_images = some (infos ++ info ∷ []); alloc_count = count },
        refl,
        ((some_room, ground arith, all), (λ k. find_image-append k infos info headers)),
      )
    ]

-- For an image with a header, when there is memory and below 2 ^ 31 images,
-- `z_pthread_tlv_set_key_for_image` keeps the table within its buffer, and afterwards the image of
-- each key is the one it had, or for the key stored that one.
pub z_pthread_tlv_set_key_for_image_lem :
    (mh key : ℕ) (s : Images)
    → IsImages s
    → s.alloc_count < 2 ^ 31
    → mh ≢ 0
    → (s' : Images) × (z_pthread_tlv_set_key_for_image true mh key s ≡ some s')
      × IsImages s'
      × ((k : ℕ)
          → z_pthread_tlv_get_image_for_key k s' ≡ (
              if z_pthread_tlv_get_image_for_key k s == 0
              then (if key == k then mh else 0)
              else z_pthread_tlv_get_image_for_key k s))
z_pthread_tlv_set_key_for_image_lem mh key s h small there =
    let (s', same, stored) = IsStored-in mh key s.live_images s.alloc_count h small there in
    (s', same, stored.0, stored.1)

-- A section of variables that holds `n` descriptors, once the image has its key, gives each of them
-- the address of `z_pthread_tlv_get_addr` and the key, keeps its offset and changes no other memory.
pub variables_section_lem :
    (thunk free : ℕ) (room : Bool) (mh slide key key' n : ℕ) (sect : Section64) (s s' : Tlv)
    → section_type sect ≡ s_thread_local_variables
    → sect.size ≡ 24 * n
    → 0 < n
    → (sect.addr + slide) % 2 ^ 64 + 24 * n < 2 ^ 64
    → image_key thunk free room mh key s ≡ some (key', s')
    → thunk < 2 ^ 64
    → key' < 2 ^ 64
    → let start = (sect.addr + slide) % 2 ^ 64 in
      (m : Mem) × (variables_section thunk free room mh slide sect key s
        ≡ some (key', record s' { mem = m }))
      × ((i : ℕ)
          → i < n
          → (read_le m (start + 24 * i) 8 ≡ thunk)
            × (read_le m (start + 24 * i + 8) 8 ≡ key')
            × (read_le m (start + 24 * i + 16) 8 ≡ read_le s'.mem (start + 24 * i + 16) 8))
      × ((a : ℕ) → (a < start) ⊎ (start + 24 * n ≤ a) → m a ≡ s'.mem a)
unfolding variables_section
variables_section_lem thunk free room mh slide key key' n sect s s' type size some_left fits found
      thunk_small key_small =
    let start = (sect.addr + slide) % 2 ^ 64 in
    let here : section_type sect == s_thread_local_variables && sect.size != 0 ≡ true =
      let nonempty : sect.size != 0 ≡ true = ground arith in rw (type, nonempty) refl in
    let finish : (sect.addr + sect.size + slide) % 2 ^ 64 ≡ start + 24 * n = omega arith in
    (
      set_descriptors thunk key' sect.size start (start + 24 * n) s'.mem,
      rw here (rw found (rw finish refl)),
      (λ i below.
          set_descriptors_lem thunk key' thunk_small key_small n sect.size start i s'.mem
            (omega arith) below),
      (λ a apart.
          set_descriptors_outside thunk key' thunk_small key_small n sect.size start s'.mem a
            (omega arith) apart),
    )
