-- ===== src/Tests/Dir.antt =====
-- Runs of directories, and their theorems at concrete inputs.
use lib_system_call.Base.{
  ℕ, zero, suc, ◌+◌, ◌-◌, ◌%◌, ◌≤◌, ◌<◌, ◌≡◌, inr, true, false, List, [], ◌∷◌, ◌++◌, Option, none,
  some, ◌==◌, if◌then◌else◌, arith, leb, ◌||◌, ap, ◌∙◌, refl,
}
use lib_system_call.Memory.{Mem}
use lib_system_call.Bytes.{z_memset}
use lib_system_call.Str.{z_malloc}
use lib_system_call.Dir.{Dir, Sys, Requests, read_le, allocate, z_readdir}
use lib_system_call.Dir.Entries.{Entry, IsLaid, IsDirectory, IsOpen, Answers}
use lib_system_call.Dir.Open.{z_opendir}
use lib_system_call.Dir.Opened.{z_opendir-IsOpen}
use lib_system_call.Dir.Read.{z_readdir-Answers}

-- A whiteout and a file.
abbrev files : List Entry
files = record { ino = 7; reclen = 24; type = 14 } ∷ record { ino = 8; reclen = 24; type = 8 } ∷ []

abbrev unread : ℕ → List Entry
unread zero = []
unread (suc n) = files

-- The bytes of the two.
abbrev bytes : ℕ → ℕ
bytes i =
    if i == 0
    then 7
    else if i == 16 || i == 40
    then 24
    else if i == 20
    then 14
    else if i == 24 || i == 44
    then 8
    else 0

abbrev laid_at : ℕ → Mem
laid_at buf a = if leb buf a then bytes (a - buf) else 0

abbrev read_once : (buf base : ℕ) → Sys ℕ → (n : ℕ) → (Option ℕ × ℕ) × Sys ℕ
read_once buf base s zero = ((some 0, base), s)
read_once buf base s (suc n) = ((some 48, base), record s { mem = laid_at buf; system = zero })

-- The first read returns both entries, and all mappings are at one address.
abbrev one_batch : Requests ℕ
one_batch = record {
  getdirentries = (λ fd buf nbytes base s. read_once buf base s s.system);
  mmap = (λ size s. (4096, s));
  munmap = (λ addr size s. s);
  open_file = (λ name flags s. (some 3, s));
  openat = (λ at name flags s. (some 4, s));
  close = (λ fd s. (0, s));
  sysctl = (λ s. (1, s));
  fstatfs = (λ fd s. (some 0, s));
  lseek = (λ fd offset whence s. (some 0, s));
}

abbrev before_opening : Sys ℕ
before_opening = record { mem = (λ a. 0); errno = 0; system = 1 }

laid_at-offset : (buf i : ℕ) → laid_at buf (buf + i) ≡ bytes i
laid_at-offset buf i =
    let above : leb buf (buf + i) ≡ true = ground arith in
    let offset : buf + i - buf ≡ i = omega arith in rw (above, offset) refl

read_le-laid_at : (buf i n : ℕ) → read_le (laid_at buf) (buf + i) n ≡ read_le bytes i n
unfolding read_le
read_le-laid_at buf i zero = refl
read_le-laid_at buf i (suc n) =
    let next : buf + i + 1 ≡ buf + (i + 1) = omega arith in
    rw (laid_at-offset buf i, next, read_le-laid_at buf (i + 1) n) refl

laid : (buf : ℕ) → buf % 4 ≡ 0 → IsLaid (laid_at buf) buf files (buf + 48)
unfolding read_le
laid buf aligned =
    let start : buf ≡ buf + 0 = omega arith in
    let behind : buf + 24 + 16 ≡ buf + 40 = omega arith in
    let type : buf + 24 + 20 ≡ buf + 44 = omega arith in
    (
      (
        ap (λ p. read_le (laid_at buf) p 8) start ∙ read_le-laid_at buf 0 8,
        read_le-laid_at buf 16 2,
        laid_at-offset buf 20,
      ),
      aligned,
      omega arith,
      (
        (
          read_le-laid_at buf 24 8,
          ap (λ p. read_le (laid_at buf) p 2) behind ∙ read_le-laid_at buf 40 2,
          ap (laid_at buf) type ∙ laid_at-offset buf 44,
        ),
        omega (arith, aligned),
        omega arith,
        omega arith,
      ),
    )

read_once-reads :
    (buf nbytes base n : ℕ) (s : Sys ℕ)
    → 2048 ≤ nbytes
    → buf % 4 ≡ 0
    → (let ((size, base'), s') = read_once buf base s n in
        s.system ≡ n
        → (batch : List Entry) × (n : ℕ) × (size ≡ some n)
          × (unread s.system ≡ batch ++ unread s'.system)
          × (n ≤ nbytes)
          × IsLaid s'.mem buf batch (buf + n)
          × (batch ≡ [] → unread s.system ≡ [])
          × (n ≤ nbytes - 4 → 0 < s'.mem (buf + nbytes - 4) % 2 → unread s'.system ≡ []))
read_once-reads buf nbytes base zero s large aligned at =
    ([], 0, refl, rw at refl, omega arith, omega arith, (λ e. rw at refl), (λ e f. rw at refl))
read_once-reads buf nbytes base (suc n) s large aligned at =
    (files, 48, refl, rw at refl, omega arith, laid buf aligned, (λ e. cc), (λ e f. refl))

one_batch-IsDirectory : IsDirectory one_batch unread
one_batch-IsDirectory = record {
  reads = (λ fd buf nbytes base s large aligned.
      read_once-reads buf nbytes base s.system (record s { mem = s.mem }) large aligned refl);
  maps = (λ size s. (refl, inr refl));
  unmaps = (λ addr size s. refl);
}

abbrev opened : Option (ℕ × Dir) × Sys ℕ
unfolding z_opendir
opened = z_opendir one_batch 200 1 2 before_opening

abbrev opened_dir : Dir
opened_dir = record {
  dd_fd = 3;
  dd_loc = 0;
  dd_size = some 0;
  dd_buf = 4096;
  dd_len = 2048;
  dd_flags = record {
    hidew = true;
    nodup = true;
    readall = false;
    skipread = false;
    atend = false;
  };
  seekoff = 0;
  lh_first = none;
}

z_opendir-IsOpen_example : IsOpen unread [] opened_dir opened.1 × (true ≡ true)
unfolding opened z_opendir allocate z_malloc z_memset
z_opendir-IsOpen_example =
    z_opendir-IsOpen one_batch unread 200 1 2 4096 opened_dir before_opening opened.1
      one_batch-IsDirectory refl

opened_ready : z_opendir one_batch 200 1 2 before_opening ≡ (some (4096, opened_dir), opened.1)
unfolding opened z_opendir allocate z_malloc z_memset
opened_ready = refl

opened_unread : unread opened.1.system ≡ files
unfolding opened z_opendir allocate z_malloc
opened_unread = refl

z_readdir-Answers_example :
    Answers unread true (unread opened.1.system) (z_readdir one_batch 3 opened_dir opened.1)
z_readdir-Answers_example =
    z_readdir-Answers one_batch unread 3 [] opened_dir opened.1 one_batch-IsDirectory
      (z_opendir-IsOpen one_batch unread 200 1 2 4096 opened_dir before_opening opened.1
        one_batch-IsDirectory opened_ready).0
      (rw opened_unread (omega arith))
