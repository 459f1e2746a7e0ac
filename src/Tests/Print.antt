-- ===== src/Tests/Print.antt =====
-- Runs of the printing functions, and their theorems at concrete inputs.
use lib_system_call.Base.{
  ℕ, ◌-◌, ◌^◌, ◌≡◌, [], ◌∷◌, some, none, map, ltb, get_or, if◌then◌else◌, arith, refl,
}
use lib_system_call.Memory.{Mem}
use lib_system_call.Print.{Output, word, kdoprnt, put_all}
use lib_system_call.Print.Sprintf.{sprintf_loop}
use lib_system_call.Print.Stream.{stream, put_all-stream}

-- "a" is pending for descriptor 2.
abbrev pending_a : Output
pending_a = record { lastfd = some 2; outbuf = b'a' ∷ []; writes = [] }

-- "%d\n" of -12
printed_number :
    kdoprnt 2 (b'%' ∷ b'd' ∷ 10 ∷ []) (word (2 ^ 32 - 12) ∷ []) pending_a
    ≡ some (record {
      lastfd = some 2;
      outbuf = [];
      writes = record { fd = 2; bytes = b'-' ∷ b'1' ∷ b'2' ∷ 10 ∷ [] } ∷ [];
    })
unfolding kdoprnt
printed_number = refl

put_all-stream_example : stream 2 (put_all (b'b' ∷ 10 ∷ []) 2 pending_a) ≡ b'a' ∷ b'b' ∷ 10 ∷ []
put_all-stream_example = (put_all-stream (b'b' ∷ 10 ∷ []) 2 pending_a ((λ e. cc), omega arith)).1

-- 777 in octal.
abbrev all_sevens : ℕ
all_sevens = 511

-- "%c%%", "hi" and the 0 behind them at 1000.
abbrev formats : Mem
formats a =
    if ltb a 1000
    then 255
    else get_or (b'%' ∷ b'c' ∷ b'%' ∷ b'%' ∷ 0 ∷ b'h' ∷ b'i' ∷ 0 ∷ []) (a - 1000) 255

-- The byte behind the text is left as it was.
two_conversions :
    elim (sprintf_loop 20 100 200 5 formats 2000 1000 (b'x' ∷ [])) [
      | none ↦ none
      | some (m, end) ↦ some (map m (2000 ∷ 2001 ∷ 2002 ∷ []))
    ]
    ≡ some (b'x' ∷ b'%' ∷ 255 ∷ [])
unfolding sprintf_loop
two_conversions = refl
