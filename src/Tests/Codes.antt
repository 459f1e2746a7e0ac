-- ===== src/Tests/Codes.antt =====
-- Statuses and requests at concrete numbers.
use lib_system_call.Base.{ℕ, ◌+◌, ◌≡◌, arith, refl, true, false, List, [], ◌∷◌}
use lib_system_call.Codes.{
  wstopsig, wexitstatus, wifcontinued, wifstopped, wifexited, wifsignaled, wtermsig, w_exitcode,
  w_stopcode, io, ior, iow, iowr,
}
use lib_system_call.Codes.Parts.{one_if, w_exitcode-wstatus}

-- A child that is stopped by signal 17, one that exits with 3, and one that is stopped by 17 again.
w_exitcode-wstatus_example :
    (one_if (wifcontinued 4479)
        + one_if (wifstopped 4479)
        + one_if (wifexited 4479)
        + one_if (wifsignaled 4479)
      ≡ 1)
    × (wexitstatus (w_exitcode 3 0) ≡ 3)
    × (wtermsig (w_exitcode 3 0) ≡ 0)
    × (wifexited (w_exitcode 3 0) ≡ true)
    × (wstopsig (w_stopcode 17) ≡ 17)
    × (wifcontinued (w_stopcode 17) ≡ false)
w_exitcode-wstatus_example =
    w_exitcode-wstatus 4479 3 0 17 (omega arith) (omega arith) (omega arith)

abbrev requests : List ℕ
requests = ior b't' 19 72 ∷ iow b't' 20 72 ∷ io b't' 84 ∷ iowr b't' 1 4 ∷ []

request_numbers : requests ≡ 0x40487413 ∷ 0x80487414 ∷ 0x20007454 ∷ 0xc0047401 ∷ []
request_numbers = refl
