-- ===== src/Print/Format.antt =====
-- What kdoprnt prints.
use mathlib.Core.List.{map}
use lib_system_call.Base.{ℕ, ◌^◌, ◌%◌, ◌≡◌, ◌≢◌, ◌⊎◌, List, ◌++◌, Option, none, some}
use lib_system_call.Print.{Output, Arg}
use lib_system_call.Print.Stream.{written, stream}
use lib_system_call.Print.Meaning.{IsText}

-- `result` has printed a text of the format and the arguments to the descriptor, behind all that has
-- been written there, and nothing to another one, and what was pending is gone; or there is neither
-- a text nor a result.
abbrev pub Prints : (fd : ℕ) → Output → List ℕ → List Arg → (result : Option Output) → Type 0
Prints fd o fmt args result =
    (((cs : List ℕ) → ¬ IsText fmt none args cs) × (result ≡ none))
    ⊎ ((cs : List ℕ) × (o' : Output) × IsText fmt none args cs
        × (result ≡ some o')
        × (stream fd o' ≡ written fd o.writes ++ map (λ c. c % 2 ^ 8) cs)
        × ((other : ℕ) → other ≢ fd → stream other o' ≡ written other o.writes))
