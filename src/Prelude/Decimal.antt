-- ===== src/Prelude/Decimal.antt =====
-- A number as a template literal prints it.
use Prim.Native.Nat.{ℕ, zero, suc, ◌/◌, ◌%◌}
use Prim.Native.String
use Prim.Native.String.{String}
use mathlib.Core.List.{List, [], ◌∷◌}
use academic_verification.Prelude.Tests.{ltb, if◌then◌else◌}

digit_of : List String → ℕ → String
digit_of [] n = ""
digit_of (d ∷ ds) zero = d
digit_of (d ∷ ds) (suc n) = digit_of ds n

digit : ℕ → String
unfolding digit_of
digit = digit_of ("0" ∷ ("1" ∷ ("2" ∷ ("3" ∷ ("4" ∷ ("5" ∷ ("6" ∷ ("7" ∷ ("8" ∷ ("9" ∷ []))))))))))

-- The first argument bounds the number of digits.
decimal_from : ℕ → ℕ → String
unfolding digit
decimal_from zero n = ""
decimal_from (suc k) n =
    let rest = String.◌++◌ (decimal_from k (n / 10)) (digit (n % 10)) in
    if ltb n 10 then digit n else rest

-- A number has at most as many digits as its successor counts.
unfoldable pub decimal : ℕ → String
unfolding decimal_from
decimal n = decimal_from (suc n) n
