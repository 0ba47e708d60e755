-- ===== src/Base/Decimal.antt =====
-- The decimal digits of a number, as Rust's `Display` prints it.
use Prim.Native.Nat.{ℕ, zero, suc, ◌/◌, ◌%◌}
use Prim.Native.String.{String, ◌++◌}
use mathlib.Core.Path.{◌≡◌, refl}
use anycode.Base.Tests.{ltb, ◌==◌, if◌then◌else◌}

abbrev digit : ℕ → String
digit n =
    if n == 0
    then "0"
    else if n == 1
    then "1"
    else if n == 2
    then "2"
    else if n == 3
    then "3"
    else if n == 4
    then "4"
    else if n == 5
    then "5"
    else if n == 6
    then "6"
    else if n == 7
    then "7"
    else if n == 8
    then "8"
    else "9"

-- The fuel bounds the number of digits.
decimal_fuel : ℕ → ℕ → String
decimal_fuel zero n = ""
decimal_fuel (suc f) n =
    let front = decimal_fuel f (n / 10) in if ltb n 10 then digit n else front ++ digit (n % 10)

-- A `u16` has at most five digits.
unfoldable pub decimal_u16 : ℕ → String
unfolding decimal_fuel
decimal_u16 = decimal_fuel 5

decimal_example : decimal_u16 47190 ≡ "47190"
unfolding decimal_u16
decimal_example = refl
