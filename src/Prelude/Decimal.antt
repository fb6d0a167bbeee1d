-- ===== src/Prelude/Decimal.antt =====
-- `std::to_string`: numbers in decimal.
use Prim.Native.Nat.{ℕ, zero, suc, ◌/◌, ◌%◌}
use Prim.Native.String.{String, ◌++◌ as concat}
use robo_baton_4p_ros2_demo.Prelude.Tests.{ltb, ◌==◌, if◌then◌else◌}
use robo_baton_4p_ros2_demo.Prelude.Int.{ℤ, pos, negsuc}

abbrev digit : ℕ → String
digit n =
    if n == 0
    then "0"
    else if n == 1
    then "1"
    else if n == 2
    then "2"
    else if n == 3
    then "3"
    else if n == 4
    then "4"
    else if n == 5
    then "5"
    else if n == 6
    then "6"
    else if n == 7
    then "7"
    else if n == 8
    then "8"
    else "9"

-- The decimal digits of a number, with the digits that are left; a uint32_t has at most ten.
unfoldable pub decimal : ℕ → ℕ → String
decimal zero n = ""
decimal (suc digits) n =
    let rest = decimal digits (n / 10) in if ltb n 10 then digit n else concat rest (digit (n % 10))

-- An `int`, with its sign.
unfoldable pub to_string : ℤ → String
unfolding decimal
to_string (pos n) = decimal 10 n
to_string (negsuc n) = concat "-" (decimal 10 (suc n))
