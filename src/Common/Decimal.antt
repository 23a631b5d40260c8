-- ===== src/Common/Decimal.antt =====
-- `format!("{}", n)` on numbers.
use Prim.Native.Nat.{ℕ, zero, suc, ◌/◌, ◌%◌}
use Prim.Native.String.{String, ◌++◌ as ◌<>◌}
use mcp_memory_rs.Common.Tests.{ltb, nat_eq, if◌then◌else◌}

digit : ℕ → String
digit n =
    if nat_eq n 0
    then "0"
    else if nat_eq n 1
    then "1"
    else if nat_eq n 2
    then "2"
    else if nat_eq n 3
    then "3"
    else if nat_eq n 4
    then "4"
    else if nat_eq n 5
    then "5"
    else if nat_eq n 6
    then "6"
    else if nat_eq n 7
    then "7"
    else if nat_eq n 8
    then "8"
    else "9"

-- A number has no more digits than its value, so that the fuel `n` is enough.
digits_before : ℕ → ℕ → String → String
digits_before zero n rest = digit n <> rest
digits_before (suc fuel) n rest =
    let more = digits_before fuel (n / 10) (digit (n % 10) <> rest) in
    if ltb n 10 then digit n <> rest else more

unfoldable pub decimal : ℕ → String
unfolding digits_before digit
decimal n = digits_before n n ""
