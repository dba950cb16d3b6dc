-- ===== src/Base/Text.antt =====
-- Decimal text, as `sprintf` writes a `%d` and `std::to_string` an int.
use Prim.Native.Nat.{ℕ, zero, suc, ◌-◌, ◌/◌, ◌%◌, ◌^◌}
use Prim.Native.String.{String, ◌++◌}
use mathlib.Core.Path.{◌≡◌, refl}
use real_time_data_transfer.Base.Tests.{◌==◌, ltb, if◌then◌else◌}

digit : ℕ → String
digit d =
    if d == 0
    then "0"
    else if d == 1
    then "1"
    else if d == 2
    then "2"
    else if d == 3
    then "3"
    else if d == 4
    then "4"
    else if d == 5
    then "5"
    else if d == 6
    then "6"
    else if d == 7
    then "7"
    else if d == 8
    then "8"
    else "9"

-- At most `fuel` digits; ten are enough for an int.
digits : ℕ → ℕ → String
digits zero n = ""
digits (suc fuel) n =
    let longer = digits fuel (n / 10) ++ digit (n % 10) in if ltb n 10 then digit n else longer

unfoldable pub decimal : ℕ → String
unfolding digits digit
decimal n = digits 10 n

-- `%d` reads its argument as a 32-bit int in two's complement.
unfoldable pub sprintf_d : ℕ → String
unfolding decimal
sprintf_d n =
    let w = n % 2 ^ 32 in if ltb w (2 ^ 31) then decimal w else "-" ++ decimal (2 ^ 32 - w)

sprintf_d_runs : sprintf_d 4096 ≡ "4096"
unfolding sprintf_d
sprintf_d_runs = refl

sprintf_d_negative : sprintf_d (2 ^ 64 - 120) ≡ "-120"
unfolding sprintf_d
sprintf_d_negative = refl
