-- ===== src/Prelude/Text.antt =====
-- Texts as the program prints and compares them.
use Prim.Native.Nat.{ℕ, zero, suc, ◌+◌, ◌-◌, ◌/◌, ◌%◌}
use Prim.Native.Char.{code}
use Prim.Native.String.{String, ◌++◌, count}
use mathlib.Core.Bool.{Bool, true, false, ◌&&◌}
use kb_partners.Prelude.Tests.{ltb, leb, eqb, if◌then◌else◌}

abbrev digit : ℕ → String
digit d =
    if eqb d 0
    then "0"
    else if eqb d 1
    then "1"
    else if eqb d 2
    then "2"
    else if eqb d 3
    then "3"
    else if eqb d 4
    then "4"
    else if eqb d 5
    then "5"
    else if eqb d 6
    then "6"
    else if eqb d 7
    then "7"
    else if eqb d 8
    then "8"
    else "9"

-- Each round drops a digit, so a number of rounds above the number is enough.
unfoldable pub decimal_rounds : ℕ → ℕ → String
decimal_rounds zero n = ""
decimal_rounds (suc rounds) n =
    let front = decimal_rounds rounds (n / 10) in
    if ltb n 10 then digit n else front ++ digit (n % 10)

-- `str(n)`
unfoldable pub str_int : ℕ → String
unfolding decimal_rounds
str_int n = decimal_rounds (suc n) n

unfoldable pub zeros : ℕ → String
zeros zero = ""
zeros (suc n) = "0" ++ zeros n

-- `f"{n:08d}"`
unfoldable pub padded8 : ℕ → String
unfolding str_int zeros
padded8 n = zeros (8 - count (str_int n)) ++ str_int n

abbrev lower_code : ℕ → ℕ
lower_code c = if leb 65 c && leb c 90 then c + 32 else c

-- `s.lower() == key` for a key of small ASCII letters and signs.
unfoldable pub lower_is : String → String → Bool
lower_is String.[] String.[] = true
lower_is (String.◌∷◌ c s) (String.◌∷◌ d key) = eqb (lower_code (code c)) (code d) && lower_is s key
lower_is _ _ = false
