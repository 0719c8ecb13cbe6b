-- ===== src/Base/Show.antt =====
-- `String(n)` for a whole number, and the value of a text of digits.
use Prim.Native.Nat.{ℕ, zero, suc, ◌+◌, ◌-◌, ◌*◌, ◌/◌, ◌%◌}
use Prim.Native.String.{String}
use Prim.Native.String
use mathlib.Core.List.{List, [], ◌∷◌, ◌++◌}
use pakta.Base.Int.{ℤ, pos, negsuc}
use pakta.Base.Tests.{ltb, eqb, if◌then◌else◌}

abbrev pub digit_text : ℕ → String
digit_text d =
    if eqb d 0
    then "0"
    else if eqb d 1
    then "1"
    else if eqb d 2
    then "2"
    else if eqb d 3
    then "3"
    else if eqb d 4
    then "4"
    else if eqb d 5
    then "5"
    else if eqb d 6
    then "6"
    else if eqb d 7
    then "7"
    else if eqb d 8
    then "8"
    else "9"

-- The decimal digits, the highest first, on fuel: one more than the number is enough.
unfoldable pub digits_fuel : ℕ → ℕ → List ℕ
digits_fuel zero n = []
digits_fuel (suc f) n =
    let more = digits_fuel f (n / 10) ++ (n % 10) ∷ [] in if ltb n 10 then n ∷ [] else more

unfoldable pub digits_of : ℕ → List ℕ
unfolding digits_fuel
digits_of n = digits_fuel (n + 1) n

abbrev pub text_of_digits : List ℕ → String
text_of_digits [] = ""
text_of_digits (d ∷ ds) = String.◌++◌ (digit_text d) (text_of_digits ds)

unfoldable pub show : ℕ → String
unfolding digits_of
show n = text_of_digits (digits_of n)

unfoldable pub show_ℤ : ℤ → String
unfolding show
show_ℤ (pos n) = show n
show_ℤ (negsuc n) = String.◌++◌ "-" (show (n + 1))

-- `BigInt(text)` on the code points of digits.
unfoldable pub value_from : ℕ → List ℕ → ℕ
value_from acc [] = acc
value_from acc (c ∷ cs) = value_from (acc * 10 + (c - b'0')) cs
