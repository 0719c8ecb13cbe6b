-- ===== src/Wrapper/Amount.antt =====
-- packages/stellar-sdk-wrapper/src/amount.ts: decimal money texts and on-chain units.
-- A `bigint` that the code tests to be at least 0 is a natural number.
use pakta.Base.{
  ℕ, zero, suc, ◌+◌, ◌-◌, ◌*◌, ◌/◌, ◌%◌, ◌^◌, String, Bool, true, not, ◌&&◌, List, [], ◌∷◌, ◌++◌,
  reverse, ◌≡◌, refl, ltb, leb, eqb, if◌then◌else◌, length,
}
use Prim.Native.String
use pakta.Base.Outcome.{Outcome, ok, other, ◌>>◌, require}
use pakta.Base.Pattern.{codes, whole_part, point_part, is_digits, is_canonical_whole}
use pakta.Base.Show.{digits_of, text_of_digits, show, value_from}

abbrev pub asset_decimals : ℕ
asset_decimals = 7

abbrev pub units_per_whole : ℕ
units_per_whole = 10 ^ 7

abbrev pub i128_max : ℕ
i128_max = 2 ^ 127 - 1

-- `(?:\.(\d+))?$`
abbrev is_any_fraction : List ℕ → Bool
is_any_fraction [] = true
is_any_fraction (c ∷ cs) = eqb c b'.' && is_digits cs

-- `DECIMAL_PATTERN`: `/^(0|[1-9]\d*)(?:\.(\d+))?$/`
abbrev pub is_canonical_amount : List ℕ → Bool
is_canonical_amount cs = is_canonical_whole (whole_part cs) && is_any_fraction (point_part cs)

-- The second group of the match, without the full stop; "" where there is none.
abbrev pub fraction_of : List ℕ → List ℕ
fraction_of [] = []
fraction_of (c ∷ cs) = cs

-- `padEnd(n, "0")`
abbrev pub pad_end : ℕ → List ℕ → List ℕ
pad_end zero cs = cs
pad_end (suc n) [] = b'0' ∷ pad_end n []
pad_end (suc n) (c ∷ cs) = c ∷ pad_end n cs

abbrev pub units_of_codes : List ℕ → ℕ
units_of_codes cs =
    value_from 0 (whole_part cs) * units_per_whole
    + value_from 0 (pad_end asset_decimals (fraction_of (point_part cs)))

unfoldable pub decimal_codes_to_units : List ℕ → Outcome ℕ
unfolding value_from
decimal_codes_to_units cs = do
  require (is_canonical_amount cs) (other "not a canonical decimal amount")
  require (leb (length (fraction_of (point_part cs))) asset_decimals) (other "refusing to truncate")
  let units = units_of_codes cs
  require (not (eqb units 0)) (other "a payable with no amount cannot be settled")
  require (leb units i128_max) (other "exceeds what an i128 can hold")
  ok units

unfoldable pub decimal_to_units : String → Outcome ℕ
unfolding decimal_codes_to_units
decimal_to_units amount = decimal_codes_to_units (codes amount)

-- `padStart(n, "0")` on digits.
abbrev zeros : ℕ → List ℕ
zeros zero = []
zeros (suc n) = 0 ∷ zeros n

abbrev pub pad_start : ℕ → List ℕ → List ℕ
pad_start n ds = zeros (n - length ds) ++ ds

-- The `while` loop that drops a last "0" while more than `least` digits are left, on the digits
-- from the last to the first.
unfoldable pub trim_from_last : ℕ → List ℕ → List ℕ
trim_from_last least [] = []
trim_from_last least (d ∷ ds) =
    if ltb least (length (d ∷ ds)) && eqb d 0 then trim_from_last least ds else d ∷ ds

abbrev pub trim_zeros : ℕ → List ℕ → List ℕ
trim_zeros least ds = reverse (trim_from_last least (reverse ds))

-- The text `${whole}.${trimmed}`, or the whole part alone.
abbrev join_point : ℕ → List ℕ → String
join_point whole [] = show whole
join_point whole (d ∷ ds) = String.◌++◌ (show whole) (String.◌++◌ "." (text_of_digits (d ∷ ds)))

unfoldable pub units_to_decimal : ℕ → ℕ → Outcome String
unfolding show digits_of trim_from_last
units_to_decimal units min_fraction_digits = do
  require (leb units i128_max) (other "units exceed what an i128 can hold")
  require (leb min_fraction_digits asset_decimals) (other "minFractionDigits out of range")
  let whole = units / units_per_whole
  let fraction = pad_start asset_decimals (digits_of (units % units_per_whole))
  ok (join_point whole (trim_zeros min_fraction_digits fraction))

five_thousand : units_to_decimal 50000000000 2 ≡ ok "5000.00"
unfolding units_to_decimal show
five_thousand = refl

five_thousand_back : decimal_to_units "5000.1" ≡ ok 50001000000
unfolding decimal_to_units
five_thousand_back = refl
