-- ===== src/Base/Pattern.antt =====
-- The regular expressions of the schemas, as tests on a text's code points. `\d` and the classes are
-- ASCII, and `$` is the end of the text.
use Prim.Native.Nat.{ℕ, ◌-◌}
use Prim.Native.Char.{code}
use Prim.Native.String.{String}
use mathlib.Core.Path.{◌≡◌, refl}
use mathlib.Core.Bool.{Bool, true, false, not, ◌&&◌, ◌||◌}
use text.Mathlib.TextEquality.{Char-path}
use mathlib.Core.List.{List, [], ◌∷◌}
use pakta.Base.Tests.{leb, eqb, if◌then◌else◌}
use pakta.Base.Lists.{length, all, any}

abbrev pub codes : String → List ℕ
codes String.[] = []
codes (String.◌∷◌ c s) = code c ∷ codes s

-- A text is determined by its character codes.
pub codes_injective : (s t : String) → codes s ≡ codes t → s ≡ t
codes_injective String.[] String.[] h = refl
codes_injective String.[] (String.◌∷◌ d t) h = cc h
codes_injective (String.◌∷◌ c s) String.[] h = cc h
codes_injective (String.◌∷◌ c s) (String.◌∷◌ d t) h =
    let same = Char-path c d (cc h) in let rest = codes_injective s t (cc h) in cc (same, rest)

abbrev pub is_digit : ℕ → Bool
is_digit c = leb b'0' c && leb c b'9'

abbrev pub is_lower_hex : ℕ → Bool
is_lower_hex c = is_digit c || (leb b'a' c && leb c b'f')

abbrev is_base32 : ℕ → Bool
is_base32 c = (leb b'A' c && leb c b'Z') || (leb b'2' c && leb c b'7')

-- `/^[0-9a-f]{64}$/`
abbrev pub is_hex64_codes : List ℕ → Bool
is_hex64_codes cs = eqb (length cs) 64 && all is_lower_hex cs

unfoldable pub is_hex64 : String → Bool
is_hex64 s = is_hex64_codes (codes s)

-- `/^<first>[A-Z2-7]{55}$/`
abbrev is_strkey_shape : ℕ → List ℕ → Bool
is_strkey_shape first [] = false
is_strkey_shape first (c ∷ cs) = eqb c first && eqb (length cs) 55 && all is_base32 cs

unfoldable pub is_account_shape : String → Bool
is_account_shape s = is_strkey_shape b'G' (codes s)

unfoldable pub is_contract_shape : String → Bool
is_contract_shape s = is_strkey_shape b'C' (codes s)

-- What stands in front of the first full stop.
abbrev pub whole_part : List ℕ → List ℕ
whole_part [] = []
whole_part (c ∷ cs) = if eqb c b'.' then [] else c ∷ whole_part cs

-- What stands from the first full stop on, the stop included.
abbrev pub point_part : List ℕ → List ℕ
point_part [] = []
point_part (c ∷ cs) = if eqb c b'.' then c ∷ cs else point_part cs

-- `\d+`
abbrev pub is_digits : List ℕ → Bool
is_digits [] = false
is_digits (c ∷ cs) = is_digit c && all is_digit cs

-- `0|[1-9]\d*`
abbrev pub is_canonical_whole : List ℕ → Bool
is_canonical_whole [] = false
is_canonical_whole (c ∷ []) = is_digit c
is_canonical_whole (c ∷ cs) = is_digit c && not (eqb c b'0') && all is_digit cs

-- `(\.\d{1,most})?`
abbrev pub is_fraction_within : ℕ → List ℕ → Bool
is_fraction_within most [] = true
is_fraction_within most (c ∷ cs) = eqb c b'.' && is_digits cs && leb (length cs) most

-- `/^\d+(\.\d{1,2})?$/`
unfoldable pub is_decimal_string : String → Bool
is_decimal_string s =
    is_digits (whole_part (codes s)) && is_fraction_within 2 (point_part (codes s))

-- `/^(0|[1-9]\d*)(\.\d{1,7})?$/`, and `Number(value) > 0`: a digit that is not 0.
unfoldable pub is_proof_amount : String → Bool
is_proof_amount s =
    is_canonical_whole (whole_part (codes s))
    && is_fraction_within 7 (point_part (codes s))
    && any (λ c. is_digit c && not (eqb c b'0')) (codes s)

-- A text against a pattern of the same length, in which `d` stands for a digit.
abbrev fits_pattern : List ℕ → List ℕ → Bool
fits_pattern [] [] = true
fits_pattern (p ∷ ps) (c ∷ cs) = (if eqb p b'd' then is_digit c else eqb p c) && fits_pattern ps cs
fits_pattern _ _ = false

-- `/^\d{4}-\d{2}-\d{2}T\d{2}:\d{2}:\d{2}Z$/`
unfoldable pub is_utc_seconds : String → Bool
is_utc_seconds s = fits_pattern (codes "dddd-dd-ddTdd:dd:ddZ") (codes s)

abbrev is_base64 : ℕ → Bool
is_base64 c =
    (leb b'A' c && leb c b'Z')
    || (leb b'a' c && leb c b'z')
    || is_digit c
    || eqb c b'+'
    || eqb c b'/'

-- `{most}` characters of a class and then a fixed end.
abbrev counted_then : (ℕ → Bool) → ℕ → List ℕ → List ℕ → Bool
counted_then p n ending [] = false
counted_then p n ending (c ∷ cs) =
    if eqb (length (c ∷ cs)) (length ending)
    then eqb n 0 && fits_pattern ending (c ∷ cs)
    else p c && counted_then p (n - 1) ending cs

-- `/^[A-Za-z0-9+/]{86}==$/`
unfoldable pub is_signature_base64 : String → Bool
is_signature_base64 s =
    eqb (length (codes s)) 88 && counted_then is_base64 86 (codes "==") (codes s)
