-- ===== src/Wrapper/StrKey/Examples.antt =====
-- The text of one account.
use pakta.Base.{ℕ, List, [], ◌∷◌, ◌≡◌, refl, length, arith}
use pakta.Base.Bytes.{AreBelow}
use pakta.Base.Outcome.{ok}
use pakta.Base.Pattern.{codes}
use pakta.Wrapper.StrKey.{
  account_id_version, encode_str_key, decode_str_key, base32_decode, decode_loop, digit_of,
  check_decoded, crc_loop,
}
use pakta.Wrapper.StrKey.RoundTrip.{decode_str_key-encode_str_key, encode_str_key-decode_str_key}

abbrev key_example : List ℕ
key_example =
    0 ∷ 1 ∷ 2 ∷ 3 ∷ 4 ∷ 5 ∷ 6 ∷ 7 ∷ 8 ∷ 9 ∷ 10 ∷ 11 ∷ 12 ∷ 13 ∷ 14 ∷ 15 ∷ 16 ∷ 17 ∷ 18 ∷ 19 ∷ 20
    ∷ 21 ∷ 22 ∷ 23 ∷ 24 ∷ 25 ∷ 26 ∷ 27 ∷ 28 ∷ 29 ∷ 30 ∷ 31 ∷ []

decode_str_key-encode_str_key_example :
    (text : List ℕ) × (encode_str_key account_id_version key_example ≡ ok text)
    × (decode_str_key account_id_version text ≡ ok key_example)
decode_str_key-encode_str_key_example =
    decode_str_key-encode_str_key account_id_version key_example (omega arith) refl (ground arith)

abbrev text_example : List ℕ
text_example = codes "GAAACAQDAQCQMBYIBEFAWDANBYHRAEISCMKBKFQXDAMRUGY4DUPB7JZX"

decodes_example : decode_str_key account_id_version text_example ≡ ok key_example
unfolding decode_str_key base32_decode decode_loop digit_of check_decoded crc_loop
decodes_example = refl

encode_str_key-decode_str_key_example :
    (length key_example ≡ 32)
    × (AreBelow 256 key_example)
    × (encode_str_key account_id_version key_example ≡ ok text_example)
encode_str_key-decode_str_key_example =
    encode_str_key-decode_str_key account_id_version text_example key_example decodes_example
