-- ===== src/Wrapper/StrKey.antt =====
-- packages/stellar-sdk-wrapper/src/strkey.ts: the text form of 32-byte keys. A text is the list of its
-- character codes and a `Uint8Array` the list of its bytes; JavaScript's 32-bit shifts keep their
-- wrap-around (`% 2 ^ 32`), and `x | d` where the low bits of `x` are 0 is `x + d`.
pub mod Base32
pub mod Digits
pub mod Encoding
pub mod Loops
pub mod RoundTrip
mod Examples
use Prim.Native.Nat.{bit_and, bit_xor}
use pakta.Base.{
  ℕ, zero, suc, ◌+◌, ◌-◌, ◌*◌, ◌/◌, ◌%◌, ◌^◌, Bool, true, false, not, ◌&&◌, Option, none, some,
  List, [], ◌∷◌, ◌++◌, ◌≡◌, refl, ltb, leb, eqb, if◌then◌else◌, length, take, get_elem?, get_or,
}
use pakta.Base.Outcome.{Outcome, ok, threw, other, ◌>>=◌, ◌>>◌, require}
use pakta.Base.Pattern.{codes}

-- `VERSION_BYTE`
abbrev pub account_id_version : ℕ
account_id_version = 6 * 2 ^ 3

abbrev pub contract_version : ℕ
contract_version = 2 * 2 ^ 3

abbrev pub secret_seed_version : ℕ
secret_seed_version = 18 * 2 ^ 3

-- `BASE32_ALPHABET`
abbrev pub alphabet : List ℕ
alphabet = codes "ABCDEFGHIJKLMNOPQRSTUVWXYZ234567"

-- `BASE32_LOOKUP`: the place of a character in the alphabet, or none where the table has -1.
abbrev pub place_from : ℕ → List ℕ → ℕ → Option ℕ
place_from i [] c = none
place_from i (x ∷ xs) c = if eqb x c then some i else place_from (suc i) xs c

unfoldable pub digit_of : ℕ → Option ℕ
digit_of c = place_from 0 alphabet c

-- `BASE32_ALPHABET[digit]`
unfoldable pub char_of : ℕ → ℕ
char_of d = get_or 0 (get_elem? alphabet d)

-- The `for` loop of `base32Decode` from its state, and the check of the bits that are left: the
-- bytes that the rest of the text gives.
unfoldable pub decode_loop : ℕ → ℕ → List ℕ → Outcome (List ℕ)
decode_loop bits value [] =
    if ltb 0 bits && not (eqb (value % 2 ^ bits) 0)
    then threw (other "trailing bits are not zero")
    else ok []
decode_loop bits value (c ∷ cs) = elim (digit_of c) [
  | none ↦ threw (other "not a base32 character")
  | some digit ↦
      let value' = (value * 2 ^ 5 + digit) % 2 ^ 32 in
      let filled = leb 8 (bits + 5) in
      let bits' = if filled then bits + 5 - 8 else bits + 5 in
      decode_loop bits' value' cs >>= λ rest.
      ok (if filled then value' / 2 ^ bits' % 256 ∷ rest else rest)
]

unfoldable pub base32_decode : List ℕ → Outcome (List ℕ)
base32_decode encoded = do
  require (eqb (length encoded) 56) (other "expected 56 characters")
  decode_loop 0 0 encoded

-- One round of the inner loop of `crc16XModem`.
abbrev crc_shift : ℕ → ℕ
crc_shift crc =
    if eqb (bit_and crc 0x8000) 0 then crc * 2 % 2 ^ 16 else bit_xor (crc * 2) 0x1021 % 2 ^ 16

abbrev pub crc_shifts : ℕ → ℕ → ℕ
crc_shifts zero crc = crc
crc_shifts (suc n) crc = crc_shifts n (crc_shift crc)

unfoldable pub crc_loop : ℕ → List ℕ → ℕ
crc_loop crc [] = crc % 2 ^ 16
crc_loop crc (byte ∷ rest) = crc_loop (crc_shifts 8 (bit_xor crc (byte * 2 ^ 8))) rest

abbrev pub crc16_xmodem : List ℕ → ℕ
crc16_xmodem data_bytes = crc_loop 0 data_bytes

-- What `decodeStrKey` does with the 35 bytes: the version byte, 32 bytes of payload and the
-- checksum, its low byte first.
unfoldable pub check_decoded : ℕ → List ℕ → Outcome (List ℕ)
check_decoded version [] = threw (other "no version byte")
check_decoded version (first ∷ rest) = do
  require (eqb first version) (other "wrong key type")
  let payload = take 32 rest
  let low = get_or 0 (get_elem? rest 32)
  let high = get_or 0 (get_elem? rest 33)
  require (eqb (low + high * 2 ^ 8) (crc16_xmodem (first ∷ payload))) (other "checksum mismatch")
  ok payload

unfoldable pub decode_str_key : ℕ → List ℕ → Outcome (List ℕ)
decode_str_key version encoded = do decoded ← base32_decode encoded; check_decoded version decoded

-- The `while` loop of `base32Encode`, and the outer loop from its state. A byte leaves at most 4
-- bits behind, so the inner loop runs once or twice: 2 rounds of fuel are enough.
abbrev emit_loop : ℕ → ℕ → ℕ → List ℕ × ℕ
emit_loop zero bits value = ([], bits)
emit_loop (suc fuel) bits value =
    let (later, left) = emit_loop fuel (bits - 5) value in
    if leb 5 bits then (char_of (value / 2 ^ (bits - 5) % 32) ∷ later, left) else ([], bits)

unfoldable pub encode_loop : ℕ → ℕ → List ℕ → List ℕ
encode_loop bits value [] =
    if ltb 0 bits then char_of (value * 2 ^ (5 - bits) % 2 ^ 32 % 32) ∷ [] else []
encode_loop bits value (byte ∷ rest) =
    let value' = (value * 2 ^ 8 + byte) % 2 ^ 32 in
    let (chars, left) = emit_loop 2 (bits + 8) value' in chars ++ encode_loop left value' rest

abbrev pub base32_encode : List ℕ → List ℕ
base32_encode data_bytes = encode_loop 0 0 data_bytes

unfoldable pub encode_str_key : ℕ → List ℕ → Outcome (List ℕ)
encode_str_key version payload = do
  require (eqb (length payload) 32) (other "expected 32 bytes")
  let checksum = crc16_xmodem (version ∷ payload)
  ok (base32_encode (version ∷ payload ++ checksum % 2 ^ 8 ∷ checksum / 2 ^ 8 % 2 ^ 8 ∷ []))

abbrev pub encode_account_id : List ℕ → Outcome (List ℕ)
encode_account_id public_key = encode_str_key account_id_version public_key

abbrev pub decode_account_id : List ℕ → Outcome (List ℕ)
decode_account_id account_id = decode_str_key account_id_version account_id

abbrev pub decode_contract_id : List ℕ → Outcome (List ℕ)
decode_contract_id contract_id = decode_str_key contract_version contract_id

abbrev pub decode_secret_seed : List ℕ → Outcome (List ℕ)
decode_secret_seed seed = decode_str_key secret_seed_version seed

-- `try { decode(value); return true } catch { return false }`
abbrev returns {ℓ} : {A : Type ℓ} → Outcome A → Bool
returns (ok value) = true
returns (threw e) = false

abbrev pub is_account_id : List ℕ → Bool
is_account_id value = returns (decode_account_id value)

abbrev pub is_contract_id : List ℕ → Bool
is_contract_id value = returns (decode_contract_id value)
