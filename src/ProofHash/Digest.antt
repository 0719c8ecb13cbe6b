-- ===== src/ProofHash/Digest.antt =====
-- packages/proof-hash/src/registrationDigest.ts: the byte layouts that the issuer signs. SHA-256,
-- UTF-8, the hex text of a digest and `Date.parse` are behind an interface; StrKey decoding is the
-- model's own.
pub mod Parts
pub mod Fields
pub mod Layouts
pub mod Widths
pub mod Binding
mod Examples
use pakta.Base.{
  ℕ, ◌+◌, ◌-◌, ◌*◌, ◌/◌, ◌^◌, zero, suc, String, Bool, true, false, not, ◌&&◌, Option, none, some,
  List, [], ◌∷◌, ◌++◌, ◌==◌, leb, eqb, if◌then◌else◌, length,
}
use pakta.Base.Bytes.{big_endian_loop}
use pakta.Base.Int.{ℤ, pos, negsuc, sub_ℕ, pos_part, neg_part}
use pakta.Base.Outcome.{Outcome, ok, threw, other, require, ◌>>=◌, ◌>>◌}
use pakta.Base.Pattern.{codes, is_hex64, is_utc_seconds}
use pakta.Wrapper.StrKey.{decode_account_id, decode_contract_id}

-- `createHash("sha256")` on bytes, `Buffer.from(text, "utf8")`, `Buffer.toString("hex")` and
-- `Date.parse`, none for NaN.
pub record Hashing : Type 0 where
  pub sha256 : List ℕ → List ℕ
  pub utf8 : String → List ℕ
  pub encode_hex : List ℕ → String
  pub parse_date : String → Option ℤ

-- `number | bigint`, for whole numbers.
pub data Whole : Type 0 where
  number bigint : ℤ → Whole

pub record RegistrationInput : Type 0 where
  pub network_passphrase : String
  pub contract_id : String
  pub payable_id : String
  pub proof_hash : String
  pub recipient : String
  pub asset_contract_id : String
  pub amount_units : ℤ
  pub policy_version : String
  pub expiry_unix_seconds : Whole

pub record RevocationInput : Type 0 where
  pub network_passphrase : String
  pub contract_id : String
  pub payable_id : String
  pub proof_hash : String
  pub reason_code : String

pub data AttestationPhase : Type 0 where
  blocked resolved reconciled : AttestationPhase

-- `ATTESTATION_PHASES`
abbrev pub phase_byte : AttestationPhase → ℕ
phase_byte blocked = 0
phase_byte resolved = 1
phase_byte reconciled = 2

-- `ATTESTATION_PHASE_SYMBOL`
abbrev pub phase_symbol : AttestationPhase → String
phase_symbol blocked = "blocked"
phase_symbol resolved = "resolved"
phase_symbol reconciled = "reconcil"

pub record AttestationInput : Type 0 where
  pub network_passphrase : String
  pub contract_id : String
  pub payable_id : String
  pub phase : AttestationPhase
  pub reason_code : String
  pub sequence : Whole

abbrev pub domain_separator : String
domain_separator = "PAKTA_REG_V1"

abbrev pub registration_preimage_bytes : ℕ
registration_preimage_bytes = 261

abbrev pub revoke_domain_separator : String
revoke_domain_separator = "PAKTA_REV_V2"

abbrev pub revocation_preimage_bytes : ℕ
revocation_preimage_bytes = 173

abbrev pub attest_domain_separator : String
attest_domain_separator = "PAKTA_ATT_V1"

abbrev pub attestation_preimage_bytes : ℕ
attestation_preimage_bytes = 150

-- `requireNonEmptyString`, and then what is done with the text.
unfoldable pub require_non_empty_string : String → (String → Outcome (List ℕ)) → Outcome (List ℕ)
require_non_empty_string value rest = do
  require (not (value == "")) (other "must be a non-empty string")
  rest value

-- `Number.parseInt` of one hex digit that `HEX_64` has let through.
abbrev pub hex_digit : ℕ → ℕ
hex_digit c = if leb c b'9' then c - b'0' else c - 87

abbrev pub hex_pairs : List ℕ → List ℕ
hex_pairs [] = []
hex_pairs (c ∷ []) = []
hex_pairs (c ∷ d ∷ cs) = (hex_digit c * 16 + hex_digit d) ∷ hex_pairs cs

unfoldable pub hex_to_bytes : String → Outcome (List ℕ)
hex_to_bytes hex = do
  require (is_hex64 hex) (other "must be 64 lowercase hex characters with no 0x prefix")
  ok (hex_pairs (codes hex))

unfoldable pub i128_big_endian : ℤ → Outcome (List ℕ)
i128_big_endian (negsuc n) = threw (other "must be positive")
i128_big_endian (pos n) = do
  require (not (eqb n 0)) (other "must be positive")
  require (leb n (2 ^ 127 - 1)) (other "exceeds what an i128 can hold")
  ok (big_endian_loop 16 n [])

abbrev pub as_bigint : Whole → ℤ
as_bigint (number n) = n
as_bigint (bigint n) = n

abbrev pub magnitude : ℤ → ℕ
magnitude z = pos_part z + neg_part z

-- `Number.isSafeInteger`, asked of a `number` only.
abbrev pub is_safe : Whole → Bool
is_safe (number z) = leb (magnitude z) (2 ^ 53 - 1)
is_safe (bigint z) = true

abbrev pub u64_of : ℤ → Outcome (List ℕ)
u64_of (negsuc n) = threw (other "outside the u64 range")
u64_of (pos n) = do
  require (leb n (2 ^ 64 - 1)) (other "outside the u64 range")
  ok (big_endian_loop 8 n [])

unfoldable pub u64_big_endian : Whole → Outcome (List ℕ)
u64_big_endian value = do
  require (is_safe value) (other "must be a safe integer")
  u64_of (as_bigint value)

-- `new Uint8Array(size)` with the bytes set at its front.
abbrev pub zero_padded : ℕ → List ℕ → List ℕ
zero_padded zero bytes = bytes
zero_padded (suc n) [] = 0 ∷ zero_padded n []
zero_padded (suc n) (b ∷ bytes) = b ∷ zero_padded n bytes

abbrev pub domain_bytes : String → List ℕ
domain_bytes separator = zero_padded 13 (codes separator)

-- The elements of an array literal, evaluated in order: the first that throws ends it.
abbrev pub in_order : List (Outcome (List ℕ)) → Outcome (List (List ℕ))
in_order [] = ok []
in_order (part ∷ parts) = do bytes ← part; rest ← in_order parts; ok (bytes ∷ rest)

abbrev pub flatten : List (List ℕ) → List ℕ
flatten [] = []
flatten (part ∷ parts) = part ++ flatten parts

-- `concatExact`, which `registrationPreimage` writes out.
unfoldable pub concat_exact : List (List ℕ) → ℕ → Outcome (List ℕ)
concat_exact parts expected = do
  require (eqb (length (flatten parts)) expected) (other "the encoding and this code disagree")
  ok (flatten parts)

module _ (hashing : Hashing) where
  open hashing use {sha256, utf8, encode_hex, parse_date}

  abbrev pub sha256_hex : String → String
  sha256_hex input = encode_hex (sha256 (utf8 input))

  -- `Date.parse` gives milliseconds; the text has whole seconds, so that the division is exact.
  abbrev seconds_of : Option ℤ → Outcome ℤ
  seconds_of none = threw (other "not a valid date")
  seconds_of (some millis) = ok (sub_ℕ (pos_part millis / 1000) (neg_part millis / 1000))

  unfoldable pub iso_to_unix_seconds : String → Outcome ℤ
  iso_to_unix_seconds iso = do
    require (not (iso == "")) (other "must be a non-empty string")
    require (is_utc_seconds iso) (other "must be ISO-8601 UTC with second precision")
    seconds_of (parse_date iso)

  -- `sha256Bytes(requireNonEmptyString(...))` and its like.
  abbrev pub text_part : String → Outcome (List ℕ)
  text_part value = require_non_empty_string value (λ v. ok (sha256 (utf8 v)))

  abbrev pub contract_part : String → Outcome (List ℕ)
  contract_part value = require_non_empty_string value (λ v. decode_contract_id (codes v))

  abbrev pub account_part : String → Outcome (List ℕ)
  account_part value = require_non_empty_string value (λ v. decode_account_id (codes v))

  abbrev pub hex_part : String → Outcome (List ℕ)
  hex_part value = require_non_empty_string value hex_to_bytes

  unfoldable pub registration_parts : RegistrationInput → List (Outcome (List ℕ))
  registration_parts input =
      ok (domain_bytes domain_separator)
      ∷ text_part input.network_passphrase
      ∷ contract_part input.contract_id
      ∷ text_part input.payable_id
      ∷ hex_part input.proof_hash
      ∷ account_part input.recipient
      ∷ contract_part input.asset_contract_id
      ∷ i128_big_endian input.amount_units
      ∷ text_part input.policy_version
      ∷ u64_big_endian input.expiry_unix_seconds
      ∷ []

  unfoldable pub registration_preimage : RegistrationInput → Outcome (List ℕ)
  registration_preimage input = do
    parts ← in_order (registration_parts input)
    concat_exact parts registration_preimage_bytes

  unfoldable pub revocation_parts : RevocationInput → List (Outcome (List ℕ))
  revocation_parts input =
      ok (domain_bytes revoke_domain_separator)
      ∷ text_part input.network_passphrase
      ∷ contract_part input.contract_id
      ∷ text_part input.payable_id
      ∷ hex_part input.proof_hash
      ∷ text_part input.reason_code
      ∷ []

  unfoldable pub revocation_preimage : RevocationInput → Outcome (List ℕ)
  revocation_preimage input = do
    parts ← in_order (revocation_parts input)
    concat_exact parts revocation_preimage_bytes

  unfoldable pub attestation_parts : AttestationInput → List (Outcome (List ℕ))
  attestation_parts input =
      ok (domain_bytes attest_domain_separator)
      ∷ text_part input.network_passphrase
      ∷ contract_part input.contract_id
      ∷ text_part input.payable_id
      ∷ ok (phase_byte input.phase ∷ [])
      ∷ text_part input.reason_code
      ∷ u64_big_endian input.sequence
      ∷ []

  unfoldable pub attestation_preimage : AttestationInput → Outcome (List ℕ)
  attestation_preimage input = do
    parts ← in_order (attestation_parts input)
    concat_exact parts attestation_preimage_bytes

  -- `sha256Bytes`, and the digest's hex text.
  abbrev pub digest_of : Outcome (List ℕ) → Outcome (List ℕ)
  digest_of preimage = preimage >>= λ bytes. ok (sha256 bytes)

  abbrev pub hex_of : Outcome (List ℕ) → Outcome String
  hex_of digest = digest >>= λ bytes. ok (encode_hex bytes)

  abbrev pub registration_digest : RegistrationInput → Outcome (List ℕ)
  registration_digest input = digest_of (registration_preimage input)

  abbrev pub registration_digest_hex : RegistrationInput → Outcome String
  registration_digest_hex input = hex_of (registration_digest input)

  abbrev pub revocation_digest : RevocationInput → Outcome (List ℕ)
  revocation_digest input = digest_of (revocation_preimage input)

  abbrev pub revocation_digest_hex : RevocationInput → Outcome String
  revocation_digest_hex input = hex_of (revocation_digest input)

  abbrev pub attestation_digest : AttestationInput → Outcome (List ℕ)
  attestation_digest input = digest_of (attestation_preimage input)

  abbrev pub attestation_digest_hex : AttestationInput → Outcome String
  attestation_digest_hex input = hex_of (attestation_digest input)
