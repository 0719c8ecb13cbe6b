-- ===== src/ProofHash/Digest/Examples.antt =====
-- One input of each kind, and its bytes.
use pakta.Base.{take, ℕ, String, List, [], ◌∷◌, ◌++◌, ◌≡◌, ◌≢◌, refl, none, length, arith}
use pakta.Base.Bytes.{big_endian_loop}
use pakta.Base.Int.{pos}
use pakta.Base.Outcome.{ok}
use pakta.Base.Pattern.{codes, is_hex64}
use pakta.Wrapper.StrKey.{
  decode_str_key, base32_decode, decode_loop, digit_of, check_decoded, crc_loop,
}
use pakta.ProofHash.Digest.{
  Hashing, number, bigint, RegistrationInput, RevocationInput, AttestationInput, reconciled,
  domain_bytes, domain_separator, revoke_domain_separator, attest_domain_separator, zero_padded,
  require_non_empty_string, hex_to_bytes, i128_big_endian, u64_big_endian, concat_exact,
  registration_parts, registration_preimage, revocation_parts, revocation_preimage,
  attestation_parts, attestation_preimage,
}
use pakta.ProofHash.Digest.Binding.{
  SameRegistration, registration_preimage_binds, SameRevocation, revocation_preimage_binds,
  SameAttestation, attestation_preimage_binds,
}
use pakta.ProofHash.Digest.Layouts.{IsEncodable, registration_preimage-returns, preimages_apart}

abbrev zero_bytes : List ℕ
zero_bytes = zero_padded 32 []

-- A stand-in for the hash that gives 32 bytes.
abbrev zero_hash : Hashing
zero_hash = record {
  sha256 = λ _. zero_bytes;
  utf8 = codes;
  encode_hex = λ _. "";
  parse_date = λ _. none;
}

abbrev gate_text : String
gate_text = "CAAAAAAAAAAAAAAAAAAAAAAAAAAAAAAAAAAAAAAAAAAAAAAAAAAABSC4"

abbrev hash_text : String
hash_text = "0000000000000000000000000000000000000000000000000000000000000000"

abbrev registration_input : RegistrationInput
registration_input = record {
  network_passphrase = "Test SDF Network ; September 2015";
  contract_id = gate_text;
  payable_id = "PAY-2026-9182";
  proof_hash = hash_text;
  recipient = "GAAAAAAAAAAAAAAAAAAAAAAAAAAAAAAAAAAAAAAAAAAAAAAAAAAAAWHF";
  asset_contract_id = gate_text;
  amount_units = pos 50000000000;
  policy_version = "FIN-4.2";
  expiry_unix_seconds = number (pos 1767225600);
}

abbrev registration_bytes : List ℕ
registration_bytes =
    domain_bytes domain_separator
    ++ zero_bytes
    ++ zero_bytes
    ++ zero_bytes
    ++ zero_bytes
    ++ zero_bytes
    ++ zero_bytes
    ++ (0 ∷ 0 ∷ 0 ∷ 0 ∷ 0 ∷ 0 ∷ 0 ∷ 0 ∷ 0 ∷ 0 ∷ 0 ∷ 11 ∷ 164 ∷ 59 ∷ 116 ∷ 0 ∷ [])
    ++ zero_bytes
    ++ (0 ∷ 0 ∷ 0 ∷ 0 ∷ 105 ∷ 85 ∷ 185 ∷ 0 ∷ [])

registers : registration_preimage zero_hash registration_input ≡ ok registration_bytes
unfolding registration_preimage registration_parts concat_exact require_non_empty_string
    hex_to_bytes i128_big_endian u64_big_endian big_endian_loop decode_str_key base32_decode
    decode_loop digit_of check_decoded crc_loop is_hex64
registers = refl

registration_preimage_binds_example :
    SameRegistration zero_hash registration_input registration_input
registration_preimage_binds_example =
    registration_preimage_binds zero_hash (λ _. refl) registration_input registration_input
      registration_bytes registers registers

registration_input-IsEncodable : IsEncodable zero_hash registration_input
unfolding decode_str_key base32_decode decode_loop digit_of check_decoded crc_loop is_hex64
registration_input-IsEncodable = record {
  network = refl;
  gate = refl;
  gate_key = (zero_bytes, refl);
  payable = refl;
  proof = refl;
  proof_hex = refl;
  recipient = refl;
  recipient_key = (zero_bytes, refl);
  asset = refl;
  asset_key = (zero_bytes, refl);
  units = 50000000000;
  amount = refl;
  positive = omega arith;
  amount_fits = omega arith;
  policy = refl;
  seconds = 1767225600;
  expiry = refl;
  expiry_safe = refl;
  expiry_fits = omega arith;
}

registration_preimage-returns_example :
    (bytes : List ℕ) × (registration_preimage zero_hash registration_input ≡ ok bytes)
    × (length bytes ≡ 261)
registration_preimage-returns_example =
    registration_preimage-returns zero_hash (λ _. refl) registration_input
      registration_input-IsEncodable

abbrev revocation_input : RevocationInput
revocation_input = record {
  network_passphrase = "Test SDF Network ; September 2015";
  contract_id = gate_text;
  payable_id = "PAY-2026-9182";
  proof_hash = hash_text;
  reason_code = "VENDOR_WALLET_CHANGED";
}

abbrev revocation_bytes : List ℕ
revocation_bytes =
    domain_bytes revoke_domain_separator
    ++ zero_bytes
    ++ zero_bytes
    ++ zero_bytes
    ++ zero_bytes
    ++ zero_bytes

revokes : revocation_preimage zero_hash revocation_input ≡ ok revocation_bytes
unfolding revocation_preimage revocation_parts concat_exact require_non_empty_string hex_to_bytes
    decode_str_key base32_decode decode_loop digit_of check_decoded crc_loop is_hex64
revokes = refl

revocation_preimage_binds_example : SameRevocation zero_hash revocation_input revocation_input
revocation_preimage_binds_example =
    revocation_preimage_binds zero_hash (λ _. refl) revocation_input revocation_input
      revocation_bytes revokes revokes

abbrev attestation_input : AttestationInput
attestation_input = record {
  network_passphrase = "Test SDF Network ; September 2015";
  contract_id = gate_text;
  payable_id = "PAY-2026-9182";
  phase = reconciled;
  reason_code = "PO_MISMATCH";
  sequence = bigint (pos 258);
}

abbrev attestation_bytes : List ℕ
attestation_bytes =
    domain_bytes attest_domain_separator
    ++ zero_bytes
    ++ zero_bytes
    ++ zero_bytes
    ++ (2 ∷ [])
    ++ zero_bytes
    ++ (0 ∷ 0 ∷ 0 ∷ 0 ∷ 0 ∷ 0 ∷ 1 ∷ 2 ∷ [])

attests : attestation_preimage zero_hash attestation_input ≡ ok attestation_bytes
unfolding attestation_preimage attestation_parts concat_exact require_non_empty_string
    u64_big_endian big_endian_loop decode_str_key base32_decode decode_loop digit_of check_decoded
    crc_loop
attests = refl

attestation_preimage_binds_example : SameAttestation zero_hash attestation_input attestation_input
attestation_preimage_binds_example =
    attestation_preimage_binds zero_hash (λ _. refl) attestation_input attestation_input
      attestation_bytes attests attests

preimages_apart_example :
    (take 13 registration_bytes ≢ take 13 revocation_bytes)
    × (take 13 registration_bytes ≢ take 13 attestation_bytes)
    × (take 13 revocation_bytes ≢ take 13 attestation_bytes)
preimages_apart_example =
    preimages_apart zero_hash registration_input revocation_input attestation_input
      registration_bytes revocation_bytes attestation_bytes registers revokes attests
