-- ===== src/Settlement/Registration.antt =====
-- packages/settlement/src/registration.ts and issuer.ts: the arguments that a registration takes, the
-- signed envelope, and the check of it. The proof's hash (proof-hash/src/jcs.ts), Base64, SHA-256,
-- UTF-8, dates and Ed25519 are behind an interface.
pub mod Envelope
pub mod Fixtures
mod Examples
use pakta.Base.{ℕ, String, Bool, ◌==◌, List, if◌then◌else◌}
use pakta.Base.Int.{ℤ, pos}
use pakta.Base.Pattern.{codes}
use pakta.ProofHash.Digest.{
  Hashing, Whole, number, RegistrationInput, AttestationPhase, sha256_hex, registration_digest_hex,
  revocation_digest_hex, attestation_digest_hex, iso_to_unix_seconds,
}
use pakta.Wrapper.StrKey.{decode_account_id}
use pakta.Base.Outcome.{Outcome, ok, threw, other, require, ◌>>=◌, ◌>>◌}
use pakta.Canonical.Proof.{ProofOfPayable, is_proof, SignedProofOfPayable, is_signed_proof}
use pakta.Wrapper.Amount.{decimal_to_units}
use pakta.Settlement.Chain.{PreparedRegistration}
use pakta.Settlement.Deployment.{Deployment}

pub record Codecs : Type 0 where
  pub hashing : Hashing
  pub proof_hash : ProofOfPayable → Outcome String
  pub encode_base64 : List ℕ → String
  pub decode_base64 : String → List ℕ
  -- `ed25519Verify` of a hex digest, by a raw key and a signature.
  pub ed25519_verify : String → List ℕ → List ℕ → Bool

-- An issuer: its account and what it signs a digest with.
pub record Issuer : Type 0 where
  pub account_id : String
  pub sign_digest : String → List ℕ

module _ (codecs : Codecs) where
  open codecs use {hashing, proof_hash, encode_base64, decode_base64, ed25519_verify}

  module _ (p : ProofOfPayable) (d : Deployment) where
    abbrev pub digest_input : ℕ → ℤ → String → RegistrationInput
    digest_input units expiry hash = record {
      network_passphrase = d.network_passphrase;
      contract_id = d.contract_id;
      payable_id = p.payable_id;
      proof_hash = hash;
      recipient = p.vendor_wallet;
      asset_contract_id = d.asset_contract_id;
      amount_units = pos units;
      policy_version = p.policy_version;
      expiry_unix_seconds = number expiry;
    }

    abbrev pub prepared_of : ℕ → ℤ → String → String → PreparedRegistration
    prepared_of units expiry hash digest = record {
      payable_id = p.payable_id;
      payable_id_hash = sha256_hex hashing p.payable_id;
      proof_hash = hash;
      recipient = p.vendor_wallet;
      amount_units = units;
      policy_hash = sha256_hex hashing p.policy_version;
      expiry = expiry;
      registration_digest = digest;
    }

    abbrev pub with_digest : ℕ → ℤ → String → Outcome String → Outcome PreparedRegistration
    with_digest units expiry hash (ok digest) = ok (prepared_of units expiry hash digest)
    with_digest units expiry hash (threw e) = threw e

    -- The amount, then the expiry, then the hash: the first that throws ends it.
    abbrev pub with_parts : Outcome ℕ → Outcome ℤ → Outcome String → Outcome PreparedRegistration
    with_parts (threw e) expiry hash = threw e
    with_parts (ok units) (threw e) hash = threw e
    with_parts (ok units) (ok expiry) (threw e) = threw e
    with_parts (ok units) (ok expiry) (ok hash) =
        with_digest units expiry hash
          (registration_digest_hex hashing (digest_input units expiry hash))

    -- A wallet whose checksum is wrong is refused.
    abbrev pub with_wallet : Outcome (List ℕ) → Outcome PreparedRegistration
    with_wallet (threw e) = threw (other "vendor_wallet is not a valid Stellar account")
    with_wallet (ok key) =
        if p.asset == d.asset_code
        then with_parts (decimal_to_units p.amount) (iso_to_unix_seconds hashing p.expires_at)
            (proof_hash p)
        else threw (other "proof authorizes another asset than this deployment settles")

    unfoldable pub prepare_registration : Outcome PreparedRegistration
    prepare_registration =
        if is_proof p
        then with_wallet (decode_account_id (codes p.vendor_wallet))
        else threw (other "not a valid v1.1 ProofOfPayable")

    -- `sign`, once the registration is prepared.
    abbrev pub envelope : Issuer → PreparedRegistration → SignedProofOfPayable
    envelope issuer r = record {
      proof = p;
      proof_hash = r.proof_hash;
      issuer_public_key = issuer.account_id;
      issuer_signature = encode_base64 (issuer.sign_digest r.registration_digest);
      network_passphrase = d.network_passphrase;
      contract_id = d.contract_id;
    }

    abbrev pub sign_prepared :
        Issuer
        → Outcome PreparedRegistration
        → Outcome (SignedProofOfPayable × PreparedRegistration)
    sign_prepared issuer (threw e) = threw e
    sign_prepared issuer (ok r) =
        if is_signed_proof (envelope issuer r)
        then ok (envelope issuer r, r)
        else threw (other "ZodError")

    unfoldable pub sign : Issuer → Outcome (SignedProofOfPayable × PreparedRegistration)
    sign issuer = sign_prepared issuer prepare_registration

  -- `signRevocation`
  abbrev pub sign_revocation : Issuer → String → String → String → Deployment → Outcome (List ℕ)
  sign_revocation issuer payable_id hash reason d = do
    digest ← revocation_digest_hex hashing (record {
      network_passphrase = d.network_passphrase;
      contract_id = d.contract_id;
      payable_id = payable_id;
      proof_hash = hash;
      reason_code = reason;
    })
    ok (issuer.sign_digest digest)

  -- `signAttestation`
  abbrev pub sign_attestation :
      Issuer → String → AttestationPhase → String → Whole → Deployment → Outcome (List ℕ)
  sign_attestation issuer payable_id phase reason sequence d = do
    digest ← attestation_digest_hex hashing (record {
      network_passphrase = d.network_passphrase;
      contract_id = d.contract_id;
      payable_id = payable_id;
      phase = phase;
      reason_code = reason;
      sequence = sequence;
    })
    ok (issuer.sign_digest digest)

  -- The check of the signature by the issuer's key.
  abbrev pub check_signature :
      SignedProofOfPayable → PreparedRegistration → Outcome (List ℕ) → Outcome PreparedRegistration
  check_signature s r (threw e) = threw e
  check_signature s r (ok key) =
      if ed25519_verify r.registration_digest key (decode_base64 s.issuer_signature)
      then ok r
      else threw (other "issuer signature does not verify against the registration digest")

  abbrev pub check_prepared :
      SignedProofOfPayable → Outcome PreparedRegistration → Outcome PreparedRegistration
  check_prepared s (threw e) = threw e
  check_prepared s (ok r) =
      if r.proof_hash == s.proof_hash
      then check_signature s r (decode_account_id (codes s.issuer_public_key))
      else threw (other "proof_hash does not match the payload")

  unfoldable pub verify_signed_proof :
      SignedProofOfPayable → Deployment → Outcome PreparedRegistration
  verify_signed_proof s d =
      if s.contract_id == d.contract_id
      then (if s.network_passphrase == d.network_passphrase
          then check_prepared s (prepare_registration s.proof d)
          else threw (other "proof was signed for a different network"))
      else threw (other "proof was signed for another gate")
