-- ===== src/ProofHash/Digest/Binding.antt =====
-- What a signature over a digest's bytes covers: every argument.
use pakta.Base.{ℕ, String, List, ◌≡◌, refl, arith, length, absurd}
use pakta.Base.Outcome.{ok}
use pakta.ProofHash.Digest.{
  Hashing, as_bigint, RegistrationInput, RevocationInput, AttestationInput, AttestationPhase,
  blocked, resolved, reconciled, phase_byte, registration_parts, registration_preimage,
  revocation_parts, revocation_preimage, attestation_parts, attestation_preimage,
}
use pakta.ProofHash.Digest.Parts.{preimage_of-Agree}
use pakta.ProofHash.Digest.Fields.{i128_big_endian_unique, u64_big_endian_unique}
use pakta.ProofHash.Digest.Widths.{text-same, contract-same, account-same, hash-same}
use pakta.ProofHash.Digest.Layouts.{
  registration_widths, revocation_widths, attestation_widths, registration_parts-HasWidths,
  revocation_parts-HasWidths, attestation_parts-HasWidths,
}

module _ (hashing : Hashing) where
  -- The SHA-256 of two texts is the same.
  abbrev SameHash : String → String → Type 0
  SameHash a b = hashing.sha256 (hashing.utf8 a) ≡ hashing.sha256 (hashing.utf8 b)

  pub record SameRegistration (a b : RegistrationInput) : Type 0 where
    pub network : SameHash a.network_passphrase b.network_passphrase
    pub gate : a.contract_id ≡ b.contract_id
    pub payable : SameHash a.payable_id b.payable_id
    pub proof : a.proof_hash ≡ b.proof_hash
    pub recipient : a.recipient ≡ b.recipient
    pub asset : a.asset_contract_id ≡ b.asset_contract_id
    pub amount : a.amount_units ≡ b.amount_units
    pub policy : SameHash a.policy_version b.policy_version
    pub expiry : as_bigint a.expiry_unix_seconds ≡ as_bigint b.expiry_unix_seconds

  pub record SameRevocation (a b : RevocationInput) : Type 0 where
    pub network : SameHash a.network_passphrase b.network_passphrase
    pub gate : a.contract_id ≡ b.contract_id
    pub payable : SameHash a.payable_id b.payable_id
    pub proof : a.proof_hash ≡ b.proof_hash
    pub reason : SameHash a.reason_code b.reason_code

  pub record SameAttestation (a b : AttestationInput) : Type 0 where
    pub network : SameHash a.network_passphrase b.network_passphrase
    pub gate : a.contract_id ≡ b.contract_id
    pub payable : SameHash a.payable_id b.payable_id
    pub phase : a.phase ≡ b.phase
    pub reason : SameHash a.reason_code b.reason_code
    pub sequence : as_bigint a.sequence ≡ as_bigint b.sequence

phase_byte_injective : (a b : AttestationPhase) → phase_byte a ≡ phase_byte b → a ≡ b
phase_byte_injective blocked blocked h = refl
phase_byte_injective resolved resolved h = refl
phase_byte_injective reconciled reconciled h = refl
phase_byte_injective blocked resolved h = absurd (omega (arith, h))
phase_byte_injective blocked reconciled h = absurd (omega (arith, h))
phase_byte_injective resolved blocked h = absurd (omega (arith, h))
phase_byte_injective resolved reconciled h = absurd (omega (arith, h))
phase_byte_injective reconciled blocked h = absurd (omega (arith, h))
phase_byte_injective reconciled resolved h = absurd (omega (arith, h))

module _ (hashing : Hashing)
    (sha256_size : (bytes : List ℕ) → length (hashing.sha256 bytes) ≡ 32) where
  -- Two registrations with the same preimage, where SHA-256 gives 32 bytes, have the same gate,
  -- proof hash, recipient, asset, amount and expiry, and the same hashes of the network passphrase,
  -- the payable id and the policy version.
  pub registration_preimage_binds :
      (a b : RegistrationInput) (bytes : List ℕ)
      → registration_preimage hashing a ≡ ok bytes
      → registration_preimage hashing b ≡ ok bytes
      → SameRegistration hashing a b
  unfolding registration_preimage registration_parts
  registration_preimage_binds a b bytes ha hb =
      let (
        _,
        (
          network,
          (gate, (payable, (proof, (recipient, (asset, (amount, (policy, (expiry, _)))))))),
        ),
      ) =
        preimage_of-Agree (registration_widths) 261 (registration_parts hashing a)
          (registration_parts hashing b) bytes (registration_parts-HasWidths hashing sha256_size a)
          (registration_parts-HasWidths hashing sha256_size b) ha hb in
      record {
        network =
            text-same hashing sha256_size a.network_passphrase b.network_passphrase network.0
              network.1 network.2;
        gate = contract-same hashing sha256_size a.contract_id b.contract_id gate.0 gate.1 gate.2;
        payable =
            text-same hashing sha256_size a.payable_id b.payable_id payable.0 payable.1 payable.2;
        proof = hash-same hashing sha256_size a.proof_hash b.proof_hash proof.0 proof.1 proof.2;
        recipient =
            account-same hashing sha256_size a.recipient b.recipient recipient.0 recipient.1
              recipient.2;
        asset =
            contract-same hashing sha256_size a.asset_contract_id b.asset_contract_id asset.0
              asset.1 asset.2;
        amount = i128_big_endian_unique a.amount_units b.amount_units amount.0 amount.1 amount.2;
        policy =
            text-same hashing sha256_size a.policy_version b.policy_version policy.0 policy.1
              policy.2;
        expiry =
            u64_big_endian_unique a.expiry_unix_seconds b.expiry_unix_seconds expiry.0 expiry.1
              expiry.2;
      }

  -- Two revocations with the same preimage, where SHA-256 gives 32 bytes, have the same gate and
  -- proof hash, and the same hashes of the network passphrase, the payable id and the reason.
  pub revocation_preimage_binds :
      (a b : RevocationInput) (bytes : List ℕ)
      → revocation_preimage hashing a ≡ ok bytes
      → revocation_preimage hashing b ≡ ok bytes
      → SameRevocation hashing a b
  unfolding revocation_preimage revocation_parts
  revocation_preimage_binds a b bytes ha hb =
      let (_, (network, (gate, (payable, (proof, (reason, _)))))) =
        preimage_of-Agree (revocation_widths) 173 (revocation_parts hashing a)
          (revocation_parts hashing b) bytes (revocation_parts-HasWidths hashing sha256_size a)
          (revocation_parts-HasWidths hashing sha256_size b) ha hb in
      record {
        network =
            text-same hashing sha256_size a.network_passphrase b.network_passphrase network.0
              network.1 network.2;
        gate = contract-same hashing sha256_size a.contract_id b.contract_id gate.0 gate.1 gate.2;
        payable =
            text-same hashing sha256_size a.payable_id b.payable_id payable.0 payable.1 payable.2;
        proof = hash-same hashing sha256_size a.proof_hash b.proof_hash proof.0 proof.1 proof.2;
        reason =
            text-same hashing sha256_size a.reason_code b.reason_code reason.0 reason.1 reason.2;
      }

  -- Two attestations with the same preimage, where SHA-256 gives 32 bytes, have the same gate,
  -- phase and sequence, and the same hashes of the network passphrase, the payable id and the
  -- reason.
  pub attestation_preimage_binds :
      (a b : AttestationInput) (bytes : List ℕ)
      → attestation_preimage hashing a ≡ ok bytes
      → attestation_preimage hashing b ≡ ok bytes
      → SameAttestation hashing a b
  unfolding attestation_preimage attestation_parts
  attestation_preimage_binds a b bytes ha hb =
      let (_, (network, (gate, (payable, (phase, (reason, (sequence, _))))))) =
        preimage_of-Agree (attestation_widths) 150 (attestation_parts hashing a)
          (attestation_parts hashing b) bytes (attestation_parts-HasWidths hashing sha256_size a)
          (attestation_parts-HasWidths hashing sha256_size b) ha hb in
      record {
        network =
            text-same hashing sha256_size a.network_passphrase b.network_passphrase network.0
              network.1 network.2;
        gate = contract-same hashing sha256_size a.contract_id b.contract_id gate.0 gate.1 gate.2;
        payable =
            text-same hashing sha256_size a.payable_id b.payable_id payable.0 payable.1 payable.2;
        phase = phase_byte_injective a.phase b.phase (cc (phase.1, phase.2));
        reason =
            text-same hashing sha256_size a.reason_code b.reason_code reason.0 reason.1 reason.2;
        sequence = u64_big_endian_unique a.sequence b.sequence sequence.0 sequence.1 sequence.2;
      }
