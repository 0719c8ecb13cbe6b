-- ===== src/ProofHash/Digest/Layouts.antt =====
-- The layouts as a whole: their widths, when a registration has one, and that no two kinds share one.
use pakta.Base.{
  ℕ, ◌^◌, ◌<◌, String, true, false, List, [], ◌∷◌, ◌≡◌, ◌≢◌, refl, sym, ap, ◌==◌, arith, length,
  All, subst, take, get_elem?, get_or, ◌∙◌,
}
use pakta.Base.Int.{pos}
use pakta.Base.Outcome.{ok}
use pakta.Base.Pattern.{codes, is_hex64}
use pakta.Wrapper.StrKey.{decode_account_id, decode_contract_id}
use pakta.ProofHash.Digest.{
  Hashing, as_bigint, is_safe, RegistrationInput, RevocationInput, AttestationInput, phase_byte,
  hex_to_bytes, hex_pairs, i128_big_endian, domain_bytes, domain_separator, revoke_domain_separator,
  attest_domain_separator, registration_parts, registration_preimage, revocation_parts,
  revocation_preimage, attestation_parts, attestation_preimage,
}
use pakta.ProofHash.Digest.Parts.{HasWidths, Gives, preimage_of-take, preimage_of-returns}
use pakta.ProofHash.Digest.Fields.{
  require_non_empty-Gives, i128_big_endian-Gives, u64_big_endian-Gives,
}
use pakta.ProofHash.Digest.Widths.{
  fixed-width, text-width, contract-width, account-width, hash-width, i128-width, u64-width,
}

abbrev pub registration_widths : List ℕ
registration_widths = 13 ∷ 32 ∷ 32 ∷ 32 ∷ 32 ∷ 32 ∷ 32 ∷ 16 ∷ 32 ∷ 8 ∷ []

abbrev pub revocation_widths : List ℕ
revocation_widths = 13 ∷ 32 ∷ 32 ∷ 32 ∷ 32 ∷ 32 ∷ []

abbrev pub attestation_widths : List ℕ
attestation_widths = 13 ∷ 32 ∷ 32 ∷ 32 ∷ 1 ∷ 32 ∷ 8 ∷ []

module _ (hashing : Hashing) where
  -- What the encoding asks of a registration.
  pub record IsEncodable (i : RegistrationInput) : Type 0 where
    pub network : (i.network_passphrase == "") ≡ false
    pub gate : (i.contract_id == "") ≡ false
    pub gate_key : Gives (decode_contract_id (codes i.contract_id))
    pub payable : (i.payable_id == "") ≡ false
    pub proof : (i.proof_hash == "") ≡ false
    pub proof_hex : is_hex64 i.proof_hash ≡ true
    pub recipient : (i.recipient == "") ≡ false
    pub recipient_key : Gives (decode_account_id (codes i.recipient))
    pub asset : (i.asset_contract_id == "") ≡ false
    pub asset_key : Gives (decode_contract_id (codes i.asset_contract_id))
    pub units : ℕ
    pub amount : i.amount_units ≡ pos units
    pub positive : 0 < units
    pub amount_fits : units < 2 ^ 127
    pub policy : (i.policy_version == "") ≡ false
    pub seconds : ℕ
    pub expiry : as_bigint i.expiry_unix_seconds ≡ pos seconds
    pub expiry_safe : is_safe i.expiry_unix_seconds ≡ true
    pub expiry_fits : seconds < 2 ^ 64

hex_to_bytes-Gives : (hex : String) → is_hex64 hex ≡ true → Gives (hex_to_bytes hex)
unfolding hex_to_bytes
hex_to_bytes-Gives hex h = (hex_pairs (codes hex), cc h)

module _ (hashing : Hashing)
    (sha256_size : (bytes : List ℕ) → length (hashing.sha256 bytes) ≡ 32) where
  pub registration_parts-HasWidths :
      (i : RegistrationInput) → HasWidths registration_widths (registration_parts hashing i)
  unfolding registration_parts
  registration_parts-HasWidths i = (
    fixed-width hashing sha256_size (domain_bytes domain_separator),
    (
      text-width hashing sha256_size i.network_passphrase,
      (
        contract-width hashing sha256_size i.contract_id,
        (
          text-width hashing sha256_size i.payable_id,
          (
            hash-width hashing sha256_size i.proof_hash,
            (
              account-width hashing sha256_size i.recipient,
              (
                contract-width hashing sha256_size i.asset_contract_id,
                (
                  i128-width hashing sha256_size i.amount_units,
                  (
                    text-width hashing sha256_size i.policy_version,
                    (u64-width hashing sha256_size i.expiry_unix_seconds, tt),
                  ),
                ),
              ),
            ),
          ),
        ),
      ),
    ),
  )

  pub revocation_parts-HasWidths :
      (i : RevocationInput) → HasWidths revocation_widths (revocation_parts hashing i)
  unfolding revocation_parts
  revocation_parts-HasWidths i = (
    fixed-width hashing sha256_size (domain_bytes revoke_domain_separator),
    (
      text-width hashing sha256_size i.network_passphrase,
      (
        contract-width hashing sha256_size i.contract_id,
        (
          text-width hashing sha256_size i.payable_id,
          (
            hash-width hashing sha256_size i.proof_hash,
            (text-width hashing sha256_size i.reason_code, tt),
          ),
        ),
      ),
    ),
  )

  pub attestation_parts-HasWidths :
      (i : AttestationInput) → HasWidths attestation_widths (attestation_parts hashing i)
  unfolding attestation_parts
  attestation_parts-HasWidths i = (
    fixed-width hashing sha256_size (domain_bytes attest_domain_separator),
    (
      text-width hashing sha256_size i.network_passphrase,
      (
        contract-width hashing sha256_size i.contract_id,
        (
          text-width hashing sha256_size i.payable_id,
          (
            fixed-width hashing sha256_size (phase_byte i.phase ∷ []),
            (
              text-width hashing sha256_size i.reason_code,
              (u64-width hashing sha256_size i.sequence, tt),
            ),
          ),
        ),
      ),
    ),
  )

  registration_parts-Gives :
      (i : RegistrationInput) → IsEncodable hashing i → All Gives (registration_parts hashing i)
  unfolding registration_parts
  registration_parts-Gives i e =
      let text = λ (value : String). λ (full : (value == "") ≡ false).
        require_non_empty-Gives value (λ v. ok (hashing.sha256 (hashing.utf8 v))) full
          (hashing.sha256 (hashing.utf8 value), refl) in
      (
        (domain_bytes domain_separator, refl),
        (
          text i.network_passphrase e.network,
          (
            require_non_empty-Gives i.contract_id (λ v. decode_contract_id (codes v)) e.gate
                e.gate_key,
            (
              text i.payable_id e.payable,
              (
                require_non_empty-Gives i.proof_hash hex_to_bytes e.proof
                    (hex_to_bytes-Gives i.proof_hash e.proof_hex),
                (
                  require_non_empty-Gives i.recipient (λ v. decode_account_id (codes v)) e.recipient
                      e.recipient_key,
                  (
                    require_non_empty-Gives i.asset_contract_id (λ v. decode_contract_id (codes v))
                        e.asset e.asset_key,
                    (
                      subst (λ z. Gives (i128_big_endian z)) (sym e.amount)
                          (i128_big_endian-Gives e.units e.positive e.amount_fits),
                      (
                        text i.policy_version e.policy,
                        (
                          u64_big_endian-Gives i.expiry_unix_seconds e.seconds e.expiry
                              e.expiry_safe e.expiry_fits,
                          tt,
                        ),
                      ),
                    ),
                  ),
                ),
              ),
            ),
          ),
        ),
      )

  -- Where SHA-256 gives 32 bytes, a registration with texts that are not empty, gate, asset and
  -- recipient that decode, a hash in lowercase hex, an amount from 1 below 2 ^ 127 and an expiry
  -- below 2 ^ 64 that is a safe number has a preimage, of 261 bytes: the check of its length never
  -- fails.
  pub registration_preimage-returns :
      (i : RegistrationInput)
      → IsEncodable hashing i
      → (bytes : List ℕ) × (registration_preimage hashing i ≡ ok bytes) × (length bytes ≡ 261)
  unfolding registration_preimage
  registration_preimage-returns i e =
      preimage_of-returns registration_widths (registration_parts hashing i)
        (registration_parts-HasWidths i) (registration_parts-Gives i e)

-- The three separators give different bytes.
separators_apart :
    (domain_bytes domain_separator ≢ domain_bytes revoke_domain_separator)
    × (domain_bytes domain_separator ≢ domain_bytes attest_domain_separator)
    × (domain_bytes revoke_domain_separator ≢ domain_bytes attest_domain_separator)
separators_apart = (
  λ h. omega (arith, ap (λ bytes. get_or 0 (get_elem? bytes 8)) h),
  λ h. omega (arith, ap (λ bytes. get_or 0 (get_elem? bytes 6)) h),
  λ h. omega (arith, ap (λ bytes. get_or 0 (get_elem? bytes 6)) h),
)

module _ (hashing : Hashing) where
  -- The preimages of a registration, a revocation and an attestation, whatever is in them, pairwise
  -- differ within their first 13 bytes, those of the domain separator.
  pub preimages_apart :
      (i : RegistrationInput) (v : RevocationInput) (a : AttestationInput) (x y z : List ℕ)
      → registration_preimage hashing i ≡ ok x
      → revocation_preimage hashing v ≡ ok y
      → attestation_preimage hashing a ≡ ok z
      → (take 13 x ≢ take 13 y) × (take 13 x ≢ take 13 z) × (take 13 y ≢ take 13 z)
  unfolding registration_preimage revocation_preimage attestation_preimage registration_parts
      revocation_parts attestation_parts
  preimages_apart i v a x y z hi hv ha =
      let registers =
        preimage_of-take (domain_bytes domain_separator) (registration_parts hashing i) 261 x refl
          hi in
      let revokes =
        preimage_of-take (domain_bytes revoke_domain_separator) (revocation_parts hashing v) 173 y
          refl hv in
      let attests =
        preimage_of-take (domain_bytes attest_domain_separator) (attestation_parts hashing a) 150 z
          refl ha in
      (
        λ h. separators_apart.0 (sym registers ∙ h ∙ revokes),
        λ h. separators_apart.1 (sym registers ∙ h ∙ attests),
        λ h. separators_apart.2 (sym revokes ∙ h ∙ attests),
      )
