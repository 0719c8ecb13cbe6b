-- ===== src/Settlement/Registration/Envelope.antt =====
-- What an envelope that verifies binds, and that an issuer's own envelopes verify.
use pakta.Base.{
  ℕ, String, true, ◌≡◌, refl, ◌==◌, eq_iff, eq_refl, List, arith, Bool-cases, inl, inr, subst,
}
use pakta.Base.Int.{ℤ}
use pakta.Base.Pattern.{codes}
use pakta.ProofHash.Digest.{sha256_hex, registration_digest_hex, iso_to_unix_seconds}
use pakta.Wrapper.StrKey.{decode_account_id}
use pakta.Base.Outcome.{Outcome, ok, threw}
use pakta.Canonical.Proof.{ProofOfPayable, is_proof, SignedProofOfPayable, is_signed_proof}
use pakta.Wrapper.Amount.{decimal_to_units}
use pakta.Settlement.Chain.{PreparedRegistration}
use pakta.Settlement.Deployment.{Deployment}
use pakta.Settlement.Registration.{
  Codecs, Issuer, digest_input, prepared_of, with_digest, with_parts, with_wallet,
  prepare_registration, envelope, sign_prepared, sign, check_signature, check_prepared,
  verify_signed_proof,
}

module _ (codecs : Codecs) where
  -- The registration says what the proof says, for this deployment and its asset.
  pub record Prepares (p : ProofOfPayable) (d : Deployment) (r : PreparedRegistration)
      : Type 0 where
    pub well_formed : is_proof p ≡ true
    pub asset : p.asset ≡ d.asset_code
    pub payable_id : r.payable_id ≡ p.payable_id
    pub id_hash : r.payable_id_hash ≡ sha256_hex codecs.hashing p.payable_id
    pub recipient : r.recipient ≡ p.vendor_wallet
    pub units : decimal_to_units p.amount ≡ ok r.amount_units
    pub expiry : iso_to_unix_seconds codecs.hashing p.expires_at ≡ ok r.expiry
    pub hash : codecs.proof_hash p ≡ ok r.proof_hash
    pub digest :
        registration_digest_hex codecs.hashing
          (digest_input codecs p d r.amount_units r.expiry r.proof_hash)
        ≡ ok r.registration_digest

  module _ (p : ProofOfPayable) (d : Deployment) (r : PreparedRegistration)
      (valid : is_proof p ≡ true) (same_asset : p.asset ≡ d.asset_code) where
    with_digest-Prepares :
        (units : ℕ) (expiry : ℤ) (hash : String) (digest : Outcome String)
        → decimal_to_units p.amount ≡ ok units
        → iso_to_unix_seconds codecs.hashing p.expires_at ≡ ok expiry
        → codecs.proof_hash p ≡ ok hash
        → registration_digest_hex codecs.hashing (digest_input codecs p d units expiry hash)
          ≡ digest
        → with_digest codecs p d units expiry hash digest ≡ ok r
        → Prepares p d r
    with_digest-Prepares units expiry hash (threw e) hu he hh hd h = cc
    with_digest-Prepares units expiry hash (ok digest) hu he hh hd h =
        let same : prepared_of codecs p d units expiry hash digest ≡ r = cc in
        subst (Prepares p d) same (record {
          well_formed = valid;
          asset = same_asset;
          payable_id = refl;
          id_hash = refl;
          recipient = refl;
          units = hu;
          expiry = he;
          hash = hh;
          digest = hd;
        })

    with_parts-Prepares :
        (units : Outcome ℕ) (expiry : Outcome ℤ) (hash : Outcome String)
        → decimal_to_units p.amount ≡ units
        → iso_to_unix_seconds codecs.hashing p.expires_at ≡ expiry
        → codecs.proof_hash p ≡ hash
        → with_parts codecs p d units expiry hash ≡ ok r
        → Prepares p d r
    with_parts-Prepares (threw e) expiry hash hu he hh h = cc
    with_parts-Prepares (ok units) (threw e) hash hu he hh h = cc
    with_parts-Prepares (ok units) (ok expiry) (threw e) hu he hh h = cc
    with_parts-Prepares (ok units) (ok expiry) (ok hash) hu he hh h =
        with_digest-Prepares units expiry hash
          (registration_digest_hex codecs.hashing (digest_input codecs p d units expiry hash)) hu he
          hh refl h

  with_wallet-Prepares :
      (p : ProofOfPayable) (d : Deployment) (r : PreparedRegistration) (key : Outcome (List ℕ))
      → is_proof p ≡ true
      → with_wallet codecs p d key ≡ ok r
      → Prepares p d r
  with_wallet-Prepares p d r (threw e) valid h = cc
  with_wallet-Prepares p d r (ok key) valid h = elim (Bool-cases (p.asset == d.asset_code)) [
    | inr other ↦ cc (h, other)
    | inl same ↦
        with_parts-Prepares p d r valid ((eq_iff p.asset d.asset_code).0 same)
          (decimal_to_units p.amount) (iso_to_unix_seconds codecs.hashing p.expires_at)
          (codecs.proof_hash p) refl refl refl (ground arith)
  ]

  -- A registration is prepared only from a well-formed proof for the deployment's asset, and it
  -- carries the proof's payable, wallet, amount in units, expiry and hash, and their digest.
  pub prepare_registration-Prepares :
      (p : ProofOfPayable) (d : Deployment) (r : PreparedRegistration)
      → prepare_registration codecs p d ≡ ok r
      → Prepares p d r
  unfolding prepare_registration
  prepare_registration-Prepares p d r h = elim (Bool-cases (is_proof p)) [
    | inr bad ↦ cc (h, bad)
    | inl good ↦
        with_wallet-Prepares p d r (decode_account_id (codes p.vendor_wallet)) good (ground arith)
  ]

  -- The issuer's key signed the digest of what is registered, for this gate and network.
  pub record Binds (s : SignedProofOfPayable) (d : Deployment) (r : PreparedRegistration)
      : Type 0 where
    pub prepares : Prepares s.proof d r
    pub gate : s.contract_id ≡ d.contract_id
    pub network : s.network_passphrase ≡ d.network_passphrase
    pub hash : r.proof_hash ≡ s.proof_hash
    pub key : List ℕ
    pub issuer : decode_account_id (codes s.issuer_public_key) ≡ ok key
    pub signature :
        codecs.ed25519_verify r.registration_digest key (codecs.decode_base64 s.issuer_signature)
        ≡ true

  module _ (s : SignedProofOfPayable) (d : Deployment) (r : PreparedRegistration)
      (gate : s.contract_id ≡ d.contract_id)
      (network : s.network_passphrase ≡ d.network_passphrase) where
    check_signature-Binds :
        (r' : PreparedRegistration) (key : Outcome (List ℕ))
        → Prepares s.proof d r'
        → r'.proof_hash ≡ s.proof_hash
        → decode_account_id (codes s.issuer_public_key) ≡ key
        → check_signature codecs s r' key ≡ ok r
        → Binds s d r
    check_signature-Binds r' (threw e) hp hh hk h = cc
    check_signature-Binds r' (ok key) hp hh hk h =
        elim (Bool-cases (
          codecs.ed25519_verify r'.registration_digest key
            (codecs.decode_base64 s.issuer_signature))) [
              | inr bad ↦ cc (h, bad)
              | inl good ↦
                  let same : r' ≡ r = ground arith in
                  subst (Binds s d) same (record {
                    prepares = hp;
                    gate = gate;
                    network = network;
                    hash = hh;
                    key = key;
                    issuer = hk;
                    signature = good;
                  })
            ]

    check_prepared-Binds :
        (o : Outcome PreparedRegistration)
        → prepare_registration codecs s.proof d ≡ o
        → check_prepared codecs s o ≡ ok r
        → Binds s d r
    check_prepared-Binds (threw e) hp h = cc
    check_prepared-Binds (ok r') hp h = elim (Bool-cases (r'.proof_hash == s.proof_hash)) [
      | inr other ↦ cc (h, other)
      | inl same ↦
          check_signature-Binds r' (decode_account_id (codes s.issuer_public_key))
            (prepare_registration-Prepares s.proof d r' hp)
            ((eq_iff r'.proof_hash s.proof_hash).0 same) refl (ground arith)
    ]

  -- An envelope that verifies for a deployment was made for that gate and network, its proof is
  -- well formed and for the deployment's asset, the registration says what the proof says, the
  -- hash is the proof's, and the issuer's signature is valid for the registration's digest.
  pub verify_signed_proof-Binds :
      (s : SignedProofOfPayable) (d : Deployment) (r : PreparedRegistration)
      → verify_signed_proof codecs s d ≡ ok r
      → Binds s d r
  unfolding verify_signed_proof
  verify_signed_proof-Binds s d r h = elim (Bool-cases (s.contract_id == d.contract_id)) [
    | inr other ↦ cc (h, other)
    | inl gate ↦ elim (Bool-cases (s.network_passphrase == d.network_passphrase)) [
      | inr other ↦ ground arith
      | inl network ↦
          check_prepared-Binds s d r ((eq_iff s.contract_id d.contract_id).0 gate)
            ((eq_iff s.network_passphrase d.network_passphrase).0 network)
            (prepare_registration codecs s.proof d) refl (ground arith)
    ]
  ]

  module _ (issuer : Issuer) (key : List ℕ)
      (account : decode_account_id (codes issuer.account_id) ≡ ok key)
      (base64 : (digest : String)
        → codecs.decode_base64 (codecs.encode_base64 (issuer.sign_digest digest))
          ≡ issuer.sign_digest digest)
      (ed25519 : (digest : String)
        → codecs.ed25519_verify digest key (issuer.sign_digest digest) ≡ true) where
    check_prepared-envelope :
        (p : ProofOfPayable) (d : Deployment) (r : PreparedRegistration)
        → check_prepared codecs (envelope codecs p d issuer r) (ok r) ≡ ok r
    check_prepared-envelope p d r =
        rw
          (
            eq_refl r.proof_hash,
            account,
            base64 r.registration_digest,
            ed25519 r.registration_digest,
          )
          refl

    -- With an account that decodes to the issuer's key, signatures that Base64 gives back and that
    -- verify under that key: an envelope that the issuer signs
    -- verifies for the deployment it was signed for, and gives the registration that was signed.
    pub sign-verify_signed_proof :
        (p : ProofOfPayable) (d : Deployment) (s : SignedProofOfPayable) (r : PreparedRegistration)
        → sign codecs p d issuer ≡ ok (s, r)
        → verify_signed_proof codecs s d ≡ ok r
    unfolding sign verify_signed_proof
    sign-verify_signed_proof p d s r h = by_prepared (prepare_registration codecs p d) refl h
      where
        by_prepared :
            (o : Outcome PreparedRegistration)
            → prepare_registration codecs p d ≡ o
            → sign_prepared codecs p d issuer o ≡ ok (s, r)
            → verify_signed_proof codecs s d ≡ ok r
        by_prepared (threw e) hp e' = cc
        by_prepared (ok r') hp e' =
            elim (Bool-cases (is_signed_proof (envelope codecs p d issuer r'))) [
              | inr bad ↦ cc (e', bad)
              | inl good ↦
                  let made : envelope codecs p d issuer r' ≡ s = ground arith in
                  let same : r' ≡ r = ground arith in
                  subst (λ x. verify_signed_proof codecs x d ≡ ok r) made
                    (subst
                      (λ x. verify_signed_proof codecs (envelope codecs p d issuer r') d ≡ ok x)
                      same
                      (rw
                        (
                          verify_signed_proof,
                          eq_refl d.contract_id,
                          eq_refl d.network_passphrase,
                          hp,
                        )
                        (check_prepared-envelope p d r')))
            ]
