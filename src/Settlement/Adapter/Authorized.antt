-- ===== src/Settlement/Adapter/Authorized.antt =====
-- The adapter with registration.ts and issuer.ts behind its interface: what the money that moves was
-- authorized by.
use pakta.Base.{ℕ, ◌≡◌, refl, ap, ◌∙◌, Option, inl, inr, String, List, [], ◌∷◌, ◌++◌, subst}
use pakta.Base.Outcome.{Outcome, ok, threw, Failure, refused, invalid_proof, Outcome-cases}
use pakta.Canonical.Proof.{SignedProofOfPayable, Settlement}
use pakta.Wrapper.Amount.{decimal_to_units, units_to_decimal}
use pakta.Settlement.Action.{World}
use pakta.Settlement.Chain.{IssuerSignatureArg, PreparedRegistration, SubmittedTx}
use pakta.Settlement.Deployment.{Deployment}
use pakta.Settlement.Gate.{NodeCrypto, FakeGate, Payment, fake_client}
use pakta.Base.Pattern.{codes}
use pakta.ProofHash.Digest.{sha256_hex}
use pakta.Wrapper.StrKey.{decode_account_id}
use pakta.Settlement.Registration.{Codecs, verify_signed_proof}
use pakta.Settlement.Registration.Envelope.{Binds, verify_signed_proof-Binds}
use pakta.Settlement.Adapter.{ProofVerifier, SettlementContext, settled, verify, settle}
use pakta.Settlement.Adapter.Payments.{Pays, settle-Pays}

module _ (codecs : Codecs) (encode_hex : List ℕ → String) where
  -- `#signatures`: the envelope's account as a raw key in hex, and its signature's bytes.
  abbrev pub signature_of : SignedProofOfPayable → Outcome (List ℕ) → Outcome IssuerSignatureArg
  signature_of signed (threw e) = threw e
  signature_of signed (ok key) = ok (record {
    issuer_public_key_hex = encode_hex key;
    signature = codecs.decode_base64 signed.issuer_signature;
  })

  abbrev pub verifier_of : ProofVerifier
  verifier_of = record {
    verify_signed_proof = verify_signed_proof codecs;
    issuer_signature =
        λ signed. signature_of signed (decode_account_id (codes signed.issuer_public_key));
    units_to_decimal = λ units. units_to_decimal units 2;
  }

  abbrev payment : String → String → ℕ → Payment
  payment id to units = record { payable_id_hash = id; recipient = to; amount = units }

  module _ (crypto : NodeCrypto) (deployment : Deployment) (signed : SignedProofOfPayable)
      (context : SettlementContext) (w : World FakeGate) where
    settle-unverified :
        (e : Failure)
        → verify_signed_proof codecs signed deployment ≡ threw e
        → (settle (fake_client crypto) verifier_of deployment signed context w).0
          ≡ threw (refused "proof failed verification" invalid_proof)
    unfolding settle verify
    settle-unverified e bad = rw (bad, settle, verify) refl

    -- An envelope that does not verify pays nothing.
    pub unverified-payments :
        (e : Failure)
        → verify_signed_proof codecs signed deployment ≡ threw e
        → (settle (fake_client crypto) verifier_of deployment signed context w).1.gate.payments
          ≡ w.gate.payments
    unfolding settle verify
    unverified-payments e bad = rw (bad, settle, verify) refl

    -- When a run of `settle` answers SETTLED, the issuer of the envelope signed for this gate and
    -- network, and the payment that was made is to the wallet that the signed proof names, of the
    -- units of its amount, and no other.
    pub settle-Binds :
        (s : Settlement) (t : Option SubmittedTx) (u : SubmittedTx)
        → (settle (fake_client crypto) verifier_of deployment signed context w).0
          ≡ ok (settled s t u)
        → (r : PreparedRegistration) × Binds codecs signed deployment r
          × ((units : ℕ) × (decimal_to_units signed.proof.amount ≡ ok units)
              × ((settle
                    (fake_client crypto)
                    verifier_of
                    deployment
                    signed
                    context
                    w).1.gate.payments
                  ≡ w.gate.payments
                    ++ record {
                      payable_id_hash = sha256_hex codecs.hashing signed.proof.payable_id;
                      recipient = signed.proof.vendor_wallet;
                      amount = units;
                    }
                      ∷ []))
    settle-Binds s t u h = elim (Outcome-cases (verify_signed_proof codecs signed deployment)) [
      | inl (e, bad) ↦ cc (h, settle-unverified e bad)
      | inr (r, good) ↦
          let b = verify_signed_proof-Binds codecs signed deployment r good in
          let end = settle (fake_client crypto) verifier_of deployment signed context w in
          let paid =
            subst (λ o. Pays r o w.gate.payments end.1.gate.payments) h
              (settle-Pays crypto verifier_of deployment signed context r w good) in
          (
            r,
            b,
            (
              r.amount_units,
              b.prepares.units,
              paid
                  ∙ ap (λ id. w.gate.payments ++ payment id r.recipient r.amount_units ∷ [])
                      b.prepares.id_hash
                  ∙ ap
                      (λ to.
                        w.gate.payments
                        ++ payment (sha256_hex codecs.hashing signed.proof.payable_id) to
                            r.amount_units
                          ∷ [])
                      b.prepares.recipient,
            ),
          )
    ]
