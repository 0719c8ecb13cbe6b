-- ===== src/Builder/Commitments.antt =====
-- What a proof that was built says of its payable.
use pakta.Base.{
  String, true, ◌≡◌, refl, ◌==◌, Option, none, some, arith, eq_iff, Bool-cases, inl, inr, sym,
  subst, ap, ◌∙◌,
}
use pakta.Base.Int.{ℤ}
use pakta.Base.Outcome.{Outcome, ok, threw}
use pakta.Canonical.Payable.{CanonicalPayable, VendorWallet}
use pakta.Canonical.Proof.{ProofOfPayable, is_proof}
use pakta.Kernel.Rules.{Numerics, RuleContext}
use pakta.Kernel.Evaluate.{KernelResult, ready, blocked, evaluate_payable}
use pakta.Kernel.Evaluate.Conditions.{IsPayable}
use pakta.Kernel.Evaluate.Payable.{evaluate_payable-ready_iff, evaluate_payable-version}
use pakta.Builder.{
  Evidences, build_proof_of_payable, build_from, build_with, invoice_hash, source_digest, proof_of,
  parse_proof, expiry_of,
}

module _ {Num : Type 0} (evidences : Evidences Num) where
  -- The proof names the payable, its amount, its vendor's wallet and the policy, and it is one
  -- that the schema accepts.
  pub record Commits (p : CanonicalPayable Num) (version : String) (proof : ProofOfPayable)
      : Type 0 where
    pub wallet : VendorWallet
    pub on_file : p.vendor_wallet ≡ some wallet
    pub payable_id : proof.payable_id ≡ p.payable_id
    pub vendor_wallet : proof.vendor_wallet ≡ wallet.address
    pub wallet_version : proof.wallet_attestation_version ≡ wallet.version
    pub vendor_id : proof.vendor_id ≡ p.vendor.vendor_id
    pub amount : proof.amount ≡ p.invoice.amount
    pub policy_version : proof.policy_version ≡ version
    pub well_formed : is_proof proof ≡ true

  parsed :
      (built proof : ProofOfPayable)
      → parse_proof evidences built ≡ ok proof
      → (built ≡ proof) × (is_proof built ≡ true)
  parsed built proof h = elim (Bool-cases (is_proof built)) [
    | inl valid ↦ (cc (h, valid), valid)
    | inr bad ↦ cc (h, bad)
  ]

  module _ (p : CanonicalPayable Num) (version : String) where
    build_from-Commits :
        (wallet : VendorWallet) (at : ℤ) (i o r a : Outcome String) (proof : ProofOfPayable)
        → p.vendor_wallet ≡ some wallet
        → build_from evidences p version wallet at i o r a ≡ ok proof
        → Commits p version proof
    build_from-Commits wallet at (ok i) (ok o) (ok r) (ok a) proof e h =
        let (same, valid) = parsed (proof_of evidences p version wallet at i o r a) proof h in
        subst (Commits p version) same (record {
          wallet = wallet;
          on_file = e;
          payable_id = refl;
          vendor_wallet = refl;
          wallet_version = refl;
          vendor_id = refl;
          amount = refl;
          policy_version = refl;
          well_formed = valid;
        })
    build_from-Commits wallet at (threw e') o r a proof e h = cc
    build_from-Commits wallet at (ok i) (threw e') r a proof e h = cc
    build_from-Commits wallet at (ok i) (ok o) (threw e') a proof e h = cc
    build_from-Commits wallet at (ok i) (ok o) (ok r) (threw e') proof e h = cc

    build_with-Commits :
        (w : Option VendorWallet) (at : ℤ) (proof : ProofOfPayable)
        → p.vendor_wallet ≡ w
        → build_with evidences p version w at ≡ ok proof
        → Commits p version proof
    build_with-Commits none at proof e h = cc
    build_with-Commits (some wallet) at proof e h =
        build_from-Commits wallet at
          (invoice_hash evidences p.invoice (source_digest p.invoice.source_hash))
          (evidences.hash_purchase_order p.purchase_order) (evidences.hash_receipts p.receipts)
          (evidences.hash_approvals p.approvals) proof e h

  -- A proof is built only from a kernel result that is READY for that very payable, and then it
  -- commits to the payable's identity, amount and attested wallet, and is well formed.
  pub build_proof_of_payable-Commits :
      (p : CanonicalPayable Num) (result : KernelResult Num) (now : ℤ) (expires_at : Option ℤ)
      (proof : ProofOfPayable)
      → build_proof_of_payable evidences p result now expires_at ≡ ok proof
      → (result ≡ ready p.payable_id proof.policy_version) × Commits p proof.policy_version proof
  unfolding build_proof_of_payable
  build_proof_of_payable-Commits p (blocked id es e) now expires_at proof h = cc
  build_proof_of_payable-Commits p (ready id version) now expires_at proof h =
      elim (Bool-cases (id == p.payable_id)) [
        | inl same ↦
            let c =
              build_with-Commits p version p.vendor_wallet (expiry_of evidences now expires_at)
                proof refl (ground arith) in
            let of_policy = c.policy_version in
            (
              cc (of_policy, (eq_iff id p.payable_id).0 same),
              subst (λ v. Commits p v proof) (sym of_policy) c,
            )
        | inr other ↦ cc (h, other)
      ]

some_inj : {a b : VendorWallet} → some a ≡ some b → a ≡ b
some_inj h = cc h

module _ (numerics : Numerics) (evidences : Evidences (numerics.Num)) where
  open numerics use {Num}

  -- A proof built from the kernel's own evaluation of a payable is for a payable that meets every
  -- control, and it pays the invoice's amount at the address that the invoice names, which is the
  -- vendor's attested wallet.
  pub evaluate_payable-build :
      (p : CanonicalPayable Num) (c : RuleContext Num) (now : ℤ) (expires_at : Option ℤ)
      (proof : ProofOfPayable)
      → build_proof_of_payable evidences p (evaluate_payable numerics p c) now expires_at ≡ ok proof
      → IsPayable numerics p c
        × (proof.vendor_wallet ≡ p.invoice.wallet_address)
        × (proof.amount ≡ p.invoice.amount)
        × (proof.policy_version ≡ c.policy.policy_version)
  evaluate_payable-build p c now expires_at proof h =
      let (is_ready, commits) =
        build_proof_of_payable-Commits evidences p (evaluate_payable numerics p c) now expires_at
          proof h in
      let of_policy =
        evaluate_payable-version numerics p c p.payable_id proof.policy_version is_ready in
      let payable =
        (evaluate_payable-ready_iff numerics p c).0
          (is_ready ∙ ap (λ v. ready p.payable_id v) of_policy) in
      (
        payable,
        paid_at payable.attested.wallet payable.attested.on_file payable.attested.same_address
            commits.wallet commits.on_file commits.vendor_wallet,
        commits.amount,
        of_policy,
      )
    where
      paid_at :
          (a : VendorWallet)
          → p.vendor_wallet ≡ some a
          → a.address ≡ p.invoice.wallet_address
          → (b : VendorWallet) → p.vendor_wallet ≡ some b
          → proof.vendor_wallet ≡ b.address
          → proof.vendor_wallet ≡ p.invoice.wallet_address
      paid_at a ha same b hb at_b = at_b ∙ ap (λ w. w.address) (some_inj (sym hb ∙ ha)) ∙ same
