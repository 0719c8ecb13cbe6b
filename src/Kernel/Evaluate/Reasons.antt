-- ===== src/Kernel/Evaluate/Reasons.antt =====
-- Which exceptions a blocked payable carries, and that each of them has its cause.
use pakta.Base.{
  ◌<◌, String, true, false, ◌==◌, ◌≡◌, refl, ◌⊎◌, inl, inr, List, [], ◌∷◌, All, arith, Option, none,
  some, subst, length, Bool-cases, ltb,
}
use pakta.Canonical.Payable.{
  CanonicalPayable, Exception, ExceptionReasonCode, duplicate_invoice, po_amount_mismatch,
  missing_receipt, partial_receipt, vendor_wallet_changed, unattested_wallet, budget_exceeded,
  approval_missing, proof_expired, payment_already_settled, erp_posting_failed,
  VendorVerificationStatus, WalletAttestationStatus, verified, attested, PurchaseOrder,
  VendorWallet, Receipt,
}
use pakta.Base.Int.{ℤ, ltb_ℤ}
use pakta.Kernel.Rules.{
  Numerics, RuleContext, RuleResult, pass, fail, Rule, contains, invoice_fingerprint, is_attested,
  is_verified, duplicate_check, wallet_attestation, check_wallet, vendor_amount_match, check_amount,
  approval_threshold, receipt_coverage, ceiling_of, required_approvals, check_receipts, tracked,
  confirmed_from, invoiced_from, cover, budget_available, proof_expiry, check_expiry,
}
use pakta.Kernel.Evaluate.{
  blocked, result_of, evaluate_payable, exceptions_of, add_exception, all_rules,
}
use pakta.Kernel.Evaluate.Conditions.{IsWithin, IsUntracked, totals}
use pakta.Kernel.Evaluate.Payable.{totals-tracked, tracked-nil}

module _ (numerics : Numerics) where
  open numerics use {Num, zero_num, decimal, gt, ge_num}

  -- A wallet on file, attested, of a verified vendor.
  abbrev IsUsable : CanonicalPayable Num → VendorWallet → Type 0
  IsUsable p w =
      (p.vendor_wallet ≡ some w)
      × (w.attestation_status ≡ attested)
      × (p.vendor.verification_status ≡ verified)

  -- What each reason says of the payable. No rule compares a budget yet, and posting to the ERP is
  -- not the kernel's.
  abbrev pub Explains : CanonicalPayable Num → RuleContext Num → ExceptionReasonCode → Type 0
  Explains p c payment_already_settled =
      (c.policy.rules.duplicate_detection ≡ true)
      × (contains (invoice_fingerprint p) c.settled_invoice_fingerprints ≡ true)
  Explains p c duplicate_invoice =
      (c.policy.rules.duplicate_detection ≡ true)
      × (contains (invoice_fingerprint p) c.settled_invoice_fingerprints ≡ false)
      × (contains (invoice_fingerprint p) c.known_invoice_fingerprints ≡ true)
  Explains p c unattested_wallet = (w : VendorWallet) → IsUsable p w → ⊥
  Explains p c vendor_wallet_changed =
      (w : VendorWallet) × IsUsable p w × ((w.address == p.invoice.wallet_address) ≡ false)
  Explains p c po_amount_mismatch =
      (po : PurchaseOrder) × (p.purchase_order ≡ some po) × (IsWithin numerics p c (some po) → ⊥)
  Explains p c approval_missing =
      (length p.approvals ≡ 0)
      ⊎ ((gt (decimal p.invoice.amount) (decimal c.policy.rules.second_approval_above) ≡ true)
          × (length p.approvals < 2))
  Explains p c missing_receipt = (p.receipts ≡ []) × (c.policy.rules.require_receipt ≡ true)
  Explains p c partial_receipt =
      (All (IsUntracked numerics) p.receipts → ⊥)
      × (let (confirmed, invoiced) = totals numerics zero_num zero_num p.receipts in
          ge_num confirmed invoiced ≡ false)
  Explains p c proof_expired = (at : ℤ) × (p.expires_at ≡ some at) × (ltb_ℤ c.now at ≡ false)
  Explains p c budget_exceeded = ⊥
  Explains p c erp_posting_failed = ⊥

  -- An exception tells of the payable and of the policy, and its reason holds.
  pub record IsTrue (p : CanonicalPayable Num) (c : RuleContext Num) (e : Exception Num)
      : Type 0 where
    pub of_payable : e.payable_id ≡ p.payable_id
    pub of_policy : e.policy_version ≡ c.policy.policy_version
    pub explained : Explains p c e.reason

  module _ (p : CanonicalPayable Num) (c : RuleContext Num) where
    abbrev IsExplained : RuleResult Num → Type 0
    IsExplained pass = Unit
    IsExplained (fail reason message evidence) = Explains p c reason

    duplicate_check-IsExplained : IsExplained (duplicate_check numerics p c)
    unfolding duplicate_check
    duplicate_check-IsExplained = elim (Bool-cases c.policy.rules.duplicate_detection) [
      | inr off ↦ rw off tt
      | inl on ↦
          elim (Bool-cases (contains (invoice_fingerprint p) c.settled_invoice_fingerprints)) [
            | inl settled ↦ rw (on, settled) (refl, settled)
            | inr unsettled ↦
                elim (Bool-cases (contains (invoice_fingerprint p) c.known_invoice_fingerprints)) [
                  | inl known ↦ rw (on, unsettled, known) (refl, unsettled, known)
                  | inr new ↦ rw (on, unsettled, new) tt
                ]
          ]
    ]

    attested_of : (a : WalletAttestationStatus) → is_attested a ≡ true → a ≡ attested
    attested_of a h = ground arith

    verified_of : (v : VendorVerificationStatus) → is_verified v ≡ true → v ≡ verified
    verified_of v h = ground arith

    check_wallet-IsExplained :
        (o : Option VendorWallet) → p.vendor_wallet ≡ o → IsExplained (check_wallet numerics p o)
    check_wallet-IsExplained none e = λ w usable. cc (e, usable.0)
    check_wallet-IsExplained (some w) e = elim (Bool-cases (is_attested w.attestation_status)) [
      | inr unsure ↦ rw unsure (λ v usable. cc (unsure, e, usable.0, usable.1))
      | inl sure ↦ elim (Bool-cases (is_verified p.vendor.verification_status)) [
        | inr unsure ↦ rw (sure, unsure) (λ v usable. cc (unsure, usable.2))
        | inl vendor ↦ elim (Bool-cases (w.address == p.invoice.wallet_address)) [
          | inl same ↦ rw (sure, vendor, same) tt
          | inr apart ↦
              rw (sure, vendor, apart)
                (
                  w,
                  (
                    e,
                    attested_of w.attestation_status sure,
                    verified_of p.vendor.verification_status vendor,
                  ),
                  apart,
                )
        ]
      ]
    ]

    check_amount-IsExplained :
        (o : Option PurchaseOrder)
        → p.purchase_order ≡ o
        → IsExplained (check_amount numerics p c o)
    check_amount-IsExplained none e = tt
    check_amount-IsExplained (some po) e =
        elim (Bool-cases (numerics.lte (decimal p.invoice.amount) (ceiling_of numerics c po))) [
          | inl within ↦ rw within tt
          | inr above ↦ rw above (po, e, λ within. cc (within, above))
        ]

    approval_threshold-IsExplained : IsExplained (approval_threshold numerics p c)
    unfolding approval_threshold
    approval_threshold-IsExplained =
        elim (Bool-cases (ltb (length p.approvals) (required_approvals numerics p c))) [
          | inr enough ↦ rw enough tt
          | inl short ↦
              rw short
                (elim (Bool-cases
                  (gt (decimal p.invoice.amount) (decimal c.policy.rules.second_approval_above))) [
                    | inl large ↦ inr (large, ground arith)
                    | inr small ↦ inl (ground arith)
                  ])
        ]

    cover-IsExplained :
        (rs : List (Receipt Num))
        → p.receipts ≡ rs
        → IsExplained (cover numerics (tracked numerics rs))
    cover-IsExplained rs e = by_tracked (tracked numerics rs) refl
      where
        by_tracked :
            (ts : List (Receipt Num)) → tracked numerics rs ≡ ts → IsExplained (cover numerics ts)
        by_tracked [] h = tt
        by_tracked (t ∷ ts) h =
            let sums = totals-tracked numerics p c zero_num zero_num rs in
            elim (Bool-cases (
              ge_num (confirmed_from numerics zero_num (t ∷ ts))
                (invoiced_from numerics zero_num (t ∷ ts)))) [
                  | inl enough ↦ rw enough tt
                  | inr short ↦
                      rw (short, e)
                        (
                          λ untracked. cc (h, (tracked-nil numerics p c rs).1 untracked),
                          rw (sums, h) short,
                        )
                ]

    check_receipts-IsExplained :
        (rs : List (Receipt Num)) → p.receipts ≡ rs → IsExplained (check_receipts numerics p c rs)
    check_receipts-IsExplained [] e = elim (Bool-cases c.policy.rules.require_receipt) [
      | inl required ↦ rw required (e, refl)
      | inr optional ↦ rw optional tt
    ]
    check_receipts-IsExplained (r ∷ rs) e = cover-IsExplained (r ∷ rs) e

    budget_available-IsExplained : IsExplained (budget_available numerics p c)
    unfolding budget_available
    budget_available-IsExplained = by_budgets c.budgets_by_cost_center
      where
        by_budgets :
            (o : Option (List (String × String)))
            → IsExplained (elim o [ none ↦ pass | some budgets ↦ pass ])
        by_budgets none = tt
        by_budgets (some budgets) = tt

    check_expiry-IsExplained :
        (o : Option ℤ) → p.expires_at ≡ o → IsExplained (check_expiry numerics c o)
    check_expiry-IsExplained none e = tt
    check_expiry-IsExplained (some at) e = elim (Bool-cases (ltb_ℤ c.now at)) [
      | inl early ↦ rw early tt
      | inr late ↦ rw late (at, e, late)
    ]

    exceptions_of-IsTrue :
        (rules : List (Rule numerics))
        → All (λ rule. IsExplained (rule p c)) rules
        → All (IsTrue p c) (exceptions_of numerics rules p c)
    unfolding exceptions_of
    exceptions_of-IsTrue [] h = tt
    exceptions_of-IsTrue (rule ∷ rules) h =
        add (rule p c) (exceptions_of numerics rules p c) h.0 (exceptions_of-IsTrue rules h.1)
      where
        add :
            (o : RuleResult Num) (rest : List (Exception Num))
            → IsExplained o
            → All (IsTrue p c) rest
            → All (IsTrue p c) (add_exception numerics p c o rest)
        add pass rest r hs = hs
        add (fail reason message evidence) rest r hs =
            (record { of_payable = refl; of_policy = refl; explained = r }, hs)

    -- Each exception of a blocked payable names that payable and the policy's version, and its reason
    -- holds: the fingerprint is settled or known; there is no attested wallet of a verified vendor,
    -- or there is one at another address than the invoice's; the amount is above what the purchase
    -- order covers; an approval, or the second one that the amount needs, is missing; a receipt is
    -- missing, or what was confirmed is less than what was invoiced; or the payable has expired. It
    -- is never BUDGET_EXCEEDED or ERP_POSTING_FAILED.
    pub evaluate_payable-IsTrue :
        (id : String) (es : List (Exception Num)) (e : Exception Num)
        → evaluate_payable numerics p c ≡ blocked id es e
        → All (IsTrue p c) es
    unfolding evaluate_payable vendor_amount_match receipt_coverage proof_expiry wallet_attestation
    evaluate_payable-IsTrue id es e h =
        subst (All (IsTrue p c)) (of_result (exceptions_of numerics (all_rules numerics) p c) h) (
          exceptions_of-IsTrue (all_rules numerics) (
            duplicate_check-IsExplained,
            (
              check_wallet-IsExplained p.vendor_wallet refl,
              (
                check_amount-IsExplained p.purchase_order refl,
                (
                  approval_threshold-IsExplained,
                  (
                    check_receipts-IsExplained p.receipts refl,
                    (
                      budget_available-IsExplained,
                      (check_expiry-IsExplained p.expires_at refl, tt),
                    ),
                  ),
                ),
              ),
            ),
          ))
      where
        of_result :
            (found : List (Exception Num))
            → result_of numerics p c found ≡ blocked id es e
            → found ≡ es
        of_result [] r = cc
        of_result (x ∷ xs) r = cc
