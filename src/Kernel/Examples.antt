-- ===== src/Kernel/Examples.antt =====
-- Concrete evaluations, with amounts as whole ten-millionths and quantities as natural numbers.
use pakta.Base.{
  ℕ, ◌+◌, ◌*◌, ◌/◌, String, Bool, true, false, ◌≡◌, refl, ◌↔◌, ◌⊎◌, ◌≤◌, Option, none, some, List,
  [], ◌∷◌, ltb, leb, All, get_elem?,
}
use pakta.Base.Int.{ℤ, pos}
use pakta.Base.Pattern.{codes}
use pakta.Base.Show.{show, value_from}
use pakta.Wrapper.Amount.{units_of_codes}
use pakta.Canonical.Payable.{
  CanonicalPayable, Invoice, Vendor, verified, VendorWallet, attested, Approval, ApprovalObjectType,
  Policy, Exception, missing_receipt, proof_expired, text, medium,
}
use pakta.Kernel.Rules.{
  Numerics, RuleContext, contains, invoice_fingerprint, duplicate_check, wallet_attestation,
  vendor_amount_match, approval_threshold, receipt_coverage, budget_available, proof_expiry,
}
use pakta.Kernel.Metadata.{metadata}
use pakta.Kernel.Evaluate.{
  KernelResult, ready, blocked, evaluate_payable, exceptions_of, all_rules, evaluate_batch,
}
use pakta.Kernel.Evaluate.Conditions.{IsPayable}
use pakta.Kernel.Evaluate.Payable.{evaluate_payable-ready_iff}
use pakta.Kernel.Evaluate.Primary.{IsMostSevere, evaluate_payable-IsMostSevere}
use pakta.Kernel.Evaluate.Reasons.{IsTrue, evaluate_payable-IsTrue}
use pakta.Kernel.Evaluate.Batch.{IsReady, occurrences, evaluate_batch-IsReady_iff}

abbrev numerics_example : Numerics
numerics_example = record {
  Num = ℕ;
  zero_num = 0;
  add_num = λ a b. a + b;
  ge_num = λ a b. leb b a;
  show_num = show;
  Decimal = ℕ;
  decimal = λ s. units_of_codes (codes s);
  mul = λ a b. a * b;
  div_hundred = λ a. a / 100;
  plus = λ a b. a + b;
  lte = leb;
  gt = λ a b. ltb b a;
  to_fixed = show;
  iso = λ _. "2026-01-01T00:00:00.000Z";
}

abbrev id_example : String
id_example = "pay-INV-1"

abbrev invoice_example : Invoice
invoice_example = record {
  invoice_id = "INV-1";
  po_id = none;
  vendor_id = "V-1";
  amount = "5000.00";
  due_date = pos 2000;
  wallet_address = "GA";
  source_hash = "h";
}

abbrev approval_example : Approval
approval_example = record {
  object_type = ApprovalObjectType.invoice;
  object_id = "INV-1";
  policy_version = "v1";
  approver_id = "A-1";
  timestamp = pos 100;
}

-- Ready, if it has not expired at `expires_at`.
abbrev payable_example : Option ℤ → CanonicalPayable ℕ
payable_example expires_at = record {
  payable_id = "pay-INV-1";
  invoice = invoice_example;
  purchase_order = none;
  vendor = record { vendor_id = "V-1"; legal_name = "Vendor"; verification_status = verified };
  vendor_wallet = some (record {
    vendor_id = "V-1";
    address = "GA";
    attestation_status = attested;
    version = 1;
    created_at = pos 0;
  });
  receipts = [];
  approvals = approval_example ∷ [];
  policy_version = "v1";
  expires_at = expires_at;
}

abbrev context_of : Bool → RuleContext ℕ
context_of require_receipt = record {
  policy = record {
    policy_version = "v1";
    rules = record {
      require_po = false;
      require_receipt = require_receipt;
      amount_tolerance_pct = 2;
      duplicate_detection = true;
      wallet_change_requires_human = true;
      auto_pay_below = "1000.00";
      second_approval_above = "10000.00";
    };
  };
  now = pos 1000;
  known_invoice_fingerprints = [];
  settled_invoice_fingerprints = [];
  budgets_by_cost_center = none;
}

abbrev no_receipt : Exception ℕ
no_receipt = record {
  payable_id = "pay-INV-1";
  reason = missing_receipt;
  message = "No receipt on file for PO (none); delivery not confirmed.";
  severity = medium;
  owner_role = (metadata missing_receipt).owner_role;
  required_action = (metadata missing_receipt).required_action;
  evidence = ("poId", pakta.Canonical.Payable.missing) ∷ [];
  auto_revalidate = true;
  policy_version = "v1";
}

abbrev expired : Exception ℕ
expired = record {
  payable_id = "pay-INV-1";
  reason = proof_expired;
  message = "Payable expired at 2026-01-01T00:00:00.000Z.";
  severity = medium;
  owner_role = (metadata proof_expired).owner_role;
  required_action = (metadata proof_expired).required_action;
  evidence =
      ("expiresAt", text "2026-01-01T00:00:00.000Z")
      ∷ ("now", text "2026-01-01T00:00:00.000Z")
      ∷ [];
  auto_revalidate = true;
  policy_version = "v1";
}

blocked_example :
    evaluate_payable numerics_example (payable_example (some (pos 900))) (context_of true)
    ≡ blocked "pay-INV-1" (no_receipt ∷ expired ∷ []) no_receipt
unfolding evaluate_payable exceptions_of duplicate_check wallet_attestation vendor_amount_match
    approval_threshold receipt_coverage budget_available proof_expiry invoice_fingerprint contains
    metadata value_from
blocked_example = refl

evaluate_payable-ready_iff_example :
    (evaluate_payable numerics_example (payable_example none) (context_of false)
      ≡ ready "pay-INV-1" "v1")
    ↔ IsPayable numerics_example (payable_example none) (context_of false)
evaluate_payable-ready_iff_example =
    evaluate_payable-ready_iff numerics_example (payable_example none) (context_of false)

evaluate_payable-IsMostSevere_example :
    (id_example ≡ (payable_example (some (pos 900))).payable_id)
    × ((no_receipt ∷ expired ∷ [])
        ≡ exceptions_of numerics_example
            (all_rules numerics_example)
            (payable_example (some (pos 900)))
            (context_of true))
    × IsMostSevere numerics_example no_receipt (no_receipt ∷ expired ∷ [])
evaluate_payable-IsMostSevere_example =
    evaluate_payable-IsMostSevere numerics_example (payable_example (some (pos 900)))
      (context_of true) "pay-INV-1" (no_receipt ∷ expired ∷ []) no_receipt blocked_example

evaluate_payable-IsTrue_example :
    All
      (IsTrue numerics_example (payable_example (some (pos 900))) (context_of true))
      (no_receipt ∷ expired ∷ [])
evaluate_payable-IsTrue_example =
    evaluate_payable-IsTrue numerics_example (payable_example (some (pos 900))) (context_of true)
      "pay-INV-1" (no_receipt ∷ expired ∷ []) no_receipt blocked_example

-- The same invoice twice.
abbrev batch_example : List (CanonicalPayable ℕ)
batch_example = payable_example none ∷ payable_example none ∷ []

evaluate_batch-IsReady_iff_example :
    (r : KernelResult ℕ) × (get_elem?
        (evaluate_batch numerics_example batch_example (context_of false))
        1
      ≡ some r)
    × (IsReady numerics_example (payable_example none) (context_of false) r ↔ (
        IsReady numerics_example
          (payable_example none)
          (context_of false)
          (evaluate_payable numerics_example (payable_example none) (context_of false))
        × ((true ≡ false)
            ⊎ (occurrences (invoice_fingerprint (payable_example none)) batch_example ≤ 1))))
evaluate_batch-IsReady_iff_example =
    evaluate_batch-IsReady_iff numerics_example batch_example (context_of false)
      (payable_example none) 1 refl
