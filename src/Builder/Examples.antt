-- ===== src/Builder/Examples.antt =====
-- A proof built for one payable.
use pakta.Base.{ℕ, ◌+◌, ◌*◌, ◌/◌, String, ◌≡◌, refl, true, none, some, [], ◌∷◌, ltb, leb}
use pakta.Base.Int.{pos}
use pakta.Base.Outcome.{ok}
use pakta.Base.Pattern.{codes, is_hex64, is_account_shape, is_proof_amount, is_utc_seconds}
use pakta.Base.Show.{value_from}
use pakta.Wrapper.Amount.{units_of_codes}
use pakta.Canonical.Payable.{CanonicalPayable, verified, attested, ApprovalObjectType, open_order}
use pakta.Canonical.Proof.{ProofOfPayable, is_proof}
use pakta.Kernel.Rules.{
  Numerics, RuleContext, contains, invoice_fingerprint, duplicate_check, wallet_attestation,
  vendor_amount_match, approval_threshold, receipt_coverage, budget_available, proof_expiry,
}
use pakta.Kernel.Evaluate.{KernelResult, ready, evaluate_payable, exceptions_of}
use pakta.Kernel.Evaluate.Conditions.{IsPayable}
use pakta.Builder.{Evidences, build_proof_of_payable, source_digest}
use pakta.Builder.Commitments.{Commits, build_proof_of_payable-Commits, evaluate_payable-build}

abbrev digest : String
digest = "0123456789abcdef0123456789abcdef0123456789abcdef0123456789abcdef"

abbrev account : String
account = "GAAAAAAAAAAAAAAAAAAAAAAAAAAAAAAAAAAAAAAAAAAAAAAAAAAAAAAA"

abbrev evidences_example : Evidences ℕ
evidences_example = record {
  hash_invoice = λ _. ok digest;
  hash_purchase_order = λ _. ok digest;
  hash_receipts = λ _. ok digest;
  hash_approvals = λ _. ok digest;
  iso_seconds = λ _. "2026-01-01T00:00:00Z";
}

-- Amounts as whole ten-millionths, quantities as natural numbers.
abbrev whole_numbers : Numerics
whole_numbers = record {
  Num = ℕ;
  zero_num = 0;
  add_num = λ a b. a + b;
  ge_num = λ a b. leb b a;
  show_num = λ _. "n";
  Decimal = ℕ;
  decimal = λ s. units_of_codes (codes s);
  mul = λ a b. a * b;
  div_hundred = λ a. a / 100;
  plus = λ a b. a + b;
  lte = leb;
  gt = λ a b. ltb b a;
  to_fixed = λ _. "d";
  iso = λ _. "2026-01-01T00:00:00.000Z";
}

abbrev ordered_payable : CanonicalPayable ℕ
ordered_payable = record {
  payable_id = "PAY-1";
  invoice = record {
    invoice_id = "INV-1";
    po_id = some "PO-1";
    vendor_id = "V-1";
    amount = "5000.00";
    due_date = pos 2000;
    wallet_address = account;
    source_hash = digest;
  };
  purchase_order = some (record {
    po_id = "PO-1";
    vendor_id = "V-1";
    amount = "5000.00";
    status = open_order;
    approver_id = none;
  });
  vendor = record { vendor_id = "V-1"; legal_name = "Vendor"; verification_status = verified };
  vendor_wallet = some (record {
    vendor_id = "V-1";
    address = account;
    attestation_status = attested;
    version = 1;
    created_at = pos 0;
  });
  receipts =
      record {
        po_id = "PO-1";
        confirmed_qty = 10;
        invoiced_qty = some 10;
        confirmed_by = "ops";
        confirmed_at = pos 50;
      }
      ∷ [];
  approvals =
      record {
        object_type = ApprovalObjectType.invoice;
        object_id = "INV-1";
        policy_version = "v1";
        approver_id = "A-1";
        timestamp = pos 100;
      }
      ∷ [];
  policy_version = "v1";
  expires_at = none;
}

abbrev policy_context : RuleContext ℕ
policy_context = record {
  policy = record {
    policy_version = "v1";
    rules = record {
      require_po = true;
      require_receipt = true;
      amount_tolerance_pct = 2;
      duplicate_detection = true;
      wallet_change_requires_human = true;
      auto_pay_below = "1000.00";
      second_approval_above = "10000.00";
    };
  };
  now = pos 1000;
  known_invoice_fingerprints = [];
  settled_invoice_fingerprints = [];
  budgets_by_cost_center = none;
}

abbrev built_example : ProofOfPayable
built_example = record {
  payable_id = "PAY-1";
  invoice_hash = digest;
  po_hash = digest;
  receipt_hash = digest;
  vendor_id = "V-1";
  vendor_wallet = account;
  wallet_attestation_version = 1;
  amount = "5000.00";
  asset = "USDC";
  policy_version = "v1";
  approvals_hash = digest;
  cost_center = "UNSPECIFIED";
  expires_at = "2026-01-01T00:00:00Z";
  status = "READY";
}

is_ready_example :
    evaluate_payable whole_numbers ordered_payable policy_context ≡ ready "PAY-1" "v1"
unfolding evaluate_payable exceptions_of duplicate_check wallet_attestation vendor_amount_match
    approval_threshold receipt_coverage budget_available proof_expiry invoice_fingerprint contains
    value_from
is_ready_example = refl

builds_example :
    build_proof_of_payable evidences_example ordered_payable (ready "PAY-1" "v1") (pos 1000) none
    ≡ ok built_example
unfolding build_proof_of_payable source_digest is_proof is_hex64 is_account_shape is_proof_amount
    is_utc_seconds
builds_example = refl

abbrev ready_result : KernelResult ℕ
ready_result = ready "PAY-1" "v1"

build_proof_of_payable-Commits_example :
    (ready_result ≡ ready "PAY-1" "v1")
    × Commits evidences_example ordered_payable "v1" built_example
build_proof_of_payable-Commits_example =
    build_proof_of_payable-Commits evidences_example ordered_payable (ready "PAY-1" "v1") (pos 1000)
      none built_example builds_example

evaluated_example :
    build_proof_of_payable evidences_example ordered_payable
      (evaluate_payable whole_numbers ordered_payable policy_context)
      (pos 1000)
      none
    ≡ ok built_example
evaluated_example = rw is_ready_example builds_example

evaluate_payable-build_example :
    IsPayable whole_numbers ordered_payable policy_context
    × (account ≡ account)
    × (built_example.amount ≡ "5000.00")
    × (built_example.policy_version ≡ "v1")
evaluate_payable-build_example =
    evaluate_payable-build whole_numbers evidences_example ordered_payable policy_context (pos 1000)
      none built_example evaluated_example
