-- ===== src/Kernel/Metadata.antt =====
-- packages/rules-kernel/src/reasonCodeMetadata.ts: owner, action and severity of each reason code.
use pakta.Base.{String, Bool, true, false}
use pakta.Canonical.Payable.{
  ExceptionReasonCode, duplicate_invoice, po_amount_mismatch, missing_receipt, partial_receipt,
  vendor_wallet_changed, unattested_wallet, budget_exceeded, approval_missing, proof_expired,
  payment_already_settled, erp_posting_failed, OwnerRole, ap, procurement, operations,
  vendor_master, budget_owner, controller, accounting, ExceptionSeverity, medium, high, critical,
}

pub record ReasonMetadata : Type 0 where
  pub owner_role : OwnerRole
  pub required_action : String
  pub severity : ExceptionSeverity
  pub auto_revalidate : Bool

abbrev row : OwnerRole → String → ExceptionSeverity → Bool → ReasonMetadata
row owner action severity auto = record {
  owner_role = owner;
  required_action = action;
  severity = severity;
  auto_revalidate = auto;
}

unfoldable pub metadata : ExceptionReasonCode → ReasonMetadata
metadata duplicate_invoice = row ap "REJECT_OR_REVIEW" critical true
metadata po_amount_mismatch = row procurement "AMEND_PO_OR_CREDIT_NOTE" high true
metadata missing_receipt = row operations "CONFIRM_RECEIPT" medium true
metadata partial_receipt = row operations "PARTIAL_PAYMENT_OR_WAIT" medium true
metadata vendor_wallet_changed = row vendor_master "REVERIFY_VENDOR_WALLET" critical true
metadata unattested_wallet = row vendor_master "ATTEST_WALLET" critical true
metadata budget_exceeded = row budget_owner "REQUEST_BUDGET_APPROVAL" high true
metadata approval_missing = row controller "APPROVE_OR_REJECT" medium true
metadata proof_expired = row ap "REVALIDATE_PROOF" medium true
metadata payment_already_settled = row ap "BLOCK_PAYMENT" critical false
metadata erp_posting_failed = row accounting "RECONCILE_MANUALLY_OR_RETRY" high false
