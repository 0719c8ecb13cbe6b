-- ===== src/Canonical/Payable.antt =====
-- packages/canonical-model/src/schemas.ts, policy.ts and exception.ts: the payable, the policy that
-- it is held against, and the exception that blocks it.
-- A `Date` is the integer of its milliseconds. `Num` is the type of a `number` that need not be
-- whole; a whole positive one is a natural number. Money is text.
use pakta.Base.{ℕ, String, Bool, Option, List}
use pakta.Base.Int.{ℤ}

pub data OwnerRole : Type 0 where
  ap procurement operations vendor_master budget_owner controller accounting : OwnerRole

pub data VendorVerificationStatus : Type 0 where
  unverified verified suspended : VendorVerificationStatus

pub record Vendor : Type 0 where
  pub vendor_id : String
  pub legal_name : String
  pub verification_status : VendorVerificationStatus

pub data WalletAttestationStatus : Type 0 where
  attested unattested : WalletAttestationStatus

pub record VendorWallet : Type 0 where
  pub vendor_id : String
  pub address : String
  pub attestation_status : WalletAttestationStatus
  pub version : ℕ
  pub created_at : ℤ

pub data PurchaseOrderStatus : Type 0 where
  open_order closed_order cancelled : PurchaseOrderStatus

pub record PurchaseOrder : Type 0 where
  pub po_id : String
  pub vendor_id : String
  pub amount : String
  pub status : PurchaseOrderStatus
  pub approver_id : Option String

pub record Invoice : Type 0 where
  pub invoice_id : String
  pub po_id : Option String
  pub vendor_id : String
  pub amount : String
  pub due_date : ℤ
  pub wallet_address : String
  pub source_hash : String

pub record Receipt (Num : Type 0) : Type 0 where
  pub po_id : String
  pub confirmed_qty : Num
  pub invoiced_qty : Option Num
  pub confirmed_by : String
  pub confirmed_at : ℤ

pub data ApprovalObjectType : Type 0 where
  po invoice payable : ApprovalObjectType

pub record Approval : Type 0 where
  pub object_type : ApprovalObjectType
  pub object_id : String
  pub policy_version : String
  pub approver_id : String
  pub timestamp : ℤ

pub record CanonicalPayable (Num : Type 0) : Type 0 where
  pub payable_id : String
  pub invoice : Invoice
  pub purchase_order : Option PurchaseOrder
  pub vendor : Vendor
  pub vendor_wallet : Option VendorWallet
  pub receipts : List (Receipt Num)
  pub approvals : List Approval
  pub policy_version : String
  pub expires_at : Option ℤ

pub record PolicyRules (Num : Type 0) : Type 0 where
  pub require_po : Bool
  pub require_receipt : Bool
  pub amount_tolerance_pct : Num
  pub duplicate_detection : Bool
  pub wallet_change_requires_human : Bool
  pub auto_pay_below : String
  pub second_approval_above : String

pub record Policy (Num : Type 0) : Type 0 where
  pub policy_version : String
  pub rules : PolicyRules Num

pub data ExceptionReasonCode : Type 0 where
  duplicate_invoice po_amount_mismatch missing_receipt partial_receipt vendor_wallet_changed :
      ExceptionReasonCode
  unattested_wallet budget_exceeded approval_missing proof_expired : ExceptionReasonCode
  payment_already_settled erp_posting_failed : ExceptionReasonCode

pub data ExceptionSeverity : Type 0 where
  low medium high critical : ExceptionSeverity

-- A value of an exception's evidence.
pub data Evidence (Num : Type 0) : Type 0 where
  text : String → Evidence Num
  count : ℕ → Evidence Num
  quantity : Num → Evidence Num
  missing : Evidence Num

-- `status` is always "BLOCKED", so it is left out.
pub record Exception (Num : Type 0) : Type 0 where
  pub payable_id : String
  pub reason : ExceptionReasonCode
  pub message : String
  pub severity : ExceptionSeverity
  pub owner_role : OwnerRole
  pub required_action : String
  pub evidence : List (String × Evidence Num)
  pub auto_revalidate : Bool
  pub policy_version : String
