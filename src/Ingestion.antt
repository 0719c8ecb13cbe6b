-- ===== src/Ingestion.antt =====
-- packages/ingestion/src/ingestWorkbook.ts: the rows of a workbook are joined into payables, or
-- rejected one by one.
pub mod Counts
pub mod Joined
mod Examples
use pakta.Base.{
  ℕ, suc, ◌+◌, String, Bool, true, false, ◌==◌, Option, none, some, List, [], ◌∷◌, ◌++◌, map,
  length, select, if◌then◌else◌, get_or,
}
use Prim.Native.String
use pakta.Base.Int.{ℤ}
use pakta.Base.Map.{lookup, insert}
use pakta.Canonical.Payable.{
  CanonicalPayable, Vendor, VendorVerificationStatus, VendorWallet, WalletAttestationStatus,
  PurchaseOrder, PurchaseOrderStatus, Receipt, Approval, ApprovalObjectType, Policy,
}
use pakta.Canonical.Check.{is_payable}
use pakta.Workbook.{
  Sheet, vendors_sheet, po_sheet, invoices_sheet, receipts_sheet, approvals_sheet, VendorRow, PoRow,
  InvoiceRow, ReceiptRow, ApprovalRow, RawRow, RejectedRow, Parsed, success, issues, Reader,
  keep_row, parse_rows, index_from, group_from,
}

infixr 65 ◌+++◌
abbrev ◌+++◌ : String → String → String
s +++ t = String.◌++◌ s t

module _ (reader : Reader) where
  open reader use {
    Num, Raw, is_nonnegative, is_positive, parse_vendor, parse_po, parse_invoice, parse_receipt,
    parse_approval,
  }

  pub record Workbook : Type 0 where
    pub vendor_rows : List (RawRow Raw)
    pub po_rows : List (RawRow Raw)
    pub invoice_rows : List (RawRow Raw)
    pub receipt_rows : List (RawRow Raw)
    pub approval_rows : List (RawRow Raw)

  -- The maps that the loop over the invoices reads.
  pub record Joins : Type 0 where
    pub vendors_by_id : List (String × VendorRow)
    pub pos_by_id : List (String × PoRow)
    pub receipts_by_po_id : List (String × List (ReceiptRow Num))
    pub approvals_by_object_id : List (String × List ApprovalRow)

  pub record IngestionResult : Type 0 where
    pub payables : List (CanonicalPayable Num)
    pub rejected_rows : List (RejectedRow Raw)
    pub total_invoice_rows : ℕ
    pub ingested : ℕ
    pub rejected : ℕ

  -- What a row of the invoices comes to: a payable, or the error it is rejected for.
  pub data RowResult : Type 0 where
    payable : CanonicalPayable Num → RowResult
    refused : String → RowResult

  abbrev pub purchase_order_of : PoRow → PurchaseOrder
  purchase_order_of po = record {
    po_id = po.po_id;
    vendor_id = po.vendor_id;
    amount = po.amount;
    status = po.status;
    approver_id = po.approver_id;
  }

  abbrev pub vendor_of : VendorRow → Vendor
  vendor_of v = record {
    vendor_id = v.vendor_id;
    legal_name = v.legal_name;
    verification_status = v.verification_status;
  }

  -- The coercion of each date, all of which must succeed.
  abbrev pub wallet_of : VendorRow → ℤ → VendorWallet
  wallet_of v at = record {
    vendor_id = v.vendor_id;
    address = v.wallet_address;
    attestation_status = v.wallet_attestation_status;
    version = v.wallet_version;
    created_at = at;
  }

  abbrev receipt_at : ReceiptRow Num → Option ℤ → Option (Receipt Num)
  receipt_at r none = none
  receipt_at r (some at) = some (record {
    po_id = r.po_id;
    confirmed_qty = r.confirmed_qty;
    invoiced_qty = r.invoiced_qty;
    confirmed_by = r.confirmed_by;
    confirmed_at = at;
  })

  abbrev approval_at : ApprovalRow → Option ℤ → Option Approval
  approval_at a none = none
  approval_at a (some at) = some (record {
    object_type = a.object_type;
    object_id = a.object_id;
    policy_version = a.policy_version;
    approver_id = a.approver_id;
    timestamp = at;
  })

  abbrev pub cons_if : {X : Type 0} → Option X → Option (List X) → Option (List X)
  cons_if none xs = none
  cons_if (some x) none = none
  cons_if (some x) (some xs) = some (x ∷ xs)

  abbrev pub coerce_receipts : List (ReceiptRow Num) → Option (List (Receipt Num))
  coerce_receipts [] = some []
  coerce_receipts (r ∷ rs) = cons_if (receipt_at r r.confirmed_at) (coerce_receipts rs)

  abbrev pub coerce_approvals : List ApprovalRow → Option (List Approval)
  coerce_approvals [] = some []
  coerce_approvals (a ∷ rest) = cons_if (approval_at a a.timestamp) (coerce_approvals rest)

  module _ (policy : Policy Num) (joins : Joins) where
    abbrev pub payable_of :
        InvoiceRow
        → VendorRow
        → Option PurchaseOrder
        → ℤ
        → ℤ
        → List (Receipt Num)
        → List Approval
        → CanonicalPayable Num
    payable_of i v po due at receipts approvals = record {
      payable_id = "PAY-" +++ i.invoice_id;
      invoice = record {
        invoice_id = i.invoice_id;
        po_id = i.po_id;
        vendor_id = i.vendor_id;
        amount = i.amount;
        due_date = due;
        wallet_address = i.wallet_address;
        source_hash = i.source_hash;
      };
      purchase_order = po;
      vendor = vendor_of v;
      vendor_wallet = some (wallet_of v at);
      receipts = receipts;
      approvals = approvals;
      policy_version = policy.policy_version;
      expires_at = none;
    }

    -- `CanonicalPayable.safeParse`: the dates are coerced, and the values checked.
    abbrev pub parse_candidate :
        InvoiceRow
        → VendorRow
        → Option PurchaseOrder
        → Option ℤ
        → Option ℤ
        → Option (List (Receipt Num))
        → Option (List Approval)
        → RowResult
    parse_candidate i v po (some due) (some at) (some receipts) (some approvals) =
        let p = payable_of i v po due at receipts approvals in
        if is_payable is_nonnegative is_positive p
        then payable p
        else refused "CANONICAL_MODEL_INVALID"
    parse_candidate i v po _ _ _ _ = refused "CANONICAL_MODEL_INVALID"

    abbrev pub receipts_of : Option PoRow → List (ReceiptRow Num)
    receipts_of none = []
    receipts_of (some po) = get_or [] (lookup po.po_id joins.receipts_by_po_id)

    abbrev order_approvals : Option PoRow → List ApprovalRow
    order_approvals none = []
    order_approvals (some po) = get_or [] (lookup po.po_id joins.approvals_by_object_id)

    abbrev pub approvals_of : InvoiceRow → Option PoRow → List ApprovalRow
    approvals_of i po =
        order_approvals po ++ get_or [] (lookup i.invoice_id joins.approvals_by_object_id)

    abbrev pub order_if : Option PoRow → Option PurchaseOrder
    order_if none = none
    order_if (some po) = some (purchase_order_of po)

    abbrev pub with_order : InvoiceRow → VendorRow → Option PoRow → RowResult
    with_order i v po =
        parse_candidate i v (order_if po) i.due_date v.wallet_created_at
          (coerce_receipts (receipts_of po)) (coerce_approvals (approvals_of i po))

    abbrev pub check_order : InvoiceRow → VendorRow → Option PoRow → RowResult
    check_order i v none = refused "PO_NOT_FOUND"
    check_order i v (some po) =
        if po.vendor_id == i.vendor_id
        then with_order i v (some po)
        else refused "VENDOR_PO_MISMATCH"

    -- Without a purchase order's id, or with an empty one.
    abbrev pub without_order : InvoiceRow → VendorRow → RowResult
    without_order i v =
        if policy.rules.require_po then refused "PO_NOT_FOUND" else with_order i v none

    abbrev pub with_vendor : InvoiceRow → Option String → Option VendorRow → RowResult
    with_vendor i po_id none = refused "VENDOR_NOT_FOUND"
    with_vendor i none (some v) = without_order i v
    with_vendor i (some po_id) (some v) =
        if po_id == "" then without_order i v else check_order i v (lookup po_id joins.pos_by_id)

    -- One round of the loop over the invoices, once the row has been parsed.
    unfoldable pub join : InvoiceRow → RowResult
    join i = with_vendor i i.po_id (lookup i.vendor_id joins.vendors_by_id)

    abbrev pub keep_joined :
        RawRow Raw
        → RowResult
        → List (CanonicalPayable Num) × List (RejectedRow Raw)
        → List (CanonicalPayable Num) × List (RejectedRow Raw)
    keep_joined row (payable p) (payables, rejected) = (p ∷ payables, rejected)
    keep_joined row (refused error) (payables, rejected) = (
      payables,
      record {
        sheet = invoices_sheet;
        row_number = row.row_number;
        errors = error ∷ [];
        raw_row = row.raw;
      }
          ∷ rejected,
    )

    -- A row that does not parse is passed over: it is among the rejected ones already.
    abbrev pub join_row :
        RawRow Raw
        → Parsed InvoiceRow
        → List (CanonicalPayable Num) × List (RejectedRow Raw)
        → List (CanonicalPayable Num) × List (RejectedRow Raw)
    join_row row (issues errors) rest = rest
    join_row row (success i) rest = keep_joined row (join i) rest

    unfoldable pub join_rows :
        List (RawRow Raw) → List (CanonicalPayable Num) × List (RejectedRow Raw)
    join_rows [] = ([], [])
    join_rows (row ∷ rows) = join_row row (parse_invoice row.raw) (join_rows rows)

  abbrev pub joins_of : Workbook → Joins
  joins_of book = record {
    vendors_by_id =
        index_from (λ v. v.vendor_id) [] (parse_rows vendors_sheet parse_vendor book.vendor_rows).0;
    pos_by_id = index_from (λ p. p.po_id) [] (parse_rows po_sheet parse_po book.po_rows).0;
    receipts_by_po_id =
        group_from (λ r. r.po_id) [] (parse_rows receipts_sheet parse_receipt book.receipt_rows).0;
    approvals_by_object_id =
        group_from (λ a. a.object_id) []
          (parse_rows approvals_sheet parse_approval book.approval_rows).0;
  }

  abbrev pub is_invoice_sheet : Sheet → Bool
  is_invoice_sheet invoices_sheet = true
  is_invoice_sheet _ = false

  -- `ingestLoadedWorkbook`
  unfoldable pub ingest_loaded_workbook : Workbook → Policy Num → IngestionResult
  ingest_loaded_workbook book policy =
      let (payables, joined_rejects) = join_rows policy (joins_of book) book.invoice_rows in
      let rejects =
        (parse_rows vendors_sheet parse_vendor book.vendor_rows).1
        ++ (parse_rows po_sheet parse_po book.po_rows).1
        ++ (parse_rows invoices_sheet parse_invoice book.invoice_rows).1
        ++ (parse_rows receipts_sheet parse_receipt book.receipt_rows).1
        ++ (parse_rows approvals_sheet parse_approval book.approval_rows).1
        ++ joined_rejects in
      record {
        payables = payables;
        rejected_rows = rejects;
        total_invoice_rows = length book.invoice_rows;
        ingested = length payables;
        rejected = length (select (λ r. is_invoice_sheet r.sheet) rejects);
      }
