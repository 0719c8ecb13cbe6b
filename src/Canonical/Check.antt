-- ===== src/Canonical/Check.antt =====
-- packages/canonical-model/src/schemas.ts: what `CanonicalPayable.safeParse` asks of the values.
use pakta.Base.{Bool, true, ◌&&◌, String, ltb, Option, none, some, all}
use pakta.Base.Pattern.{is_decimal_string}
use pakta.Canonical.Payable.{
  CanonicalPayable, Invoice, PurchaseOrder, Vendor, VendorWallet, Receipt, Approval,
}
use pakta.Canonical.Proof.{is_present}

abbrev is_present_if : Option String → Bool
is_present_if none = true
is_present_if (some s) = is_present s

abbrev pub is_vendor : Vendor → Bool
is_vendor v = is_present v.vendor_id && is_present v.legal_name

abbrev pub is_vendor_wallet : Option VendorWallet → Bool
is_vendor_wallet none = true
is_vendor_wallet (some w) = is_present w.vendor_id && is_present w.address && ltb 0 w.version

abbrev pub is_purchase_order : Option PurchaseOrder → Bool
is_purchase_order none = true
is_purchase_order (some po) =
    is_present po.po_id
    && is_present po.vendor_id
    && is_decimal_string po.amount
    && is_present_if po.approver_id

abbrev pub is_invoice : Invoice → Bool
is_invoice i =
    is_present i.invoice_id
    && is_present_if i.po_id
    && is_present i.vendor_id
    && is_decimal_string i.amount
    && is_present i.wallet_address
    && is_present i.source_hash

abbrev pub is_approval : Approval → Bool
is_approval a = is_present a.object_id && is_present a.policy_version && is_present a.approver_id

-- The tests on a `number` are `nonnegative()` and `positive()`.
module _ {Num : Type 0} (is_nonnegative : Num → Bool) (is_positive : Num → Bool) where
  abbrev is_positive_if : Option Num → Bool
  is_positive_if none = true
  is_positive_if (some q) = is_positive q

  abbrev pub is_receipt : Receipt Num → Bool
  is_receipt r =
      is_present r.po_id
      && is_nonnegative r.confirmed_qty
      && is_positive_if r.invoiced_qty
      && is_present r.confirmed_by

  unfoldable pub is_payable : CanonicalPayable Num → Bool
  is_payable p =
      is_present p.payable_id
      && is_invoice p.invoice
      && is_purchase_order p.purchase_order
      && is_vendor p.vendor
      && is_vendor_wallet p.vendor_wallet
      && all is_receipt p.receipts
      && all is_approval p.approvals
      && is_present p.policy_version
