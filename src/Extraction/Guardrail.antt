-- ===== src/Extraction/Guardrail.antt =====
-- Where the parts of a candidate come from.
use pakta.Base.{String, true, ◌≡◌, ◌⊎◌, Option, none, some, IsIn, All}
use pakta.Canonical.Payable.{CanonicalPayable, Vendor, VendorWallet, PurchaseOrder}
use pakta.Canonical.Check.{is_payable}
use pakta.Extraction.{
  Runtime, ExtractedField, InvoiceExtraction, KnownSources, required_fields, is_trusted,
}

module _ (runtime : Runtime) (extraction : InvoiceExtraction runtime)
    (sources : KnownSources runtime) (version : String) (min_confidence : runtime.Num) where
  open runtime use {Num, lower, is_nonnegative, is_positive, coerce_date}

  -- A purchase order of the records, for that vendor.
  abbrev pub IsOrder : Vendor → Option PurchaseOrder → Type 0
  IsOrder v none = Unit
  IsOrder v (some po) = IsIn po sources.purchase_orders × (po.vendor_id ≡ v.vendor_id)

  -- A wallet of the records, for that vendor.
  abbrev pub IsWallet : Vendor → Option VendorWallet → Type 0
  IsWallet v none = Unit
  IsWallet v (some w) = IsIn w sources.vendor_wallets × (w.vendor_id ≡ v.vendor_id)

  -- The id is that of the purchase order.
  abbrev pub IsOfOrder : String → Option PurchaseOrder → Type 0
  IsOfOrder id po = (o : PurchaseOrder) × (po ≡ some o) × (id ≡ o.po_id)

  abbrev pub ids_of : Option PurchaseOrder → Option String
  ids_of none = none
  ids_of (some po) = some po.po_id

  abbrev pub Trusted : ExtractedField runtime → Type 0
  Trusted f = is_trusted runtime extraction sources version min_confidence f ≡ true

  -- The address is one that was read with enough confidence, or the wallet's own.
  abbrev pub IsAddress : Option VendorWallet → String → Type 0
  IsAddress wallet address =
      ((f : ExtractedField runtime) × (extraction.wallet_address ≡ some f)
        × Trusted f
        × (address ≡ f.value))
      ⊎ ((w : VendorWallet) × (wallet ≡ some w) × (address ≡ w.address))

  pub record IsGrounded (p : CanonicalPayable Num) : Type 0 where
    pub trusted : All Trusted (required_fields runtime extraction sources version min_confidence)
    pub vendor : IsIn p.vendor sources.vendors
    pub named : lower p.vendor.legal_name ≡ lower extraction.vendor_name.value
    pub order : IsOrder p.vendor p.purchase_order
    pub wallet : IsWallet p.vendor p.vendor_wallet
    pub address : IsAddress p.vendor_wallet p.invoice.wallet_address
    pub amount : p.invoice.amount ≡ extraction.amount.value
    pub invoice_vendor : p.invoice.vendor_id ≡ p.vendor.vendor_id
    pub invoice_order : p.invoice.po_id ≡ ids_of p.purchase_order
    pub invoice_id : p.invoice.invoice_id ≡ extraction.invoice_id.value
    pub receipts :
        All (λ r. IsIn r sources.receipts × IsOfOrder r.po_id p.purchase_order) p.receipts
    pub approvals :
        All
          (λ a.
            IsIn a sources.approvals
            × (IsOfOrder a.object_id p.purchase_order ⊎ (a.object_id ≡ p.invoice.invoice_id)))
          p.approvals
    pub valid : is_payable is_nonnegative is_positive p ≡ true
