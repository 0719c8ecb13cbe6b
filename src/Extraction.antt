-- ===== src/Extraction.antt =====
-- packages/ai-extraction/src/resolveExtraction.ts: what a language model read from an invoice is joined
-- with the system's own records, or sent to review.
pub mod Guardrail
mod Examples
use pakta.Base.{
  String, Bool, true, false, not, ◌||◌, ◌==◌, Option, none, some, List, [], ◌∷◌, find, select,
  if◌then◌else◌, get_or,
}
use Prim.Native.String
use pakta.Base.Int.{ℤ}
use pakta.Canonical.Payable.{
  CanonicalPayable, Vendor, VendorWallet, PurchaseOrder, Receipt, Approval,
}
use pakta.Canonical.Check.{is_payable}

-- What the runtime provides: `toLowerCase`, `number` and `z.coerce.date` on a text. A confidence is
-- never NaN, so that `>=` is the negation of `<`.
pub record Runtime : Type 1 where
  pub Num : Type 0
  pub lower : String → String
  pub below : Num → Num → Bool
  pub show_num : Num → String
  pub default_min_confidence : Num
  pub is_nonnegative : Num → Bool
  pub is_positive : Num → Bool
  pub coerce_date : String → Option ℤ

infixr 65 ◌+++◌
abbrev ◌+++◌ : String → String → String
s +++ t = String.◌++◌ s t

module _ (runtime : Runtime) where
  open runtime use {
    Num, lower, below, show_num, default_min_confidence, is_nonnegative, is_positive, coerce_date,
  }

  -- A value with its confidence; the excerpt it was read from is not used here.
  pub record ExtractedField : Type 0 where
    pub value : String
    pub confidence : Num

  pub record InvoiceExtraction : Type 0 where
    pub vendor_name : ExtractedField
    pub invoice_id : ExtractedField
    pub amount : ExtractedField
    pub due_date : ExtractedField
    pub po_reference : Option ExtractedField
    pub wallet_address : Option ExtractedField

  pub record KnownSources : Type 0 where
    pub vendors : List Vendor
    pub vendor_wallets : List VendorWallet
    pub purchase_orders : List PurchaseOrder
    pub receipts : List (Receipt Num)
    pub approvals : List Approval

  pub data ResolvedExtraction : Type 0 where
    candidate : CanonicalPayable Num → ResolvedExtraction
    needs_review : String → ResolvedExtraction

  -- What the reference to a purchase order comes to.
  pub data OrderChoice : Type 0 where
    chosen : Option PurchaseOrder → OrderChoice
    review : String → OrderChoice

  module _ (extraction : InvoiceExtraction) (sources : KnownSources) (version : String)
      (min_confidence : Num) where
    abbrev pub required_fields : List ExtractedField
    required_fields =
        extraction.vendor_name ∷ extraction.invoice_id ∷ extraction.amount ∷ extraction.due_date
        ∷ []

    abbrev pub is_trusted : ExtractedField → Bool
    is_trusted f = not (below f.confidence min_confidence)

    abbrev pub check_order : Vendor → Option PurchaseOrder → ExtractedField → OrderChoice
    check_order v none f = review ("PO_NOT_FOUND: no PO \"" +++ f.value +++ "\"")
    check_order v (some po) f =
        if po.vendor_id == v.vendor_id
        then chosen (some po)
        else review (
            "VENDOR_PO_MISMATCH: PO \"" +++ po.po_id +++ "\" belongs to vendor \"" +++ po.vendor_id
            +++ "\", not \"" +++ v.vendor_id +++ "\"")

    abbrev pub find_order : ExtractedField → Option PurchaseOrder
    find_order f = find (λ p. lower p.po_id == lower f.value) sources.purchase_orders

    abbrev pub choose_order : Vendor → Option ExtractedField → OrderChoice
    choose_order v none = chosen none
    choose_order v (some f) = if is_trusted f then check_order v (find_order f) f else chosen none

    abbrev pub find_wallet : Vendor → Option VendorWallet
    find_wallet v = find (λ w. w.vendor_id == v.vendor_id) sources.vendor_wallets

    abbrev pub address_of : Option VendorWallet → Option String
    address_of none = none
    address_of (some w) = some w.address

    -- A wallet of low confidence is dropped.
    abbrev pub wallet_address_of : Option ExtractedField → Option VendorWallet → Option String
    wallet_address_of none wallet = address_of wallet
    wallet_address_of (some f) wallet = if is_trusted f then some f.value else address_of wallet

    abbrev pub receipts_of : Option PurchaseOrder → List (Receipt Num)
    receipts_of none = []
    receipts_of (some po) = select (λ r. r.po_id == po.po_id) sources.receipts

    abbrev pub is_of_order : Option PurchaseOrder → Approval → Bool
    is_of_order none a = false
    is_of_order (some po) a = a.object_id == po.po_id

    abbrev pub approvals_of : Option PurchaseOrder → List Approval
    approvals_of po =
        select (λ a. is_of_order po a || a.object_id == extraction.invoice_id.value)
          sources.approvals

    abbrev pub po_id_of : Option PurchaseOrder → Option String
    po_id_of none = none
    po_id_of (some po) = some po.po_id

    abbrev pub payable_of :
        Vendor → Option PurchaseOrder → Option VendorWallet → String → ℤ → CanonicalPayable Num
    payable_of v po wallet address due = record {
      payable_id = "PAY-" +++ extraction.invoice_id.value;
      invoice = record {
        invoice_id = extraction.invoice_id.value;
        po_id = po_id_of po;
        vendor_id = v.vendor_id;
        amount = extraction.amount.value;
        due_date = due;
        wallet_address = address;
        source_hash = "sha256:ai-extracted-" +++ extraction.invoice_id.value;
      };
      purchase_order = po;
      vendor = v;
      vendor_wallet = wallet;
      receipts = receipts_of po;
      approvals = approvals_of po;
      policy_version = version;
      expires_at = none;
    }

    -- `CanonicalPayable.safeParse`
    abbrev pub parse_candidate :
        Vendor → Option PurchaseOrder → Option VendorWallet → String → Option ℤ → ResolvedExtraction
    parse_candidate v po wallet address none = needs_review "CANONICAL_MODEL_INVALID"
    parse_candidate v po wallet address (some due) =
        let p = payable_of v po wallet address due in
        if is_payable is_nonnegative is_positive p
        then candidate p
        else needs_review "CANONICAL_MODEL_INVALID"

    -- An address that is missing or empty goes to review.
    abbrev pub with_address :
        Vendor → Option PurchaseOrder → Option VendorWallet → Option String → ResolvedExtraction
    with_address v po wallet none = needs_review "MISSING_WALLET"
    with_address v po wallet (some address) =
        if address == ""
        then needs_review "MISSING_WALLET"
        else parse_candidate v po wallet address (coerce_date extraction.due_date.value)

    abbrev pub with_order : Vendor → OrderChoice → ResolvedExtraction
    with_order v (review reason) = needs_review reason
    with_order v (chosen po) =
        with_address v po (find_wallet v)
          (wallet_address_of extraction.wallet_address (find_wallet v))

    abbrev pub find_vendor : Option Vendor
    find_vendor =
        find (λ v. lower v.legal_name == lower extraction.vendor_name.value) sources.vendors

    abbrev pub with_vendor : Option Vendor → ResolvedExtraction
    with_vendor none =
        needs_review
          ("VENDOR_NOT_FOUND: no vendor named \"" +++ extraction.vendor_name.value +++ "\"")
    with_vendor (some v) = with_order v (choose_order v extraction.po_reference)

    abbrev pub with_low_field : Option ExtractedField → ResolvedExtraction
    with_low_field (some f) = needs_review (
        "LOW_CONFIDENCE: \""
        +++ f.value
        +++ "\" ("
        +++ show_num f.confidence
        +++ ") is below the "
        +++ show_num min_confidence
        +++ " threshold")
    with_low_field none = with_vendor find_vendor

    unfoldable pub resolve_above : ResolvedExtraction
    resolve_above = with_low_field (find (λ f. below f.confidence min_confidence) required_fields)

  unfoldable pub resolve_extraction :
      InvoiceExtraction → KnownSources → String → Option Num → ResolvedExtraction
  unfolding resolve_above
  resolve_extraction extraction sources version min_confidence =
      resolve_above extraction sources version (get_or default_min_confidence min_confidence)
