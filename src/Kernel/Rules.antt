-- ===== src/Kernel/Rules.antt =====
-- packages/rules-kernel/src/types.ts and src/rules: the seven rules.
-- decimal.js, the arithmetic of `number` and the texts that the runtime prints are parameters.
use pakta.Base.{
  ℕ, String, Bool, true, false, not, ◌||◌, ◌==◌, Option, none, some, List, [], ◌∷◌, ltb,
  if◌then◌else◌, length, select, is_some,
}
use Prim.Native.String
use pakta.Base.Int.{ℤ, ltb_ℤ}
use pakta.Base.Show.{show}
use pakta.Canonical.Payable.{
  CanonicalPayable, VendorVerificationStatus, verified, VendorWallet, WalletAttestationStatus,
  attested, PurchaseOrder, Receipt, Policy, ExceptionReasonCode, duplicate_invoice,
  po_amount_mismatch, missing_receipt, partial_receipt, vendor_wallet_changed, unattested_wallet,
  approval_missing, proof_expired, payment_already_settled, Evidence, text, count, quantity,
  missing,
}

-- What the runtime and decimal.js provide.
pub record Numerics : Type 1 where
  -- A `number`.
  pub Num : Type 0
  pub zero_num : Num
  pub add_num : Num → Num → Num
  -- `a >= b`
  pub ge_num : Num → Num → Bool
  pub show_num : Num → String
  -- A `Decimal`.
  pub Decimal : Type 0
  pub decimal : String → Decimal
  pub mul : Decimal → Num → Decimal
  pub div_hundred : Decimal → Decimal
  pub plus : Decimal → Decimal → Decimal
  pub lte : Decimal → Decimal → Bool
  pub gt : Decimal → Decimal → Bool
  pub to_fixed : Decimal → String
  -- `toISOString` of a date's milliseconds.
  pub iso : ℤ → String

-- A `Set` of texts, by its elements.
unfoldable pub contains : String → List String → Bool
contains x [] = false
contains x (y ∷ ys) = y == x || contains x ys

pub record RuleContext (Num : Type 0) : Type 0 where
  pub policy : Policy Num
  pub now : ℤ
  pub known_invoice_fingerprints : List String
  pub settled_invoice_fingerprints : List String
  pub budgets_by_cost_center : Option (List (String × String))

pub data RuleResult (Num : Type 0) : Type 0 where
  pass : RuleResult Num
  fail : ExceptionReasonCode → String → List (String × Evidence Num) → RuleResult Num

infixr 65 ◌+++◌
abbrev pub ◌+++◌ : String → String → String
s +++ t = String.◌++◌ s t

abbrev pub is_verified : VendorVerificationStatus → Bool
is_verified verified = true
is_verified _ = false

abbrev pub is_attested : WalletAttestationStatus → Bool
is_attested attested = true
is_attested _ = false

-- `vendorId|amount`
unfoldable pub invoice_fingerprint : {Num : Type 0} → CanonicalPayable Num → String
invoice_fingerprint p = p.invoice.vendor_id +++ "|" +++ p.invoice.amount

module _ (numerics : Numerics) where
  open numerics use {
    Num, zero_num, add_num, ge_num, show_num, Decimal, decimal, mul, div_hundred, plus, lte, gt,
    to_fixed, iso,
  }

  abbrev pub Rule : Type 0
  Rule = CanonicalPayable Num → RuleContext Num → RuleResult Num

  unfoldable pub duplicate_check : Rule
  duplicate_check p c =
      let fingerprint = invoice_fingerprint p in
      if not c.policy.rules.duplicate_detection
      then pass
      else if contains fingerprint c.settled_invoice_fingerprints
      then fail payment_already_settled
          "An invoice matching this vendor and amount was already settled."
          (("fingerprint", text fingerprint) ∷ [])
      else if contains fingerprint c.known_invoice_fingerprints
      then fail duplicate_invoice "An invoice matching this vendor and amount was already recorded."
          (("fingerprint", text fingerprint) ∷ [])
      else pass

  -- The wallet's address against the one that the invoice asks for.
  abbrev pub compare_wallets : CanonicalPayable Num → VendorWallet → RuleResult Num
  compare_wallets p w =
      if w.address == p.invoice.wallet_address
      then pass
      else fail vendor_wallet_changed
          ("Invoice requests payment to " +++ p.invoice.wallet_address
            +++ ", which differs from the attested wallet " +++ w.address +++ ".")
          (("attestedWallet", text w.address)
            ∷ ("requestedWallet", text p.invoice.wallet_address)
            ∷ ("attestationVersion", count w.version)
            ∷ [])

  abbrev pub no_wallet : CanonicalPayable Num → RuleResult Num
  no_wallet p =
      fail unattested_wallet
        ("Vendor " +++ p.vendor.legal_name +++ " has no attested wallet on file.")
        (("vendorId", text p.vendor.vendor_id) ∷ [])

  abbrev pub check_wallet : CanonicalPayable Num → Option VendorWallet → RuleResult Num
  check_wallet p none = no_wallet p
  check_wallet p (some w) =
      if not (is_attested w.attestation_status) || not (is_verified p.vendor.verification_status)
      then no_wallet p
      else compare_wallets p w

  unfoldable pub wallet_attestation : Rule
  wallet_attestation p c = check_wallet p p.vendor_wallet

  -- The purchase order's amount and its tolerance.
  abbrev pub ceiling_of : RuleContext Num → PurchaseOrder → Decimal
  ceiling_of c po =
      plus (decimal po.amount)
        (div_hundred (mul (decimal po.amount) c.policy.rules.amount_tolerance_pct))

  abbrev pub check_amount :
      CanonicalPayable Num → RuleContext Num → Option PurchaseOrder → RuleResult Num
  check_amount p c none = pass
  check_amount p c (some po) =
      if lte (decimal p.invoice.amount) (ceiling_of c po)
      then pass
      else fail po_amount_mismatch
          ("Invoice amount "
            +++ p.invoice.amount
            +++ " exceeds PO "
            +++ po.po_id
            +++ " ("
            +++ po.amount
            +++ ") plus "
            +++ show_num c.policy.rules.amount_tolerance_pct
            +++ "% tolerance (ceiling "
            +++ to_fixed (ceiling_of c po)
            +++ ").")
          (("poId", text po.po_id)
            ∷ ("poAmount", text po.amount)
            ∷ ("invoiceAmount", text p.invoice.amount)
            ∷ ("toleranceCeiling", text (to_fixed (ceiling_of c po)))
            ∷ [])

  unfoldable pub vendor_amount_match : Rule
  vendor_amount_match p c = check_amount p c p.purchase_order

  abbrev pub required_approvals : CanonicalPayable Num → RuleContext Num → ℕ
  required_approvals p c =
      if gt (decimal p.invoice.amount) (decimal c.policy.rules.second_approval_above) then 2 else 1

  unfoldable pub approval_threshold : Rule
  unfolding show
  approval_threshold p c =
      let required = required_approvals p c in
      if ltb (length p.approvals) required
      then fail approval_missing
          ("Requires "
            +++ show required
            +++ " approval(s) at this amount; only "
            +++ show (length p.approvals)
            +++ " on file.")
          (("requiredApprovals", count required)
            ∷ ("approvalsOnFile", count (length p.approvals))
            ∷ [])
      else pass

  abbrev pub tracked : List (Receipt Num) → List (Receipt Num)
  tracked = select (λ r. is_some r.invoiced_qty)

  abbrev pub qty_or_zero : Option Num → Num
  qty_or_zero none = zero_num
  qty_or_zero (some q) = q

  -- The sums of the source's `reduce`, from the left.
  abbrev pub confirmed_from : Num → List (Receipt Num) → Num
  confirmed_from sum [] = sum
  confirmed_from sum (r ∷ rs) = confirmed_from (add_num sum r.confirmed_qty) rs

  abbrev pub invoiced_from : Num → List (Receipt Num) → Num
  invoiced_from sum [] = sum
  invoiced_from sum (r ∷ rs) = invoiced_from (add_num sum (qty_or_zero r.invoiced_qty)) rs

  abbrev pub po_id_text : Option PurchaseOrder → String
  po_id_text none = "(none)"
  po_id_text (some po) = po.po_id

  abbrev pub po_id_evidence : Option PurchaseOrder → Evidence Num
  po_id_evidence none = missing
  po_id_evidence (some po) = text po.po_id

  abbrev pub cover : List (Receipt Num) → RuleResult Num
  cover [] = pass
  cover (r ∷ rs) =
      let confirmed = confirmed_from zero_num (r ∷ rs) in
      let invoiced = invoiced_from zero_num (r ∷ rs) in
      if ge_num confirmed invoiced
      then pass
      else fail partial_receipt
          ("Confirmed receipt quantity ("
            +++ show_num confirmed
            +++ ") is less than invoiced quantity ("
            +++ show_num invoiced
            +++ ").")
          (("totalConfirmed", quantity confirmed) ∷ ("totalInvoiced", quantity invoiced) ∷ [])

  abbrev pub check_receipts :
      CanonicalPayable Num → RuleContext Num → List (Receipt Num) → RuleResult Num
  check_receipts p c [] =
      if not c.policy.rules.require_receipt
      then pass
      else fail missing_receipt
          ("No receipt on file for PO "
            +++ po_id_text p.purchase_order
            +++ "; delivery not confirmed.")
          (("poId", po_id_evidence p.purchase_order) ∷ [])
  check_receipts p c (r ∷ rs) = cover (tracked (r ∷ rs))

  unfoldable pub receipt_coverage : Rule
  receipt_coverage p c = check_receipts p c p.receipts

  -- No budget source feeds the rule yet: both of its branches pass.
  unfoldable pub budget_available : Rule
  budget_available p c = elim c.budgets_by_cost_center [ none ↦ pass | some budgets ↦ pass ]

  abbrev pub check_expiry : RuleContext Num → Option ℤ → RuleResult Num
  check_expiry c none = pass
  check_expiry c (some expires_at) =
      if ltb_ℤ c.now expires_at
      then pass
      else fail proof_expired ("Payable expired at " +++ iso expires_at +++ ".")
          (("expiresAt", text (iso expires_at)) ∷ ("now", text (iso c.now)) ∷ [])

  unfoldable pub proof_expiry : Rule
  proof_expiry p c = check_expiry c p.expires_at
