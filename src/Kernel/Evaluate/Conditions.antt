-- ===== src/Kernel/Evaluate/Conditions.antt =====
-- What a payable must satisfy, without the rules of packages/rules-kernel/src/rules.
use pakta.Base.{
  String, ◌≤◌, true, false, ◌≡◌, refl, ◌↔◌, ◌⊎◌, inl, inr, Option, none, some, List, [], ◌∷◌, All,
  eq_iff, Bool-cases, length, absurd, ◌≢◌, ◌==◌,
}
use pakta.Base.Int.{ℤ, ltb_ℤ}
use pakta.Canonical.Payable.{
  CanonicalPayable, VendorWallet, verified, attested, PurchaseOrder, Receipt,
}
use pakta.Kernel.Rules.{Numerics, ◌+++◌, RuleContext, contains, invoice_fingerprint}

module _ (numerics : Numerics) where
  open numerics use {Num, zero_num, add_num, ge_num, decimal, mul, div_hundred, plus, lte, gt}

  -- The purchase order's amount, and the policy's percentage of it, cover the invoice's amount.
  abbrev pub IsWithin : CanonicalPayable Num → RuleContext Num → Option PurchaseOrder → Type 0
  IsWithin p c none = Unit
  IsWithin p c (some po) =
      lte (decimal p.invoice.amount) (
        plus (decimal po.amount)
          (div_hundred (mul (decimal po.amount) c.policy.rules.amount_tolerance_pct)))
      ≡ true

  -- The attested wallet of a verified vendor is the one that the invoice asks to be paid at.
  pub record IsAttested (p : CanonicalPayable Num) : Type 0 where
    pub wallet : VendorWallet
    pub on_file : p.vendor_wallet ≡ some wallet
    pub attested_wallet : wallet.attestation_status ≡ attested
    pub verified_vendor : p.vendor.verification_status ≡ verified
    pub same_address : wallet.address ≡ p.invoice.wallet_address

  -- The quantities confirmed and invoiced, in one pass over the receipts that tell what was invoiced.
  abbrev pub totals : Num → Num → List (Receipt Num) → Num × Num
  totals confirmed invoiced [] = (confirmed, invoiced)
  totals confirmed invoiced (r ∷ rs) = elim r.invoiced_qty [
    | none ↦ totals confirmed invoiced rs
    | some q ↦ totals (add_num confirmed r.confirmed_qty) (add_num invoiced q) rs
  ]

  abbrev pub IsUntracked : Receipt Num → Type 0
  IsUntracked r = r.invoiced_qty ≡ none

  -- Without receipts none is required; with some, none tells what was invoiced, or what was confirmed
  -- is no less than what was invoiced.
  abbrev pub IsCovered : RuleContext Num → List (Receipt Num) → Type 0
  IsCovered c [] = c.policy.rules.require_receipt ≡ false
  IsCovered c (r ∷ rs) =
      All IsUntracked (r ∷ rs)
      ⊎ (let (confirmed, invoiced) = totals zero_num zero_num (r ∷ rs) in
          ge_num confirmed invoiced ≡ true)

  abbrev pub IsCurrent : RuleContext Num → Option ℤ → Type 0
  IsCurrent c none = Unit
  IsCurrent c (some expires_at) = ltb_ℤ c.now expires_at ≡ true

  -- None of the fingerprints is the invoice's vendor and amount.
  abbrev pub IsNew : CanonicalPayable Num → List String → Type 0
  IsNew p fingerprints =
      All (λ f. f ≢ p.invoice.vendor_id +++ "|" +++ p.invoice.amount) fingerprints

  pub contains-IsNew :
      (p : CanonicalPayable Num) (fingerprints : List String)
      → (contains (invoice_fingerprint p) fingerprints ≡ false) ↔ IsNew p fingerprints
  unfolding contains invoice_fingerprint
  contains-IsNew p [] = (λ h. tt, λ h. refl)
  contains-IsNew p (f ∷ fs) =
      let later = contains-IsNew p fs in
      let same = eq_iff f (p.invoice.vendor_id +++ "|" +++ p.invoice.amount) in
      elim (Bool-cases (f == p.invoice.vendor_id +++ "|" +++ p.invoice.amount)) [
        | inl here ↦ (λ h. cc (h, here), λ h. absurd (h.0 (same.0 here)))
        | inr apart ↦
            (λ h. (λ e. cc (same.1 e, apart), later.0 (cc (h, apart))), λ h. rw apart (later.1 h.1))
      ]

  pub record IsPayable (p : CanonicalPayable Num) (c : RuleContext Num) : Type 0 where
    pub not_settled :
        (c.policy.rules.duplicate_detection ≡ false) ⊎ IsNew p c.settled_invoice_fingerprints
    pub not_known :
        (c.policy.rules.duplicate_detection ≡ false) ⊎ IsNew p c.known_invoice_fingerprints
    pub attested : IsAttested p
    pub within : IsWithin p c p.purchase_order
    pub one_approval : 1 ≤ length p.approvals
    pub second_approval :
        gt (decimal p.invoice.amount) (decimal c.policy.rules.second_approval_above) ≡ true
        → 2 ≤ length p.approvals
    pub covered : IsCovered c p.receipts
    pub current : IsCurrent c p.expires_at
