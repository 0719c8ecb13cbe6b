-- ===== src/Builder.antt =====
-- packages/proof-builder/src: a payable that the kernel found READY becomes a proof.
-- The evidence hashes (canonicalHash.ts, over JCS and SHA-256) and the printing of dates are
-- parameters; `sourceDigest` is modelled.
pub mod Commitments
mod Examples
use pakta.Base.{
  ℕ, zero, suc, ◌+◌, ◌*◌, ◌/◌, String, Bool, true, false, ◌&&◌, ◌==◌, Option, none, some, List,
  if◌then◌else◌, get_or,
}
use Prim.Native.String
use pakta.Base.Int.{ℤ, pos, negsuc, ◌+ℤ◌}
use pakta.Base.Pattern.{is_hex64}
use pakta.Base.Outcome.{Outcome, ok, threw, other, require, ◌>>=◌, ◌>>◌}
use pakta.Canonical.Payable.{
  CanonicalPayable, Invoice, PurchaseOrder, Receipt, Approval, VendorWallet,
}
use pakta.Canonical.Proof.{ProofOfPayable, is_proof}
use pakta.Kernel.Evaluate.{KernelResult, ready, blocked}

-- `canonicalHash` on each kind of evidence, which throws on what JSON cannot hold, and
-- `toISOString` without its milliseconds.
pub record Evidences (Num : Type 0) : Type 0 where
  pub hash_invoice : Invoice → Outcome String
  pub hash_purchase_order : Option PurchaseOrder → Outcome String
  pub hash_receipts : List (Receipt Num) → Outcome String
  pub hash_approvals : List Approval → Outcome String
  pub iso_seconds : ℤ → String

abbrev pub default_validity_hours : ℕ
default_validity_hours = 48

-- The text without its first `n` characters.
abbrev drop_text : ℕ → String → String
drop_text zero s = s
drop_text (suc n) String.[] = String.[]
drop_text (suc n) (String.◌∷◌ c s) = drop_text n s

abbrev take_text : ℕ → String → String
take_text zero s = String.[]
take_text (suc n) String.[] = String.[]
take_text (suc n) (String.◌∷◌ c s) = String.◌∷◌ c (take_text n s)

-- `/^(?:sha256:)?([0-9a-f]{64})$/`
unfoldable pub source_digest : String → Option String
source_digest s =
    let rest = drop_text 7 s in
    if is_hex64 s
    then some s
    else if take_text 7 s == "sha256:" && is_hex64 rest
    then some rest
    else none

-- `Math.floor(ms / 1000) * 1000`
abbrev floor_second : ℤ → ℤ
floor_second (pos n) = pos (n / 1000 * 1000)
floor_second (negsuc n) = negsuc (n / 1000 * 1000 + 999)

module _ {Num : Type 0} (evidences : Evidences Num) where
  open evidences use {hash_invoice, hash_purchase_order, hash_receipts, hash_approvals, iso_seconds}

  -- `sourceDigest(invoice.sourceHash) ?? canonicalHash(invoice)`
  abbrev pub invoice_hash : Invoice → Option String → Outcome String
  invoice_hash invoice none = hash_invoice invoice
  invoice_hash invoice (some digest) = ok digest

  abbrev pub expiry_of : ℤ → Option ℤ → ℤ
  expiry_of now none = now +ℤ pos (default_validity_hours * 60 * 60 * 1000)
  expiry_of now (some at) = at

  abbrev pub proof_of :
      CanonicalPayable Num
      → String
      → VendorWallet
      → ℤ
      → String
      → String
      → String
      → String
      → ProofOfPayable
  proof_of p version wallet expires_at invoice_hash po_hash receipt_hash approvals_hash = record {
    payable_id = p.payable_id;
    invoice_hash = invoice_hash;
    po_hash = po_hash;
    receipt_hash = receipt_hash;
    vendor_id = p.vendor.vendor_id;
    vendor_wallet = wallet.address;
    wallet_attestation_version = wallet.version;
    amount = p.invoice.amount;
    asset = "USDC";
    policy_version = version;
    approvals_hash = approvals_hash;
    cost_center = "UNSPECIFIED";
    expires_at = iso_seconds (floor_second expires_at);
    status = "READY";
  }

  -- `ProofOfPayable.safeParse`
  abbrev pub parse_proof : ProofOfPayable → Outcome ProofOfPayable
  parse_proof proof =
      if is_proof proof then ok proof else threw (other "a proof the settlement gate rejects")

  -- The evidence hashes in the order that the source takes them; the first that throws ends it.
  abbrev pub build_from :
      CanonicalPayable Num
      → String
      → VendorWallet
      → ℤ
      → Outcome String
      → Outcome String
      → Outcome String
      → Outcome String
      → Outcome ProofOfPayable
  build_from p version wallet expires_at of_invoice of_order of_receipts of_approvals = do
    invoice_hash ← of_invoice
    po_hash ← of_order
    receipt_hash ← of_receipts
    approvals_hash ← of_approvals
    parse_proof
        (proof_of p version wallet expires_at invoice_hash po_hash receipt_hash approvals_hash)

  abbrev pub build_with :
      CanonicalPayable Num → String → Option VendorWallet → ℤ → Outcome ProofOfPayable
  build_with p version none expires_at = threw (other "no attested vendor wallet on file")
  build_with p version (some wallet) expires_at =
      build_from p version wallet expires_at
        (invoice_hash p.invoice (source_digest p.invoice.source_hash))
        (hash_purchase_order p.purchase_order) (hash_receipts p.receipts)
        (hash_approvals p.approvals)

  unfoldable pub build_proof_of_payable :
      CanonicalPayable Num → KernelResult Num → ℤ → Option ℤ → Outcome ProofOfPayable
  build_proof_of_payable p (blocked id es e) now expires_at =
      threw (other "kernel result is BLOCKED")
  build_proof_of_payable p (ready id version) now expires_at =
      if id == p.payable_id
      then build_with p version p.vendor_wallet (expiry_of now expires_at)
      else threw (other "refusing to build a mismatched proof")
