-- ===== src/Canonical/Proof.antt =====
-- packages/canonical-model/src/proof.ts: the proof of payable, its signed form and the settlement.
-- A whole `number` is a natural number; the schemas' checks are Boolean tests.
use pakta.Base.{ℕ, String, Bool, not, ◌&&◌, ◌==◌, ltb}
use pakta.Base.Pattern.{
  is_hex64, is_account_shape, is_contract_shape, is_proof_amount, is_utc_seconds,
  is_signature_base64,
}

pub record ProofOfPayable : Type 0 where
  pub payable_id : String
  pub invoice_hash : String
  pub po_hash : String
  pub receipt_hash : String
  pub vendor_id : String
  pub vendor_wallet : String
  pub wallet_attestation_version : ℕ
  pub amount : String
  pub asset : String
  pub policy_version : String
  pub approvals_hash : String
  pub cost_center : String
  pub expires_at : String
  pub status : String

-- `z.string().min(1)`
abbrev pub is_present : String → Bool
is_present s = not (s == "")

-- `ProofOfPayable.safeParse(input).success`, for an input that has the fields and no others.
unfoldable pub is_proof : ProofOfPayable → Bool
is_proof p =
    is_present p.payable_id
    && is_hex64 p.invoice_hash
    && is_hex64 p.po_hash
    && is_hex64 p.receipt_hash
    && is_present p.vendor_id
    && is_account_shape p.vendor_wallet
    && ltb 0 p.wallet_attestation_version
    && is_proof_amount p.amount
    && is_present p.asset
    && is_present p.policy_version
    && is_hex64 p.approvals_hash
    && is_present p.cost_center
    && is_utc_seconds p.expires_at
    && p.status == "READY"

pub record SignedProofOfPayable : Type 0 where
  pub proof : ProofOfPayable
  pub proof_hash : String
  pub issuer_public_key : String
  pub issuer_signature : String
  pub network_passphrase : String
  pub contract_id : String

unfoldable pub is_signed_proof : SignedProofOfPayable → Bool
is_signed_proof s =
    is_proof s.proof
    && is_hex64 s.proof_hash
    && is_account_shape s.issuer_public_key
    && is_signature_base64 s.issuer_signature
    && is_present s.network_passphrase
    && is_contract_shape s.contract_id

pub data ErpPostingStatus : Type 0 where
  pending reconciled failed : ErpPostingStatus

-- The fields that the source nests under `settlement` stand beside the others; `network` is always
-- "stellar" and `status` always "SETTLED", so they are left out.
pub record Settlement : Type 0 where
  pub payable_id : String
  pub invoice_id : String
  pub po_id : String
  pub proof_hash : String
  pub contract_id : String
  pub asset : String
  pub amount : String
  pub tx_hash : String
  pub ledger : ℕ
  pub erp_posting_status : ErpPostingStatus

-- What `Settlement.parse` demands; it throws on anything else.
unfoldable pub is_settlement : Settlement → Bool
is_settlement s =
    is_present s.payable_id
    && is_present s.invoice_id
    && is_present s.po_id
    && is_hex64 s.proof_hash
    && is_contract_shape s.contract_id
    && is_present s.asset
    && is_proof_amount s.amount
    && is_hex64 s.tx_hash
    && ltb 0 s.ledger
