-- ===== src/Settlement/Fixtures.antt =====
-- Data for concrete runs of the settlement: a gate of the fakeGate.ts kind, an envelope and its context.
use pakta.Base.{String, true, false, none, [], ◌∷◌}
use pakta.Base.Int.{pos}
use pakta.Base.Outcome.{ok}
use pakta.Canonical.Proof.{ProofOfPayable, SignedProofOfPayable}
use pakta.Wrapper.Amount.{units_to_decimal}
use pakta.Settlement.Action.{World}
use pakta.Settlement.Chain.{PreparedRegistration, IssuerSignatureArg}
use pakta.Settlement.Deployment.{Deployment}
use pakta.Settlement.Store.{empty}
use pakta.Settlement.Gate.{NodeCrypto, FakeGate}
use pakta.Settlement.Adapter.{ProofVerifier, SettlementContext}

abbrev pub hash_a : String
hash_a = "aaaaaaaaaaaaaaaaaaaaaaaaaaaaaaaaaaaaaaaaaaaaaaaaaaaaaaaaaaaaaaaa"

abbrev pub hash_b : String
hash_b = "bbbbbbbbbbbbbbbbbbbbbbbbbbbbbbbbbbbbbbbbbbbbbbbbbbbbbbbbbbbbbbbb"

abbrev pub vendor_account : String
vendor_account = "GAAAAAAAAAAAAAAAAAAAAAAAAAAAAAAAAAAAAAAAAAAAAAAAAAAAAAAA"

abbrev pub gate_contract : String
gate_contract = "CAAAAAAAAAAAAAAAAAAAAAAAAAAAAAAAAAAAAAAAAAAAAAAAAAAAAAAA"

-- A stand-in for node:crypto: one hash for every text, and a check by the key alone.
abbrev pub crypto_example : NodeCrypto
crypto_example = record { sha256_hex = λ _. hash_b; verify = λ _ _. true }

abbrev pub deployment_example : Deployment
deployment_example = record {
  network = "testnet";
  network_passphrase = "Test SDF Network ; September 2015";
  rpc_url = "https://rpc.example";
  contract_id = gate_contract;
  asset_code = "USDC";
  asset_contract_id = gate_contract;
  expected_issuer_public_key_hex = none;
  expected_executor_address = none;
}

abbrev pub proof_example : ProofOfPayable
proof_example = record {
  payable_id = "pay-INV-1";
  invoice_hash = hash_a;
  po_hash = hash_a;
  receipt_hash = hash_a;
  vendor_id = "V-1";
  vendor_wallet = vendor_account;
  wallet_attestation_version = 1;
  amount = "5000.00";
  asset = "USDC";
  policy_version = "v1";
  approvals_hash = hash_a;
  cost_center = "CC-1";
  expires_at = "2026-01-01T00:00:00Z";
  status = "READY";
}

abbrev pub signed_example : SignedProofOfPayable
signed_example = record {
  proof = proof_example;
  proof_hash = hash_a;
  issuer_public_key = vendor_account;
  issuer_signature = "";
  network_passphrase = "Test SDF Network ; September 2015";
  contract_id = gate_contract;
}

abbrev pub prepared_example : PreparedRegistration
prepared_example = record {
  payable_id = "pay-INV-1";
  payable_id_hash = hash_b;
  proof_hash = hash_a;
  recipient = vendor_account;
  amount_units = 50000000000;
  policy_hash = hash_a;
  expiry = pos 1767225600;
  registration_digest = hash_b;
}

abbrev pub signature_example : IssuerSignatureArg
signature_example = record { issuer_public_key_hex = hash_a; signature = 1 ∷ [] }

abbrev pub verifier_example : ProofVerifier
verifier_example = record {
  verify_signed_proof = λ _ _. ok prepared_example;
  issuer_signature = λ _. ok signature_example;
  units_to_decimal = λ units. units_to_decimal units 2;
}

abbrev pub context_example : SettlementContext
context_example = record { invoice_id = "INV-1"; po_id = "PO-1"; fingerprint = "V-1|5000.00" }

abbrev pub context_without_po : SettlementContext
context_without_po = record { invoice_id = "INV-1"; po_id = ""; fingerprint = "V-1|5000.00" }

abbrev pub gate_example : FakeGate
gate_example = record {
  payables = [];
  payments = [];
  calls = [];
  ledger = 1000;
  tx_counter = 0;
  committed = pos 0;
  balance = pos 10000000000000;
  trusted_issuer_hex = hash_a;
  fail_register = none;
  fail_settle = none;
  lose_register = false;
  lose_settle = false;
  clock = 1767000000000;
}

abbrev pub world_example : World FakeGate
world_example = record { gate = gate_example; store = empty }
