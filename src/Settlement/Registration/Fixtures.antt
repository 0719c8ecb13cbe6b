-- ===== src/Settlement/Registration/Fixtures.antt =====
-- Data of the concrete runs: an issuer, a proof, a deployment and a gate.
use pakta.ProofHash.Digest.{zero_padded}
use pakta.Base.{ℕ, List, String, true, false, none, some, [], ◌∷◌}
use pakta.Base.Int.{pos}
use pakta.Base.Outcome.{ok}
use pakta.Base.Pattern.{codes}
use pakta.Canonical.Proof.{ProofOfPayable, SignedProofOfPayable}
use pakta.Settlement.Chain.{PreparedRegistration}
use pakta.Settlement.Deployment.{Deployment}
use pakta.Settlement.Action.{World}
use pakta.Settlement.Store.{empty}
use pakta.Settlement.Gate.{NodeCrypto, FakeGate}
use pakta.Settlement.Adapter.{SettlementContext}
use pakta.Settlement.Registration.{Codecs, Issuer, envelope}

abbrev pub hex_text : String
hex_text = "0123456789abcdef0123456789abcdef0123456789abcdef0123456789abcdef"

abbrev pub account_text : String
account_text = "GAAAAAAAAAAAAAAAAAAAAAAAAAAAAAAAAAAAAAAAAAAAAAAAAAAAAWHF"

abbrev pub contract_text : String
contract_text = "CAAAAAAAAAAAAAAAAAAAAAAAAAAAAAAAAAAAAAAAAAAAAAAAAAAABSC4"

abbrev pub zero_bytes : List ℕ
zero_bytes = zero_padded 32 []

abbrev pub signature_text : String
signature_text =
    "AAAAAAAAAAAAAAAAAAAAAAAAAAAAAAAAAAAAAAAAAAAAAAAAAAAAAAAAAAAAAAAAAAAAAAAAAAAAAAAAAAAAAA=="

-- Stand-ins that know one hash, one key and one signature.
abbrev pub codecs_example : Codecs
codecs_example = record {
  hashing = record {
    sha256 = λ _. zero_bytes;
    utf8 = codes;
    encode_hex = λ _. hex_text;
    parse_date = λ _. some (pos 1767225600000);
  };
  proof_hash = λ _. ok hex_text;
  encode_base64 = λ _. signature_text;
  decode_base64 = λ _. 7 ∷ [];
  ed25519_verify = λ _ _ _. true;
}

abbrev pub issuer_example : Issuer
issuer_example = record { account_id = account_text; sign_digest = λ _. 7 ∷ [] }

abbrev pub gate_deployment : Deployment
gate_deployment = record {
  network = "testnet";
  network_passphrase = "Test SDF Network ; September 2015";
  rpc_url = "https://rpc.example";
  contract_id = contract_text;
  asset_code = "USDC";
  asset_contract_id = contract_text;
  expected_issuer_public_key_hex = none;
  expected_executor_address = none;
}

abbrev pub unsigned_proof : ProofOfPayable
unsigned_proof = record {
  payable_id = "PAY-1";
  invoice_hash = hex_text;
  po_hash = hex_text;
  receipt_hash = hex_text;
  vendor_id = "V-1";
  vendor_wallet = account_text;
  wallet_attestation_version = 1;
  amount = "5000.00";
  asset = "USDC";
  policy_version = "v1";
  approvals_hash = hex_text;
  cost_center = "CC-1";
  expires_at = "2026-01-01T00:00:00Z";
  status = "READY";
}

abbrev pub registration_example : PreparedRegistration
registration_example = record {
  payable_id = "PAY-1";
  payable_id_hash = hex_text;
  proof_hash = hex_text;
  recipient = account_text;
  amount_units = 50000000000;
  policy_hash = hex_text;
  expiry = pos 1767225600;
  registration_digest = hex_text;
}

abbrev pub envelope_example : SignedProofOfPayable
envelope_example =
    envelope codecs_example unsigned_proof gate_deployment issuer_example registration_example

abbrev pub node_crypto : NodeCrypto
node_crypto = record { sha256_hex = λ _. hex_text; verify = λ _ _. true }

abbrev pub order_context : SettlementContext
order_context = record { invoice_id = "INV-1"; po_id = "PO-1"; fingerprint = "V-1|5000.00" }

abbrev pub open_gate : World FakeGate
open_gate = record {
  gate = record {
    payables = [];
    payments = [];
    calls = [];
    ledger = 1000;
    tx_counter = 0;
    committed = pos 0;
    balance = pos 10000000000000;
    trusted_issuer_hex = "01";
    fail_register = none;
    fail_settle = none;
    lose_register = false;
    lose_settle = false;
    clock = 1767000000000;
  };
  store = empty;
}
