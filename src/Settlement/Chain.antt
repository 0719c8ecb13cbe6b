-- ===== src/Settlement/Chain.antt =====
-- packages/settlement/src/chain.ts: what the backend asks of the PayableGate, as an interface, and
-- the registration that packages/settlement/src/registration.ts prepares for it.
-- A `bigint` amount and the chain's ledger numbers are natural numbers, an expiry is an integer.
use pakta.Base.{ℕ, String, Bool, true, false, Option, List}
use pakta.Base.Int.{ℤ}
use pakta.Base.Outcome.{Outcome}

pub data OnChainStatus : Type 0 where
  ready settled expired revoked : OnChainStatus

pub record OnChainPayable : Type 0 where
  pub proof_hash : String
  pub recipient : String
  pub amount : ℕ
  pub policy_hash : String
  pub expiry : ℤ
  pub status : OnChainStatus

pub record PreparedRegistration : Type 0 where
  pub payable_id : String
  pub payable_id_hash : String
  pub proof_hash : String
  pub recipient : String
  pub amount_units : ℕ
  pub policy_hash : String
  pub expiry : ℤ
  pub registration_digest : String

pub record IssuerSignatureArg : Type 0 where
  pub issuer_public_key_hex : String
  pub signature : List ℕ

pub record SubmittedTx : Type 0 where
  pub tx_hash : String
  pub ledger : ℕ

-- The outside world `G` is the chain with whoever else acts on it, and the clock. Each call may
-- change it, in any way, and answers or throws.
pub record GateClient (G : Type 0) : Type 0 where
  pub get_payable : String → G → Outcome (Option OnChainPayable) × G
  pub get_available : G → Outcome ℤ × G
  pub register_payable :
      PreparedRegistration → List IssuerSignatureArg → G → Outcome SubmittedTx × G
  pub settle : String → G → Outcome SubmittedTx × G
  pub revoke_payable : String → String → List IssuerSignatureArg → G → Outcome SubmittedTx × G
  pub expire_batch : List String → G → Outcome SubmittedTx × G
  -- Milliseconds since 1970, as the process reads them at this moment.
  pub now : G → ℕ

abbrev pub same_status : OnChainStatus → OnChainStatus → Bool
same_status OnChainStatus.ready OnChainStatus.ready = true
same_status OnChainStatus.settled OnChainStatus.settled = true
same_status OnChainStatus.expired OnChainStatus.expired = true
same_status OnChainStatus.revoked OnChainStatus.revoked = true
same_status _ _ = false
