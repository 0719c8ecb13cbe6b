-- ===== src/Settlement/Deployment.antt =====
-- packages/settlement/src/deployment.ts: the identifiers that a proof is bound to.
use pakta.Base.{String, Option}

pub record Deployment : Type 0 where
  pub network : String
  pub network_passphrase : String
  pub rpc_url : String
  pub contract_id : String
  pub asset_code : String
  pub asset_contract_id : String
  pub expected_issuer_public_key_hex : Option String
  pub expected_executor_address : Option String
