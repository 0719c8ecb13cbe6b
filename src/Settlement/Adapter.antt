-- ===== src/Settlement/Adapter.antt =====
-- packages/settlement/src/adapter.ts: from a signed proof to money on the vendor's account.
pub mod Payments
pub mod Fresh
pub mod Authorized
use pakta.Base.{
  ℕ, ◌+◌, ◌/◌, String, Bool, false, not, ◌&&◌, ◌==◌, Option, none, some, [], ◌∷◌, eqb,
  if◌then◌else◌,
}
use Prim.Native.String
use pakta.Base.Int.{pos, ltb_ℤ, eqb_ℤ}
use pakta.Base.Outcome.{
  Outcome, ok, threw, Failure, gate_error, refused, other, stale_proof, already_closed,
  onchain_mismatch, invalid_proof, gate_refused,
}
use pakta.Canonical.Proof.{SignedProofOfPayable, ErpPostingStatus, Settlement, is_settlement}
use pakta.Settlement.Action.{
  Action, return, throw, ask_gate, read, of_outcome, attempt, modify_store, ◌>>=◌, ◌>>◌,
}
use pakta.Settlement.Chain.{
  OnChainStatus, OnChainPayable, PreparedRegistration, IssuerSignatureArg, SubmittedTx, GateClient,
}
use pakta.Settlement.Deployment.{Deployment}
use pakta.Settlement.Store.{
  ProofStatus, ProofRecord, SettlementRecord, ChainEventRecord, upsert_proof, get_proof_by_id_hash,
  set_proof_status, record_settlement, get_settlement, find_chain_event, add_settled_fingerprint,
}

abbrev pub min_remaining_validity_seconds : ℕ
min_remaining_validity_seconds = 120

-- What the adapter asks of the issuer component and of the amount conversion: `verifySignedProof`,
-- the raw issuer key and signature of an envelope, and `unitsToDecimal`.
pub record ProofVerifier : Type 0 where
  pub verify_signed_proof : SignedProofOfPayable → Deployment → Outcome PreparedRegistration
  pub issuer_signature : SignedProofOfPayable → Outcome IssuerSignatureArg
  pub units_to_decimal : ℕ → Outcome String

pub record SettlementContext : Type 0 where
  pub invoice_id : String
  pub po_id : String
  pub fingerprint : String

pub data SettlementOutcome : Type 0 where
  settled : Settlement → Option SubmittedTx → SubmittedTx → SettlementOutcome
  already_settled : Option Settlement → SettlementOutcome

-- `#refusal`
abbrev pub refusal : Failure → Failure
refusal (gate_error message code) = refused message gate_refused
refusal (refused message reason) = refused message reason
refusal (other message) = other message

-- `error instanceof GateError && error.code === code`
abbrev pub has_code : String → Failure → Bool
has_code code (gate_error message (some c)) = c == code
has_code code _ = false

-- `Settlement.parse`
abbrev pub parse_settlement : Settlement → Outcome Settlement
parse_settlement s = if is_settlement s then ok s else threw (other "ZodError")

abbrev pub settlement_of : SettlementRecord → Settlement
settlement_of r = record {
  payable_id = r.payable_id;
  invoice_id = r.invoice_id;
  po_id = r.po_id;
  proof_hash = r.proof_hash;
  contract_id = r.contract_id;
  asset = r.asset;
  amount = r.amount;
  tx_hash = r.tx_hash;
  ledger = r.ledger;
  erp_posting_status = r.erp_posting_status;
}

-- `#assertMatches`: what is on-chain is exactly what the proof says.
abbrev pub matches : PreparedRegistration → OnChainPayable → Bool
matches r p =
    p.proof_hash == r.proof_hash
    && p.recipient == r.recipient
    && eqb p.amount r.amount_units
    && eqb_ℤ p.expiry r.expiry

-- `#assertFresh`: `expiry - now ≥ 120`, in seconds.
abbrev pub is_fresh : PreparedRegistration → ℕ → Bool
is_fresh r now_ms = not (ltb_ℤ r.expiry (pos (now_ms / 1000 + min_remaining_validity_seconds)))

-- `registerTx?.txHash`
abbrev pub tx_hash_of : Option SubmittedTx → Option String
tx_hash_of none = none
tx_hash_of (some tx) = some tx.tx_hash

module _ {G : Type 0} (gate : GateClient G) (verifier : ProofVerifier)
    (deployment : Deployment) where
  module _ (signed : SignedProofOfPayable) (context : SettlementContext) where
    open signed use {proof}

    -- `#verify`: whatever the verification throws becomes INVALID_PROOF.
    verify : Action G PreparedRegistration
    verify = elim (verifier.verify_signed_proof signed deployment) [
      | ok r ↦ return r
      | threw e ↦ throw (refused "proof failed verification" invalid_proof)
    ]

    -- The record that the source writes for a settlement seen in transaction `tx_hash`.
    abbrev pub record_of : PreparedRegistration → String → ℕ → ℕ → SettlementRecord
    record_of r tx_hash ledger settled_at = record {
      payable_id = proof.payable_id;
      invoice_id = context.invoice_id;
      po_id = context.po_id;
      proof_hash = r.proof_hash;
      contract_id = deployment.contract_id;
      asset = proof.asset;
      amount = proof.amount;
      tx_hash = tx_hash;
      ledger = ledger;
      erp_posting_status = ErpPostingStatus.pending;
      settled_at = settled_at;
    }

    abbrev note : String → String
    note tx_hash = String.◌++◌ proof.payable_id (String.◌++◌ " settled in " tx_hash)

    -- The record of a proof that is on its way to the chain.
    abbrev proof_record : PreparedRegistration → String → ProofRecord
    proof_record r amount = record {
      payable_id = proof.payable_id;
      payable_id_hash = r.payable_id_hash;
      proof_hash = r.proof_hash;
      invoice_id = context.invoice_id;
      po_id = context.po_id;
      vendor_id = proof.vendor_id;
      amount = amount;
      asset = proof.asset;
      expiry = r.expiry;
      status = ProofStatus.signed;
      register_tx_hash = none;
    }

    remember_new : PreparedRegistration → Action G (Unit {0})
    remember_new r = do
      amount ← of_outcome (verifier.units_to_decimal r.amount_units)
      modify_store (upsert_proof (proof_record r amount))

    remember_by : ProofStatus → PreparedRegistration → Action G (Unit {0})
    unfolding remember_new
    remember_by ProofStatus.signed r = remember_new r
    remember_by _ r = return tt

    remember_over : PreparedRegistration → Option ProofRecord → Action G (Unit {0})
    unfolding remember_by
    remember_over r none = remember_new r
    remember_over r (some old) = remember_by old.status r

    -- `#rememberProof`
    remember_proof : PreparedRegistration → Action G (Unit {0})
    unfolding remember_over
    remember_proof r = do
      old ← read (λ w. get_proof_by_id_hash r.payable_id_hash w.store)
      remember_over r old

    -- The settlement rebuilt from the recorded event, where there is one.
    rebuild : PreparedRegistration → Option ChainEventRecord → Action G (Option SettlementRecord)
    rebuild r none = return none
    rebuild r (some event) = do
      at ← read (λ w. gate.now w.gate)
      modify_store (record_settlement (record_of r event.tx_hash event.ledger at))
      modify_store (add_settled_fingerprint context.fingerprint (note event.tx_hash))
      read (λ w. get_settlement proof.payable_id w.store)

    find_or_rebuild :
        PreparedRegistration → Option SettlementRecord → Action G (Option SettlementRecord)
    unfolding rebuild
    find_or_rebuild r (some known) = return (some known)
    find_or_rebuild r none = do
      event ← read (λ w. find_chain_event r.payable_id_hash "settlement_executed" w.store)
      rebuild r event

    report : Option SettlementRecord → Action G SettlementOutcome
    report none = return (already_settled none)
    report (some known) = do
      s ← of_outcome (parse_settlement (settlement_of known))
      return (already_settled (some s))

    -- `#alreadySettled`
    report_settled : PreparedRegistration → Action G SettlementOutcome
    unfolding find_or_rebuild report
    report_settled r = do
      modify_store (set_proof_status r.payable_id_hash ProofStatus.settled none)
      known ← read (λ w. get_settlement proof.payable_id w.store)
      found ← find_or_rebuild r known
      report found

    -- After the gate has taken the settlement: parse, record, remember.
    finish : PreparedRegistration → Option SubmittedTx → SubmittedTx → Action G SettlementOutcome
    finish r register_tx tx = do
      settlement ←
          of_outcome (parse_settlement (settlement_of (record_of r tx.tx_hash tx.ledger 0)))
      at ← read (λ w. gate.now w.gate)
      modify_store (record_settlement (record_of r tx.tx_hash tx.ledger at))
      modify_store (set_proof_status r.payable_id_hash ProofStatus.settled none)
      modify_store (add_settled_fingerprint context.fingerprint (note tx.tx_hash))
      return (settled settlement register_tx tx)

    -- The catch of `settle`: a payable that is not ready may have been paid by someone else.
    recheck_by : PreparedRegistration → Failure → OnChainStatus → Action G SettlementOutcome
    unfolding report_settled
    recheck_by r e OnChainStatus.settled = report_settled r
    recheck_by r e _ = throw (refusal e)

    recheck : PreparedRegistration → Failure → Option OnChainPayable → Action G SettlementOutcome
    unfolding recheck_by
    recheck r e none = throw (refusal e)
    recheck r e (some p) = recheck_by r e p.status

    on_settle_failure : PreparedRegistration → Failure → Action G SettlementOutcome
    unfolding recheck
    on_settle_failure r e =
        if has_code "NotReady" e
        then (ask_gate (gate.get_payable r.payable_id_hash) >>= recheck r e)
        else throw (refusal e)

    after_settle :
        PreparedRegistration → Option SubmittedTx → Outcome SubmittedTx → Action G SettlementOutcome
    unfolding finish on_settle_failure
    after_settle r register_tx (ok tx) = finish r register_tx tx
    after_settle r register_tx (threw e) = on_settle_failure r e

    -- From `#assertMatches` on.
    pay : PreparedRegistration → Option SubmittedTx → OnChainPayable → Action G SettlementOutcome
    unfolding after_settle
    pay r register_tx p =
        if matches r p
        then (attempt (ask_gate (gate.settle r.payable_id_hash)) >>= after_settle r register_tx)
        else throw (refused "registered on-chain with other values" onchain_mismatch)

    -- After registering, by the payable's state as it is then.
    reread_by :
        OnChainStatus
        → PreparedRegistration
        → Option SubmittedTx
        → OnChainPayable
        → Action G SettlementOutcome
    unfolding pay report_settled
    reread_by OnChainStatus.settled r register_tx p = report_settled r
    reread_by _ r register_tx p = pay r register_tx p

    on_reread :
        PreparedRegistration
        → Option SubmittedTx
        → Option OnChainPayable
        → Action G SettlementOutcome
    unfolding reread_by
    on_reread r register_tx none = throw (refused "did not appear on-chain" gate_refused)
    on_reread r register_tx (some p) = do
      modify_store
          (set_proof_status r.payable_id_hash ProofStatus.registered (tx_hash_of register_tx))
      reread_by p.status r register_tx p

    -- What registering answered: another process may have been first.
    after_register : PreparedRegistration → Outcome SubmittedTx → Action G SettlementOutcome
    unfolding on_reread
    after_register r (ok tx) =
        ask_gate (gate.get_payable r.payable_id_hash) >>= on_reread r (some tx)
    after_register r (threw e) =
        if has_code "PayableAlreadyExists" e
        then (ask_gate (gate.get_payable r.payable_id_hash) >>= on_reread r none)
        else throw (refusal e)

    -- The `try` of registering: the envelope's signature is decoded inside it.
    register : PreparedRegistration → Action G SubmittedTx
    register r = do
      signature ← of_outcome (verifier.issuer_signature signed)
      ask_gate (gate.register_payable r (signature ∷ []))

    register_fresh : PreparedRegistration → ℕ → Action G SettlementOutcome
    unfolding register after_register
    register_fresh r now_ms =
        if is_fresh r now_ms
        then (attempt (register r) >>= after_register r)
        else throw (refused "too close to settle safely" stale_proof)

    -- What is still missing, by the payable's state on the chain.
    settle_by : OnChainStatus → PreparedRegistration → OnChainPayable → Action G SettlementOutcome
    unfolding pay report_settled
    settle_by OnChainStatus.ready r p = pay r none p
    settle_by OnChainStatus.settled r p = report_settled r
    settle_by OnChainStatus.expired r p =
        modify_store (set_proof_status r.payable_id_hash ProofStatus.expired none)
        >> throw (refused "can no longer be settled" already_closed)
    settle_by OnChainStatus.revoked r p =
        modify_store (set_proof_status r.payable_id_hash ProofStatus.revoked none)
        >> throw (refused "can no longer be settled" already_closed)

    settle_from : PreparedRegistration → Option OnChainPayable → Action G SettlementOutcome
    unfolding register_fresh settle_by
    settle_from r none = do at ← read (λ w. gate.now w.gate); register_fresh r at
    settle_from r (some p) = settle_by p.status r p

    -- `settle` once the envelope is verified.
    unfoldable pub settle_prepared : PreparedRegistration → Action G SettlementOutcome
    unfolding remember_proof settle_from
    settle_prepared r = do
      remember_proof r
      p ← ask_gate (gate.get_payable r.payable_id_hash)
      settle_from r p

    unfoldable pub settle : Action G SettlementOutcome
    unfolding verify settle_prepared
    settle = do r ← verify; settle_prepared r
