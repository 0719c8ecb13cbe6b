-- ===== src/Settlement/Examples.antt =====
-- Concrete runs of the settlement, on the fixtures.
use pakta.Base.{String, true, false, ◌≡◌, refl, none, some, get_or, List, [], ◌∷◌}
use pakta.Base.Int.{pos, neg_part, ◌-ℤ◌}
use pakta.Base.Map.{lookup, has}
use pakta.Base.Outcome.{other, ok, threw}
use pakta.Base.Pattern.{is_hex64, is_contract_shape, is_proof_amount}
use pakta.Canonical.Proof.{is_settlement}
use pakta.Wrapper.Amount.{units_to_decimal}
use pakta.Settlement.Chain.{OnChainStatus, SubmittedTx}
use pakta.Settlement.Store.{empty, ProofRecord, ProofStatus, SettlementRecord}
use pakta.Settlement.Indexer.{
  GateEvent, EventPage, EventSource, IndexerReport, index_page, Progress, index_event, index_events,
  settlement_from, fingerprint_of,
}
use pakta.Settlement.Indexer.Replay.{index_page-index_page}
use pakta.Settlement.Indexer.Projection.{
  index_event-settled, index_events-settlements, index_event-late,
}
use pakta.Settlement.Store.{set_cursor}
use pakta.Settlement.Gate.{FakeGate, fake_client, called, of_prepared, with_status, next_tx}
use pakta.Settlement.Gate.Ledger.{IsSound}
use pakta.Settlement.Gate.Accepts.{Accepts}
use pakta.Settlement.Gate.Soundness.{
  Call, query, registers, settles, revokes, expires, faults, waits, run, run-IsSound, run-assets,
  assets,
}
use pakta.Settlement.Adapter.{settled, settle}
use pakta.Settlement.Adapter.Payments.{payment_of, Pays, settle-Pays}
use pakta.Settlement.Adapter.Fresh.{receipt, available_of, settle_new_payable, settle_without_po}
use pakta.Settlement.Fixtures.{
  hash_a, hash_b, crypto_example, deployment_example, signed_example, prepared_example,
  signature_example, verifier_example, context_example, context_without_po, gate_example,
  world_example,
}

gate_example-IsSound : IsSound gate_example
gate_example-IsSound = record { backed = tt; once = tt; committed = refl }

gate_example-Accepts :
    Accepts crypto_example prepared_example signature_example (called "getPayable" gate_example)
unfolding lookup
gate_example-Accepts = record {
  absent = refl;
  trusted = refl;
  verifies = refl;
  register_answers = refl;
  settle_answers = refl;
  register_response = refl;
  settle_response = refl;
}

converted_example : units_to_decimal 50000000000 2 ≡ ok "5000.00"
unfolding units_to_decimal
converted_example = refl

-- Registered, the response of the settlement lost, settled again, and swept.
abbrev calls_example : List Call
calls_example =
    query hash_b
    ∷ registers prepared_example (signature_example ∷ [])
    ∷ faults none none false true
    ∷ settles hash_b
    ∷ settles hash_b
    ∷ waits 5000
    ∷ expires (hash_b ∷ [])
    ∷ revokes hash_b
    ∷ []

run-IsSound_example : IsSound (run crypto_example gate_example calls_example)
run-IsSound_example = run-IsSound crypto_example gate_example calls_example gate_example-IsSound

run-assets_example : assets (run crypto_example gate_example calls_example) ≡ assets gate_example
run-assets_example = run-assets crypto_example gate_example calls_example

settle-Pays_example :
    let (o, w) =
      settle
        (fake_client crypto_example)
        verifier_example
        deployment_example
        signed_example
        context_example
        world_example in
    Pays prepared_example o [] w.gate.payments
settle-Pays_example =
    settle-Pays crypto_example verifier_example deployment_example signed_example context_example
      prepared_example world_example refl

settle_new_payable_example :
    let (o, w) =
      settle
        (fake_client crypto_example)
        verifier_example
        deployment_example
        signed_example
        context_example
        world_example in
    ((tx : SubmittedTx) × (tx' : SubmittedTx) × (o
        ≡ ok (
            settled
              (receipt crypto_example verifier_example deployment_example signed_example
                context_example prepared_example signature_example "5000.00" converted_example
                world_example gate_example-Accepts)
              (some tx)
              tx')))
    × (w.gate.payments ≡ payment_of prepared_example ∷ [])
    × (lookup hash_b w.gate.payables
        ≡ some (with_status OnChainStatus.settled (of_prepared prepared_example)))
    × (available_of w.gate ≡ available_of gate_example -ℤ pos 50000000000)
    × (neg_part (available_of w.gate) ≡ 0)
    × (has "pay-INV-1" w.store.settlements ≡ true)
unfolding ◌-ℤ◌ is_settlement next_tx is_hex64 is_contract_shape is_proof_amount
settle_new_payable_example =
    settle_new_payable crypto_example verifier_example deployment_example signed_example
      context_example prepared_example signature_example "5000.00" converted_example world_example
      gate_example-Accepts refl refl refl refl refl

settle_without_po_example :
    let (o, w) =
      settle
        (fake_client crypto_example)
        verifier_example
        deployment_example
        signed_example
        context_without_po
        world_example in
    (o ≡ threw (other "ZodError"))
    × (w.gate.payments ≡ payment_of prepared_example ∷ [])
    × (w.store.settlements ≡ [])
settle_without_po_example =
    settle_without_po crypto_example verifier_example deployment_example signed_example
      context_without_po prepared_example signature_example "5000.00" converted_example
      world_example gate_example-Accepts refl refl refl refl

abbrev event_example : GateEvent
event_example = record {
  id = "ev-1";
  type = "settlement_executed";
  ledger = 1002;
  tx_hash = hash_b;
  payable_id_hash = some hash_b;
}

abbrev registration_event : GateEvent
registration_event = record {
  id = "ev-0";
  type = "payable_registered";
  ledger = 1001;
  tx_hash = hash_a;
  payable_id_hash = some hash_b;
}

abbrev proof_record_example : ProofRecord
proof_record_example = record {
  payable_id = "pay-INV-1";
  payable_id_hash = hash_b;
  proof_hash = hash_a;
  invoice_id = "INV-1";
  po_id = "PO-1";
  vendor_id = "V-1";
  amount = "5000.00";
  asset = "USDC";
  expiry = pos 1767225600;
  status = ProofStatus.settled;
  register_tx_hash = none;
}

abbrev settlement_example : SettlementRecord
settlement_example = settlement_from deployment_example 5 event_example proof_record_example

-- A store that knows one proof, and maybe its settlement.
abbrev progress_example : List (String × SettlementRecord) → Progress
progress_example settlements = record {
  store = record empty { proofs = (hash_b, proof_record_example) ∷ []; settlements = settlements };
  report = record {
    fetched = 0;
    recorded = 0;
    settlements_recorded = [];
    unknown_settlements = [];
  };
}

abbrev page_example : List GateEvent → EventPage
page_example events = record { events = events; cursor = some "1002-1"; latest_ledger = 1002 }

abbrev no_events : IndexerReport
no_events = record {
  fetched = 0;
  recorded = 0;
  settlements_recorded = [];
  unknown_settlements = [];
}

abbrev source_example : EventSource FakeGate
source_example = record { fetch = λ cursor g. (ok (page_example []), g); now = λ g. 5 }

index_page-index_page_example :
    let s = (progress_example []).store in
    let w =
      index_page deployment_example source_example "gate" 5
        (page_example (event_example ∷ []))
        none
        no_events
        s in
    let v =
      index_page deployment_example source_example "gate" 6
        (page_example (registration_event ∷ []))
        none
        no_events
        w.store in
    index_page deployment_example source_example "gate" 9
      (page_example (event_example ∷ []))
      none
      no_events
      v.store
    ≡ record {
      store = set_cursor "gate" (record { cursor = some "1002-1"; ledger = some 1002 }) v.store;
      report = record no_events { fetched = 1 };
    }
index_page-index_page_example =
    index_page-index_page deployment_example source_example "gate" 5 6 9
      (page_example (event_example ∷ [])) (page_example (registration_event ∷ [])) none none none
      no_events no_events no_events (progress_example []).store

index_event-settled_example :
    let s = (index_event deployment_example 5 event_example (progress_example [])).store in
    (lookup "pay-INV-1" s.settlements ≡ some (get_or settlement_example (lookup "pay-INV-1" [])))
    × ((q : ProofRecord) × (lookup hash_b s.proofs ≡ some q) × (q.status ≡ ProofStatus.settled))
    × (has (fingerprint_of proof_record_example) s.settled_fingerprints ≡ true)
unfolding lookup
index_event-settled_example =
    index_event-settled deployment_example 5 event_example hash_b proof_record_example
      (progress_example []) refl refl refl refl refl

index_events-settlements_example :
    lookup "pay-INV-1"
      (index_events deployment_example 9
        (registration_event ∷ event_example ∷ [])
        (progress_example (("pay-INV-1", settlement_example) ∷ []))).store.settlements
    ≡ some settlement_example
unfolding lookup
index_events-settlements_example =
    index_events-settlements deployment_example "pay-INV-1" settlement_example 9
      (registration_event ∷ event_example ∷ [])
      (progress_example (("pay-INV-1", settlement_example) ∷ [])) refl

index_event-late_example :
    lookup hash_b
      (index_event deployment_example 5 registration_event (progress_example [])).store.proofs
    ≡ some proof_record_example
unfolding lookup
index_event-late_example =
    index_event-late deployment_example hash_b proof_record_example refl 5 registration_event
      (progress_example []) refl refl
