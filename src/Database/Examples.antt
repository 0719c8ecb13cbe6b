-- ===== src/Database/Examples.antt =====
-- Both stores through one settlement, and recordSettlement on calls that repeat one.
use pakta.Base.{String, length, map, ◌≡◌, refl, none, some, List, [], ◌∷◌}
use pakta.Base.Pattern.{is_hex64, is_contract_shape, is_proof_amount}
use pakta.Base.Int.{pos}
use pakta.Base.Map.{lookup}
use pakta.Canonical.Proof.{ErpPostingStatus, is_settlement}
use pakta.Settlement.Store.{ProofRecord, ProofStatus, SettlementRecord, ChainEventRecord, empty}
use pakta.Database.Tables.{Tables, SettlementRow}
use pakta.Database.Writes.{
  Represents, Write, upserts, marks, settles, records, moves, remembers, run_tables, run_store,
}
use pakta.Database.Answers.{AnswersAs, run-AnswersAs}
use pakta.Database.Settlements.{
  RecordSettlementInput, row_of_input, record_settlement, update_erp_posting_status, get_settlement,
  to_settlement,
}
use pakta.Database.Postings.{
  Posting, records_settlement, posts, stores, posts_stored, inserts, post, post_all, IsOnce,
  post_all-IsOnce,
}
use pakta.Database.SettlementStore
use pakta.Database.Kept.{HasRow, post_all-HasRow}
use pakta.Database.Recorded.{Records, record_settlement-Records}

abbrev no_rows : Tables
no_rows = record {
  proofs = [];
  settlements = [];
  chain_events = [];
  indexer_cursors = [];
  settled_fingerprints = [];
}

abbrev proof_row : ProofRecord
proof_row = record {
  payable_id = "PAY-1";
  payable_id_hash = "0a";
  proof_hash = "0b";
  invoice_id = "INV-1";
  po_id = "PO-1";
  vendor_id = "V-1";
  amount = "5000.00";
  asset = "USDC";
  expiry = pos 1767225600;
  status = ProofStatus.signed;
  register_tx_hash = none;
}

abbrev settlement_example : SettlementRecord
settlement_example = record {
  payable_id = "PAY-1";
  invoice_id = "INV-1";
  po_id = "PO-1";
  proof_hash = "0b";
  contract_id = "C1";
  asset = "USDC";
  amount = "5000.00";
  tx_hash = "0c";
  ledger = 7;
  erp_posting_status = ErpPostingStatus.pending;
  settled_at = 1767000000000;
}

abbrev event_example : ChainEventRecord
event_example = record {
  id = "7-1";
  type = "settlement_executed";
  ledger = 7;
  tx_hash = "0c";
  payable_id_hash = some "0a";
}

abbrev writes_example : List Write
writes_example =
    upserts proof_row
    ∷ marks "0a" ProofStatus.registered (some "0d")
    ∷ records event_example
    ∷ settles settlement_example
    ∷ upserts proof_row
    ∷ marks "0a" ProofStatus.settled none
    ∷ remembers "V-1|5000.00" "PAY-1 settled in 0c"
    ∷ moves "gate" (record { cursor = some "7-1"; ledger = some 7 })
    ∷ []

no_rows-Represents : Represents (λ _. "PAY-1") no_rows empty
unfolding lookup
no_rows-Represents = record {
  proofs = record { found = λ id. refl; owned = λ id p h. cc h };
  settlements = λ id. refl;
  traced = λ id r h. cc h;
  events = λ id. refl;
  cursors = λ name. refl;
  fingerprints = λ f. refl;
}

run-AnswersAs_example :
    AnswersAs (run_tables writes_example no_rows) (run_store writes_example empty)
run-AnswersAs_example =
    run-AnswersAs (λ _. "PAY-1") writes_example no_rows empty
      (refl, (tt, (tt, ((refl, refl), (refl, (tt, (tt, (tt, tt)))))))) no_rows-Represents

abbrev hash_a : String
hash_a = "aaaaaaaaaaaaaaaaaaaaaaaaaaaaaaaaaaaaaaaaaaaaaaaaaaaaaaaaaaaaaaaa"

abbrev input_example : String → RecordSettlementInput
input_example payable_id = record {
  payable_id = payable_id;
  invoice_id = "INV-1";
  po_id = "PO-1";
  asset = "USDC";
  amount = "5000.00";
  tx_hash = hash_a;
  ledger = 7;
  proof_hash = hash_a;
  contract_id = "CAAAAAAAAAAAAAAAAAAAAAAAAAAAAAAAAAAAAAAAAAAAAAAAAAAAAAAA";
  erp_posting_status = none;
}

-- Recorded, refused for the payable and for the transaction, and posted.
abbrev postings_example : List Posting
postings_example =
    records_settlement (input_example "PAY-1") 5
    ∷ records_settlement (input_example "PAY-1") 6
    ∷ records_settlement (input_example "PAY-2") 7
    ∷ posts "PAY-1" ErpPostingStatus.reconciled
    ∷ []

recorded_once : length (post_all postings_example no_rows).settlements ≡ 1
unfolding post_all post record_settlement update_erp_posting_status is_settlement is_hex64
    is_contract_shape is_proof_amount get_settlement to_settlement
recorded_once = refl

post_all-IsOnce_example : IsOnce (post_all postings_example no_rows)
post_all-IsOnce_example =
    post_all-IsOnce postings_example no_rows (tt, (tt, (tt, (tt, tt))))
      (record { payables = tt; transactions = tt })

record_settlement-Records_example :
    let (o, db) = record_settlement no_rows (input_example "PAY-1") 5 in
    Records no_rows "PAY-1" o db
record_settlement-Records_example = record_settlement-Records no_rows (input_example "PAY-1") 5

abbrev first_row : SettlementRow
first_row = row_of_input (input_example "PAY-1") 5

-- The payable is settled again in three ways, and its posting updated.
abbrev repeats_example : List Posting
repeats_example =
    records_settlement (input_example "PAY-1") 6
    ∷ stores settlement_example
    ∷ inserts (row_of_input (record (input_example "PAY-1") { ledger = 9 }) 8)
    ∷ posts_stored "PAY-1" ErpPostingStatus.failed
    ∷ []

post_all-HasRow_example :
    HasRow "PAY-1" first_row
      (post_all repeats_example (record no_rows { settlements = first_row ∷ [] }))
post_all-HasRow_example =
    post_all-HasRow repeats_example "PAY-1" first_row
      (record no_rows { settlements = first_row ∷ [] }) (ErpPostingStatus.pending, refl)

-- The store's own method records a transaction a second time, for another payable.
reused_transaction :
    map
      (λ r. r.tx_hash)
      (post_all
        (stores (record settlement_example { payable_id = "PAY-2" }) ∷ [])
        (post (stores settlement_example) no_rows)).settlements
    ≡ "0c" ∷ "0c" ∷ []
unfolding post_all post SettlementStore.record_settlement
reused_transaction = refl
