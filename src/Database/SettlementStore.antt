-- ===== src/Database/SettlementStore.antt =====
-- packages/db/src/settlements.ts, createSettlementStore: the settlement path's store on Postgres.
use pakta.Base.{
  String, Bool, false, ◌&&◌, ◌||◌, ◌==◌, Option, none, some, List, find, select, sort_by, head_of,
  ltb, eqb, if◌then◌else◌, is_some, not,
}
use pakta.Base.Int.{ltb_ℤ}
use pakta.Canonical.Proof.{ErpPostingStatus}
use pakta.Settlement.Store.{
  ProofStatus, ProofRecord, SettlementRecord, ChainEventRecord, Cursor, is_registered,
}
use pakta.Database.Tables.{Tables, SettlementRow, CursorRow, row_of, update_where, insert_or}
use pakta.Database.Settlements.{filter_map, by_ledger}

-- The conflicting row keeps its payable_id and its register_tx_hash.
abbrev pub excluded : ProofRecord → ProofRecord → ProofRecord
excluded proof row = record row {
  proof_hash = proof.proof_hash;
  invoice_id = proof.invoice_id;
  po_id = proof.po_id;
  vendor_id = proof.vendor_id;
  amount = proof.amount;
  asset = proof.asset;
  expiry = proof.expiry;
  status = proof.status;
}

unfoldable pub upsert_proof : ProofRecord → Tables → Tables
upsert_proof proof db = record db {
  proofs = insert_or (λ p. p.payable_id_hash) proof (excluded proof) db.proofs;
}

abbrev pub get_proof_by_id_hash : String → Tables → Option ProofRecord
get_proof_by_id_hash id db = row_of (λ p. p.payable_id_hash) id db.proofs

abbrev pub get_proof : String → Tables → Option ProofRecord
get_proof payable_id db = find (λ p. p.payable_id == payable_id) db.proofs

-- `COALESCE($2, register_tx_hash)`
abbrev pub coalesce : Option String → Option String → Option String
coalesce none old = old
coalesce (some tx) old = some tx

abbrev pub with_proof_status : ProofStatus → Option String → ProofRecord → ProofRecord
with_proof_status status tx p = record p {
  status = status;
  register_tx_hash = coalesce tx p.register_tx_hash;
}

unfoldable pub set_proof_status : String → ProofStatus → Option String → Tables → Tables
set_proof_status id status tx db = record db {
  proofs = update_where (λ p. p.payable_id_hash) id (with_proof_status status tx) db.proofs;
}

unfoldable pub list_open_registrations : Tables → List ProofRecord
list_open_registrations db =
    sort_by (λ a b. ltb_ℤ a.expiry b.expiry) (select (λ p. is_registered p.status) db.proofs)

abbrev pub row_of_record : SettlementRecord → SettlementRow
row_of_record r = record {
  payable_id = r.payable_id;
  invoice_id = r.invoice_id;
  po_id = r.po_id;
  asset = r.asset;
  amount = r.amount;
  tx_hash = r.tx_hash;
  ledger = r.ledger;
  erp_posting_status = r.erp_posting_status;
  settled_at = r.settled_at;
  proof_hash = some r.proof_hash;
  contract_id = some r.contract_id;
}

abbrev pub record_with : SettlementRow → String → String → SettlementRecord
record_with row proof_hash contract_id = record {
  payable_id = row.payable_id;
  invoice_id = row.invoice_id;
  po_id = row.po_id;
  proof_hash = proof_hash;
  contract_id = contract_id;
  asset = row.asset;
  amount = row.amount;
  tx_hash = row.tx_hash;
  ledger = row.ledger;
  erp_posting_status = row.erp_posting_status;
  settled_at = row.settled_at;
}

abbrev pub traced : SettlementRow → Option String → Option String → Option SettlementRecord
traced row (some proof_hash) (some contract_id) =
    if proof_hash == "" || contract_id == ""
    then none
    else some (record_with row proof_hash contract_id)
traced row _ _ = none

-- `toRecord`: NULL and the empty text are both missing.
abbrev pub to_record : SettlementRow → Option SettlementRecord
to_record row = traced row row.proof_hash row.contract_id

-- `ON CONFLICT (payable_id) DO NOTHING`
unfoldable pub record_settlement : SettlementRecord → Tables → Tables
record_settlement r db = record db {
  settlements = insert_or (λ s. s.payable_id) (row_of_record r) (λ row. row) db.settlements;
}

abbrev pub recorded : Option SettlementRow → Option SettlementRecord
recorded none = none
recorded (some row) = to_record row

abbrev pub get_settlement : String → Tables → Option SettlementRecord
get_settlement payable_id db = recorded (row_of (λ s. s.payable_id) payable_id db.settlements)

unfoldable pub list_settlements : (String → String → Bool) → Tables → List SettlementRecord
list_settlements before db = filter_map to_record (sort_by (by_ledger before) db.settlements)

unfoldable pub set_erp_posting_status : String → ErpPostingStatus → Tables → Tables
set_erp_posting_status payable_id status db = record db {
  settlements =
      update_where (λ s. s.payable_id) payable_id
        (λ row. record row { erp_posting_status = status }) db.settlements;
}

-- `RETURNING id`: false if the event was recorded before.
unfoldable pub record_chain_event : ChainEventRecord → Tables → Bool × Tables
record_chain_event e db = (
  not (is_some (row_of (λ x. x.id) e.id db.chain_events)),
  record db { chain_events = insert_or (λ x. x.id) e (λ row. row) db.chain_events },
)

abbrev is_for : String → ChainEventRecord → Bool
is_for id e = elim e.payable_id_hash [ none ↦ false | some h ↦ h == id ]

-- `ORDER BY ledger DESC, id DESC LIMIT 1`, by the database's order of texts.
unfoldable pub find_chain_event :
    (String → String → Bool) → String → String → Tables → Option ChainEventRecord
find_chain_event before id type db = head_of (
    sort_by (λ a b. ltb b.ledger a.ledger || (eqb a.ledger b.ledger && before b.id a.id))
      (select (λ e. is_for id e && e.type == type) db.chain_events))

abbrev events_for : Option String → List ChainEventRecord → List ChainEventRecord
events_for none events = events
events_for (some id) events = if id == "" then events else select (is_for id) events

unfoldable pub list_chain_events :
    (String → String → Bool) → Option String → Tables → List ChainEventRecord
list_chain_events before id db =
    sort_by (λ a b. ltb a.ledger b.ledger || (eqb a.ledger b.ledger && before a.id b.id))
      (events_for id db.chain_events)

abbrev pub value_of_row : Option CursorRow → Option Cursor
value_of_row none = none
value_of_row (some row) = some row.value

abbrev pub get_cursor : String → Tables → Option Cursor
get_cursor name db = value_of_row (row_of (λ c. c.name) name db.indexer_cursors)

unfoldable pub set_cursor : String → Cursor → Tables → Tables
set_cursor name c db = record db {
  indexer_cursors =
      insert_or (λ x. x.name) (record { name = name; value = c }) (λ row. record row { value = c })
        db.indexer_cursors;
}

-- fingerprints.ts, `addSettledFingerprint`
unfoldable pub add_settled_fingerprint : String → String → Tables → Tables
add_settled_fingerprint fingerprint note db = record db {
  settled_fingerprints =
      insert_or (λ f. f.fingerprint) (record { fingerprint = fingerprint; note = note })
        (λ row. row) db.settled_fingerprints;
}
