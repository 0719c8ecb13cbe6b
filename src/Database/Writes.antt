-- ===== src/Database/Writes.antt =====
-- The calls of packages/db/src/settlements.ts that write, on the tables and on the in-memory store, and
-- what it means that the tables hold what the in-memory store holds.
use pakta.Base.{String, false, ◌==◌, Option, none, some, List, [], ◌∷◌, ◌≡◌, ap, is_some}
use pakta.Base.Map.{lookup, has}
use pakta.Settlement.Store
use pakta.Settlement.Store.{
  Store, ProofStatus, ProofRecord, SettlementRecord, ChainEventRecord, Cursor, keep_hash,
}
use pakta.Database.Tables.{Tables, SettlementRow, FingerprintRow, row_of}
use pakta.Database.SettlementStore
use pakta.Database.SettlementStore.{
  excluded, with_proof_status, row_of_record, to_record, recorded, value_of_row,
}
use pakta.Database.Proofs.{SameProofs}
use pakta.Database.Once.{agreed}

abbrev pub settlement_row : String → SettlementRecord → SettlementRow
settlement_row id r = row_of_record r

abbrev pub event_row : String → ChainEventRecord → ChainEventRecord
event_row id e = e

abbrev pub fingerprint_row : String → String → FingerprintRow
fingerprint_row f note = record { fingerprint = f; note = note }

pub has_of :
    {V : Type 0} (key : String) (entries : List (String × V)) (o : Option V)
    → lookup key entries ≡ o
    → has key entries ≡ is_some o
has_of key entries none h = ap is_some h
has_of key entries (some v) h = ap is_some h

-- A settlement that says which proof authorized it and which gate it went through.
abbrev pub IsTraced : SettlementRecord → Type 0
IsTraced r = ((r.proof_hash == "") ≡ false) × ((r.contract_id == "") ≡ false)

-- The tables hold what the in-memory store holds.
pub record Represents (owner : String → String) (db : Tables) (s : Store) : Type 0 where
  pub proofs : SameProofs owner db.proofs s.proofs
  pub settlements :
      (id : String)
      → row_of (λ r. r.payable_id) id db.settlements
        ≡ agreed (λ r. r.payable_id) settlement_row id (lookup id s.settlements)
  pub traced : (id : String) (r : SettlementRecord) → lookup id s.settlements ≡ some r → IsTraced r
  pub events :
      (id : String)
      → row_of (λ e. e.id) id db.chain_events ≡ agreed (λ e. e.id) event_row id (lookup id s.events)
  pub cursors :
      (name : String)
      → value_of_row (row_of (λ c. c.name) name db.indexer_cursors) ≡ lookup name s.cursors
  pub fingerprints :
      (f : String)
      → row_of (λ r. r.fingerprint) f db.settled_fingerprints
        ≡ agreed (λ r. r.fingerprint) fingerprint_row f (lookup f s.settled_fingerprints)

-- A call that writes.
pub data Write : Type 0 where
  upserts : ProofRecord → Write
  marks : String → ProofStatus → Option String → Write
  settles : SettlementRecord → Write
  records : ChainEventRecord → Write
  moves : String → Cursor → Write
  remembers : String → String → Write

-- What the callers keep to: an id hash has one payable, and settlements are traced.
abbrev pub IsAllowed : (String → String) → Write → Type 0
IsAllowed owner (upserts p) = p.payable_id ≡ owner p.payable_id_hash
IsAllowed owner (settles r) = IsTraced r
IsAllowed owner _ = Unit

unfoldable pub write_tables : Write → Tables → Tables
write_tables (upserts p) db = SettlementStore.upsert_proof p db
write_tables (marks id status tx) db = SettlementStore.set_proof_status id status tx db
write_tables (settles r) db = SettlementStore.record_settlement r db
write_tables (records e) db = (SettlementStore.record_chain_event e db).1
write_tables (moves name c) db = SettlementStore.set_cursor name c db
write_tables (remembers f note) db = SettlementStore.add_settled_fingerprint f note db

unfoldable pub write_store : Write → Store → Store
write_store (upserts p) s = Store.upsert_proof p s
write_store (marks id status tx) s = Store.set_proof_status id status tx s
write_store (settles r) s = Store.record_settlement r s
write_store (records e) s = (Store.record_chain_event e s).1
write_store (moves name c) s = Store.set_cursor name c s
write_store (remembers f note) s = Store.add_settled_fingerprint f note s

unfoldable pub run_tables : List Write → Tables → Tables
run_tables [] db = db
run_tables (w ∷ ws) db = run_tables ws (write_tables w db)

unfoldable pub run_store : List Write → Store → Store
run_store [] s = s
run_store (w ∷ ws) s = run_store ws (write_store w s)
