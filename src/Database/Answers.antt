-- ===== src/Database/Answers.antt =====
-- What the callers of the two stores read.
use pakta.Base.{
  String, Bool, true, false, not, Option, none, some, List, ◌≡◌, refl, ap, sym, ◌∙◌, All, is_some,
}
use pakta.Base.Map.{lookup, has}
use pakta.Settlement.Store
use pakta.Settlement.Store.{Store, SettlementRecord, ChainEventRecord}
use pakta.Database.Tables.{Tables}
use pakta.Database.SettlementStore
use pakta.Database.SettlementStore.{recorded, row_of_record}
use pakta.Database.Proofs.{view}
use pakta.Database.Once.{agreed}
use pakta.Database.Writes.{
  Represents, IsTraced, IsAllowed, Write, run_tables, run_store, settlement_row, event_row, has_of,
}
use pakta.Database.Refines.{run-Represents}

-- The two stores give the same answers; for a proof, all but the transaction of its registration.
pub record AnswersAs (db : Tables) (s : Store) : Type 0 where
  pub proof :
      (id : String)
      → view (SettlementStore.get_proof_by_id_hash id db) ≡ view (Store.get_proof_by_id_hash id s)
  pub settlement : (id : String) → SettlementStore.get_settlement id db ≡ Store.get_settlement id s
  pub cursor : (name : String) → SettlementStore.get_cursor name db ≡ Store.get_cursor name s
  pub is_new :
      (e : ChainEventRecord)
      → (SettlementStore.record_chain_event e db).0 ≡ (Store.record_chain_event e s).0

recorded-traced :
    (id : String) (o : Option SettlementRecord)
    → ((r : SettlementRecord) → o ≡ some r → IsTraced r)
    → recorded (agreed (λ r. r.payable_id) settlement_row id o) ≡ o
recorded-traced id none h = refl
recorded-traced id (some r) h = rw ((h r refl).0, (h r refl).1) refl

is_some-agreed :
    (id : String) (o : Option ChainEventRecord)
    → is_some (agreed (λ e. e.id) event_row id o) ≡ is_some o
is_some-agreed id none = refl
is_some-agreed id (some e) = refl

new_of :
    (e : ChainEventRecord) (s : Store) (b : Bool)
    → has e.id s.events ≡ b
    → (Store.record_chain_event e s).0 ≡ not b
unfolding Store.record_chain_event
new_of e s true h = rw h refl
new_of e s false h = rw h refl

Represents-AnswersAs :
    (owner : String → String) (db : Tables) (s : Store) → Represents owner db s → AnswersAs db s
unfolding SettlementStore.record_chain_event
Represents-AnswersAs owner db s rep = record {
  proof = rep.proofs.found;
  settlement = λ id.
      ap recorded (rep.settlements id)
      ∙ recorded-traced id (lookup id s.settlements) (rep.traced id);
  cursor = rep.cursors;
  is_new = λ e.
      ap not (
        ap is_some (rep.events e.id)
        ∙ is_some-agreed e.id (lookup e.id s.events)
        ∙ sym (has_of e.id s.events (lookup e.id s.events) refl))
      ∙ sym (new_of e s (has e.id s.events) refl);
}

-- However many calls write to both stores, with one payable for an id hash and settlements that
-- name their proof and gate: from tables that hold what the in-memory store holds, the store on
-- Postgres answers what the in-memory store answers, for proofs but for the registration's
-- transaction, for settlements, cursors and whether an event is new.
pub run-AnswersAs :
    (owner : String → String) (ws : List Write) (db : Tables) (s : Store)
    → All (IsAllowed owner) ws
    → Represents owner db s
    → AnswersAs (run_tables ws db) (run_store ws s)
run-AnswersAs owner ws db s hs rep =
    Represents-AnswersAs owner (run_tables ws db) (run_store ws s)
      (run-Represents owner ws db s hs rep)
