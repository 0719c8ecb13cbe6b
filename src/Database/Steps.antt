-- ===== src/Database/Steps.antt =====
-- Each call that writes (packages/db/src/settlements.ts, packages/settlement/src/memoryStore.ts) keeps
-- the tables in step with the in-memory store.
use pakta.Base.{
  subst, String, ◌==◌, Option, none, some, List, ◌≡◌, refl, sym, ◌∙◌, ap, Bool-cases, inl, inr,
}
use pakta.Base.Map.{lookup, insert, lookup-insert}
use pakta.Settlement.Store
use pakta.Settlement.Store.{
  Store, ProofStatus, ProofRecord, SettlementRecord, ChainEventRecord, Cursor, keep_hash,
}
use pakta.Database.Tables.{Tables, CursorRow, row_of, insert_or, written, row_of-insert_or}
use pakta.Database.SettlementStore
use pakta.Database.SettlementStore.{
  excluded, with_proof_status, row_of_record, to_record, recorded, value_of_row,
}
use pakta.Database.Proofs.{with_kept_status, upsert-SameProofs, status-found, status-owned}
use pakta.Database.Once.{once_entries, once-found}
use pakta.Database.Writes.{settlement_row, event_row, fingerprint_row, has_of, IsTraced, Represents}

module _ (owner : String → String) (db : Tables) (s : Store) (rep : Represents owner db s) where
  pub after_upsert :
      (p : ProofRecord)
      → p.payable_id ≡ owner p.payable_id_hash
      → Represents owner (SettlementStore.upsert_proof p db) (Store.upsert_proof p s)
  unfolding SettlementStore.upsert_proof Store.upsert_proof
  after_upsert p hp = record {
    proofs = upsert-SameProofs owner db.proofs s.proofs rep.proofs p hp;
    settlements = rep.settlements;
    traced = rep.traced;
    events = rep.events;
    cursors = rep.cursors;
    fingerprints = rep.fingerprints;
  }

  pub after_mark :
      (id : String) (status : ProofStatus) (tx : Option String)
      → Represents owner
          (SettlementStore.set_proof_status id status tx db)
          (Store.set_proof_status id status tx s)
  unfolding SettlementStore.set_proof_status Store.set_proof_status
  after_mark id status tx = by_entry (lookup id s.proofs) refl
    where
      by_entry :
          (o : Option ProofRecord)
          → lookup id s.proofs ≡ o
          → Represents owner (SettlementStore.set_proof_status id status tx db) (elim o [
            | none ↦ s
            | some p ↦ record s { proofs = insert id (with_kept_status status tx p) s.proofs }
          ])
      by_entry none h = record {
        proofs = record {
          found =
              λ other. status-found owner db.proofs s.proofs rep.proofs id status tx none other h;
          owned = λ other q.
              status-owned owner db.proofs s.proofs rep.proofs id status tx none other q h;
        };
        settlements = rep.settlements;
        traced = rep.traced;
        events = rep.events;
        cursors = rep.cursors;
        fingerprints = rep.fingerprints;
      }
      by_entry (some p) h = record {
        proofs = record {
          found = λ other.
              status-found owner db.proofs s.proofs rep.proofs id status tx (some p) other h;
          owned = λ other q.
              status-owned owner db.proofs s.proofs rep.proofs id status tx (some p) other q h;
        };
        settlements = rep.settlements;
        traced = rep.traced;
        events = rep.events;
        cursors = rep.cursors;
        fingerprints = rep.fingerprints;
      }

  kept_settlements : SettlementRecord → Option SettlementRecord → List (String × SettlementRecord)
  kept_settlements r o =
      once_entries (λ x. x.payable_id) settlement_row r.payable_id r s.settlements o

  store_settle :
      (r : SettlementRecord) (o : Option SettlementRecord)
      → lookup r.payable_id s.settlements ≡ o
      → record s { settlements = kept_settlements r o } ≡ Store.record_settlement r s
  unfolding Store.record_settlement kept_settlements
  store_settle r none h = rw (has_of r.payable_id s.settlements none h) refl
  store_settle r (some old) h = rw (has_of r.payable_id s.settlements (some old) h) refl

  traced_settle :
      (r : SettlementRecord) (o : Option SettlementRecord) (id : String) (q : SettlementRecord)
      → IsTraced r
      → lookup id (kept_settlements r o) ≡ some q
      → IsTraced q
  unfolding kept_settlements
  traced_settle r (some old) id q hr h = rep.traced id q h
  traced_settle r none id q hr h = elim (Bool-cases (r.payable_id == id)) [
    | inr apart ↦ rep.traced id q (cc (h, apart, lookup-insert r.payable_id id r s.settlements))
    | inl here ↦
        let is : r ≡ q = cc (h, here, lookup-insert r.payable_id id r s.settlements) in
        subst IsTraced is hr
  ]

  pub after_settlement :
      (r : SettlementRecord)
      → IsTraced r
      → Represents owner (SettlementStore.record_settlement r db) (Store.record_settlement r s)
  unfolding SettlementStore.record_settlement kept_settlements
  after_settlement r hr =
      let o = lookup r.payable_id s.settlements in
      subst (Represents owner (SettlementStore.record_settlement r db)) (store_settle r o refl)
        (record {
          proofs = rep.proofs;
          settlements = λ id.
              once-found (λ x. x.payable_id) settlement_row r r.payable_id db.settlements
                s.settlements o id refl rep.settlements refl;
          traced = λ id q. traced_settle r o id q hr;
          events = rep.events;
          cursors = rep.cursors;
          fingerprints = rep.fingerprints;
        })

  kept_events : ChainEventRecord → Option ChainEventRecord → List (String × ChainEventRecord)
  kept_events e o = once_entries (λ x. x.id) event_row e.id e s.events o

  store_event :
      (e : ChainEventRecord) (o : Option ChainEventRecord)
      → lookup e.id s.events ≡ o
      → record s { events = kept_events e o } ≡ (Store.record_chain_event e s).1
  unfolding Store.record_chain_event kept_events
  store_event e none h = rw (has_of e.id s.events none h) refl
  store_event e (some old) h = rw (has_of e.id s.events (some old) h) refl

  pub after_event :
      (e : ChainEventRecord)
      → Represents owner
          (SettlementStore.record_chain_event e db).1
          (Store.record_chain_event e s).1
  unfolding SettlementStore.record_chain_event kept_events
  after_event e =
      let o = lookup e.id s.events in
      subst (Represents owner (SettlementStore.record_chain_event e db).1) (store_event e o refl)
        (record {
          proofs = rep.proofs;
          settlements = rep.settlements;
          traced = rep.traced;
          events = λ id.
              once-found (λ x. x.id) event_row e e.id db.chain_events s.events o id refl rep.events
                refl;
          cursors = rep.cursors;
          fingerprints = rep.fingerprints;
        })

  value_of_written :
      (name : String) (c : Cursor) (o : Option CursorRow)
      → value_of_row (
          some (
            written
              (λ x. x.name)
              (record { name = name; value = c })
              (λ row. record row { value = c })
              o))
        ≡ some c
  value_of_written name c none = refl
  value_of_written name c (some row) = refl

  cursor-found :
      (name : String) (c : Cursor) (id : String)
      → value_of_row (
          row_of
            (λ x. x.name)
            id
            (insert_or
              (λ x. x.name)
              (record { name = name; value = c })
              (λ row. record row { value = c })
              db.indexer_cursors))
        ≡ lookup id (insert name c s.cursors)
  cursor-found name c id =
      let row : CursorRow = record { name = name; value = c } in
      let left =
        row_of-insert_or (λ x. x.name) row (λ r. record r { value = c }) db.indexer_cursors id
          (λ r. refl) in
      let right = lookup-insert name id c s.cursors in
      let old = row_of (λ x. x.name) name db.indexer_cursors in
      elim (Bool-cases (name == id)) [
        | inr apart ↦
            let below : row_of (λ x. x.name) id
                  (insert_or (λ x. x.name) row (λ r. record r { value = c }) db.indexer_cursors)
                ≡ row_of (λ x. x.name) id db.indexer_cursors =
              cc (left, apart) in
            let above : lookup id (insert name c s.cursors) ≡ lookup id s.cursors =
              cc (right, apart) in
            ap value_of_row below ∙ rep.cursors id ∙ sym above
        | inl here ↦
            let below : row_of (λ x. x.name) id
                  (insert_or (λ x. x.name) row (λ r. record r { value = c }) db.indexer_cursors)
                ≡ some (written (λ x. x.name) row (λ r. record r { value = c }) old) =
              cc (left, here) in
            let above : lookup id (insert name c s.cursors) ≡ some c = cc (right, here) in
            ap value_of_row below ∙ value_of_written name c old ∙ sym above
      ]

  pub after_cursor :
      (name : String) (c : Cursor)
      → Represents owner (SettlementStore.set_cursor name c db) (Store.set_cursor name c s)
  unfolding SettlementStore.set_cursor Store.set_cursor
  after_cursor name c = record {
    proofs = rep.proofs;
    settlements = rep.settlements;
    traced = rep.traced;
    events = rep.events;
    cursors = cursor-found name c;
    fingerprints = rep.fingerprints;
  }

  kept_fingerprints : String → String → Option String → List (String × String)
  kept_fingerprints f note o =
      once_entries (λ x. x.fingerprint) fingerprint_row f note s.settled_fingerprints o

  store_fingerprint :
      (f note : String) (o : Option String)
      → lookup f s.settled_fingerprints ≡ o
      → record s { settled_fingerprints = kept_fingerprints f note o }
        ≡ Store.add_settled_fingerprint f note s
  unfolding Store.add_settled_fingerprint kept_fingerprints
  store_fingerprint f note none h = rw (has_of f s.settled_fingerprints none h) refl
  store_fingerprint f note (some old) h = rw (has_of f s.settled_fingerprints (some old) h) refl

  pub after_fingerprint :
      (f note : String)
      → Represents owner
          (SettlementStore.add_settled_fingerprint f note db)
          (Store.add_settled_fingerprint f note s)
  unfolding SettlementStore.add_settled_fingerprint kept_fingerprints
  after_fingerprint f note =
      let o = lookup f s.settled_fingerprints in
      subst (Represents owner (SettlementStore.add_settled_fingerprint f note db))
        (store_fingerprint f note o refl)
        (record {
          proofs = rep.proofs;
          settlements = rep.settlements;
          traced = rep.traced;
          events = rep.events;
          cursors = rep.cursors;
          fingerprints = λ id.
              once-found (λ x. x.fingerprint) fingerprint_row note f db.settled_fingerprints
                s.settled_fingerprints o id refl rep.fingerprints refl;
        })
