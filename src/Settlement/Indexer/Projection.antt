-- ===== src/Settlement/Indexer/Projection.antt =====
-- What indexing does to settlements and to the status of proofs.
use pakta.Base.{
  ℕ, ◌+◌, String, true, false, ◌≡◌, refl, Option, none, some, List, [], ◌∷◌, arith, eq_iff, ◌==◌,
  if◌then◌else◌, Bool-cases, inl, inr, get_or, ap, ◌∙◌, Option-cases,
}
use pakta.Base.Map.{lookup, has, insert, lookup-insert, lookup-insert_self}
use pakta.Settlement.Deployment.{Deployment}
use pakta.Settlement.Store.{
  Store, ProofRecord, ProofStatus, SettlementRecord, set_proof_status, record_settlement,
  record_chain_event, add_settled_fingerprint, is_registered, keep_hash,
}
use pakta.Settlement.Store.Laws.{
  set_proof_status-settlements, add_settled_fingerprint-settlements, has-add_settled_fingerprint,
}
use pakta.Settlement.Indexer.{
  GateEvent, Progress, project, project_for, project_by, project_status, project_settlement,
  record_unless, index_event, index_events, event_record, status_by_event, settlement_from,
  fingerprint_of, note_of, is_signed,
}

set_proof_status-found :
    (id : String) (status : ProofStatus) (tx : Option String) (s : Store) (p : ProofRecord)
    → lookup id s.proofs ≡ some p
    → (q : ProofRecord) × (lookup id (set_proof_status id status tx s).proofs ≡ some q)
      × (q.status ≡ status)
unfolding set_proof_status
set_proof_status-found id status tx s p found =
    let q = record p { status = status; register_tx_hash = keep_hash tx p.register_tx_hash } in
    rw (found, set_proof_status) (q, lookup-insert_self id q s.proofs, refl)

set_proof_status-fingerprints :
    (id : String) (status : ProofStatus) (tx : Option String) (s : Store)
    → (set_proof_status id status tx s).settled_fingerprints ≡ s.settled_fingerprints
unfolding set_proof_status
set_proof_status-fingerprints id status tx s = ground arith

add_settled_fingerprint-proofs :
    (fingerprint note : String) (s : Store)
    → (add_settled_fingerprint fingerprint note s).proofs ≡ s.proofs
unfolding add_settled_fingerprint
add_settled_fingerprint-proofs fingerprint note s = ground arith

record_settlement-proofs :
    (r : SettlementRecord) (s : Store) → (record_settlement r s).proofs ≡ s.proofs
unfolding record_settlement
record_settlement-proofs r s = ground arith

-- The first settlement of a payable stays.
lookup-record_settlement :
    (r : SettlementRecord) (s : Store)
    → lookup r.payable_id (record_settlement r s).settlements
      ≡ some (get_or r (lookup r.payable_id s.settlements))
unfolding record_settlement
lookup-record_settlement r s = ground (arith, lookup-insert_self r.payable_id r s.settlements)

record_settlement-keeps :
    (r : SettlementRecord) (s : Store) (k : String) (x : SettlementRecord)
    → lookup k s.settlements ≡ some x
    → lookup k (record_settlement r s).settlements ≡ some x
unfolding record_settlement
record_settlement-keeps r s k x h =
    ground (arith, lookup-insert r.payable_id k r s.settlements, eq_iff r.payable_id k)

module _ (deployment : Deployment) where
  record_unless-proofs :
      (o : Option SettlementRecord) (at : ℕ) (e : GateEvent) (p : ProofRecord) (w : Progress)
      → (record_unless deployment o at e p w).store.proofs ≡ w.store.proofs
  record_unless-proofs (some known) at e p w = refl
  record_unless-proofs none at e p w = record_settlement-proofs _ w.store

  lookup-record_unless :
      (o : Option SettlementRecord) (at : ℕ) (e : GateEvent) (p : ProofRecord) (w : Progress)
      → lookup p.payable_id w.store.settlements ≡ o
      → lookup p.payable_id (record_unless deployment o at e p w).store.settlements
        ≡ some (get_or (settlement_from deployment at e p) o)
  lookup-record_unless (some known) at e p w h = h
  lookup-record_unless none at e p w h =
      lookup-record_settlement (settlement_from deployment at e p) w.store ∙ rw h refl

  project_settlement-known :
      (at : ℕ) (e : GateEvent) (id : String) (p : ProofRecord) (w : Progress)
      → lookup id w.store.proofs ≡ some p
      → let s = (project_settlement deployment at e id (some p) w).store in
        (lookup p.payable_id s.settlements
          ≡ some (
              get_or (settlement_from deployment at e p) (lookup p.payable_id w.store.settlements)))
        × ((q : ProofRecord) × (lookup id s.proofs ≡ some q) × (q.status ≡ ProofStatus.settled))
        × (has (fingerprint_of p) s.settled_fingerprints ≡ true)
  project_settlement-known at e id p w found =
      let w' = record_unless deployment (lookup p.payable_id w.store.settlements) at e p w in
      let settled = set_proof_status id ProofStatus.settled none w'.store in
      (
        ap (λ m. lookup p.payable_id m)
              (add_settled_fingerprint-settlements (fingerprint_of p) (note_of p e) settled
                ∙ set_proof_status-settlements id ProofStatus.settled none w'.store)
            ∙ lookup-record_unless (lookup p.payable_id w.store.settlements) at e p w refl,
        rw (add_settled_fingerprint-proofs (fingerprint_of p) (note_of p e) settled) (
            set_proof_status-found id ProofStatus.settled none w'.store p (
              ap (λ m. lookup id m)
                (record_unless-proofs (lookup p.payable_id w.store.settlements) at e p w)
              ∙ found)),
        has-add_settled_fingerprint (fingerprint_of p) (note_of p e) settled,
      )

  index_event-new :
      (at : ℕ) (e : GateEvent) (w : Progress)
      → has e.id w.store.events ≡ false
      → index_event deployment at e w
        ≡ project deployment at e (record {
          store = record (w.store) {
            events = insert e.id (event_record deployment e) w.store.events;
          };
          report = record (w.report) { recorded = w.report.recorded + 1 };
        })
  unfolding index_event record_chain_event
  index_event-new at e w new = rw new refl

  project-settlement :
      (at : ℕ) (e : GateEvent) (id : String) (w : Progress)
      → e.payable_id_hash ≡ some id
      → (id == "") ≡ false
      → e.type ≡ "settlement_executed"
      → project deployment at e w
        ≡ project_settlement deployment at e id (lookup id w.store.proofs) w
  unfolding project
  project-settlement at e id w payable present type =
      ap (λ o. project_for deployment o at e w) payable
      ∙ ap (λ b. if b then w else project_by deployment (status_by_event e.type) at e id w) present
      ∙ ap (λ o. project_by deployment o at e id w) (ap status_by_event type)
      ∙ ap
          (λ t.
            if t == "settlement_executed"
            then project_settlement deployment at e id (lookup id w.store.proofs) w
            else w)
          type

  -- A settlement event that is new, for a proof that the store knows: afterwards the payable has a
  -- settlement, the one it had or the event's, the proof is SETTLED, and its fingerprint is among the settled ones.
  pub index_event-settled :
      (at : ℕ) (e : GateEvent) (id : String) (p : ProofRecord) (w : Progress)
      → e.payable_id_hash ≡ some id
      → (id == "") ≡ false
      → e.type ≡ "settlement_executed"
      → has e.id w.store.events ≡ false
      → lookup id w.store.proofs ≡ some p
      → let s = (index_event deployment at e w).store in
        (lookup p.payable_id s.settlements
          ≡ some (
              get_or (settlement_from deployment at e p) (lookup p.payable_id w.store.settlements)))
        × ((q : ProofRecord) × (lookup id s.proofs ≡ some q) × (q.status ≡ ProofStatus.settled))
        × (has (fingerprint_of p) s.settled_fingerprints ≡ true)
  index_event-settled at e id p w payable present type new found =
      let w' : Progress = record {
        store = record (w.store) {
          events = insert e.id (event_record deployment e) w.store.events;
        };
        report = record (w.report) { recorded = w.report.recorded + 1 };
      } in
      let steps =
        index_event-new at e w new
        ∙ project-settlement at e id w' payable present type
        ∙ ap (λ o. project_settlement deployment at e id o w') found in
      rw steps (project_settlement-known at e id p w' found)

  -- A settlement that is recorded stays as it is, whatever events are indexed.
  module _ (k : String) (x : SettlementRecord) where
    abbrev Keeps : Store → Type 0
    Keeps s = lookup k s.settlements ≡ some x

    project_status-Keeps :
        (e : GateEvent) (id : String) (status : ProofStatus) (o : Option ProofRecord) (s : Store)
        → Keeps s
        → Keeps (project_status e id status o s)
    project_status-Keeps e id status none s h = h
    project_status-Keeps e id status (some p) s h = ground (
      arith,
      set_proof_status-settlements id status (if is_registered status then some e.tx_hash else none)
          s,
    )

    record_unless-Keeps :
        (o : Option SettlementRecord) (at : ℕ) (e : GateEvent) (p : ProofRecord) (w : Progress)
        → Keeps w.store
        → Keeps (record_unless deployment o at e p w).store
    record_unless-Keeps (some known) at e p w h = h
    record_unless-Keeps none at e p w h =
        record_settlement-keeps (settlement_from deployment at e p) w.store k x h

    project_settlement-Keeps :
        (at : ℕ) (e : GateEvent) (id : String) (o : Option ProofRecord) (w : Progress)
        → Keeps w.store
        → Keeps (project_settlement deployment at e id o w).store
    project_settlement-Keeps at e id none w h = h
    project_settlement-Keeps at e id (some p) w h =
        let w' = record_unless deployment (lookup p.payable_id w.store.settlements) at e p w in
        ap (λ m. lookup k m)
          (add_settled_fingerprint-settlements (fingerprint_of p) (note_of p e)
              (set_proof_status id ProofStatus.settled none w'.store)
            ∙ set_proof_status-settlements id ProofStatus.settled none w'.store)
        ∙ record_unless-Keeps (lookup p.payable_id w.store.settlements) at e p w h

    project_by-Keeps :
        (o : Option ProofStatus) (at : ℕ) (e : GateEvent) (id : String) (w : Progress)
        → Keeps w.store
        → Keeps (project_by deployment o at e id w).store
    project_by-Keeps (some status) at e id w h =
        project_status-Keeps e id status (lookup id w.store.proofs) w.store h
    project_by-Keeps none at e id w h =
        ground (arith, project_settlement-Keeps at e id (lookup id w.store.proofs) w h)

    project_for-Keeps :
        (o : Option String) (at : ℕ) (e : GateEvent) (w : Progress)
        → Keeps w.store
        → Keeps (project_for deployment o at e w).store
    project_for-Keeps none at e w h = h
    project_for-Keeps (some id) at e w h =
        ground (arith, project_by-Keeps (status_by_event e.type) at e id w h)

    index_event-Keeps :
        (at : ℕ) (e : GateEvent) (w : Progress)
        → Keeps w.store
        → Keeps (index_event deployment at e w).store
    unfolding index_event record_chain_event project
    index_event-Keeps at e w h = elim (Bool-cases (has e.id w.store.events)) [
      | inl known ↦ rw known h
      | inr new ↦ rw new (project_for-Keeps e.payable_id_hash at e _ h)
    ]

    -- A settlement that the store has recorded is never changed by indexing, whatever the events.
    pub index_events-settlements :
        (at : ℕ) (es : List GateEvent) (w : Progress)
        → lookup k w.store.settlements ≡ some x
        → lookup k (index_events deployment at es w).store.settlements ≡ some x
    unfolding index_events
    index_events-settlements at [] w h = h
    index_events-settlements at (e ∷ es) w h =
        index_events-settlements at es (index_event deployment at e w) (index_event-Keeps at e w h)

  -- A registration that is seen late.
  module _ (k : String) (p : ProofRecord) (past : is_signed p.status ≡ false) where
    set_proof_status-other :
        (id : String) (status : ProofStatus) (tx : Option String) (s : Store)
        → (id == k) ≡ false
        → lookup k (set_proof_status id status tx s).proofs ≡ lookup k s.proofs
    unfolding set_proof_status
    set_proof_status-other id status tx s other = elim (Option-cases (lookup id s.proofs)) [
      | inl absent ↦ rw (absent, set_proof_status) refl
      | inr (q, found) ↦
          let q' = record q {
            status = status;
            register_tx_hash = keep_hash tx q.register_tx_hash;
          } in
          rw (found, set_proof_status) (lookup-insert id k q' s.proofs ∙ rw other refl)
    ]

    project_status-late :
        (e : GateEvent) (id : String) (o : Option ProofRecord) (s : Store)
        → lookup id s.proofs ≡ o
        → lookup k s.proofs ≡ some p
        → lookup k (project_status e id ProofStatus.registered o s).proofs ≡ some p
    project_status-late e id none s found h = h
    project_status-late e id (some q) s found h = elim (Bool-cases (is_signed q.status)) [
      | inr other ↦ rw other h
      | inl signed ↦ rw signed (
          set_proof_status-other id ProofStatus.registered (some e.tx_hash) s
            (ground (arith, eq_iff id k))
          ∙ h)
    ]

    project_for-late :
        (o : Option String) (at : ℕ) (e : GateEvent) (w : Progress)
        → status_by_event e.type ≡ some ProofStatus.registered
        → lookup k w.store.proofs ≡ some p
        → lookup k (project_for deployment o at e w).store.proofs ≡ some p
    project_for-late none at e w registered h = h
    project_for-late (some id) at e w registered h = elim (Bool-cases (id == "")) [
      | inl no_id ↦ rw no_id h
      | inr other ↦
          rw (other, registered)
            (project_status-late e id (lookup id w.store.proofs) w.store refl h)
    ]

    -- A registration event never changes a proof that is past SIGNED, so a late one does not undo
    -- SETTLED, REVOKED or EXPIRED.
    pub index_event-late :
        (at : ℕ) (e : GateEvent) (w : Progress)
        → e.type ≡ "payable_registered"
        → lookup k w.store.proofs ≡ some p
        → lookup k (index_event deployment at e w).store.proofs ≡ some p
    unfolding index_event record_chain_event project
    index_event-late at e w type h = elim (Bool-cases (has e.id w.store.events)) [
      | inl known ↦ rw known h
      | inr new ↦ rw new (project_for-late e.payable_id_hash at e _ (ap status_by_event type) h)
    ]
