-- ===== src/Settlement/Indexer/Replay.antt =====
-- Events that were indexed before.
use pakta.Base.{
  ℕ, String, true, ◌≡◌, refl, Option, none, some, List, [], ◌∷◌, All, arith, eq_refl, if◌then◌else◌,
  Bool-cases, inl, inr, ap, sym, ◌∙◌, ◌+◌, length,
}
use pakta.Base.Map.{lookup, has, insert, lookup-insert}
use pakta.Settlement.Deployment.{Deployment}
use pakta.Settlement.Store.{
  Store, ProofRecord, ProofStatus, SettlementRecord, set_proof_status, record_settlement,
  record_chain_event, set_cursor, is_registered, add_settled_fingerprint,
}
use pakta.Settlement.Indexer.{
  GateEvent, EventPage, EventSource, IndexerReport, index_page, next_cursor, Progress, project,
  project_for, project_by, project_status, project_settlement, record_unless, index_event,
  index_events, event_record, status_by_event,
}

has-insert {ℓ} :
    {V : Type ℓ} (k j : String) (v : V) (m : List (String × V))
    → has k m ≡ true
    → has k (insert j v m) ≡ true
has-insert k j v m h = ground (arith, lookup-insert j k v m)

has-insert_self {ℓ} :
    {V : Type ℓ} (k : String) (v : V) (m : List (String × V)) → has k (insert k v m) ≡ true
has-insert_self k v m = ground (arith, lookup-insert k k v m, eq_refl k)

set_proof_status-events :
    (id : String) (status : ProofStatus) (tx : Option String) (s : Store)
    → (set_proof_status id status tx s).events ≡ s.events
unfolding set_proof_status
set_proof_status-events id status tx s = ground arith

record_settlement-events :
    (r : SettlementRecord) (s : Store) → (record_settlement r s).events ≡ s.events
unfolding record_settlement
record_settlement-events r s = ground arith

add_settled_fingerprint-events :
    (fingerprint note : String) (s : Store)
    → (add_settled_fingerprint fingerprint note s).events ≡ s.events
unfolding add_settled_fingerprint
add_settled_fingerprint-events fingerprint note s = ground arith

module _ (deployment : Deployment) where
  project_status-events :
      (e : GateEvent) (id : String) (status : ProofStatus) (o : Option ProofRecord) (s : Store)
      → (project_status e id status o s).events ≡ s.events
  project_status-events e id status none s = refl
  project_status-events e id status (some p) s = ground (
    arith,
    set_proof_status-events id status (if is_registered status then some e.tx_hash else none) s,
  )

  record_unless-events :
      (o : Option SettlementRecord) (at : ℕ) (e : GateEvent) (p : ProofRecord) (w : Progress)
      → (record_unless deployment o at e p w).store.events ≡ w.store.events
  record_unless-events (some known) at e p w = refl
  record_unless-events none at e p w = record_settlement-events _ w.store

  project_settlement-events :
      (at : ℕ) (e : GateEvent) (id : String) (o : Option ProofRecord) (w : Progress)
      → (project_settlement deployment at e id o w).store.events ≡ w.store.events
  project_settlement-events at e id none w = refl
  project_settlement-events at e id (some p) w =
      rw (add_settled_fingerprint-events _ _ _, set_proof_status-events _ _ _ _)
        (record_unless-events _ at e p w)

  project_by-events :
      (o : Option ProofStatus) (at : ℕ) (e : GateEvent) (id : String) (w : Progress)
      → (project_by deployment o at e id w).store.events ≡ w.store.events
  project_by-events (some status) at e id w = project_status-events e id status _ w.store
  project_by-events none at e id w =
      ground (arith, project_settlement-events at e id (lookup id w.store.proofs) w)

  project-events :
      (at : ℕ) (e : GateEvent) (w : Progress)
      → (project deployment at e w).store.events ≡ w.store.events
  unfolding project
  project-events at e w = by_payable e.payable_id_hash
    where
      by_payable :
          (o : Option String) → (project_for deployment o at e w).store.events ≡ w.store.events
      by_payable none = refl
      by_payable (some id) = ground (arith, project_by-events (status_by_event e.type) at e id w)

  abbrev IsRecorded : Progress → GateEvent → Type 0
  IsRecorded w e = has e.id w.store.events ≡ true

  index_event-known :
      (at : ℕ) (e : GateEvent) (w : Progress) → IsRecorded w e → index_event deployment at e w ≡ w
  unfolding index_event record_chain_event
  index_event-known at e w h = rw h refl

  index_events-known :
      (at : ℕ) (es : List GateEvent) (w : Progress)
      → All (IsRecorded w) es
      → index_events deployment at es w ≡ w
  unfolding index_events
  index_events-known at [] w h = refl
  index_events-known at (e ∷ es) w h =
      rw (index_event-known at e w h.0) (index_events-known at es w h.1)

  -- Indexing an event records it, and forgets no other.
  index_event-events :
      (at : ℕ) (e : GateEvent) (w : Progress)
      → (index_event deployment at e w).store.events ≡ (
          if has e.id w.store.events
          then w.store.events
          else insert e.id (event_record deployment e) w.store.events)
  unfolding index_event record_chain_event
  index_event-events at e w = elim (Bool-cases (has e.id w.store.events)) [
    | inl known ↦ rw known refl
    | inr new ↦ rw new (project-events at e _)
  ]

  index_event-keeps :
      (at : ℕ) (e : GateEvent) (w : Progress) (k : String)
      → has k w.store.events ≡ true
      → has k (index_event deployment at e w).store.events ≡ true
  index_event-keeps at e w k h =
      rw (index_event-events at e w)
        (ground (arith, has-insert k e.id (event_record deployment e) w.store.events))

  index_event-IsRecorded :
      (at : ℕ) (e : GateEvent) (w : Progress) → IsRecorded (index_event deployment at e w) e
  index_event-IsRecorded at e w =
      rw (index_event-events at e w)
        (ground (arith, has-insert_self e.id (event_record deployment e) w.store.events))

  index_events-keeps :
      (at : ℕ) (es : List GateEvent) (w : Progress) (k : String)
      → has k w.store.events ≡ true
      → has k (index_events deployment at es w).store.events ≡ true
  unfolding index_events
  index_events-keeps at [] w k h = h
  index_events-keeps at (e ∷ es) w k h =
      index_events-keeps at es (index_event deployment at e w) k (index_event-keeps at e w k h)

  index_events-IsRecorded :
      (at : ℕ) (es : List GateEvent) (w : Progress)
      → All (IsRecorded (index_events deployment at es w)) es
  unfolding index_events
  index_events-IsRecorded at [] w = tt
  index_events-IsRecorded at (e ∷ es) w = (
    index_events-keeps at es (index_event deployment at e w) e.id (index_event-IsRecorded at e w),
    index_events-IsRecorded at es (index_event deployment at e w),
  )

  All-kept :
      (at : ℕ) (es between : List GateEvent) (v w : Progress)
      → v.store.events ≡ w.store.events
      → All (IsRecorded v) es
      → All (IsRecorded (index_events deployment at between w)) es
  All-kept at [] between v w same h = tt
  All-kept at (e ∷ es) between v w same h = (
    index_events-keeps at between w e.id (ap (has e.id) (sym same) ∙ h.0),
    All-kept at es between v w same h.1,
  )

  module _ {G : Type 0} (source : EventSource G) (name : String) where
    -- A page's events once they are indexed: to index the page again, whenever, after whatever other
    -- page, and from whatever cursor, writes the cursor of the page and counts its events as fetched,
    -- and changes nothing else: no proof, settlement, event or fingerprint of the store, and no other
    -- part of the report.
    pub index_page-index_page :
        (first between_at again : ℕ) (page between : EventPage) (c c' c'' : Option String)
        (report report' report'' : IndexerReport) (s : Store)
        → let w = index_page deployment source name first page c report s in
          let v = index_page deployment source name between_at between c' report' w.store in
          index_page deployment source name again page c'' report'' v.store ≡ record {
            store =
                set_cursor name
                  (record {
                    cursor = next_cursor deployment source name page c'';
                    ledger = some page.latest_ledger;
                  })
                  v.store;
            report = record report'' { fetched = report''.fetched + length page.events };
          }
    unfolding index_page set_cursor
    index_page-index_page first between_at again page between c c' c'' report report' report'' s =
        let start : Progress = record {
          store = s;
          report = record report { fetched = report.fetched + length page.events };
        } in
        let w = index_events deployment first page.events start in
        let w' : Progress = record {
          store =
              set_cursor name
                (record {
                  cursor = next_cursor deployment source name page c;
                  ledger = some page.latest_ledger;
                })
                w.store;
          report = record report' { fetched = report'.fetched + length between.events };
        } in
        let v = index_events deployment between_at between.events w' in
        let v' : Progress = record {
          store =
              set_cursor name
                (record {
                  cursor = next_cursor deployment source name between c';
                  ledger = some between.latest_ledger;
                })
                v.store;
          report = record report'' { fetched = report''.fetched + length page.events };
        } in
        let kept : All (IsRecorded v') page.events =
          All-kept between_at page.events between.events w w' refl
            (index_events-IsRecorded first page.events start) in
        rw (index_events-known again page.events v' kept) refl
