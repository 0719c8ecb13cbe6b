-- ===== src/Settlement/Indexer.antt =====
-- packages/settlement/src/indexer.ts: EventIndexer, which projects the gate's events into the store.
-- Where the events come from is a parameter.
pub mod Replay
pub mod Projection
use pakta.Base.{
  ℕ, zero, suc, ◌+◌, String, Bool, true, false, not, ◌&&◌, ◌||◌, ◌==◌, Option, none, some, List, [],
  ◌∷◌, ◌++◌, length, if◌then◌else◌,
}
use Prim.Native.String
use pakta.Base.Map.{has}
use pakta.Base.Outcome.{Outcome, ok, threw}
use pakta.Canonical.Proof.{ErpPostingStatus}
use pakta.Settlement.Deployment.{Deployment}
use pakta.Settlement.Action.{
  World, Action, return, ask_gate, read, modify_store, proceed, ◌>>=◌, ◌>>◌,
}
use pakta.Settlement.Store.{
  Store, ProofStatus, ProofRecord, SettlementRecord, ChainEventRecord, Cursor, is_registered,
  get_proof_by_id_hash, set_proof_status, record_settlement, get_settlement, record_chain_event,
  get_cursor, set_cursor, add_settled_fingerprint,
}

-- A decoded event of the gate; its payload is stored and never read, so it is left out.
pub record GateEvent : Type 0 where
  pub id : String
  pub type : String
  pub ledger : ℕ
  pub tx_hash : String
  pub payable_id_hash : Option String

pub record EventPage : Type 0 where
  pub events : List GateEvent
  pub cursor : Option String
  pub latest_ledger : ℕ

-- Where events come from, and the clock in milliseconds. Each fetch may change the outside world.
pub record EventSource (G : Type 0) : Type 0 where
  pub fetch : Option String → G → Outcome EventPage × G
  pub now : G → ℕ

pub record IndexerReport : Type 0 where
  pub fetched : ℕ
  pub recorded : ℕ
  pub settlements_recorded : List String
  pub unknown_settlements : List String

-- What the loop over a page's events changes.
pub record Progress : Type 0 where
  pub store : Store
  pub report : IndexerReport

-- `PROOF_STATUS_BY_EVENT[type]`
abbrev pub status_by_event : String → Option ProofStatus
status_by_event type =
    if type == "payable_registered"
    then some ProofStatus.registered
    else if type == "payable_revoked"
    then some ProofStatus.revoked
    else if type == "payable_expired"
    then some ProofStatus.expired
    else none

abbrev pub is_signed : ProofStatus → Bool
is_signed ProofStatus.signed = true
is_signed _ = false

-- A late REGISTERED changes only a proof that is still SIGNED.
abbrev pub project_status : GateEvent → String → ProofStatus → Option ProofRecord → Store → Store
project_status e id status none s = s
project_status e id status (some p) s =
    if not (is_registered status) || is_signed p.status
    then set_proof_status id status (if is_registered status then some e.tx_hash else none) s
    else s

abbrev pub note_of : ProofRecord → GateEvent → String
note_of p e = String.◌++◌ p.payable_id (String.◌++◌ " settled in " e.tx_hash)

abbrev pub fingerprint_of : ProofRecord → String
fingerprint_of p = String.◌++◌ p.vendor_id (String.◌++◌ "|" p.amount)

module _ (deployment : Deployment) where
  abbrev pub settlement_from : ℕ → GateEvent → ProofRecord → SettlementRecord
  settlement_from at e p = record {
    payable_id = p.payable_id;
    invoice_id = p.invoice_id;
    po_id = p.po_id;
    proof_hash = p.proof_hash;
    contract_id = deployment.contract_id;
    asset = p.asset;
    amount = p.amount;
    tx_hash = e.tx_hash;
    ledger = e.ledger;
    erp_posting_status = ErpPostingStatus.pending;
    settled_at = at;
  }

  abbrev pub record_unless :
      Option SettlementRecord → ℕ → GateEvent → ProofRecord → Progress → Progress
  record_unless (some known) at e p w = w
  record_unless none at e p w = record {
    store = record_settlement (settlement_from at e p) w.store;
    report = record (w.report) {
      settlements_recorded = w.report.settlements_recorded ++ p.payable_id ∷ [];
    };
  }

  abbrev pub settle_proof : String → GateEvent → ProofRecord → Progress → Progress
  settle_proof id e p w = record w {
    store =
        add_settled_fingerprint (fingerprint_of p) (note_of p e)
          (set_proof_status id ProofStatus.settled none w.store);
  }

  abbrev pub project_settlement : ℕ → GateEvent → String → Option ProofRecord → Progress → Progress
  project_settlement at e id none w = record w {
    report = record (w.report) { unknown_settlements = w.report.unknown_settlements ++ id ∷ [] };
  }
  project_settlement at e id (some p) w =
      settle_proof id e p (record_unless (get_settlement p.payable_id w.store) at e p w)

  abbrev pub project_by : Option ProofStatus → ℕ → GateEvent → String → Progress → Progress
  project_by (some status) at e id w = record w {
    store = project_status e id status (get_proof_by_id_hash id w.store) w.store;
  }
  project_by none at e id w =
      if e.type == "settlement_executed"
      then project_settlement at e id (get_proof_by_id_hash id w.store) w
      else w

  -- `#project`: an event with no payable, or with an empty text for it, is passed over.
  abbrev pub project_for : Option String → ℕ → GateEvent → Progress → Progress
  project_for none at e w = w
  project_for (some id) at e w =
      if id == "" then w else project_by (status_by_event e.type) at e id w

  unfoldable pub project : ℕ → GateEvent → Progress → Progress
  project at e w = project_for e.payable_id_hash at e w

  abbrev pub event_record : GateEvent → ChainEventRecord
  event_record e = record {
    id = e.id;
    type = e.type;
    ledger = e.ledger;
    tx_hash = e.tx_hash;
    payable_id_hash = e.payable_id_hash;
  }

  -- One round of the loop over a page: an event that is already recorded is passed over.
  abbrev pub count_new : Bool → ℕ → GateEvent → Progress → Progress
  count_new false at e w = w
  count_new true at e w =
      project at e (record w { report = record (w.report) { recorded = w.report.recorded + 1 } })

  unfoldable pub index_event : ℕ → GateEvent → Progress → Progress
  index_event at e w =
      let (is_new, s) = record_chain_event (event_record e) w.store in
      count_new is_new at e (record w { store = s })

  unfoldable pub index_events : ℕ → List GateEvent → Progress → Progress
  index_events at [] w = w
  index_events at (e ∷ es) w = index_events at es (index_event at e w)

  module _ {G : Type 0} (source : EventSource G) (name : String) where
    -- `result.cursor ?? cursor`
    abbrev pub next_cursor : EventPage → Option String → Option String
    next_cursor page cursor = elim page.cursor [ none ↦ cursor | some c ↦ some c ]

    abbrev pub same_cursor : Option String → Option String → Bool
    same_cursor none none = true
    same_cursor (some a) (some b) = a == b
    same_cursor _ _ = false

    abbrev is_empty : List GateEvent → Bool
    is_empty [] = true
    is_empty (e ∷ es) = false

    -- What a page changes: the events' projection, then the cursor.
    unfoldable pub index_page : ℕ → EventPage → Option String → IndexerReport → Store → Progress
    index_page at page cursor report s =
        let w = index_events at page.events (record {
          store = s;
          report = record report { fetched = report.fetched + length page.events };
        }) in
        record w {
          store =
              set_cursor name
                (record { cursor = next_cursor page cursor; ledger = some page.latest_ledger })
                w.store;
        }

    is_caught_up : EventPage → Option String → Bool
    is_caught_up page cursor = same_cursor (next_cursor page cursor) cursor && is_empty page.events

    -- The loop over pages, at most `pages` of them.
    unfoldable pub poll_pages : ℕ → Option String → IndexerReport → Action G IndexerReport
    unfolding is_caught_up index_page
    poll_pages zero cursor report = return report
    poll_pages (suc pages) cursor report = do
      page ← ask_gate (source.fetch cursor)
      at ← read (λ w. source.now w.gate)
      progress ← read (λ w. index_page at page cursor report w.store)
      modify_store (λ _. progress.store)
      go_on (poll_pages pages (next_cursor page cursor) progress.report) page progress.report
      where
        go_on : Action G IndexerReport → EventPage → IndexerReport → Action G IndexerReport
        go_on more page report = if is_caught_up page cursor then return report else more

    abbrev pub no_report : IndexerReport
    no_report = record {
      fetched = 0;
      recorded = 0;
      settlements_recorded = [];
      unknown_settlements = [];
    }

    -- `?.cursor`
    abbrev cursor_of : Option Cursor → Option String
    cursor_of none = none
    cursor_of (some c) = c.cursor

    unfoldable pub poll : ℕ → Action G IndexerReport
    unfolding poll_pages
    poll max_pages = do
      cursor ← read (λ w. cursor_of (get_cursor name w.store))
      poll_pages max_pages cursor no_report
