-- ===== src/Settlement/Store.antt =====
-- packages/settlement/src/store.ts and memoryStore.ts: what the settlement path remembers.
-- A `Map` is an association list in insertion order (Base/Map).
pub mod Laws
use pakta.Base.{
  ℕ, String, Bool, true, false, Option, none, some, List, [], ◌∷◌, ltb, if◌then◌else◌, ◌==◌, find,
  select, sort_by, head_of, ◌&&◌,
}
use pakta.Base.Int.{ℤ}
use pakta.Canonical.Proof.{ErpPostingStatus}
use pakta.Base.Map.{lookup, has, insert, values}

pub data ProofStatus : Type 0 where
  signed registered settled revoked expired : ProofStatus

pub record ProofRecord : Type 0 where
  pub payable_id : String
  pub payable_id_hash : String
  pub proof_hash : String
  pub invoice_id : String
  pub po_id : String
  pub vendor_id : String
  pub amount : String
  pub asset : String
  pub expiry : ℤ
  pub status : ProofStatus
  pub register_tx_hash : Option String

pub record SettlementRecord : Type 0 where
  pub payable_id : String
  pub invoice_id : String
  pub po_id : String
  pub proof_hash : String
  pub contract_id : String
  pub asset : String
  pub amount : String
  pub tx_hash : String
  pub ledger : ℕ
  pub erp_posting_status : ErpPostingStatus
  -- The instant, in milliseconds, whose ISO text the source keeps.
  pub settled_at : ℕ

-- The event's decoded payload is stored and never read, so it is left out.
pub record ChainEventRecord : Type 0 where
  pub id : String
  pub type : String
  pub ledger : ℕ
  pub tx_hash : String
  pub payable_id_hash : Option String

pub record Cursor : Type 0 where
  pub cursor : Option String
  pub ledger : Option ℕ

pub record Store : Type 0 where
  pub proofs : List (String × ProofRecord)
  pub settlements : List (String × SettlementRecord)
  pub events : List (String × ChainEventRecord)
  pub cursors : List (String × Cursor)
  pub settled_fingerprints : List (String × String)

abbrev pub empty : Store
empty = record {
  proofs = [];
  settlements = [];
  events = [];
  cursors = [];
  settled_fingerprints = [];
}

unfoldable pub upsert_proof : ProofRecord → Store → Store
upsert_proof proof s = record s { proofs = insert proof.payable_id_hash proof s.proofs }

abbrev pub get_proof_by_id_hash : String → Store → Option ProofRecord
get_proof_by_id_hash id s = lookup id s.proofs

abbrev pub get_proof : String → Store → Option ProofRecord
get_proof payable_id s = find (λ p. p.payable_id == payable_id) (values s.proofs)

-- `if (registerTxHash) proof.registerTxHash = registerTxHash`: an empty text does not count either.
abbrev pub keep_hash : Option String → Option String → Option String
keep_hash none old = old
keep_hash (some tx) old = if tx == "" then old else some tx

unfoldable pub set_proof_status : String → ProofStatus → Option String → Store → Store
set_proof_status id status tx s = elim (lookup id s.proofs) [
  | none ↦ s
  | some p ↦ record s {
    proofs =
        insert id (record p { status = status; register_tx_hash = keep_hash tx p.register_tx_hash })
          s.proofs;
  }
]

abbrev pub is_registered : ProofStatus → Bool
is_registered registered = true
is_registered _ = false

unfoldable pub list_open_registrations : Store → List ProofRecord
list_open_registrations s = select (λ p. is_registered p.status) (values s.proofs)

-- A second write for the same payable is ignored.
unfoldable pub record_settlement : SettlementRecord → Store → Store
record_settlement r s =
    if has r.payable_id s.settlements
    then s
    else record s { settlements = insert r.payable_id r s.settlements }

abbrev pub get_settlement : String → Store → Option SettlementRecord
get_settlement payable_id s = lookup payable_id s.settlements

unfoldable pub list_settlements : Store → List SettlementRecord
list_settlements s = values s.settlements

-- The answer is false if the event was recorded before.
unfoldable pub record_chain_event : ChainEventRecord → Store → Bool × Store
record_chain_event e s =
    if has e.id s.events then (false, s) else (true, record s { events = insert e.id e s.events })

abbrev is_event_of : String → String → ChainEventRecord → Bool
is_event_of id type e = elim e.payable_id_hash [ none ↦ false | some h ↦ h == id && e.type == type ]

-- The recorded event of that type with the highest ledger, the earliest recorded of those.
unfoldable pub find_chain_event : String → String → Store → Option ChainEventRecord
find_chain_event id type s =
    head_of
      (sort_by (λ a b. ltb b.ledger a.ledger) (select (is_event_of id type) (values s.events)))

abbrev pub get_cursor : String → Store → Option Cursor
get_cursor name s = lookup name s.cursors

unfoldable pub set_cursor : String → Cursor → Store → Store
set_cursor name c s = record s { cursors = insert name c s.cursors }

unfoldable pub add_settled_fingerprint : String → String → Store → Store
add_settled_fingerprint fingerprint note s =
    if has fingerprint s.settled_fingerprints
    then s
    else record s { settled_fingerprints = insert fingerprint note s.settled_fingerprints }
