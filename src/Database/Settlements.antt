-- ===== src/Database/Settlements.antt =====
-- packages/db/src/settlements.ts: the functions that return the shared Settlement.
use pakta.Base.{
  ℕ, String, Bool, not, ◌&&◌, ◌||◌, ◌==◌, Option, none, some, List, [], ◌∷◌, ◌++◌, any, sort_by,
  ltb, eqb, if◌then◌else◌, get_or, is_some,
}
use pakta.Base.Outcome.{Outcome, ok, threw, other}
use pakta.Canonical.Proof.{Settlement, is_settlement, ErpPostingStatus}
use pakta.Database.Tables.{Tables, SettlementRow, row_of, update_where}

-- What `Settlement.safeParse` is given: NULL is no text.
abbrev pub settlement_of_row : SettlementRow → String → String → Settlement
settlement_of_row row proof_hash contract_id = record {
  payable_id = row.payable_id;
  invoice_id = row.invoice_id;
  po_id = row.po_id;
  proof_hash = proof_hash;
  contract_id = contract_id;
  asset = row.asset;
  amount = row.amount;
  tx_hash = row.tx_hash;
  ledger = row.ledger;
  erp_posting_status = row.erp_posting_status;
}

abbrev pub parsed : Settlement → Option Settlement
parsed s = if is_settlement s then some s else none

abbrev pub parse_row : SettlementRow → Option String → Option String → Option Settlement
parse_row row (some proof_hash) (some contract_id) =
    parsed (settlement_of_row row proof_hash contract_id)
parse_row row _ _ = none

-- `toSettlement`
unfoldable pub to_settlement : SettlementRow → Option Settlement
to_settlement row = parse_row row row.proof_hash row.contract_id

abbrev pub settled_row : Option SettlementRow → Option Settlement
settled_row none = none
settled_row (some row) = to_settlement row

unfoldable pub get_settlement : Tables → String → Option Settlement
get_settlement db payable_id = settled_row (row_of (λ r. r.payable_id) payable_id db.settlements)

-- `.map(f).filter((s) => s !== undefined)`
abbrev pub filter_map : {A B : Type 0} → (A → Option B) → List A → List B
filter_map f [] = []
filter_map f (x ∷ xs) = elim (f x) [ none ↦ filter_map f xs | some y ↦ y ∷ filter_map f xs ]

-- `ORDER BY ledger, payable_id`, by the database's order of texts.
abbrev pub by_ledger : (String → String → Bool) → SettlementRow → SettlementRow → Bool
by_ledger before a b =
    ltb a.ledger b.ledger || (eqb a.ledger b.ledger && before a.payable_id b.payable_id)

unfoldable pub list_settlements : (String → String → Bool) → Tables → List Settlement
list_settlements before db = filter_map to_settlement (sort_by (by_ledger before) db.settlements)

pub record RecordSettlementInput : Type 0 where
  pub payable_id : String
  pub invoice_id : String
  pub po_id : String
  pub asset : String
  pub amount : String
  pub tx_hash : String
  pub ledger : ℕ
  pub proof_hash : String
  pub contract_id : String
  pub erp_posting_status : Option ErpPostingStatus

abbrev pub row_of_input : RecordSettlementInput → ℕ → SettlementRow
row_of_input input now = record {
  payable_id = input.payable_id;
  invoice_id = input.invoice_id;
  po_id = input.po_id;
  asset = input.asset;
  amount = input.amount;
  tx_hash = input.tx_hash;
  ledger = input.ledger;
  erp_posting_status = get_or ErpPostingStatus.pending input.erp_posting_status;
  settled_at = now;
  proof_hash = some input.proof_hash;
  contract_id = some input.contract_id;
}

-- `recordSettlement`: a second record for a payable, or of a transaction, is refused.
unfoldable pub record_settlement : Tables → RecordSettlementInput → ℕ → Outcome Settlement × Tables
record_settlement db input now =
    let row = row_of_input input now in
    let candidate = settlement_of_row row input.proof_hash input.contract_id in
    if not (is_settlement candidate)
    then (threw (other "not a valid v1.1 Settlement"), db)
    else if any (λ r. r.payable_id == input.payable_id) db.settlements
    then (threw (other "AlreadySettledError: the payable is already settled"), db)
    else if any (λ r. r.tx_hash == input.tx_hash) db.settlements
    then (threw (other "AlreadySettledError: the transaction already settled another"), db)
    else (ok candidate, record db { settlements = db.settlements ++ row ∷ [] })

abbrev settled_or_none : Option Settlement → Outcome Settlement
settled_or_none none = threw (other "undefined")
settled_or_none (some s) = ok s

-- `updateErpPostingStatus`
unfoldable pub update_erp_posting_status :
    Tables → String → ErpPostingStatus → Outcome Settlement × Tables
update_erp_posting_status db payable_id status =
    if not (is_some (get_settlement db payable_id))
    then (threw (other "NoSettlementError: no settlement to update"), db)
    else let db' = record db {
      settlements =
          update_where (λ r. r.payable_id) payable_id
            (λ r. record r { erp_posting_status = status }) db.settlements;
    } in
      (settled_or_none (get_settlement db' payable_id), db')
