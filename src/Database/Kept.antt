-- ===== src/Database/Kept.antt =====
-- packages/db/src/settlements.ts: what is settled is not settled again, whatever writes to the table.
use pakta.Base.{
  ℕ, String, ◌==◌, some, List, [], ◌∷◌, ◌++◌, ◌≡◌, refl, ◌∙◌, ap, any, eq_iff, Bool-cases, inl, inr,
  is_some,
}
use pakta.Canonical.Proof.{is_settlement, ErpPostingStatus}
use pakta.Settlement.Store.{SettlementRecord}
use pakta.Database.Tables.{
  Tables, SettlementRow, row_of, row_of-append, row_of-insert_or, row_of-update_where,
}
use pakta.Database.Settlements.{
  RecordSettlementInput, row_of_input, settlement_of_row, record_settlement, get_settlement,
  update_erp_posting_status,
}
use pakta.Database.SettlementStore
use pakta.Database.SettlementStore.{row_of_record, set_erp_posting_status}
use pakta.Database.Postings.{
  Posting, records_settlement, posts, stores, posts_stored, inserts, post, post_all,
  insert_settlement,
}

-- The payable's row is the given one, but perhaps for the status of its posting.
abbrev pub HasRow : String → SettlementRow → Tables → Type 0
HasRow id row db =
    (status : ErpPostingStatus) × (row_of (λ r. r.payable_id) id db.settlements
      ≡ some (record row { erp_posting_status = status }))

module _ (id : String) (row : SettlementRow) (db : Tables) (h : HasRow id row db) where
  append-HasRow :
      (y : SettlementRow) → HasRow id row (record db { settlements = db.settlements ++ y ∷ [] })
  append-HasRow y = (h.0, row_of-append (λ r. r.payable_id) id db.settlements y ∙ rw h.1 refl)

  record_settlement-HasRow :
      (input : RecordSettlementInput) (now : ℕ) → HasRow id row (record_settlement db input now).1
  unfolding record_settlement
  record_settlement-HasRow input now =
      let y = row_of_input input now in
      elim (Bool-cases (is_settlement (settlement_of_row y input.proof_hash input.contract_id))) [
        | inr invalid ↦ rw invalid h
        | inl valid ↦
            elim (Bool-cases (any (λ r. r.payable_id == input.payable_id) db.settlements)) [
              | inl settled ↦ rw (valid, settled) h
              | inr new ↦ elim (Bool-cases (any (λ r. r.tx_hash == input.tx_hash) db.settlements)) [
                | inl used ↦ rw (valid, new, used) h
                | inr unused ↦ rw (valid, new, unused) (append-HasRow y)
              ]
            ]
      ]

  insert_settlement-HasRow : (y : SettlementRow) → HasRow id row (insert_settlement y db)
  unfolding insert_settlement
  insert_settlement-HasRow y =
      elim (Bool-cases (is_some (row_of (λ r. r.payable_id) y.payable_id db.settlements))) [
        | inl there ↦ rw there h
        | inr new ↦ rw new (append-HasRow y)
      ]

  store-HasRow : (r : SettlementRecord) → HasRow id row (SettlementStore.record_settlement r db)
  unfolding SettlementStore.record_settlement
  store-HasRow r =
      let found =
        row_of-insert_or (λ x. x.payable_id) (row_of_record r) (λ x. x) db.settlements id
          (λ x. refl) in
      elim (Bool-cases (r.payable_id == id)) [
        | inr apart ↦ (h.0, found ∙ rw apart h.1)
        | inl same ↦
            let is : r.payable_id ≡ id = (eq_iff r.payable_id id).0 same in
            let there : row_of (λ x. x.payable_id) r.payable_id db.settlements
                ≡ some (record row { erp_posting_status = h.0 }) =
              ap (λ k. row_of (λ x. x.payable_id) k db.settlements) is ∙ h.1 in
            (h.0, found ∙ rw (same, there) refl)
      ]

  update-HasRow :
      (other : String) (status : ErpPostingStatus)
      → HasRow id row (set_erp_posting_status other status db)
  unfolding set_erp_posting_status
  update-HasRow other status =
      let change : SettlementRow → SettlementRow = λ r. record r { erp_posting_status = status } in
      let found =
        row_of-update_where (λ x. x.payable_id) other id change db.settlements (λ r. refl) in
      elim (Bool-cases (other == id)) [
        | inr apart ↦ (h.0, found ∙ rw apart h.1)
        | inl same ↦
            let is : other ≡ id = (eq_iff other id).0 same in
            let there : row_of (λ x. x.payable_id) other db.settlements
                ≡ some (record row { erp_posting_status = h.0 }) =
              ap (λ k. row_of (λ x. x.payable_id) k db.settlements) is ∙ h.1 in
            (status, found ∙ rw (same, there) refl)
      ]

  update_erp_posting_status-HasRow :
      (other : String) (status : ErpPostingStatus)
      → HasRow id row (update_erp_posting_status db other status).1
  unfolding update_erp_posting_status set_erp_posting_status
  update_erp_posting_status-HasRow other status =
      elim (Bool-cases (is_some (get_settlement db other))) [
        | inl present ↦ rw present (update-HasRow other status)
        | inr absent ↦ rw absent h
      ]

  post-HasRow : (p : Posting) → HasRow id row (post p db)
  unfolding post
  post-HasRow (records_settlement input now) = record_settlement-HasRow input now
  post-HasRow (posts other status) = update_erp_posting_status-HasRow other status
  post-HasRow (stores r) = store-HasRow r
  post-HasRow (posts_stored other status) = update-HasRow other status
  post-HasRow (inserts y) = insert_settlement-HasRow y

-- Once a payable has a row in the table of settlements, whatever calls follow, of recordSettlement,
-- updateErpPostingStatus and the store's methods, also where other writes come between the SELECT and
-- the INSERT of recordSettlement: its row stays as it is, but for the status of its posting.
pub post_all-HasRow :
    (ps : List Posting) (id : String) (row : SettlementRow) (db : Tables)
    → HasRow id row db
    → HasRow id row (post_all ps db)
unfolding post_all
post_all-HasRow [] id row db h = h
post_all-HasRow (p ∷ ps) id row db h =
    post_all-HasRow ps id row (post p db) (post-HasRow id row db h p)
