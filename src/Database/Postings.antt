-- ===== src/Database/Postings.antt =====
-- packages/db/src/settlements.ts: recordSettlement and updateErpPostingStatus, one after another.
use pakta.Base.{
  ℕ, String, false, Bool, ◌==◌, List, [], ◌∷◌, ◌++◌, ◌≡◌, refl, ◌∙◌, any, eq_iff, eq_refl,
  Bool-cases, inl, inr, is_some, arith, All, if◌then◌else◌,
}
use pakta.Settlement.Store.{SettlementRecord}
use pakta.Database.SettlementStore
use pakta.Database.SettlementStore.{set_erp_posting_status}
use pakta.Canonical.Proof.{is_settlement, ErpPostingStatus}
use pakta.Database.Tables.{Tables, SettlementRow, row_of, update_where}
use pakta.Database.Settlements.{
  RecordSettlementInput, row_of_input, settlement_of_row, record_settlement, get_settlement,
  update_erp_posting_status,
}

module _ {A : Type 0} (key : A → String) where
  -- No two rows have one key.
  abbrev pub AreDistinct : List A → Type 0
  AreDistinct [] = Unit
  AreDistinct (x ∷ xs) = (any (λ r. key r == key x) xs ≡ false) × AreDistinct xs

  any-append :
      (test : A → Bool) (xs : List A) (y : A)
      → any test xs ≡ false
      → test y ≡ false
      → any test (xs ++ y ∷ []) ≡ false
  any-append test [] y h hy = rw hy refl
  any-append test (x ∷ xs) y h hy = ground (arith, any-append test xs y)

  append-AreDistinct :
      (xs : List A) (y : A)
      → any (λ r. key r == key y) xs ≡ false
      → AreDistinct xs
      → AreDistinct (xs ++ y ∷ [])
  append-AreDistinct [] y h hs = (refl, tt)
  append-AreDistinct (x ∷ xs) y h hs = elim (Bool-cases (key y == key x)) [
    | inl same ↦
        let is : key y ≡ key x = (eq_iff (key y) (key x)).0 same in cc (h, is, eq_refl (key x))
    | inr apart ↦ elim (Bool-cases (key x == key y)) [
      | inl here ↦ cc (h, here)
      | inr past ↦ (
        any-append (λ r. key r == key x) xs y hs.0 apart,
        append-AreDistinct xs y (cc (h, past)) hs.1,
      )
    ]
  ]

  module _ (by : A → String) (id : String) (change : A → A)
      (same : (r : A) → key (change r) ≡ key r) where
    any-update_where :
        (k : String) (rows : List A)
        → any (λ r. key r == k) (update_where by id change rows) ≡ any (λ r. key r == k) rows
    any-update_where k [] = refl
    any-update_where k (r ∷ rows) = elim (Bool-cases (by r == id)) [
      | inl here ↦ rw (here, same r, any-update_where k rows) refl
      | inr past ↦ rw (past, any-update_where k rows) refl
    ]

    update_where-AreDistinct :
        (rows : List A) → AreDistinct rows → AreDistinct (update_where by id change rows)
    update_where-AreDistinct [] hs = tt
    update_where-AreDistinct (r ∷ rows) hs = elim (Bool-cases (by r == id)) [
      | inl here ↦
          rw (here, same r)
            (any-update_where (key r) rows ∙ hs.0, update_where-AreDistinct rows hs.1)
      | inr past ↦
          rw past (any-update_where (key r) rows ∙ hs.0, update_where-AreDistinct rows hs.1)
    ]

-- The INSERT of recordSettlement by itself, whatever its SELECT saw before: the primary key refuses a
-- second row for a payable.
unfoldable pub insert_settlement : SettlementRow → Tables → Tables
insert_settlement row db =
    if is_some (row_of (λ r. r.payable_id) row.payable_id db.settlements)
    then db
    else record db { settlements = db.settlements ++ row ∷ [] }

-- What writes to the table of settlements: whole calls of recordSettlement and
-- updateErpPostingStatus, the two methods of createSettlementStore, and an INSERT of recordSettlement
-- that other writes separate from its SELECT.
pub data Posting : Type 0 where
  records_settlement : RecordSettlementInput → ℕ → Posting
  posts : String → ErpPostingStatus → Posting
  stores : SettlementRecord → Posting
  posts_stored : String → ErpPostingStatus → Posting
  inserts : SettlementRow → Posting

unfoldable pub post : Posting → Tables → Tables
post (records_settlement input now) db = (record_settlement db input now).1
post (posts id status) db = (update_erp_posting_status db id status).1
post (stores r) db = SettlementStore.record_settlement r db
post (posts_stored id status) db = set_erp_posting_status id status db
post (inserts row) db = insert_settlement row db

unfoldable pub post_all : List Posting → Tables → Tables
post_all [] db = db
post_all (p ∷ ps) db = post_all ps (post p db)

-- A whole call of recordSettlement or of updateErpPostingStatus.
abbrev pub IsWhole : Posting → Type 0
IsWhole (records_settlement input now) = Unit
IsWhole (posts id status) = Unit
IsWhole _ = ⊥

-- No payable and no transaction has two settlements.
pub record IsOnce (db : Tables) : Type 0 where
  pub payables : AreDistinct (λ r. r.payable_id) db.settlements
  pub transactions : AreDistinct (λ r. r.tx_hash) db.settlements

record_settlement-IsOnce :
    (db : Tables) (input : RecordSettlementInput) (now : ℕ)
    → IsOnce db
    → IsOnce (record_settlement db input now).1
unfolding record_settlement
record_settlement-IsOnce db input now once =
    let row = row_of_input input now in
    elim (Bool-cases (is_settlement (settlement_of_row row input.proof_hash input.contract_id))) [
      | inr invalid ↦ rw invalid once
      | inl valid ↦ elim (Bool-cases (any (λ r. r.payable_id == input.payable_id) db.settlements)) [
        | inl settled ↦ rw (valid, settled) once
        | inr new ↦ elim (Bool-cases (any (λ r. r.tx_hash == input.tx_hash) db.settlements)) [
          | inl used ↦ rw (valid, new, used) once
          | inr unused ↦
              rw (valid, new, unused)
                (record {
                  payables =
                      append-AreDistinct (λ r. r.payable_id) db.settlements row new once.payables;
                  transactions =
                      append-AreDistinct (λ r. r.tx_hash) db.settlements row unused
                        once.transactions;
                })
        ]
      ]
    ]

update_erp_posting_status-IsOnce :
    (db : Tables) (id : String) (status : ErpPostingStatus)
    → IsOnce db
    → IsOnce (update_erp_posting_status db id status).1
unfolding update_erp_posting_status
update_erp_posting_status-IsOnce db id status once =
    elim (Bool-cases (is_some (get_settlement db id))) [
      | inr absent ↦ rw absent once
      | inl present ↦
          let change : SettlementRow → SettlementRow =
            λ r. record r { erp_posting_status = status } in
          rw present (record {
            payables =
                update_where-AreDistinct (λ r. r.payable_id) (λ r. r.payable_id) id change
                  (λ r. refl) db.settlements once.payables;
            transactions =
                update_where-AreDistinct (λ r. r.tx_hash) (λ r. r.payable_id) id change (λ r. refl)
                  db.settlements once.transactions;
          })
    ]

-- However whole calls of recordSettlement and updateErpPostingStatus follow each other, also with
-- calls that are refused: from tables where no payable and no transaction has two settlements, none
-- has. A settlement that the store of createSettlementStore records is not among the calls: that
-- method does not look at the transaction.
pub post_all-IsOnce :
    (ps : List Posting) (db : Tables) → All IsWhole ps → IsOnce db → IsOnce (post_all ps db)
unfolding post post_all
post_all-IsOnce [] db whole once = once
post_all-IsOnce (records_settlement input now ∷ ps) db whole once =
    post_all-IsOnce ps (record_settlement db input now).1 whole.1
      (record_settlement-IsOnce db input now once)
post_all-IsOnce (posts id status ∷ ps) db whole once =
    post_all-IsOnce ps (update_erp_posting_status db id status).1 whole.1
      (update_erp_posting_status-IsOnce db id status once)
post_all-IsOnce (stores r ∷ ps) db whole once = elim (whole.0) [ ]
post_all-IsOnce (posts_stored id status ∷ ps) db whole once = elim (whole.0) [ ]
post_all-IsOnce (inserts row ∷ ps) db whole once = elim (whole.0) [ ]
