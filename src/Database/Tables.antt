-- ===== src/Database/Tables.antt =====
-- Rows by a primary key, as the SQL of packages/db/src reads and writes them.
use pakta.Base.{
  ℕ, String, true, false, ◌==◌, Option, none, some, List, [], ◌∷◌, ◌++◌, ◌≡◌, refl, sym, ◌∙◌, ap,
  find, is_some, if◌then◌else◌, eq_iff, eq_refl, Bool-cases, Option-cases, inl, inr,
}
use pakta.Canonical.Proof.{ErpPostingStatus}
use pakta.Settlement.Store.{ProofRecord, ChainEventRecord, Cursor}

-- `SettlementRow`
pub record SettlementRow : Type 0 where
  pub payable_id : String
  pub invoice_id : String
  pub po_id : String
  pub asset : String
  pub amount : String
  pub tx_hash : String
  pub ledger : ℕ
  pub erp_posting_status : ErpPostingStatus
  pub settled_at : ℕ
  pub proof_hash : Option String
  pub contract_id : Option String

pub record CursorRow : Type 0 where
  pub name : String
  pub value : Cursor

pub record FingerprintRow : Type 0 where
  pub fingerprint : String
  pub note : String

pub record Tables : Type 0 where
  pub proofs : List ProofRecord
  pub settlements : List SettlementRow
  pub chain_events : List ChainEventRecord
  pub indexer_cursors : List CursorRow
  pub settled_fingerprints : List FingerprintRow

module _ {A : Type 0} (key : A → String) where
  -- `SELECT * FROM … WHERE key = $1`, the first row.
  abbrev pub row_of : String → List A → Option A
  row_of id rows = find (λ row. key row == id) rows

  -- `UPDATE … SET … WHERE key = $1`
  abbrev pub update_where : String → (A → A) → List A → List A
  update_where id change [] = []
  update_where id change (row ∷ rows) =
      (if key row == id then change row else row) ∷ update_where id change rows

  -- `INSERT … ON CONFLICT (key) DO UPDATE SET …`: the row that is there is changed.
  abbrev pub insert_or : A → (A → A) → List A → List A
  insert_or row change rows =
      if is_some (row_of (key row) rows)
      then update_where (key row) change rows
      else rows ++ row ∷ []

  -- What an upsert leaves under its key.
  abbrev pub written : A → (A → A) → Option A → A
  written row change none = row
  written row change (some old) = change old

  row_of-update_where_self :
      (id : String) (change : A → A) (rows : List A) (row : A)
      → ((r : A) → key (change r) ≡ key r)
      → row_of id rows ≡ some row
      → row_of id (update_where id change rows) ≡ some (change row)
  row_of-update_where_self id change [] row same h = cc h
  row_of-update_where_self id change (r ∷ rows) row same h = elim (Bool-cases (key r == id)) [
    | inl here ↦
        let hit : (key (change r) == id) ≡ true = cc (same r, here) in
        let found : r ≡ row = cc (h, here) in rw (here, hit) (ap (λ x. some (change x)) found)
    | inr past ↦ rw (past, past) (row_of-update_where_self id change rows row same (cc (h, past)))
  ]

  row_of-update_where_other :
      (id other : String) (change : A → A) (rows : List A)
      → ((r : A) → key (change r) ≡ key r)
      → (id == other) ≡ false
      → row_of other (update_where id change rows) ≡ row_of other rows
  row_of-update_where_other id other change [] same h = refl
  row_of-update_where_other id other change (r ∷ rows) same h =
      let later = row_of-update_where_other id other change rows same h in
      elim (Bool-cases (key r == id)) [
        | inr past ↦ rw past (ap (λ found. if key r == other then some r else found) later)
        | inl here ↦
            let at : key r ≡ id = (eq_iff (key r) id).0 here in
            let miss : (key r == other) ≡ false = cc (at, h) in
            let miss' : (key (change r) == other) ≡ false = cc (same r, miss) in
            rw (here, miss, miss') later
      ]

  pub row_of-append :
      (id : String) (rows : List A) (row : A)
      → row_of id (rows ++ row ∷ [])
        ≡ (if is_some (row_of id rows) then row_of id rows else row_of id (row ∷ []))
  row_of-append id [] row = refl
  row_of-append id (r ∷ rows) row = elim (Bool-cases (key r == id)) [
    | inl here ↦ rw here refl
    | inr past ↦ rw past (row_of-append id rows row)
  ]

  row_of-insert_or_self :
      (row : A) (change : A → A) (rows : List A)
      → ((r : A) → key (change r) ≡ key r)
      → row_of (key row) (insert_or row change rows)
        ≡ some (written row change (row_of (key row) rows))
  row_of-insert_or_self row change rows same = elim (Option-cases (row_of (key row) rows)) [
    | inl absent ↦
        let added : row_of (key row) (rows ++ row ∷ []) ≡ some row =
          row_of-append (key row) rows row ∙ rw absent (rw (eq_refl (key row)) refl) in
        rw absent added
    | inr (old, found) ↦
        let changed = row_of-update_where_self (key row) change rows old same found in
        rw found changed
  ]

  row_of-insert_or_other :
      (row : A) (change : A → A) (rows : List A) (id : String)
      → ((r : A) → key (change r) ≡ key r)
      → (key row == id) ≡ false
      → row_of id (insert_or row change rows) ≡ row_of id rows
  row_of-insert_or_other row change rows id same h = elim (Option-cases (row_of (key row) rows)) [
    | inr (old, found) ↦ rw found (row_of-update_where_other (key row) id change rows same h)
    | inl absent ↦
        let added : row_of id (rows ++ row ∷ []) ≡ row_of id rows =
          row_of-append id rows row ∙ passed (row_of id rows) h in
        rw absent added
  ]
    where
      passed :
          (o : Option A)
          → (key row == id) ≡ false
          → (if is_some o then o else row_of id (row ∷ [])) ≡ o
      passed none h = rw h refl
      passed (some r) h = refl

  -- A lookup after an upsert finds what was written under that key, and what was there under others.
  pub row_of-insert_or :
      (row : A) (change : A → A) (rows : List A) (id : String)
      → ((r : A) → key (change r) ≡ key r)
      → row_of id (insert_or row change rows) ≡ (
          if key row == id
          then some (written row change (row_of (key row) rows))
          else row_of id rows)
  row_of-insert_or row change rows id same = elim (Bool-cases (key row == id)) [
    | inr other ↦ row_of-insert_or_other row change rows id same other ∙ rw other refl
    | inl here ↦
        let at : key row ≡ id = (eq_iff (key row) id).0 here in
        ap (λ k. row_of k (insert_or row change rows)) (sym at)
        ∙ row_of-insert_or_self row change rows same
        ∙ rw here refl
  ]

  abbrev pub changed : (A → A) → Option A → Option A
  changed change none = none
  changed change (some row) = some (change row)

  row_of-update_where-none :
      (id : String) (change : A → A) (rows : List A)
      → row_of id rows ≡ none
      → row_of id (update_where id change rows) ≡ none
  row_of-update_where-none id change [] h = refl
  row_of-update_where-none id change (r ∷ rows) h = elim (Bool-cases (key r == id)) [
    | inl here ↦ cc (h, here)
    | inr past ↦ rw (past, past) (row_of-update_where-none id change rows (cc (h, past)))
  ]

  -- A lookup after an update finds the changed row under that key.
  pub row_of-update_where :
      (id other : String) (change : A → A) (rows : List A)
      → ((r : A) → key (change r) ≡ key r)
      → row_of other (update_where id change rows)
        ≡ (if id == other then changed change (row_of id rows) else row_of other rows)
  row_of-update_where id other change rows same = elim (Bool-cases (id == other)) [
    | inr apart ↦ row_of-update_where_other id other change rows same apart ∙ rw apart refl
    | inl together ↦
        let at : id ≡ other = (eq_iff id other).0 together in
        ap (λ k. row_of k (update_where id change rows)) (sym at)
        ∙ here (row_of id rows) refl
        ∙ rw together refl
  ]
    where
      here :
          (o : Option A)
          → row_of id rows ≡ o
          → row_of id (update_where id change rows) ≡ changed change (row_of id rows)
      here none h = row_of-update_where-none id change rows h ∙ sym (ap (changed change) h)
      here (some row) h =
          row_of-update_where_self id change rows row same h ∙ sym (ap (changed change) h)
