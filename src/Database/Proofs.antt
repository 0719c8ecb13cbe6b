-- ===== src/Database/Proofs.antt =====
-- The table of proofs beside the in-memory map: they agree on all but the registration's transaction.
use pakta.Base.{
  String, ◌==◌, Option, none, some, List, ◌≡◌, refl, sym, ◌∙◌, ap, if◌then◌else◌, eq_iff,
  Bool-cases, inl, inr, find-IsIn,
}
use pakta.Base.Map.{lookup, insert, lookup-insert}
use pakta.Settlement.Store.{ProofStatus, ProofRecord, keep_hash}
use pakta.Database.Tables.{
  row_of, update_where, insert_or, written, changed, row_of-insert_or, row_of-update_where,
}
use pakta.Database.SettlementStore.{excluded, with_proof_status}

-- A proof without the transaction of its registration, which no caller of either store reads.
abbrev pub forget : ProofRecord → ProofRecord
forget p = record p { register_tx_hash = none }

abbrev pub view : Option ProofRecord → Option ProofRecord
view none = none
view (some p) = some (forget p)

-- What the table and the map agree on. `owner` gives the payable of an id hash.
pub record SameProofs (owner : String → String) (table : List ProofRecord)
    (entries : List (String × ProofRecord)) : Type 0 where
  pub found :
      (id : String) → view (row_of (λ p. p.payable_id_hash) id table) ≡ view (lookup id entries)
  pub owned : (id : String) (p : ProofRecord) → lookup id entries ≡ some p → p.payable_id ≡ owner id

row_of-key :
    {A : Type 0} (key : A → String) (id : String) (xs : List A) (row : A)
    → row_of key id xs ≡ some row
    → key row ≡ id
row_of-key key id xs row h = (eq_iff (key row) id).0 (find-IsIn (λ r. key r == id) xs row h).1

view-some :
    (o : Option ProofRecord) (p : Option ProofRecord) (q : ProofRecord)
    → view o ≡ view p
    → o ≡ some q
    → (r : ProofRecord) × (p ≡ some r) × (forget q ≡ forget r)
view-some none p q h e = cc e
view-some (some o) none q h e = cc h
view-some (some o) (some r) q h e = (r, refl, cc (h, e))

forget-excluded :
    (proof old : ProofRecord)
    → old.payable_id ≡ proof.payable_id
    → old.payable_id_hash ≡ proof.payable_id_hash
    → forget (excluded proof old) ≡ forget proof
forget-excluded proof old hp hh = cc (hp, hh)

abbrev as_status : ProofStatus → ProofRecord → ProofRecord
as_status status p = record p { status = status }

-- The change that the in-memory store makes.
abbrev pub with_kept_status : ProofStatus → Option String → ProofRecord → ProofRecord
with_kept_status status tx p = record p {
  status = status;
  register_tx_hash = keep_hash tx p.register_tx_hash;
}

view-status :
    (status : ProofStatus) (tx tx' : Option String) (o p : Option ProofRecord)
    → view o ≡ view p
    → view (changed (λ r. r.payable_id_hash) (with_proof_status status tx) o)
      ≡ view (changed (λ r. r.payable_id_hash) (with_kept_status status tx') p)
view-status status tx tx' none none h = refl
view-status status tx tx' none (some p) h = cc h
view-status status tx tx' (some o) none h = cc h
view-status status tx tx' (some o) (some p) h =
    let alike : forget o ≡ forget p = cc h in ap (λ q. some (as_status status q)) alike

module _ (owner : String → String) (table : List ProofRecord)
    (entries : List (String × ProofRecord)) (same : SameProofs owner table entries) where
  upsert_written :
      (proof : ProofRecord)
      → proof.payable_id ≡ owner proof.payable_id_hash
      → (o : Option ProofRecord) → row_of (λ p. p.payable_id_hash) proof.payable_id_hash table ≡ o
      → forget (written (λ p. p.payable_id_hash) proof (excluded proof) o) ≡ forget proof
  upsert_written proof hp none h = refl
  upsert_written proof hp (some old) h =
      let (r, found, alike) =
        view-some (row_of (λ p. p.payable_id_hash) proof.payable_id_hash table)
          (lookup proof.payable_id_hash entries) old (same.found proof.payable_id_hash) h in
      let own = same.owned proof.payable_id_hash r found in
      let ids : old.payable_id ≡ r.payable_id = ap (λ p. p.payable_id) alike in
      forget-excluded proof old (ids ∙ own ∙ sym hp)
        (row_of-key (λ p. p.payable_id_hash) proof.payable_id_hash table old h)

  upsert-found :
      (proof : ProofRecord) (id : String)
      → proof.payable_id ≡ owner proof.payable_id_hash
      → view (
          row_of
            (λ p. p.payable_id_hash)
            id
            (insert_or (λ p. p.payable_id_hash) proof (excluded proof) table))
        ≡ view (lookup id (insert proof.payable_id_hash proof entries))
  upsert-found proof id hp =
      let left =
        row_of-insert_or (λ p. p.payable_id_hash) proof (excluded proof) table id (λ r. refl) in
      let right = lookup-insert proof.payable_id_hash id proof entries in
      let old = row_of (λ p. p.payable_id_hash) proof.payable_id_hash table in
      let rest = insert_or (λ p. p.payable_id_hash) proof (excluded proof) table in
      elim (Bool-cases (proof.payable_id_hash == id)) [
        | inr other ↦
            let below : row_of (λ p. p.payable_id_hash) id rest
                ≡ row_of (λ p. p.payable_id_hash) id table =
              cc (left, other) in
            let above : lookup id (insert proof.payable_id_hash proof entries) ≡ lookup id entries =
              cc (right, other) in
            ap view below ∙ same.found id ∙ sym (ap view above)
        | inl here ↦
            let below : row_of (λ p. p.payable_id_hash) id rest
                ≡ some (written (λ p. p.payable_id_hash) proof (excluded proof) old) =
              cc (left, here) in
            let above : lookup id (insert proof.payable_id_hash proof entries) ≡ some proof =
              cc (right, here) in
            ap view below ∙ ap some (upsert_written proof hp old refl) ∙ sym (ap view above)
      ]

  upsert-owned :
      (proof : ProofRecord)
      → proof.payable_id ≡ owner proof.payable_id_hash
      → (id : String) (p : ProofRecord)
      → lookup id (insert proof.payable_id_hash proof entries) ≡ some p
      → p.payable_id ≡ owner id
  upsert-owned proof hp id p h = elim (Bool-cases (proof.payable_id_hash == id)) [
    | inr other ↦
        same.owned id p (cc (h, other, lookup-insert proof.payable_id_hash id proof entries))
    | inl here ↦
        let at : proof.payable_id_hash ≡ id = (eq_iff proof.payable_id_hash id).0 here in
        let is : proof ≡ p = cc (h, here, lookup-insert proof.payable_id_hash id proof entries) in
        cc (hp, is, at)
  ]

  pub upsert-SameProofs :
      (proof : ProofRecord)
      → proof.payable_id ≡ owner proof.payable_id_hash
      → SameProofs owner
          (insert_or (λ p. p.payable_id_hash) proof (excluded proof) table)
          (insert proof.payable_id_hash proof entries)
  upsert-SameProofs proof hp = record {
    found = λ id. upsert-found proof id hp;
    owned = upsert-owned proof hp;
  }

-- `setProofStatus` of the in-memory store, on its map.
abbrev pub status_entries :
    String
    → ProofStatus
    → Option String
    → List (String × ProofRecord)
    → Option ProofRecord
    → List (String × ProofRecord)
status_entries id status tx entries none = entries
status_entries id status tx entries (some p) = insert id (with_kept_status status tx p) entries

module _ (owner : String → String) (table : List ProofRecord)
    (entries : List (String × ProofRecord)) (same : SameProofs owner table entries) (id : String)
    (status : ProofStatus) (tx : Option String) where
  after_status :
      (o : Option ProofRecord) (other : String)
      → lookup id entries ≡ o
      → lookup other (status_entries id status tx entries o) ≡ (
          if id == other
          then changed (λ r. r.payable_id_hash) (with_kept_status status tx) o
          else lookup other entries)
  after_status none other h = elim (Bool-cases (id == other)) [
    | inr apart ↦ rw apart refl
    | inl here ↦
        let at : id ≡ other = (eq_iff id other).0 here in
        rw here (ap (λ k. lookup k entries) (sym at) ∙ h)
  ]
  after_status (some p) other h = lookup-insert id other (with_kept_status status tx p) entries

  pub status-found :
      (o : Option ProofRecord) (other : String)
      → lookup id entries ≡ o
      → view (
          row_of
            (λ p. p.payable_id_hash)
            other
            (update_where (λ p. p.payable_id_hash) id (with_proof_status status tx) table))
        ≡ view (lookup other (status_entries id status tx entries o))
  status-found o other h =
      let left =
        row_of-update_where (λ p. p.payable_id_hash) id other (with_proof_status status tx) table
          (λ r. refl) in
      let right = after_status o other h in
      let table' = update_where (λ p. p.payable_id_hash) id (with_proof_status status tx) table in
      let entries' = status_entries id status tx entries o in
      elim (Bool-cases (id == other)) [
        | inr apart ↦
            let below : row_of (λ p. p.payable_id_hash) other table'
                ≡ row_of (λ p. p.payable_id_hash) other table =
              cc (left, apart) in
            let above : lookup other entries' ≡ lookup other entries = cc (right, apart) in
            ap view below ∙ same.found other ∙ sym (ap view above)
        | inl here ↦
            let old = row_of (λ p. p.payable_id_hash) id table in
            let below : row_of (λ p. p.payable_id_hash) other table'
                ≡ changed (λ r. r.payable_id_hash) (with_proof_status status tx) old =
              cc (left, here) in
            let above : lookup other entries'
                ≡ changed (λ r. r.payable_id_hash) (with_kept_status status tx) o =
              cc (right, here) in
            ap view below
            ∙ view-status status tx tx old o (same.found id ∙ ap view h)
            ∙ sym (ap view above)
      ]

  pub status-owned :
      (o : Option ProofRecord) (other : String) (p : ProofRecord)
      → lookup id entries ≡ o
      → lookup other (status_entries id status tx entries o) ≡ some p
      → p.payable_id ≡ owner other
  status-owned none other p h found = same.owned other p found
  status-owned (some q) other p h found = elim (Bool-cases (id == other)) [
    | inr apart ↦ same.owned other p (cc (found, apart, after_status (some q) other h))
    | inl here ↦
        let at : id ≡ other = (eq_iff id other).0 here in
        let is : with_kept_status status tx q ≡ p =
          cc (found, here, after_status (some q) other h) in
        let own = same.owned id q h in ap (λ r. r.payable_id) (sym is) ∙ own ∙ ap owner at
  ]
