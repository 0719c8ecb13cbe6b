-- ===== src/Database/Recorded.antt =====
-- packages/db/src/settlements.ts: what getSettlement reads after recordSettlement.
use pakta.Base.{
  ℕ, String, true, false, ◌==◌, Option, none, some, List, [], ◌∷◌, ◌++◌, ◌≡◌, refl, ◌∙◌, ap, any,
  if◌then◌else◌, eq_iff, Bool-cases, inl, inr, is_some,
}
use pakta.Base.Outcome.{Outcome, ok, threw}
use pakta.Canonical.Proof.{Settlement, is_settlement}
use pakta.Database.Tables.{Tables, SettlementRow, row_of, row_of-append}
use pakta.Database.Settlements.{
  RecordSettlementInput, row_of_input, settlement_of_row, settled_row, record_settlement,
  get_settlement, to_settlement,
}

-- What recording comes to: a settlement that is read back and that was not there, or no change.
abbrev pub Records : Tables → String → Outcome Settlement → Tables → Type 0
Records db id (ok s) db' =
    (get_settlement db id ≡ none)
    × ((other : String)
        → get_settlement db' other ≡ (if id == other then some s else get_settlement db other))
Records db id (threw e) db' = db' ≡ db

row_of-none :
    {A : Type 0} (key : A → String) (id : String) (rows : List A)
    → any (λ r. key r == id) rows ≡ false
    → row_of key id rows ≡ none
row_of-none key id [] h = refl
row_of-none key id (r ∷ rows) h = elim (Bool-cases (key r == id)) [
  | inl here ↦ cc (h, here)
  | inr past ↦ rw past (row_of-none key id rows (cc (h, past)))
]

to_settlement-row_of_input :
    (input : RecordSettlementInput) (now : ℕ)
    → is_settlement (settlement_of_row (row_of_input input now) input.proof_hash input.contract_id)
      ≡ true
    → to_settlement (row_of_input input now)
      ≡ some (settlement_of_row (row_of_input input now) input.proof_hash input.contract_id)
unfolding to_settlement
to_settlement-row_of_input input now h = rw h refl

module _ (db : Tables) (input : RecordSettlementInput) (now : ℕ) where
  found_row :
      (other : String) (o : Option SettlementRow)
      → row_of (λ r. r.payable_id) input.payable_id db.settlements ≡ none
      → row_of (λ r. r.payable_id) other db.settlements ≡ o
      → row_of (λ r. r.payable_id) other (db.settlements ++ row_of_input input now ∷ [])
        ≡ (if input.payable_id == other then some (row_of_input input now) else o)
  found_row other o new h =
      row_of-append (λ r. r.payable_id) other db.settlements (row_of_input input now)
      ∙ rw h (by_row o h)
    where
      by_row :
          (o : Option SettlementRow)
          → row_of (λ r. r.payable_id) other db.settlements ≡ o
          → (if is_some o
              then o
              else row_of (λ r. r.payable_id) other (row_of_input input now ∷ []))
            ≡ (if input.payable_id == other then some (row_of_input input now) else o)
      by_row none h = refl
      by_row (some row) h = elim (Bool-cases (input.payable_id == other)) [
        | inr apart ↦ rw apart refl
        | inl same ↦
            let is : input.payable_id ≡ other = (eq_iff input.payable_id other).0 same in
            cc (h, new, is)
      ]

  -- A settlement that is recorded was not there before; getSettlement then gives it for its payable,
  -- and for every other payable what it gave. A call that is refused changes nothing.
  pub record_settlement-Records :
      let (o, db') = record_settlement db input now in Records db input.payable_id o db'
  unfolding record_settlement get_settlement
  record_settlement-Records =
      let candidate =
        settlement_of_row (row_of_input input now) input.proof_hash input.contract_id in
      elim (Bool-cases (is_settlement candidate)) [
        | inr invalid ↦ rw invalid refl
        | inl valid ↦
            elim (Bool-cases (any (λ r. r.payable_id == input.payable_id) db.settlements)) [
              | inl settled ↦ rw (valid, settled) refl
              | inr new ↦ elim (Bool-cases (any (λ r. r.tx_hash == input.tx_hash) db.settlements)) [
                | inl used ↦ rw (valid, new, used) refl
                | inr unused ↦
                    let absent =
                      row_of-none (λ r. r.payable_id) input.payable_id db.settlements new in
                    rw (valid, new, unused)
                      (
                        ap settled_row absent,
                        λ other.
                            ap settled_row (
                              found_row other (row_of (λ r. r.payable_id) other db.settlements)
                                absent refl)
                            ∙ read_back other valid,
                      )
              ]
            ]
      ]
    where
      read_back :
          (other : String)
          → is_settlement
              (settlement_of_row (row_of_input input now) input.proof_hash input.contract_id)
            ≡ true
          → settled_row (
              if input.payable_id == other
              then some (row_of_input input now)
              else row_of (λ r. r.payable_id) other db.settlements)
            ≡ (if input.payable_id == other
                then some
                    (settlement_of_row (row_of_input input now) input.proof_hash input.contract_id)
                else settled_row (row_of (λ r. r.payable_id) other db.settlements))
      read_back other valid = elim (Bool-cases (input.payable_id == other)) [
        | inr apart ↦ rw apart refl
        | inl same ↦ rw same (to_settlement-row_of_input input now valid)
      ]
