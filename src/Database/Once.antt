-- ===== src/Database/Once.antt =====
-- A table whose rows are written once, beside an in-memory map.
use pakta.Base.{
  String, true, false, ◌==◌, Option, none, some, List, [], ◌∷◌, ◌≡◌, refl, sym, ◌∙◌, ap, is_some,
  eq_iff, Bool-cases, inl, inr,
}
use pakta.Base.Map.{lookup, insert, lookup-insert}
use pakta.Database.Tables.{row_of, update_where, insert_or, row_of-insert_or}

update_where_same :
    {A : Type 0} (key : A → String) (id : String) (rows : List A)
    → update_where key id (λ r. r) rows ≡ rows
update_where_same key id [] = refl
update_where_same key id (r ∷ rows) = elim (Bool-cases (key r == id)) [
  | inl here ↦ rw here (ap (λ rest. r ∷ rest) (update_where_same key id rows))
  | inr past ↦ rw past (ap (λ rest. r ∷ rest) (update_where_same key id rows))
]

-- A row that is written only once, beside an entry that is written only once.
module _ {A V : Type 0} (key : A → String) (agree : String → V → A) where
  abbrev pub agreed : String → Option V → Option A
  agreed k none = none
  agreed k (some v) = some (agree k v)

  -- `if (!map.has(key)) map.set(key, value)`
  abbrev pub once_entries : String → V → List (String × V) → Option V → List (String × V)
  once_entries k value entries none = insert k value entries
  once_entries k value entries (some old) = entries

  pub once-found :
      (value : V) (k : String) (table : List A) (entries : List (String × V)) (o : Option V)
      (id : String)
      → key (agree k value) ≡ k
      → ((j : String) → row_of key j table ≡ agreed j (lookup j entries))
      → lookup k entries ≡ o
      → row_of key id (insert_or key (agree k value) (λ r. r) table)
        ≡ agreed id (lookup id (once_entries k value entries o))
  once-found value k table entries (some old) id named same h =
      let there : is_some (row_of key (key (agree k value)) table) ≡ true = cc (same k, h, named) in
      let unchanged : insert_or key (agree k value) (λ r. r) table ≡ table =
        rw there (update_where_same key (key (agree k value)) table) in
      ap (row_of key id) unchanged ∙ same id
  once-found value k table entries none id named same h =
      let left = row_of-insert_or key (agree k value) (λ r. r) table id (λ r. refl) in
      let right = lookup-insert k id value entries in
      let absent : row_of key (key (agree k value)) table ≡ none = cc (same k, h, named) in
      elim (Bool-cases (k == id)) [
        | inr apart ↦
            let miss : (key (agree k value) == id) ≡ false = cc (named, apart) in
            let below : row_of key id (insert_or key (agree k value) (λ r. r) table)
                ≡ row_of key id table =
              cc (left, miss) in
            let above : lookup id (insert k value entries) ≡ lookup id entries =
              cc (right, apart) in
            below ∙ same id ∙ sym (ap (agreed id) above)
        | inl here ↦
            let at : k ≡ id = (eq_iff k id).0 here in
            let hit : (key (agree k value) == id) ≡ true = cc (named, here) in
            let below : row_of key id (insert_or key (agree k value) (λ r. r) table)
                ≡ some (agree k value) =
              cc (left, hit, absent) in
            let above : lookup id (insert k value entries) ≡ some value = cc (right, here) in
            below ∙ ap (λ j. some (agree j value)) at ∙ sym (ap (agreed id) above)
      ]
