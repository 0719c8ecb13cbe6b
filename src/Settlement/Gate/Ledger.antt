-- ===== src/Settlement/Gate/Ledger.antt =====
-- The books of the gate: who was paid, what is committed, and what is left.
use pakta.Base.{
  ℕ, ◌+◌, String, ◌≡◌, ◌≢◌, sym, subst, ◌∙◌, Option, none, some, List, [], ◌∷◌, ◌++◌, arith,
  if◌then◌else◌, eq_iff, All,
}
use pakta.Base.Int.{pos}
use pakta.Base.Map.{lookup, insert, lookup-insert}
use pakta.Settlement.Chain.{OnChainStatus, OnChainPayable, same_status}
use pakta.Settlement.Gate.{Payment, FakeGate}

-- What a payable holds of the float: its amount while it is READY.
abbrev pub held : OnChainPayable → ℕ
held p = if same_status p.status OnChainStatus.ready then p.amount else 0

abbrev pub held_total : List (String × OnChainPayable) → ℕ
held_total [] = 0
held_total ((k, p) ∷ m) = held p + held_total m

abbrev pub paid_total : List Payment → ℕ
paid_total [] = 0
paid_total (q ∷ qs) = q.amount + paid_total qs

-- The payment of a payable that is SETTLED, to its recipient and of its amount.
pub record IsPaid (m : List (String × OnChainPayable)) (q : Payment) : Type 0 where
  pub entry : OnChainPayable
  pub found : lookup q.payable_id_hash m ≡ some entry
  pub status : entry.status ≡ OnChainStatus.settled
  pub recipient : q.recipient ≡ entry.recipient
  pub amount : q.amount ≡ entry.amount

abbrev pub IsFresh : String → List Payment → Type 0
IsFresh id = All (λ q. q.payable_id_hash ≢ id)

-- No payable is paid twice.
abbrev pub IsDistinct : List Payment → Type 0
IsDistinct [] = Unit
IsDistinct (q ∷ qs) = IsFresh q.payable_id_hash qs × IsDistinct qs

pub record IsSound (g : FakeGate) : Type 0 where
  pub backed : All (IsPaid g.payables) g.payments
  pub once : IsDistinct g.payments
  pub committed : g.committed ≡ pos (held_total g.payables)

-- A payable that may still change: absent, or READY.
abbrev pub IsOpen : Option OnChainPayable → Type 0
IsOpen none = Unit
IsOpen (some p) = p.status ≡ OnChainStatus.ready

pub held_total-insert :
    (k : String) (v : OnChainPayable) (m : List (String × OnChainPayable)) (p : OnChainPayable)
    → lookup k m ≡ some p
    → held_total (insert k v m) + held p ≡ held_total m + held v
unfolding lookup insert
held_total-insert k v [] p e = cc
held_total-insert k v ((j, w) ∷ m) p e = ground (arith, held_total-insert k v m p)

pub held_total-insert_new :
    (k : String) (v : OnChainPayable) (m : List (String × OnChainPayable))
    → lookup k m ≡ none
    → held_total (insert k v m) ≡ held_total m + held v
unfolding lookup insert
held_total-insert_new k v [] e = omega arith
held_total-insert_new k v ((j, w) ∷ m) e = ground (arith, held_total-insert_new k v m)

-- An entry that was open is none that a payment stands on.
IsPaid-ne :
    (id : String) (m : List (String × OnChainPayable)) (q : Payment)
    → IsOpen (lookup id m)
    → IsPaid m q
    → q.payable_id_hash ≢ id
IsPaid-ne id m q open_entry paid e =
    let at_id : lookup id m ≡ some paid.entry = rw (← e) paid.found in
    let is_open : paid.entry.status ≡ OnChainStatus.ready = subst IsOpen at_id open_entry in
    cc (paid.status)

IsPaid-insert :
    (id : String) (v : OnChainPayable) (m : List (String × OnChainPayable)) (q : Payment)
    → q.payable_id_hash ≢ id
    → IsPaid m q
    → IsPaid (insert id v m) q
IsPaid-insert id v m q other paid = record {
  entry = paid.entry;
  found =
      lookup-insert id q.payable_id_hash v m
      ∙ ground (arith, eq_iff id q.payable_id_hash, paid.found);
  status = paid.status;
  recipient = paid.recipient;
  amount = paid.amount;
}

module _ (id : String) (v : OnChainPayable) (m : List (String × OnChainPayable))
    (open_entry : IsOpen (lookup id m)) where
  pub All-IsPaid-insert : (qs : List Payment) → All (IsPaid m) qs → All (IsPaid (insert id v m)) qs
  All-IsPaid-insert [] h = tt
  All-IsPaid-insert (q ∷ qs) h =
      (IsPaid-insert id v m q (IsPaid-ne id m q open_entry h.0) h.0, All-IsPaid-insert qs h.1)

  pub All-IsFresh : (qs : List Payment) → All (IsPaid m) qs → IsFresh id qs
  All-IsFresh [] h = tt
  All-IsFresh (q ∷ qs) h = (IsPaid-ne id m q open_entry h.0, All-IsFresh qs h.1)

IsFresh-append :
    (id : String) (qs : List Payment) (q : Payment)
    → IsFresh id qs
    → q.payable_id_hash ≢ id
    → IsFresh id (qs ++ q ∷ [])
IsFresh-append id [] q h new = (new, tt)
IsFresh-append id (x ∷ qs) q h new = (h.0, IsFresh-append id qs q h.1 new)

pub IsDistinct-append :
    (qs : List Payment) (q : Payment)
    → IsDistinct qs
    → IsFresh q.payable_id_hash qs
    → IsDistinct (qs ++ q ∷ [])
IsDistinct-append [] q d f = (tt, tt)
IsDistinct-append (x ∷ qs) q d f =
    (IsFresh-append x.payable_id_hash qs q d.0 (λ e. f.0 (sym e)), IsDistinct-append qs q d.1 f.1)

pub paid_total-append :
    (qs : List Payment) (q : Payment) → paid_total (qs ++ q ∷ []) ≡ paid_total qs + q.amount
paid_total-append [] q = omega arith
paid_total-append (x ∷ qs) q = omega (arith, paid_total-append qs q)
