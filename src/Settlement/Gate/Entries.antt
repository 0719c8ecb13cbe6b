-- ===== src/Settlement/Gate/Entries.antt =====
-- What each call of the gate may enter in its books.
use pakta.Base.{
  ℕ, String, true, false, ◌&&◌, ◌≡◌, refl, inl, inr, Option, none, some, List, [], ◌∷◌, ◌++◌, arith,
  Option-cases, Bool-cases, ◌∙◌,
}
use pakta.Base.Int.{pos, ltb_ℤ, ◌+ℤ◌, ◌-ℤ◌}
use pakta.Base.Map.{lookup, insert}
use pakta.Base.Outcome.{Outcome, ok, threw, Failure}
use pakta.Settlement.Chain.{
  OnChainStatus, OnChainPayable, PreparedRegistration, IssuerSignatureArg, same_status,
}
use pakta.Settlement.Gate.{
  NodeCrypto, FakeGate, get_payable, register_payable, register_checked, settle, register_absent,
  register_unless, settle_unless, settle_checked, revoke_payable, expire_one, with_status,
  of_prepared, paid, called, is_ready, tx_of_register, tx_of_settle, signature_accepted,
}

-- Two gates with the same books.
pub record SameBooks (g h : FakeGate) : Type 0 where
  pub payables : h.payables ≡ g.payables
  pub payments : h.payments ≡ g.payments
  pub committed : h.committed ≡ g.committed
  pub balance : h.balance ≡ g.balance

-- What a call may do to the books of `g`.
pub data Entry (g : FakeGate) (h : FakeGate) : Type 0 where
  keep : SameBooks g h → Entry g h
  open_new :
      (id : String) (p : OnChainPayable)
      → lookup id g.payables ≡ none
      → p.status ≡ OnChainStatus.ready
      → h.payables ≡ insert id p g.payables
      → h.committed ≡ g.committed +ℤ pos p.amount
      → h.payments ≡ g.payments
      → h.balance ≡ g.balance
      → Entry g h
  close :
      (id : String) (p : OnChainPayable) (status : OnChainStatus)
      → lookup id g.payables ≡ some p
      → p.status ≡ OnChainStatus.ready
      → same_status status OnChainStatus.ready ≡ false
      → h.payables ≡ insert id (with_status status p) g.payables
      → h.committed ≡ g.committed -ℤ pos p.amount
      → h.payments ≡ g.payments
      → h.balance ≡ g.balance
      → Entry g h
  pay :
      (id : String) (p : OnChainPayable)
      → lookup id g.payables ≡ some p
      → p.status ≡ OnChainStatus.ready
      → h.payables ≡ insert id (with_status OnChainStatus.settled p) g.payables
      → h.committed ≡ g.committed -ℤ pos p.amount
      → h.payments
        ≡ g.payments
          ++ record { payable_id_hash = id; recipient = p.recipient; amount = p.amount } ∷ []
      → h.balance ≡ g.balance -ℤ pos p.amount
      → Entry g h

status-eq_of_ready : (p : OnChainPayable) → is_ready p ≡ true → p.status ≡ OnChainStatus.ready
status-eq_of_ready p h = ground arith

SameBooks-trans : {g h k : FakeGate} → SameBooks g h → SameBooks h k → SameBooks g k
SameBooks-trans a b = record {
  payables = b.payables ∙ a.payables;
  payments = b.payments ∙ a.payments;
  committed = b.committed ∙ a.committed;
  balance = b.balance ∙ a.balance;
}

-- An entry, with calls around it that leave the books alone.
Entry-between : (g h k l : FakeGate) → SameBooks g h → Entry h k → SameBooks k l → Entry g l
Entry-between g h k l a (keep b) c = keep (SameBooks-trans a (SameBooks-trans b c))
Entry-between g h k l a (open_new id p new status ps co pa ba) c =
    open_new id p (rw (← a.payables) new) status (c.payables ∙ rw (← a.payables) ps)
      (c.committed ∙ rw (← a.committed) co) (c.payments ∙ pa ∙ a.payments)
      (c.balance ∙ ba ∙ a.balance)
Entry-between g h k l a (close id p status found is_open other ps co pa ba) c =
    close id p status (rw (← a.payables) found) is_open other (c.payables ∙ rw (← a.payables) ps)
      (c.committed ∙ rw (← a.committed) co) (c.payments ∙ pa ∙ a.payments)
      (c.balance ∙ ba ∙ a.balance)
Entry-between g h k l a (pay id p found is_open ps co pa ba) c =
    pay id p (rw (← a.payables) found) is_open (c.payables ∙ rw (← a.payables) ps)
      (c.committed ∙ rw (← a.committed) co) (c.payments ∙ rw (← a.payments) pa)
      (c.balance ∙ rw (← a.balance) ba)

abbrev pub same :
    {g h : FakeGate}
    → h.payables ≡ g.payables
    → h.payments ≡ g.payments
    → h.committed ≡ g.committed
    → h.balance ≡ g.balance
    → SameBooks g h
same a b c d = record { payables = a; payments = b; committed = c; balance = d }

module _ (crypto : NodeCrypto) where
  tx_of_settle-SameBooks : (g : FakeGate) → SameBooks g (tx_of_settle crypto g).1
  unfolding tx_of_settle
  tx_of_settle-SameBooks g = ground arith

  tx_of_register-SameBooks : (g : FakeGate) → SameBooks g (tx_of_register crypto g).1
  unfolding tx_of_register
  tx_of_register-SameBooks g = ground arith

  pub get_payable-Entry : (id : String) (g : FakeGate) → Entry g (get_payable id g).1
  unfolding get_payable
  get_payable-Entry id g = keep (same refl refl refl refl)

  settle_checked-Entry : (id : String) (g : FakeGate) → Entry g (settle_checked crypto id g).1
  unfolding settle_checked
  settle_checked-Entry id g = elim (Option-cases (lookup id g.payables)) [
    | inl absent ↦ rw (absent, settle_checked) (keep (same refl refl refl refl))
    | inr (p, found) ↦ elim (Bool-cases (is_ready p)) [
      | inl ready ↦
          rw (found, settle_checked, ready)
            (Entry-between g g (paid crypto id p g) _ (same refl refl refl refl)
              (pay id p found (status-eq_of_ready p ready) refl refl refl refl)
              (tx_of_settle-SameBooks _))
      | inr closed_already ↦
          rw (found, settle_checked, closed_already) (keep (same refl refl refl refl))
    ]
  ]

  settle_unless-Entry :
      (o : Option Failure) (id : String) (g : FakeGate) → Entry g (settle_unless crypto o id g).1
  unfolding settle_unless
  settle_unless-Entry (some e) id g = keep (same refl refl refl refl)
  settle_unless-Entry none id g = settle_checked-Entry id g

  pub settle-Entry : (id : String) (g : FakeGate) → Entry g (settle crypto id g).1
  unfolding settle
  settle-Entry id g =
      Entry-between g (called "settle" g) _ _ (same refl refl refl refl)
        (settle_unless-Entry g.fail_settle id (called "settle" g)) (same refl refl refl refl)

  register_absent-Entry :
      (r : PreparedRegistration) (o : Outcome (Unit {0})) (g : FakeGate)
      → lookup r.payable_id_hash g.payables ≡ none
      → Entry g (register_absent crypto r o g).1
  unfolding register_absent
  register_absent-Entry r (threw e) g absent = keep (same refl refl refl refl)
  register_absent-Entry r (ok _) g absent =
      Entry-between g g _ _ (same refl refl refl refl)
        (open_new r.payable_id_hash (of_prepared r) absent refl refl refl refl refl)
        (tx_of_register-SameBooks _)

  register_checked-Entry :
      (r : PreparedRegistration) (sigs : List IssuerSignatureArg) (g : FakeGate)
      → Entry g (register_checked crypto r sigs g).1
  unfolding register_checked
  register_checked-Entry r sigs g = elim (Option-cases (lookup r.payable_id_hash g.payables)) [
    | inr (p, found) ↦ rw (found, register_checked) (keep (same refl refl refl refl))
    | inl absent ↦
        rw (absent, register_checked)
          (register_absent-Entry r (signature_accepted crypto g r sigs) g absent)
  ]

  register_unless-Entry :
      (o : Option Failure) (r : PreparedRegistration) (sigs : List IssuerSignatureArg)
      (g : FakeGate)
      → Entry g (register_unless crypto o r sigs g).1
  unfolding register_unless
  register_unless-Entry (some e) r sigs g = keep (same refl refl refl refl)
  register_unless-Entry none r sigs g = register_checked-Entry r sigs g

  pub register_payable-Entry :
      (r : PreparedRegistration) (sigs : List IssuerSignatureArg) (g : FakeGate)
      → Entry g (register_payable crypto r sigs g).1
  unfolding register_payable
  register_payable-Entry r sigs g =
      Entry-between g (called "registerPayable" g) _ _ (same refl refl refl refl)
        (register_unless-Entry g.fail_register r sigs (called "registerPayable" g))
        (same refl refl refl refl)

  pub revoke_payable-Entry : (id : String) (g : FakeGate) → Entry g (revoke_payable crypto id g).1
  unfolding revoke_payable
  revoke_payable-Entry id g = elim (Option-cases (lookup id g.payables)) [
    | inl absent ↦ rw (absent, revoke_payable) (keep (same refl refl refl refl))
    | inr (p, found) ↦ elim (Bool-cases (is_ready p)) [
      | inl ready ↦
          rw (found, revoke_payable, ready)
            (close id p OnChainStatus.revoked found (status-eq_of_ready p ready) refl refl refl refl
              refl)
      | inr closed_already ↦
          rw (found, revoke_payable, closed_already) (keep (same refl refl refl refl))
    ]
  ]

  pub expire_one-Entry :
      (now : ℕ) (id : String) (g : FakeGate) → Entry g (expire_one crypto now id g)
  unfolding expire_one
  expire_one-Entry now id g = elim (Option-cases (lookup id g.payables)) [
    | inl absent ↦ rw (absent, expire_one) (keep (same refl refl refl refl))
    | inr (p, found) ↦ elim (Bool-cases (is_ready p && ltb_ℤ p.expiry (pos now))) [
      | inl lapsed ↦
          rw (found, expire_one, lapsed)
            (close id p OnChainStatus.expired found (status-eq_of_ready p (ground arith)) refl refl
              refl refl refl)
      | inr stays ↦ rw (found, expire_one, stays) (keep (same refl refl refl refl))
    ]
  ]
