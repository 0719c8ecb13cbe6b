-- ===== src/Settlement/Adapter/Payments.antt =====
-- What a run of the adapter's `settle` pays, on the gate with the contract's rules.
use pakta.Base.{
  ℕ, subst, String, true, ◌≡◌, refl, ◌⊎◌, inl, inr, Option, none, some, List, [], ◌∷◌, ◌++◌, arith,
  eq_iff, ◌==◌, Bool-cases,
}
use pakta.Base.Map.{lookup}
use pakta.Base.Outcome.{Outcome, ok, threw, gate_error, refused, other, Failure, Outcome-cases}
use pakta.Canonical.Proof.{SignedProofOfPayable}
use pakta.Settlement.Action.{World, ask_gate, proceed, ◌>>=◌}
use pakta.Settlement.Store.{ProofStatus, set_proof_status}
use pakta.Settlement.Chain.{
  GateClient, OnChainStatus, OnChainPayable, IssuerSignatureArg, PreparedRegistration, SubmittedTx,
}
use pakta.Settlement.Deployment.{Deployment}
use pakta.Settlement.Gate.{
  NodeCrypto, Payment, FakeGate, fake_client, called, get_payable, register_payable,
}
use pakta.Settlement.Gate
use pakta.Settlement.Adapter.{
  ProofVerifier, SettlementContext, SettlementOutcome, settled, already_settled, report_settled,
  verify, settle, settle_prepared, pay, recheck, reread_by, on_reread, after_register, register,
  is_fresh, remember_proof, register_fresh, settle_by, settle_from, tx_hash_of, after_settle,
  finish, on_settle_failure, matches,
}

abbrev pub payment_of : PreparedRegistration → Payment
payment_of r = record {
  payable_id_hash = r.payable_id_hash;
  recipient = r.recipient;
  amount = r.amount_units;
}

-- What each outcome of `settle` says of the payments before and after it.
abbrev pub Pays :
    PreparedRegistration → Outcome SettlementOutcome → List Payment → List Payment → Type 0
Pays r (ok (settled s t u)) before after = after ≡ before ++ payment_of r ∷ []
Pays r (ok (already_settled s)) before after = after ≡ before
Pays r (threw (refused m reason)) before after = after ≡ before
Pays r (threw (gate_error m code)) before after = after ≡ before
Pays r (threw (other m)) before after = (after ≡ before) ⊎ (after ≡ before ++ payment_of r ∷ [])

-- What the gate's own `settle` says of the payments, for a payable that it knows.
abbrev GatePays :
    String → OnChainPayable → Outcome SubmittedTx → List Payment → List Payment → Type 0
GatePays id p (ok tx) before after =
    after
    ≡ before ++ record { payable_id_hash = id; recipient = p.recipient; amount = p.amount } ∷ []
GatePays id p (threw (other m)) before after =
    (after ≡ before)
    ⊎ (after
        ≡ before
          ++ record { payable_id_hash = id; recipient = p.recipient; amount = p.amount } ∷ [])
GatePays id p (threw (refused m reason)) before after = after ≡ before
GatePays id p (threw (gate_error m code)) before after = after ≡ before

settle-GatePays :
    (crypto : NodeCrypto) (id : String) (p : OnChainPayable) (g : FakeGate)
    → lookup id g.payables ≡ some p
    → let (o, g') = Gate.settle crypto id g in GatePays id p o g.payments g'.payments
unfolding Gate.settle
settle-GatePays crypto id p g found = ground arith

matches-recipient :
    (r : PreparedRegistration) (p : OnChainPayable) → matches r p ≡ true → p.recipient ≡ r.recipient
matches-recipient r p h = ground (arith, eq_iff p.recipient r.recipient)

matches-amount :
    (r : PreparedRegistration) (p : OnChainPayable) → matches r p ≡ true → p.amount ≡ r.amount_units
matches-amount r p h = ground arith

GatePays-Pays :
    (r : PreparedRegistration) (p : OnChainPayable) (e : Failure) (before after : List Payment)
    → matches r p ≡ true
    → GatePays r.payable_id_hash p (threw e) before after
    → Pays r (threw e) before after
GatePays-Pays r p (other m) before after same h =
    ground (arith, matches-recipient r p, matches-amount r p)
GatePays-Pays r p (refused m k) before after same h = h
GatePays-Pays r p (gate_error m k) before after same h = h

Pays-unpaid :
    (r : PreparedRegistration) (e : Failure) (now : List Payment) → Pays r (threw e) now now
Pays-unpaid r (other m) now = inl refl
Pays-unpaid r (refused m k) now = refl
Pays-unpaid r (gate_error m k) now = refl

module _ (crypto : NodeCrypto) (verifier : ProofVerifier) (deployment : Deployment)
    (signed : SignedProofOfPayable) (context : SettlementContext) where
  abbrev F : GateClient FakeGate
  F = fake_client crypto

  report_settled-Pays :
      (r : PreparedRegistration) (w : World FakeGate)
      → let (o, w') = report_settled F verifier deployment signed context r w in
        Pays r o w.gate.payments w'.gate.payments
  unfolding report_settled
  report_settled-Pays r w = ground arith

  recheck-Pays :
      (r : PreparedRegistration) (e : Failure) (o : Option OnChainPayable) (w : World FakeGate)
      (before : List Payment)
      → w.gate.payments ≡ before
      → let (o', w') = recheck F verifier deployment signed context r e o w in
        Pays r o' before w'.gate.payments
  unfolding recheck
  recheck-Pays r e none w before h = ground arith
  recheck-Pays r e (some p) w before h = ground (arith, report_settled-Pays r w)

  on_settle_failure-Pays :
      (r : PreparedRegistration) (e : Failure) (w : World FakeGate) (before : List Payment)
      → Pays r (threw e) before w.gate.payments
      → let (o, w') = on_settle_failure F verifier deployment signed context r e w in
        Pays r o before w'.gate.payments
  unfolding on_settle_failure get_payable
  on_settle_failure-Pays r (other m) w before h = h
  on_settle_failure-Pays r (refused m k) w before h = h
  on_settle_failure-Pays r (gate_error m none) w before h = h
  on_settle_failure-Pays r (gate_error m (some c)) w before h =
      elim (Bool-cases (c == "NotReady")) [
        | inl not_ready ↦
            rw (not_ready, on_settle_failure)
              (recheck-Pays r (gate_error m (some c)) (lookup r.payable_id_hash w.gate.payables)
                (record w { gate = called "getPayable" w.gate }) before h)
        | inr reported ↦ rw (reported, on_settle_failure) h
      ]

  after_settle-Pays :
      (r : PreparedRegistration) (register_tx : Option SubmittedTx) (p : OnChainPayable)
      (o : Outcome SubmittedTx) (w : World FakeGate) (before : List Payment)
      → matches r p ≡ true
      → GatePays r.payable_id_hash p o before w.gate.payments
      → let (o', w') = after_settle F verifier deployment signed context r register_tx o w in
        Pays r o' before w'.gate.payments
  unfolding after_settle finish
  after_settle-Pays r register_tx p (ok tx) w before m h =
      ground (arith, matches-recipient r p, matches-amount r p)
  after_settle-Pays r register_tx p (threw e) w before m h =
      on_settle_failure-Pays r e w before (GatePays-Pays r p e before w.gate.payments m h)

  pay-Pays :
      (r : PreparedRegistration) (register_tx : Option SubmittedTx) (p : OnChainPayable)
      (w : World FakeGate)
      → lookup r.payable_id_hash w.gate.payables ≡ some p
      → let (o, w') = pay F verifier deployment signed context r register_tx p w in
        Pays r o w.gate.payments w'.gate.payments
  unfolding pay
  pay-Pays r register_tx p w found = elim (Bool-cases (matches r p)) [
    | inl same ↦
        rw (same, pay)
          (after_settle-Pays r register_tx p (Gate.settle crypto r.payable_id_hash w.gate).0
            (record w { gate = (Gate.settle crypto r.payable_id_hash w.gate).1 }) w.gate.payments
            same (settle-GatePays crypto r.payable_id_hash p w.gate found))
    | inr differs ↦ rw (differs, pay) refl
  ]

  reread_by-Pays :
      (status : OnChainStatus) (r : PreparedRegistration) (register_tx : Option SubmittedTx)
      (p : OnChainPayable) (w : World FakeGate)
      → lookup r.payable_id_hash w.gate.payables ≡ some p
      → let (o, w') = reread_by F verifier deployment signed context status r register_tx p w in
        Pays r o w.gate.payments w'.gate.payments
  unfolding reread_by
  reread_by-Pays OnChainStatus.settled r register_tx p w found = report_settled-Pays r w
  reread_by-Pays _ r register_tx p w found = pay-Pays r register_tx p w found

  on_reread-Pays :
      (r : PreparedRegistration) (register_tx : Option SubmittedTx) (w : World FakeGate)
      (o : Option OnChainPayable)
      → lookup r.payable_id_hash w.gate.payables ≡ o
      → let (o', w') = on_reread F verifier deployment signed context r register_tx o w in
        Pays r o' w.gate.payments w'.gate.payments
  unfolding on_reread
  on_reread-Pays r register_tx w none found = refl
  on_reread-Pays r register_tx w (some p) found =
      reread_by-Pays p.status r register_tx p
        (record w {
          store =
              set_proof_status r.payable_id_hash ProofStatus.registered (tx_hash_of register_tx)
                w.store;
        })
        found

  -- Registering never pays.
  after_register-Pays :
      (r : PreparedRegistration) (o : Outcome SubmittedTx) (w : World FakeGate)
      → let (o', w') = after_register F verifier deployment signed context r o w in
        Pays r o' w.gate.payments w'.gate.payments
  unfolding after_register get_payable
  after_register-Pays r (ok tx) w =
      on_reread-Pays r (some tx) (record w { gate = called "getPayable" w.gate })
        (lookup r.payable_id_hash w.gate.payables) refl
  after_register-Pays r (threw (other m)) w = inl refl
  after_register-Pays r (threw (refused m k)) w = refl
  after_register-Pays r (threw (gate_error m none)) w = refl
  after_register-Pays r (threw (gate_error m (some c))) w =
      elim (Bool-cases (c == "PayableAlreadyExists")) [
        | inl known ↦
            rw (known, after_register)
              (on_reread-Pays r none (record w { gate = called "getPayable" w.gate })
                (lookup r.payable_id_hash w.gate.payables) refl)
        | inr failed ↦ rw (failed, after_register) refl
      ]

  register_payable-payments :
      (r : PreparedRegistration) (sigs : List IssuerSignatureArg) (g : FakeGate)
      → (register_payable crypto r sigs g).1.payments ≡ g.payments
  unfolding register_payable
  register_payable-payments r sigs g = ground arith

  register-payments :
      (r : PreparedRegistration) (w : World FakeGate)
      → (register F verifier deployment signed context r w).1.gate.payments ≡ w.gate.payments
  unfolding register
  register-payments r w = elim (Outcome-cases (verifier.issuer_signature signed)) [
    | inl (e, bad) ↦ rw (bad, register) refl
    | inr (sig, good) ↦ rw (good, register) (register_payable-payments r (sig ∷ []) w.gate)
  ]

  register_fresh-Pays :
      (r : PreparedRegistration) (now_ms : ℕ) (w : World FakeGate)
      → let (o, w') = register_fresh F verifier deployment signed context r now_ms w in
        Pays r o w.gate.payments w'.gate.payments
  unfolding register_fresh
  register_fresh-Pays r now_ms w = elim (Bool-cases (is_fresh r now_ms)) [
    | inr stale ↦ rw (stale, register_fresh) refl
    | inl fresh ↦
        let (o, w') = register F verifier deployment signed context r w in
        rw (fresh, register_fresh)
          (subst
            (λ before.
              Pays r (after_register F verifier deployment signed context r o w').0 before
                (after_register F verifier deployment signed context r o w').1.gate.payments)
            (register-payments r w) (after_register-Pays r o w'))
  ]

  settle_by-Pays :
      (status : OnChainStatus) (r : PreparedRegistration) (p : OnChainPayable) (w : World FakeGate)
      → lookup r.payable_id_hash w.gate.payables ≡ some p
      → let (o, w') = settle_by F verifier deployment signed context status r p w in
        Pays r o w.gate.payments w'.gate.payments
  unfolding settle_by
  settle_by-Pays OnChainStatus.ready r p w found = pay-Pays r none p w found
  settle_by-Pays OnChainStatus.settled r p w found = report_settled-Pays r w
  settle_by-Pays OnChainStatus.expired r p w found = refl
  settle_by-Pays OnChainStatus.revoked r p w found = refl

  settle_from-Pays :
      (r : PreparedRegistration) (o : Option OnChainPayable) (w : World FakeGate)
      → lookup r.payable_id_hash w.gate.payables ≡ o
      → let (o', w') = settle_from F verifier deployment signed context r o w in
        Pays r o' w.gate.payments w'.gate.payments
  unfolding settle_from
  settle_from-Pays r none w found = register_fresh-Pays r w.gate.clock w
  settle_from-Pays r (some p) w found = settle_by-Pays p.status r p w found

  remember_proof-gate :
      (r : PreparedRegistration) (w : World FakeGate)
      → (remember_proof F verifier deployment signed context r w).1.gate ≡ w.gate
  unfolding remember_proof
  remember_proof-gate r w = ground arith

  after_remember-Pays :
      (r : PreparedRegistration) (o : Outcome (Unit {0})) (w : World FakeGate)
      → let (o', w') =
          proceed
            (λ _.
              ask_gate (F.get_payable r.payable_id_hash)
              >>= settle_from F verifier deployment signed context r)
            (o, w) in
        Pays r o' w.gate.payments w'.gate.payments
  unfolding get_payable
  after_remember-Pays r (ok _) w =
      settle_from-Pays r (lookup r.payable_id_hash w.gate.payables)
        (record w { gate = called "getPayable" w.gate }) refl
  after_remember-Pays r (threw e) w = Pays-unpaid r e w.gate.payments

  pub settle_prepared-Pays :
      (r : PreparedRegistration) (w : World FakeGate)
      → let (o, w') = settle_prepared F verifier deployment signed context r w in
        Pays r o w.gate.payments w'.gate.payments
  unfolding settle_prepared
  settle_prepared-Pays r w =
      let (o, w1) = remember_proof F verifier deployment signed context r w in
      let end = settle_prepared F verifier deployment signed context r w in
      subst (λ g. Pays r end.0 g.payments end.1.gate.payments) (remember_proof-gate r w)
        (after_remember-Pays r o w1)

  -- When the envelope verifies, a run of `settle` that answers SETTLED adds exactly the payment
  -- that the signed proof names; one that answers ALREADY_SETTLED or refuses adds none; and one
  -- that ends in another error, such as a lost response, adds that payment or none.
  pub settle-Pays :
      (r : PreparedRegistration) (w : World FakeGate)
      → verifier.verify_signed_proof signed deployment ≡ ok r
      → let (o, w') = settle F verifier deployment signed context w in
        Pays r o w.gate.payments w'.gate.payments
  unfolding settle
  settle-Pays r w verified = rw (verified, settle, verify) (settle_prepared-Pays r w)
