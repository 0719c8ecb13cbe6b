-- ===== src/Settlement/Adapter/Fresh.antt =====
-- A payable that the gate has not seen yet, on a gate that answers: `settle` goes all the way.
use pakta.Base.{
  String, ◌≡◌, refl, true, false, Option, none, some, [], ◌∷◌, ◌++◌, arith, eq_refl, ◌∙◌, ap, ℕ,
}
use pakta.Base.Int.{ℤ, pos, neg_part, ltb_ℤ, ◌+ℤ◌, ◌-ℤ◌, +ℤ_parts, -ℤ_parts, eq_of_parts}
use pakta.Base.Map.{lookup, has, lookup-insert}
use pakta.Base.Outcome.{Outcome, ok, threw, other}
use pakta.Canonical.Proof.{SignedProofOfPayable, Settlement, is_settlement}
use pakta.Settlement.Action.{World}
use pakta.Settlement.Chain.{
  GateClient, OnChainStatus, IssuerSignatureArg, PreparedRegistration, SubmittedTx,
}
use pakta.Settlement.Deployment.{Deployment}
use pakta.Settlement.Store.{
  Store, ProofStatus, ProofRecord, set_proof_status, upsert_proof, get_proof_by_id_hash,
}
use pakta.Settlement.Store.Laws.{
  set_proof_status-settlements, add_settled_fingerprint-settlements, has-record_settlement,
}
use pakta.Settlement.Gate.{
  NodeCrypto, FakeGate, fake_client, get_payable, called, of_prepared, with_status, next_tx, paid,
}
use pakta.Settlement.Gate.Accepts.{
  Accepts, registered_gate, reread_gate, settled_gate, register_new, lookup-registered, settle_new,
}
use pakta.Settlement.Adapter.Payments.{payment_of}
use pakta.Settlement.Adapter.{
  ProofVerifier, SettlementContext, settled, settle, settle_prepared, settle_from, register_fresh,
  register, after_register, on_reread, reread_by, pay, after_settle, finish, remember_proof,
  proof_record, remember_over, remember_by, remember_new, verify, matches, is_fresh, record_of,
  settlement_of, tx_hash_of,
}

matches-of_prepared : (r : PreparedRegistration) → matches r (of_prepared r) ≡ true
matches-of_prepared r = ground (arith, eq_refl r.proof_hash, eq_refl r.recipient)

no_po-unparsable : (s : Settlement) → s.po_id ≡ "" → is_settlement s ≡ false
unfolding is_settlement
no_po-unparsable s e = ground (arith, eq_refl s.po_id)

-- What `getAvailable` answers: the balance that is not committed.
abbrev pub available_of : FakeGate → ℤ
available_of g = g.balance -ℤ g.committed

-- To commit an amount and then pay it takes it from what is available.
commit_and_pay :
    (balance committed amount : ℤ)
    → (balance -ℤ amount) -ℤ (committed +ℤ amount -ℤ amount) ≡ (balance -ℤ committed) -ℤ amount
commit_and_pay balance committed amount = eq_of_parts _ _ (
    omega (
      arith,
      -ℤ_parts balance amount,
      -ℤ_parts balance committed,
      -ℤ_parts (balance -ℤ committed) amount,
      +ℤ_parts committed amount,
      -ℤ_parts (committed +ℤ amount) amount,
      -ℤ_parts (balance -ℤ amount) (committed +ℤ amount -ℤ amount),
    ))

covered_left : (a : ℤ) (amount : ℕ) → ltb_ℤ a (pos amount) ≡ false → neg_part (a -ℤ pos amount) ≡ 0
unfolding ◌-ℤ◌
covered_left a amount h = ground arith

module _ (crypto : NodeCrypto) (verifier : ProofVerifier) (deployment : Deployment)
    (signed : SignedProofOfPayable) (context : SettlementContext) (r : PreparedRegistration)
    (sig : IssuerSignatureArg) where
  abbrev pub F : GateClient FakeGate
  F = fake_client crypto

  -- What the registering transaction and the settling one answer.
  abbrev pub tx_registered : FakeGate → SubmittedTx
  tx_registered g = (next_tx crypto g).0

  module _ (w : World FakeGate) (h : Accepts crypto r sig w.gate) where
    abbrev pub tx_settled : SubmittedTx
    tx_settled =
        (next_tx crypto (
          paid crypto r.payable_id_hash (of_prepared r)
            (called "settle" (reread_gate crypto r sig w.gate h)))).0

    pay-finish :
        (register_tx : Option SubmittedTx) (s : Store)
        → pay F verifier deployment signed context r register_tx
            (of_prepared r)
            (record { gate = reread_gate crypto r sig w.gate h; store = s })
          ≡ finish F verifier deployment signed context r register_tx tx_settled
              (record { gate = settled_gate crypto r sig w.gate h; store = s })
    unfolding pay after_settle
    pay-finish register_tx s =
        rw (matches-of_prepared r, pay, settle_new crypto r sig w.gate h) refl

    on_reread-finish :
        (register_tx : Option SubmittedTx) (s : Store)
        → on_reread F verifier deployment signed context r register_tx
            (some (of_prepared r))
            (record { gate = reread_gate crypto r sig w.gate h; store = s })
          ≡ finish F verifier deployment signed context r register_tx tx_settled (record {
            gate = settled_gate crypto r sig w.gate h;
            store =
                set_proof_status r.payable_id_hash ProofStatus.registered
                  (tx_hash_of register_tx)
                  s;
          })
    unfolding on_reread reread_by
    on_reread-finish register_tx s = pay-finish register_tx _

    after_register-finish :
        (tx : SubmittedTx) (s : Store)
        → after_register F verifier deployment signed context r
            (ok tx)
            (record { gate = registered_gate crypto r sig w.gate h; store = s })
          ≡ finish F verifier deployment signed context r (some tx) tx_settled (record {
            gate = settled_gate crypto r sig w.gate h;
            store = set_proof_status r.payable_id_hash ProofStatus.registered (some tx.tx_hash) s;
          })
    unfolding after_register get_payable
    after_register-finish tx s =
        rw (lookup-registered crypto r sig w.gate h) (on_reread-finish (some tx) s)

  module _ (w : World FakeGate) (h : Accepts crypto r sig (called "getPayable" w.gate))
      (signature : verifier.issuer_signature signed ≡ ok sig) where
    register_fresh-finish :
        is_fresh r w.gate.clock ≡ true
        → (s : Store)
        → let v : World FakeGate = record { gate = called "getPayable" w.gate; store = w.store } in
          register_fresh F verifier deployment signed context r w.gate.clock
            (record { gate = called "getPayable" w.gate; store = s })
          ≡ finish F verifier deployment signed context r
              (some (tx_registered (called "getPayable" w.gate)))
              (tx_settled v h)
              (record {
                gate = settled_gate crypto r sig (called "getPayable" w.gate) h;
                store =
                    set_proof_status r.payable_id_hash ProofStatus.registered
                      (some (tx_registered (called "getPayable" w.gate)).tx_hash)
                      s;
              })
    unfolding register_fresh register
    register_fresh-finish fresh s =
        rw
          (
            fresh,
            register_fresh,
            signature,
            register_new crypto r sig (called "getPayable" w.gate) h,
          )
          (after_register-finish (record { gate = called "getPayable" w.gate; store = w.store }) h _
            s)

  -- Remembering the proof leaves the gate and the settlements alone.
  abbrev RemembersIn : World FakeGate → Outcome (Unit {0}) × World FakeGate → Type 0
  RemembersIn w result =
      (s : Store) × (result ≡ (ok tt, record { gate = w.gate; store = s }))
      × (s.settlements ≡ w.store.settlements)

  module _ (amount : String)
      (converted : verifier.units_to_decimal r.amount_units ≡ ok amount) where
    remember_new-in :
        (w : World FakeGate) → RemembersIn w (remember_new F verifier deployment signed context r w)
    unfolding remember_new upsert_proof
    remember_new-in w = (
      upsert_proof (proof_record F verifier deployment signed context r amount) w.store,
      rw (converted, remember_new) refl,
      refl,
    )

    remember_by-in :
        (status : ProofStatus) (w : World FakeGate)
        → RemembersIn w (remember_by F verifier deployment signed context status r w)
    unfolding remember_by
    remember_by-in ProofStatus.signed w = remember_new-in w
    remember_by-in _ w = (w.store, refl, refl)

    remember_over-in :
        (old : Option ProofRecord) (w : World FakeGate)
        → RemembersIn w (remember_over F verifier deployment signed context r old w)
    unfolding remember_over
    remember_over-in none w = remember_new-in w
    remember_over-in (some old) w = remember_by-in old.status w

    -- The run up to the end of the gate's `settle`.
    settle-finish :
        (w : World FakeGate) (h : Accepts crypto r sig (called "getPayable" w.gate))
        → verifier.verify_signed_proof signed deployment ≡ ok r
        → verifier.issuer_signature signed ≡ ok sig
        → is_fresh r w.gate.clock ≡ true
        → (s : Store) × (settle F verifier deployment signed context w
            ≡ finish F verifier deployment signed context r
                (some (tx_registered (called "getPayable" w.gate)))
                (tx_settled (record { gate = called "getPayable" w.gate; store = w.store }) h)
                (record {
                  gate = settled_gate crypto r sig (called "getPayable" w.gate) h;
                  store = s;
                }))
          × (s.settlements ≡ w.store.settlements)
    unfolding settle settle_prepared remember_proof get_payable settle_from
    settle-finish w h verified signature fresh =
        let (s, done, same) = remember_over-in (get_proof_by_id_hash r.payable_id_hash w.store) w in
        (
          set_proof_status r.payable_id_hash ProofStatus.registered
              (some (tx_registered (called "getPayable" w.gate)).tx_hash) s,
          rw (verified, settle, verify, done, h.absent)
              (register_fresh-finish w h signature fresh s),
          set_proof_status-settlements r.payable_id_hash ProofStatus.registered _ s ∙ same,
        )

    -- What the record of the settlement will say.
    abbrev pub receipt :
        (w : World FakeGate) → Accepts crypto r sig (called "getPayable" w.gate) → Settlement
    receipt w h =
        let tx = tx_settled (record { gate = called "getPayable" w.gate; store = w.store }) h in
        settlement_of (record_of F verifier deployment signed context r tx.tx_hash tx.ledger 0)

    settled_gate-books :
        (g : FakeGate) (h : Accepts crypto r sig g)
        → ((settled_gate crypto r sig g h).payments ≡ g.payments ++ payment_of r ∷ [])
          × (lookup r.payable_id_hash (settled_gate crypto r sig g h).payables
              ≡ some (with_status OnChainStatus.settled (of_prepared r)))
    unfolding next_tx
    settled_gate-books g h =
        (refl, lookup-insert r.payable_id_hash r.payable_id_hash _ _ ∙ simp eq_refl)

    settled_gate-available :
        (g : FakeGate) (h : Accepts crypto r sig g)
        → available_of (settled_gate crypto r sig g h) ≡ available_of g -ℤ pos r.amount_units
    unfolding next_tx
    settled_gate-available g h = commit_and_pay g.balance g.committed (pos r.amount_units)

    -- A verified proof that is not about to lapse, for a payable that the gate has not seen, on a
    -- gate that trusts its issuer, answers, and has the amount available: if the settlement can be
    -- parsed, `settle` answers SETTLED with it, makes the payment that the proof names, leaves the
    -- payable SETTLED, takes the amount from what is available and leaves that at 0 or more, and the
    -- store has a settlement for the payable.
    pub settle_new_payable :
        (w : World FakeGate) (h : Accepts crypto r sig (called "getPayable" w.gate))
        → verifier.verify_signed_proof signed deployment ≡ ok r
        → verifier.issuer_signature signed ≡ ok sig
        → is_fresh r w.gate.clock ≡ true
        → is_settlement (receipt w h) ≡ true
        → ltb_ℤ (available_of w.gate) (pos r.amount_units) ≡ false
        → let (o, w') = settle F verifier deployment signed context w in
          ((tx : SubmittedTx) × (tx' : SubmittedTx) × (o
              ≡ ok (settled (receipt w h) (some tx) tx')))
          × (w'.gate.payments ≡ w.gate.payments ++ payment_of r ∷ [])
          × (lookup r.payable_id_hash w'.gate.payables
              ≡ some (with_status OnChainStatus.settled (of_prepared r)))
          × (available_of w'.gate ≡ available_of w.gate -ℤ pos r.amount_units)
          × (neg_part (available_of w'.gate) ≡ 0)
          × (has signed.proof.payable_id w'.store.settlements ≡ true)
    unfolding finish
    settle_new_payable w h verified signature fresh parses covered =
        let (s, end, same) = settle-finish w h verified signature fresh in
        let (payments, payables) = settled_gate-books (called "getPayable" w.gate) h in
        let left = settled_gate-available (called "getPayable" w.gate) h in
        rw (end, finish, parses)
          (
            (_, _, refl),
            payments,
            payables,
            left,
            ap neg_part left ∙ covered_left (available_of w.gate) r.amount_units covered,
            rw
                (
                  add_settled_fingerprint-settlements context.fingerprint _ _,
                  set_proof_status-settlements r.payable_id_hash _ _ _,
                )
                (has-record_settlement _ s),
          )

    -- A verified proof that is not about to lapse, for a payable that the in-memory gate has not seen,
    -- on a gate that trusts its issuer and answers, where the amount converts and `poId` is the empty
    -- text, as it is for a payable with no purchase order: the payment is made, `settle` throws the
    -- schema's error, and the recorded settlements stay as they were.
    pub settle_without_po :
        (w : World FakeGate) (h : Accepts crypto r sig (called "getPayable" w.gate))
        → verifier.verify_signed_proof signed deployment ≡ ok r
        → verifier.issuer_signature signed ≡ ok sig
        → is_fresh r w.gate.clock ≡ true
        → context.po_id ≡ ""
        → let (o, w') = settle F verifier deployment signed context w in
          (o ≡ threw (other "ZodError"))
          × (w'.gate.payments ≡ w.gate.payments ++ payment_of r ∷ [])
          × (w'.store.settlements ≡ w.store.settlements)
    unfolding finish
    settle_without_po w h verified signature fresh no_po =
        let (s, end, same) = settle-finish w h verified signature fresh in
        let (payments, payables) = settled_gate-books (called "getPayable" w.gate) h in
        rw (end, finish, no_po-unparsable (receipt w h) no_po) (refl, payments, same)
