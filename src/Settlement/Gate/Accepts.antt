-- ===== src/Settlement/Gate/Accepts.antt =====
-- A payable that the gate has not seen yet, on a gate with no fault to inject.
use pakta.Base.{◌+◌, ◌≡◌, ◌==◌, true, false, none, some, [], ◌∷◌, arith, eq_refl, ◌∙◌}
use pakta.Base.Int.{pos, ◌+ℤ◌}
use pakta.Base.Map.{lookup, insert, lookup-insert}
use pakta.Base.Outcome.{ok}
use pakta.Settlement.Chain.{IssuerSignatureArg, PreparedRegistration}
use pakta.Settlement.Gate.{
  NodeCrypto, FakeGate, called, register_payable, settle, of_prepared, paid, next_tx,
}

-- A gate with no fault to inject that does not know the payable and trusts the key that signed.
pub record Accepts (crypto : NodeCrypto) (r : PreparedRegistration) (sig : IssuerSignatureArg)
    (g : FakeGate) : Type 0 where
  pub absent : lookup r.payable_id_hash g.payables ≡ none
  pub trusted : (sig.issuer_public_key_hex == g.trusted_issuer_hex) ≡ true
  pub verifies : crypto.verify sig r.registration_digest ≡ true
  pub register_answers : g.fail_register ≡ none
  pub settle_answers : g.fail_settle ≡ none
  pub register_response : g.lose_register ≡ false
  pub settle_response : g.lose_settle ≡ false

module _ (crypto : NodeCrypto) (r : PreparedRegistration) (sig : IssuerSignatureArg) (g : FakeGate)
    (h : Accepts crypto r sig g) where
  abbrev pub registered_gate : FakeGate
  registered_gate = record (called "registerPayable" g) {
    payables = insert r.payable_id_hash (of_prepared r) g.payables;
    committed = g.committed +ℤ pos r.amount_units;
    ledger = g.ledger + 1;
    tx_counter = g.tx_counter + 1;
  }

  pub register_new :
      register_payable crypto r (sig ∷ []) g ≡ (ok (next_tx crypto g).0, registered_gate)
  unfolding register_payable next_tx
  register_new =
      ground (arith, h.absent, h.trusted, h.verifies, h.register_answers, h.register_response)

  pub lookup-registered : lookup r.payable_id_hash registered_gate.payables ≡ some (of_prepared r)
  lookup-registered =
      lookup-insert r.payable_id_hash r.payable_id_hash (of_prepared r) g.payables ∙ simp eq_refl

  -- After the registration has been read back.
  abbrev pub reread_gate : FakeGate
  reread_gate = called "getPayable" registered_gate

  abbrev pub settled_gate : FakeGate
  settled_gate =
      (next_tx crypto
        (paid crypto r.payable_id_hash (of_prepared r) (called "settle" reread_gate))).1

  pub settle_new : settle crypto r.payable_id_hash reread_gate ≡ (
    ok
        (next_tx crypto
          (paid crypto r.payable_id_hash (of_prepared r) (called "settle" reread_gate))).0,
    settled_gate,
  )
  unfolding settle next_tx
  settle_new = ground (arith, lookup-registered)
