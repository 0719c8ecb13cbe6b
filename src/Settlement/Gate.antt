-- ===== src/Settlement/Gate.antt =====
-- packages/settlement/src/fakeGate.ts: the in-memory gate with the contract's rules.
-- Hashing and Ed25519 come from node:crypto and are parameters.
pub mod Ledger
pub mod Entries
pub mod Soundness
pub mod Accepts
use pakta.Base.{
  ℕ, ◌+◌, ◌/◌, String, Bool, true, false, not, ◌&&◌, ◌==◌, Option, none, some, List, [], ◌∷◌, ◌++◌,
  if◌then◌else◌,
}
use Prim.Native.String
use pakta.Base.Int.{ℤ, pos, ◌+ℤ◌, ◌-ℤ◌, ltb_ℤ}
use pakta.Base.Map.{lookup, has, insert}
use pakta.Base.Outcome.{Outcome, ok, threw, Failure, gate_error, other}
use pakta.Base.Show.{show}
use pakta.Settlement.Chain.{
  OnChainStatus, OnChainPayable, PreparedRegistration, IssuerSignatureArg, SubmittedTx, GateClient,
  same_status,
}

-- What node:crypto does: SHA-256 as hex, and an Ed25519 check against a hex digest.
pub record NodeCrypto : Type 0 where
  pub sha256_hex : String → String
  pub verify : IssuerSignatureArg → String → Bool

pub record Payment : Type 0 where
  pub payable_id_hash : String
  pub recipient : String
  pub amount : ℕ

-- `failNext` and `loseResponseOf` inject a fault into the next call of a method; `clock` is what
-- `Date.now()` answers.
pub record FakeGate : Type 0 where
  pub payables : List (String × OnChainPayable)
  pub payments : List Payment
  pub calls : List String
  pub ledger : ℕ
  pub tx_counter : ℕ
  pub committed : ℤ
  pub balance : ℤ
  pub trusted_issuer_hex : String
  pub fail_register : Option Failure
  pub fail_settle : Option Failure
  pub lose_register : Bool
  pub lose_settle : Bool
  pub clock : ℕ

-- `this.calls.push(name)`
abbrev pub called : String → FakeGate → FakeGate
called name g = record g { calls = g.calls ++ name ∷ [] }

unfoldable pub get_payable : String → FakeGate → Outcome (Option OnChainPayable) × FakeGate
get_payable id g = (ok (lookup id g.payables), called "getPayable" g)

unfoldable pub get_committed : FakeGate → Outcome ℤ × FakeGate
get_committed g = (ok g.committed, g)

unfoldable pub get_available : FakeGate → Outcome ℤ × FakeGate
get_available g = (ok (g.balance -ℤ g.committed), g)

-- The entry that `p.status = …` leaves: the other fields stay.
abbrev pub with_status : OnChainStatus → OnChainPayable → OnChainPayable
with_status status p = record p { status = status }

abbrev pub of_prepared : PreparedRegistration → OnChainPayable
of_prepared r = record {
  proof_hash = r.proof_hash;
  recipient = r.recipient;
  amount = r.amount_units;
  policy_hash = r.policy_hash;
  expiry = r.expiry;
  status = OnChainStatus.ready;
}

abbrev pub is_ready : OnChainPayable → Bool
is_ready p = same_status p.status OnChainStatus.ready

module _ (crypto : NodeCrypto) where
  open crypto use {sha256_hex, verify}

  -- `#tx`, up to the lost response.
  unfoldable pub next_tx : FakeGate → SubmittedTx × FakeGate
  next_tx g = (
    record {
      tx_hash = sha256_hex (String.◌++◌ "tx-" (show (g.tx_counter + 1)));
      ledger = g.ledger + 1;
    },
    record g { ledger = g.ledger + 1; tx_counter = g.tx_counter + 1 },
  )

  -- The write has landed, and the response is lost if that was asked for.
  answer : Bool → FakeGate → SubmittedTx × FakeGate → Outcome SubmittedTx × FakeGate
  answer true cleared (tx, g) = (threw (other "timeout waiting for the transaction"), cleared)
  answer false cleared (tx, g) = (ok tx, g)

  tx_of_register : FakeGate → Outcome SubmittedTx × FakeGate
  unfolding next_tx answer
  tx_of_register g =
      answer g.lose_register (record (next_tx g).1 { lose_register = false }) (next_tx g)

  tx_of_settle : FakeGate → Outcome SubmittedTx × FakeGate
  unfolding next_tx answer
  tx_of_settle g = answer g.lose_settle (record (next_tx g).1 { lose_settle = false }) (next_tx g)

  signature_accepted :
      FakeGate → PreparedRegistration → List IssuerSignatureArg → Outcome (Unit {0})
  signature_accepted g r [] =
      threw (gate_error "register_payable was refused" (some "UnknownIssuer"))
  signature_accepted g r (sig ∷ _) =
      if sig.issuer_public_key_hex == g.trusted_issuer_hex
      then (if verify sig r.registration_digest
          then ok tt
          else threw (gate_error "register_payable was refused" (some "InvalidSignature")))
      else threw (gate_error "register_payable was refused" (some "UnknownIssuer"))

  -- The registration of a payable that the gate does not know.
  register_absent :
      PreparedRegistration → Outcome (Unit {0}) → FakeGate → Outcome SubmittedTx × FakeGate
  unfolding tx_of_register
  register_absent r (threw e) g = (threw e, g)
  register_absent r (ok _) g = tx_of_register (record g {
    payables = insert r.payable_id_hash (of_prepared r) g.payables;
    committed = g.committed +ℤ pos r.amount_units;
  })

  register_checked :
      PreparedRegistration → List IssuerSignatureArg → FakeGate → Outcome SubmittedTx × FakeGate
  unfolding signature_accepted register_absent
  register_checked r signatures g = elim (lookup r.payable_id_hash g.payables) [
    | some _ ↦ (threw (gate_error "register_payable was refused" (some "PayableAlreadyExists")), g)
    | none ↦ register_absent r (signature_accepted g r signatures) g
  ]

  -- `#maybeFail`: a failure that was asked for is thrown once.
  register_unless :
      Option Failure
      → PreparedRegistration
      → List IssuerSignatureArg
      → FakeGate
      → Outcome SubmittedTx × FakeGate
  unfolding register_checked
  register_unless (some failure) r signatures g = (threw failure, record g { fail_register = none })
  register_unless none r signatures g = register_checked r signatures g

  unfoldable pub register_payable :
      PreparedRegistration → List IssuerSignatureArg → FakeGate → Outcome SubmittedTx × FakeGate
  unfolding register_unless
  register_payable r signatures g =
      register_unless g.fail_register r signatures (called "registerPayable" g)

  -- What `settle` does to the gate when it pays.
  abbrev pub paid : String → OnChainPayable → FakeGate → FakeGate
  paid id p g = record g {
    payables = insert id (with_status OnChainStatus.settled p) g.payables;
    committed = g.committed -ℤ pos p.amount;
    balance = g.balance -ℤ pos p.amount;
    payments =
        g.payments
        ++ record { payable_id_hash = id; recipient = p.recipient; amount = p.amount } ∷ [];
  }

  settle_checked : String → FakeGate → Outcome SubmittedTx × FakeGate
  unfolding tx_of_settle
  settle_checked id g = elim (lookup id g.payables) [
    | none ↦ (threw (gate_error "settle was refused" (some "PayableNotFound")), g)
    | some p ↦
        if is_ready p
        then tx_of_settle (paid id p g)
        else (threw (gate_error "settle was refused" (some "NotReady")), g)
  ]

  settle_unless : Option Failure → String → FakeGate → Outcome SubmittedTx × FakeGate
  unfolding settle_checked
  settle_unless (some failure) id g = (threw failure, record g { fail_settle = none })
  settle_unless none id g = settle_checked id g

  unfoldable pub settle : String → FakeGate → Outcome SubmittedTx × FakeGate
  unfolding settle_unless
  settle id g = settle_unless g.fail_settle id (called "settle" g)

  closed : OnChainStatus → String → OnChainPayable → FakeGate → FakeGate
  closed status id p g = record g {
    payables = insert id (with_status status p) g.payables;
    committed = g.committed -ℤ pos p.amount;
  }

  unfoldable pub revoke_payable : String → FakeGate → Outcome SubmittedTx × FakeGate
  unfolding closed next_tx
  revoke_payable id g = elim (lookup id g.payables) [
    | none ↦ (threw (gate_error "revoke_payable was refused" (some "NotReady")), g)
    | some p ↦
        if is_ready p
        then (let (tx, g') = next_tx (closed OnChainStatus.revoked id p g) in (ok tx, g'))
        else (threw (gate_error "revoke_payable was refused" (some "NotReady")), g)
  ]

  -- One round of `expireBatch`; `now` is in seconds.
  unfoldable pub expire_one : ℕ → String → FakeGate → FakeGate
  unfolding closed
  expire_one now id g = elim (lookup id g.payables) [
    | none ↦ g
    | some p ↦
        if is_ready p && ltb_ℤ p.expiry (pos now) then closed OnChainStatus.expired id p g else g
  ]

  unfoldable pub expire_all : ℕ → List String → FakeGate → FakeGate
  expire_all now [] g = g
  expire_all now (id ∷ ids) g = expire_all now ids (expire_one now id g)

  unfoldable pub expire_batch : List String → FakeGate → Outcome SubmittedTx × FakeGate
  unfolding next_tx
  expire_batch ids g = let (tx, g') = next_tx (expire_all (g.clock / 1000) ids g) in (ok tx, g')

  -- The fake gate behind the interface; it reads neither the reason nor the signatures of a
  -- revocation.
  abbrev pub fake_client : GateClient FakeGate
  fake_client = record {
    get_payable = get_payable;
    get_available = get_available;
    register_payable = register_payable;
    settle = settle;
    revoke_payable = λ id _ _. revoke_payable id;
    expire_batch = expire_batch;
    now = λ g. g.clock;
  }
