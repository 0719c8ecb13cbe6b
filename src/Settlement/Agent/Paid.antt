-- ===== src/Settlement/Agent/Paid.antt =====
-- What a cycle pays, on the in-memory gate: only what was listed, to the wallets that were listed.
use pakta.Base.{
  ℕ, ◌/◌, ◌&&◌, some, String, ◌≡◌, refl, sym, ◌∙◌, ap, subst, Option, List, [], ◌∷◌, ◌++◌, All,
  All-append, append_assoc, append-nil, Bool-cases, Option-cases, inl, inr,
}
use pakta.Base.Map.{lookup}
use pakta.Base.Int.{pos, ltb_ℤ}
use pakta.Base.Outcome.{Outcome, ok, threw, gate_error, refused, other, Outcome-cases}
use pakta.Canonical.Proof.{ProofOfPayable, SignedProofOfPayable, is_signed_proof}
use pakta.ProofHash.Digest.{sha256_hex}
use pakta.Wrapper.Amount.{decimal_to_units}
use pakta.Settlement.Action.{World, Action}
use pakta.Settlement.Chain.{PreparedRegistration}
use pakta.Settlement.Deployment.{Deployment}
use pakta.Settlement.Indexer.{IndexerReport}
use pakta.Settlement.Gate.{
  NodeCrypto, FakeGate, Payment, fake_client, expire_batch, expire_all, expire_one, next_tx,
  get_payable, get_available, is_ready,
}
use pakta.Settlement.Adapter
use pakta.Settlement.Adapter.{SettlementContext, SettlementOutcome, settle}
use pakta.Settlement.Adapter.Authorized.{verifier_of, unverified-payments}
use pakta.Settlement.Store.{ProofRecord}
use pakta.Settlement.Adapter.Payments.{Pays, payment_of, settle-Pays}
use pakta.Settlement.Registration.{
  Codecs, Issuer, sign, prepare_registration, envelope, verify_signed_proof,
}
use pakta.Settlement.Registration.Envelope.{Prepares, verify_signed_proof-Binds}
use pakta.Settlement.Agent.{AgentOptions, ReadyPayable, run_once}
use pakta.Settlement.Agent.Cycle.{run_once-Moves}

module _ (codecs : Codecs) (issuer : Issuer) (d : Deployment) where
  -- What the issuer signs is the proof that it was given.
  sign-proof :
      (p : ProofOfPayable) (signed : SignedProofOfPayable × PreparedRegistration)
      → sign codecs p d issuer ≡ ok signed
      → signed.0.proof ≡ p
  unfolding sign
  sign-proof p signed h = elim (Outcome-cases (prepare_registration codecs p d)) [
    | inl (e, failed) ↦ cc (h, failed)
    | inr (r, given) ↦ elim (Bool-cases (is_signed_proof (envelope codecs p d issuer r))) [
      | inr bad ↦ cc (h, given, bad)
      | inl good ↦
          let same : (envelope codecs p d issuer r, r) ≡ signed = cc (h, given, good) in
          ap (λ s. s.0.proof) (sym same)
    ]
  ]

module _ (crypto : NodeCrypto) (codecs : Codecs) (encode_hex : List ℕ → String) (issuer : Issuer)
    (d : Deployment) (poll : Option (Action FakeGate IndexerReport))
    (list_ready : Action FakeGate (List ReadyPayable))
    (get_proof : String → Action FakeGate (Option ProofRecord)) where
  -- The agent over the in-memory gate, with the adapter of that gate.
  abbrev pub fake_options : AgentOptions FakeGate
  fake_options = record {
    settle = λ signed context.
        settle (fake_client crypto) (verifier_of codecs encode_hex) d signed context;
    gate = fake_client crypto;
    codecs = codecs;
    issuer = issuer;
    deployment = d;
    poll = poll;
    list_ready = list_ready;
    get_proof = get_proof;
  }

-- A payment of a payable that satisfies `Listed`: of its id, to its wallet, of its amount.
pub record PaysListed (codecs : Codecs) (Listed : ReadyPayable → Type 0) (payment : Payment)
    : Type 0 where
  pub payable : ReadyPayable
  pub listed : Listed payable
  pub id : payment.payable_id_hash ≡ sha256_hex codecs.hashing payable.proof.payable_id
  pub recipient : payment.recipient ≡ payable.proof.vendor_wallet
  pub amount : decimal_to_units payable.proof.amount ≡ ok payment.amount

-- The payments of a gate, and more of them, each of a listed payable.
pub record PaysMore (codecs : Codecs) (Listed : ReadyPayable → Type 0) (g h : FakeGate)
    : Type 0 where
  pub more : List Payment
  pub grown : h.payments ≡ g.payments ++ more
  pub each : All (PaysListed codecs Listed) more

module _ (codecs : Codecs) (Listed : ReadyPayable → Type 0) where
  no_more : (g h : FakeGate) → h.payments ≡ g.payments → PaysMore codecs Listed g h
  no_more g h same = record { more = []; grown = same ∙ sym (append-nil g.payments); each = tt }

  PaysMore-chain :
      (f g h : FakeGate)
      → PaysMore codecs Listed f g
      → PaysMore codecs Listed g h
      → PaysMore codecs Listed f h
  PaysMore-chain f g h first later = record {
    more = first.more ++ later.more;
    grown =
        later.grown
        ∙ ap (λ ps. ps ++ later.more) first.grown
        ∙ append_assoc f.payments first.more later.more;
    each = All-append (PaysListed codecs Listed) first.more later.more first.each later.each;
  }

  one_more :
      (g h : FakeGate) (p : Payment)
      → PaysListed codecs Listed p
      → h.payments ≡ g.payments ++ p ∷ []
      → PaysMore codecs Listed g h
  one_more g h p paid grown = record { more = p ∷ []; grown = grown; each = (paid, tt) }

  Pays-PaysMore :
      (g h : FakeGate) (r : PreparedRegistration) (o : Outcome SettlementOutcome)
      → PaysListed codecs Listed (payment_of r)
      → Pays r o g.payments h.payments
      → PaysMore codecs Listed g h
  Pays-PaysMore g h r (ok (Adapter.settled s t u)) paid grown =
      one_more g h (payment_of r) paid grown
  Pays-PaysMore g h r (ok (Adapter.already_settled s)) paid same = no_more g h same
  Pays-PaysMore g h r (threw (refused m reason)) paid same = no_more g h same
  Pays-PaysMore g h r (threw (gate_error m code)) paid same = no_more g h same
  Pays-PaysMore g h r (threw (other m)) paid (inl same) = no_more g h same
  Pays-PaysMore g h r (threw (other m)) paid (inr grown) = one_more g h (payment_of r) paid grown

expire_one-payments :
    (crypto : NodeCrypto) (now : ℕ) (id : String) (g : FakeGate)
    → (expire_one crypto now id g).payments ≡ g.payments
unfolding expire_one
expire_one-payments crypto now id g = elim (Option-cases (lookup id g.payables)) [
  | inl absent ↦ rw (absent, expire_one) refl
  | inr (p, found) ↦ elim (Bool-cases (is_ready p && ltb_ℤ p.expiry (pos now))) [
    | inl lapsed ↦ rw (found, expire_one, lapsed) refl
    | inr stays ↦ rw (found, expire_one, stays) refl
  ]
]

expire_all-payments :
    (crypto : NodeCrypto) (now : ℕ) (ids : List String) (g : FakeGate)
    → (expire_all crypto now ids g).payments ≡ g.payments
unfolding expire_all
expire_all-payments crypto now [] g = refl
expire_all-payments crypto now (id ∷ ids) g =
    expire_all-payments crypto now ids (expire_one crypto now id g)
    ∙ expire_one-payments crypto now id g

expire_batch-payments :
    (crypto : NodeCrypto) (ids : List String) (g : FakeGate)
    → (expire_batch crypto ids g).1.payments ≡ g.payments
unfolding expire_batch next_tx
expire_batch-payments crypto ids g = expire_all-payments crypto (g.clock / 1000) ids g

get_payable-payments : (id : String) (g : FakeGate) → (get_payable id g).1.payments ≡ g.payments
unfolding get_payable
get_payable-payments id g = refl

get_available-same : (g : FakeGate) → (get_available g).1 ≡ g
unfolding get_available
get_available-same g = refl

get_available-payments : (g : FakeGate) → (get_available g).1.payments ≡ g.payments
unfolding get_available
get_available-payments g = refl

module _ (crypto : NodeCrypto) (codecs : Codecs) (encode_hex : List ℕ → String) (issuer : Issuer)
    (d : Deployment) (Listed : ReadyPayable → Type 0) where
  -- One run of the adapter for what the issuer signed for a listed payable.
  settle-PaysMore :
      (c : ReadyPayable)
      → Listed c
      → (signed : SignedProofOfPayable × PreparedRegistration)
      → sign codecs c.proof d issuer ≡ ok signed
      → (w : World FakeGate)
      → PaysMore codecs Listed w.gate
          (settle
            (fake_client crypto)
            (verifier_of codecs encode_hex)
            d
            signed.0
            c.context
            w).1.gate
  settle-PaysMore c hc signed given w =
      let end =
        settle (fake_client crypto) (verifier_of codecs encode_hex) d signed.0 c.context w in
      elim (Outcome-cases (verify_signed_proof codecs signed.0 d)) [
        | inl (e, bad) ↦
            no_more codecs Listed w.gate end.1.gate
              (unverified-payments codecs encode_hex crypto d signed.0 c.context w e bad)
        | inr (r, good) ↦
            let p =
              subst (λ proof. Prepares codecs proof d r)
                (sign-proof codecs issuer d c.proof signed given)
                (verify_signed_proof-Binds codecs signed.0 d r good).prepares in
            Pays-PaysMore codecs Listed w.gate end.1.gate r end.0
              (record {
                payable = c;
                listed = hc;
                id = p.id_hash;
                recipient = p.recipient;
                amount = p.units;
              })
              (settle-Pays crypto (verifier_of codecs encode_hex) d signed.0 c.context r w good)
      ]

  module _ (poll : Option (Action FakeGate IndexerReport))
      (list_ready : Action FakeGate (List ReadyPayable))
      (listed : (w : World FakeGate) (ready : List ReadyPayable)
        → (list_ready w).0 ≡ ok ready
        → All Listed ready)
      (list_reads : (w : World FakeGate) → (list_ready w).1.gate ≡ w.gate)
      (get_proof : String → Action FakeGate (Option ProofRecord))
      (proof_reads : (id : String) (w : World FakeGate) → (get_proof id w).1.gate ≡ w.gate)
      (poll_reads : (m : Action FakeGate IndexerReport)
        → poll ≡ some m
        → (w : World FakeGate) → (m w).1.gate ≡ w.gate) where
    -- With a list of payables that all satisfy `Listed`, and a list, a store and an indexer that leave
    -- the gate alone: whatever a cycle answers, and also when it throws, the payments that it adds are
    -- each that of a listed payable, under its id, to its wallet and of the units of its amount.
    pub run_once-PaysMore :
        (w : World FakeGate)
        → PaysMore codecs Listed w.gate
            (run_once
              (fake_options crypto codecs encode_hex issuer d poll list_ready get_proof)
              w).1.gate
    run_once-PaysMore =
        run_once-Moves (PaysMore codecs Listed) (λ g. no_more codecs Listed g g refl)
          (PaysMore-chain codecs Listed)
          (fake_options crypto codecs encode_hex issuer d poll list_ready get_proof) Listed
          (λ id w.
            no_more codecs Listed w.gate (get_payable id w.gate).1 (get_payable-payments id w.gate))
          (λ w.
            no_more codecs Listed w.gate (get_available w.gate).1 (get_available-payments w.gate))
          (λ ids w.
            no_more codecs Listed w.gate (expire_batch crypto ids w.gate).1
              (expire_batch-payments crypto ids w.gate))
          (λ m h w.
            no_more codecs Listed w.gate (m w).1.gate (ap (λ g. g.payments) (poll_reads m h w)))
          (λ w.
            no_more codecs Listed w.gate (list_ready w).1.gate
              (ap (λ g. g.payments) (list_reads w)))
          (λ id w.
            no_more codecs Listed w.gate (get_proof id w).1.gate
              (ap (λ g. g.payments) (proof_reads id w)))
          listed settle-PaysMore
