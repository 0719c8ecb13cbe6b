-- ===== src/Settlement/Agent.antt =====
-- packages/settlement/src/agent.ts: SettlementAgent, the cycle that pays what the kernel lists as READY.
-- The indexer's poll and the list of payables are the constructor's options.
pub mod Loop
pub mod Cycle
pub mod Report
pub mod Paid
mod Examples
use pakta.Base.{
  ℕ, suc, ◌+◌, ◌*◌, ◌/◌, String, Bool, true, false, not, ◌&&◌, Option, none, some, List, [], ◌∷◌,
  ◌++◌, map, if◌then◌else◌, select, sort_by, is_some,
}
use Prim.Native.String
use pakta.Base.Int.{ℤ, pos, ltb_ℤ, leb_ℤ, ◌-ℤ◌}
use pakta.Base.Outcome.{
  Outcome, ok, threw, Failure, gate_error, refused, other, RefusalReason, stale_proof,
  already_closed, onchain_mismatch, invalid_proof, gate_refused,
}
use pakta.Canonical.Proof.{ProofOfPayable, SignedProofOfPayable, Settlement}
use pakta.Wrapper.Amount.{decimal_to_units}
use pakta.Settlement.Action.{
  World, Action, return, ask_gate, read, of_outcome, attempt, modify_store, ◌>>=◌, ◌>>◌,
}
use pakta.Settlement.Chain.{
  OnChainStatus, OnChainPayable, PreparedRegistration, SubmittedTx, GateClient,
}
use pakta.Settlement.Deployment.{Deployment}
use pakta.Settlement.Store.{
  Store, ProofStatus, ProofRecord, is_registered, get_proof, get_settlement, set_proof_status,
  list_open_registrations,
}
use pakta.Settlement.Adapter
use pakta.Settlement.Adapter.{SettlementContext, SettlementOutcome}
use pakta.Settlement.Indexer.{IndexerReport}
use pakta.Settlement.Registration.{Codecs, Issuer, sign}

pub record ReadyPayable : Type 0 where
  pub proof : ProofOfPayable
  pub context : SettlementContext

-- `outcome` is true for SETTLED and false for ALREADY_SETTLED.
pub record SettledEntry : Type 0 where
  pub payable_id : String
  pub outcome : Bool
  pub tx_hash : Option String

pub record ReasonEntry : Type 0 where
  pub payable_id : String
  pub reason : String

pub record AgentReport : Type 0 where
  pub indexed : Option IndexerReport
  pub swept : ℕ
  pub settled : List SettledEntry
  pub skipped : List ReasonEntry
  pub failed : List ReasonEntry

-- The constructor's options: the adapter's `settle`, the gate with the clock, the issuer, the
-- indexer's `poll` where there is one, and `listReady`.
pub record AgentOptions (G : Type 0) : Type 0 where
  pub settle : SignedProofOfPayable → SettlementContext → Action G SettlementOutcome
  pub gate : GateClient G
  pub codecs : Codecs
  pub issuer : Issuer
  pub deployment : Deployment
  pub poll : Option (Action G IndexerReport)
  pub list_ready : Action G (List ReadyPayable)
  -- The store's `getProof`, which may reject: on Postgres it is a query.
  pub get_proof : String → Action G (Option ProofRecord)

-- What the loop over the candidates changes.
pub record Spending : Type 0 where
  pub available : ℤ
  pub report : AgentReport

abbrev reason_text : RefusalReason → String
reason_text stale_proof = "STALE_PROOF"
reason_text already_closed = "ALREADY_CLOSED"
reason_text onchain_mismatch = "ONCHAIN_MISMATCH"
reason_text invalid_proof = "INVALID_PROOF"
reason_text gate_refused = "GATE_REFUSED"

-- `(error as Error).message`
abbrev message_of : Failure → String
message_of (gate_error message code) = message
message_of (refused message reason) = message
message_of (other message) = message

abbrev failure_text : Failure → String
failure_text (refused message reason) = String.◌++◌ (reason_text reason) (String.◌++◌ ": " message)
failure_text e = message_of e

abbrev pub skip : String → String → AgentReport → AgentReport
skip payable_id reason r = record r {
  skipped = r.skipped ++ record { payable_id = payable_id; reason = reason } ∷ [];
}

abbrev pub note_failure : String → String → AgentReport → AgentReport
note_failure payable_id reason r = record r {
  failed = r.failed ++ record { payable_id = payable_id; reason = reason } ∷ [];
}

abbrev settled_tx : SettlementOutcome → Option String
settled_tx (Adapter.settled s register_tx tx) = some tx.tx_hash
settled_tx (Adapter.already_settled none) = none
settled_tx (Adapter.already_settled (some s)) = some s.tx_hash

abbrev pub is_settled : SettlementOutcome → Bool
is_settled (Adapter.settled s register_tx tx) = true
is_settled (Adapter.already_settled s) = false

-- `outcome.status === "SETTLED" && !alreadyRegistered`
abbrev pub settle_spending : String → Bool → ℕ → Spending → Outcome SettlementOutcome → Spending
settle_spending payable_id registered amount s (ok outcome) = record {
  available =
      if is_settled outcome && not registered then s.available -ℤ pos amount else s.available;
  report = record (s.report) {
    settled =
        s.report.settled
        ++ record {
          payable_id = payable_id;
          outcome = is_settled outcome;
          tx_hash = settled_tx outcome;
        }
          ∷ [];
  };
}
settle_spending payable_id registered amount s (threw e) = record s {
  report = note_failure payable_id (failure_text e) s.report;
}

-- `Date.parse(a.proof.expires_at) - Date.parse(b.proof.expires_at)`; NaN compares as equal.
abbrev pub before_date : Option ℤ → Option ℤ → Bool
before_date (some a) (some b) = ltb_ℤ a b
before_date _ _ = false

-- `Date.parse(...) / 1000 <= nowSeconds`
abbrev pub is_past : ℕ → Option ℤ → Bool
is_past now_seconds none = false
is_past now_seconds (some at) = leb_ℤ at (pos (now_seconds * 1000))

-- `?.status === "REGISTERED"`
abbrev pub is_registered_proof : Option ProofRecord → Bool
is_registered_proof none = false
is_registered_proof (some p) = is_registered p.status

abbrev pub empty_report : AgentReport
empty_report = record { indexed = none; swept = 0; settled = []; skipped = []; failed = [] }

abbrev report_poll : Outcome IndexerReport → AgentReport
report_poll (ok indexed) = record empty_report { indexed = some indexed }
report_poll (threw e) = note_failure "(indexer)" (message_of e) empty_report

module _ {G : Type 0} (o : AgentOptions G) where
  abbrev pub parse_date : String → Option ℤ
  parse_date = o.codecs.hashing.parse_date

  -- The `try` of the loop: sign, then settle.
  abbrev pub sign_and_settle : ReadyPayable → Action G SettlementOutcome
  sign_and_settle c = do
    signed ← of_outcome (sign o.codecs c.proof o.deployment o.issuer)
    o.settle signed.0 c.context

  abbrev pub settle_candidate : ReadyPayable → Bool → ℕ → Spending → Action G Spending
  settle_candidate c registered amount s = do
    outcome ← attempt (sign_and_settle c)
    return (settle_spending c.proof.payable_id registered amount s outcome)

  -- What a candidate is checked for before anything is signed.
  unfoldable pub check_candidate : ℕ → ReadyPayable → ℕ → Bool → Spending → Action G Spending
  check_candidate now_seconds c amount registered s =
      if not registered && ltb_ℤ s.available (pos amount)
      then return
          (record s { report = skip c.proof.payable_id "the vault has too little" s.report })
      else if is_past now_seconds (parse_date c.proof.expires_at)
      then return (record s { report = skip c.proof.payable_id "proof already expired" s.report })
      else settle_candidate c registered amount s

  -- One round of the loop. An amount that is no decimal ends the cycle, and so does a read of the
  -- store that rejects: both stand outside the `try`.
  abbrev pub run_candidate : ℕ → ReadyPayable → Spending → Action G Spending
  run_candidate now_seconds c s = do
    amount ← of_outcome (decimal_to_units c.proof.amount)
    known ← o.get_proof c.proof.payable_id
    check_candidate now_seconds c amount (is_registered_proof known) s

  abbrev pub run_candidates : ℕ → List ReadyPayable → Spending → Action G Spending
  run_candidates now_seconds [] s = return s
  run_candidates now_seconds (c ∷ cs) s =
      run_candidate now_seconds c s >>= run_candidates now_seconds cs

  -- What has no settlement yet, the soonest to expire first.
  abbrev pub candidates_of : List ReadyPayable → Store → List ReadyPayable
  candidates_of ready s =
      sort_by (λ a b. before_date (parse_date a.proof.expires_at) (parse_date b.proof.expires_at))
        (select (λ c. not (is_some (get_settlement c.proof.payable_id s))) ready)

  -- What the sweep does with one lapsed registration, by the chain's answer.
  abbrev pub mark_status : String → OnChainStatus → ℕ → Action G ℕ
  mark_status id OnChainStatus.expired expired =
      modify_store (set_proof_status id ProofStatus.expired none) >> return (expired + 1)
  mark_status id OnChainStatus.settled expired =
      modify_store (set_proof_status id ProofStatus.settled none) >> return expired
  mark_status id _ expired = return expired

  abbrev pub mark_swept : String → Option OnChainPayable → ℕ → Action G ℕ
  mark_swept id none expired = return expired
  mark_swept id (some p) expired = mark_status id p.status expired

  unfoldable pub mark_lapsed : List ProofRecord → ℕ → Action G ℕ
  mark_lapsed [] expired = return expired
  mark_lapsed (p ∷ ps) expired =
      (ask_gate (o.gate.get_payable p.payable_id_hash) >>= λ on_chain.
      mark_swept p.payable_id_hash on_chain expired)
      >>= mark_lapsed ps

  abbrev pub lapsed_of : ℕ → Store → List ProofRecord
  lapsed_of now_seconds s =
      select (λ p. ltb_ℤ p.expiry (pos now_seconds)) (list_open_registrations s)

  abbrev pub sweep_lapsed : List ProofRecord → Action G ℕ
  sweep_lapsed [] = return 0
  sweep_lapsed (p ∷ ps) = do
    tx ← ask_gate (o.gate.expire_batch (map (λ q. q.payable_id_hash) (p ∷ ps)))
    mark_lapsed (p ∷ ps) 0

  -- `#sweep`
  unfoldable pub sweep : Action G ℕ
  sweep = do
    now_ms ← read (λ w. o.gate.now w.gate)
    lapsed ← read (λ w. lapsed_of (now_ms / 1000) w.store)
    sweep_lapsed lapsed

  -- The catching up at the start of a cycle: a failure is only reported.
  abbrev pub catch_up : Option (Action G IndexerReport) → Action G AgentReport
  catch_up none = return empty_report
  catch_up (some poll) = do indexed ← attempt poll; return (report_poll indexed)

  abbrev pub pay_candidates : ℕ → List ReadyPayable → AgentReport → ℤ → Action G AgentReport
  pay_candidates now_seconds candidates report available = do
    end ← run_candidates now_seconds candidates (record { available = available; report = report })
    return end.report

  abbrev pub pay_listed : ℕ → AgentReport → List ReadyPayable → Action G AgentReport
  pay_listed now_seconds report ready = do
    candidates ← read (λ w. candidates_of ready w.store)
    available ← ask_gate o.gate.get_available
    pay_candidates now_seconds candidates report available

  -- After the sweep: the clock, the list, and the candidates one by one.
  abbrev pub pay_ready : AgentReport → Action G AgentReport
  pay_ready report = do
    now_ms ← read (λ w. o.gate.now w.gate)
    ready ← o.list_ready
    pay_listed (now_ms / 1000) report ready

  -- `runOnce`
  unfoldable pub run_once : Action G AgentReport
  run_once = do report ← catch_up o.poll; swept ← sweep; pay_ready (record report { swept = swept })
