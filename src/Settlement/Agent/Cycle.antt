-- ===== src/Settlement/Agent/Cycle.antt =====
-- What a whole cycle does to the outside world: all that its calls do, one after another.
use pakta.Base.{
  ℕ, String, Bool, not, ◌&&◌, ◌≡◌, refl, Option, none, some, List, [], ◌∷◌, All, All-select,
  All-sort_by, Bool-cases, inl, inr, is_some, select, map, ◌/◌,
}
use pakta.Base.Int.{ℤ, ltb_ℤ, pos}
use pakta.Base.Outcome.{Outcome, ok, threw, Outcome-cases}
use pakta.Canonical.Proof.{SignedProofOfPayable}
use pakta.Wrapper.Amount.{decimal_to_units}
use pakta.Settlement.Action.{World, Action, proceed, return, ask_gate, ◌>>=◌}
use pakta.Settlement.Chain.{OnChainStatus, OnChainPayable, PreparedRegistration}
use pakta.Settlement.Indexer.{IndexerReport}
use pakta.Settlement.Store.{ProofRecord, get_settlement}
use pakta.Settlement.Registration.{sign}
use pakta.Settlement.Agent.{
  AgentOptions, AgentReport, ReadyPayable, Spending, sign_and_settle, settle_candidate,
  check_candidate, run_candidate, run_candidates, candidates_of, pay_candidates, pay_listed,
  mark_status, mark_swept, mark_lapsed, sweep_lapsed, sweep, lapsed_of, catch_up, pay_ready,
  run_once, is_registered_proof, is_past, before_date, parse_date,
}

module _ {ℓ} {G : Type 0} (R : G → G → Type ℓ) where
  -- A step relates the world before it to the world after it, also when it throws.
  abbrev pub Moves : {A : Type 0} → (World G → Outcome A × World G) → Type ℓ
  Moves m = (w : World G) → R w.gate (m w).1.gate

module _ {ℓ} {G : Type 0} (R : G → G → Type ℓ) (stay : (g : G) → R g g)
    (chain : (f g h : G) → R f g → R g h → R f h) where
  proceed-Moves :
      {A B : Type 0} (k : A → World G → Outcome B × World G) (o : Outcome A) (w : World G)
      → ((a : A) → Moves R (k a))
      → R w.gate (proceed k (o, w)).1.gate
  proceed-Moves k (ok a) w later = later a w
  proceed-Moves k (threw e) w later = stay w.gate

  bind-Moves :
      {A B : Type 0} (m : World G → Outcome A × World G) (k : A → World G → Outcome B × World G)
      → Moves R m
      → ((a : A) → Moves R (k a))
      → Moves R (m >>= k)
  bind-Moves m k first later w =
      chain w.gate (m w).1.gate (proceed k (m w)).1.gate (first w)
        (proceed-Moves k (m w).0 (m w).1 later)

  module _ (o : AgentOptions G) (Listed : ReadyPayable → Type 0)
      (query : (id : String) → Moves R (ask_gate (o.gate.get_payable id)))
      (available : Moves R (ask_gate o.gate.get_available))
      (expires : (ids : List String) → Moves R (ask_gate (o.gate.expire_batch ids)))
      (polls : (poll : Action G IndexerReport) → o.poll ≡ some poll → Moves R poll)
      (lists : Moves R o.list_ready) (reads : (id : String) → Moves R (o.get_proof id))
      (listed : (w : World G) (ready : List ReadyPayable)
        → (o.list_ready w).0 ≡ ok ready
        → All Listed ready)
      (settles : (c : ReadyPayable)
        → Listed c
        → (signed : SignedProofOfPayable × PreparedRegistration)
        → sign o.codecs c.proof o.deployment o.issuer ≡ ok signed
        → Moves R (o.settle signed.0 c.context)) where
    sign_and_settle-Moves : (c : ReadyPayable) → Listed c → Moves R (sign_and_settle o c)
    sign_and_settle-Moves c hc w =
        elim (Outcome-cases (sign o.codecs c.proof o.deployment o.issuer)) [
          | inl (e, failed) ↦ rw failed (stay w.gate)
          | inr (signed, given) ↦ rw given (settles c hc signed given w)
        ]

    settle_candidate-Moves :
        (c : ReadyPayable) (registered : Bool) (amount : ℕ) (s : Spending)
        → Listed c
        → Moves R (settle_candidate o c registered amount s)
    settle_candidate-Moves c registered amount s hc w = sign_and_settle-Moves c hc w

    check_candidate-Moves :
        (now : ℕ) (c : ReadyPayable) (amount : ℕ) (registered : Bool) (s : Spending)
        → Listed c
        → Moves R (check_candidate o now c amount registered s)
    unfolding check_candidate
    check_candidate-Moves now c amount registered s hc w =
        elim (Bool-cases (not registered && ltb_ℤ s.available (pos amount))) [
          | inl poor ↦ rw poor (stay w.gate)
          | inr rich ↦ elim (Bool-cases (is_past now (parse_date o c.proof.expires_at))) [
            | inl late ↦ rw (rich, late) (stay w.gate)
            | inr timely ↦ rw (rich, timely) (settle_candidate-Moves c registered amount s hc w)
          ]
        ]

    run_candidate-Moves :
        (now : ℕ) (c : ReadyPayable) (s : Spending) → Listed c → Moves R (run_candidate o now c s)
    run_candidate-Moves now c s hc w = elim (Outcome-cases (decimal_to_units c.proof.amount)) [
      | inl (e, failed) ↦ rw failed (stay w.gate)
      | inr (amount, given) ↦ rw given (
          bind-Moves (o.get_proof c.proof.payable_id)
            (λ known. check_candidate o now c amount (is_registered_proof known) s)
            (reads c.proof.payable_id)
            (λ known. check_candidate-Moves now c amount (is_registered_proof known) s hc) w)
    ]

    run_candidates-Moves :
        (now : ℕ) (cs : List ReadyPayable) (s : Spending)
        → All Listed cs
        → Moves R (run_candidates o now cs s)
    run_candidates-Moves now [] s hcs w = stay w.gate
    run_candidates-Moves now (c ∷ cs) s hcs w =
        bind-Moves (run_candidate o now c s) (run_candidates o now cs)
          (run_candidate-Moves now c s hcs.0) (λ s'. run_candidates-Moves now cs s' hcs.1) w

    mark_swept-Moves :
        (id : String) (p : Option OnChainPayable) (n : ℕ) → Moves R (mark_swept o id p n)
    mark_swept-Moves id none n w = stay w.gate
    mark_swept-Moves id (some p) n w = by_status p.status
      where
        by_status : (status : OnChainStatus) → R w.gate (mark_status o id status n w).1.gate
        by_status OnChainStatus.ready = stay w.gate
        by_status OnChainStatus.settled = stay w.gate
        by_status OnChainStatus.expired = stay w.gate
        by_status OnChainStatus.revoked = stay w.gate

    mark_lapsed-Moves : (ps : List ProofRecord) (n : ℕ) → Moves R (mark_lapsed o ps n)
    unfolding mark_lapsed
    mark_lapsed-Moves [] n w = stay w.gate
    mark_lapsed-Moves (p ∷ ps) n w =
        bind-Moves
          (ask_gate (o.gate.get_payable p.payable_id_hash) >>= λ on_chain.
            mark_swept o p.payable_id_hash on_chain n)
          (mark_lapsed o ps)
          (bind-Moves (ask_gate (o.gate.get_payable p.payable_id_hash))
            (λ on_chain. mark_swept o p.payable_id_hash on_chain n) (query p.payable_id_hash)
            (λ on_chain. mark_swept-Moves p.payable_id_hash on_chain n))
          (mark_lapsed-Moves ps) w

    sweep_lapsed-Moves : (ps : List ProofRecord) → Moves R (sweep_lapsed o ps)
    sweep_lapsed-Moves [] w = stay w.gate
    sweep_lapsed-Moves (p ∷ ps) w =
        let ids = map (λ q. q.payable_id_hash) (p ∷ ps) in
        bind-Moves (ask_gate (o.gate.expire_batch ids)) (λ _. mark_lapsed o (p ∷ ps) 0)
          (expires ids) (λ _. mark_lapsed-Moves (p ∷ ps) 0) w

    sweep-Moves : Moves R (sweep o)
    unfolding sweep
    sweep-Moves w = sweep_lapsed-Moves (lapsed_of o (o.gate.now w.gate / 1000) w.store) w

    catch_up-Moves :
        (poll : Option (Action G IndexerReport)) → o.poll ≡ poll → Moves R (catch_up o poll)
    catch_up-Moves none h w = stay w.gate
    catch_up-Moves (some poll) h w = polls poll h w

    candidates_of-Listed :
        (ready : List ReadyPayable) (w : World G)
        → All Listed ready
        → All Listed (candidates_of o ready w.store)
    candidates_of-Listed ready w h =
        All-sort_by Listed
          (λ a b. before_date (parse_date o a.proof.expires_at) (parse_date o b.proof.expires_at))
          (select (λ c. not (is_some (get_settlement c.proof.payable_id w.store))) ready)
          (All-select Listed (λ c. not (is_some (get_settlement c.proof.payable_id w.store))) ready
            h)

    pay_candidates-Moves :
        (now : ℕ) (cs : List ReadyPayable) (report : AgentReport) (a : ℤ)
        → All Listed cs
        → Moves R (pay_candidates o now cs report a)
    pay_candidates-Moves now cs report a h =
        bind-Moves (run_candidates o now cs (record { available = a; report = report }))
          (λ end. return end.report)
          (run_candidates-Moves now cs (record { available = a; report = report }) h)
          (λ end w. stay w.gate)

    -- From the list of payables on.
    pay_listed-Moves :
        (now : ℕ) (report : AgentReport) (ready : List ReadyPayable) (w : World G)
        → All Listed ready
        → R w.gate (pay_listed o now report ready w).1.gate
    pay_listed-Moves now report ready w h =
        bind-Moves (ask_gate o.gate.get_available)
          (λ a. pay_candidates o now (candidates_of o ready w.store) report a) available
          (λ a.
            pay_candidates-Moves now (candidates_of o ready w.store) report a
              (candidates_of-Listed ready w h))
          w

    after_list :
        (now : ℕ) (report : AgentReport) (answer : Outcome (List ReadyPayable)) (w : World G)
        → ((ready : List ReadyPayable) → answer ≡ ok ready → All Listed ready)
        → R w.gate (proceed (pay_listed o now report) (answer, w)).1.gate
    after_list now report (threw e) w h = stay w.gate
    after_list now report (ok ready) w h = pay_listed-Moves now report ready w (h ready refl)

    pay_ready-Moves : (report : AgentReport) → Moves R (pay_ready o report)
    pay_ready-Moves report w =
        let now = o.gate.now w.gate / 1000 in
        let (answer, w1) = o.list_ready w in
        chain w.gate w1.gate (proceed (pay_listed o now report) (answer, w1)).1.gate (lists w)
          (after_list now report answer w1 (listed w))

    -- Whatever every call of a cycle does to the world, the cycle does.
    pub run_once-Moves : Moves R (run_once o)
    unfolding run_once
    run_once-Moves =
        bind-Moves (catch_up o o.poll)
          (λ report. sweep o >>= λ swept. pay_ready o (record report { swept = swept }))
          (catch_up-Moves o.poll refl)
          (λ report.
            bind-Moves (sweep o) (λ swept. pay_ready o (record report { swept = swept }))
              sweep-Moves (λ swept. pay_ready-Moves (record report { swept = swept })))
