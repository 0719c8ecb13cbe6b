-- ===== src/Settlement/Agent/Report.antt =====
-- What the loop over the candidates reports, and what it may still spend.
use pakta.Base.{
  ℕ, ◌+◌, String, Bool, true, false, not, ◌&&◌, ◌≡◌, refl, List, [], ◌∷◌, arith, length,
  length-append, Bool-cases, inl, inr, ◌⊎◌, Option, sym, subst, IsIn, IsIn-later,
}
use pakta.Base.Int.{ℤ, pos, neg_part, ltb_ℤ, ◌-ℤ◌}
use pakta.Base.Outcome.{Outcome, Failure, ok, threw, Outcome-cases}
use pakta.Wrapper.Amount.{decimal_to_units}
use pakta.Settlement.Action.{World, proceed}
use pakta.Settlement.Store.{ProofRecord}
use pakta.Settlement.Adapter.{SettlementOutcome}
use pakta.Settlement.Agent.{
  AgentOptions, AgentReport, ReadyPayable, Spending, settle_spending, is_settled, sign_and_settle,
  check_candidate, run_candidate, run_candidates, is_registered_proof, is_past, parse_date,
}

-- The entries of a report, one for each candidate that was looked at.
abbrev pub entries : AgentReport → ℕ
entries r = length r.settled + length r.skipped + length r.failed

-- The vault's headroom, as the agent counts it, is not below 0.
abbrev pub Funded : Spending → Type 0
Funded s = neg_part s.available ≡ 0

-- One more entry, and still not overspent.
abbrev GoesOn : Spending → Spending → Type 0
GoesOn s t = (entries t.report ≡ entries s.report + 1) × (Funded s → Funded t)

spend_within : (a : ℤ) (amount : ℕ) → ltb_ℤ a (pos amount) ≡ false → neg_part (a -ℤ pos amount) ≡ 0
unfolding ◌-ℤ◌
spend_within a amount h = ground arith

settle_spending-available :
    (payable_id : String) (registered : Bool) (amount : ℕ) (s : Spending)
    (answer : Outcome SettlementOutcome)
    → (not registered && ltb_ℤ s.available (pos amount)) ≡ false
    → Funded s
    → Funded (settle_spending payable_id registered amount s answer)
settle_spending-available payable_id registered amount s (threw e) rich h = h
settle_spending-available payable_id true amount s (ok outcome) rich h =
    elim (Bool-cases (is_settled outcome)) [ inl paid ↦ rw paid h | inr already ↦ rw already h ]
settle_spending-available payable_id false amount s (ok outcome) rich h =
    elim (Bool-cases (is_settled outcome)) [
      | inl paid ↦ rw paid (spend_within s.available amount rich)
      | inr already ↦ rw already h
    ]

settle_spending-entries :
    (payable_id : String) (registered : Bool) (amount : ℕ) (s : Spending)
    (answer : Outcome SettlementOutcome)
    → entries (settle_spending payable_id registered amount s answer).report ≡ entries s.report + 1
settle_spending-entries payable_id registered amount s (ok outcome) =
    omega (arith, length-append s.report.settled)
settle_spending-entries payable_id registered amount s (threw e) =
    omega (arith, length-append s.report.failed)

module _ {G : Type 0} (o : AgentOptions G) where
  -- A candidate whose amount is a decimal is settled, skipped or failed.
  check_candidate-GoesOn :
      (now : ℕ) (c : ReadyPayable) (amount : ℕ) (registered : Bool) (s : Spending) (w : World G)
      → (t : Spending) × ((check_candidate o now c amount registered s w).0 ≡ ok t) × (GoesOn s t)
  unfolding check_candidate
  check_candidate-GoesOn now c amount registered s w =
      elim (Bool-cases (not registered && ltb_ℤ s.available (pos amount))) [
        | inl poor ↦ rw poor (_, refl, (omega (arith, length-append s.report.skipped), λ h. h))
        | inr rich ↦ elim (Bool-cases (is_past now (parse_date o c.proof.expires_at))) [
          | inl late ↦
              rw (rich, late) (_, refl, (omega (arith, length-append s.report.skipped), λ h. h))
          | inr timely ↦
              let answer = (sign_and_settle o c w).0 in
              rw (rich, timely)
                (
                  settle_spending c.proof.payable_id registered amount s answer,
                  refl,
                  (
                    settle_spending-entries c.proof.payable_id registered amount s answer,
                    settle_spending-available c.proof.payable_id registered amount s answer rich,
                  ),
                )
        ]
      ]

  -- What a candidate may end the loop with: its amount is no decimal, or the store did not answer.
  abbrev pub Stops : ReadyPayable → Failure → Type 0
  Stops c e =
      (decimal_to_units c.proof.amount ≡ threw e)
      ⊎ ((w : World G) × ((o.get_proof c.proof.payable_id w).0 ≡ threw e))

  -- What one round comes to.
  abbrev EndsOne : ReadyPayable → Spending → Outcome Spending → Type 0
  EndsOne c s (ok t) = GoesOn s t
  EndsOne c s (threw e) = Stops c e

  -- What the loop comes to: one entry for each candidate, or what one of them ended it with.
  abbrev pub Ends : List ReadyPayable → Spending → Outcome Spending → Type 0
  Ends cs s (ok t) = (entries t.report ≡ entries s.report + length cs) × (Funded s → Funded t)
  Ends cs s (threw e) = (c : ReadyPayable) × IsIn c cs × Stops c e

  run_candidate-EndsOne :
      (now : ℕ) (c : ReadyPayable) (s : Spending) (w : World G)
      → EndsOne c s (run_candidate o now c s w).0
  run_candidate-EndsOne now c s w = elim (Outcome-cases (decimal_to_units c.proof.amount)) [
    | inl (e, failed) ↦ rw failed (inl failed)
    | inr (amount, given) ↦ rw given (
        by_known amount (o.get_proof c.proof.payable_id w).0 (o.get_proof c.proof.payable_id w).1
          refl)
  ]
    where
      by_known :
          (amount : ℕ) (known : Outcome (Option ProofRecord)) (w' : World G)
          → (o.get_proof c.proof.payable_id w).0 ≡ known
          → EndsOne c s
              (proceed
                (λ p. check_candidate o now c amount (is_registered_proof p) s)
                (known, w')).0
      by_known amount (threw e) w' h = inr (w, h)
      by_known amount (ok p) w' h =
          let (t, given, goes) = check_candidate-GoesOn now c amount (is_registered_proof p) s w' in
          subst (EndsOne c s) (sym given) goes

  Ends-later :
      (c : ReadyPayable) (cs : List ReadyPayable) (s t : Spending) (answer : Outcome Spending)
      → GoesOn s t
      → Ends cs t answer
      → Ends (c ∷ cs) s answer
  Ends-later c cs s t (ok u) first later =
      (omega (arith, first.0, later.0), λ f. later.1 (first.1 f))
  Ends-later c cs s t (threw e) first (c', place, stops) = (c', IsIn-later c' c cs place, stops)

  -- The loop over the candidates ends in one of two ways, whatever signing and settling answer.
  -- Either it returns: each candidate has one more entry in the report, among the settled, the
  -- skipped or the failed, and a headroom that begins at 0 or more ends at 0 or more. Or it throws,
  -- and what it throws is that the amount of a candidate is no decimal, or what the store's getProof
  -- threw for one.
  pub run_candidates-Ends :
      (now : ℕ) (cs : List ReadyPayable) (s : Spending) (w : World G)
      → Ends cs s (run_candidates o now cs s w).0
  run_candidates-Ends now [] s w = (omega arith, λ f. f)
  run_candidates-Ends now (c ∷ cs) s w =
      by_first (run_candidate o now c s w).0 (run_candidate o now c s w).1
        (run_candidate-EndsOne now c s w) (λ t w'. run_candidates-Ends now cs t w')
    where
      by_first :
          (answer : Outcome Spending) (w' : World G)
          → EndsOne c s answer
          → ((t : Spending) (w'' : World G) → Ends cs t (run_candidates o now cs t w'').0)
          → Ends (c ∷ cs) s (proceed (run_candidates o now cs) (answer, w')).0
      by_first (ok t) w' first rest = Ends-later c cs s t _ first (rest t w')
      by_first (threw e) w' stops rest =
          (c, record { before = []; after = cs; place = refl }, stops)
