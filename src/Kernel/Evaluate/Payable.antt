-- ===== src/Kernel/Evaluate/Payable.antt =====
-- When a payable is READY, rule by rule.
use pakta.Base.{
  String, ◌≤◌, true, false, ◌≡◌, refl, ◌↔◌, ◌⊎◌, inl, inr, Option, none, some, List, [], ◌∷◌, All,
  arith, eq_iff, Bool-cases, Option-cases, length, absurd,
}
use pakta.Base.Int.{ℤ}
use pakta.Canonical.Payable.{CanonicalPayable, Exception, VendorWallet, PurchaseOrder, Receipt}
use pakta.Kernel.Rules.{
  Numerics, RuleContext, RuleResult, pass, fail, Rule, duplicate_check, wallet_attestation,
  check_wallet, vendor_amount_match, check_amount, approval_threshold, receipt_coverage,
  check_receipts, budget_available, proof_expiry, check_expiry, tracked, confirmed_from,
  invoiced_from, cover,
}
use pakta.Kernel.Evaluate.{
  ready, evaluate_payable, exceptions_of, add_exception, result_of, all_rules,
}
use pakta.Kernel.Evaluate.Conditions.{
  IsWithin, IsAttested, totals, IsUntracked, IsCovered, IsCurrent, IsNew, contains-IsNew, IsPayable,
}

module _ (numerics : Numerics) where
  open numerics use {Num, zero_num, add_num, ge_num, decimal, mul, div_hundred, plus, lte, gt}

  -- The list of exceptions is empty exactly when every rule passes.
  add_exception-nil :
      (p : CanonicalPayable Num) (c : RuleContext Num) (o : RuleResult Num)
      (rest : List (Exception Num))
      → add_exception numerics p c o rest ≡ []
      → (o ≡ pass) × (rest ≡ [])
  add_exception-nil p c pass rest h = (refl, h)
  add_exception-nil p c (fail reason message evidence) rest h = cc

  result_of-ready :
      (p : CanonicalPayable Num) (c : RuleContext Num) (es : List (Exception Num))
      → result_of numerics p c es ≡ ready p.payable_id c.policy.policy_version
      → es ≡ []
  result_of-ready p c [] h = refl
  result_of-ready p c (e ∷ es) h = cc

  pub evaluate_payable-version :
      (p : CanonicalPayable Num) (c : RuleContext Num) (id version : String)
      → evaluate_payable numerics p c ≡ ready id version
      → version ≡ c.policy.policy_version
  unfolding evaluate_payable
  evaluate_payable-version p c id version h =
      of_result (exceptions_of numerics (all_rules numerics) p c) h
    where
      of_result :
          (es : List (Exception Num))
          → result_of numerics p c es ≡ ready id version
          → version ≡ c.policy.policy_version
      of_result [] r = cc
      of_result (e ∷ es) r = cc

  abbrev AllPass : List (Rule numerics) → CanonicalPayable Num → RuleContext Num → Type 0
  AllPass rules p c = All (λ rule. rule p c ≡ pass) rules

  exceptions_of-nil :
      (rules : List (Rule numerics)) (p : CanonicalPayable Num) (c : RuleContext Num)
      → exceptions_of numerics rules p c ≡ []
      → AllPass rules p c
  unfolding exceptions_of
  exceptions_of-nil [] p c h = tt
  exceptions_of-nil (rule ∷ rules) p c h =
      let (passes, rest) = add_exception-nil p c (rule p c) (exceptions_of numerics rules p c) h in
      (passes, exceptions_of-nil rules p c rest)

  nil-exceptions_of :
      (rules : List (Rule numerics)) (p : CanonicalPayable Num) (c : RuleContext Num)
      → AllPass rules p c
      → exceptions_of numerics rules p c ≡ []
  unfolding exceptions_of
  nil-exceptions_of [] p c h = refl
  nil-exceptions_of (rule ∷ rules) p c h = rw (h.0, add_exception) (nil-exceptions_of rules p c h.1)

  module _ (p : CanonicalPayable Num) (c : RuleContext Num) where
    duplicate_check-pass : (duplicate_check numerics p c ≡ pass) ↔ (
        ((c.policy.rules.duplicate_detection ≡ false)
          ⊎ IsNew numerics p c.settled_invoice_fingerprints)
        × ((c.policy.rules.duplicate_detection ≡ false)
            ⊎ IsNew numerics p c.known_invoice_fingerprints))
    unfolding duplicate_check
    duplicate_check-pass =
        let settled = contains-IsNew numerics p c.settled_invoice_fingerprints in
        let known = contains-IsNew numerics p c.known_invoice_fingerprints in
        elim (Bool-cases c.policy.rules.duplicate_detection) [
          | inr off ↦ (λ h. (inl off, inl off), λ h. ground (arith, off))
          | inl on ↦ (
            λ h. (inr (settled.0 (ground (arith, on))), inr (known.0 (ground (arith, on)))),
            λ h.
                let not_settled = sought c.settled_invoice_fingerprints on h.0 in
                let not_known = sought c.known_invoice_fingerprints on h.1 in
                ground (arith, on, settled.1 not_settled, known.1 not_known),
          )
        ]
      where
        sought :
            (fingerprints : List String)
            → c.policy.rules.duplicate_detection ≡ true
            → (c.policy.rules.duplicate_detection ≡ false) ⊎ IsNew numerics p fingerprints
            → IsNew numerics p fingerprints
        sought fingerprints on (inl off) = absurd (cc (on, off))
        sought fingerprints on (inr new) = new

    approval_threshold-pass : (approval_threshold numerics p c ≡ pass) ↔ (
        (1 ≤ length p.approvals)
        × (gt (decimal p.invoice.amount) (decimal c.policy.rules.second_approval_above) ≡ true
            → 2 ≤ length p.approvals))
    unfolding approval_threshold
    approval_threshold-pass =
        elim (Bool-cases
          (gt (decimal p.invoice.amount) (decimal c.policy.rules.second_approval_above))) [
            | inl large ↦ (λ h. (ground arith, λ _. ground arith), λ h. ground (arith, h.1 large))
            | inr small ↦ (λ h. (ground arith, λ g. cc (g, small)), λ h. ground (arith, h.0))
          ]

    check_amount-pass :
        (o : Option PurchaseOrder) → (check_amount numerics p c o ≡ pass) ↔ IsWithin numerics p c o
    check_amount-pass none = (λ h. tt, λ h. refl)
    check_amount-pass (some po) = (λ h. ground arith, λ h. rw h)

    check_expiry-pass : (o : Option ℤ) → (check_expiry numerics c o ≡ pass) ↔ IsCurrent numerics c o
    check_expiry-pass none = (λ h. tt, λ h. refl)
    check_expiry-pass (some at) = (λ h. ground arith, λ h. rw h)

    cover-pass :
        (rs : List (Receipt Num))
        → (cover numerics rs ≡ pass) ↔ (
            (rs ≡ [])
            ⊎ (ge_num (confirmed_from numerics zero_num rs) (invoiced_from numerics zero_num rs)
                ≡ true))
    cover-pass [] = (λ h. inl refl, λ h. refl)
    cover-pass (r ∷ rs) = (λ h. inr (ground arith), λ h. ground arith)

    pub totals-tracked :
        (x y : Num) (rs : List (Receipt Num))
        → totals numerics x y rs ≡ (
          confirmed_from numerics x (tracked numerics rs),
          invoiced_from numerics y (tracked numerics rs),
        )
    totals-tracked x y [] = refl
    totals-tracked x y (r ∷ rs) = elim (Option-cases r.invoiced_qty) [
      | inl none_told ↦ rw none_told (totals-tracked x y rs)
      | inr (q, told) ↦ rw told (totals-tracked (add_num x r.confirmed_qty) (add_num y q) rs)
    ]

    pub tracked-nil :
        (rs : List (Receipt Num)) → (tracked numerics rs ≡ []) ↔ All (IsUntracked numerics) rs
    tracked-nil [] = (λ h. tt, λ h. refl)
    tracked-nil (r ∷ rs) = elim (Option-cases r.invoiced_qty) [
      | inl none_told ↦ (
        λ e. (none_told, (tracked-nil rs).0 (cc (e, none_told))),
        λ u. rw none_told ((tracked-nil rs).1 u.1),
      )
      | inr (q, told) ↦ (λ e. cc (e, told), λ u. cc (u.0, told))
    ]

    check_receipts-pass :
        (rs : List (Receipt Num))
        → (check_receipts numerics p c rs ≡ pass) ↔ IsCovered numerics c rs
    check_receipts-pass [] = (λ h. ground arith, λ h. rw h)
    check_receipts-pass (r ∷ rs) =
        let covered = cover-pass (tracked numerics (r ∷ rs)) in
        let sums = totals-tracked zero_num zero_num (r ∷ rs) in
        let none_tracked = tracked-nil (r ∷ rs) in
        (
          λ h. elim (covered.0 h) [
            | inl e ↦ inl (none_tracked.0 e)
            | inr enough ↦ inr (rw sums enough)
          ],
          λ h. elim h [
            | inl u ↦ covered.1 (inl (none_tracked.1 u))
            | inr enough ↦ covered.1 (inr (cc (enough, sums)))
          ],
        )

    to_attested :
        (o : Option VendorWallet)
        → p.vendor_wallet ≡ o
        → check_wallet numerics p o ≡ pass
        → IsAttested numerics p
    to_attested none e h = cc
    to_attested (some w) e h = record {
      wallet = w;
      on_file = e;
      attested_wallet = ground arith;
      verified_vendor = ground arith;
      same_address = ground (arith, eq_iff w.address p.invoice.wallet_address);
    }

    wallet_attestation-pass : (wallet_attestation numerics p c ≡ pass) ↔ IsAttested numerics p
    unfolding wallet_attestation
    wallet_attestation-pass = (
      to_attested p.vendor_wallet refl,
      λ a.
          rw (a.on_file, check_wallet)
            (ground (
              arith,
              a.attested_wallet,
              a.verified_vendor,
              eq_iff a.wallet.address p.invoice.wallet_address,
              a.same_address,
            )),
    )

    budget_available-pass : budget_available numerics p c ≡ pass
    unfolding budget_available
    budget_available-pass = ground arith

    -- A payable is READY exactly when: duplicates are not looked for or its fingerprint is neither
    -- settled nor known; its vendor is verified with an attested wallet at the address that the
    -- invoice names; a purchase order, if there is one, covers the invoice's amount with the policy's
    -- percentage added; there is an approval, and there are two where the amount is above the
    -- policy's limit; without receipts none is required, and with some either none tells what was
    -- invoiced or what was confirmed is no less than that; and it has not expired.
    pub evaluate_payable-ready_iff :
        (evaluate_payable numerics p c ≡ ready p.payable_id c.policy.policy_version)
        ↔ IsPayable numerics p c
    unfolding evaluate_payable vendor_amount_match receipt_coverage proof_expiry
    evaluate_payable-ready_iff = (
      λ h.
          let (dup, (wallet, (amount, (approvals, (receipts, (_, (expiry, _))))))) =
            exceptions_of-nil (all_rules numerics) p c
              (result_of-ready p c (exceptions_of numerics (all_rules numerics) p c) h) in
          let (settled, known) = duplicate_check-pass.0 dup in
          record {
            not_settled = settled;
            not_known = known;
            attested = wallet_attestation-pass.0 wallet;
            within = (check_amount-pass p.purchase_order).0 amount;
            one_approval = (approval_threshold-pass.0 approvals).0;
            second_approval = (approval_threshold-pass.0 approvals).1;
            covered = (check_receipts-pass p.receipts).0 receipts;
            current = (check_expiry-pass p.expires_at).0 expiry;
          },
      λ h.
          rw
            (
              nil-exceptions_of (all_rules numerics) p c (
                duplicate_check-pass.1 (h.not_settled, h.not_known),
                (
                  wallet_attestation-pass.1 h.attested,
                  (
                    (check_amount-pass p.purchase_order).1 h.within,
                    (
                      approval_threshold-pass.1 (h.one_approval, h.second_approval),
                      (
                        (check_receipts-pass p.receipts).1 h.covered,
                        (budget_available-pass, ((check_expiry-pass p.expires_at).1 h.current, tt)),
                      ),
                    ),
                  ),
                ),
              ),
              result_of,
            )
            refl,
    )
