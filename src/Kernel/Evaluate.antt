-- ===== src/Kernel/Evaluate.antt =====
-- packages/rules-kernel/src/kernel.ts: every rule is run against a payable, and a batch is searched
-- for invoices that share a fingerprint.
pub mod Conditions
pub mod Payable
pub mod Primary
pub mod Batch
pub mod Reasons
use pakta.Base.{
  ℕ, String, Bool, true, false, Option, none, some, List, [], ◌∷◌, map, ltb, if◌then◌else◌, head_of,
  sort_by, get_or,
}
use pakta.Canonical.Payable.{
  CanonicalPayable, Exception, ExceptionSeverity, low, medium, high, critical,
}
use pakta.Kernel.Metadata.{metadata}
use pakta.Kernel.Rules.{
  Numerics, RuleContext, RuleResult, pass, fail, Rule, contains, invoice_fingerprint,
  duplicate_check, wallet_attestation, vendor_amount_match, approval_threshold, receipt_coverage,
  budget_available, proof_expiry,
}

abbrev pub severity_rank : ExceptionSeverity → ℕ
severity_rank critical = 0
severity_rank high = 1
severity_rank medium = 2
severity_rank low = 3

pub data KernelResult (Num : Type 0) : Type 0 where
  ready : String → String → KernelResult Num
  blocked : String → List (Exception Num) → Exception Num → KernelResult Num

-- `set.add(x)`
unfoldable pub set_add : String → List String → List String
unfolding contains
set_add x s = if contains x s then s else x ∷ s

-- The fingerprints that occur more than once, by the loop over what was seen.
unfoldable pub collisions :
    {Num : Type 0} → List String → List String → List (CanonicalPayable Num) → List String
unfolding set_add contains
collisions seen found [] = found
collisions seen found (p ∷ ps) =
    let fingerprint = invoice_fingerprint p in
    collisions (set_add fingerprint seen)
      (if contains fingerprint seen then set_add fingerprint found else found) ps

-- The union with what the context knows already.
abbrev pub union : List String → List String → List String
union [] s = s
union (x ∷ xs) s = set_add x (union xs s)

abbrev pub rank_of : {Num : Type 0} → Exception Num → ℕ
rank_of e = severity_rank e.severity

module _ (numerics : Numerics) where
  open numerics use {Num}

  abbrev pub all_rules : List (Rule numerics)
  all_rules =
      duplicate_check numerics
      ∷ wallet_attestation numerics
      ∷ vendor_amount_match numerics
      ∷ approval_threshold numerics
      ∷ receipt_coverage numerics
      ∷ budget_available numerics
      ∷ proof_expiry numerics
      ∷ []

  -- One round of the loop: a rule that fails adds an exception with its code's metadata.
  abbrev pub add_exception :
      CanonicalPayable Num
      → RuleContext Num
      → RuleResult Num
      → List (Exception Num)
      → List (Exception Num)
  add_exception p c pass rest = rest
  add_exception p c (fail reason message evidence) rest =
      record {
        payable_id = p.payable_id;
        reason = reason;
        message = message;
        severity = (metadata reason).severity;
        owner_role = (metadata reason).owner_role;
        required_action = (metadata reason).required_action;
        evidence = evidence;
        auto_revalidate = (metadata reason).auto_revalidate;
        policy_version = c.policy.policy_version;
      }
      ∷ rest

  unfoldable pub exceptions_of :
      List (Rule numerics) → CanonicalPayable Num → RuleContext Num → List (Exception Num)
  exceptions_of [] p c = []
  exceptions_of (rule ∷ rules) p c = add_exception p c (rule p c) (exceptions_of rules p c)

  -- The most severe exception, the earliest of those: `[...exceptions].sort(…)[0]`.
  abbrev pub primary_of : Exception Num → List (Exception Num) → Exception Num
  primary_of e es = get_or e (head_of (sort_by (λ a b. ltb (rank_of a) (rank_of b)) (e ∷ es)))

  abbrev pub result_of :
      CanonicalPayable Num → RuleContext Num → List (Exception Num) → KernelResult Num
  result_of p c [] = ready p.payable_id c.policy.policy_version
  result_of p c (e ∷ es) = blocked p.payable_id (e ∷ es) (primary_of e es)

  unfoldable pub evaluate_payable : CanonicalPayable Num → RuleContext Num → KernelResult Num
  evaluate_payable p c = result_of p c (exceptions_of all_rules p c)

  abbrev pub batch_context : List (CanonicalPayable Num) → RuleContext Num → RuleContext Num
  batch_context payables c = record c {
    known_invoice_fingerprints = union c.known_invoice_fingerprints (collisions [] [] payables);
  }

  -- Where the source's context has no known fingerprints, the list of `c` is empty.
  unfoldable pub evaluate_batch :
      List (CanonicalPayable Num) → RuleContext Num → List (KernelResult Num)
  unfolding evaluate_payable
  evaluate_batch payables c = map (λ p. evaluate_payable p (batch_context payables c)) payables
