-- ===== src/Kernel/Evaluate/Batch.antt =====
-- When a payable of a batch is READY.
use pakta.Base.{
  ◌⊎◌, ℕ, zero, suc, ◌+◌, ◌≤◌, String, Bool, true, false, ◌||◌, ◌&&◌, ◌≡◌, refl, ◌↔◌, ◌==◌, eq_iff,
  some, List, [], ◌∷◌, map, get_elem?, arith, leb, if◌then◌else◌, Bool-cases, inl, inr, sym, ◌∙◌,
}
use pakta.Canonical.Payable.{CanonicalPayable}
use pakta.Kernel.Rules.{Numerics, RuleContext, contains, invoice_fingerprint}
use pakta.Kernel.Evaluate.{
  KernelResult, ready, evaluate_payable, evaluate_batch, batch_context, collisions, union, set_add,
}
use pakta.Kernel.Evaluate.Conditions.{IsPayable, IsNew, contains-IsNew}
use pakta.Kernel.Evaluate.Payable.{evaluate_payable-ready_iff}

abbrev one_if : Bool → ℕ
one_if true = 1
one_if false = 0

-- How many payables of a batch have a fingerprint.
abbrev pub occurrences : {Num : Type 0} → String → List (CanonicalPayable Num) → ℕ
occurrences f [] = 0
occurrences f (p ∷ ps) = one_if (invoice_fingerprint p == f) + occurrences f ps

contains-set_add :
    (f x : String) (s : List String) → contains f (set_add x s) ≡ (x == f || contains f s)
unfolding set_add contains
contains-set_add f x s = elim (Bool-cases (contains x s)) [
  | inl has ↦ rw has (elim (Bool-cases (x == f)) [
    | inl same ↦ rw (same, sym ((eq_iff x f).0 same)) has
    | inr other ↦ rw other refl
  ])
  | inr new ↦ rw new refl
]

or_assoc : (a b c : Bool) → (a || (b || c)) ≡ ((a || b) || c)
or_assoc true b c = refl
or_assoc false b c = refl

contains-union :
    (f : String) (xs s : List String) → contains f (union xs s) ≡ (contains f xs || contains f s)
unfolding contains
contains-union f [] s = refl
contains-union f (x ∷ xs) s =
    rw (contains-set_add f x (union xs s), contains-union f xs s)
      (or_assoc (x == f) (contains f xs) (contains f s))

or_true : (b : Bool) → (b || true) ≡ true
or_true true = refl
or_true false = refl

or_false : (b : Bool) → (b || false) ≡ b
or_false true = refl
or_false false = refl

contains-found :
    (f x : String) (seen found : List String)
    → contains f (if contains x seen then set_add x found else found)
      ≡ (contains f found || (x == f && contains f seen))
contains-found f x seen found = elim (Bool-cases (x == f)) [
  | inl same ↦ elim (Bool-cases (contains x seen)) [
    | inl has ↦
        rw (has, contains-set_add f x found, same, sym ((eq_iff x f).0 same), has)
          (sym (or_true (contains x found)))
    | inr new ↦ rw (new, same, sym ((eq_iff x f).0 same), new) (sym (or_false (contains x found)))
  ]
  | inr other ↦ elim (Bool-cases (contains x seen)) [
    | inl has ↦ rw (has, contains-set_add f x found, other) (sym (or_false (contains f found)))
    | inr new ↦ rw (new, other) (sym (or_false (contains f found)))
  ]
]

count_step :
    (a b c : Bool) (n : ℕ)
    → ((c || (a && b)) || leb 2 (one_if (a || b) + n)) ≡ (c || leb 2 (one_if b + (one_if a + n)))
count_step true true true n = refl
count_step true true false n = ground arith
count_step true false true n = refl
count_step true false false n = ground arith
count_step false b true n = refl
count_step false true false n = ground arith
count_step false false false n = ground arith

module _ {Num : Type 0} where
  contains-collisions :
      (f : String) (seen found : List String) (ps : List (CanonicalPayable Num))
      → contains f (collisions seen found ps)
        ≡ (contains f found || leb 2 (one_if (contains f seen) + occurrences f ps))
  unfolding collisions
  contains-collisions f seen found [] = ground arith
  contains-collisions f seen found (p ∷ ps) =
      let x = invoice_fingerprint p in
      rw
        (
          contains-collisions f (set_add x seen)
              (if contains x seen then set_add x found else found) ps,
          contains-found f x seen found,
          contains-set_add f x seen,
        )
        (count_step (x == f) (contains f seen) (contains f found) (occurrences f ps))

get_elem?-map {ℓ κ} :
    {A : Type ℓ} {B : Type κ} (g : A → B) (xs : List A) (i : ℕ) (x : A)
    → get_elem? xs i ≡ some x
    → get_elem? (map g xs) i ≡ some (g x)
get_elem?-map g [] i x h = cc
get_elem?-map g (y ∷ ys) zero x h = cc
get_elem?-map g (y ∷ ys) (suc i) x h = get_elem?-map g ys i x h

zero_plus : (n : ℕ) → 0 + n ≡ n
zero_plus n = omega arith

leb_two : (n : ℕ) → (leb 2 n ≡ false) ↔ (n ≤ 1)
leb_two n = (λ h. ground arith, λ h. ground arith)

module _ (numerics : Numerics) where
  open numerics use {Num}

  abbrev pub IsReady : CanonicalPayable Num → RuleContext Num → KernelResult Num → Type 0
  IsReady p c r = r ≡ ready p.payable_id c.policy.policy_version

  module _ (payables : List (CanonicalPayable Num)) (c : RuleContext Num)
      (p : CanonicalPayable Num) where
    known_in_batch :
        contains
          (invoice_fingerprint p)
          ((batch_context numerics payables c).known_invoice_fingerprints)
        ≡ (contains (invoice_fingerprint p) c.known_invoice_fingerprints
            || leb 2 (occurrences (invoice_fingerprint p) payables))
    unfolding contains
    known_in_batch =
        let f = invoice_fingerprint p in
        rw
          (
            contains-union f c.known_invoice_fingerprints (collisions [] [] payables),
            contains-collisions f [] [] payables,
            zero_plus (occurrences f payables),
          )
          refl

    both_false : (a b : Bool) → (a || b) ≡ false → (a ≡ false) × (b ≡ false)
    both_false true b h = (h, cc)
    both_false false b h = (refl, h)

    IsPayable-in_batch : IsPayable numerics p (batch_context numerics payables c) ↔ (
        IsPayable numerics p c
        × ((c.policy.rules.duplicate_detection ≡ false)
            ⊎ (occurrences (invoice_fingerprint p) payables ≤ 1)))
    IsPayable-in_batch = (
      λ h. (
        record {
          not_settled = h.not_settled;
          not_known = elim h.not_known [
            | inl off ↦ inl off
            | inr new ↦ inr (
                (contains-IsNew numerics p c.known_invoice_fingerprints).0
                  (apart (in_batch.1 new)).0)
          ];
          attested = h.attested;
          within = h.within;
          one_approval = h.one_approval;
          second_approval = h.second_approval;
          covered = h.covered;
          current = h.current;
        },
        elim h.not_known [
          | inl off ↦ inl off
          | inr new ↦ inr (
              (leb_two (occurrences (invoice_fingerprint p) payables)).0 (apart (in_batch.1 new)).1)
        ],
      ),
      λ h. record {
        not_settled = h.0.not_settled;
        not_known = elim h.0.not_known [
          | inl off ↦ inl off
          | inr new ↦ elim h.1 [
            | inl off ↦ inl off
            | inr once ↦ inr (
                in_batch.0
                  (among ((contains-IsNew numerics p c.known_invoice_fingerprints).1 new) once))
          ]
        ];
        attested = h.0.attested;
        within = h.0.within;
        one_approval = h.0.one_approval;
        second_approval = h.0.second_approval;
        covered = h.0.covered;
        current = h.0.current;
      },
    )
      where
        in_batch :
            (contains
                (invoice_fingerprint p)
                ((batch_context numerics payables c).known_invoice_fingerprints)
              ≡ false)
            ↔ IsNew numerics p (batch_context numerics payables c).known_invoice_fingerprints
        in_batch =
            contains-IsNew numerics p (batch_context numerics payables c).known_invoice_fingerprints

        apart :
            contains
                (invoice_fingerprint p)
                ((batch_context numerics payables c).known_invoice_fingerprints)
              ≡ false
            → (contains (invoice_fingerprint p) c.known_invoice_fingerprints ≡ false)
              × (leb 2 (occurrences (invoice_fingerprint p) payables) ≡ false)
        apart new =
            both_false (contains (invoice_fingerprint p) c.known_invoice_fingerprints)
              (leb 2 (occurrences (invoice_fingerprint p) payables)) (sym known_in_batch ∙ new)

        among :
            contains (invoice_fingerprint p) c.known_invoice_fingerprints ≡ false
            → occurrences (invoice_fingerprint p) payables ≤ 1
            → contains
                (invoice_fingerprint p)
                ((batch_context numerics payables c).known_invoice_fingerprints)
              ≡ false
        among new once =
            rw
              (known_in_batch, new, (leb_two (occurrences (invoice_fingerprint p) payables)).1 once)
              refl

    -- The result at a payable's place in a batch is READY exactly when the payable is READY by
    -- itself and, if duplicates are looked for, no other payable of the batch has its fingerprint.
    pub evaluate_batch-IsReady_iff :
        (i : ℕ)
        → get_elem? payables i ≡ some p
        → (r : KernelResult Num) × (get_elem? (evaluate_batch numerics payables c) i ≡ some r)
          × (IsReady p c r ↔ (
              IsReady p c (evaluate_payable numerics p c)
              × ((c.policy.rules.duplicate_detection ≡ false)
                  ⊎ (occurrences (invoice_fingerprint p) payables ≤ 1))))
    unfolding evaluate_batch
    evaluate_batch-IsReady_iff i at =
        let alone = evaluate_payable-ready_iff numerics p c in
        let among = evaluate_payable-ready_iff numerics p (batch_context numerics payables c) in
        let apart = IsPayable-in_batch in
        (
          evaluate_payable numerics p (batch_context numerics payables c),
          get_elem?-map (λ q. evaluate_payable numerics q (batch_context numerics payables c))
              payables i p at,
          (
            λ h. (alone.1 (apart.0 (among.0 h)).0, (apart.0 (among.0 h)).1),
            λ h. among.1 (apart.1 (alone.0 h.0, h.1)),
          ),
        )
