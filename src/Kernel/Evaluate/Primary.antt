-- ===== src/Kernel/Evaluate/Primary.antt =====
-- Which exception a blocked payable is presented by.
use pakta.Base.{
  ℕ, String, ◌≤◌, ◌<◌, Bool, ◌≡◌, refl, inl, inr, some, List, [], ◌∷◌, ◌++◌, arith, ltb, All,
  head_of, sort_by, insert_by, if◌then◌else◌, Bool-cases, ap, absurd,
}
use pakta.Canonical.Payable.{
  CanonicalPayable, Exception, ExceptionSeverity, low, medium, high, critical,
}
use pakta.Kernel.Rules.{Numerics, RuleContext}
use pakta.Kernel.Evaluate.{
  severity_rank, blocked, rank_of, result_of, evaluate_payable, exceptions_of, all_rules,
}

module _ {ℓ} {A : Type ℓ} (rank : A → ℕ) where
  -- `e` is the first element of `xs` whose rank no other falls below.
  pub record IsFirstLeast (e : A) (xs : List A) : Type ℓ where
    pub before : List A
    pub after : List A
    pub place : xs ≡ before ++ e ∷ after
    pub earlier : All (λ x. rank e < rank x) before
    pub later : All (λ x. rank e ≤ rank x) after

  abbrev less : A → A → Bool
  less a b = ltb (rank a) (rank b)

  least_of_place :
      (m : ℕ) (e : A) (before after : List A)
      → m ≤ rank e
      → All (λ x. rank e < rank x) before
      → All (λ x. rank e ≤ rank x) after
      → All (λ x. m ≤ rank x) (before ++ e ∷ after)
  least_of_place m e [] after h _ la = (h, weaken after la)
    where
      weaken : (xs : List A) → All (λ x. rank e ≤ rank x) xs → All (λ x. m ≤ rank x) xs
      weaken [] _ = tt
      weaken (x ∷ xs) (a, b) = (omega arith, weaken xs b)
  least_of_place m e (x ∷ before) after h ea la =
      (omega (arith, ea.0), least_of_place m e before after h ea.1 la)

  insert-IsFirstLeast :
      (x e : A) (xs : List A)
      → IsFirstLeast e xs
      → IsFirstLeast (if less e x then e else x) (x ∷ xs)
  insert-IsFirstLeast x e xs l = elim (Bool-cases (less e x)) [
    | inl lower ↦ rw lower (record {
      before = x ∷ l.before;
      after = l.after;
      place = ap (λ ys. x ∷ ys) l.place;
      earlier = (ground arith, l.earlier);
      later = l.later;
    })
    | inr kept ↦ rw kept (record {
      before = [];
      after = xs;
      place = refl;
      earlier = tt;
      later =
          rw l.place (least_of_place (rank x) e l.before l.after (ground arith) l.earlier l.later);
    })
  ]

  head_of-insert_by :
      (x e : A) (l : List A)
      → head_of l ≡ some e
      → head_of (insert_by less x l) ≡ some (if less e x then e else x)
  head_of-insert_by x e [] h = cc
  head_of-insert_by x e (z ∷ zs) h = ground arith

  pub sort_by-IsFirstLeast :
      (x : A) (xs : List A)
      → (e : A) × (head_of (sort_by less (x ∷ xs)) ≡ some e) × IsFirstLeast e (x ∷ xs)
  sort_by-IsFirstLeast x [] =
      (x, refl, record { before = []; after = []; place = refl; earlier = tt; later = tt })
  sort_by-IsFirstLeast x (y ∷ ys) =
      let (e, h, l) = sort_by-IsFirstLeast y ys in
      (
        if less e x then e else x,
        head_of-insert_by x e (sort_by less (y ∷ ys)) h,
        insert-IsFirstLeast x e (y ∷ ys) l,
      )

-- One severity is worse than another.
pub data IsWorse : ExceptionSeverity → ExceptionSeverity → Type 0 where
  critical_high : IsWorse critical high
  critical_medium : IsWorse critical medium
  critical_low : IsWorse critical low
  high_medium : IsWorse high medium
  high_low : IsWorse high low
  medium_low : IsWorse medium low

IsWorse-of_rank : (a b : ExceptionSeverity) → severity_rank a < severity_rank b → IsWorse a b
IsWorse-of_rank critical critical h = absurd (omega (arith, h))
IsWorse-of_rank critical high h = critical_high
IsWorse-of_rank critical medium h = critical_medium
IsWorse-of_rank critical low h = critical_low
IsWorse-of_rank high critical h = absurd (omega (arith, h))
IsWorse-of_rank high high h = absurd (omega (arith, h))
IsWorse-of_rank high medium h = high_medium
IsWorse-of_rank high low h = high_low
IsWorse-of_rank medium critical h = absurd (omega (arith, h))
IsWorse-of_rank medium high h = absurd (omega (arith, h))
IsWorse-of_rank medium medium h = absurd (omega (arith, h))
IsWorse-of_rank medium low h = medium_low
IsWorse-of_rank low critical h = absurd (omega (arith, h))
IsWorse-of_rank low high h = absurd (omega (arith, h))
IsWorse-of_rank low medium h = absurd (omega (arith, h))
IsWorse-of_rank low low h = absurd (omega (arith, h))

IsWorse-rank : (a b : ExceptionSeverity) → IsWorse a b → severity_rank b ≤ severity_rank a → ⊥
IsWorse-rank _ _ critical_high h = omega (arith, h)
IsWorse-rank _ _ critical_medium h = omega (arith, h)
IsWorse-rank _ _ critical_low h = omega (arith, h)
IsWorse-rank _ _ high_medium h = omega (arith, h)
IsWorse-rank _ _ high_low h = omega (arith, h)
IsWorse-rank _ _ medium_low h = omega (arith, h)

module _ (numerics : Numerics) where
  open numerics use {Num}

  -- The first of the most severe: every earlier one is less severe, and no later one is more so.
  pub record IsMostSevere (e : Exception Num) (es : List (Exception Num)) : Type 0 where
    pub before : List (Exception Num)
    pub after : List (Exception Num)
    pub place : es ≡ before ++ e ∷ after
    pub earlier : All (λ x. IsWorse e.severity x.severity) before
    pub later : All (λ x. IsWorse x.severity e.severity → ⊥) after

  IsFirstLeast-IsMostSevere :
      (e : Exception Num) (es : List (Exception Num))
      → IsFirstLeast rank_of e es
      → IsMostSevere e es
  IsFirstLeast-IsMostSevere e es l = record {
    before = l.before;
    after = l.after;
    place = l.place;
    earlier = worse_than l.before l.earlier;
    later = no_worse l.after l.later;
  }
    where
      worse_than :
          (xs : List (Exception Num))
          → All (λ x. rank_of e < rank_of x) xs
          → All (λ x. IsWorse e.severity x.severity) xs
      worse_than [] h = tt
      worse_than (x ∷ xs) h = (IsWorse-of_rank e.severity x.severity h.0, worse_than xs h.1)

      no_worse :
          (xs : List (Exception Num))
          → All (λ x. rank_of e ≤ rank_of x) xs
          → All (λ x. IsWorse x.severity e.severity → ⊥) xs
      no_worse [] h = tt
      no_worse (x ∷ xs) h = (λ worse. IsWorse-rank x.severity e.severity worse h.0, no_worse xs h.1)

  -- A blocked payable carries every exception that its rules raised, and is presented by one of them
  -- that is more severe than every earlier one and than which no later one is more severe, where
  -- CRITICAL is more severe than HIGH, HIGH than MEDIUM and MEDIUM than LOW.
  pub evaluate_payable-IsMostSevere :
      (p : CanonicalPayable Num) (c : RuleContext Num) (id : String) (es : List (Exception Num))
      (e : Exception Num)
      → evaluate_payable numerics p c ≡ blocked id es e
      → (id ≡ p.payable_id)
        × (es ≡ exceptions_of numerics (all_rules numerics) p c)
        × IsMostSevere e es
  unfolding evaluate_payable
  evaluate_payable-IsMostSevere p c id es e h =
      of_result (exceptions_of numerics (all_rules numerics) p c) h
    where
      of_result :
          (found : List (Exception Num))
          → result_of numerics p c found ≡ blocked id es e
          → (id ≡ p.payable_id) × (es ≡ found) × IsMostSevere e es
      of_result [] r = cc
      of_result (x ∷ xs) r =
          let (first, at_head, least) = sort_by-IsFirstLeast rank_of x xs in
          let same : es ≡ x ∷ xs = ground arith in
          let shown : e ≡ first = ground (arith, at_head) in
          (cc, same, rw (shown, same) (IsFirstLeast-IsMostSevere first (x ∷ xs) least))
