-- ===== src/Settlement/Action.antt =====
-- The monad of packages/settlement's asynchronous methods: each `await` may change the outside world
-- and the store, and a throw leaves what was done before it.
use pakta.Base.Outcome.{Outcome, ok, threw, Failure}
use pakta.Settlement.Store.{Store}

pub record World (G : Type 0) : Type 0 where
  pub gate : G
  pub store : Store

abbrev pub Action : Type 0 → Type 0 → Type 0
Action G A = World G → Outcome A × World G

module _ {G : Type 0} {A : Type 0} where
  abbrev pub return : A → Action G A
  return a w = (ok a, w)

  abbrev pub throw : Failure → World G → Outcome A × World G
  throw e w = (threw e, w)

  -- A call of the gate.
  abbrev pub ask_gate : (G → Outcome A × G) → World G → Outcome A × World G
  ask_gate f w = let (o, g) = f w.gate in (o, record w { gate = g })

  -- A read of the store or of the clock.
  abbrev pub read : (World G → A) → World G → Outcome A × World G
  read f w = (ok (f w), w)

  -- An outcome that is already known, such as that of a pure function which may throw.
  abbrev pub of_outcome : Outcome A → World G → Outcome A × World G
  of_outcome o w = (o, w)

  -- `try { … } catch`: the outcome as a value.
  abbrev pub attempt : (World G → Outcome A × World G) → World G → Outcome (Outcome A) × World G
  attempt m w = let (o, w') = m w in (ok o, w')

module _ {G : Type 0} where
  abbrev pub modify_store : (Store → Store) → World G → Outcome (Unit {0}) × World G
  modify_store f w = (ok tt, record w { store = f w.store })

-- What follows an outcome: the rest of the block, or nothing after a throw.
abbrev pub proceed :
    {G A B : Type 0}
    → (A → World G → Outcome B × World G)
    → Outcome A × World G
    → Outcome B × World G
proceed k (ok a, w) = k a w
proceed k (threw e, w) = (threw e, w)

infixl 5 ◌>>=◌ ◌>>◌
abbrev pub ◌>>=◌ :
    {G A B : Type 0}
    → (World G → Outcome A × World G)
    → (A → World G → Outcome B × World G)
    → World G
    → Outcome B × World G
◌>>=◌ m k w = proceed k (m w)

abbrev pub ◌>>◌ :
    {G B : Type 0}
    → (World G → Outcome (Unit {0}) × World G)
    → (World G → Outcome B × World G)
    → World G
    → Outcome B × World G
m >> k = m >>= λ _. k
